-- ===== src/Raft/Event/Grants.antt =====
-- event.rs: predicates of effects for the votes that they grant.
use basisdb.Base.{◌≡◌, ◌⊎◌, some, Bool, true, false, arith, All, All-append, All-imp}
use basisdb.Raft.Event.{Message, Payload, vote_response, Effects, merge, StepResult, stay}
use basisdb.Raft.Core.{Core, term_of}
use basisdb.Raft.Core.Advances.{voted_for}

-- The payload that grants a vote.
abbrev pub grants : Payload → Bool
grants (vote_response r) = r.granted
grants _ = false

abbrev pub NoGrants : Effects → Type 0
NoGrants e = All (λ (m : Message). grants m.payload ≡ false) e.messages

-- Each vote that is granted stands in the core, goes out at its term and is to be persisted.
abbrev pub Recorded : Core → Effects → Type 0
Recorded c e =
    All
      (λ (m : Message).
        grants m.payload ≡ true
        → (voted_for c ≡ some m.receiver) × (m.term ≡ term_of c) × (e.persist ≡ true))
      e.messages

pub NoGrants-merge : (a b : Effects) → NoGrants a → NoGrants b → NoGrants (merge a b)
NoGrants-merge a b h k = All-append _ a.messages b.messages h k

pub NoGrants-Recorded : (c : Core) (e : Effects) → NoGrants e → Recorded c e
NoGrants-Recorded c e h =
    All-imp (λ (m : Message). grants m.payload ≡ false) _ e.messages
      (λ m no_grant grant. absurd (ground arith)) h

-- What a role's step sends: no grant, or recorded grants and no change of the role.
abbrev pub Sound : Core → StepResult → Type 0
Sound c r = NoGrants r.effects ⊎ (r.transition ≡ stay) × Recorded c r.effects
