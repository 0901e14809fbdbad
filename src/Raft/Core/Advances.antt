-- ===== src/Raft/Core/Advances.antt =====
-- core.rs: the relation between cores for the term and the vote, and the operations under it.
use basisdb.Base.{◌+◌, ◌≤◌, ◌<◌, ◌≡◌, refl, sym, ◌∙◌, true, Option, some, arith, add64_lem, u64_mod}
use basisdb.Raft.NodeSet.{NodeId}
use basisdb.Raft.Log.{Term}
use basisdb.Raft.Core.{
  Core, term_of, maybe_update_term, start_election, vote_for, can_vote_for, random_election_timeout,
}

abbrev pub voted_for : Core → Option NodeId
voted_for c = c.persistent.voted_for

pub record Advances (c d : Core) : Type 0 where
  pub term_le : term_of c ≤ term_of d
  pub vote_kept : (v : NodeId) → term_of d ≡ term_of c → voted_for c ≡ some v → voted_for d ≡ some v

pub Advances-refl : (c : Core) → Advances c c
Advances-refl c = record { term_le = omega arith; vote_kept = λ v e h. h }

pub Advances-trans : {c d e : Core} → Advances c d → Advances d e → Advances c e
Advances-trans {c} {d} {e} f g = record {
  term_le = omega (arith, f.term_le, g.term_le);
  vote_kept = λ v eq h.
      let same : term_of d ≡ term_of c = omega (arith, f.term_le, g.term_le) in
      g.vote_kept v (eq ∙ sym same) (f.vote_kept v same h);
}

-- The term and the vote are as before.
pub record SameVote (c d : Core) : Type 0 where
  pub same_term : term_of d ≡ term_of c
  pub same_vote : voted_for d ≡ voted_for c

pub SameVote-Advances : {c d : Core} → SameVote c d → Advances c d
SameVote-Advances s = record {
  term_le = omega (arith, s.same_term);
  vote_kept = λ v e h. s.same_vote ∙ h;
}

pub random_election_timeout-persistent :
    (c : Core) → (random_election_timeout c).0.persistent ≡ c.persistent
unfolding random_election_timeout
random_election_timeout-persistent c = refl

pub maybe_update_term-Advances : (c : Core) (t : Term) → Advances c (maybe_update_term c t).0
unfolding maybe_update_term
maybe_update_term-Advances c t = record {
  term_le = ground arith;
  vote_kept = λ v e h. ground arith;
}

pub start_election-Advances : (c : Core) → term_of c + 1 < u64_mod → Advances c (start_election c)
unfolding start_election
start_election-Advances c h = record {
  term_le = omega (arith, add64_lem (term_of c) 1 h);
  vote_kept = λ v e k. absurd (omega (arith, add64_lem (term_of c) 1 h));
}

pub vote_for-Advances :
    (c : Core) (id : NodeId) → can_vote_for c id ≡ true → Advances c (vote_for c id)
unfolding vote_for can_vote_for
vote_for-Advances c id h = record { term_le = omega arith; vote_kept = λ v e k. ground arith }
