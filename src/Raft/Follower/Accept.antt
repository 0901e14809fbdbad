-- ===== src/Raft/Follower/Accept.antt =====
-- follower.rs, `handle_append_request`: the branch that passes the consistency check.
use basisdb.Base.{
  ℕ, get_elem?, some, ◌⊎◌, inl, inr, Bool-cases, suc, ◌+◌, ◌≤◌, ◌<◌, ◌≡◌, refl, sym, ◌∙◌, Bool,
  true, false, List, [], ◌∷◌, arith, length, leb, u64_mod, if_rule,
}
use mathlib.Core.Path.{subst}
use basisdb.Raft.NodeSet.{NodeId}
use basisdb.Raft.Log.{Entry, LogIndex, get, term_at, Log, append}
use basisdb.Raft.Log.Valid.{IsNumbered, IsValid, end_index}
use basisdb.Raft.Log.View.{term_at_above, get-past_end}
use basisdb.Raft.Event.{AppendRequest}
use basisdb.Raft.Core.{Core, log_of, random_election_timeout}
use basisdb.Raft.Follower.{
  Follower, reset_deadline, Stepped, append_entry, append_entries, mismatches,
  handle_append_request, hear_from, accept_append,
}
use basisdb.Raft.Follower.Append.{HasTerms, Matches, append_entry-cases, append_entries-Matches}

-- A request as a leader makes it: its entries follow the previous index, and no term of an
-- existing index is 0.
pub record IsRequest (req : AppendRequest) : Type 0 where
  pub numbered : IsNumbered (suc req.prev_log_index) req.entries
  pub terms : HasTerms req.entries
  pub prev_term : (req.prev_log_index ≡ 0) ⊎ (0 < req.prev_log_term)
  pub fits : suc req.prev_log_index + length req.entries < u64_mod

-- A follower's log: well formed, and every entry has a term.
pub record IsGood (log : Log) : Type 0 where
  pub valid : IsValid log
  pub terms : HasTerms log.entries

-- The consistency check holds only at an index that the log reaches.
matched-reaches :
    (log : Log) (req : AppendRequest)
    → IsRequest req
    → mismatches log req ≡ false
    → req.prev_log_index ≤ end_index log
unfolding mismatches
matched-reaches log req r h = elim (Bool-cases (leb req.prev_log_index (end_index log))) [
  | inl e ↦ ground arith
  | inr e ↦ ground (
    arith,
    term_at_above log req.prev_log_index,
    get-past_end log req.prev_log_index,
    r.prev_term,
  )
]

-- The log that an accepted request leaves matches the request.
pub accept_append-Matches :
    (c : Core) (req : AppendRequest)
    → IsGood (log_of c)
    → IsRequest req
    → (log_of c).snapshot_index ≤ req.prev_log_index
    → mismatches (log_of c) req ≡ false
    → Matches (suc req.prev_log_index) req.entries (log_of c) (log_of (accept_append c req).0)
unfolding accept_append
accept_append-Matches c req g r s h =
    append_entries-Matches (log_of c) false (suc req.prev_log_index) req.entries g.valid g.terms
      (omega arith) (omega (arith, matched-reaches (log_of c) req r h)) r.numbered r.terms r.fits

append_entry-persists : (log : Log) (e : Entry) → (append_entry log true e).1 ≡ true
unfolding append_entry
append_entry-persists log e = ground arith

-- Once the flag is set, it stays.
append_entries-persists : (log : Log) (es : List Entry) → (append_entries log true es).1 ≡ true
unfolding append_entries
append_entries-persists log [] = refl
append_entries-persists log (e ∷ es) =
    subst (λ b. (append_entries (append_entry log true e).0 b es).1 ≡ true)
      (sym (append_entry-persists log e)) (append_entries-persists (append_entry log true e).0 es)

-- A loop that leaves the flag unset leaves the log as it was.
append_entries-unpersisted :
    (log : Log) (first : LogIndex) (es : List Entry)
    → IsGood log
    → log.snapshot_index < first
    → first ≤ end_index log + 1
    → IsNumbered first es
    → HasTerms es
    → first + length es < u64_mod
    → (append_entries log false es).1 ≡ false
    → (append_entries log false es).0 ≡ log
unfolding append_entries
append_entries-unpersisted log first [] g h k n p fits u = refl
append_entries-unpersisted log first (e ∷ es) g h k n p fits u =
    let Kept : Log × Bool → Type 0 =
      λ s. (append_entries s.0 s.1 es).1 ≡ false → (append_entries s.0 s.1 es).0 ≡ log in
    elim (append_entry-cases log false e g.valid g.terms (omega (arith, n.0))
      (omega (arith, n.0))) [
        | inl (same, reaches, term) ↦
            subst Kept (sym same)
              (append_entries-unpersisted log (suc first) es g (omega arith)
                (omega (arith, reaches, n.0)) n.1 p.1 (omega arith))
              u
        | inr (cut, below, eq) ↦
            subst Kept (sym eq)
              (λ unset. absurd (ground (arith, unset, append_entries-persists (append cut e) es))) u
      ]

-- The log after the handler, all of it.
handle_append_request-Matches :
    (f : Follower) (c : Core) (from : NodeId) (req : AppendRequest)
    → IsGood (log_of c)
    → IsRequest req
    → (log_of c).snapshot_index ≤ req.prev_log_index
    → mismatches (log_of c) req ≡ false
    → (let s = handle_append_request f c from req in
        Matches (suc req.prev_log_index) req.entries (log_of c) (log_of s.1)
        × (s.2.effects.persist ≡ false → log_of s.1 ≡ log_of c))
unfolding handle_append_request hear_from reset_deadline random_election_timeout accept_append
handle_append_request-Matches f c from req g r s h =
    let c' = (hear_from f c from).1 in
    let rejected : mismatches (log_of c') req ≡ false = h in
    if_rule
      (λ (s : Stepped).
        Matches (suc req.prev_log_index) req.entries (log_of c) (log_of s.1)
        × (s.2.effects.persist ≡ false → log_of s.1 ≡ log_of c))
      (mismatches (log_of c') req) (λ e. absurd (ground (arith, sym e ∙ rejected)))
      (λ _. (
        accept_append-Matches c' req g r s h,
        append_entries-unpersisted (log_of c) (suc req.prev_log_index) req.entries g (omega arith)
            (omega (arith, matched-reaches (log_of c) req r h)) r.numbered r.terms r.fits,
      ))

module _ (f : Follower) (c : Core) (from : NodeId) (req : AppendRequest) (good : IsGood (log_of c))
    (request : IsRequest req) (after_snapshot : (log_of c).snapshot_index ≤ req.prev_log_index)
    (passes : mismatches (log_of c) req ≡ false) where
  -- After a well-formed append request that begins at or after the snapshot and passes the
  -- consistency check of a well-formed log whose entries all have a term, the follower's log has
  -- the term of each entry sent at the entry's index.
  pub term_at-handle_append_request :
      (k : ℕ) (e : Entry)
      → get_elem? req.entries k ≡ some e
      → term_at (log_of (handle_append_request f c from req).1) (suc req.prev_log_index + k)
        ≡ e.term
  term_at-handle_append_request =
      (handle_append_request-Matches f c from req good request after_snapshot passes).0.sent

  -- A well-formed append request that begins at or after the snapshot and passes the consistency
  -- check of a well-formed log whose entries all have a term leaves every index of that log up to
  -- the request's previous index as it was.
  pub get-handle_append_request :
      (j : LogIndex)
      → j ≤ req.prev_log_index
      → get (log_of (handle_append_request f c from req).1) j ≡ get (log_of c) j
  get-handle_append_request j h =
      (handle_append_request-Matches f c from req good request after_snapshot passes).0.below j
        (omega arith)

  -- A well-formed append request that begins at or after the snapshot and passes the consistency
  -- check of a well-formed log whose entries all have a term leaves such a log.
  pub handle_append_request-IsGood : IsGood (log_of (handle_append_request f c from req).1)
  handle_append_request-IsGood =
      let m = (handle_append_request-Matches f c from req good request after_snapshot passes).0 in
      record { valid = m.valid; terms = m.terms }

  -- A well-formed append request that begins at or after the snapshot and passes the consistency
  -- check of a well-formed log whose entries all have a term makes the handler order persistence
  -- or leaves the follower's log unchanged.
  pub handle_append_request-persists :
      ((handle_append_request f c from req).2.effects.persist ≡ true)
      ⊎ (log_of (handle_append_request f c from req).1 ≡ log_of c)
  handle_append_request-persists =
      let kept =
        (handle_append_request-Matches f c from req good request after_snapshot passes).1 in
      elim (Bool-cases (handle_append_request f c from req).2.effects.persist) [
        | inl set ↦ inl set
        | inr unset ↦ inr (kept unset)
      ]
