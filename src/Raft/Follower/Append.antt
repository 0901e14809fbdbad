-- ===== src/Raft/Follower/Append.antt =====
-- follower.rs, `handle_append_request`: the loop over the entries and the log.
use mathlib.Core.Path.{subst}
use basisdb.Base.{
  length-append, some, u64_mod, ℕ, All-append, suc, [], ◌∷◌, get_elem?, length, zero, ◌+◌, ◌-◌, ◌≤◌,
  ◌<◌, ◌≡◌, refl, sym, ap, ◌∙◌, Bool, true, List, arith, ltb, leb, ◌==◌, if◌then◌else◌, inl, inr,
  ◌⊎◌, Bool-cases, All, All-get, All-take, length-take,
}
use basisdb.Raft.Log.{Entry, Log, LogIndex, last_index, term_at, get, append, truncate_after}
use basisdb.Raft.Log.Valid.{
  IsNumbered, append-IsValid, IsValid, end_index, last_index-end, truncate_after-IsValid,
}
use basisdb.Raft.Log.View.{
  get-append, get_above, get-some, get-truncate_after, term_at_above, get-past_end,
}
use basisdb.Raft.Follower.{append_entries, cut_conflict, append_entry}

-- No entry has the term 0.
abbrev pub HasTerms : List Entry → Type 0
HasTerms = All (λ (e : Entry). 0 < e.term)

pub term_at-positive :
    (log : Log) (j : LogIndex)
    → HasTerms log.entries
    → log.snapshot_index < j
    → j ≤ end_index log
    → 0 < term_at log j
term_at-positive log j t h k =
    let (e, eq) = get-some log j h k in
    let positive : 0 < e.term =
      All-get _ log.entries (j - log.snapshot_index - 1) e t (sym (get_above log j h) ∙ eq) in
    ground (arith, term_at_above log j h, eq, positive)

truncate_after-snapshot_index :
    (log : Log) (i : LogIndex) → (truncate_after log i).snapshot_index ≡ log.snapshot_index
unfolding truncate_after
truncate_after-snapshot_index log i = ground arith

end_index-truncate_after :
    (log : Log) (i : LogIndex)
    → log.snapshot_index ≤ i × i ≤ end_index log
    → end_index (truncate_after log i) ≡ i
unfolding truncate_after
end_index-truncate_after log i h = elim (Bool-cases (leb i log.snapshot_index)) [
  | inl e ↦ rw e (ground arith)
  | inr e ↦ rw e (ground (arith, length-take (i - log.snapshot_index - 1 + 1) log.entries))
]

-- A log that ends just below an index, with another log's entries.
pub record EndsBelow (i : LogIndex) (log cut : Log) : Type 0 where
  pub valid : IsValid cut
  pub terms : HasTerms cut.entries
  pub same_snapshot : cut.snapshot_index ≡ log.snapshot_index
  pub ends : end_index cut + 1 ≡ i
  pub below : (j : LogIndex) → j < i → get cut j ≡ get log j

truncate_after-HasTerms :
    (log : Log) (i : LogIndex) → HasTerms log.entries → HasTerms (truncate_after log i).entries
unfolding truncate_after
truncate_after-HasTerms log i t = elim (Bool-cases (leb i log.snapshot_index)) [
  | inl e ↦ rw e tt
  | inr e ↦ rw e (All-take _ (i - log.snapshot_index - 1 + 1) log.entries t)
]

truncate_after-EndsBelow :
    (log : Log) (i : LogIndex)
    → IsValid log
    → HasTerms log.entries
    → log.snapshot_index < i
    → i ≤ end_index log
    → EndsBelow i log (truncate_after log (i - 1))
truncate_after-EndsBelow log i v t h k = record {
  valid = truncate_after-IsValid log (i - 1) v;
  terms = truncate_after-HasTerms log (i - 1) t;
  same_snapshot = truncate_after-snapshot_index log (i - 1);
  ends = omega (arith, end_index-truncate_after log (i - 1) (omega arith, omega arith));
  below = λ j l. get-truncate_after log (i - 1) j ∙ ground arith;
}

append_entry_lem :
    (log cut : Log) (persist : Bool) (e : Entry)
    → cut_conflict log e ≡ cut
    → append_entry log persist e
      ≡ (if ltb (last_index cut) e.index then (append cut e, true) else (cut, persist))
unfolding append_entry cut_conflict
append_entry_lem log cut persist e h = rw (sym h) refl

-- What one round makes of the log: it stays, for it has the entry's term at its index, or it
-- ends with the entry.
pub append_entry-cases :
    (log : Log) (persist : Bool) (e : Entry)
    → IsValid log
    → HasTerms log.entries
    → log.snapshot_index < e.index
    → e.index ≤ end_index log + 1
    → (append_entry log persist e ≡ (log, persist))
        × (e.index ≤ end_index log)
        × (term_at log e.index ≡ e.term)
      ⊎ (cut : Log) × EndsBelow e.index log cut
        × (append_entry log persist e ≡ (append cut e, true))
append_entry-cases log persist e v t h k = elim (Bool-cases (leb e.index (end_index log))) [
  | inl old ↦
      let positive = term_at-positive log e.index t h (ground arith) in
      elim (Bool-cases (term_at log e.index == e.term)) [
        | inl same ↦
            let kept : cut_conflict log e ≡ log = unfold cut_conflict in ground (arith, same) in
            inl (
              append_entry_lem log log persist e kept ∙ ground (arith, last_index-end log v),
              ground arith,
              ground arith,
            )
        | inr other ↦
            let cut : Log = truncate_after log (e.index - 1) in
            let below = truncate_after-EndsBelow log e.index v t h (ground arith) in
            let eq : cut_conflict log e ≡ cut =
              unfold cut_conflict in ground (arith, other, positive) in
            inr (
              cut,
              below,
              append_entry_lem log cut persist e eq
                  ∙ ground (arith, last_index-end cut below.valid, below.ends),
            )
      ]
  | inr new ↦
      let absent : term_at log e.index ≡ 0 =
        ground (arith, term_at_above log e.index h, get-past_end log e.index) in
      let kept : cut_conflict log e ≡ log = unfold cut_conflict in ground (arith, absent) in
      inr (
        log,
        record {
          valid = v;
          terms = t;
          same_snapshot = refl;
          ends = ground arith;
          below = λ j l. refl;
        },
        append_entry_lem log log persist e kept ∙ ground (arith, last_index-end log v),
      )
]

-- A log that has an entry's term at its index, and below it another log's entries.
pub record Appended (e : Entry) (log next : Log) : Type 0 where
  pub valid : IsValid next
  pub terms : HasTerms next.entries
  pub same_snapshot : next.snapshot_index ≡ log.snapshot_index
  pub reaches : e.index ≤ end_index next
  pub term : term_at next e.index ≡ e.term
  pub below : (j : LogIndex) → j < e.index → get next j ≡ get log j

append-Appended :
    (log cut : Log) (e : Entry)
    → EndsBelow e.index log cut
    → log.snapshot_index < e.index
    → e.index + 1 < u64_mod
    → 0 < e.term
    → Appended e log (append cut e)
unfolding append
append-Appended log cut e b h fits positive =
    let i : e.index ≡ last_index cut + 1 = omega (arith, last_index-end cut b.valid, b.ends) in
    let at_end = get-append cut e in
    record {
      valid = append-IsValid cut e b.valid i fits;
      terms = All-append _ cut.entries (e ∷ []) b.terms (positive, tt);
      same_snapshot = b.same_snapshot;
      reaches = omega (arith, length-append cut.entries (e ∷ []), b.ends);
      term = ground (
        arith,
        term_at_above (append cut e) e.index,
        b.same_snapshot,
        h,
        at_end e.index b.valid i,
      );
      below = λ j l. at_end j b.valid i ∙ ground (arith, b.below j l);
    }

pub append_entry-Appended :
    (log : Log) (persist : Bool) (e : Entry)
    → IsValid log
    → HasTerms log.entries
    → log.snapshot_index < e.index
    → e.index ≤ end_index log + 1
    → e.index + 1 < u64_mod
    → 0 < e.term
    → Appended e log (append_entry log persist e).0
append_entry-Appended log persist e v t h k fits positive =
    elim (append_entry-cases log persist e v t h k) [
      | inl (same, reaches, term) ↦ subst (Appended e log) (sym (ap (λ s. s.0) same)) (record {
        valid = v;
        terms = t;
        same_snapshot = refl;
        reaches = reaches;
        term = term;
        below = λ j l. refl;
      })
      | inr (cut, below, eq) ↦
          subst (Appended e log) (sym (ap (λ s. s.0) eq))
            (append-Appended log cut e below h fits positive)
    ]

-- A log that has the terms of entries that begin at an index, and another log's entries below.
pub record Matches (first : LogIndex) (es : List Entry) (log next : Log) : Type 0 where
  pub valid : IsValid next
  pub terms : HasTerms next.entries
  pub same_snapshot : next.snapshot_index ≡ log.snapshot_index
  pub below : (j : LogIndex) → j < first → get next j ≡ get log j
  pub sent : (k : ℕ) (e : Entry) → get_elem? es k ≡ some e → term_at next (first + k) ≡ e.term

term_at-below :
    (log next : Log) (j : LogIndex)
    → next.snapshot_index < j
    → log.snapshot_index ≡ next.snapshot_index
    → get next j ≡ get log j
    → term_at next j ≡ term_at log j
term_at-below log next j h same eq = ground (arith, term_at_above log j, term_at_above next j h, eq)

-- The terms of a first entry and of the rest.
sent-cons :
    (first : LogIndex) (x : Entry) (es : List Entry) (log next : Log)
    → term_at next first ≡ x.term
    → ((k : ℕ) (e : Entry) → get_elem? es k ≡ some e → term_at next (suc first + k) ≡ e.term)
    → (k : ℕ) (e : Entry) → get_elem? (x ∷ es) k ≡ some e
    → term_at next (first + k) ≡ e.term
sent-cons first x es log next h f zero e g =
    let i : first + 0 ≡ first = omega arith in rw i (ground (arith, h, g))
sent-cons first x es log next h f (suc k) e g =
    let i : first + suc k ≡ suc first + k = omega arith in rw i (f k e g)

-- The term of an entry stays through the entries after it.
first_term :
    (log mid next : Log) (first : LogIndex) (e : Entry) {es : List Entry}
    → e.index ≡ first
    → log.snapshot_index < first
    → Appended e log mid
    → Matches (suc first) es mid next
    → term_at next first ≡ e.term
first_term log mid next first e i h a m =
    let kept =
      term_at-below mid next first (omega (arith, m.same_snapshot, a.same_snapshot))
        (sym m.same_snapshot) (m.below first (omega arith)) in
    kept ∙ rw (sym i) a.term

-- The loop over entries that are numbered from an index above the snapshot and at most one past
-- the end of the log: afterwards the log is well formed, it has each entry's term at the entry's
-- index, and below the first of them it is as before.
pub append_entries-Matches :
    (log : Log) (persist : Bool) (first : LogIndex) (es : List Entry)
    → IsValid log
    → HasTerms log.entries
    → log.snapshot_index < first
    → first ≤ end_index log + 1
    → IsNumbered first es
    → HasTerms es
    → first + length es < u64_mod
    → Matches first es log (append_entries log persist es).0
unfolding append_entries
append_entries-Matches log persist first [] v t h k n p fits = record {
  valid = v;
  terms = t;
  same_snapshot = refl;
  below = λ j l. refl;
  sent = λ k e g. absurd (ground arith);
}
append_entries-Matches log persist first (e ∷ es) v t h k n p fits =
    let s = append_entry log persist e in
    let a =
      append_entry-Appended log persist e v t (omega (arith, n.0)) (omega (arith, n.0))
        (omega (arith, n.0)) p.0 in
    let rest =
      append_entries-Matches s.0 s.1 (suc first) es a.valid a.terms (omega (arith, a.same_snapshot))
        (omega (arith, a.reaches, n.0)) n.1 p.1 (omega arith) in
    record {
      valid = rest.valid;
      terms = rest.terms;
      same_snapshot = rest.same_snapshot ∙ a.same_snapshot;
      below = λ j l. rest.below j (omega arith) ∙ a.below j (omega (arith, n.0));
      sent =
          sent-cons first e es s.0 (append_entries s.0 s.1 es).0
            (first_term log s.0 (append_entries s.0 s.1 es).0 first e n.0 h a rest) rest.sent;
    }
