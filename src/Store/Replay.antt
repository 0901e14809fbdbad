-- ===== src/Store/Replay.antt =====
-- store.rs: what a delta does to the state that it was made for.
use mathlib.Core.List.{append_assoc, append-nil}
use mathlib.Core.Logic.{◌⊎◌}
use mathlib.Core.Path.{subst}
use basisdb.Base.{
  ℕ, zero, suc, ◌+◌, ◌-◌, ◌≡◌, ◌<◌, ◌≤◌, refl, sym, ap, ◌∙◌, inl, inr, true, false, not, ◌&&◌, List,
  [], ◌∷◌, ◌++◌, length, Option, take, drop, ltb, leb, ◌==◌, Result, ok, err, min, max, u64_mod,
  add64, add64_lem, arith, Bool-cases, if_rule, ==_iff, length-append, length-take, length-drop,
}
use basisdb.Raft.Log.{
  Entry, Log, LogIndex, last_index, term_at, append, truncate_after, slice, to_vec_index,
}
use basisdb.Raft.Log.Valid.{
  IsValid, IsNumbered, IsNumbered-drop, end_index, last_index-end, append-IsValid,
  truncate_after-IsValid,
}
use basisdb.Raft.Membership.{Configuration}
use basisdb.Raft.Core.{Persistent}
use basisdb.Store.{StoreError, agree_down, common_prefix, delta_of, append_entries, apply_delta}

-- Entries that carry the next indices are appended.
append_entries-numbered :
    (log : Log) (es : List Entry)
    → IsValid log
    → IsNumbered (suc (end_index log)) es
    → end_index log + length es + 1 < u64_mod
    → append_entries log es ≡ (record log { entries = log.entries ++ es }, ok tt)
unfolding append_entries append
append_entries-numbered log [] v h fits =
    ap (λ l. (record log { entries = l }, ok tt)) (sym (append-nil log.entries))
append_entries-numbered log (e ∷ es) v h fits =
    let next : e.index ≡ last_index log + 1 = ground (arith, h.0, last_index-end log v) in
    let expected : add64 (last_index log) 1 ≡ last_index log + 1 =
      add64_lem (last_index log) 1 (omega (arith, last_index-end log v, fits)) in
    let more = append-IsValid log e v next (omega (arith, h.0, fits)) in
    let grown = length-append log.entries (e ∷ []) in
    let is : e.index ≡ add64 (last_index log) 1 = next ∙ sym expected in
    let test : (e.index == add64 (last_index log) 1) ≡ true =
      (==_iff e.index (add64 (last_index log) 1)).1 is in
    let rest =
      append_entries-numbered (append log e) es more
        (subst (λ n. IsNumbered n es) (omega (arith, grown)) h.1) (omega (arith, grown, fits)) in
    rw test
      (rest ∙ ap (λ l. (record log { entries = l }, ok tt)) (append_assoc log.entries (e ∷ []) es))

-- The index found is one of the candidates, and above the floor the terms agree there.
agree_down_lem :
    (floor : LogIndex) (d c : Log) (i : LogIndex)
    → floor ≤ i
    → let k = agree_down floor d c i in
      (floor ≤ k) × (k ≤ i) × ((k ≡ floor) ⊎ (term_at d k ≡ term_at c k))
unfolding agree_down
agree_down_lem floor d c zero h = (h, omega arith, inl (omega (arith, h)))
agree_down_lem floor d c (suc i) h =
    let P : LogIndex → Type 0 =
      λ k. (floor ≤ k) × (k ≤ suc i) × ((k ≡ floor) ⊎ (term_at d k ≡ term_at c k)) in
    if_rule P (ltb floor (suc i) && not (term_at d (suc i) == term_at c (suc i)))
      (λ e.
        let rest = agree_down_lem floor d c i (ground (arith, e)) in
        (rest.0, omega (arith, rest.1), rest.2))
      (λ e. elim (Bool-cases (ltb floor (suc i))) [
        | inl above ↦ (h, omega arith, inr (ground (arith, e, above)))
        | inr not_above ↦ (h, omega arith, inl (ground (arith, h, not_above)))
      ])

-- The entries that truncation keeps, and those that the slice takes.
truncate_after-entries :
    (log : Log) (k : LogIndex)
    → log.snapshot_index ≤ k
    → truncate_after log k ≡ record log { entries = take (k - log.snapshot_index) log.entries }
unfolding truncate_after to_vec_index
truncate_after-entries log k h = elim (Bool-cases (leb k log.snapshot_index)) [
  | inl e ↦ let nothing : k - log.snapshot_index ≡ 0 = ground (arith, e) in rw (e, nothing) refl
  | inr e ↦
      let same : k - log.snapshot_index - 1 + 1 ≡ k - log.snapshot_index = ground (arith, e) in
      rw e (ap (λ n. record log { entries = take n log.entries }) same)
]

take-all : {A : Type 0} (n : ℕ) (xs : List A) → length xs ≤ n → take n xs ≡ xs
take-all zero [] h = refl
take-all zero (x ∷ xs) h = absurd (omega (arith, h))
take-all (suc n) [] h = refl
take-all (suc n) (x ∷ xs) h = ap (λ l. x ∷ l) (take-all n xs (omega (arith, h)))

drop-all : {A : Type 0} (n : ℕ) (xs : List A) → length xs ≤ n → drop n xs ≡ []
drop-all zero [] h = refl
drop-all zero (x ∷ xs) h = absurd (omega (arith, h))
drop-all (suc n) [] h = refl
drop-all (suc n) (x ∷ xs) h = drop-all n xs (omega (arith, h))

slice-drop :
    (log : Log) (k : LogIndex)
    → IsValid log
    → log.snapshot_index ≤ k
    → k ≤ end_index log
    → slice log (add64 k 1) (last_index log) ≡ drop (k - log.snapshot_index) log.entries
unfolding slice to_vec_index last_index
slice-drop log k v h m =
    let start : add64 k 1 ≡ k + 1 = add64_lem k 1 (omega (arith, v.fits, m)) in
    let first : add64 log.snapshot_index 1 ≡ log.snapshot_index + 1 =
      add64_lem log.snapshot_index 1 (omega (arith, v.fits)) in
    let n : ℕ = k - log.snapshot_index in
    let shift : k + 1 - log.snapshot_index - 1 ≡ n = omega arith in
    ground (
      arith,
      start,
      first,
      shift,
      last_index-end log v,
      h,
      m,
      drop-all n log.entries,
      take-all (length log.entries - n) (drop n log.entries),
      length-drop n log.entries,
    )

take-append-drop : {A : Type 0} (n : ℕ) (xs : List A) → take n xs ++ drop n xs ≡ xs
take-append-drop zero xs = refl
take-append-drop (suc n) [] = refl
take-append-drop (suc n) (x ∷ xs) = ap (λ l. x ∷ l) (take-append-drop n xs)

abbrev log_of : List Entry → ℕ → ℕ → Option Configuration → Log
log_of entries index term config = record {
  entries = entries;
  snapshot_index = index;
  snapshot_term = term;
  snapshot_config = config;
}

-- The rest of the second log, behind a prefix that both share, makes the first log the second.
append_entries-suffix :
    (d c : Log) (k : LogIndex)
    → IsValid d
    → IsValid c
    → d.snapshot_index ≡ c.snapshot_index
    → d.snapshot_term ≡ c.snapshot_term
    → d.snapshot_config ≡ c.snapshot_config
    → d.snapshot_index ≤ k
    → k ≤ end_index d
    → k ≤ end_index c
    → take (k - d.snapshot_index) d.entries ≡ take (k - c.snapshot_index) c.entries
    → append_entries (truncate_after d k) (slice c (add64 k 1) (last_index c)) ≡ (c, ok tt)
append_entries-suffix d c k v w index term config low in_d in_c same =
    let n : ℕ = k - d.snapshot_index in
    let m : ℕ = k - c.snapshot_index in
    let kept : Log = record d { entries = take n d.entries } in
    let kept_is = truncate_after-entries d k low in
    let kept_valid : IsValid kept = subst IsValid kept_is (truncate_after-IsValid d k v) in
    let long : length (take n d.entries) ≡ n = length-take n d.entries ∙ omega (arith, in_d) in
    let numbered : IsNumbered (suc (end_index kept)) (drop m c.entries) =
      IsNumbered-drop m (suc c.snapshot_index) (suc (end_index kept)) c.entries w.numbered
        (omega (arith, long, index, low)) in
    let fits : end_index kept + length (drop m c.entries) + 1 < u64_mod =
      omega (arith, long, index, low, in_c, length-drop m c.entries, w.fits) in
    ap (λ l. append_entries l (slice c (add64 k 1) (last_index c))) kept_is
    ∙ ap (append_entries kept) (slice-drop c k w (omega (arith, index, low)) in_c)
    ∙ append_entries-numbered kept (drop m c.entries) kept_valid numbered fits
    ∙ ap
        (λ l. (
          log_of (l ++ drop m c.entries) d.snapshot_index d.snapshot_term d.snapshot_config,
          ok tt,
        ))
        same
    ∙ ap (λ l. (log_of l d.snapshot_index d.snapshot_term d.snapshot_config, ok tt))
        (take-append-drop m c.entries)
    ∙ ap (λ i. (log_of c.entries i d.snapshot_term d.snapshot_config, ok tt)) index
    ∙ ap (λ t. (log_of c.entries c.snapshot_index t d.snapshot_config, ok tt)) term
    ∙ ap (λ o. (log_of c.entries c.snapshot_index c.snapshot_term o, ok tt)) config

-- Applying the delta between a durable and a current state to the durable one gives the current
-- one and no error, where both logs are well-formed with the same snapshot, the term does not go
-- back, and wherever the logs' terms agree at an index they agree up to it.
pub apply_delta-delta_of :
    (d c : Persistent)
    → IsValid d.log
    → IsValid c.log
    → d.log.snapshot_index ≡ c.log.snapshot_index
    → d.log.snapshot_term ≡ c.log.snapshot_term
    → d.log.snapshot_config ≡ c.log.snapshot_config
    → d.term ≤ c.term
    → ((i : LogIndex)
        → i ≤ last_index d.log
        → i ≤ last_index c.log
        → term_at d.log i ≡ term_at c.log i
        → take (i - d.log.snapshot_index) d.log.entries
          ≡ take (i - c.log.snapshot_index) c.log.entries)
    → apply_delta d (delta_of d c) ≡ (c, ok tt)
unfolding apply_delta delta_of common_prefix
apply_delta-delta_of d c v w index term config later matching =
    let k = common_prefix d c in
    let d_end = last_index-end d.log v in
    let c_end = last_index-end c.log w in
    let found =
      agree_down_lem (max d.log.snapshot_index c.log.snapshot_index) d.log c.log
        (min (last_index d.log) (last_index c.log)) (omega (arith, d_end, c_end, index)) in
    let low : d.log.snapshot_index ≤ k = omega (arith, found.0) in
    let in_d : k ≤ last_index d.log = omega (arith, found.1) in
    let in_c : k ≤ last_index c.log = omega (arith, found.1) in
    let same : take (k - d.log.snapshot_index) d.log.entries
        ≡ take (k - c.log.snapshot_index) c.log.entries =
      elim found.2 [ inl floor ↦ nothing_taken k floor | inr agree ↦ matching k in_d in_c agree ] in
    let whole =
      append_entries-suffix d.log c.log k v w index term config low (omega (arith, in_d, d_end))
        (omega (arith, in_c, c_end)) same in
    let not_older : ltb c.term d.term ≡ false = ground (arith, later) in
    let not_past : ltb (last_index d.log) k ≡ false = ground (arith, in_d) in
    rw (not_older, not_past)
      (ap
        (λ (a : Log × Result (Unit {0}) StoreError). elim a.1 [
          | err e ↦ (record d { log = a.0 }, err e)
          | ok u ↦ (
            record {
              term = c.term;
              voted_for = c.voted_for;
              log = a.0;
              bootstrap_config = c.bootstrap_config;
            },
            ok tt,
          )
        ])
        whole)
  where
    nothing_taken :
        (k : LogIndex)
        → k ≡ max d.log.snapshot_index c.log.snapshot_index
        → take (k - d.log.snapshot_index) d.log.entries
          ≡ take (k - c.log.snapshot_index) c.log.entries
    nothing_taken k floor =
        let left : k - d.log.snapshot_index ≡ 0 = omega (arith, floor, index) in
        let right : k - c.log.snapshot_index ≡ 0 = omega (arith, floor, index) in
        rw (left, right) refl
