-- ===== src/Raft/Log/Valid.antt =====
-- The log's invariant: the entries are those of the indices after the snapshot, in order, and
-- the index after the last one is a `u64`.
use basisdb.Base.{
  ℕ, zero, suc, ◌+◌, ◌-◌, ◌<◌, ◌≡◌, refl, ◌&&◌, some, List, [], ◌∷◌, ◌++◌, arith, length, get_elem?,
  take, drop, get_last?, ltb, leb, ◌==◌, inl, inr, u64_mod, length-append, length-take, length-drop,
  Bool-cases,
}
use basisdb.Raft.Membership.{Configuration}
use basisdb.Raft.Log.{
  Entry, Log, LogIndex, Term, index_or, last_index, term_at, append, truncate_after,
  truncate_prefix, install_snapshot, empty_log,
}

-- The entries carry the indices `first`, `first + 1`, ...
abbrev pub IsNumbered : ℕ → List Entry → Type 0
IsNumbered first [] = Unit
IsNumbered first (e ∷ es) = (e.index ≡ first) × IsNumbered (suc first) es

pub record IsValid (log : Log) : Type 0 where
  pub numbered : IsNumbered (suc log.snapshot_index) log.entries
  pub fits : log.snapshot_index + length log.entries + 1 < u64_mod

-- The last index that a log has, by its length.
abbrev pub end_index : Log → ℕ
end_index log = log.snapshot_index + length log.entries

index_or-cons :
    (c d : ℕ) (e : Entry) (es : List Entry)
    → index_or c (get_last? (e ∷ es)) ≡ index_or d (get_last? (e ∷ es))
index_or-cons c d e [] = refl
index_or-cons c d e (f ∷ es) = index_or-cons c d f es

index_or-last :
    (d : ℕ) (es : List Entry) → IsNumbered (suc d) es → index_or d (get_last? es) ≡ d + length es
index_or-last d [] h = omega arith
index_or-last d (e ∷ []) h = omega (arith, h.0)
index_or-last d (e ∷ f ∷ es) h =
    omega (arith, index_or-last (suc d) (f ∷ es) h.1, index_or-cons d (suc d) f es)

pub IsNumbered-append :
    (first : ℕ) (es : List Entry) (e : Entry)
    → IsNumbered first es
    → e.index ≡ first + length es
    → IsNumbered first (es ++ e ∷ [])
IsNumbered-append first [] e h eq = (omega arith, tt)
IsNumbered-append first (x ∷ es) e h eq =
    (h.0, IsNumbered-append (suc first) es e h.1 (omega arith))

IsNumbered-take :
    (n first : ℕ) (es : List Entry) → IsNumbered first es → IsNumbered first (take n es)
IsNumbered-take zero first es h = tt
IsNumbered-take (suc n) first [] h = tt
IsNumbered-take (suc n) first (e ∷ es) h = (h.0, IsNumbered-take n (suc first) es h.1)

pub IsNumbered-drop :
    (n first m : ℕ) (es : List Entry)
    → IsNumbered first es
    → m ≡ first + n
    → IsNumbered m (drop n es)
IsNumbered-drop zero first m es h e = let eq : m ≡ first = omega arith in rw eq h
IsNumbered-drop (suc n) first m [] h e = tt
IsNumbered-drop (suc n) first m (x ∷ es) h e = IsNumbered-drop n (suc first) m es h.1 (omega arith)

pub get-IsNumbered :
    (first i : ℕ) (es : List Entry) (e : Entry)
    → IsNumbered first es
    → get_elem? es i ≡ some e
    → e.index ≡ first + i
get-IsNumbered first i [] e h eq = absurd (ground arith)
get-IsNumbered first zero (x ∷ es) e h eq = ground arith
get-IsNumbered first (suc i) (x ∷ es) e h eq =
    omega (arith, get-IsNumbered (suc first) i es e h.1 eq)

-- The last index is the snapshot's index and the number of entries.
pub last_index-end : (log : Log) → IsValid log → last_index log ≡ end_index log
unfolding last_index
last_index-end log v = index_or-last log.snapshot_index log.entries v.numbered

pub append-IsValid :
    (log : Log) (e : Entry)
    → IsValid log
    → e.index ≡ last_index log + 1
    → e.index + 1 < u64_mod
    → IsValid (append log e)
unfolding append
append-IsValid log e v i f = record {
  numbered = IsNumbered-append _ log.entries e v.numbered (omega (arith, last_index-end log v));
  fits = omega (arith, last_index-end log v, length-append log.entries (e ∷ []));
}

pub truncate_after-IsValid :
    (log : Log) (i : LogIndex) → IsValid log → IsValid (truncate_after log i)
unfolding truncate_after
truncate_after-IsValid log i v = elim (Bool-cases (leb i log.snapshot_index)) [
  | inl e ↦ rw e (record { numbered = tt; fits = omega (arith, v.fits) })
  | inr e ↦ rw e (record {
    numbered = IsNumbered-take _ _ log.entries v.numbered;
    fits = omega (arith, v.fits, length-take (i - log.snapshot_index - 1 + 1) log.entries);
  })
]

pub truncate_prefix-IsValid :
    (log : Log) (i : LogIndex) (t : Term)
    → IsValid log
    → i + 1 < u64_mod
    → IsValid (truncate_prefix log i t)
unfolding truncate_prefix
truncate_prefix-IsValid log i t v f = elim (Bool-cases (leb i log.snapshot_index)) [
  | inl e ↦ rw e v
  | inr e ↦ elim (Bool-cases (leb (length log.entries) (i - log.snapshot_index))) [
    | inl all ↦ rw (e, all) (record { numbered = tt; fits = omega (arith, f) })
    | inr some_left ↦
        rw (e, some_left)
          (record {
            numbered =
                IsNumbered-drop (i - log.snapshot_index) _ _ log.entries v.numbered (ground arith);
            fits = ground (arith, v.fits, length-drop (i - log.snapshot_index) log.entries);
          })
  ]
]

pub install_snapshot-IsValid :
    (log : Log) (i : LogIndex) (t : Term) (c : Configuration)
    → IsValid log
    → i + 1 < u64_mod
    → IsValid (install_snapshot log i t c)
unfolding install_snapshot
install_snapshot-IsValid log i t c v f =
    elim (Bool-cases (ltb log.snapshot_index i && term_at log i == t)) [
      | inl e ↦
          let w = truncate_prefix-IsValid log i t v f in
          rw e (record { numbered = w.numbered; fits = w.fits })
      | inr e ↦ rw e (record { numbered = tt; fits = omega (arith, f) })
    ]

pub empty_log-IsValid : IsValid empty_log
empty_log-IsValid = record { numbered = tt; fits = omega arith }
