-- ===== src/Raft/Log/View.antt =====
-- log.rs: `get` as the abstract log, after each operation.
use basisdb.Base.{
  ℕ, suc, ◌+◌, ◌-◌, ◌≤◌, ◌<◌, ◌≡◌, ap, ◌∙◌, min, max, none, some, List, [], ◌∷◌, ◌++◌, arith,
  length, get_elem?, take, drop, ltb, leb, ◌==◌, inl, inr, if◌then◌else◌, add64, add64_lem,
  length-take, get_elem?-drop, get_elem?-take, get_elem?-ge, get_elem?-lt, get_elem?-append_left,
  get_elem?-append_right, Bool-cases,
}
use basisdb.Raft.Log.{
  Entry, Log, LogIndex, Term, term_or, last_index, term_at, get, append, truncate_after,
  truncate_prefix, slice, sub_list,
}
use basisdb.Raft.Log.Valid.{IsValid, end_index, last_index-end, get-IsNumbered}

-- `get` reads the entries from the first index after the snapshot.
pub get_lem :
    (log : Log) (j : LogIndex)
    → get log j ≡ (
        if leb j log.snapshot_index
        then none
        else get_elem? log.entries (j - log.snapshot_index - 1))
unfolding get
get_lem log j = ground arith

pub get_above :
    (log : Log) (j : LogIndex)
    → log.snapshot_index < j
    → get log j ≡ get_elem? log.entries (j - log.snapshot_index - 1)
unfolding get
get_above log j h = ground arith

-- An entry is found at its own index.
pub index-get :
    (log : Log) (j : LogIndex) (e : Entry) → IsValid log → get log j ≡ some e → e.index ≡ j
unfolding get
index-get log j e v h = ground (
  arith,
  get-IsNumbered (suc log.snapshot_index) (j - log.snapshot_index - 1) log.entries e v.numbered,
)

pub term_at_above :
    (log : Log) (j : LogIndex) → log.snapshot_index < j → term_at log j ≡ term_or 0 (get log j)
unfolding get term_at
term_at_above log j h = ground arith

-- An entry is there exactly from the first index after the snapshot to the last index.
pub get-some :
    (log : Log) (j : LogIndex)
    → log.snapshot_index < j
    → j ≤ end_index log
    → (e : Entry) × (get log j ≡ some e)
get-some log j h k =
    let (e, eq) = get_elem?-lt log.entries (j - log.snapshot_index - 1) (omega arith) in
    (e, get_above log j h ∙ eq)

pub get-past_end : (log : Log) (j : LogIndex) → end_index log < j → get log j ≡ none
get-past_end log j h =
    ground (arith, get_lem log j, get_elem?-ge log.entries (j - log.snapshot_index - 1))

-- After an entry with the next index is appended to a well-formed log, it is found at its index,
-- and every other index holds what it held.
pub get-append :
    (log : Log) (e : Entry) (j : LogIndex)
    → IsValid log
    → e.index ≡ last_index log + 1
    → get (append log e) j ≡ (if j == e.index then some e else get log j)
unfolding append
get-append log e j v i = elim (Bool-cases (leb j (end_index log))) [
  | inl old ↦ ground (
    arith,
    get_lem (append log e) j,
    get_lem log j,
    last_index-end log v,
    get_elem?-append_left log.entries (e ∷ []) (j - log.snapshot_index - 1),
  )
  | inr new ↦
      let k : ℕ = j - log.snapshot_index - 1 - length log.entries in
      let eq : j - log.snapshot_index - 1 ≡ length log.entries + k = ground arith in
      ground (
        arith,
        get_lem (append log e) j,
        get-past_end log j,
        last_index-end log v,
        ap (get_elem? (log.entries ++ e ∷ [])) eq,
        get_elem?-append_right log.entries (e ∷ []) k,
        get_elem?-ge {A = Entry} (e ∷ []) k,
      )
]

-- After truncation behind an index, the indices up to it hold what they held and no other index
-- holds an entry.
pub get-truncate_after :
    (log : Log) (i j : LogIndex)
    → get (truncate_after log i) j ≡ (if leb j i then get log j else none)
unfolding truncate_after
get-truncate_after log i j = elim (Bool-cases (leb i log.snapshot_index)) [
  | inl e ↦
      rw (e, if◌then◌else◌) (ground (arith, get_lem log j, get_lem (record log { entries = [] }) j))
  | inr e ↦
      let n : ℕ = i - log.snapshot_index - 1 + 1 in
      let k : ℕ = j - log.snapshot_index - 1 in
      rw (e, if◌then◌else◌)
        (ground (
          arith,
          get_lem log j,
          get_lem (record log { entries = take n log.entries }) j,
          get_elem?-take n k log.entries,
          get_elem?-ge (take n log.entries) k,
          length-take n log.entries,
        ))
]

-- After compaction up to an index above the snapshot, no index up to it holds an entry and every
-- other index holds what it held.
pub get-truncate_prefix :
    (log : Log) (i j : LogIndex) (t : Term)
    → log.snapshot_index < i
    → get (truncate_prefix log i t) j ≡ (if leb j i then none else get log j)
unfolding truncate_prefix
get-truncate_prefix log i j t h = elim (Bool-cases (leb j i)) [
  | inl e ↦ ground (arith, get_lem (truncate_prefix log i t) j)
  | inr e ↦
      let n : ℕ = i - log.snapshot_index in
      let k : ℕ = j - i - 1 in
      let shift : n + k ≡ j - log.snapshot_index - 1 = ground arith in
      ground (
        arith,
        get_lem log j,
        get_lem (truncate_prefix log i t) j,
        get_elem?-drop n k log.entries,
        get_elem?-ge log.entries (n + k),
        ap (get_elem? log.entries) shift,
      )
]

get_elem?-sub_list :
    (es : List Entry) (s e k : ℕ)
    → get_elem? (sub_list es s e) k ≡ (if ltb (s + k) e then get_elem? es (s + k) else none)
get_elem?-sub_list es s e k = elim (Bool-cases (ltb (s + k) e)) [
  | inl h ↦ rw h (get_elem?-take (e - s) k (drop s es) (ground arith) ∙ get_elem?-drop s k es)
  | inr h ↦
      rw h (get_elem?-ge (sub_list es s e) k (ground (arith, length-take (e - s) (drop s es))))
]

-- In a well-formed log, the slice from `start` to `last` holds the entries from the larger of
-- `start` and the first index after the snapshot up to `last` or the last index, both included,
-- in order, and nothing else.
pub get_elem?-slice :
    (log : Log) (start last k : ℕ)
    → IsValid log
    → get_elem? (slice log start last) k ≡ (
        let first = max start (log.snapshot_index + 1) + k in
        if leb first last then get log first else none)
unfolding slice
get_elem?-slice log start last k v =
    let eq : add64 log.snapshot_index 1 ≡ log.snapshot_index + 1 = add64_lem _ _ (omega arith) in
    let lo : ℕ = max start (log.snapshot_index + 1) in
    let s : ℕ = lo - log.snapshot_index - 1 in
    let e : ℕ = min last (last_index log) - log.snapshot_index - 1 + 1 in
    let shift : lo + k - log.snapshot_index - 1 ≡ s + k = ground arith in
    ground (
      arith,
      eq,
      shift,
      get_lem log (lo + k),
      last_index-end log v,
      get_elem?-sub_list log.entries s e k,
      get_elem?-ge log.entries (s + k),
    )
