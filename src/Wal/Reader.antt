-- ===== src/Wal/Reader.antt =====
-- wal.rs: opening a log and reading it. Directories, their locks and reads that the operating system
-- fails are left out: a log is opened from the files of its directory, as `segment_ids` has them.
use basisdb.Base.{
  ℕ, ◌+◌, Bool, true, false, Option, none, some, List, [], ◌∷◌, ◌++◌, ltb, if◌then◌else◌, Result,
  ok, err,
}
use basisdb.Wal.Record.{StoredRecord, WalError, poisoned, wal_full}
use basisdb.Wal.Segment.{SegmentReader, open_reader, next_record, recover, total_len}
use basisdb.Wal.Log.{Wal, WalOptions, validate_options}

-- The files before the last one, and the last one.
unfoldable pub split_last : List (List ℕ) → List (List ℕ) × List ℕ
split_last [] = ([], [])
split_last (file ∷ []) = ([], file)
split_last (file ∷ next ∷ files) = let rest = split_last (next ∷ files) in (file ∷ rest.0, rest.1)

-- The log that `open` makes.
abbrev pub opened : WalOptions → List (List ℕ) → ℕ → ℕ → ℕ → Wal
opened options files active_id active_len total = record {
  options = options;
  active_id = active_id;
  active_len = active_len;
  total_len = total;
  poisoned = false;
  closed = (split_last files).0;
  active = (split_last files).1;
  spare = [];
}

-- `open` after the recovery.
unfoldable pub open_recovered : WalOptions → List (List ℕ) → ℕ → ℕ → Result Wal WalError
unfolding total_len split_last
open_recovered options files active_id active_len = elim (total_len 0 files) [
  | err e ↦ err e
  | ok total ↦
      if ltb options.max_size total
      then err (wal_full total options.max_size)
      else ok (opened options files active_id active_len total)
]

-- `Records`: the segment that is read, and the files behind it from an id on.
pub record Records : Type 0 where
  pub segment_size : ℕ
  pub next_id : ℕ
  pub segments : List (List ℕ)
  pub segment : Option SegmentReader
  pub done : Bool

abbrev pub Item : Type 0
Item = Records × Option (Result StoredRecord WalError)

-- `records`
unfoldable pub records : Wal → Result Records WalError
records w =
    if w.poisoned
    then err poisoned
    else ok (record {
      segment_size = w.options.segment_size;
      next_id = 0;
      segments = w.closed ++ w.active ∷ w.spare;
      segment = none;
      done = false;
    })

module _ (crc32 : List ℕ → ℕ) where
  -- `Wal::open`, with the files that it leaves
  unfoldable pub open_wal :
      WalOptions → List (List ℕ) → Option (List (List ℕ) × Result Wal WalError)
  unfolding validate_options recover open_recovered
  open_wal options files = elim (validate_options options) [
    | err e ↦ some (files, err e)
    | ok u ↦ elim (recover crc32 files options.segment_size) [
      | none ↦ none
      | some (left, err e) ↦ some (left, err e)
      | some (left, ok (active_id, active_len)) ↦
          some (left, open_recovered options left active_id active_len)
    ]
  ]

  -- The loop of `next` where no segment is open.
  unfoldable pub next_segment : Records → ℕ → List (List ℕ) → Item
  unfolding next_record
  next_segment rs id [] =
      (record rs { next_id = id; segments = []; segment = none; done = true }, none)
  next_segment rs id (file ∷ files) =
      let one = next_record crc32 (open_reader id rs.segment_size file) in
      let left : Records = record rs { next_id = id + 1; segments = files; segment = some one.0 } in
      elim one.1 [
        | ok (some r) ↦ (left, some (ok r))
        | ok none ↦ next_segment rs (id + 1) files
        | err e ↦ (record left { done = true }, some (err e))
      ]

  -- The loop of `next` in the segment that is open.
  unfoldable pub next_in : Records → Option SegmentReader → Item
  unfolding next_record next_segment
  next_in rs none = next_segment rs rs.next_id rs.segments
  next_in rs (some reader) =
      let one = next_record crc32 reader in
      elim one.1 [
        | ok (some r) ↦ (record rs { segment = some one.0 }, some (ok r))
        | ok none ↦ next_segment (record rs { segment = none }) rs.next_id rs.segments
        | err e ↦ (record rs { segment = some one.0; done = true }, some (err e))
      ]

  unfoldable pub next : Records → Item
  unfolding next_in
  next rs = if rs.done then (rs, none) else next_in rs rs.segment
