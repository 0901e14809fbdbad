-- ===== src/Wal/Segment.antt =====
-- segment.rs: segment files. The directory is the list of the files' bytes in the order of their
-- ids, which are the positions; what the operating system may refuse is not modelled here.
use basisdb.Base.{
  ℕ, zero, suc, ◌+◌, ◌-◌, not, Option, none, some, List, [], ◌∷◌, length, take, ltb, ◌==◌,
  if◌then◌else◌, Result, ok, err, u64_mod,
}
use basisdb.Wal.Record.{
  Lsn, StoredRecord, WalError, incomplete_record, corrupt_record, missing_segment, wal_full,
}
use basisdb.Wal.Format.{a_record, eof, incomplete, read_one}

pub data SegmentScan : Type 0 where
  clean incomplete_tail : ℕ → SegmentScan

abbrev pub lsn_at : ℕ → ℕ → Lsn
lsn_at segment_id offset = record { segment_id = segment_id; offset = offset }

-- `segment_ids`, on the ids that the names of the files give, in order
unfoldable pub check_ids : ℕ → List ℕ → Result (Unit {0}) WalError
check_ids expected [] = ok tt
check_ids expected (found ∷ ids) =
    let rest = check_ids (expected + 1) ids in
    if not (found == expected) then err (missing_segment expected found) else rest

-- `total_len`, from a sum on
unfoldable pub total_len : ℕ → List (List ℕ) → Result ℕ WalError
total_len total [] = ok total
total_len total (file ∷ files) =
    let rest = total_len (total + length file) files in
    if ltb (total + length file) u64_mod then rest else err (wal_full (u64_mod - 1) (u64_mod - 1))

-- `SegmentReader`, with what its file holds from the offset on
pub record SegmentReader : Type 0 where
  pub segment_id : ℕ
  pub segment_size : ℕ
  pub physical_len : ℕ
  pub offset : ℕ
  pub file : List ℕ

abbrev pub open_reader : ℕ → ℕ → List ℕ → SegmentReader
open_reader segment_id segment_size file = record {
  segment_id = segment_id;
  segment_size = segment_size;
  physical_len = length file;
  offset = 0;
  file = file;
}

module _ (crc32 : List ℕ → ℕ) where
  -- The loop of `valid_len`, on fuel.
  unfoldable pub scan : ℕ → ℕ → ℕ → ℕ → ℕ → List ℕ → Option (Result SegmentScan WalError)
  unfolding read_one
  scan zero segment_id offset segment_size physical_len file = none
  scan (suc fuel) segment_id offset segment_size physical_len file =
      let one = read_one crc32 file (lsn_at segment_id offset) segment_size physical_len in
      elim one.1 [
        | err e ↦ some (err e)
        | ok (a_record r next_offset) ↦
            scan fuel segment_id next_offset segment_size physical_len one.0
        | ok eof ↦ some (ok (clean offset))
        | ok incomplete ↦ some (ok (incomplete_tail offset))
      ]

  unfoldable pub valid_len : List ℕ → ℕ → ℕ → Option (Result SegmentScan WalError)
  unfolding scan
  valid_len file segment_id segment_size =
      scan (1 + length file) segment_id 0 segment_size (length file) file

  -- The loop of `recover`, with the files that it leaves.
  unfoldable pub recover_from :
      ℕ → List ℕ → List (List ℕ) → ℕ → Option (List (List ℕ) × Result (ℕ × ℕ) WalError)
  unfolding valid_len
  recover_from segment_id file [] segment_size = elim (valid_len file segment_id segment_size) [
    | none ↦ none
    | some (err e) ↦ some (file ∷ [], err e)
    | some (ok (clean len)) ↦ some (file ∷ [], ok (segment_id, len))
    | some (ok (incomplete_tail len)) ↦ some (take len file ∷ [], ok (segment_id, len))
  ]
  recover_from segment_id file (next ∷ files) segment_size =
      elim (valid_len file segment_id segment_size) [
        | none ↦ none
        | some (err e) ↦ some (file ∷ next ∷ files, err e)
        | some (ok (incomplete_tail len)) ↦
            some
              (file ∷ next ∷ files, err (corrupt_record (lsn_at segment_id len) incomplete_record))
        | some (ok (clean len)) ↦ elim (recover_from (segment_id + 1) next files segment_size) [
          | none ↦ none
          | some (later, r) ↦ some (file ∷ later, r)
        ]
      ]

  -- `recover`: the active segment's id and length.
  unfoldable pub recover : List (List ℕ) → ℕ → Option (List (List ℕ) × Result (ℕ × ℕ) WalError)
  unfolding recover_from
  recover [] segment_size = recover_from 0 [] [] segment_size
  recover (file ∷ files) segment_size = recover_from 0 file files segment_size

  unfoldable pub next_record : SegmentReader → SegmentReader × Result (Option StoredRecord) WalError
  unfolding read_one
  next_record reader =
      let lsn = lsn_at reader.segment_id reader.offset in
      let one = read_one crc32 reader.file lsn reader.segment_size reader.physical_len in
      let moved : SegmentReader = record reader { file = one.0 } in
      elim one.1 [
        | err e ↦ (moved, err e)
        | ok (a_record r next_offset) ↦
            (record moved { offset = next_offset }, ok (some (record { lsn = lsn; stored = r })))
        | ok eof ↦ (moved, ok none)
        | ok incomplete ↦ (moved, err (corrupt_record lsn incomplete_record))
      ]
