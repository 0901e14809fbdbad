-- ===== src/Wal/Examples.antt =====
-- The write-ahead log on concrete bytes, with a simple checksum.
use basisdb.Base.{
  ℕ, ◌+◌, ◌*◌, ◌%◌, ◌<◌, ◌≤◌, ◌≡◌, refl, inl, false, true, none, some, List, [], ◌∷◌, ◌++◌, map,
  length, take, ok, arith,
}
use basisdb.Wal.Record.{RecordKind, Record}
use basisdb.Wal.Format.{
  header_len, u32_mod, a_record, encode_record, encode_header, header_start, encoded_len, read_one,
}
use basisdb.Wal.Bytes.{le_bytes}
use basisdb.Base.{Result}
use basisdb.Wal.Record.{WalError}
use basisdb.Wal.Total.{recover-returns}
use basisdb.Wal.RoundTrip.{read_one-encode_record}
use basisdb.Wal.Segment.{lsn_at, recover}
use basisdb.Wal.Scan.{Fits, encode_all}
use basisdb.Wal.Recovery.{IsSegment, encoding, recover-torn}
use basisdb.Wal.Refinement.{Holds, all_records}
use basisdb.Wal.Append.{Promise, append-Promise}
use basisdb.Wal.Log.{Wal, Outcomes, default_options, append}

unfoldable sum_of : List ℕ → ℕ
sum_of [] = 0
sum_of (b ∷ bytes) = (b + 31 * sum_of bytes) % u32_mod

sum_fits : (bytes : List ℕ) → sum_of bytes < u32_mod
unfolding sum_of
sum_fits [] = omega arith
sum_fits (b ∷ bytes) = omega arith

abbrev a_kind : RecordKind
a_kind = record { get = 1 }

abbrev a_record_of : Record
a_record_of = record { kind = a_kind; payload = 7 ∷ 8 ∷ [] }

a_record_of-Fits : Fits a_record_of
a_record_of-Fits = record {
  named = λ e. ground (arith, e);
  small = omega arith;
  short = omega arith;
}

abbrev bytes_of : List ℕ
bytes_of = encode_header sum_of a_kind (7 ∷ 8 ∷ []) ++ 7 ∷ 8 ∷ []

bytes_given : encode_record sum_of a_kind (7 ∷ 8 ∷ []) ≡ ok bytes_of
unfolding encode_record encoded_len
bytes_given = refl

bytes_long : length bytes_of ≡ 34
unfolding encode_header header_start le_bytes
bytes_long = refl

read_one-encode_record_example :
    read_one sum_of (bytes_of ++ 76 ∷ []) (lsn_at 0 100) 1000 200
    ≡ (76 ∷ [], ok (a_record a_record_of (100 + length bytes_of)))
read_one-encode_record_example =
    read_one-encode_record sum_of sum_fits (lsn_at 0 100) a_kind (7 ∷ 8 ∷ []) bytes_of (76 ∷ [])
      1000 200 bytes_given (λ e. ground (arith, e)) (omega arith) (omega (arith, bytes_long))
      (omega (arith, bytes_long)) (omega arith)

abbrev empty_wal : Wal
empty_wal = record {
  options = default_options;
  active_id = 0;
  active_len = 0;
  total_len = 0;
  poisoned = false;
  closed = [];
  active = [];
  spare = [];
}

empty-IsSegment : IsSegment sum_of 1000 []
unfolding encode_all
empty-IsSegment = record { fits = tt; sized = omega arith }

empty_wal-Holds : Holds sum_of empty_wal []
unfolding encode_all all_records
empty_wal-Holds = record {
  older = [];
  current = [];
  torn = [];
  records = refl;
  closed_is = refl;
  active_is = refl;
  whole = inl refl;
  len_is = refl;
  id_is = refl;
  spare_empty = tt;
  older_fit = tt;
  current_fit = record { fits = tt; sized = omega arith };
}

abbrev all_well : Outcomes
all_well = record {
  rotate_synced = true;
  opened = true;
  dir_synced = true;
  failed_after = none;
  synced = true;
}

append-Promise_example :
    Promise sum_of [] a_record_of
      (append sum_of empty_wal all_well a_kind (7 ∷ 8 ∷ [])).0
      (append sum_of empty_wal all_well a_kind (7 ∷ 8 ∷ [])).1
append-Promise_example =
    append-Promise sum_of sum_fits empty_wal all_well [] a_record_of a_record_of-Fits
      empty_wal-Holds

room : length (encode_all sum_of []) + (header_len + length a_record_of.payload) ≤ 1000
unfolding encode_all
room = omega arith

recover-torn_example :
    recover sum_of
      (map (encode_all sum_of) []
        ++ (encode_all sum_of [] ++ take 33 (encoding sum_of a_record_of)) ∷ [])
      1000
    ≡ some (
      map (encode_all sum_of) [] ++ encode_all sum_of [] ∷ [],
      ok (length {A = List Record} [], length (encode_all sum_of [])),
    )
recover-torn_example =
    recover-torn sum_of sum_fits [] [] a_record_of 33 1000 tt empty-IsSegment a_record_of-Fits room
      (omega arith) (omega arith)

recover-returns_example :
    (r : List (List ℕ) × Result (ℕ × ℕ) WalError) × (recover sum_of ((76 ∷ 87 ∷ []) ∷ []) 1000
      ≡ some r)
recover-returns_example = recover-returns sum_of ((76 ∷ 87 ∷ []) ∷ []) 1000
