-- ===== src/Wal/Total.antt =====
-- segment.rs: the scan of any file ends.
use basisdb.Base.{
  ℕ, zero, suc, ◌+◌, ◌≡◌, ◌<◌, ◌≤◌, refl, not, some, List, [], ◌∷◌, length, take, is_empty, ltb,
  ◌==◌, if◌then◌else◌, Result, ok, err, u64_mod, arith, if_rule, result_rule, length-drop,
}
use basisdb.Wal.Record.{
  Lsn, RecordKind, WalError, corrupt_record, payload_checksum, incomplete_record,
}
use basisdb.Wal.Format.{
  header_len, ReadOne, a_record, eof, incomplete, ReadExact, complete, at_eof, at_tail,
  read_exact_or_tail, read_u32, decode_header, read_payload, read_body, read_one,
}
use basisdb.Wal.Segment.{
  SegmentScan, clean, incomplete_tail, lsn_at, scan, valid_len, recover_from, recover,
}

-- What is left after a buffer was filled.
Leaves : ℕ → ℕ → ReadExact → Type 0
Leaves n m (complete buffer rest) = n + length rest ≤ m
Leaves n m at_eof = Unit
Leaves n m at_tail = Unit

read_exact_or_tail-Leaves :
    (n : ℕ) (reader : List ℕ) → Leaves n (length reader) (read_exact_or_tail n reader)
unfolding Leaves read_exact_or_tail
read_exact_or_tail-Leaves n reader =
    if_rule (Leaves n (length reader)) (n == 0) (λ e. ground (arith, e))
      (λ _.
        if_rule (Leaves n (length reader)) (is_empty reader) (λ _. tt)
          (λ _.
            if_rule (Leaves n (length reader)) (ltb (length reader) n) (λ _. tt)
              (λ e. ground (arith, e, length-drop n reader))))

-- A record that was read leaves less than `m` bytes.
IsShorter : ℕ → List ℕ × Result ReadOne WalError → Type 0
IsShorter m (rest, ok (a_record r next)) = length rest < m
IsShorter m (rest, ok eof) = Unit
IsShorter m (rest, ok incomplete) = Unit
IsShorter m (rest, err e) = Unit

module _ (crc32 : List ℕ → ℕ) where
  read_payload-IsShorter :
      (lsn : Lsn) (kind : RecordKind) (header : List ℕ) (n next m : ℕ) (reader : List ℕ)
      → length reader < m
      → IsShorter m (read_payload crc32 lsn kind header n next reader)
  unfolding read_payload IsShorter Leaves
  read_payload-IsShorter lsn kind header n next m reader h =
      go (read_exact_or_tail n reader) (read_exact_or_tail-Leaves n reader)
    where
      go :
          (x : ReadExact)
          → Leaves n (length reader) x
          → IsShorter m (elim x [
            | complete payload rest ↦ (
              rest,
              if not (crc32 payload == read_u32 header 12)
                  then err (corrupt_record lsn payload_checksum)
                  else ok (a_record (record { kind = kind; payload = payload }) next),
            )
            | at_eof ↦ ([], ok incomplete)
            | at_tail ↦ ([], ok incomplete)
          ])
      go (complete payload rest) k =
          if_rule (λ (r : Result ReadOne WalError). IsShorter m (rest, r))
            (not (crc32 payload == read_u32 header 12)) (λ _. tt) (λ _. omega (arith, k, h))
      go at_eof k = tt
      go at_tail k = tt

  read_body-IsShorter :
      (lsn : Lsn) (size physical m : ℕ) (kind : RecordKind) (header reader : List ℕ)
      → length reader < m
      → IsShorter m (read_body crc32 lsn size physical kind header reader)
  unfolding read_body IsShorter
  read_body-IsShorter lsn size physical m kind header reader h =
      let payload_len = read_u32 header 8 in
      let next = lsn.offset + (header_len + payload_len) in
      if_rule (IsShorter m) (ltb size (header_len + payload_len)) (λ _. tt)
        (λ _.
          if_rule (IsShorter m) (not (ltb next u64_mod)) (λ _. tt)
            (λ _.
              if_rule (IsShorter m) (ltb size next) (λ _. tt)
                (λ _.
                  if_rule (IsShorter m) (ltb physical next) (λ _. tt)
                    (λ _. read_payload-IsShorter lsn kind header payload_len next m reader h))))

  read_one-IsShorter :
      (file : List ℕ) (lsn : Lsn) (size physical : ℕ)
      → IsShorter (length file) (read_one crc32 file lsn size physical)
  unfolding read_one IsShorter Leaves
  read_one-IsShorter file lsn size physical =
      go (read_exact_or_tail header_len file) (read_exact_or_tail-Leaves header_len file)
    where
      go :
          (x : ReadExact)
          → Leaves header_len (length file) x
          → IsShorter (length file) (elim x [
            | at_eof ↦ (file, ok eof)
            | at_tail ↦ ([], ok incomplete)
            | complete header rest ↦ elim (decode_header crc32 header lsn) [
              | err e ↦ (rest, err e)
              | ok kind ↦ read_body crc32 lsn size physical kind header rest
            ]
          ])
      go (complete header rest) k =
          result_rule (IsShorter (length file)) (decode_header crc32 header lsn)
            (λ kind _.
              read_body-IsShorter lsn size physical (length file) kind header rest
                (omega (arith, k)))
            (λ e _. tt)
      go at_eof k = tt
      go at_tail k = tt

  -- Enough fuel gives a result.
  scan-returns :
      (fuel id offset size physical : ℕ) (file : List ℕ)
      → length file < fuel
      → (r : Result SegmentScan WalError) × (scan crc32 fuel id offset size physical file ≡ some r)
  unfolding scan IsShorter
  scan-returns zero id offset size physical file h = absurd (omega (arith, h))
  scan-returns (suc fuel) id offset size physical file h =
      go (read_one crc32 file (lsn_at id offset) size physical)
        (read_one-IsShorter file (lsn_at id offset) size physical)
        (λ next rest k. scan-returns fuel id next size physical rest k)
    where
      go :
          (one : List ℕ × Result ReadOne WalError)
          → IsShorter (length file) one
          → ((next : ℕ) (rest : List ℕ)
              → length rest < fuel
              → (r : Result SegmentScan WalError) × (scan crc32 fuel id next size physical rest
                  ≡ some r))
          → (r : Result SegmentScan WalError) × ((elim one.1 [
            | err e ↦ some (err e)
            | ok (a_record q next_offset) ↦ scan crc32 fuel id next_offset size physical one.0
            | ok eof ↦ some (ok (clean offset))
            | ok incomplete ↦ some (ok (incomplete_tail offset))
          ])
              ≡ some r)
      go (rest, err e) k more = (err e, refl)
      go (rest, ok (a_record q next)) k more = more next rest (omega (arith, k, h))
      go (rest, ok eof) k more = (ok (clean offset), refl)
      go (rest, ok incomplete) k more = (ok (incomplete_tail offset), refl)

  pub valid_len-returns :
      (file : List ℕ) (id size : ℕ)
      → (r : Result SegmentScan WalError) × (valid_len crc32 file id size ≡ some r)
  unfolding valid_len
  valid_len-returns file id size =
      scan-returns (1 + length file) id 0 size (length file) file (omega arith)

  recover_from-returns :
      (id size : ℕ) (file : List ℕ) (files : List (List ℕ))
      → (r : List (List ℕ) × Result (ℕ × ℕ) WalError) × (recover_from crc32 id file files size
          ≡ some r)
  unfolding recover_from
  recover_from-returns id size file [] =
      let found = valid_len-returns file id size in go found.0 found.1
    where
      go :
          (r : Result SegmentScan WalError)
          → valid_len crc32 file id size ≡ some r
          → (x : List (List ℕ) × Result (ℕ × ℕ) WalError) × (recover_from crc32 id file [] size
              ≡ some x)
      go (err e) h = ((file ∷ [], err e), rw (h, recover_from) refl)
      go (ok (clean len)) h = ((file ∷ [], ok (id, len)), rw (h, recover_from) refl)
      go (ok (incomplete_tail len)) h =
          ((take len file ∷ [], ok (id, len)), rw (h, recover_from) refl)
  recover_from-returns id size file (next ∷ files) =
      let found = valid_len-returns file id size in
      go found.0 found.1 (recover_from-returns (id + 1) size next files)
    where
      go :
          (r : Result SegmentScan WalError)
          → valid_len crc32 file id size ≡ some r
          → (y : List (List ℕ) × Result (ℕ × ℕ) WalError) × (recover_from crc32
                (id + 1)
                next
                files
                size
              ≡ some y)
          → (x : List (List ℕ) × Result (ℕ × ℕ) WalError) × (recover_from crc32 id file
                (next ∷ files)
                size
              ≡ some x)
      go (err e) h later = ((file ∷ next ∷ files, err e), rw (h, recover_from) refl)
      go (ok (incomplete_tail len)) h later = (
        (file ∷ next ∷ files, err (corrupt_record (lsn_at id len) incomplete_record)),
        rw (h, recover_from) refl,
      )
      go (ok (clean len)) h later =
          ((file ∷ later.0.0, later.0.1), rw (h, recover_from) (rw (later.1, recover_from) refl))

  -- Recovery of any files, with any checksum and segment size, does not run out of fuel.
  pub recover-returns :
      (files : List (List ℕ)) (size : ℕ)
      → (r : List (List ℕ) × Result (ℕ × ℕ) WalError) × (recover crc32 files size ≡ some r)
  unfolding recover
  recover-returns [] size = recover_from-returns 0 size [] []
  recover-returns (file ∷ files) size = recover_from-returns 0 size file files
