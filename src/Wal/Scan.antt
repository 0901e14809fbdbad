-- ===== src/Wal/Scan.antt =====
-- segment.rs: the scan of a segment that holds whole records, and the beginning of one more.
use mathlib.Core.List.{append_assoc, append-nil}
use basisdb.Base.{
  ℕ, suc, ◌+◌, ◌-◌, ◌≡◌, ◌≢◌, ◌<◌, ◌≤◌, refl, sym, ap, ◌∙◌, some, List, [], ◌∷◌, ◌++◌, length,
  Result, ok, err, u64_mod, arith, length-append, All,
}
use basisdb.Wal.Record.{Record, WalError}
use basisdb.Wal.Format.{
  header_len, u32_mod, ReadOne, a_record, eof, incomplete, read_exact_or_tail, encode_header,
  read_one,
}
use basisdb.Wal.RoundTrip.{read_one-encode_header, length-encode_header}
use basisdb.Wal.Segment.{clean, incomplete_tail, lsn_at, scan, valid_len}

-- A record that has an encoding.
pub record Fits (r : Record) : Type 0 where
  pub named : r.kind.get ≢ 0
  pub small : r.kind.get < 65536
  pub short : length r.payload < u32_mod

module _ (crc32 : List ℕ → ℕ) where
  -- The bytes of records, one after the other.
  unfoldable pub encode_all : List Record → List ℕ
  unfolding encode_header
  encode_all [] = []
  encode_all (r ∷ rs) = encode_header crc32 r.kind r.payload ++ (r.payload ++ encode_all rs)

module _ (crc32 : List ℕ → ℕ) (crc_fits : (bytes : List ℕ) → crc32 bytes < u32_mod) where
  pub length-encode_all :
      (r : Record) (rs : List Record)
      → length (encode_all crc32 (r ∷ rs))
        ≡ header_len + length r.payload + length (encode_all crc32 rs)
  unfolding encode_all
  length-encode_all r rs =
      length-append (encode_header crc32 r.kind r.payload) (r.payload ++ encode_all crc32 rs)
      ∙ ap (λ n. n + length (r.payload ++ encode_all crc32 rs))
          (length-encode_header crc32 crc_fits r.kind r.payload)
      ∙ ap (λ n. header_len + n) (length-append r.payload (encode_all crc32 rs))
      ∙ omega arith

  encode_all-append :
      (r : Record) (rs : List Record) (tail : List ℕ)
      → encode_all crc32 (r ∷ rs) ++ tail
        ≡ encode_header crc32 r.kind r.payload ++ (r.payload ++ (encode_all crc32 rs ++ tail))
  unfolding encode_all
  encode_all-append r rs tail =
      append_assoc (encode_header crc32 r.kind r.payload) (r.payload ++ encode_all crc32 rs) tail
      ∙ ap (λ l. encode_header crc32 r.kind r.payload ++ l)
          (append_assoc r.payload (encode_all crc32 rs) tail)

  -- The scan goes over a record that is read.
  scan-record :
      (file rest : List ℕ) (fuel id offset next size physical : ℕ) (r : Record)
      → read_one crc32 file (lsn_at id offset) size physical ≡ (rest, ok (a_record r next))
      → scan crc32 (suc fuel) id offset size physical file
        ≡ scan crc32 fuel id next size physical rest
  unfolding scan
  scan-record file rest fuel id offset next size physical r h =
      ap
        (λ (one : List ℕ × Result ReadOne WalError). elim one.1 [
          | err e ↦ some (err e)
          | ok (a_record r next_offset) ↦ scan crc32 fuel id next_offset size physical one.0
          | ok eof ↦ some (ok (clean offset))
          | ok incomplete ↦ some (ok (incomplete_tail offset))
        ])
        h

  scan-none :
      (tail : List ℕ) (fuel id offset size physical : ℕ)
      → scan crc32 (0 + fuel) id offset size physical (encode_all crc32 [] ++ tail)
        ≡ scan crc32 fuel id (offset + length (encode_all crc32 [])) size physical tail
  unfolding encode_all
  scan-none tail fuel id offset size physical =
      ap (λ k. scan crc32 k id offset size physical tail) (omega arith)
      ∙ ap (λ n. scan crc32 fuel id n size physical tail) (omega arith)

  -- The scan goes over whole records.
  pub scan-encode_all :
      (rs : List Record) (tail : List ℕ) (fuel id offset size physical : ℕ)
      → All Fits rs
      → offset + length (encode_all crc32 rs) ≤ size
      → offset + length (encode_all crc32 rs) ≤ physical
      → size < u64_mod
      → scan crc32 (length rs + fuel) id offset size physical (encode_all crc32 rs ++ tail)
        ≡ scan crc32 fuel id (offset + length (encode_all crc32 rs)) size physical tail
  scan-encode_all [] tail fuel id offset size physical fits in_segment in_file bound =
      scan-none tail fuel id offset size physical
  scan-encode_all (r ∷ rs) tail fuel id offset size physical fits in_segment in_file bound =
      let sum = length-encode_all r rs in
      let next = offset + (header_len + length r.payload) in
      let one =
        read_one-encode_header crc32 crc_fits (lsn_at id offset) r.kind r.payload
          (encode_all crc32 rs ++ tail) size physical fits.0.named fits.0.small fits.0.short
          (omega (arith, sum, in_segment)) (omega (arith, sum, in_file)) bound in
      ap (λ file. scan crc32 (length (r ∷ rs) + fuel) id offset size physical file)
        (encode_all-append r rs tail)
      ∙ ap
          (λ k.
            scan crc32 k id offset size physical (
              encode_header crc32 r.kind r.payload ++ (r.payload ++ (encode_all crc32 rs ++ tail))))
          (omega arith)
      ∙ scan-record _ (encode_all crc32 rs ++ tail) (length rs + fuel) id offset next size physical
          r one
      ∙ scan-encode_all rs tail fuel id next size physical fits.1 (omega (arith, sum, in_segment))
          (omega (arith, sum, in_file)) bound
      ∙ ap (λ n. scan crc32 fuel id n size physical tail) (omega (arith, sum))

  length-le-encode_all : (rs : List Record) → length rs ≤ length (encode_all crc32 rs)
  length-le-encode_all [] = omega arith
  length-le-encode_all (r ∷ rs) = omega (arith, length-encode_all r rs, length-le-encode_all rs)

  -- `valid_len` reads the whole records and then what follows them.
  pub valid_len-encode_all :
      (rs : List Record) (tail : List ℕ) (id size : ℕ)
      → All Fits rs
      → length (encode_all crc32 rs) ≤ size
      → size < u64_mod
      → (fuel : ℕ) × (valid_len crc32 (encode_all crc32 rs ++ tail) id size
          ≡ scan crc32
              (suc fuel)
              id
              (length (encode_all crc32 rs))
              size
              (length (encode_all crc32 rs) + length tail)
              tail)
  unfolding valid_len
  valid_len-encode_all rs tail id size fits in_segment bound =
      let file = encode_all crc32 rs ++ tail in
      let whole = length-append (encode_all crc32 rs) tail in
      (
        length file - length rs,
        ap (λ k. scan crc32 k id 0 size (length file) file)
              (omega (arith, length-le-encode_all rs, whole))
            ∙ scan-encode_all rs tail (suc (length file - length rs)) id 0 size (length file) fits
                (omega (arith, in_segment)) (omega (arith, whole)) bound
            ∙ ap (λ n. scan crc32 (suc (length file - length rs)) id n size (length file) tail)
                (omega arith)
            ∙ ap
                (λ n.
                  scan crc32 (suc (length file - length rs)) id (length (encode_all crc32 rs)) size
                    n tail)
                whole,
      )

  scan-eof :
      (fuel id offset size physical : ℕ)
      → scan crc32 (suc fuel) id offset size physical [] ≡ some (ok (clean offset))
  unfolding scan read_one read_exact_or_tail
  scan-eof fuel id offset size physical = refl

  pub scan-incomplete :
      (file : List ℕ) (fuel id offset size physical : ℕ)
      → (read_one crc32 file (lsn_at id offset) size physical).1 ≡ ok incomplete
      → scan crc32 (suc fuel) id offset size physical file ≡ some (ok (incomplete_tail offset))
  unfolding scan
  scan-incomplete file fuel id offset size physical h =
      let one = read_one crc32 file (lsn_at id offset) size physical in
      ap
        (λ (x : Result ReadOne WalError). elim x [
          | err e ↦ some (err e)
          | ok (a_record r next_offset) ↦ scan crc32 fuel id next_offset size physical one.0
          | ok eof ↦ some (ok (clean offset))
          | ok incomplete ↦ some (ok (incomplete_tail offset))
        ])
        h

  pub valid_len-clean :
      (rs : List Record) (id size : ℕ)
      → All Fits rs
      → length (encode_all crc32 rs) ≤ size
      → size < u64_mod
      → valid_len crc32 (encode_all crc32 rs) id size
        ≡ some (ok (clean (length (encode_all crc32 rs))))
  valid_len-clean rs id size fits in_segment bound =
      let run = valid_len-encode_all rs [] id size fits in_segment bound in
      ap (λ file. valid_len crc32 file id size) (sym (append-nil (encode_all crc32 rs)))
      ∙ run.1
      ∙ scan-eof run.0 id (length (encode_all crc32 rs)) size _
