-- ===== src/Wal/Recovery.antt =====
-- segment.rs: recovery after a write that was cut short.
use mathlib.Core.List.{append-nil}
use basisdb.Base.{
  ℕ, zero, suc, ◌+◌, ◌≡◌, ◌<◌, ◌≤◌, refl, ap, ◌∙◌, map, Option, none, some, List, [], ◌∷◌, ◌++◌,
  length, take, Result, ok, err, u64_mod, arith, All,
}
use basisdb.Wal.Record.{Record, WalError}
use basisdb.Wal.Format.{header_len, u32_mod, encode_header}
use basisdb.Wal.Scan.{Fits, encode_all, valid_len-encode_all, valid_len-clean, scan-incomplete}
use basisdb.Wal.Torn.{read_one-torn, length-torn}
use basisdb.Wal.Segment.{
  recover, recover_from, SegmentScan, clean, incomplete_tail, lsn_at, scan, valid_len,
}

-- A segment's records: each has an encoding, and together they are not over the segment's size.
pub record IsSegment (crc32 : List ℕ → ℕ) (size : ℕ) (rs : List Record) : Type 0 where
  pub fits : All Fits rs
  pub sized : length (encode_all crc32 rs) ≤ size

-- The record's bytes.
unfoldable pub encoding : (List ℕ → ℕ) → Record → List ℕ
unfolding encode_header
encoding crc32 r = encode_header crc32 r.kind r.payload ++ r.payload

take-length : (xs ys : List ℕ) → take (length xs) (xs ++ ys) ≡ xs
take-length [] ys = refl
take-length (x ∷ xs) ys = ap (λ l. x ∷ l) (take-length xs ys)

module _ (crc32 : List ℕ → ℕ) (crc_fits : (bytes : List ℕ) → crc32 bytes < u32_mod) where
  -- `recover_from` for a list of files.
  recover_files : ℕ → List (List ℕ) → ℕ → Option (List (List ℕ) × Result (ℕ × ℕ) WalError)
  unfolding recover_from
  recover_files id [] size = none
  recover_files id (file ∷ files) size = recover_from crc32 id file files size

  recover_from-last :
      (id size len : ℕ) (file : List ℕ)
      → valid_len crc32 file id size ≡ some (ok (incomplete_tail len))
      → recover_from crc32 id file [] size ≡ some (take len file ∷ [], ok (id, len))
  unfolding recover_from
  recover_from-last id size len file h =
      ap
        (λ (v : Option (Result SegmentScan WalError)). elim v [
          | none ↦ none
          | some (err e) ↦ some (file ∷ [], err e)
          | some (ok (clean l)) ↦ some (file ∷ [], ok (id, l))
          | some (ok (incomplete_tail l)) ↦ some (take l file ∷ [], ok (id, l))
        ])
        h

  recover_from-clean :
      (id size len : ℕ) (file : List ℕ)
      → valid_len crc32 file id size ≡ some (ok (clean len))
      → recover_from crc32 id file [] size ≡ some (file ∷ [], ok (id, len))
  unfolding recover_from
  recover_from-clean id size len file h =
      ap
        (λ (v : Option (Result SegmentScan WalError)). elim v [
          | none ↦ none
          | some (err e) ↦ some (file ∷ [], err e)
          | some (ok (clean l)) ↦ some (file ∷ [], ok (id, l))
          | some (ok (incomplete_tail l)) ↦ some (take l file ∷ [], ok (id, l))
        ])
        h

  recover_from-next :
      (id size len : ℕ) (file next : List ℕ) (files later : List (List ℕ))
      (r : Result (ℕ × ℕ) WalError)
      → valid_len crc32 file id size ≡ some (ok (clean len))
      → recover_from crc32 (id + 1) next files size ≡ some (later, r)
      → recover_from crc32 id file (next ∷ files) size ≡ some (file ∷ later, r)
  unfolding recover_from
  recover_from-next id size len file next files later r h k =
      rw (h, recover_from) (rw (k, recover_from) refl)

  -- The last segment: its whole records are kept, the beginning of one more is cut.
  recover_from-torn :
      (current : List Record) (r : Record) (n id size : ℕ)
      → IsSegment crc32 size current
      → Fits r
      → length (encode_all crc32 current) + (header_len + length r.payload) ≤ size
      → size < u64_mod
      → n < header_len + length r.payload
      → recover_from crc32 id (encode_all crc32 current ++ take n (encoding crc32 r)) [] size
        ≡ some (encode_all crc32 current ∷ [], ok (id, length (encode_all crc32 current)))
  unfolding encoding
  recover_from-torn current r zero id size v fits in_segment bound torn =
      let whole = append-nil (encode_all crc32 current) in
      ap (λ file. recover_from crc32 id file [] size) whole
      ∙ recover_from-clean id size _ (encode_all crc32 current)
          (valid_len-clean crc32 crc_fits current id size v.fits v.sized bound)
  recover_from-torn current r (suc n) id size v fits in_segment bound torn =
      let tail = take (suc n) (encode_header crc32 r.kind r.payload ++ r.payload) in
      let taken = length-torn crc32 crc_fits r (suc n) torn in
      let positive : 0 < suc n = omega arith in
      let run = valid_len-encode_all crc32 crc_fits current tail id size v.fits v.sized bound in
      let cut =
        run.1
        ∙ ap
            (λ k.
              scan crc32 (suc run.0) id (length (encode_all crc32 current)) size
                (length (encode_all crc32 current) + k) tail)
            taken
        ∙ scan-incomplete crc32 crc_fits tail run.0 id (length (encode_all crc32 current)) size _ (
            read_one-torn crc32 crc_fits r (suc n) (lsn_at id (length (encode_all crc32 current)))
              size fits in_segment bound positive torn) in
      recover_from-last id size (length (encode_all crc32 current))
        (encode_all crc32 current ++ tail) cut
      ∙ ap (λ file. some (file ∷ [], ok (id, length (encode_all crc32 current))))
          (take-length (encode_all crc32 current) tail)

  -- The segments before the last one are kept.
  recover_files-torn :
      (older : List (List Record)) (current : List Record) (r : Record) (n id size : ℕ)
      → All (IsSegment crc32 size) older
      → IsSegment crc32 size current
      → Fits r
      → length (encode_all crc32 current) + (header_len + length r.payload) ≤ size
      → size < u64_mod
      → n < header_len + length r.payload
      → recover_files id
          (map (encode_all crc32) older
            ++ (encode_all crc32 current ++ take n (encoding crc32 r)) ∷ [])
          size
        ≡ some (
          map (encode_all crc32) older ++ encode_all crc32 current ∷ [],
          ok (id + length older, length (encode_all crc32 current)),
        )
  unfolding recover_files
  recover_files-torn [] current r n id size vs v fits in_segment bound torn =
      recover_from-torn current r n id size v fits in_segment bound torn
      ∙ ap (λ k. some (encode_all crc32 current ∷ [], ok (k, length (encode_all crc32 current))))
          (omega arith)
  recover_files-torn (rs ∷ []) current r n id size vs v fits in_segment bound torn =
      recover_from-next id size _ (encode_all crc32 rs)
        (encode_all crc32 current ++ take n (encoding crc32 r)) [] _ _
        (valid_len-clean crc32 crc_fits rs id size vs.0.fits vs.0.sized bound)
        (recover_files-torn [] current r n (id + 1) size tt v fits in_segment bound torn)
      ∙ ap
          (λ k. some (
            encode_all crc32 rs ∷ encode_all crc32 current ∷ [],
            ok (k, length (encode_all crc32 current)),
          ))
          (omega arith)
  recover_files-torn (rs ∷ rs' ∷ older) current r n id size vs v fits in_segment bound torn =
      recover_from-next id size _ (encode_all crc32 rs) (encode_all crc32 rs')
        (map (encode_all crc32) older
          ++ (encode_all crc32 current ++ take n (encoding crc32 r)) ∷ [])
        _ _ (valid_len-clean crc32 crc_fits rs id size vs.0.fits vs.0.sized bound)
        (recover_files-torn (rs' ∷ older) current r n (id + 1) size vs.1 v fits in_segment bound
          torn)
      ∙ ap
          (λ k. some (
            map (encode_all crc32) (rs ∷ rs' ∷ older) ++ encode_all crc32 current ∷ [],
            ok (k, length (encode_all crc32 current)),
          ))
          (omega arith)

  recover-recover_files :
      (file : List ℕ) (files : List (List ℕ)) (size : ℕ)
      → recover crc32 (file ∷ files) size ≡ recover_files 0 (file ∷ files) size
  unfolding recover recover_files
  recover-recover_files file files size = refl

  -- Where the closed files hold whole records and the last file holds whole records and then only
  -- the beginning of one more, which would fit the segment, each record with a positive 16-bit
  -- kind and a payload shorter than 2^32, and the segment size is a u64, recovery keeps all whole
  -- records, cuts the beginning off, and returns the last file's id and the length of its whole
  -- records; the checksum is any function into 32 bits.
  pub recover-torn :
      (older : List (List Record)) (current : List Record) (r : Record) (n size : ℕ)
      → All (IsSegment crc32 size) older
      → IsSegment crc32 size current
      → Fits r
      → length (encode_all crc32 current) + (header_len + length r.payload) ≤ size
      → size < u64_mod
      → n < header_len + length r.payload
      → recover crc32
          (map (encode_all crc32) older
            ++ (encode_all crc32 current ++ take n (encoding crc32 r)) ∷ [])
          size
        ≡ some (
          map (encode_all crc32) older ++ encode_all crc32 current ∷ [],
          ok (length older, length (encode_all crc32 current)),
        )
  recover-torn [] current r n size vs v fits in_segment bound torn =
      recover-recover_files _ _ size
      ∙ recover_files-torn [] current r n 0 size vs v fits in_segment bound torn
  recover-torn (rs ∷ older) current r n size vs v fits in_segment bound torn =
      let zero_add : 0 + length (rs ∷ older) ≡ length (rs ∷ older) = omega arith in
      recover-recover_files _ _ size
      ∙ recover_files-torn (rs ∷ older) current r n 0 size vs v fits in_segment bound torn
      ∙ ap
          (λ k. some (
            map (encode_all crc32) (rs ∷ older) ++ encode_all crc32 current ∷ [],
            ok (k, length (encode_all crc32 current)),
          ))
          zero_add
