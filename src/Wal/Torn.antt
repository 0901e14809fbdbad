-- ===== src/Wal/Torn.antt =====
-- format.rs: reading a record that was not written to its end.
use basisdb.Base.{
  ℕ, min, suc, ◌+◌, ◌-◌, ◌≡◌, ◌<◌, ◌≤◌, inl, inr, refl, sym, ap, ◌∙◌, true, false, List, [], ◌∷◌,
  ◌++◌, length, take, length-take, ltb, ok, u64_mod, arith, length-append, Bool-cases, ltb→lt,
}
use basisdb.Wal.Record.{Lsn, Record}
use basisdb.Wal.Format.{
  header_len, u32_mod, at_tail, incomplete, complete, read_exact_or_tail, encode_header, read_body,
  read_one,
}
use basisdb.Wal.RoundTrip.{
  length-encode_header, read_exact_or_tail-complete, decode_header-encode_header, read_u32-length,
}
use basisdb.Wal.Scan.{Fits}

take-append : (xs ys : List ℕ) (k : ℕ) → take (length xs + k) (xs ++ ys) ≡ xs ++ take k ys
take-append [] ys k = let same : 0 + k ≡ k = omega arith in ap (λ n. take n ys) same
take-append (x ∷ xs) ys k =
    let more : length (x ∷ xs) + k ≡ suc (length xs + k) = omega arith in
    ap (λ n. take n (x ∷ (xs ++ ys))) more ∙ ap (λ l. x ∷ l) (take-append xs ys k)

read_exact_or_tail-short :
    (n : ℕ) (xs : List ℕ) → 0 < length xs → length xs < n → read_exact_or_tail n xs ≡ at_tail
unfolding read_exact_or_tail
read_exact_or_tail-short n [] h k = absurd (omega (arith, h))
read_exact_or_tail-short n (x ∷ xs) h k = ground (arith, h, k)

module _ (crc32 : List ℕ → ℕ) (crc_fits : (bytes : List ℕ) → crc32 bytes < u32_mod) where
  -- A tail with less than a header.
  read_one-short :
      (tail : List ℕ) (lsn : Lsn) (size physical : ℕ)
      → 0 < length tail
      → length tail < header_len
      → (read_one crc32 tail lsn size physical).1 ≡ ok incomplete
  unfolding read_one
  read_one-short tail lsn size physical h k =
      rw (read_exact_or_tail-short header_len tail h k, read_one) refl

  -- A tail with the header and a part of the payload.
  read_one-part :
      (r : Record) (part : List ℕ) (lsn : Lsn) (size physical : ℕ)
      → Fits r
      → lsn.offset + (header_len + length r.payload) ≤ size
      → size < u64_mod
      → physical < lsn.offset + (header_len + length r.payload)
      → (read_one crc32 (encode_header crc32 r.kind r.payload ++ part) lsn size physical).1
        ≡ ok incomplete
  unfolding read_one read_body
  read_one-part r part lsn size physical fits in_segment bound torn =
      let header = encode_header crc32 r.kind r.payload in
      let filled : read_exact_or_tail header_len (header ++ part) ≡ complete header part =
        ap (λ n. read_exact_or_tail n (header ++ part))
          (sym (length-encode_header crc32 crc_fits r.kind r.payload))
        ∙ read_exact_or_tail-complete header part in
      let next = lsn.offset + (header_len + length r.payload) in
      let fit_record : ltb size (header_len + length r.payload) ≡ false =
        ground (arith, in_segment) in
      let fit_word : ltb next u64_mod ≡ true = ground (arith, in_segment, bound) in
      let fit_segment : ltb size next ≡ false = ground (arith, in_segment) in
      let past : ltb physical next ≡ true = ground (arith, torn) in
      rw (filled, read_one)
        (rw
          (
            decode_header-encode_header crc32 crc_fits r.kind r.payload lsn fits.named fits.small,
            read_one,
          )
          (rw (read_u32-length crc32 crc_fits r.kind r.payload fits.short, read_body)
            (rw (fit_record, fit_word, fit_segment, past) refl)))

  pub length-torn :
      (r : Record) (n : ℕ)
      → n < header_len + length r.payload
      → length (take n (encode_header crc32 r.kind r.payload ++ r.payload)) ≡ n
  length-torn r n torn =
      let header = encode_header crc32 r.kind r.payload in
      let header_is = length-encode_header crc32 crc_fits r.kind r.payload in
      let least : min n (length header + length r.payload) ≡ n = ground (arith, header_is, torn) in
      length-take n (header ++ r.payload) ∙ ap (min n) (length-append header r.payload) ∙ least

  -- The beginning of a record, as far as it was written.
  pub read_one-torn :
      (r : Record) (n : ℕ) (lsn : Lsn) (size : ℕ)
      → Fits r
      → lsn.offset + (header_len + length r.payload) ≤ size
      → size < u64_mod
      → 0 < n
      → n < header_len + length r.payload
      → (read_one crc32
          (take n (encode_header crc32 r.kind r.payload ++ r.payload))
          lsn
          size
          (lsn.offset + n)).1
        ≡ ok incomplete
  read_one-torn r n lsn size fits in_segment bound some_bytes torn =
      let header = encode_header crc32 r.kind r.payload in
      let header_is = length-encode_header crc32 crc_fits r.kind r.payload in
      let taken = length-torn r n torn in
      elim (Bool-cases (ltb n header_len)) [
        | inl short ↦
            read_one-short _ lsn size (lsn.offset + n) (omega (arith, taken, some_bytes))
              (omega (arith, taken, ltb→lt n header_len short))
        | inr long ↦
            let part : take n (header ++ r.payload) ≡ header ++ take (n - header_len) r.payload =
              ap (λ k. take k (header ++ r.payload)) (split n header long header_is)
              ∙ take-append header r.payload (n - header_len) in
            ap (λ l. (read_one crc32 l lsn size (lsn.offset + n)).1) part
            ∙ read_one-part r _ lsn size (lsn.offset + n) fits in_segment bound
                (omega (arith, torn))
      ]
    where
      split :
          (n : ℕ) (header : List ℕ)
          → ltb n header_len ≡ false
          → length header ≡ header_len
          → n ≡ length header + (n - header_len)
      split n header h k = ground (arith, h, k)
