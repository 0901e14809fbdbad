-- ===== src/Wal/RoundTrip.antt =====
-- format.rs: a record is read back from its encoding.
use mathlib.Core.List.{append_assoc}
use basisdb.Base.{
  ℕ, ◌+◌, ◌≡◌, ◌≢◌, ◌<◌, ◌≤◌, refl, sym, ap, ◌∙◌, List, [], ◌∷◌, ◌++◌, length, take, drop, ok,
  u64_mod, arith, length-append, not, ltb, Result, err, if_rule,
}
use basisdb.Wal.Bytes.{le_bytes, from_le, from_le-le_bytes, bytes_mod}
use basisdb.Wal.Record.{Lsn, RecordKind, new_kind, WalError}
use basisdb.Wal.Format.{
  header_len, u32_mod, a_record, complete, read_exact_or_tail, read_u16, read_u32, header_start,
  encode_header, encoded_len, encode_record, decode_header, read_payload, read_body, read_one,
}

ok-injective : {A E : Type 0} (a b : A) → ◌≡◌ {A = Result A E} (ok a) (ok b) → a ≡ b
ok-injective a b h = cc h

take-length : (xs ys : List ℕ) → take (length xs) (xs ++ ys) ≡ xs
take-length [] ys = refl
take-length (x ∷ xs) ys = ap (λ l. x ∷ l) (take-length xs ys)

drop-length : (xs ys : List ℕ) → drop (length xs) (xs ++ ys) ≡ ys
drop-length [] ys = refl
drop-length (x ∷ xs) ys = drop-length xs ys

-- A buffer of the right size takes a prefix.
pub read_exact_or_tail-complete :
    (xs ys : List ℕ) → read_exact_or_tail (length xs) (xs ++ ys) ≡ complete xs ys
unfolding read_exact_or_tail
read_exact_or_tail-complete [] ys = refl
read_exact_or_tail-complete (x ∷ xs) ys =
    ground (arith, take-length xs ys, drop-length xs ys, length-append xs ys)

module _ (crc32 : List ℕ → ℕ) (crc_fits : (bytes : List ℕ) → crc32 bytes < u32_mod) where
  pub decode_header-encode_header :
      (kind : RecordKind) (payload : List ℕ) (lsn : Lsn)
      → kind.get ≢ 0
      → kind.get < 65536
      → decode_header crc32 (encode_header crc32 kind payload) lsn ≡ ok kind
  unfolding decode_header encode_header header_start le_bytes from_le read_u16 read_u32 new_kind
      bytes_mod
  decode_header-encode_header kind payload lsn h k =
      let crc =
        from_le-le_bytes 4 (crc32 (header_start crc32 kind payload))
          (omega (arith, crc_fits (header_start crc32 kind payload))) in
      let number = from_le-le_bytes 2 kind.get (omega (arith, k)) in ground (arith, crc, number)

  -- The header says the length and the checksum of the payload.
  pub read_u32-length :
      (kind : RecordKind) (payload : List ℕ)
      → length payload < u32_mod
      → read_u32 (encode_header crc32 kind payload) 8 ≡ length payload
  unfolding encode_header header_start le_bytes from_le read_u32 bytes_mod
  read_u32-length kind payload h = from_le-le_bytes 4 (length payload) (omega (arith, h))

  read_u32-crc32 :
      (kind : RecordKind) (payload : List ℕ)
      → read_u32 (encode_header crc32 kind payload) 12 ≡ crc32 payload
  unfolding encode_header header_start le_bytes from_le read_u32 bytes_mod
  read_u32-crc32 kind payload = from_le-le_bytes 4 (crc32 payload) (omega (arith, crc_fits payload))

  pub length-encode_header :
      (kind : RecordKind) (payload : List ℕ)
      → length (encode_header crc32 kind payload) ≡ header_len
  unfolding encode_header header_start le_bytes
  length-encode_header kind payload = refl

  read_payload-whole :
      (lsn : Lsn) (kind : RecordKind) (payload rest : List ℕ) (next_offset : ℕ)
      → read_payload crc32 lsn kind
          (encode_header crc32 kind payload)
          (length payload)
          next_offset
          (payload ++ rest)
        ≡ (rest, ok (a_record (record { kind = kind; payload = payload }) next_offset))
  unfolding read_payload
  read_payload-whole lsn kind payload rest next_offset =
      rw (read_exact_or_tail-complete payload rest, read_payload)
        (ground (arith, read_u32-crc32 kind payload))

  read_body-whole :
      (lsn : Lsn) (kind : RecordKind) (payload rest : List ℕ) (segment_size physical_len : ℕ)
      → length payload < u32_mod
      → lsn.offset + (header_len + length payload) ≤ segment_size
      → lsn.offset + (header_len + length payload) ≤ physical_len
      → segment_size < u64_mod
      → read_body crc32 lsn segment_size physical_len kind
          (encode_header crc32 kind payload)
          (payload ++ rest)
        ≡ (
          rest,
          ok (
              a_record
                (record { kind = kind; payload = payload })
                (lsn.offset + (header_len + length payload))),
        )
  unfolding read_body
  read_body-whole lsn kind payload rest segment_size physical_len fits in_segment in_file bound =
      rw (read_u32-length kind payload fits) (
        ground (
          arith,
          read_payload-whole lsn kind payload rest (lsn.offset + (header_len + length payload)),
        ))

  pub read_one-encode_header :
      (lsn : Lsn) (kind : RecordKind) (payload rest : List ℕ) (segment_size physical_len : ℕ)
      → kind.get ≢ 0
      → kind.get < 65536
      → length payload < u32_mod
      → lsn.offset + (header_len + length payload) ≤ segment_size
      → lsn.offset + (header_len + length payload) ≤ physical_len
      → segment_size < u64_mod
      → read_one crc32
          (encode_header crc32 kind payload ++ (payload ++ rest))
          lsn
          segment_size
          physical_len
        ≡ (
          rest,
          ok (
              a_record
                (record { kind = kind; payload = payload })
                (lsn.offset + (header_len + length payload))),
        )
  unfolding read_one
  read_one-encode_header lsn kind payload rest segment_size physical_len named small fits in_segment
        in_file bound =
      let header = encode_header crc32 kind payload in
      let filled : read_exact_or_tail header_len (header ++ (payload ++ rest))
          ≡ complete header (payload ++ rest) =
        ap (λ n. read_exact_or_tail n (header ++ (payload ++ rest)))
          (sym (length-encode_header kind payload))
        ∙ read_exact_or_tail-complete header (payload ++ rest) in
      rw (filled, read_one)
        (rw (decode_header-encode_header kind payload lsn named small, read_one)
          (read_body-whole lsn kind payload rest segment_size physical_len fits in_segment in_file
            bound))

  -- What is encoded has a length that the header can say.
  encode_record-short :
      (kind : RecordKind) (payload encoded : List ℕ)
      → encode_record crc32 kind payload ≡ ok encoded
      → (length payload < u32_mod) × (encode_header crc32 kind payload ++ payload ≡ encoded)
  unfolding encode_record encoded_len
  encode_record-short kind payload encoded =
      if_rule Encodes (not (ltb (length payload) u32_mod)) (λ _ h. absurd (ground (arith, h)))
        (λ short.
          if_rule Encodes (ltb (header_len + length payload) u64_mod)
            (λ _ h. (ground (arith, short), ok-injective _ _ h))
            (λ _ h. absurd (ground (arith, h))))
    where
      Encodes : Result ℕ WalError → Type 0
      Encodes x =
          (elim x [ err e ↦ err e | ok n ↦ ok (encode_header crc32 kind payload ++ payload) ])
            ≡ ok encoded
          → (length payload < u32_mod) × (encode_header crc32 kind payload ++ payload ≡ encoded)

  -- Reading at an encoded record, whatever follows it, gives its kind and payload, the offset
  -- behind it, and a reader that is left with what follows, where the kind is a positive 16-bit
  -- number, the record ends within the segment, whose size is a u64, and within the file, and the
  -- checksum is any function into 32 bits.
  pub read_one-encode_record :
      (lsn : Lsn) (kind : RecordKind) (payload encoded rest : List ℕ)
      (segment_size physical_len : ℕ)
      → encode_record crc32 kind payload ≡ ok encoded
      → kind.get ≢ 0
      → kind.get < 65536
      → lsn.offset + length encoded ≤ segment_size
      → lsn.offset + length encoded ≤ physical_len
      → segment_size < u64_mod
      → read_one crc32 (encoded ++ rest) lsn segment_size physical_len ≡ (
        rest,
        ok (a_record (record { kind = kind; payload = payload }) (lsn.offset + length encoded)),
      )
  read_one-encode_record lsn kind payload encoded rest size physical h named small in_segment
        in_file bound =
      let header = encode_header crc32 kind payload in
      let given = encode_record-short kind payload encoded h in
      let long : length encoded ≡ header_len + length payload =
        ap length (sym given.1)
        ∙ length-append header payload
        ∙ ap (λ n. n + length payload) (length-encode_header kind payload) in
      ap (λ l. read_one crc32 (l ++ rest) lsn size physical) (sym given.1)
      ∙ ap (λ l. read_one crc32 l lsn size physical) (append_assoc header payload rest)
      ∙ read_one-encode_header lsn kind payload rest size physical named small given.0
          (omega (arith, in_segment, long)) (omega (arith, in_file, long)) bound
      ∙ ap (λ n. (rest, ok (a_record (record { kind = kind; payload = payload }) (lsn.offset + n))))
          (sym long)
