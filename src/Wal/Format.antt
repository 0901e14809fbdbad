-- ===== src/Wal/Format.antt =====
-- format.rs: the bytes of a record. The checksum of the crate `crc32fast` is the parameter `crc32`.
-- A reader is the bytes that it has not read; a failed `read` of the operating system is not
-- modelled here, and `usize` has the width of `u64`.

use basisdb.Base.{
  ℕ, ◌+◌, ◌-◌, not, List, [], ◌++◌, length, take, drop, is_empty, ltb, ◌==◌, if◌then◌else◌, Result,
  ok, err, u64_mod,
}
use basisdb.Wal.Bytes.{le_bytes, from_le}
use basisdb.Wal.Record.{
  Lsn, RecordKind, Record, WalError, bad_magic, unsupported_version, reserved_kind, header_checksum,
  payload_checksum, record_over_segment, segment_too_large, payload_too_large, corrupt_record,
  new_kind,
}

abbrev pub magic : ℕ
magic = 1127831372

abbrev pub version : ℕ
version = 1

abbrev pub header_len : ℕ
header_len = 32

abbrev pub header_crc_end : ℕ
header_crc_end = 28

abbrev pub u32_mod : ℕ
u32_mod = 4294967296

pub data ReadOne : Type 0 where
  a_record : Record → ℕ → ReadOne
  eof incomplete : ReadOne

unfoldable pub encoded_len : ℕ → Result ℕ WalError
encoded_len payload_len =
    if not (ltb payload_len u32_mod)
    then err (payload_too_large payload_len)
    else if ltb (header_len + payload_len) u64_mod
    then ok (header_len + payload_len)
    else err (payload_too_large payload_len)

-- The buffer and what is left of the reader, where the buffer was filled.
pub data ReadExact : Type 0 where
  complete : List ℕ → List ℕ → ReadExact
  at_eof at_tail : ReadExact

-- `read_exact_or_tail` for a buffer of `n` bytes
unfoldable pub read_exact_or_tail : ℕ → List ℕ → ReadExact
read_exact_or_tail n reader =
    if n == 0
    then complete [] reader
    else if is_empty reader
    then at_eof
    else if ltb (length reader) n
    then at_tail
    else complete (take n reader) (drop n reader)

unfoldable pub read_u16 : List ℕ → ℕ → ℕ
unfolding from_le
read_u16 bytes start = from_le (take 2 (drop start bytes))

unfoldable pub read_u32 : List ℕ → ℕ → ℕ
unfolding from_le
read_u32 bytes start = from_le (take 4 (drop start bytes))

module _ (crc32 : List ℕ → ℕ) where
  -- The header up to its own checksum.
  unfoldable pub header_start : RecordKind → List ℕ → List ℕ
  unfolding le_bytes
  header_start kind payload =
      le_bytes 4 magic
      ++ le_bytes 2 version
      ++ le_bytes 2 kind.get
      ++ le_bytes 4 (length payload)
      ++ le_bytes 4 (crc32 payload)
      ++ le_bytes 12 0

  unfoldable pub encode_header : RecordKind → List ℕ → List ℕ
  unfolding le_bytes header_start
  encode_header kind payload =
      header_start kind payload ++ le_bytes 4 (crc32 (header_start kind payload))

  unfoldable pub encode_record : RecordKind → List ℕ → Result (List ℕ) WalError
  unfolding encoded_len encode_header
  encode_record kind payload = elim (encoded_len (length payload)) [
    | err e ↦ err e
    | ok n ↦ ok (encode_header kind payload ++ payload)
  ]

  unfoldable pub decode_header : List ℕ → Lsn → Result RecordKind WalError
  unfolding read_u16 read_u32 new_kind
  decode_header header lsn =
      if not (read_u32 header 0 == magic)
      then err (corrupt_record lsn (bad_magic (read_u32 header 0)))
      else if not (read_u16 header 4 == version)
      then err (corrupt_record lsn (unsupported_version (read_u16 header 4)))
      else if not (crc32 (take header_crc_end header) == read_u32 header 28)
      then err (corrupt_record lsn header_checksum)
      else elim (new_kind (read_u16 header 6)) [
        | ok kind ↦ ok kind
        | err e ↦ err (corrupt_record lsn reserved_kind)
      ]

  -- `read_one` from its second read on, with the length of the payload.
  unfoldable pub read_payload :
      Lsn → RecordKind → List ℕ → ℕ → ℕ → List ℕ → List ℕ × Result ReadOne WalError
  unfolding read_exact_or_tail read_u32
  read_payload lsn kind header payload_len next_offset reader =
      elim (read_exact_or_tail payload_len reader) [
        | complete payload rest ↦ (
          rest,
          if not (crc32 payload == read_u32 header 12)
              then err (corrupt_record lsn payload_checksum)
              else ok (a_record (record { kind = kind; payload = payload }) next_offset),
        )
        | at_eof ↦ ([], ok incomplete)
        | at_tail ↦ ([], ok incomplete)
      ]

  -- `read_one` after `decode_header`
  unfoldable pub read_body :
      Lsn → ℕ → ℕ → RecordKind → List ℕ → List ℕ → List ℕ × Result ReadOne WalError
  unfolding read_payload read_u32
  read_body lsn segment_size physical_len kind header reader =
      let payload_len = read_u32 header 8 in
      let record_len = header_len + payload_len in
      let next_offset = lsn.offset + record_len in
      if ltb segment_size record_len
      then (reader, err (corrupt_record lsn (record_over_segment record_len segment_size)))
      else if not (ltb next_offset u64_mod)
      then (reader, err (corrupt_record lsn (segment_too_large (u64_mod - 1) segment_size)))
      else if ltb segment_size next_offset
      then (reader, err (corrupt_record lsn (segment_too_large next_offset segment_size)))
      else if ltb physical_len next_offset
      then (reader, ok incomplete)
      else read_payload lsn kind header payload_len next_offset reader

  -- `read_one`, with the reader that it leaves
  unfoldable pub read_one : List ℕ → Lsn → ℕ → ℕ → List ℕ × Result ReadOne WalError
  unfolding read_exact_or_tail decode_header read_body
  read_one reader lsn segment_size physical_len = elim (read_exact_or_tail header_len reader) [
    | at_eof ↦ (reader, ok eof)
    | at_tail ↦ ([], ok incomplete)
    | complete header rest ↦ elim (decode_header header lsn) [
      | err e ↦ (rest, err e)
      | ok kind ↦ read_body lsn segment_size physical_len kind header rest
    ]
  ]
