-- ===== src/Wal/Record.antt =====
-- record.rs and error.rs of basisdb-wal: positions, records and failures. Paths and the errors of
-- the operating system are left out of the failures.
use basisdb.Base.{ℕ, List, Result, ok, err, ◌==◌, if◌then◌else◌}

pub record Lsn : Type 0 where
  pub segment_id : ℕ
  pub offset : ℕ

pub record RecordKind : Type 0 where
  pub get : ℕ

pub record Record : Type 0 where
  pub kind : RecordKind
  pub payload : List ℕ

pub record StoredRecord : Type 0 where
  pub lsn : Lsn
  pub stored : Record

pub data Corruption : Type 0 where
  bad_magic unsupported_version : ℕ → Corruption
  reserved_kind header_checksum payload_checksum : Corruption
  record_over_segment segment_too_large : ℕ → ℕ → Corruption
  incomplete_record : Corruption

pub data WalError : Type 0 where
  io bad_segment_name locked poisoned : WalError
  reserved_record_kind : WalError
  segment_too_small record_too_large wal_full : ℕ → ℕ → WalError
  payload_too_large : ℕ → WalError
  segment_id_exhausted : WalError
  corrupt_record : Lsn → Corruption → WalError
  missing_segment : ℕ → ℕ → WalError

-- `RecordKind::new`
unfoldable pub new_kind : ℕ → Result RecordKind WalError
new_kind value = if value == 0 then err reserved_record_kind else ok (record { get = value })
