-- ===== src/Wal/Log.antt =====
-- wal.rs: the log and its appends. The outcomes of the calls of the operating system are arguments.
-- The files are those before the active one, the active one, and those after it, which a rotation
-- made that failed later.
use basisdb.Base.{
  ℕ, ◌+◌, ◌-◌, Bool, true, false, not, ◌&&◌, ◌||◌, Option, none, some, List, [], ◌∷◌, ◌++◌, length,
  take, ltb, ◌==◌, if◌then◌else◌, Result, ok, err, u64_mod, min,
}
use basisdb.Wal.Record.{
  Lsn, RecordKind, WalError, io, poisoned, record_too_large, wal_full, segment_id_exhausted,
  segment_too_small,
}
use basisdb.Wal.Format.{header_len, encoded_len, encode_record}
use basisdb.Wal.Segment.{lsn_at}

pub record WalOptions : Type 0 where
  pub segment_size : ℕ
  pub max_size : ℕ
  pub sync_on_append : Bool

abbrev pub default_options : WalOptions
default_options = record { segment_size = 67108864; max_size = 4294967296; sync_on_append = false }

pub record Wal : Type 0 where
  pub options : WalOptions
  pub active_id : ℕ
  pub active_len : ℕ
  pub total_len : ℕ
  pub poisoned : Bool
  pub closed : List (List ℕ)
  pub active : List ℕ
  pub spare : List (List ℕ)

-- What the operating system does in an append: the sync and the two steps of a rotation, the write,
-- which may fail after some bytes, and the sync at the end.
pub record Outcomes : Type 0 where
  pub rotate_synced : Bool
  pub opened : Bool
  pub dir_synced : Bool
  pub failed_after : Option ℕ
  pub synced : Bool

abbrev pub Stepped : Type 0 → Type 0
Stepped A = Wal × Result A WalError

unfoldable pub validate_options : WalOptions → Result (Unit {0}) WalError
validate_options options =
    if ltb options.segment_size header_len || ltb options.max_size header_len
    then err (segment_too_small (min options.segment_size options.max_size) header_len)
    else ok tt

unfoldable pub checked_add_len : ℕ → ℕ → Result ℕ WalError
checked_add_len offset len =
    if ltb (offset + len) u64_mod
    then ok (offset + len)
    else err (record_too_large (u64_mod - 1) (u64_mod - 1))

-- `sync`, and whether the file was synced
unfoldable pub sync : Wal → Bool → Stepped (Unit {0})
sync w synced =
    if w.poisoned
    then (w, err poisoned)
    else if synced
    then (w, ok tt)
    else (record w { poisoned = true }, err io)

-- The next file is made, or was made before.
abbrev pub made : List (List ℕ) → List (List ℕ)
made [] = [] ∷ []
made (file ∷ files) = file ∷ files

-- The file of the next id is the active one, empty so far as the log knows.
abbrev pub opened_at : Wal → List ℕ → List (List ℕ) → Wal
opened_at w file files = record w {
  active_id = w.active_id + 1;
  active_len = 0;
  closed = w.closed ++ w.active ∷ [];
  active = file;
  spare = files;
}

-- `open_segment` of the next id, which makes the file where there is none
abbrev pub opened_next : Wal → List (List ℕ) → Wal
opened_next w [] = opened_at w [] []
opened_next w (file ∷ files) = opened_at w file files

-- The body of the last `if` of `rotate_if_needed`, after its sync.
unfoldable pub open_next : Wal → Outcomes → Stepped (Unit {0})
open_next w out =
    if not (ltb (w.active_id + 1) u64_mod)
    then (w, err segment_id_exhausted)
    else if not out.opened
    then (w, err io)
    else if not out.dir_synced
    then (record w { spare = made w.spare }, err io)
    else (opened_next w w.spare, ok tt)

-- The body of the last `if` of `rotate_if_needed`.
unfoldable pub rotate : Wal → Outcomes → Stepped (Unit {0})
unfolding sync open_next
rotate w out =
    let first = sync w out.rotate_synced in
    elim first.1 [ err e ↦ (first.0, err e) | ok u ↦ open_next first.0 out ]

unfoldable pub rotate_if_needed : Wal → Outcomes → ℕ → Stepped (Unit {0})
unfolding rotate
rotate_if_needed w out record_len =
    if ltb w.options.segment_size record_len
    then (w, err (record_too_large record_len w.options.segment_size))
    else if not (ltb (w.active_len + record_len) u64_mod)
    then (w, err (record_too_large (u64_mod - 1) w.options.segment_size))
    else if not (w.active_len == 0) && ltb w.options.segment_size (w.active_len + record_len)
    then rotate w out
    else (w, ok tt)

-- The sync at the end of `append`.
unfoldable pub synced_append : Wal → Outcomes → Lsn → Stepped Lsn
unfolding sync
synced_append w out lsn =
    let last = sync w out.synced in
    if w.options.sync_on_append
    then elim last.1 [ err e ↦ (last.0, err e) | ok u ↦ (last.0, ok lsn) ]
    else (w, ok lsn)

-- `append` from `write_or_poison` on
unfoldable pub write_encoded : Wal → Outcomes → List ℕ → ℕ → ℕ → Stepped Lsn
unfolding synced_append
write_encoded w out encoded next_len next_total =
    let lsn = lsn_at w.active_id w.active_len in
    elim out.failed_after [
      | some n ↦ (record w { poisoned = true; active = w.active ++ take n encoded }, err io)
      | none ↦
          synced_append
            (record w {
              active = w.active ++ encoded;
              active_len = next_len;
              total_len = next_total;
            })
            out lsn
    ]

module _ (crc32 : List ℕ → ℕ) where
  -- `append` after the rotation
  unfoldable pub append_rotated : Wal → Outcomes → RecordKind → List ℕ → ℕ → Stepped Lsn
  unfolding encode_record checked_add_len write_encoded
  append_rotated w out kind payload next_total = elim (encode_record crc32 kind payload) [
    | err e ↦ (w, err e)
    | ok encoded ↦ elim (checked_add_len w.active_len (length encoded)) [
      | err e ↦ (w, err e)
      | ok next_len ↦ write_encoded w out encoded next_len next_total
    ]
  ]

  -- `append` from `rotate_if_needed` on
  unfoldable pub append_sized : Wal → Outcomes → RecordKind → List ℕ → ℕ → ℕ → Stepped Lsn
  unfolding rotate_if_needed append_rotated
  append_sized w out kind payload record_len next_total =
      let rotated = rotate_if_needed w out record_len in
      elim rotated.1 [
        | err e ↦ (rotated.0, err e)
        | ok u ↦ append_rotated rotated.0 out kind payload next_total
      ]

  unfoldable pub append : Wal → Outcomes → RecordKind → List ℕ → Stepped Lsn
  unfolding encoded_len checked_add_len append_sized
  append w out kind payload =
      if w.poisoned then (w, err poisoned) else elim (encoded_len (length payload)) [
        | err e ↦ (w, err e)
        | ok record_len ↦ elim (checked_add_len w.total_len record_len) [
          | err e ↦ (w, err e)
          | ok next_total ↦
              if ltb w.options.max_size next_total
              then (w, err (wal_full next_total w.options.max_size))
              else append_sized w out kind payload record_len next_total
        ]
      ]
