-- ===== src/Store.antt =====
-- basisdb-node/src/store.rs: the Raft state on the write-ahead log. `serde_json` is two parameters,
-- `encode` and `decode`, that may fail; the log's checksum is a parameter too.
pub mod Replay
pub mod Restart
pub mod Examples
use basisdb.Base.{
  ℕ, zero, suc, ◌+◌, Bool, not, ◌&&◌, Option, none, some, List, [], ◌∷◌, ltb, ◌==◌, if◌then◌else◌,
  Result, ok, err, min, max, add64,
}
use basisdb.Raft.Log.{
  Entry, Log, LogIndex, Term, last_index, term_at, append, truncate_after, slice,
}
use basisdb.Raft.Membership.{Configuration}
use basisdb.Raft.NodeSet.{NodeId}
use basisdb.Raft.Core.{Persistent}
use basisdb.Wal.Record.{RecordKind, Record, WalError}
use basisdb.Wal.Log.{Wal, Outcomes, sync}

pub data StoreError : Type 0 where
  wal_failed : WalError → StoreError
  encode_failed decode_failed snapshot_unsupported : StoreError
  unexpected_kind : ℕ → StoreError
  term_regression invalid_truncation noncontiguous_entry : ℕ → ℕ → StoreError

abbrev pub raft_state_kind : ℕ
raft_state_kind = 1

pub record PersistentDelta : Type 0 where
  pub term : Term
  pub voted_for : Option NodeId
  pub bootstrap_config : Configuration
  pub truncate_after : LogIndex
  pub entries : List Entry

pub record RaftStore : Type 0 where
  pub wal : Wal
  pub kind : RecordKind
  pub durable : Persistent

-- The loop of `common_prefix`, from an index down.
unfoldable pub agree_down : LogIndex → Log → Log → LogIndex → LogIndex
agree_down floor durable current zero = zero
agree_down floor durable current (suc i) =
    let rest = agree_down floor durable current i in
    if ltb floor (suc i) && not (term_at durable (suc i) == term_at current (suc i))
    then rest
    else suc i

unfoldable pub common_prefix : Persistent → Persistent → LogIndex
unfolding agree_down last_index
common_prefix durable current =
    agree_down (max durable.log.snapshot_index current.log.snapshot_index) durable.log current.log
      (min (last_index durable.log) (last_index current.log))

-- The delta that `save` writes.
unfoldable pub delta_of : Persistent → Persistent → PersistentDelta
unfolding common_prefix slice add64 last_index
delta_of durable current = record {
  term = current.term;
  voted_for = current.voted_for;
  bootstrap_config = current.bootstrap_config;
  truncate_after = common_prefix durable current;
  entries = slice current.log (add64 (common_prefix durable current) 1) (last_index current.log);
}

-- The loop of `apply_delta`, with the log that it leaves.
unfoldable pub append_entries : Log → List Entry → Log × Result (Unit {0}) StoreError
unfolding last_index add64 append
append_entries log [] = (log, ok tt)
append_entries log (e ∷ es) =
    let rest = append_entries (append log e) es in
    let expected = add64 (last_index log) 1 in
    if not (e.index == expected) then (log, err (noncontiguous_entry expected e.index)) else rest

-- The state is changed as far as the delta was applied.
unfoldable pub apply_delta :
    Persistent → PersistentDelta → Persistent × Result (Unit {0}) StoreError
unfolding last_index truncate_after append_entries
apply_delta s d =
    if ltb d.term s.term
    then (s, err (term_regression s.term d.term))
    else if ltb (last_index s.log) d.truncate_after
    then (s, err (invalid_truncation d.truncate_after (last_index s.log)))
    else let appended = append_entries (truncate_after s.log d.truncate_after) d.entries in
      elim appended.1 [
        | err e ↦ (record s { log = appended.0 }, err e)
        | ok u ↦ (
          record {
            term = d.term;
            voted_for = d.voted_for;
            log = appended.0;
            bootstrap_config = d.bootstrap_config;
          },
          ok tt,
        )
      ]

module _ (crc32 : List ℕ → ℕ) (encode : PersistentDelta → Option (List ℕ)) where
  -- `save` from `wal.sync` on, after the append.
  unfoldable pub save_synced :
      RaftStore → Bool → Persistent → RaftStore × Result (Unit {0}) StoreError
  unfolding sync
  save_synced store synced current =
      let last = sync store.wal synced in
      elim last.1 [
        | err e ↦ (record store { wal = last.0 }, err (wal_failed e))
        | ok u ↦ (record store { wal = last.0; durable = current }, ok tt)
      ]

  unfoldable pub save :
      RaftStore → Outcomes → Bool → Persistent → RaftStore × Result (Unit {0}) StoreError
  unfolding delta_of basisdb.Wal.Log.append save_synced
  save store out synced current =
      if not (current.log.snapshot_index == store.durable.log.snapshot_index)
      then (store, err snapshot_unsupported)
      else elim (encode (delta_of store.durable current)) [
        | none ↦ (store, err encode_failed)
        | some bytes ↦
            let appended = basisdb.Wal.Log.append crc32 store.wal out store.kind bytes in
            elim appended.1 [
              | err e ↦ (record store { wal = appended.0 }, err (wal_failed e))
              | ok lsn ↦ save_synced (record store { wal = appended.0 }) synced current
            ]
      ]

module _ (decode : List ℕ → Option PersistentDelta) where
  -- The body of the loop of `recover`.
  unfoldable pub recover_one :
      RecordKind → Persistent → Record → Persistent × Result (Unit {0}) StoreError
  unfolding apply_delta
  recover_one kind durable r =
      if not (r.kind.get == kind.get)
      then (durable, err (unexpected_kind r.kind.get))
      else elim (decode r.payload) [
        | none ↦ (durable, err decode_failed)
        | some delta ↦ apply_delta durable delta
      ]

  -- `recover` on the records of the log
  unfoldable pub recover :
      RecordKind → Persistent → List Record → Persistent × Result (Unit {0}) StoreError
  unfolding recover_one
  recover kind durable [] = (durable, ok tt)
  recover kind durable (r ∷ records) =
      let one = recover_one kind durable r in
      elim one.1 [ err e ↦ (one.0, err e) | ok u ↦ recover kind one.0 records ]
