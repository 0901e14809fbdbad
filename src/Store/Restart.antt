-- ===== src/Store/Restart.antt =====
-- store.rs: a state that was saved is the one that a restart recovers.
use basisdb.Base.{
  ℕ, ◌-◌, ◌≡◌, ◌≢◌, ◌<◌, ◌≤◌, refl, ap, ◌∙◌, inl, inr, Bool, true, false, not, Option, none, some,
  List, [], ◌∷◌, ◌++◌, length, take, ltb, ◌==◌, ==_iff, Result, ok, err, arith, Bool-cases, if_rule,
  ltb→lt,
}
use basisdb.Raft.Log.{LogIndex, last_index, term_at}
use basisdb.Raft.Log.Valid.{IsValid}
use basisdb.Raft.Core.{Persistent}
use basisdb.Wal.Record.{Lsn, RecordKind, Record}
use basisdb.Wal.Format.{u32_mod, encoded_len}
use basisdb.Wal.Log.{Wal, Outcomes, Stepped, sync}
use basisdb.Wal.Refinement.{Holds, sync-Holds}
use basisdb.Wal.Append.{Promise, append-Promise}
use basisdb.Store.{
  PersistentDelta, StoreError, RaftStore, delta_of, apply_delta, save, save_synced, recover_one,
  recover, wal_failed, encode_failed,
}
use basisdb.Store.Replay.{apply_delta-delta_of}

-- A second log has the first one's entries up to each index where their terms agree.
abbrev pub Matches : Persistent → Persistent → Type 0
Matches d c =
    (i : LogIndex)
    → i ≤ last_index d.log
    → i ≤ last_index c.log
    → term_at d.log i ≡ term_at c.log i
    → take (i - d.log.snapshot_index) d.log.entries ≡ take (i - c.log.snapshot_index) c.log.entries

module _ (decode : List ℕ → Option PersistentDelta) where
  -- Records that recover are followed by one more.
  recover-append :
      (kind : RecordKind) (s t : Persistent) (records : List Record) (r : Record)
      → recover decode kind s records ≡ (t, ok tt)
      → recover decode kind s (records ++ r ∷ []) ≡ recover decode kind t (r ∷ [])
  unfolding recover
  recover-append kind s t [] r h =
      ap (λ (a : Persistent × Result (Unit {0}) StoreError). recover decode kind a.0 (r ∷ [])) h
  recover-append kind s t (q ∷ records) r h =
      go (recover_one decode kind s q) (λ s'. recover-append kind s' t records r) h
    where
      go :
          (one : Persistent × Result (Unit {0}) StoreError)
          → ((s' : Persistent)
              → recover decode kind s' records ≡ (t, ok tt)
              → recover decode kind s' (records ++ r ∷ []) ≡ recover decode kind t (r ∷ []))
          → (elim one.1 [ err e ↦ (one.0, err e) | ok u ↦ recover decode kind one.0 records ])
            ≡ (t, ok tt)
          → (elim one.1 [
            | err e ↦ (one.0, err e)
            | ok u ↦ recover decode kind one.0 (records ++ r ∷ [])
          ])
            ≡ recover decode kind t (r ∷ [])
      go (s', err e) more k = absurd (ground (arith, k))
      go (s', ok u) more k = more s' k

  recover_one-decoded :
      (kind : RecordKind) (s t : Persistent) (payload : List ℕ) (delta : PersistentDelta)
      → decode payload ≡ some delta
      → apply_delta s delta ≡ (t, ok tt)
      → recover_one decode kind s (record { kind = kind; payload = payload }) ≡ (t, ok tt)
  unfolding recover_one
  recover_one-decoded kind s t payload delta h k =
      let same : (kind.get == kind.get) ≡ true = (==_iff kind.get kind.get).1 refl in rw (same, h) k

  recover-one_more :
      (kind : RecordKind) (s t : Persistent) (payload : List ℕ) (delta : PersistentDelta)
      → decode payload ≡ some delta
      → apply_delta s delta ≡ (t, ok tt)
      → recover decode kind s (record { kind = kind; payload = payload } ∷ []) ≡ (t, ok tt)
  unfolding recover recover_one
  recover-one_more kind s t payload delta h k =
      ap
        (λ (one : Persistent × Result (Unit {0}) StoreError). elim one.1 [
          | err e ↦ (one.0, err e)
          | ok u ↦ recover decode kind one.0 []
        ])
        (recover_one-decoded kind s t payload delta h k)

-- A log from whose records a restart that begins with `initial` comes to `current`.
pub record Restarts (crc32 : List ℕ → ℕ) (decode : List ℕ → Option PersistentDelta)
    (kind : RecordKind) (initial : Persistent) (w : Wal) (current : Persistent) : Type 0 where
  pub records : List Record
  pub held : Holds crc32 w records
  pub recovered : recover decode kind initial records ≡ (current, ok tt)

-- A payload that is too long is not appended.
append-too_long :
    (crc32 : List ℕ → ℕ) (w : Wal) (out : Outcomes) (kind : RecordKind) (payload : List ℕ)
    (lsn : Lsn)
    → ltb (length payload) u32_mod ≡ false
    → (basisdb.Wal.Log.append crc32 w out kind payload).1 ≢ ok lsn
unfolding basisdb.Wal.Log.append encoded_len
append-too_long crc32 w out kind payload lsn long =
    if_rule (λ (a : Stepped Lsn). a.1 ≢ ok lsn) w.poisoned (λ _ e. ground (arith, e))
      (λ _. rw long (λ e. ground (arith, e)))

module _ (crc32 : List ℕ → ℕ) (encode : PersistentDelta → Option (List ℕ))
    (decode : List ℕ → Option PersistentDelta)
    (crc_fits : (bytes : List ℕ) → crc32 bytes < u32_mod) where
  save_synced-Restarts :
      (store : RaftStore) (synced : Bool) (initial current : Persistent)
      → Restarts crc32 decode store.kind initial store.wal current
      → (save_synced crc32 encode store synced current).1 ≡ ok tt
      → Restarts crc32 decode store.kind initial
          (save_synced crc32 encode store synced current).0.wal
          current
  unfolding save_synced
  save_synced-Restarts store synced initial current v =
      go (sync store.wal synced) (sync-Holds crc32 store.wal v.records synced v.held)
    where
      go :
          (last : Stepped (Unit {0}))
          → Holds crc32 last.0 v.records
          → let a : RaftStore × Result (Unit {0}) StoreError = elim last.1 [
            | err e ↦ (record store { wal = last.0 }, err (wal_failed e))
            | ok u ↦ (record store { wal = last.0; durable = current }, ok tt)
          ] in
            a.1 ≡ ok tt → Restarts crc32 decode store.kind initial a.0.wal current
      go (w, err e) h failed = absurd (ground (arith, failed))
      go (w, ok u) h done = record { records = v.records; held = h; recovered = v.recovered }

  -- After the append, the log's records make the current state.
  appended-Restarts :
      (store : RaftStore) (initial current : Persistent) (w : Wal) (bytes : List ℕ)
      (v : Restarts crc32 decode store.kind initial store.wal store.durable)
      → decode bytes ≡ some (delta_of store.durable current)
      → apply_delta store.durable (delta_of store.durable current) ≡ (current, ok tt)
      → Holds crc32 w (v.records ++ record { kind = store.kind; payload = bytes } ∷ [])
      → Restarts crc32 decode store.kind initial w current
  appended-Restarts store initial current w bytes v coded applied held = record {
    records = v.records ++ record { kind = store.kind; payload = bytes } ∷ [];
    held = held;
    recovered =
        recover-append decode store.kind initial store.durable v.records _ v.recovered
        ∙ recover-one_more decode store.kind store.durable current bytes
            (delta_of store.durable current) coded applied;
  }

  -- Where a restart from a log's records comes to the durable state, both logs are well-formed
  -- with the same snapshot term and configuration, the term does not go back, wherever the logs'
  -- terms agree at an index they agree up to it, the record kind is a positive 16-bit number, and
  -- the written delta decodes to itself, a save that succeeds leaves a log from whose records a
  -- restart comes to the saved state; the checksum and the codec are any functions.
  pub save-Restarts :
      (store : RaftStore) (out : Outcomes) (synced : Bool) (initial current : Persistent)
      → Restarts crc32 decode store.kind initial store.wal store.durable
      → store.kind.get ≢ 0
      → store.kind.get < 65536
      → IsValid store.durable.log
      → IsValid current.log
      → store.durable.log.snapshot_term ≡ current.log.snapshot_term
      → store.durable.log.snapshot_config ≡ current.log.snapshot_config
      → store.durable.term ≤ current.term
      → Matches store.durable current
      → ((bytes : List ℕ)
          → encode (delta_of store.durable current) ≡ some bytes
          → decode bytes ≡ some (delta_of store.durable current))
      → (save crc32 encode store out synced current).1 ≡ ok tt
      → Restarts crc32 decode store.kind initial
          (save crc32 encode store out synced current).0.wal
          current
  unfolding save
  save-Restarts store out synced initial current v named small before after term config later
        matching decodes =
      if_rule Saved (not (current.log.snapshot_index == store.durable.log.snapshot_index))
        (λ _ no. absurd (ground (arith, no)))
        (λ same. by_encoding (encode delta) refl (
          apply_delta-delta_of store.durable current before after (ground (arith, same)) term config
            later matching))
    where
      delta : PersistentDelta
      delta = delta_of store.durable current

      Saved : RaftStore × Result (Unit {0}) StoreError → Type 0
      Saved a = a.1 ≡ ok tt → Restarts crc32 decode store.kind initial a.0.wal current

      after_append : Stepped Lsn → RaftStore × Result (Unit {0}) StoreError
      after_append a = elim a.1 [
        | err e ↦ (record store { wal = a.0 }, err (wal_failed e))
        | ok lsn ↦ save_synced crc32 encode (record store { wal = a.0 }) synced current
      ]

      by_append :
          (bytes : List ℕ) (a : Stepped Lsn)
          → decode bytes ≡ some delta
          → apply_delta store.durable delta ≡ (current, ok tt)
          → Promise crc32 v.records (record { kind = store.kind; payload = bytes }) a.0 a.1
          → Saved (after_append a)
      by_append bytes (w, err e) coded applied h failed = absurd (ground (arith, failed))
      by_append bytes (w, ok lsn) coded applied h done =
          save_synced-Restarts (record store { wal = w }) synced initial current
            (appended-Restarts store initial current w bytes v coded applied h) done

      too_long :
          (bytes : List ℕ) (a : Stepped Lsn) → ((lsn : Lsn) → a.1 ≢ ok lsn) → Saved (after_append a)
      too_long bytes (w, err e) h failed = absurd (ground (arith, failed))
      too_long bytes (w, ok lsn) h done = absurd (h lsn refl)

      by_encoding :
          (o : Option (List ℕ))
          → encode delta ≡ o
          → apply_delta store.durable delta ≡ (current, ok tt)
          → Saved (elim o [
            | none ↦ (store, err encode_failed)
            | some bytes ↦
                after_append (basisdb.Wal.Log.append crc32 store.wal out store.kind bytes)
          ])
      by_encoding none coded applied failed = absurd (ground (arith, failed))
      by_encoding (some bytes) coded applied done = elim (Bool-cases (ltb (length bytes) u32_mod)) [
        | inl short ↦
            by_append bytes (basisdb.Wal.Log.append crc32 store.wal out store.kind bytes)
              (decodes bytes coded) applied
              (append-Promise crc32 crc_fits store.wal out v.records
                (record { kind = store.kind; payload = bytes })
                (record { named = named; small = small; short = ltb→lt _ _ short }) v.held)
              done
        | inr long ↦
            too_long bytes (basisdb.Wal.Log.append crc32 store.wal out store.kind bytes)
              (λ lsn. append-too_long crc32 store.wal out store.kind bytes lsn long) done
      ]
