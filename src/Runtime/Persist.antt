-- ===== src/Runtime/Persist.antt =====
-- runtime.rs: `handle_effects` persists before it delivers.
use basisdb.Base.{
  ℕ, zero, suc, ◌==◌, length, option_rule, ◌≡◌, refl, ap, ◌∙◌, ◌⊎◌, inl, inr, Bool, true, not,
  Option, List, [], ◌∷◌, ◌++◌, is_empty, Result, ok, err, arith, if_rule,
}
use basisdb.Raft.Event.{Message, Effects}
use basisdb.Raft.Core.{Persistent}
use basisdb.Raft.Node.{CommittedEntry, committed}
use basisdb.Wal.Record.{Lsn}
use basisdb.Wal.Log.{Outcomes, Stepped, sync}
use basisdb.Store.{RaftStore, StoreError, PersistentDelta, save, save_synced, delta_of, wal_failed}
use basisdb.Kv.Command.{KvCommand}
use basisdb.Runtime.{
  Runtime, Called, deliver, handle_effects, send_messages, apply_committed, apply_rounds,
  apply_entry, complete_waiter, store_failed, is_peer,
}

-- A save that succeeds makes the state durable.
save-durable :
    (crc32 : List ℕ → ℕ) (encode : PersistentDelta → Option (List ℕ)) (store : RaftStore)
    (out : Outcomes) (synced : Bool) (current : Persistent)
    → (save crc32 encode store out synced current).1 ≡ ok tt
    → (save crc32 encode store out synced current).0.durable ≡ current
unfolding save save_synced
save-durable crc32 encode store out synced current =
    if_rule Kept (not (current.log.snapshot_index == store.durable.log.snapshot_index))
      (λ _ done. absurd (ground (arith, done)))
      (λ _.
        option_rule Kept (encode (delta_of store.durable current))
          (λ _ done. absurd (ground (arith, done)))
          (λ bytes _. by_append (basisdb.Wal.Log.append crc32 store.wal out store.kind bytes)))
  where
    Kept : RaftStore × Result (Unit {0}) StoreError → Type 0
    Kept a = a.1 ≡ ok tt → a.0.durable ≡ current

    by_sync :
        (later : RaftStore) (last : Stepped (Unit {0}))
        → Kept (elim last.1 [
          | err e ↦ (record later { wal = last.0 }, err (wal_failed e))
          | ok u ↦ (record later { wal = last.0; durable = current }, ok tt)
        ])
    by_sync later (w, err e) done = absurd (ground (arith, done))
    by_sync later (w, ok u) done = refl

    by_append :
        (a : Stepped Lsn)
        → Kept (elim a.1 [
          | err e ↦ (record store { wal = a.0 }, err (wal_failed e))
          | ok lsn ↦ save_synced crc32 encode (record store { wal = a.0 }) synced current
        ])
    by_append (w, err e) done = absurd (ground (arith, done))
    by_append (w, ok lsn) done = by_sync (record store { wal = w }) (sync w synced) done

-- Sending and applying leave the store alone.
send_messages-store :
    (rt : Runtime) (messages : List Message) → (send_messages rt messages).0.store ≡ rt.store
unfolding send_messages
send_messages-store rt [] = refl
send_messages-store rt (m ∷ messages) =
    if_rule (λ (a : Called). a.0.store ≡ rt.store) (is_peer rt m.receiver)
      (λ _. send_messages-store (record rt { sent = rt.sent ++ m ∷ [] }) messages) (λ _. refl)

module _ (decode_command : List ℕ → Option KvCommand) where
  apply_rounds-store :
      (rounds : ℕ) (rt : Runtime) → (apply_rounds decode_command rounds rt).store ≡ rt.store
  unfolding apply_rounds apply_entry complete_waiter
  apply_rounds-store zero rt = refl
  apply_rounds-store (suc rounds) rt =
      go (committed rt.node)
        (λ entry. apply_rounds-store rounds (apply_entry decode_command rt entry))
    where
      go :
          (entries : List CommittedEntry)
          → ((entry : CommittedEntry)
              → (apply_rounds decode_command rounds (apply_entry decode_command rt entry)).store
                ≡ rt.store)
          → let t : Runtime = elim entries [
            | [] ↦ rt
            | entry ∷ rest ↦
                apply_rounds decode_command rounds (apply_entry decode_command rt entry)
          ] in
            t.store ≡ rt.store
      go [] more = refl
      go (entry ∷ rest) more = more entry

  deliver-store :
      (rt : Runtime) (effects : Effects) → (deliver decode_command rt effects).0.store ≡ rt.store
  unfolding deliver apply_committed
  deliver-store rt effects =
      if_rule (λ (a : Called). a.0.store ≡ rt.store) (not (is_empty effects.send_snapshots))
        (λ _. refl)
        (λ _. go (send_messages rt effects.messages) (send_messages-store rt effects.messages))
    where
      go :
          (a : Called)
          → a.0.store ≡ rt.store
          → let t : Called = elim a.1 [
            | err e ↦ (a.0, err e)
            | ok u ↦ (apply_committed decode_command a.0, ok tt)
          ] in
            t.0.store ≡ rt.store
      go (t, err e) h = h
      go (t, ok u) h = apply_rounds-store (length (committed t.node)) t ∙ h

  -- Nothing was sent or applied, or the node's state is durable.
  abbrev pub IsSafe : Runtime → Runtime → Type 0
  IsSafe rt t =
      ((t.sent ≡ rt.sent) × (t.state ≡ rt.state) × (t.answered ≡ rt.answered))
      ⊎ (t.store.durable ≡ rt.node.core.persistent)

  -- When effects order persistence, handling them sends no message, applies no command and
  -- answers no proposal, or the node's persistent state is the durable state of the store.
  pub handle_effects-IsSafe :
      (crc32 : List ℕ → ℕ) (encode : PersistentDelta → Option (List ℕ)) (rt : Runtime)
      (out : Outcomes) (synced : Bool) (effects : Effects)
      → effects.persist ≡ true
      → IsSafe rt (handle_effects decode_command crc32 encode rt out synced effects).0
  unfolding handle_effects
  handle_effects-IsSafe crc32 encode rt out synced effects persist = rw persist (
      go (save crc32 encode rt.store out synced rt.node.core.persistent)
        (save-durable crc32 encode rt.store out synced rt.node.core.persistent))
    where
      go :
          (saved : RaftStore × Result (Unit {0}) StoreError)
          → (saved.1 ≡ ok tt → saved.0.durable ≡ rt.node.core.persistent)
          → let t : Called = elim saved.1 [
            | err e ↦ (record rt { store = saved.0 }, err (store_failed e))
            | ok u ↦ deliver decode_command (record rt { store = saved.0 }) effects
          ] in
            IsSafe rt t.0
      go (store, err e) h = inl (refl, refl, refl)
      go (store, ok u) h = inr (
          ap (λ (s : RaftStore). s.durable) (deliver-store (record rt { store = store }) effects)
          ∙ h refl)
