-- ===== src/Runtime.antt =====
-- basisdb-node/src/runtime.rs: what a node does with the effects of its Raft state machine. Locks and
-- channels are left out: a call has the machine to itself. `sent` is what was handed to the
-- transport, which may drop messages, and `answered` what was sent to the waiting proposals. The
-- outcomes of the log's append and sync are arguments.
pub mod Applied
pub mod Persist
pub mod Examples
use Prim.Native.Nat.{Ordering}
use basisdb.Base.{
  ℕ, zero, suc, ◌+◌, Bool, true, false, not, ◌&&◌, ◌||◌, Option, none, some, List, [], ◌∷◌, ◌++◌,
  length, is_empty, ltb, ◌==◌, if◌then◌else◌, Result, ok, err, Map, lookup, put_key, remove_key,
  number_keyed, same_text, u64_mod,
}
use basisdb.Raft.NodeSet.{NodeId}
use basisdb.Raft.Log.{LogIndex, Command}
use basisdb.Raft.Event.{Message, Effects}
use basisdb.Raft.Core.{Persistent, Core}
use basisdb.Raft.Node.{Node, CommittedEntry, committed, advance, on_message, on_tick}
use basisdb.Wal.Log.{Outcomes}
use basisdb.Store.{RaftStore, StoreError, PersistentDelta, save}
use basisdb.Kv.Names.{aborted, internal, ConnectError, error}
use basisdb.Kv.Command.{KvState, KvCommand, KvApplyResult, apply}

pub data RuntimeError : Type 0 where
  identity_mismatch : NodeId → NodeId → RuntimeError
  invalid_self_peer : NodeId → ℕ → RuntimeError
  duplicate_peer_address : ℕ → RuntimeError
  store_failed : StoreError → RuntimeError
  snapshot_transport_unsupported already_failed : RuntimeError
  unknown_peer : NodeId → RuntimeError

pub data MessageError : Type 0 where
  wrong_recipient : NodeId → NodeId → MessageError
  unknown_sender : NodeId → MessageError
  self_message : MessageError

pub record PendingProposal : Type 0 where
  pub id : ℕ
  pub command : List ℕ

-- An answer to the proposal with the id.
pub record Answer : Type 0 where
  pub proposal : ℕ
  pub result : Result KvApplyResult ConnectError

pub record Runtime : Type 0 where
  pub node_id : NodeId
  pub peers : Map NodeId ℕ
  pub node : Node
  pub store : RaftStore
  pub state : KvState
  pub waiters : Map LogIndex PendingProposal
  pub failed : Bool
  pub sent : List Message
  pub answered : List Answer

abbrev pub Called : Type 0
Called = Runtime × Result (Unit {0}) RuntimeError

abbrev pub is_known : Option ℕ → Bool
is_known none = false
is_known (some address) = true

unfoldable pub validate_message : Runtime → Message → Result (Unit {0}) MessageError
validate_message rt m =
    if not (m.receiver == rt.node_id)
    then err (wrong_recipient rt.node_id m.receiver)
    else if m.sender == rt.node_id
    then err self_message
    else if not (is_known (lookup m.sender rt.peers))
    then err (unknown_sender m.sender)
    else ok tt

-- `PendingProposal::complete`
unfoldable pub complete : PendingProposal → Command → Result KvApplyResult ConnectError → Answer
complete pending cmd result = record {
  proposal = pending.id;
  result =
      if same_text pending.command cmd.bytes
      then result
      else err (error aborted "Raft proposal was superseded");
}

abbrev pub answers_of :
    Option PendingProposal → Command → Result KvApplyResult ConnectError → List Answer
answers_of none cmd result = []
answers_of (some pending) cmd result = complete pending cmd result ∷ []

unfoldable pub complete_waiter :
    Runtime → LogIndex → Command → Result KvApplyResult ConnectError → Runtime
unfolding complete
complete_waiter rt index cmd result = record rt {
  waiters = remove_key index rt.waiters;
  answered = rt.answered ++ answers_of (lookup index rt.waiters) cmd result;
}

-- `remove_pending`
abbrev pub is_mine : Option PendingProposal → ℕ → Bool
is_mine none id = false
is_mine (some pending) id = pending.id == id

unfoldable pub remove_pending :
    Map LogIndex PendingProposal → LogIndex → ℕ → Map LogIndex PendingProposal
remove_pending waiters index id =
    if is_mine (lookup index waiters) id then remove_key index waiters else waiters

-- The transport's peers are the others of the cluster.
abbrev pub is_peer : Runtime → NodeId → Bool
is_peer rt n = not (n == rt.node_id) && is_known (lookup n rt.peers)

-- The loop over the messages.
unfoldable pub send_messages : Runtime → List Message → Called
send_messages rt [] = (rt, ok tt)
send_messages rt (m ∷ messages) =
    let rest = send_messages (record rt { sent = rt.sent ++ m ∷ [] }) messages in
    if is_peer rt m.receiver then rest else (rt, err (unknown_peer m.receiver))

-- What `validate_config` reads of the configuration.
pub record NodeConfig : Type 0 where
  pub node_id : NodeId
  pub consensus_id : NodeId
  pub raft_addr : ℕ
  pub peers : Map NodeId ℕ

unfoldable pub seen_before : List ℕ → ℕ → Bool
seen_before [] address = false
seen_before (a ∷ seen) address = (a == address) || seen_before seen address

-- `find(|address| !addresses.insert(**address))`
unfoldable pub find_duplicate : List ℕ → Map NodeId ℕ → Option ℕ
unfolding seen_before
find_duplicate seen [] = none
find_duplicate seen ((n, address) ∷ peers) =
    let rest = find_duplicate (address ∷ seen) peers in
    if seen_before seen address then some address else rest

abbrev pub is_address : Option ℕ → ℕ → Bool
is_address none address = false
is_address (some a) address = a == address

unfoldable pub validate_config : NodeConfig → Result (Unit {0}) RuntimeError
unfolding find_duplicate
validate_config config =
    if not (config.node_id == config.consensus_id)
    then err (identity_mismatch config.node_id config.consensus_id)
    else if not (is_address (lookup config.node_id config.peers) config.raft_addr)
    then err (invalid_self_peer config.node_id config.raft_addr)
    else elim (find_duplicate [] config.peers) [
      | none ↦ ok tt
      | some address ↦ err (duplicate_peer_address address)
    ]

module _ (decode_command : List ℕ → Option KvCommand) where
  unfoldable pub apply_command : KvState → Command → KvState × Result KvApplyResult ConnectError
  unfolding apply
  apply_command s cmd = elim (decode_command cmd.bytes) [
    | none ↦ (s, err (error internal "invalid Raft command payload"))
    | some command ↦ apply s command
  ]

  -- One round of `apply_committed`.
  unfoldable pub apply_entry : Runtime → CommittedEntry → Runtime
  unfolding apply_command advance complete_waiter
  apply_entry rt entry =
      let applied = apply_command rt.state entry.command in
      complete_waiter (record rt { state = applied.0; node = advance rt.node entry.index })
        entry.index entry.command applied.1

  -- The loop of `apply_committed`, for so many rounds.
  unfoldable pub apply_rounds : ℕ → Runtime → Runtime
  unfolding committed apply_entry
  apply_rounds zero rt = rt
  apply_rounds (suc rounds) rt = elim (committed rt.node) [
    | [] ↦ rt
    | entry ∷ entries ↦ apply_rounds rounds (apply_entry rt entry)
  ]

  unfoldable pub apply_committed : Runtime → Runtime
  unfolding committed apply_rounds
  apply_committed rt = apply_rounds (length (committed rt.node)) rt

  -- `handle_effects` after the state was persisted.
  unfoldable pub deliver : Runtime → Effects → Called
  unfolding send_messages apply_committed
  deliver rt effects =
      if not (is_empty effects.send_snapshots)
      then (rt, err snapshot_transport_unsupported)
      else let sent = send_messages rt effects.messages in
        elim sent.1 [ err e ↦ (sent.0, err e) | ok u ↦ (apply_committed sent.0, ok tt) ]

  module _ (crc32 : List ℕ → ℕ) (encode : PersistentDelta → Option (List ℕ)) where
    unfoldable pub handle_effects : Runtime → Outcomes → Bool → Effects → Called
    unfolding save deliver
    handle_effects rt out synced effects =
        let saved = save crc32 encode rt.store out synced rt.node.core.persistent in
        if effects.persist
        then elim saved.1 [
          | err e ↦ (record rt { store = saved.0 }, err (store_failed e))
          | ok u ↦ deliver (record rt { store = saved.0 }) effects
        ]
        else deliver rt effects

    -- `map_err(|error| self.fail(error))`
    abbrev pub or_fail : Called → Called
    or_fail (rt, ok u) = (rt, ok u)
    or_fail (rt, err e) = (record rt { failed = true }, err e)

    unfoldable pub step : Runtime → Outcomes → Bool → Message → Called
    unfolding handle_effects
    step rt out synced m =
        let stepped = on_message rt.node m in
        if rt.failed
        then (rt, err already_failed)
        else or_fail (handle_effects (record rt { node = stepped.0 }) out synced stepped.1)

    unfoldable pub tick_once : Runtime → Outcomes → Bool → Called
    unfolding handle_effects
    tick_once rt out synced =
        let ticked = on_tick rt.node in
        if rt.failed
        then (rt, err already_failed)
        else or_fail (handle_effects (record rt { node = ticked.0 }) out synced ticked.1)
