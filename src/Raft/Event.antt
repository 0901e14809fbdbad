-- ===== src/Raft/Event.antt =====
-- consensus/basisdb-raft/src/raft/event.rs, with `Transition` and `StepResult` of raft/mod.rs.
pub mod Grants
use basisdb.Base.{ℕ, Bool, true, false, ◌||◌, Option, none, some, List, [], ◌∷◌, ◌++◌}
use basisdb.Raft.NodeSet.{NodeId}
use basisdb.Raft.Membership.{Configuration}
use basisdb.Raft.Log.{Term, LogIndex, Entry}

pub record PreVoteRequest : Type 0 where
  pub next_term : Term
  pub last_log_index : LogIndex
  pub last_log_term : Term

pub record PreVoteResponse : Type 0 where
  pub term : Term
  pub granted : Bool

pub record VoteRequest : Type 0 where
  pub last_log_index : LogIndex
  pub last_log_term : Term

pub record VoteResponse : Type 0 where
  pub granted : Bool

pub record AppendRequest : Type 0 where
  pub prev_log_index : LogIndex
  pub prev_log_term : Term
  pub entries : List Entry
  pub leader_commit : LogIndex

pub record AppendResponse : Type 0 where
  pub success : Bool
  pub last_log_index : LogIndex

pub record ReadIndexRequest : Type 0 where
  pub id : ℕ
  pub read_index : LogIndex

pub record ReadIndexResponse : Type 0 where
  pub id : ℕ
  pub read_index : LogIndex

pub record InstallSnapshotRequest : Type 0 where
  pub last_included_index : LogIndex
  pub last_included_term : Term
  pub configuration : Configuration

pub record InstallSnapshotResponse : Type 0 where
  pub success : Bool
  pub last_included_index : LogIndex

pub data Payload : Type 0 where
  pre_vote_request : PreVoteRequest → Payload
  pre_vote_response : PreVoteResponse → Payload
  vote_request : VoteRequest → Payload
  vote_response : VoteResponse → Payload
  append_request : AppendRequest → Payload
  append_response : AppendResponse → Payload
  install_snapshot_request : InstallSnapshotRequest → Payload
  install_snapshot_response : InstallSnapshotResponse → Payload
  read_index_request : ReadIndexRequest → Payload
  read_index_response : ReadIndexResponse → Payload
  timeout_now : Payload

-- `matches!(payload, VoteRequest(_) | PreVoteRequest(_))`
abbrev pub asks_for_vote : Payload → Bool
asks_for_vote (pre_vote_request r) = true
asks_for_vote (vote_request r) = true
asks_for_vote _ = false

-- `if let PreVoteRequest(req) = payload`
abbrev pub as_pre_vote_request : Payload → Option PreVoteRequest
as_pre_vote_request (pre_vote_request r) = some r
as_pre_vote_request _ = none

-- `matches!(payload, AppendRequest(_))`
abbrev pub is_append_request : Payload → Bool
is_append_request (append_request r) = true
is_append_request _ = false

-- `matches!(payload, AppendRequest(_) | ReadIndexRequest(_))`
abbrev pub is_from_leader : Payload → Bool
is_from_leader (append_request r) = true
is_from_leader (read_index_request r) = true
is_from_leader _ = false

pub record Message : Type 0 where
  pub sender : NodeId
  pub receiver : NodeId
  pub term : Term
  pub payload : Payload

pub data Event : Type 0 where
  tick : Event
  message : Message → Event
  disk_write_complete : LogIndex → Event

pub record SendSnapshot : Type 0 where
  pub receiver : NodeId
  pub last_included_index : LogIndex
  pub last_included_term : Term
  pub configuration : Configuration

pub record Effects : Type 0 where
  pub persist : Bool
  pub messages : List Message
  pub send_snapshots : List SendSnapshot

-- `Effects::none`
abbrev pub no_effects : Effects
no_effects = record { persist = false; messages = []; send_snapshots = [] }

abbrev pub with_persist : Effects → Effects
with_persist e = record e { persist = true }

abbrev pub with_message : Effects → Message → Effects
with_message e m = record e { messages = e.messages ++ m ∷ [] }

abbrev pub with_messages : Effects → List Message → Effects
with_messages e ms = record e { messages = e.messages ++ ms }

abbrev pub with_send_snapshot : Effects → SendSnapshot → Effects
with_send_snapshot e s = record e { send_snapshots = e.send_snapshots ++ s ∷ [] }

abbrev pub merge : Effects → Effects → Effects
merge a b = record {
  persist = a.persist || b.persist;
  messages = a.messages ++ b.messages;
  send_snapshots = a.send_snapshots ++ b.send_snapshots;
}

pub data Transition : Type 0 where
  stay to_pre_candidate to_candidate to_leader : Transition
  to_follower to_follower_after_contact : Option NodeId → Transition

pub record StepResult : Type 0 where
  pub transition : Transition
  pub effects : Effects

-- `StepResult::stay`
abbrev pub stays : Effects → StepResult
stays e = record { transition = stay; effects = e }

-- `StepResult::none`
abbrev pub nothing : StepResult
nothing = stays no_effects

-- `StepResult::to_follower` and the others
abbrev pub moves : Transition → Effects → StepResult
moves t e = record { transition = t; effects = e }
