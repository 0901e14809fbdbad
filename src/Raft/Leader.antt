-- ===== src/Raft/Leader.antt =====
-- consensus/basisdb-raft/src/raft/leader.rs. The replication progress (child Progress) and the
-- commit loop (child Commit) stand in modules of their own; here are the handlers and `step`.
mod Progress
mod Commit
pub mod Rule
pub mod Fuel
pub mod Reads
pub mod CommitIndex
pub mod StepRule
pub mod AppendOnly
pub mod Advances
pub mod Grants
use basisdb.Base.{
  ℕ, ◌≤◌, max, Bool, true, false, not, ◌&&◌, ◌||◌, Option, none, some, List, [], ◌∷◌, map, ltb, leb,
  ◌==◌, if◌then◌else◌, add64, Result, ok, err,
}
use basisdb.Raft.NodeSet.{NodeId, NodeSet, contains, insert}
use basisdb.Raft.Membership.{
  Configuration, all_nodes, is_voter, is_member, is_learner, has_quorum, ConfigChange, add_voter,
  ConfigChangeError, change_in_progress, promote_requires_learner, learner_not_caught_up, validate,
  apply,
}
use basisdb.Raft.Log.{LogIndex, Command, EntryPayload, command, config, Entry, last_index, append}
use basisdb.Raft.Event.{
  Event, tick, message, disk_write_complete, Message, Payload, pre_vote_request, pre_vote_response,
  vote_request, vote_response, append_request, append_response, install_snapshot_response,
  read_index_response, timeout_now, AppendResponse, InstallSnapshotResponse, ReadIndexResponse,
  as_pre_vote_request, is_append_request, Effects, no_effects, with_persist, with_message, merge,
  to_follower, StepResult, stays, nothing, moves,
}
use basisdb.Raft.Core.{
  Core, self_id, term_of, log_of, with_log, reply, maybe_update_term, effective_config,
  has_pending_config,
}
use basisdb.Raft.Follower.{answer}
use basisdb.Raft.Candidate.{stale_answer}
unfoldable pub use Progress.{
  put, progress, add_peers, reinit_progress, send_append_to, broadcast_to, broadcast_append,
  read_index_requests, current_term_commit_index, sent_entries, after_send,
}
pub use Progress.{ProgressMap, PendingReadIndex, Leader}
unfoldable pub use Commit.{
  find_down, is_committable, advance_commit_index, first_config, committed_config, best_target,
  try_auto_transfer, append_transition_target, commit_loop, maybe_commit, joints_above,
}
pub use Commit.{Committed, CommittedConfig, nothing_committed, removed, transition}

abbrev pub Stepped : Type 0
Stepped = Leader × Core × StepResult

-- `Leader::new`
unfoldable pub new_leader : Core → Leader × Effects
new_leader c =
    let last = last_index (log_of c) in
    let blank : Leader = record {
      next_index = λ _. none;
      match_index = λ _. none;
      sent_index = λ _. none;
      heartbeat_deadline = add64 c.ticks c.config.heartbeat_interval;
      next_read_id = 1;
      pending_read_index = none;
      confirmed_read_index = 0;
    } in
    let fresh = add_peers (add64 last 1) blank (all_nodes (effective_config c)) in
    let own : Leader =
      if c.config.parallel_disk_write
      then fresh
      else record fresh { match_index = put fresh.match_index (self_id c) last } in
    broadcast_append own c

abbrev is_some : Option LogIndex → Bool
is_some none = false
is_some (some i) = true

unfoldable pub can_serve_reads : Leader → Core → Bool
can_serve_reads l c =
    is_some (current_term_commit_index c)
    && leb c.commit_index l.confirmed_read_index
    && leb c.commit_index c.last_applied

unfoldable pub read_index_ready : Leader → Core → LogIndex → Bool
read_index_ready l c i = leb i l.confirmed_read_index && leb i c.last_applied

pub data ReadIndexError : Type 0 where
  not_leader : Option NodeId → ReadIndexError
  current_term_not_committed : ReadIndexError
  read_in_progress : LogIndex → ReadIndexError

-- The rest of `request_read_index`, after its two tests.
start_read : Leader → Core → Leader × (LogIndex × Effects)
start_read l c =
    let pending : PendingReadIndex = record {
      id = l.next_read_id;
      read_index = c.commit_index;
      configuration = effective_config c;
      acks = insert (self_id c) [];
    } in
    let l' = record l { next_read_id = add64 l.next_read_id 1 } in
    if has_quorum pending.configuration (λ voter. contains voter pending.acks)
    then (
      record l' { confirmed_read_index = max l'.confirmed_read_index c.commit_index },
      (c.commit_index, no_effects),
    )
    else (
      record l' { pending_read_index = some pending },
      (c.commit_index, read_index_requests c pending),
    )

unfoldable pub request_read_index :
    Leader → Core → Leader × Result (LogIndex × Effects) ReadIndexError
unfolding start_read
request_read_index l c =
    let (l', started) = start_read l c in
    elim l.pending_read_index [
      | some pending ↦ (l, err (read_in_progress pending.read_index))
      | none ↦
          if is_some (current_term_commit_index c)
          then (l', ok started)
          else (l, err current_term_not_committed)
    ]

-- An entry of this term at the end of the log, counted as this node's own unless the disk
-- reports it: what both proposals do.
append_own : Leader → Core → EntryPayload → Leader × Core
append_own l c payload =
    let index = add64 (last_index (log_of c)) 1 in
    let c' =
      with_log c
        (append (log_of c) (record { term = term_of c; index = index; payload = payload })) in
    (
      if c.config.parallel_disk_write
          then l
          else record l { match_index = put l.match_index (self_id c) index },
      c',
    )

-- `maybe_commit` and then `broadcast_append`, as both proposals end
commit_and_send : Leader → Core → Leader × Core × Effects × Bool
commit_and_send l c =
    let (l1, c1, committed, steps_down) = maybe_commit l c in
    let (l2, sent) = broadcast_append l1 c1 in
    (l2, c1, merge (with_persist sent) committed, steps_down)

-- The index of the new entry, the effects, and whether the leader has to step down.
abbrev pub Proposed : Type 0
Proposed = LogIndex × Effects × Bool

unfoldable pub propose : Leader → Core → Command → Leader × Core × Proposed
unfolding append_own commit_and_send
propose l c cmd =
    let index = add64 (last_index (log_of c)) 1 in
    let (l1, c1) = append_own l c (command cmd) in
    let (l2, c2, effects, steps_down) = commit_and_send l1 c1 in
    (l2, c2, (index, effects, steps_down))

-- The promotion of a learner waits until it has the whole log.
check_caught_up : Leader → Core → ConfigChange → Result (Unit {0}) ConfigChangeError
check_caught_up l c (add_voter id) =
    let have = progress l.match_index id in
    let need = last_index (log_of c) in
    if is_learner (effective_config c) id
    then if ltb have need then err (learner_not_caught_up id have need) else ok tt
    else err (promote_requires_learner id)
check_caught_up l c _ = ok tt

-- The three tests of `propose_config_change`, in their order.
abbrev then_check :
    Result (Unit {0}) ConfigChangeError
    → Result (Unit {0}) ConfigChangeError
    → Result (Unit {0}) ConfigChangeError
then_check (ok u) next = next
then_check (err e) next = err e

unfoldable pub check_config_change :
    Leader → Core → ConfigChange → Result (Unit {0}) ConfigChangeError
unfolding check_caught_up
check_config_change l c change =
    then_check (validate change (effective_config c) c.config.membership_mode) (
      then_check (check_caught_up l c change)
        (if has_pending_config c then err change_in_progress else ok tt))

-- What follows the tests.
append_config_change : Leader → Core → ConfigChange → Leader × Core × Proposed
unfolding append_own commit_and_send
append_config_change l c change =
    let index = add64 (last_index (log_of c)) 1 in
    let new_config = apply change (effective_config c) c.config.membership_mode in
    let (l1, c1) = append_own l c (config new_config) in
    let (l2, c2, effects, steps_down) = commit_and_send (reinit_progress l1 c1) c1 in
    (l2, c2, (index, effects, steps_down))

unfoldable pub propose_config_change :
    Leader → Core → ConfigChange → Leader × Core × Result Proposed ConfigChangeError
unfolding check_config_change append_config_change
propose_config_change l c change =
    let (l', c', proposed) = append_config_change l c change in
    elim (check_config_change l c change) [ ok u ↦ (l', c', ok proposed) | err e ↦ (l, c, err e) ]

pub data TransferError : Type 0 where
  transfer_not_leader target_not_voter target_is_self : TransferError
  -- match_index, last_index
  target_lagging : LogIndex → LogIndex → TransferError

unfoldable pub transfer_leadership : Leader → Core → NodeId → Result Effects TransferError
transfer_leadership l c target =
    let last = last_index (log_of c) in
    let matched = progress l.match_index target in
    if target == self_id c
    then err target_is_self
    else if not (is_voter (effective_config c) target)
    then err target_not_voter
    else if ltb matched last
    then err (target_lagging matched last)
    else ok (with_message no_effects (reply c target timeout_now))

-- `maybe_commit`, and the step down where it asks for one
unfoldable pub commit_or_step_down : Leader → Core → Stepped
commit_or_step_down l c =
    let (l', c', effects, steps_down) = maybe_commit l c in
    (l', c', if steps_down then moves (to_follower none) effects else stays effects)

unfoldable pub handle_disk_write_complete : Leader → Core → LogIndex → Stepped
unfolding commit_or_step_down
handle_disk_write_complete l c index =
    let written =
      commit_or_step_down (record l { match_index = put l.match_index (self_id c) index }) c in
    if ltb (progress l.match_index (self_id c)) index then written else (l, c, nothing)

unfoldable pub handle_tick : Leader → Core → Stepped
handle_tick l c =
    let c' = record c { ticks = add64 c.ticks 1 } in
    let l1 = record l { heartbeat_deadline = add64 c'.ticks c.config.heartbeat_interval } in
    let (l2, effects) = broadcast_append l1 c' in
    if leb l.heartbeat_deadline c'.ticks
    then (
      l2,
      c',
      stays (elim l2.pending_read_index [
        | some pending ↦ merge effects (read_index_requests c' pending)
        | none ↦ effects
      ]),
    )
    else (l, c', nothing)

abbrev acknowledged : Leader → Core → NodeId → AppendResponse → Leader
acknowledged l c from resp =
    let l1 = record l { match_index = put l.match_index from resp.last_log_index } in
    if c.config.pipelining
    then l1
    else record l1 { next_index = put l.next_index from (add64 resp.last_log_index 1) }

abbrev retry_index : Leader → Core → NodeId → AppendResponse → LogIndex
retry_index l c from resp =
    let hinted = max (add64 resp.last_log_index 1) 1 in
    if c.config.pipelining then max hinted (add64 (progress l.match_index from) 1) else hinted

unfoldable pub handle_append_response : Leader → Core → NodeId → AppendResponse → Stepped
unfolding commit_or_step_down
handle_append_response l c from resp =
    let success = commit_or_step_down (acknowledged l c from resp) c in
    let l1 = record l { next_index = put l.next_index from (retry_index l c from resp) } in
    let (l2, effects) = send_append_to l1 c from in
    if not (is_member (effective_config c) from)
    then (l, c, nothing)
    else if resp.success
    then success
    else (l2, c, stays effects)

unfoldable pub handle_install_snapshot_response :
    Leader → Core → NodeId → InstallSnapshotResponse → Stepped
unfolding commit_or_step_down
handle_install_snapshot_response l c from resp =
    let i = resp.last_included_index in
    let installed =
      commit_or_step_down
        (record l {
          match_index = put l.match_index from i;
          next_index = put l.next_index from (add64 i 1);
        })
        c in
    if not resp.success || not (is_member (effective_config c) from)
    then (l, c, nothing)
    else if leb i (progress l.match_index from)
    then (l, c, nothing)
    else installed

-- The round that a confirmation belongs to, with the confirmation recorded.
unfoldable pub confirm_read : Leader → PendingReadIndex → NodeId → ReadIndexResponse → Leader
confirm_read l pending from resp =
    let pending' = record pending { acks = insert from pending.acks } in
    if not (is_voter pending.configuration from)
    then l
    else if not (pending.id == resp.id) || not (pending.read_index == resp.read_index)
    then l
    else if has_quorum pending.configuration (λ voter. contains voter pending'.acks)
    then record l {
      confirmed_read_index = max l.confirmed_read_index pending.read_index;
      pending_read_index = none;
    }
    else record l { pending_read_index = some pending' }

unfoldable pub handle_read_index_response : Leader → NodeId → ReadIndexResponse → Leader
unfolding confirm_read
handle_read_index_response l from resp = elim l.pending_read_index [
  | none ↦ l
  | some pending ↦ confirm_read l pending from resp
]

unfoldable pub handle_vote_request : Core → NodeId → StepResult
handle_vote_request c from =
    stays (with_message no_effects (reply c from (vote_response (record { granted = false }))))

unfoldable pub deny_prevote : Core → NodeId → Effects
deny_prevote c from =
    with_message no_effects
      (reply c from (pre_vote_response (record { term = term_of c; granted = false })))

unfoldable pub reject_stale : Core → Message → Effects
reject_stale c msg = answer c msg.sender (stale_answer c msg.payload)

-- The last `match` of `step`.
unfoldable pub handle : Leader → Core → NodeId → Payload → Stepped
unfolding handle_append_response handle_install_snapshot_response handle_read_index_response
handle l c from (append_response resp) = handle_append_response l c from resp
handle l c from (install_snapshot_response resp) = handle_install_snapshot_response l c from resp
handle l c from (read_index_response resp) = (handle_read_index_response l from resp, c, nothing)
handle l c from (vote_request req) = (l, c, handle_vote_request c from)
handle l c from _ = (l, c, nothing)

-- What follows the test for pre-vote requests.
unfoldable pub handle_current : Leader → Core → Message → Stepped
unfolding handle reject_stale
handle_current l c msg =
    let (c', updated) = maybe_update_term c msg.term in
    let rest = handle l c msg.sender msg.payload in
    if ltb (term_of c) msg.term
    then (
      l,
      c',
      moves (to_follower (if is_append_request msg.payload then some msg.sender else none))
          (with_persist no_effects),
    )
    else if ltb msg.term (term_of c)
    then (l, c, stays (reject_stale c msg))
    else rest

unfoldable pub handle_message : Leader → Core → Message → Stepped
unfolding deny_prevote handle_current
handle_message l c msg =
    let rest = handle_current l c msg in
    elim (as_pre_vote_request msg.payload) [
      | some req ↦ (l, c, stays (deny_prevote c msg.sender))
      | none ↦ rest
    ]

unfoldable pub step : Leader → Core → Event → Stepped
unfolding handle_tick handle_disk_write_complete handle_message
step l c tick = handle_tick l c
step l c (disk_write_complete index) = handle_disk_write_complete l c index
step l c (message msg) = handle_message l c msg
