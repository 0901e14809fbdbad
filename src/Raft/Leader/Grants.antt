-- ===== src/Raft/Leader/Grants.antt =====
-- The votes in the effects of leader.rs.
use basisdb.Base.{
  ℕ, zero, suc, ◌≡◌, refl, ◌||◌, ◌==◌, not, false, none, List, [], ◌∷◌, ltb, leb, add64, All-map,
  if_rule, option_rule,
}
use basisdb.Raft.NodeSet.{NodeId}
use basisdb.Raft.Membership.{Configuration, voters, is_member, voter_peers, replication_peers}
use basisdb.Raft.Log.{last_index}
use basisdb.Raft.Event.{
  Event, tick, message, disk_write_complete, Message, Payload, append_response,
  install_snapshot_response, vote_request, as_pre_vote_request, Effects, no_effects, merge,
  StepResult,
}
use basisdb.Raft.Event.Grants.{grants, NoGrants, NoGrants-merge}
use basisdb.Raft.Core.{Core, term_of, log_of, self_id, effective_config}
use basisdb.Raft.Candidate.Grants.{stale_answer-NoGrants}
use basisdb.Raft.Leader.Progress.{or_index}
use basisdb.Raft.Leader.{
  handle_vote_request, handle_current, deny_prevote, reject_stale, Leader, Stepped,
  PendingReadIndex, send_append_to, broadcast_to, broadcast_append, new_leader, read_index_requests,
  best_target, try_auto_transfer, append_transition_target, commit_loop, maybe_commit,
  commit_or_step_down, Committed, advance_commit_index, committed_config, joints_above, progress,
  handle_tick, handle_disk_write_complete, handle_append_response, handle_install_snapshot_response,
  handle, handle_message, step,
}
use basisdb.Raft.Leader.Rule.{committed_rule}

send_append_to-NoGrants :
    (l : Leader) (c : Core) (peer : NodeId) → NoGrants (send_append_to l c peer).1
unfolding send_append_to
send_append_to-NoGrants l c peer =
    if_rule (λ (s : Leader × Effects). NoGrants s.1)
      (leb (or_index (l.next_index peer) 1) (log_of c).snapshot_index) (λ _. tt) (λ _. (refl, tt))

broadcast_to-NoGrants :
    (l : Leader) (c : Core) (effects : Effects) (peers : List NodeId)
    → NoGrants effects
    → NoGrants (broadcast_to l c effects peers).1
unfolding broadcast_to
broadcast_to-NoGrants l c effects [] h = h
broadcast_to-NoGrants l c effects (peer ∷ peers) h =
    let s = send_append_to l c peer in
    broadcast_to-NoGrants s.0 c (merge effects s.1) peers
      (NoGrants-merge effects s.1 h (send_append_to-NoGrants l c peer))

broadcast_append-NoGrants : (l : Leader) (c : Core) → NoGrants (broadcast_append l c).1
unfolding broadcast_append
broadcast_append-NoGrants l c =
    broadcast_to-NoGrants l c no_effects (replication_peers (effective_config c) (self_id c)) tt

pub new_leader-NoGrants : (c : Core) → NoGrants (new_leader c).1
unfolding new_leader
new_leader-NoGrants c = broadcast_append-NoGrants _ c

read_index_requests-NoGrants :
    (c : Core) (pending : PendingReadIndex) → NoGrants (read_index_requests c pending)
unfolding read_index_requests
read_index_requests-NoGrants c pending =
    All-map (λ (m : Message). grants m.payload ≡ false) _
      (voter_peers pending.configuration (self_id c)) (λ peer. refl)

try_auto_transfer-NoGrants :
    (l : Leader) (c : Core) (cfg : Configuration) → NoGrants (try_auto_transfer l c cfg)
unfolding try_auto_transfer
try_auto_transfer-NoGrants l c cfg =
    option_rule NoGrants (best_target l c (voters cfg) none) (λ _. tt)
      (λ best _. if_rule NoGrants (leb (last_index (log_of c)) best.1) (λ _. (refl, tt)) (λ _. tt))

append_transition_target-NoGrants :
    (l : Leader) (c : Core) (target : Configuration)
    → NoGrants (append_transition_target l c target).2
unfolding append_transition_target
append_transition_target-NoGrants l c target = broadcast_append-NoGrants _ _

commit_loop-NoGrants :
    (fuel : ℕ) (l : Leader) (c : Core) (effects : Effects)
    → NoGrants effects
    → NoGrants (commit_loop fuel l c effects).2
unfolding commit_loop
commit_loop-NoGrants zero l c effects h = h
commit_loop-NoGrants (suc fuel) l c effects h =
    let c1 = advance_commit_index l c in
    if_rule (λ (s : Committed). NoGrants s.2) (c1.commit_index == c.commit_index) (λ _. h)
      (λ _.
        committed_rule (λ (s : Committed). NoGrants s.2) (committed_config c1 c.commit_index) h
          (λ cfg.
            NoGrants-merge effects (try_auto_transfer l c1 cfg) h
              (try_auto_transfer-NoGrants l c1 cfg))
          (λ target.
            let next = append_transition_target l c1 target in
            commit_loop-NoGrants fuel next.0 next.1 (merge effects next.2)
              (NoGrants-merge effects next.2 h (append_transition_target-NoGrants l c1 target))))

maybe_commit-NoGrants : (l : Leader) (c : Core) → NoGrants (maybe_commit l c).2
unfolding maybe_commit
maybe_commit-NoGrants l c =
    commit_loop-NoGrants (suc (joints_above c.commit_index (log_of c).entries)) l c no_effects tt

abbrev Silent : Stepped → Type 0
Silent s = NoGrants s.2.effects

commit_or_step_down-Silent : (l : Leader) (c : Core) → Silent (commit_or_step_down l c)
unfolding commit_or_step_down
commit_or_step_down-Silent l c =
    if_rule (λ (r : StepResult). NoGrants r.effects) (maybe_commit l c).3
      (λ _. maybe_commit-NoGrants l c) (λ _. maybe_commit-NoGrants l c)

handle-Silent : (l : Leader) (c : Core) (from : NodeId) (p : Payload) → Silent (handle l c from p)
unfolding handle handle_append_response handle_install_snapshot_response handle_vote_request
handle-Silent l c from (append_response resp) =
    if_rule Silent (not (is_member (effective_config c) from)) (λ _. tt)
      (λ _.
        if_rule Silent resp.success (λ _. commit_or_step_down-Silent _ c)
          (λ _. send_append_to-NoGrants _ c from))
handle-Silent l c from (install_snapshot_response resp) =
    if_rule Silent (not resp.success || not (is_member (effective_config c) from)) (λ _. tt)
      (λ _.
        if_rule Silent (leb resp.last_included_index (progress l.match_index from)) (λ _. tt)
          (λ _. commit_or_step_down-Silent _ c))
handle-Silent l c from (vote_request req) = (refl, tt)
handle-Silent l c from _ = tt

handle_message-Silent : (l : Leader) (c : Core) (msg : Message) → Silent (handle_message l c msg)
unfolding handle_message handle_current deny_prevote reject_stale
handle_message-Silent l c msg =
    option_rule Silent (as_pre_vote_request msg.payload)
      (λ _.
        if_rule Silent (ltb (term_of c) msg.term) (λ _. tt)
          (λ _.
            if_rule Silent (ltb msg.term (term_of c))
              (λ _. stale_answer-NoGrants c msg.sender msg.payload)
              (λ _. handle-Silent l c msg.sender msg.payload)))
      (λ req _. (refl, tt))

handle_tick-Silent : (l : Leader) (c : Core) → Silent (handle_tick l c)
unfolding handle_tick
handle_tick-Silent l c =
    let c' = record c { ticks = add64 c.ticks 1 } in
    let l1 = record l { heartbeat_deadline = add64 c'.ticks c.config.heartbeat_interval } in
    let sent = broadcast_append-NoGrants l1 c' in
    if_rule Silent (leb l.heartbeat_deadline (add64 c.ticks 1))
      (λ _.
        option_rule NoGrants (broadcast_append l1 c').0.pending_read_index (λ _. sent)
          (λ pending _.
            NoGrants-merge (broadcast_append l1 c').1 (read_index_requests c' pending) sent
              (read_index_requests-NoGrants c' pending)))
      (λ _. tt)

pub step-NoGrants : (l : Leader) (c : Core) (e : Event) → NoGrants (step l c e).2.effects
unfolding step handle_message handle_disk_write_complete
step-NoGrants l c tick = handle_tick-Silent l c
step-NoGrants l c (message msg) = handle_message-Silent l c msg
step-NoGrants l c (disk_write_complete i) =
    if_rule Silent (ltb (progress l.match_index (self_id c)) i)
      (λ _. commit_or_step_down-Silent _ c) (λ _. tt)
