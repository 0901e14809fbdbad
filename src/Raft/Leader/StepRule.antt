-- ===== src/Raft/Leader/StepRule.antt =====
-- leader.rs: the rules by which a predicate of the core passes through its operations.
use basisdb.Base.{◌||◌, not, ltb, leb, add64, if_rule, option_rule, result_rule, Result}
use basisdb.Raft.NodeSet.{NodeId}
use basisdb.Raft.Membership.{ConfigChange, ConfigChangeError, apply, is_member}
use basisdb.Raft.Log.{
  Entry, LogIndex, Command, EntryPayload, command, config, Term, append, last_index,
}
use basisdb.Raft.Event.{
  Event, tick, message, disk_write_complete, Message, Payload, append_response,
  install_snapshot_response, as_pre_vote_request, AppendResponse, InstallSnapshotResponse,
}
use basisdb.Raft.Core.{
  Core, term_of, log_of, with_log, self_id, effective_config, maybe_update_term,
}
use basisdb.Raft.Leader.{
  Leader, Stepped, advance_commit_index, append_transition_target, maybe_commit, progress,
  commit_or_step_down, handle_tick, handle_disk_write_complete, handle_append_response,
  handle_install_snapshot_response, handle, handle_message, step, propose, propose_config_change,
  append_own, commit_and_send, check_config_change, reinit_progress, Proposed, append_config_change,
}
use basisdb.Raft.Leader.Rule.{maybe_commit_rule}

-- An entry of the core's term for the end of its log.
abbrev pub own_entry : Core → EntryPayload → Entry
own_entry c payload = record {
  term = term_of c;
  index = add64 (last_index (log_of c)) 1;
  payload = payload;
}

abbrev pub with_own_entry : Core → EntryPayload → Core
with_own_entry c payload = with_log c (append (log_of c) (own_entry c payload))

module _ {ℓ} (P : Core → Type ℓ)
    (advanced : (l : Leader) (c : Core) → P c → P (advance_commit_index l c))
    (appended : (c : Core) (payload : EntryPayload) → P c → P (with_own_entry c payload)) where
  abbrev Kept : Stepped → Type ℓ
  Kept s = P s.1

  maybe_commit_keeps : (l : Leader) (c : Core) → P c → P (maybe_commit l c).1
  unfolding append_transition_target
  maybe_commit_keeps l c h =
      maybe_commit_rule (λ _ d. P d) advanced (λ _ d target k. appended d (config target) k) l c h

  commit_or_step_down_keeps : (l : Leader) (c : Core) → P c → Kept (commit_or_step_down l c)
  unfolding commit_or_step_down
  commit_or_step_down_keeps l c h = maybe_commit_keeps l c h

  handle_append_response_keeps :
      (l : Leader) (c : Core) (from : NodeId) (resp : AppendResponse)
      → P c
      → Kept (handle_append_response l c from resp)
  unfolding handle_append_response
  handle_append_response_keeps l c from resp h =
      if_rule Kept (not (is_member (effective_config c) from)) (λ _. h)
        (λ _. if_rule Kept resp.success (λ _. commit_or_step_down_keeps _ c h) (λ _. h))

  handle_install_snapshot_response_keeps :
      (l : Leader) (c : Core) (from : NodeId) (resp : InstallSnapshotResponse)
      → P c
      → Kept (handle_install_snapshot_response l c from resp)
  unfolding handle_install_snapshot_response
  handle_install_snapshot_response_keeps l c from resp h =
      if_rule Kept (not resp.success || not (is_member (effective_config c) from)) (λ _. h)
        (λ _.
          if_rule Kept (leb resp.last_included_index (progress l.match_index from)) (λ _. h)
            (λ _. commit_or_step_down_keeps _ c h))

  handle_keeps :
      (l : Leader) (c : Core) (from : NodeId) (p : Payload) → P c → Kept (handle l c from p)
  unfolding handle
  handle_keeps l c from (append_response resp) h = handle_append_response_keeps l c from resp h
  handle_keeps l c from (install_snapshot_response resp) h =
      handle_install_snapshot_response_keeps l c from resp h
  handle_keeps l c from _ h = h

  handle_disk_write_complete_keeps :
      (l : Leader) (c : Core) (i : LogIndex) → P c → Kept (handle_disk_write_complete l c i)
  unfolding handle_disk_write_complete
  handle_disk_write_complete_keeps l c i h =
      if_rule Kept (ltb (progress l.match_index (self_id c)) i)
        (λ _. commit_or_step_down_keeps _ c h) (λ _. h)

  commit_and_send_keeps : (l : Leader) (c : Core) → P c → P (commit_and_send l c).1
  unfolding commit_and_send
  commit_and_send_keeps l c h = maybe_commit_keeps l c h

  append_own_keeps : (l : Leader) (c : Core) (p : EntryPayload) → P c → P (append_own l c p).1
  unfolding append_own
  append_own_keeps l c p h = appended c p h

  pub propose_rule : (l : Leader) (c : Core) (cmd : Command) → P c → P (propose l c cmd).1
  unfolding propose
  propose_rule l c cmd h =
      let a = append_own l c (command cmd) in
      commit_and_send_keeps a.0 a.1 (append_own_keeps l c (command cmd) h)

  append_config_change_keeps :
      (l : Leader) (c : Core) (change : ConfigChange) → P c → P (append_config_change l c change).1
  unfolding append_config_change
  append_config_change_keeps l c change h =
      let p = config (apply change (effective_config c) c.config.membership_mode) in
      let a = append_own l c p in
      commit_and_send_keeps (reinit_progress a.0 a.1) a.1 (append_own_keeps l c p h)

  pub propose_config_change_rule :
      (l : Leader) (c : Core) (change : ConfigChange) → P c → P (propose_config_change l c change).1
  unfolding propose_config_change
  propose_config_change_rule l c change h =
      result_rule (λ (s : Leader × Core × Result Proposed ConfigChangeError). P s.1)
        (check_config_change l c change) (λ _ _. append_config_change_keeps l c change h) (λ _ _. h)

  module _ (ticked : (c : Core) → P c → P (record c { ticks = add64 c.ticks 1 }))
      (updated : (c : Core) (t : Term) → P c → P (maybe_update_term c t).0) where
    handle_tick_keeps : (l : Leader) (c : Core) → P c → Kept (handle_tick l c)
    unfolding handle_tick
    handle_tick_keeps l c h =
        if_rule Kept (leb l.heartbeat_deadline (add64 c.ticks 1)) (λ _. ticked c h)
          (λ _. ticked c h)

    handle_message_keeps :
        (l : Leader) (c : Core) (msg : Message) → P c → Kept (handle_message l c msg)
    unfolding handle_message
    handle_message_keeps l c msg h =
        option_rule Kept (as_pre_vote_request msg.payload)
          (λ _.
            if_rule Kept (ltb (term_of c) msg.term) (λ _. updated c msg.term h)
              (λ _.
                if_rule Kept (ltb msg.term (term_of c)) (λ _. h)
                  (λ _. handle_keeps l c msg.sender msg.payload h)))
          (λ req _. h)

    pub step_rule : (l : Leader) (c : Core) (e : Event) → P c → P (step l c e).1
    unfolding step
    step_rule l c tick h = handle_tick_keeps l c h
    step_rule l c (message msg) h = handle_message_keeps l c msg h
    step_rule l c (disk_write_complete i) h = handle_disk_write_complete_keeps l c i h
