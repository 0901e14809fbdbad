-- ===== src/Raft/Follower.antt =====
-- consensus/basisdb-raft/src/raft/follower.rs: a step takes the role's state and the core and
-- returns both beside its result.
pub mod Advances
pub mod Grants
pub mod Append
pub mod Accept
use basisdb.Base.{
  ℕ, ◌-◌, min, Bool, true, false, not, ◌&&◌, ◌||◌, Option, none, some, List, [], ◌∷◌, ltb, leb,
  ◌==◌, if◌then◌else◌, add64,
}
use basisdb.Raft.NodeSet.{NodeId}
use basisdb.Raft.Membership.{is_voter}
use basisdb.Raft.Log.{
  Entry, Log, term_at, truncate_after, append, last_index, install_snapshot,
  snapshot_matches_prefix,
}
use basisdb.Raft.Event.{
  Event, tick, message, disk_write_complete, Message, Payload, pre_vote_request, pre_vote_response,
  vote_request, vote_response, append_request, append_response, install_snapshot_request,
  install_snapshot_response, read_index_request, read_index_response, timeout_now, PreVoteRequest,
  VoteRequest, AppendRequest, ReadIndexRequest, InstallSnapshotRequest, asks_for_vote,
  as_pre_vote_request, is_from_leader, Effects, no_effects, with_persist, with_message,
  to_pre_candidate, to_candidate, StepResult, stays, nothing, moves,
}
use basisdb.Raft.Core.{
  Core, self_id, term_of, log_of, with_log, reply, maybe_update_term, effective_config, vote_for,
  can_vote_for, log_is_up_to_date, random_election_timeout, within_timeout,
}

pub record Follower : Type 0 where
  pub leader : Option NodeId
  pub election_deadline : ℕ
  pub last_contact_tick : Option ℕ

abbrev pub Stepped : Type 0
Stepped = Follower × Core × StepResult

-- `Follower::new`
unfoldable pub new_follower : Core → Option NodeId → Core × Follower
new_follower c leader =
    let (c', timeout) = random_election_timeout c in
    (
      c',
      record {
        leader = leader;
        election_deadline = add64 c'.ticks timeout;
        last_contact_tick = none;
      },
    )

unfoldable pub after_leader_contact : Core → Option NodeId → Core × Follower
unfolding new_follower
after_leader_contact c leader =
    let (c', f) = new_follower c leader in (c', record f { last_contact_tick = some c'.ticks })

unfoldable pub reset_deadline : Follower → Core → Follower × Core
reset_deadline f c =
    let (c', timeout) = random_election_timeout c in
    (record f { election_deadline = add64 c'.ticks timeout }, c')

-- `self.leader = Some(from)`, `record_contact` and `reset_deadline`, as three handlers begin
unfoldable pub hear_from : Follower → Core → NodeId → Follower × Core
unfolding reset_deadline
hear_from f c from =
    reset_deadline (record f { leader = some from; last_contact_tick = some c.ticks }) c

abbrev heard_since : Core → Option ℕ → Bool
heard_since c none = false
heard_since c (some contact) = within_timeout c contact

abbrev heard : Core → Option NodeId → Option ℕ → Bool
heard c none contact = false
heard c (some l) contact = heard_since c contact

unfoldable pub recently_heard_from_leader : Follower → Core → Bool
recently_heard_from_leader f c = heard c f.leader f.last_contact_tick

unfoldable pub handle_tick : Follower → Core → Stepped
handle_tick f c =
    let c' = record c { ticks = add64 c.ticks 1 } in
    if leb f.election_deadline c'.ticks
    then (f, c', moves (if c.config.prevote then to_pre_candidate else to_candidate) no_effects)
    else (f, c', nothing)

unfoldable pub grants_vote : Core → NodeId → VoteRequest → Bool
grants_vote c from req =
    is_voter (effective_config c) from
    && can_vote_for c from
    && log_is_up_to_date c req.last_log_term req.last_log_index

unfoldable pub handle_vote_request : Follower → Core → NodeId → VoteRequest → Stepped
unfolding grants_vote reset_deadline vote_for
handle_vote_request f c from req =
    let (f', c') = reset_deadline f (vote_for c from) in
    if grants_vote c from req
    then (
      f',
      c',
      stays (
          with_message (with_persist no_effects)
            (reply c' from (vote_response (record { granted = true })))),
    )
    else (
      f,
      c,
      stays (with_message no_effects (reply c from (vote_response (record { granted = false })))),
    )

-- The loop's first test: an entry of another term at the index is cut off with all above it.
-- A term other than 0 is found only at an index other than 0, so the subtraction is exact.
unfoldable pub cut_conflict : Log → Entry → Log
cut_conflict log e =
    let existing_term = term_at log e.index in
    if not (existing_term == 0) && not (existing_term == e.term)
    then truncate_after log (e.index - 1)
    else log

-- One round of the loop over `req.entries`; the flag is `persist`.
unfoldable pub append_entry : Log → Bool → Entry → Log × Bool
unfolding cut_conflict
append_entry log persist e =
    let cut = cut_conflict log e in
    if ltb (last_index cut) e.index then (append cut e, true) else (cut, persist)

unfoldable pub append_entries : Log → Bool → List Entry → Log × Bool
append_entries log persist [] = (log, persist)
append_entries log persist (e ∷ es) =
    let (log', persist') = append_entry log persist e in append_entries log' persist' es

-- Whether the consistency check fails.
unfoldable pub mismatches : Log → AppendRequest → Bool
mismatches log req =
    ltb 0 req.prev_log_index && not (term_at log req.prev_log_index == req.prev_log_term)

-- The new commit index, from the log after the loop.
unfoldable pub followed_commit : Core → AppendRequest → ℕ
followed_commit c req =
    if ltb c.commit_index req.leader_commit
    then min req.leader_commit (last_index (log_of c))
    else c.commit_index

abbrev append_reply : Core → NodeId → Bool → Message
append_reply c from success =
    reply c from
      (append_response (record { success = success; last_log_index = last_index (log_of c) }))

-- What follows a consistency check that holds.
unfoldable pub accept_append : Core → AppendRequest → Core × Bool
unfolding append_entries append_entry followed_commit
accept_append c req =
    let (log', persist) = append_entries (log_of c) false req.entries in
    let c' = with_log c log' in (record c' { commit_index = followed_commit c' req }, persist)

unfoldable pub handle_append_request : Follower → Core → NodeId → AppendRequest → Stepped
unfolding hear_from mismatches accept_append
handle_append_request f c from req =
    let (f', c') = hear_from f c from in
    let (c'', persist) = accept_append c' req in
    if mismatches (log_of c') req
    then (f', c', stays (with_message no_effects (append_reply c' from false)))
    else (
      f',
      c'',
      stays (with_message (record no_effects { persist = persist }) (append_reply c'' from true)),
    )

abbrev read_index_reply : Core → NodeId → ReadIndexRequest → Message
read_index_reply c from req =
    reply c from (read_index_response (record { id = req.id; read_index = req.read_index }))

unfoldable pub handle_read_index_request : Follower → Core → NodeId → ReadIndexRequest → Stepped
unfolding hear_from
handle_read_index_request f c from req =
    let (f', c') = hear_from f c from in
    (f', c', stays (with_message no_effects (read_index_reply c' from req)))

abbrev snapshot_reply : Core → NodeId → InstallSnapshotRequest → Bool → Message
snapshot_reply c from req success = reply c from (
    install_snapshot_response
      (record { success = success; last_included_index = req.last_included_index }))

-- The two tests that reject a snapshot.
unfoldable pub rejects_snapshot : Core → InstallSnapshotRequest → Bool
rejects_snapshot c req =
    let i = req.last_included_index in
    leb i (log_of c).snapshot_index
    || ltb i c.commit_index && not (snapshot_matches_prefix (log_of c) i req.last_included_term)

unfoldable pub accept_snapshot : Core → InstallSnapshotRequest → Core
accept_snapshot c req =
    let i = req.last_included_index in
    let log' = install_snapshot (log_of c) i req.last_included_term req.configuration in
    record (with_log c log') {
      commit_index = if ltb c.commit_index i then i else c.commit_index;
      last_applied = if ltb c.last_applied i then i else c.last_applied;
    }

unfoldable pub handle_install_snapshot : Follower → Core → NodeId → InstallSnapshotRequest → Stepped
unfolding hear_from rejects_snapshot accept_snapshot
handle_install_snapshot f c from req =
    let (f', c') = hear_from f c from in
    let c'' = accept_snapshot c' req in
    if rejects_snapshot c' req
    then (f', c', stays (with_message no_effects (snapshot_reply c' from req false)))
    else (
      f',
      c'',
      stays (with_message (with_persist no_effects) (snapshot_reply c'' from req true)),
    )

abbrev pub stale_answer : Core → Payload → Option Payload
stale_answer c (vote_request req) = some (vote_response (record { granted = false }))
stale_answer c (append_request req) =
    some (append_response (record { success = false; last_log_index = last_index (log_of c) }))
stale_answer c (read_index_request req) =
    some (read_index_response (record { id = req.id; read_index = req.read_index }))
stale_answer c _ = none

abbrev pub answer : Core → NodeId → Option Payload → Effects
answer c from none = no_effects
answer c from (some p) = with_message no_effects (reply c from p)

unfoldable pub reject_stale : Core → Message → Effects
reject_stale c msg = answer c msg.sender (stale_answer c msg.payload)

abbrev pub denial : Core → Payload → Option Payload
denial c (pre_vote_request req) =
    some (pre_vote_response (record { term = term_of c; granted = false }))
denial c (vote_request req) = some (vote_response (record { granted = false }))
denial c _ = none

unfoldable pub reject_due_to_active_leader : Core → Message → Effects
reject_due_to_active_leader c msg = answer c msg.sender (denial c msg.payload)

unfoldable pub grants_pre_vote : Core → NodeId → PreVoteRequest → Bool
grants_pre_vote c from req =
    is_voter (effective_config c) from
    && ltb (term_of c) req.next_term
    && log_is_up_to_date c req.last_log_term req.last_log_index

-- The answer to a pre-vote request goes out at the term of the request.
unfoldable pub handle_prevote_request : Core → NodeId → ℕ → PreVoteRequest → Effects
unfolding grants_pre_vote
handle_prevote_request c from msg_term req = with_message no_effects (record {
  sender = self_id c;
  receiver = from;
  term = msg_term;
  payload = pre_vote_response (record { term = term_of c; granted = grants_pre_vote c from req });
})

-- The branch for a higher term; the flag is `term_updated`.
unfoldable pub adopt_term : Follower → Core → Message → Follower × Core × Bool
unfolding reset_deadline
adopt_term f c msg =
    let (c1, updated) = maybe_update_term c msg.term in
    let (f', c') = reset_deadline f c1 in
    if ltb (term_of c) msg.term
    then (
      if is_from_leader msg.payload then record f' { leader = some msg.sender } else f',
      c',
      updated,
    )
    else (f, c, false)

-- The last `match` of `step`.
unfoldable pub handle : Follower → Core → NodeId → Payload → Stepped
unfolding handle_vote_request handle_append_request handle_read_index_request
    handle_install_snapshot
handle f c from (vote_request req) = handle_vote_request f c from req
handle f c from (append_request req) = handle_append_request f c from req
handle f c from (read_index_request req) = handle_read_index_request f c from req
handle f c from (install_snapshot_request req) = handle_install_snapshot f c from req
handle f c from timeout_now = (f, c, moves to_candidate no_effects)
handle f c from _ = (f, c, nothing)

-- `if term_updated { effects = effects.with_persist() }`
abbrev pub persist_if : Bool → StepResult → StepResult
persist_if true r = record r { effects = with_persist r.effects }
persist_if false r = r

unfoldable pub handle_current : Follower → Core → Message → Stepped
unfolding adopt_term handle reject_stale
handle_current f c msg =
    let (f', c', updated) = adopt_term f c msg in
    let (f'', c'', r) = handle f' c' msg.sender msg.payload in
    if ltb msg.term (term_of c')
    then (f', c', stays (reject_stale c' msg))
    else (f'', c'', persist_if updated r)

unfoldable pub handle_message : Follower → Core → Message → Stepped
unfolding recently_heard_from_leader reject_due_to_active_leader handle_prevote_request
    handle_current
handle_message f c msg =
    let rest = handle_current f c msg in
    if asks_for_vote msg.payload && recently_heard_from_leader f c
    then (f, c, stays (reject_due_to_active_leader c msg))
    else elim (as_pre_vote_request msg.payload) [
      | some req ↦ (f, c, stays (handle_prevote_request c msg.sender msg.term req))
      | none ↦ rest
    ]

unfoldable pub step : Follower → Core → Event → Stepped
unfolding handle_tick handle_message
step f c tick = handle_tick f c
step f c (disk_write_complete index) = (f, c, nothing)
step f c (message msg) = handle_message f c msg
