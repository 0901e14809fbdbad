-- ===== src/Raft/Candidate.antt =====
-- consensus/basisdb-raft/src/raft/candidate.rs
pub mod Advances
pub mod Grants
use basisdb.Base.{
  ℕ, ◌-◌, Bool, false, ◌&&◌, Option, none, some, List, map, ltb, leb, if◌then◌else◌, add64,
}
use basisdb.Raft.NodeSet.{NodeId, NodeSet, contains, insert}
use basisdb.Raft.Membership.{is_voter, voter_peers, has_quorum}
use basisdb.Raft.Log.{last_index, last_term}
use basisdb.Raft.Event.{
  Event, tick, message, disk_write_complete, Message, Payload, pre_vote_response, vote_request,
  vote_response, append_request, append_response, timeout_now, PreVoteRequest, VoteRequest,
  VoteResponse, asks_for_vote, as_pre_vote_request, is_append_request, Effects, no_effects,
  with_persist, with_message, with_messages, to_follower, to_follower_after_contact, to_candidate,
  to_leader, StepResult, stays, nothing, moves,
}
use basisdb.Raft.Core.{
  Core, self_id, term_of, log_of, reply, maybe_update_term, start_election, effective_config,
  log_is_up_to_date, random_election_timeout, within_timeout,
}
use basisdb.Raft.Follower.{answer, denial}
use basisdb.Raft.PreCandidate.{own_votes, is_alone}

pub record Candidate : Type 0 where
  pub votes : NodeSet
  pub election_deadline : ℕ
  pub last_contact_tick : ℕ

abbrev pub Stepped : Type 0
Stepped = Candidate × Core × StepResult

vote_requests : Core → List Message
vote_requests c =
    let req : VoteRequest = record {
      last_log_index = last_index (log_of c);
      last_log_term = last_term (log_of c);
    } in
    map (λ peer. reply c peer (vote_request req)) (voter_peers (effective_config c) (self_id c))

-- `Candidate::new`
unfoldable pub new_candidate : Core → Core × Candidate × Effects
unfolding vote_requests
new_candidate c =
    let (c', timeout) = random_election_timeout (start_election c) in
    (
      c',
      record {
        votes = own_votes c';
        election_deadline = add64 c'.ticks timeout;
        last_contact_tick = c'.ticks - c'.config.election_timeout.0;
      },
      if is_alone c'
          then with_persist no_effects
          else with_messages (with_persist no_effects) (vote_requests c'),
    )

unfoldable pub has_vote_quorum : Candidate → Core → Bool
has_vote_quorum k c = has_quorum (effective_config c) (λ voter. contains voter k.votes)

unfoldable pub recently_heard_from_leader : Candidate → Core → Bool
recently_heard_from_leader k c = within_timeout c k.last_contact_tick

unfoldable pub handle_tick : Candidate → Core → Stepped
unfolding recently_heard_from_leader
handle_tick k c =
    let c1 = record c { ticks = add64 c.ticks 1 } in
    let (c2, timeout) = random_election_timeout c1 in
    if recently_heard_from_leader k c1
    then (record k { election_deadline = add64 c1.ticks timeout }, c2, nothing)
    else if leb k.election_deadline c1.ticks
    then (k, c1, moves to_candidate no_effects)
    else (k, c1, nothing)

unfoldable pub handle_vote_response : Candidate → Core → NodeId → VoteResponse → Stepped
unfolding has_vote_quorum
handle_vote_response k c from resp =
    let k' = record k { votes = insert from k.votes } in
    if resp.granted
    then (k', c, if has_vote_quorum k' c then moves to_leader no_effects else nothing)
    else (k, c, nothing)

unfoldable pub handle_append_request : Candidate → Core → NodeId → Stepped
handle_append_request k c from = (
  record k { last_contact_tick = c.ticks },
  c,
  moves (to_follower_after_contact (some from)) no_effects,
)

unfoldable pub handle_vote_request : Core → NodeId → StepResult
handle_vote_request c from =
    stays (with_message no_effects (reply c from (vote_response (record { granted = false }))))

unfoldable pub deny_vote : Core → Message → Effects
deny_vote c msg = answer c msg.sender (denial c msg.payload)

unfoldable pub handle_prevote_request : Core → NodeId → ℕ → PreVoteRequest → Effects
handle_prevote_request c from msg_term req =
    let granted =
      is_voter (effective_config c) from
      && ltb (term_of c) req.next_term
      && log_is_up_to_date c req.last_log_term req.last_log_index in
    with_message no_effects (record {
      sender = self_id c;
      receiver = from;
      term = msg_term;
      payload = pre_vote_response (record { term = term_of c; granted = granted });
    })

abbrev pub stale_answer : Core → Payload → Option Payload
stale_answer c (vote_request req) = some (vote_response (record { granted = false }))
stale_answer c (append_request req) =
    some (append_response (record { success = false; last_log_index = last_index (log_of c) }))
stale_answer c _ = none

unfoldable pub reject_stale : Core → Message → Effects
reject_stale c msg = answer c msg.sender (stale_answer c msg.payload)

-- The last `match` of `step`.
unfoldable pub handle : Candidate → Core → NodeId → Payload → Stepped
unfolding handle_vote_response handle_append_request handle_vote_request
handle k c from (vote_response resp) = handle_vote_response k c from resp
handle k c from (append_request req) = handle_append_request k c from
handle k c from (vote_request req) = (k, c, handle_vote_request c from)
handle k c from timeout_now = (k, c, moves to_candidate no_effects)
handle k c from _ = (k, c, nothing)

-- What follows the two tests for vote requests.
unfoldable pub handle_current : Candidate → Core → Message → Stepped
unfolding handle reject_stale
handle_current k c msg =
    let (c', updated) = maybe_update_term c msg.term in
    let rest = handle k c msg.sender msg.payload in
    if ltb (term_of c) msg.term
    then (
      k,
      c',
      moves (to_follower (if is_append_request msg.payload then some msg.sender else none))
          (with_persist no_effects),
    )
    else if ltb msg.term (term_of c)
    then (k, c, stays (reject_stale c msg))
    else rest

unfoldable pub handle_message : Candidate → Core → Message → Stepped
unfolding recently_heard_from_leader deny_vote handle_prevote_request handle_current
handle_message k c msg =
    let rest = handle_current k c msg in
    if asks_for_vote msg.payload && recently_heard_from_leader k c
    then (k, c, stays (deny_vote c msg))
    else elim (as_pre_vote_request msg.payload) [
      | some req ↦ (k, c, stays (handle_prevote_request c msg.sender msg.term req))
      | none ↦ rest
    ]

unfoldable pub step : Candidate → Core → Event → Stepped
unfolding handle_tick handle_message
step k c tick = handle_tick k c
step k c (disk_write_complete index) = (k, c, nothing)
step k c (message msg) = handle_message k c msg
