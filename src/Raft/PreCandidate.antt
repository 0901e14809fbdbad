-- ===== src/Raft/PreCandidate.antt =====
-- consensus/basisdb-raft/src/raft/precandidate.rs
pub mod Advances
pub mod Grants
use basisdb.Base.{
  ℕ, ◌-◌, Bool, false, ◌&&◌, none, some, List, [], map, ltb, leb, ◌==◌, if◌then◌else◌, add64,
}
use basisdb.Raft.NodeSet.{NodeId, NodeSet, contains, insert}
use basisdb.Raft.Membership.{is_voter, voter_count, voter_peers, has_quorum}
use basisdb.Raft.Log.{last_index, last_term}
use basisdb.Raft.Event.{
  Event, tick, message, disk_write_complete, Message, Payload, pre_vote_request, pre_vote_response,
  vote_request, vote_response, append_request, timeout_now, PreVoteRequest, PreVoteResponse,
  asks_for_vote, is_append_request, Effects, no_effects, with_persist, with_message, with_messages,
  to_follower, to_follower_after_contact, to_pre_candidate, to_candidate, StepResult, stays,
  nothing, moves,
}
use basisdb.Raft.Core.{
  Core, self_id, term_of, log_of, reply, maybe_update_term, effective_config, is_self_voter,
  log_is_up_to_date, random_election_timeout, within_timeout,
}
use basisdb.Raft.Follower.{answer, denial}

pub record PreCandidate : Type 0 where
  pub pre_votes : NodeSet
  pub election_deadline : ℕ
  pub last_contact_tick : ℕ

abbrev pub Stepped : Type 0
Stepped = PreCandidate × Core × StepResult

-- The votes that a node starts with: its own, if it is a voter.
abbrev pub own_votes : Core → NodeSet
own_votes c = if is_self_voter c then insert (self_id c) [] else []

-- A cluster of this node alone.
abbrev pub is_alone : Core → Bool
is_alone c = voter_count (effective_config c) == 1 && is_voter (effective_config c) (self_id c)

pre_vote_requests : Core → List Message
pre_vote_requests c =
    let req : PreVoteRequest = record {
      next_term = add64 (term_of c) 1;
      last_log_index = last_index (log_of c);
      last_log_term = last_term (log_of c);
    } in
    map (λ peer. reply c peer (pre_vote_request req)) (voter_peers (effective_config c) (self_id c))

-- `PreCandidate::new`
unfoldable pub new_pre_candidate : Core → Core × PreCandidate × Effects
unfolding pre_vote_requests
new_pre_candidate c =
    let (c', timeout) = random_election_timeout c in
    (
      c',
      record {
        pre_votes = own_votes c';
        election_deadline = add64 c'.ticks timeout;
        last_contact_tick = c'.ticks - c'.config.election_timeout.0;
      },
      if is_alone c' then no_effects else with_messages no_effects (pre_vote_requests c'),
    )

unfoldable pub has_pre_quorum : PreCandidate → Core → Bool
has_pre_quorum p c = has_quorum (effective_config c) (λ voter. contains voter p.pre_votes)

unfoldable pub recently_heard_from_leader : PreCandidate → Core → Bool
recently_heard_from_leader p c = within_timeout c p.last_contact_tick

unfoldable pub handle_tick : PreCandidate → Core → Stepped
unfolding recently_heard_from_leader
handle_tick p c =
    let c1 = record c { ticks = add64 c.ticks 1 } in
    let (c2, timeout) = random_election_timeout c1 in
    if recently_heard_from_leader p c1
    then (record p { election_deadline = add64 c1.ticks timeout }, c2, nothing)
    else if leb p.election_deadline c1.ticks
    then (p, c1, moves to_pre_candidate no_effects)
    else (p, c1, nothing)

unfoldable pub handle_prevote_response : PreCandidate → Core → NodeId → PreVoteResponse → Stepped
unfolding has_pre_quorum
handle_prevote_response p c from resp =
    let (c', updated) = maybe_update_term c resp.term in
    let p' = record p { pre_votes = insert from p.pre_votes } in
    if ltb (term_of c) resp.term
    then (p, c', moves (to_follower none) (with_persist no_effects))
    else if ltb resp.term (term_of c)
    then (p, c, nothing)
    else if resp.granted
    then (p', c, if has_pre_quorum p' c then moves to_candidate no_effects else nothing)
    else (p, c, nothing)

unfoldable pub handle_append_request : PreCandidate → Core → NodeId → Stepped
handle_append_request p c from = (
  record p { last_contact_tick = c.ticks },
  c,
  moves (to_follower_after_contact (some from)) no_effects,
)

unfoldable pub grants_pre_vote : Core → NodeId → PreVoteRequest → Bool
grants_pre_vote c from req =
    is_voter (effective_config c) from
    && ltb (term_of c) req.next_term
    && log_is_up_to_date c req.last_log_term req.last_log_index

unfoldable pub handle_prevote_request : Core → NodeId → ℕ → PreVoteRequest → StepResult
unfolding grants_pre_vote
handle_prevote_request c from msg_term req = stays (
    with_message no_effects (record {
      sender = self_id c;
      receiver = from;
      term = msg_term;
      payload =
          pre_vote_response (record { term = term_of c; granted = grants_pre_vote c from req });
    }))

unfoldable pub handle_vote_request : Core → NodeId → StepResult
handle_vote_request c from =
    stays (with_message no_effects (reply c from (vote_response (record { granted = false }))))

unfoldable pub deny_vote : Core → Message → Effects
deny_vote c msg = answer c msg.sender (denial c msg.payload)

-- The last `match` of `step`.
unfoldable pub handle : PreCandidate → Core → Message → Payload → Stepped
unfolding handle_prevote_response handle_append_request handle_prevote_request handle_vote_request
handle p c msg (pre_vote_response resp) = handle_prevote_response p c msg.sender resp
handle p c msg (append_request req) = handle_append_request p c msg.sender
handle p c msg (pre_vote_request req) = (p, c, handle_prevote_request c msg.sender msg.term req)
handle p c msg (vote_request req) = (p, c, handle_vote_request c msg.sender)
handle p c msg timeout_now = (p, c, moves to_candidate no_effects)
handle p c msg _ = (p, c, nothing)

unfoldable pub handle_message : PreCandidate → Core → Message → Stepped
unfolding recently_heard_from_leader deny_vote handle
handle_message p c msg =
    let (c', updated) = maybe_update_term c msg.term in
    let rest = handle p c msg msg.payload in
    if asks_for_vote msg.payload && recently_heard_from_leader p c
    then (p, c, stays (deny_vote c msg))
    else if ltb (term_of c) msg.term
    then (
      p,
      c',
      moves (to_follower (if is_append_request msg.payload then some msg.sender else none))
          (with_persist no_effects),
    )
    else rest

unfoldable pub step : PreCandidate → Core → Event → Stepped
unfolding handle_tick handle_message
step p c tick = handle_tick p c
step p c (disk_write_complete index) = (p, c, nothing)
step p c (message msg) = handle_message p c msg
