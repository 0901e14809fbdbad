-- ===== src/Raft/Candidate/Grants.antt =====
-- The votes in the effects of candidate.rs.
use basisdb.Base.{◌≡◌, refl, ◌&&◌, false, arith, ltb, All-map, if_rule, option_rule}
use basisdb.Raft.NodeSet.{NodeId}
use basisdb.Raft.Membership.{voter_peers}
use basisdb.Raft.Event.{
  Event, tick, message, disk_write_complete, Message, Payload, vote_request, vote_response,
  append_request, asks_for_vote, as_pre_vote_request,
}
use basisdb.Raft.Event.Grants.{grants, NoGrants}
use basisdb.Raft.Core.{
  Core, term_of, self_id, effective_config, start_election, random_election_timeout,
}
use basisdb.Raft.Follower.{answer}
use basisdb.Raft.Follower.Grants.{denial-NoGrants}
use basisdb.Raft.PreCandidate.{is_alone}
use basisdb.Raft.Candidate.{
  Candidate, Stepped, new_candidate, recently_heard_from_leader, handle_tick, stale_answer, handle,
  handle_current, handle_message, step,
}

abbrev Silent : Stepped → Type 0
Silent s = NoGrants s.2.effects

pub new_candidate-NoGrants : (c : Core) → NoGrants (new_candidate c).2
unfolding new_candidate
new_candidate-NoGrants c =
    let c' = (random_election_timeout (start_election c)).0 in
    if_rule NoGrants (is_alone c') (λ _. tt)
      (λ _.
        All-map (λ (m : Message). grants m.payload ≡ false) _
          (voter_peers (effective_config c') (self_id c')) (λ peer. refl))

pub stale_answer-NoGrants :
    (c : Core) (from : NodeId) (p : Payload) → NoGrants (answer c from (stale_answer c p))
stale_answer-NoGrants c from (vote_request r) = (refl, tt)
stale_answer-NoGrants c from (append_request r) = (refl, tt)
stale_answer-NoGrants c from _ = tt

handle-Silent :
    (k : Candidate) (c : Core) (from : NodeId) (body : Payload) → Silent (handle k c from body)
unfolding handle
handle-Silent k c from (vote_response resp) = ground arith
handle-Silent k c from (vote_request req) = (refl, tt)
handle-Silent k c from _ = tt

handle_current-Silent : (k : Candidate) (c : Core) (msg : Message) → Silent (handle_current k c msg)
unfolding handle_current
handle_current-Silent k c msg =
    if_rule Silent (ltb (term_of c) msg.term) (λ _. tt)
      (λ _.
        if_rule Silent (ltb msg.term (term_of c))
          (λ _. stale_answer-NoGrants c msg.sender msg.payload)
          (λ _. handle-Silent k c msg.sender msg.payload))

pub step-NoGrants : (k : Candidate) (c : Core) (e : Event) → NoGrants (step k c e).2.effects
unfolding step handle_message handle_tick
step-NoGrants k c tick = ground arith
step-NoGrants k c (message msg) =
    if_rule Silent (asks_for_vote msg.payload && recently_heard_from_leader k c)
      (λ _. denial-NoGrants c msg.sender msg.payload)
      (λ _.
        option_rule Silent (as_pre_vote_request msg.payload) (λ _. handle_current-Silent k c msg)
          (λ req _. (refl, tt)))
step-NoGrants k c (disk_write_complete i) = tt
