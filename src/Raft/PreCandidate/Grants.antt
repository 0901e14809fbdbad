-- ===== src/Raft/PreCandidate/Grants.antt =====
-- The votes in the effects of precandidate.rs.
use basisdb.Base.{◌≡◌, refl, ◌&&◌, false, arith, ltb, All-map, if_rule}
use basisdb.Raft.NodeSet.{NodeId}
use basisdb.Raft.Membership.{voter_peers}
use basisdb.Raft.Event.{
  Event, tick, message, disk_write_complete, Message, Payload, pre_vote_request, pre_vote_response,
  vote_request, PreVoteResponse, asks_for_vote,
}
use basisdb.Raft.Event.Grants.{grants, NoGrants}
use basisdb.Raft.Core.{Core, term_of, self_id, effective_config, random_election_timeout}
use basisdb.Raft.Follower.Grants.{denial-NoGrants}
use basisdb.Raft.PreCandidate.{
  PreCandidate, Stepped, new_pre_candidate, is_alone, recently_heard_from_leader, handle_tick,
  handle_prevote_response, handle, handle_message, step,
}

abbrev Silent : Stepped → Type 0
Silent s = NoGrants s.2.effects

pub new_pre_candidate-NoGrants : (c : Core) → NoGrants (new_pre_candidate c).2
unfolding new_pre_candidate
new_pre_candidate-NoGrants c =
    let c' = (random_election_timeout c).0 in
    if_rule NoGrants (is_alone c') (λ _. tt)
      (λ _.
        All-map (λ (m : Message). grants m.payload ≡ false) _
          (voter_peers (effective_config c') (self_id c')) (λ peer. refl))

handle_prevote_response-Silent :
    (p : PreCandidate) (c : Core) (from : NodeId) (resp : PreVoteResponse)
    → Silent (handle_prevote_response p c from resp)
unfolding handle_prevote_response
handle_prevote_response-Silent p c from resp = ground arith

handle-Silent :
    (p : PreCandidate) (c : Core) (msg : Message) (body : Payload) → Silent (handle p c msg body)
unfolding handle
handle-Silent p c msg (pre_vote_response resp) = handle_prevote_response-Silent p c msg.sender resp
handle-Silent p c msg (pre_vote_request req) = (refl, tt)
handle-Silent p c msg (vote_request req) = (refl, tt)
handle-Silent p c msg _ = tt

pub step-NoGrants : (p : PreCandidate) (c : Core) (e : Event) → NoGrants (step p c e).2.effects
unfolding step handle_message handle_tick
step-NoGrants p c tick = ground arith
step-NoGrants p c (message msg) =
    if_rule Silent (asks_for_vote msg.payload && recently_heard_from_leader p c)
      (λ _. denial-NoGrants c msg.sender msg.payload)
      (λ _.
        if_rule Silent (ltb (term_of c) msg.term) (λ _. tt)
          (λ _. handle-Silent p c msg msg.payload))
step-NoGrants p c (disk_write_complete i) = tt
