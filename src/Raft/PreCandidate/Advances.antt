-- ===== src/Raft/PreCandidate/Advances.antt =====
-- The term and the vote under precandidate.rs.
use basisdb.Base.{ap, ◌&&◌, arith, ltb, add64, if_rule}
use basisdb.Raft.NodeSet.{NodeId}
use basisdb.Raft.Event.{
  Event, tick, message, disk_write_complete, Message, Payload, pre_vote_response, PreVoteResponse,
  asks_for_vote,
}
use basisdb.Raft.Core.{Core, term_of}
use basisdb.Raft.Core.Advances.{
  Advances, Advances-refl, SameVote, SameVote-Advances, maybe_update_term-Advances,
  random_election_timeout-persistent,
}
use basisdb.Raft.PreCandidate.{
  PreCandidate, Stepped, new_pre_candidate, recently_heard_from_leader, handle_tick,
  handle_prevote_response, handle_append_request, handle, handle_message, step,
}

pub new_pre_candidate-SameVote : (c : Core) → SameVote c (new_pre_candidate c).0
unfolding new_pre_candidate
new_pre_candidate-SameVote c =
    let e = random_election_timeout-persistent c in
    record { same_term = ap (λ p. p.term) e; same_vote = ap (λ p. p.voted_for) e }

handle_tick-SameVote : (p : PreCandidate) (c : Core) → SameVote c (handle_tick p c).1
unfolding handle_tick
handle_tick-SameVote p c =
    let e = random_election_timeout-persistent (record c { ticks = add64 c.ticks 1 }) in
    record { same_term = ground (arith, e); same_vote = ground (arith, e) }

handle_prevote_response-Advances :
    (p : PreCandidate) (c : Core) (from : NodeId) (resp : PreVoteResponse)
    → Advances c (handle_prevote_response p c from resp).1
unfolding handle_prevote_response
handle_prevote_response-Advances p c from resp =
    if_rule (λ (s : Stepped). Advances c s.1) (ltb (term_of c) resp.term)
      (λ _. maybe_update_term-Advances c resp.term)
      (λ _.
        if_rule (λ (s : Stepped). Advances c s.1) (ltb resp.term (term_of c)) (λ _. Advances-refl c)
          (λ _.
            if_rule (λ (s : Stepped). Advances c s.1) resp.granted (λ _. Advances-refl c)
              (λ _. Advances-refl c)))

handle-Advances :
    (p : PreCandidate) (c : Core) (msg : Message) (body : Payload)
    → Advances c (handle p c msg body).1
unfolding handle handle_append_request
handle-Advances p c msg (pre_vote_response resp) =
    handle_prevote_response-Advances p c msg.sender resp
handle-Advances p c msg _ = Advances-refl c

handle_message-Advances :
    (p : PreCandidate) (c : Core) (msg : Message) → Advances c (handle_message p c msg).1
unfolding handle_message
handle_message-Advances p c msg =
    if_rule (λ (s : Stepped). Advances c s.1)
      (asks_for_vote msg.payload && recently_heard_from_leader p c) (λ _. Advances-refl c)
      (λ _.
        if_rule (λ (s : Stepped). Advances c s.1) (ltb (term_of c) msg.term)
          (λ _. maybe_update_term-Advances c msg.term) (λ _. handle-Advances p c msg msg.payload))

pub step-Advances : (p : PreCandidate) (c : Core) (e : Event) → Advances c (step p c e).1
unfolding step
step-Advances p c tick = SameVote-Advances (handle_tick-SameVote p c)
step-Advances p c (message msg) = handle_message-Advances p c msg
step-Advances p c (disk_write_complete i) = Advances-refl c
