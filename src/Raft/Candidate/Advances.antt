-- ===== src/Raft/Candidate/Advances.antt =====
-- The term and the vote under candidate.rs.
use basisdb.Base.{◌+◌, ◌<◌, ap, ◌&&◌, arith, ltb, add64, u64_mod, if_rule, option_rule}
use basisdb.Raft.NodeSet.{NodeId}
use basisdb.Raft.Event.{
  Event, tick, message, disk_write_complete, Message, Payload, vote_response, asks_for_vote,
  as_pre_vote_request,
}
use basisdb.Raft.Core.{Core, term_of, start_election}
use basisdb.Raft.Core.Advances.{
  Advances, Advances-refl, Advances-trans, SameVote, SameVote-Advances, maybe_update_term-Advances,
  start_election-Advances, random_election_timeout-persistent,
}
use basisdb.Raft.Candidate.{
  Candidate, Stepped, new_candidate, recently_heard_from_leader, handle_tick, handle,
  handle_current, handle_message, step,
}

pub new_candidate-Advances : (c : Core) → term_of c + 1 < u64_mod → Advances c (new_candidate c).0
unfolding new_candidate
new_candidate-Advances c h =
    let e = random_election_timeout-persistent (start_election c) in
    Advances-trans (start_election-Advances c h) (
      SameVote-Advances
        (record { same_term = ap (λ p. p.term) e; same_vote = ap (λ p. p.voted_for) e }))

handle_tick-SameVote : (k : Candidate) (c : Core) → SameVote c (handle_tick k c).1
unfolding handle_tick
handle_tick-SameVote k c =
    let e = random_election_timeout-persistent (record c { ticks = add64 c.ticks 1 }) in
    record { same_term = ground (arith, e); same_vote = ground (arith, e) }

handle-Advances :
    (k : Candidate) (c : Core) (from : NodeId) (body : Payload)
    → Advances c (handle k c from body).1
unfolding handle
handle-Advances k c from (vote_response resp) =
    if_rule (λ (s : Stepped). Advances c s.1) resp.granted (λ _. Advances-refl c)
      (λ _. Advances-refl c)
handle-Advances k c from _ = Advances-refl c

handle_current-Advances :
    (k : Candidate) (c : Core) (msg : Message) → Advances c (handle_current k c msg).1
unfolding handle_current
handle_current-Advances k c msg =
    if_rule (λ (s : Stepped). Advances c s.1) (ltb (term_of c) msg.term)
      (λ _. maybe_update_term-Advances c msg.term)
      (λ _.
        if_rule (λ (s : Stepped). Advances c s.1) (ltb msg.term (term_of c)) (λ _. Advances-refl c)
          (λ _. handle-Advances k c msg.sender msg.payload))

handle_message-Advances :
    (k : Candidate) (c : Core) (msg : Message) → Advances c (handle_message k c msg).1
unfolding handle_message
handle_message-Advances k c msg =
    if_rule (λ (s : Stepped). Advances c s.1)
      (asks_for_vote msg.payload && recently_heard_from_leader k c) (λ _. Advances-refl c)
      (λ _.
        option_rule (λ (s : Stepped). Advances c s.1) (as_pre_vote_request msg.payload)
          (λ _. handle_current-Advances k c msg) (λ req _. Advances-refl c))

pub step-Advances : (k : Candidate) (c : Core) (e : Event) → Advances c (step k c e).1
unfolding step
step-Advances k c tick = SameVote-Advances (handle_tick-SameVote k c)
step-Advances k c (message msg) = handle_message-Advances k c msg
step-Advances k c (disk_write_complete i) = Advances-refl c
