-- ===== src/Raft/Follower/Advances.antt =====
-- The term and the vote under follower.rs.
use basisdb.Base.{
  refl, ap, Bool, ◌&&◌, some, arith, ltb, inl, inr, Bool-cases, if_rule, option_rule,
}
use basisdb.Raft.NodeSet.{NodeId}
use basisdb.Raft.Event.{
  Event, tick, message, disk_write_complete, Message, Payload, vote_request, append_request,
  VoteRequest, AppendRequest, InstallSnapshotRequest, read_index_request, install_snapshot_request,
  timeout_now, as_pre_vote_request, asks_for_vote,
}
use basisdb.Raft.Core.{Core, term_of, log_of, maybe_update_term, vote_for}
use basisdb.Raft.Core.Advances.{
  Advances, Advances-refl, Advances-trans, SameVote, SameVote-Advances, maybe_update_term-Advances,
  vote_for-Advances, random_election_timeout-persistent,
}
use basisdb.Raft.Follower.{
  Follower, reset_deadline, hear_from, grants_vote, handle_tick, handle_vote_request,
  handle_append_request, handle_read_index_request, handle_install_snapshot, accept_append,
  accept_snapshot, adopt_term, handle, handle_current, handle_message, step, mismatches,
  rejects_snapshot, Stepped, recently_heard_from_leader,
}

reset_deadline-SameVote : (f : Follower) (c : Core) → SameVote c (reset_deadline f c).1
unfolding reset_deadline
reset_deadline-SameVote f c =
    let e = random_election_timeout-persistent c in
    record { same_term = ap (λ p. p.term) e; same_vote = ap (λ p. p.voted_for) e }

hear_from-SameVote : (f : Follower) (c : Core) (from : NodeId) → SameVote c (hear_from f c from).1
unfolding hear_from
hear_from-SameVote f c from =
    reset_deadline-SameVote (record f { leader = some from; last_contact_tick = some c.ticks }) c

accept_append-SameVote : (c : Core) (req : AppendRequest) → SameVote c (accept_append c req).0
unfolding accept_append
accept_append-SameVote c req = record { same_term = refl; same_vote = refl }

accept_snapshot-SameVote :
    (c : Core) (req : InstallSnapshotRequest) → SameVote c (accept_snapshot c req)
unfolding accept_snapshot
accept_snapshot-SameVote c req = record { same_term = refl; same_vote = refl }

handle_vote_request-Advances :
    (f : Follower) (c : Core) (from : NodeId) (req : VoteRequest)
    → Advances c (handle_vote_request f c from req).1
unfolding handle_vote_request
handle_vote_request-Advances f c from req = elim (Bool-cases (grants_vote c from req)) [
  | inl e ↦ rw e (
      Advances-trans (vote_for-Advances c from (unfold grants_vote in ground arith))
        (SameVote-Advances (reset_deadline-SameVote f (vote_for c from))))
  | inr e ↦ rw e (Advances-refl c)
]

handle_append_request-Advances :
    (f : Follower) (c : Core) (from : NodeId) (req : AppendRequest)
    → Advances c (handle_append_request f c from req).1
unfolding handle_append_request
handle_append_request-Advances f c from req =
    let heard = SameVote-Advances (hear_from-SameVote f c from) in
    let c' = (hear_from f c from).1 in
    if_rule (λ (s : Stepped). Advances c s.1) (mismatches (log_of c') req) (λ _. heard)
      (λ _. Advances-trans heard (SameVote-Advances (accept_append-SameVote c' req)))

handle_install_snapshot-Advances :
    (f : Follower) (c : Core) (from : NodeId) (req : InstallSnapshotRequest)
    → Advances c (handle_install_snapshot f c from req).1
unfolding handle_install_snapshot
handle_install_snapshot-Advances f c from req =
    let heard = SameVote-Advances (hear_from-SameVote f c from) in
    let c' = (hear_from f c from).1 in
    if_rule (λ (s : Stepped). Advances c s.1) (rejects_snapshot c' req) (λ _. heard)
      (λ _. Advances-trans heard (SameVote-Advances (accept_snapshot-SameVote c' req)))

adopt_term-Advances : (f : Follower) (c : Core) (msg : Message) → Advances c (adopt_term f c msg).1
unfolding adopt_term
adopt_term-Advances f c msg =
    if_rule (λ (s : Follower × Core × Bool). Advances c s.1) (ltb (term_of c) msg.term)
      (λ _.
        Advances-trans (maybe_update_term-Advances c msg.term)
          (SameVote-Advances (reset_deadline-SameVote f (maybe_update_term c msg.term).0)))
      (λ _. Advances-refl c)

handle-Advances :
    (f : Follower) (c : Core) (from : NodeId) (p : Payload) → Advances c (handle f c from p).1
unfolding handle handle_read_index_request
handle-Advances f c from (vote_request req) = handle_vote_request-Advances f c from req
handle-Advances f c from (append_request req) = handle_append_request-Advances f c from req
handle-Advances f c from (read_index_request req) = SameVote-Advances (hear_from-SameVote f c from)
handle-Advances f c from (install_snapshot_request req) =
    handle_install_snapshot-Advances f c from req
handle-Advances f c from timeout_now = Advances-refl c
handle-Advances f c from _ = Advances-refl c

handle_current-Advances :
    (f : Follower) (c : Core) (msg : Message) → Advances c (handle_current f c msg).1
unfolding handle_current
handle_current-Advances f c msg =
    let adopted = adopt_term-Advances f c msg in
    let a = adopt_term f c msg in
    if_rule (λ (s : Stepped). Advances c s.1) (ltb msg.term (term_of a.1)) (λ _. adopted)
      (λ _. Advances-trans adopted (handle-Advances a.0 a.1 msg.sender msg.payload))

handle_message-Advances :
    (f : Follower) (c : Core) (msg : Message) → Advances c (handle_message f c msg).1
unfolding handle_message
handle_message-Advances f c msg =
    if_rule (λ (s : Stepped). Advances c s.1)
      (asks_for_vote msg.payload && recently_heard_from_leader f c) (λ _. Advances-refl c)
      (λ _.
        option_rule (λ (s : Stepped). Advances c s.1) (as_pre_vote_request msg.payload)
          (λ _. handle_current-Advances f c msg) (λ req _. Advances-refl c))

-- A follower's term never falls, and within a term its vote stands.
pub step-Advances : (f : Follower) (c : Core) (e : Event) → Advances c (step f c e).1
unfolding step handle_tick
step-Advances f c tick =
    SameVote-Advances (record { same_term = ground arith; same_vote = ground arith })
step-Advances f c (message msg) = handle_message-Advances f c msg
step-Advances f c (disk_write_complete i) = Advances-refl c
