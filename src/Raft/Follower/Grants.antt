-- ===== src/Raft/Follower/Grants.antt =====
-- The votes in the effects of follower.rs.
use basisdb.Base.{
  ◌≡◌, refl, ap, leb, add64, All-imp, inl, inr, ◌&&◌, Bool, true, false, some, ltb, if_rule,
  option_rule,
}
use basisdb.Raft.NodeSet.{NodeId}
use basisdb.Raft.Event.{
  Event, tick, message, disk_write_complete, Message, Payload, vote_request, append_request,
  VoteRequest, read_index_request, install_snapshot_request, timeout_now, as_pre_vote_request,
  asks_for_vote, StepResult, pre_vote_request,
}
use basisdb.Raft.Event.Grants.{NoGrants, Sound}
use basisdb.Raft.Core.{Core, term_of, log_of, vote_for}
use basisdb.Raft.Core.Advances.{voted_for, random_election_timeout-persistent}
use basisdb.Raft.Follower.{
  Follower, Stepped, reset_deadline, hear_from, grants_vote, handle_tick, handle_vote_request,
  handle_append_request, handle_read_index_request, handle_install_snapshot, adopt_term, handle,
  answer, denial, stale_answer, handle_current, handle_message, step, mismatches, rejects_snapshot,
  recently_heard_from_leader, persist_if,
}

abbrev IsSound : Stepped → Type 0
IsSound s = Sound s.1 s.2

handle_vote_request-Sound :
    (f : Follower) (c : Core) (from : NodeId) (req : VoteRequest)
    → IsSound (handle_vote_request f c from req)
unfolding handle_vote_request
handle_vote_request-Sound f c from req =
    let kept = random_election_timeout-persistent (vote_for c from) in
    let voted : voted_for (reset_deadline f (vote_for c from)).1 ≡ some from =
      unfold vote_for in ap (λ p. p.voted_for) kept in
    if_rule IsSound (grants_vote c from req) (λ _. inr (refl, ((λ _. (voted, refl, refl)), tt)))
      (λ _. inl (refl, tt))

-- The answers to a stale request and to one that comes too early grant nothing.
reject_stale-NoGrants :
    (c : Core) (msg : Message) (p : Payload) → NoGrants (answer c msg.sender (stale_answer c p))
reject_stale-NoGrants c msg (vote_request r) = (refl, tt)
reject_stale-NoGrants c msg (append_request r) = (refl, tt)
reject_stale-NoGrants c msg (read_index_request r) = (refl, tt)
reject_stale-NoGrants c msg _ = tt

pub denial-NoGrants :
    (c : Core) (from : NodeId) (p : Payload) → NoGrants (answer c from (denial c p))
denial-NoGrants c from (vote_request r) = (refl, tt)
denial-NoGrants c from (pre_vote_request r) = (refl, tt)
denial-NoGrants c from _ = tt

handle-Sound : (f : Follower) (c : Core) (from : NodeId) (p : Payload) → IsSound (handle f c from p)
unfolding handle handle_append_request handle_read_index_request handle_install_snapshot
handle-Sound f c from (vote_request req) = handle_vote_request-Sound f c from req
handle-Sound f c from (append_request req) =
    if_rule IsSound (mismatches (log_of (hear_from f c from).1) req) (λ _. inl (refl, tt))
      (λ _. inl (refl, tt))
handle-Sound f c from (read_index_request req) = inl (refl, tt)
handle-Sound f c from (install_snapshot_request req) =
    if_rule IsSound (rejects_snapshot (hear_from f c from).1 req) (λ _. inl (refl, tt))
      (λ _. inl (refl, tt))
handle-Sound f c from timeout_now = inl tt
handle-Sound f c from _ = inl tt

persist_if-Sound : (c : Core) (b : Bool) (r : StepResult) → Sound c r → Sound c (persist_if b r)
persist_if-Sound c false r h = h
persist_if-Sound c true r (inl h) = inl h
persist_if-Sound c true r (inr h) = inr (
  h.0,
  All-imp _ _ r.effects.messages (λ m recorded grant. let x = recorded grant in (x.0, x.1, refl))
      h.1,
)

handle_current-Sound : (f : Follower) (c : Core) (msg : Message) → IsSound (handle_current f c msg)
unfolding handle_current
handle_current-Sound f c msg =
    let a = adopt_term f c msg in
    let h = handle a.0 a.1 msg.sender msg.payload in
    if_rule IsSound (ltb msg.term (term_of a.1))
      (λ _. inl (reject_stale-NoGrants a.1 msg msg.payload))
      (λ _. persist_if-Sound h.1 a.2 h.2 (handle-Sound a.0 a.1 msg.sender msg.payload))

-- A follower's step either grants no vote, or stays a follower with the vote recorded.
pub step-Sound : (f : Follower) (c : Core) (e : Event) → IsSound (step f c e)
unfolding step handle_tick handle_message
step-Sound f c tick =
    if_rule IsSound (leb f.election_deadline (add64 c.ticks 1)) (λ _. inl tt) (λ _. inl tt)
step-Sound f c (message msg) =
    if_rule IsSound (asks_for_vote msg.payload && recently_heard_from_leader f c)
      (λ _. inl (denial-NoGrants c msg.sender msg.payload))
      (λ _.
        option_rule IsSound (as_pre_vote_request msg.payload) (λ _. handle_current-Sound f c msg)
          (λ req _. inl (refl, tt)))
step-Sound f c (disk_write_complete i) = inl tt
