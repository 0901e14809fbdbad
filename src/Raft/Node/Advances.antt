-- ===== src/Raft/Node/Advances.antt =====
-- The term and the vote under raft/mod.rs.
use basisdb.Base.{
  ◌+◌, ◌<◌, ◌≡◌, ap, arith, Bool, true, false, Option, none, some, Result, ok, err, u64_mod,
  if_rule,
}
use mathlib.Core.Path.{subst}
use basisdb.Raft.NodeSet.{NodeId}
use basisdb.Raft.Membership.{ConfigChange, ConfigChangeError}
use basisdb.Raft.Log.{LogIndex, Command}
use basisdb.Raft.Event.{
  Event, Transition, stay, to_follower, to_follower_after_contact, to_pre_candidate, to_candidate,
  to_leader, Effects,
}
use basisdb.Raft.Core.{Core, term_of, proposal_limit_exceeded}
use basisdb.Raft.Core.Advances.{
  Advances, Advances-refl, Advances-trans, SameVote-Advances, random_election_timeout-persistent,
}
use basisdb.Raft.Follower
use basisdb.Raft.Follower.{new_follower, after_leader_contact}
use basisdb.Raft.PreCandidate
use basisdb.Raft.PreCandidate.{new_pre_candidate, has_pre_quorum}
use basisdb.Raft.Candidate
use basisdb.Raft.Candidate.{new_candidate, has_vote_quorum}
use basisdb.Raft.Leader
use basisdb.Raft.Leader.{Leader, Proposed}
use basisdb.Raft.PreCandidate.Advances.{new_pre_candidate-SameVote}
use basisdb.Raft.Candidate.Advances.{new_candidate-Advances}
use basisdb.Raft.Leader.Advances.{propose-SameVote, propose_config_change-SameVote}
use basisdb.Raft.Node.{
  Node, RoleState, follower, pre_candidate, candidate, leading, step_role, apply_transition,
  step_event, after_proposal, admitted, propose_in, propose, propose_config_in,
  propose_config_change, ProposeError, request_read_in, request_read_index, config_change_done,
  to_candidate_role, to_pre_candidate_role,
}

new_follower-Advances : (c : Core) (l : Option NodeId) → Advances c (new_follower c l).0
unfolding new_follower
new_follower-Advances c l =
    let e = random_election_timeout-persistent c in
    SameVote-Advances
      (record { same_term = ap (λ p. p.term) e; same_vote = ap (λ p. p.voted_for) e })

step_role-Advances : (r : RoleState) (c : Core) (e : Event) → Advances c (step_role r c e).1
unfolding step_role
step_role-Advances (follower f) c e = Follower.Advances.step-Advances f c e
step_role-Advances (pre_candidate p) c e = PreCandidate.Advances.step-Advances p c e
step_role-Advances (candidate k) c e = Candidate.Advances.step-Advances k c e
step_role-Advances (leading l) c e = Leader.Advances.step-Advances l c e

to_candidate_role-Advances :
    (c : Core) → term_of c + 1 < u64_mod → Advances c (to_candidate_role c).0.core
unfolding to_candidate_role
to_candidate_role-Advances c h =
    let k = new_candidate c in
    if_rule (λ (s : Node × Effects). Advances c s.0.core) (has_vote_quorum k.1 k.0)
      (λ _. new_candidate-Advances c h) (λ _. new_candidate-Advances c h)

to_pre_candidate_role-Advances :
    (c : Core) → term_of c + 1 < u64_mod → Advances c (to_pre_candidate_role c).0.core
unfolding to_pre_candidate_role
to_pre_candidate_role-Advances c h =
    let p = new_pre_candidate c in
    let same = new_pre_candidate-SameVote c in
    let started = SameVote-Advances same in
    if_rule (λ (s : Node × Effects). Advances c s.0.core) (has_pre_quorum p.1 p.0)
      (λ _. Advances-trans started (to_candidate_role-Advances p.0 (omega (arith, same.same_term))))
      (λ _. started)

apply_transition-Advances :
    (c : Core) (r : RoleState) (t : Transition)
    → term_of c + 1 < u64_mod
    → Advances c (apply_transition c r t).0.core
unfolding apply_transition
apply_transition-Advances c r stay h = Advances-refl c
apply_transition-Advances c r (to_follower l) h = new_follower-Advances c l
apply_transition-Advances c r (to_follower_after_contact l) h =
    unfold after_leader_contact in new_follower-Advances c l
apply_transition-Advances c r to_pre_candidate h = to_pre_candidate_role-Advances c h
apply_transition-Advances c r to_candidate h = to_candidate_role-Advances c h
apply_transition-Advances c r to_leader h = Advances-refl c

-- An event moves the term and the vote as `Advances` says, unless the term is the last `u64`.
pub step_event-Advances :
    (n : Node) (e : Event)
    → term_of (step_role n.role n.core e).1 + 1 < u64_mod
    → Advances n.core (step_event n e).0.core
unfolding step_event
step_event-Advances n e h =
    let s = step_role n.role n.core e in
    Advances-trans (step_role-Advances n.role n.core e)
      (apply_transition-Advances s.1 s.0 s.2.transition h)

after_proposal-Advances :
    (l : Leader) (c : Core) (steps_down : Bool) → Advances c (after_proposal l c steps_down).core
unfolding after_proposal
after_proposal-Advances l c steps_down =
    if_rule (λ (n : Node). Advances c n.core) steps_down (λ _. new_follower-Advances c none)
      (λ _. Advances-refl c)

-- An outcome, if there is one, leaves a core that `Advances` from the one before.
admitted-Advances :
    (n : Node) (done : Node × (LogIndex × Effects)) (limit : Option Bool) {m : Node}
    {r : Result (LogIndex × Effects) ProposeError}
    → Advances n.core done.0.core
    → admitted n done limit ≡ some (m, r)
    → Advances n.core m.core
admitted-Advances n done none h e = absurd (ground arith)
admitted-Advances n done (some true) {m} h e =
    let eq : n ≡ m = cc in subst (λ (k : Node). Advances n.core k.core) eq (Advances-refl n.core)
admitted-Advances n done (some false) {m} h e =
    let eq : done.0 ≡ m = cc in subst (λ (k : Node). Advances n.core k.core) eq h

propose_in-Advances :
    (n : Node) (role : RoleState) (cmd : Command) {m : Node}
    {r : Result (LogIndex × Effects) ProposeError}
    → propose_in n role cmd ≡ some (m, r)
    → Advances n.core m.core
unfolding propose_in
propose_in-Advances n (leading l) cmd h =
    let p = Leader.propose l n.core cmd in
    admitted-Advances n (after_proposal p.0 p.1 p.2.2, (p.2.0, p.2.1))
      (proposal_limit_exceeded n.core cmd)
      (Advances-trans (SameVote-Advances (propose-SameVote l n.core cmd))
        (after_proposal-Advances p.0 p.1 p.2.2))
      h
propose_in-Advances n _ cmd {m} h =
    let eq : n ≡ m = cc in subst (λ (k : Node). Advances n.core k.core) eq (Advances-refl n.core)

pub propose-Advances :
    (n : Node) (cmd : Command) {m : Node} {r : Result (LogIndex × Effects) ProposeError}
    → propose n cmd ≡ some (m, r)
    → Advances n.core m.core
unfolding propose
propose-Advances n cmd h = propose_in-Advances n n.role cmd h

config_change_done-Advances :
    (l : Leader) (c : Core) (r : Result Proposed ConfigChangeError)
    → Advances c (config_change_done l c r).0.core
unfolding config_change_done
config_change_done-Advances l c (ok p) = after_proposal-Advances l c p.2
config_change_done-Advances l c (err e) = Advances-refl c

propose_config_in-Advances :
    (n : Node) (role : RoleState) (change : ConfigChange)
    → Advances n.core (propose_config_in n role change).0.core
unfolding propose_config_in
propose_config_in-Advances n (leading l) change =
    let p = Leader.propose_config_change l n.core change in
    Advances-trans (SameVote-Advances (propose_config_change-SameVote l n.core change))
      (config_change_done-Advances p.0 p.1 p.2)
propose_config_in-Advances n _ change = Advances-refl n.core

pub propose_config_change-Advances :
    (n : Node) (change : ConfigChange) → Advances n.core (propose_config_change n change).0.core
unfolding propose_config_change
propose_config_change-Advances n change = propose_config_in-Advances n n.role change

request_read_in-Advances :
    (n : Node) (role : RoleState) → Advances n.core (request_read_in n role).0.core
unfolding request_read_in
request_read_in-Advances n (leading l) = Advances-refl n.core
request_read_in-Advances n _ = Advances-refl n.core

pub request_read_index-Advances : (n : Node) → Advances n.core (request_read_index n).0.core
unfolding request_read_index
request_read_index-Advances n = request_read_in-Advances n n.role
