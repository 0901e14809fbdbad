-- ===== src/Raft/Node/PreVote.antt =====
-- raft/mod.rs: the node under a pre-vote request, role by role.
use basisdb.Base.{◌≤◌, ◌≡◌, refl, ap, ◌∙◌, ◌&&◌, some, arith, ltb, if_rule, option_rule}
use basisdb.Raft.Event.{
  message, Message, Payload, PreVoteRequest, pre_vote_request, asks_for_vote, as_pre_vote_request,
  stay, StepResult,
}
use basisdb.Raft.Core.{Core, term_of}
use basisdb.Raft.Follower
use basisdb.Raft.PreCandidate
use basisdb.Raft.Candidate
use basisdb.Raft.Leader
use basisdb.Raft.Node.{
  Node, RoleState, follower, pre_candidate, candidate, leading, step_event, step_role,
  apply_transition,
}

abbrev node_of : Core → RoleState → Node
node_of c role = record { core = c; role = role }

-- The step of a role that leaves it, and the core, as they are.
abbrev Unchanged : {A : Type 0} → A → Core → A × Core × StepResult → Type 0
Unchanged role c s = (s.0 ≡ role) × (s.1 ≡ c) × (s.2.transition ≡ stay)

follower-Unchanged :
    (f : Follower.Follower) (c : Core) (msg : Message) (req : PreVoteRequest)
    → as_pre_vote_request msg.payload ≡ some req
    → Unchanged f c (Follower.step f c (message msg))
unfolding Follower.step Follower.handle_message
follower-Unchanged f c msg req e =
    if_rule (Unchanged f c) (asks_for_vote msg.payload && Follower.recently_heard_from_leader f c)
      (λ _. (refl, refl, refl))
      (λ _.
        option_rule (Unchanged f c) (as_pre_vote_request msg.payload)
          (λ a. absurd (ground (arith, e, a))) (λ r _. (refl, refl, refl)))

candidate-Unchanged :
    (k : Candidate.Candidate) (c : Core) (msg : Message) (req : PreVoteRequest)
    → as_pre_vote_request msg.payload ≡ some req
    → Unchanged k c (Candidate.step k c (message msg))
unfolding Candidate.step Candidate.handle_message
candidate-Unchanged k c msg req e =
    if_rule (Unchanged k c) (asks_for_vote msg.payload && Candidate.recently_heard_from_leader k c)
      (λ _. (refl, refl, refl))
      (λ _.
        option_rule (Unchanged k c) (as_pre_vote_request msg.payload)
          (λ a. absurd (ground (arith, e, a))) (λ r _. (refl, refl, refl)))

leader-Unchanged :
    (l : Leader.Leader) (c : Core) (msg : Message) (req : PreVoteRequest)
    → as_pre_vote_request msg.payload ≡ some req
    → Unchanged l c (Leader.step l c (message msg))
unfolding Leader.step Leader.handle_message
leader-Unchanged l c msg req e =
    option_rule (Unchanged l c) (as_pre_vote_request msg.payload)
      (λ a. absurd (ground (arith, e, a))) (λ r _. (refl, refl, refl))

handle-Unchanged :
    (p : PreCandidate.PreCandidate) (c : Core) (msg : Message) (body : Payload)
    (req : PreVoteRequest)
    → as_pre_vote_request body ≡ some req
    → Unchanged p c (PreCandidate.handle p c msg body)
unfolding PreCandidate.handle
handle-Unchanged p c msg (pre_vote_request r) req e = (refl, refl, refl)
handle-Unchanged p c msg _ req e = absurd (ground (arith, e))

-- A pre-candidate first adopts a higher term.
pre_candidate-Unchanged :
    (p : PreCandidate.PreCandidate) (c : Core) (msg : Message) (req : PreVoteRequest)
    → as_pre_vote_request msg.payload ≡ some req
    → msg.term ≤ term_of c
    → Unchanged p c (PreCandidate.step p c (message msg))
unfolding PreCandidate.step PreCandidate.handle_message
pre_candidate-Unchanged p c msg req e h =
    if_rule (Unchanged p c)
      (asks_for_vote msg.payload && PreCandidate.recently_heard_from_leader p c)
      (λ _. (refl, refl, refl))
      (λ _.
        if_rule (Unchanged p c) (ltb (term_of c) msg.term) (λ a. absurd (ground (arith, a, h)))
          (λ _. handle-Unchanged p c msg msg.payload req e))

step_role-Unchanged :
    (role : RoleState) (c : Core) (msg : Message) (req : PreVoteRequest)
    → as_pre_vote_request msg.payload ≡ some req
    → msg.term ≤ term_of c
    → Unchanged role c (step_role role c (message msg))
unfolding step_role
step_role-Unchanged (follower f) c msg req e h =
    let (a, b, t) = follower-Unchanged f c msg req e in (ap follower a, b, t)
step_role-Unchanged (pre_candidate p) c msg req e h =
    let (a, b, t) = pre_candidate-Unchanged p c msg req e h in (ap pre_candidate a, b, t)
step_role-Unchanged (candidate k) c msg req e h =
    let (a, b, t) = candidate-Unchanged k c msg req e in (ap candidate a, b, t)
step_role-Unchanged (leading l) c msg req e h =
    let (a, b, t) = leader-Unchanged l c msg req e in (ap leading a, b, t)

-- A pre-vote request whose term is not above a node's leaves the node, whatever its role, as it
-- is: its term, vote, log, clock and timers.
pub pre_vote_request-unchanged :
    (n : Node) (msg : Message) (req : PreVoteRequest)
    → as_pre_vote_request msg.payload ≡ some req
    → msg.term ≤ term_of n.core
    → (step_event n (message msg)).0 ≡ n
unfolding step_event apply_transition
pre_vote_request-unchanged n msg req e h =
    let s = step_role n.role n.core (message msg) in
    let (a, b, t) = step_role-Unchanged n.role n.core msg req e h in
    ap (λ x. (apply_transition s.1 s.0 x).0) t ∙ ap (λ c. node_of c s.0) b ∙ ap (node_of n.core) a
