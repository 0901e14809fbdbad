-- ===== src/Raft/Node/Grants.antt =====
-- The votes in the effects of raft/mod.rs.
use basisdb.Base.{
  ◌≡◌, true, some, ℕ, get_elem?, All-get, sym, inl, inr, ◌||◌, false, [], ap, All-append, All-imp,
  if_rule,
}
use mathlib.Core.Path.{subst}
use basisdb.Raft.Event.{
  Message, Event, Transition, stay, to_follower, to_follower_after_contact, to_pre_candidate,
  to_candidate, to_leader, Effects, no_effects, StepResult, merge,
}
use basisdb.Raft.Event.Grants.{grants, NoGrants, NoGrants-merge, NoGrants-Recorded, Recorded, Sound}
use basisdb.Raft.Core.{term_of, Core}
use basisdb.Raft.Core.Advances.{voted_for}
use basisdb.Raft.Follower
use basisdb.Raft.PreCandidate
use basisdb.Raft.PreCandidate.{new_pre_candidate, has_pre_quorum}
use basisdb.Raft.Candidate
use basisdb.Raft.Candidate.{new_candidate, has_vote_quorum}
use basisdb.Raft.Leader
use basisdb.Raft.Leader.{new_leader}
use basisdb.Raft.Follower.Grants
use basisdb.Raft.PreCandidate.Grants.{new_pre_candidate-NoGrants}
use basisdb.Raft.Candidate.Grants.{new_candidate-NoGrants}
use basisdb.Raft.Leader.Grants.{new_leader-NoGrants}
use basisdb.Raft.Node.{
  Node, RoleState, follower, pre_candidate, candidate, leading, step_role, apply_transition,
  step_event, to_candidate_role, to_pre_candidate_role,
}

step_role-Sound :
    (r : RoleState) (c : Core) (e : Event) → Sound (step_role r c e).1 (step_role r c e).2
unfolding step_role
step_role-Sound (follower f) c e = Follower.Grants.step-Sound f c e
step_role-Sound (pre_candidate p) c e = inl (PreCandidate.Grants.step-NoGrants p c e)
step_role-Sound (candidate k) c e = inl (Candidate.Grants.step-NoGrants k c e)
step_role-Sound (leading l) c e = inl (Leader.Grants.step-NoGrants l c e)

to_candidate_role-NoGrants : (c : Core) → NoGrants (to_candidate_role c).1
unfolding to_candidate_role
to_candidate_role-NoGrants c =
    let k = new_candidate c in
    if_rule (λ (s : Node × Effects). NoGrants s.1) (has_vote_quorum k.1 k.0)
      (λ _.
        NoGrants-merge k.2 (new_leader k.0).1 (new_candidate-NoGrants c) (new_leader-NoGrants k.0))
      (λ _. new_candidate-NoGrants c)

to_pre_candidate_role-NoGrants : (c : Core) → NoGrants (to_pre_candidate_role c).1
unfolding to_pre_candidate_role
to_pre_candidate_role-NoGrants c =
    let p = new_pre_candidate c in
    if_rule (λ (s : Node × Effects). NoGrants s.1) (has_pre_quorum p.1 p.0)
      (λ _.
        NoGrants-merge p.2 (to_candidate_role p.0).1 (new_pre_candidate-NoGrants c)
          (to_candidate_role-NoGrants p.0))
      (λ _. new_pre_candidate-NoGrants c)

apply_transition-NoGrants :
    (c : Core) (r : RoleState) (t : Transition) → NoGrants (apply_transition c r t).1
unfolding apply_transition
apply_transition-NoGrants c r stay = tt
apply_transition-NoGrants c r (to_follower l) = tt
apply_transition-NoGrants c r (to_follower_after_contact l) = tt
apply_transition-NoGrants c r to_pre_candidate = to_pre_candidate_role-NoGrants c
apply_transition-NoGrants c r to_candidate = to_candidate_role-NoGrants c
apply_transition-NoGrants c r to_leader = new_leader-NoGrants c

Recorded-merge_none : (c : Core) (e : Effects) → Recorded c e → Recorded c (merge e no_effects)
Recorded-merge_none c e h =
    All-append _ e.messages []
      (All-imp _ _ e.messages
        (λ m kept grant. let k = kept grant in (k.0, k.1, ap (λ b. b || false) k.2)) h)
      tt

-- The effects of a step and of what its transition adds.
Applied : RoleState × Core × StepResult → Type 0
Applied (role, c, r) =
    let (n, more) = apply_transition c role r.transition in Recorded n.core (merge r.effects more)

Sound-Applied : (s : RoleState × Core × StepResult) → Sound s.1 s.2 → Applied s
unfolding Applied apply_transition
Sound-Applied (role, c, r) (inl none_granted) =
    let more = apply_transition c role r.transition in
    NoGrants-Recorded more.0.core (merge r.effects more.1)
      (NoGrants-merge r.effects more.1 none_granted (apply_transition-NoGrants c role r.transition))
Sound-Applied (role, c, r) (inr (stays, recorded)) =
    subst
      (λ t.
        Recorded (apply_transition c role t).0.core (merge r.effects (apply_transition c role t).1))
      (sym stays) (Recorded-merge_none c r.effects recorded)

-- Every message of the effects at once.
pub step_event-Recorded :
    (n : Node) (e : Event) → Recorded (step_event n e).0.core (step_event n e).1
unfolding step_event Applied
step_event-Recorded n e =
    Sound-Applied (step_role n.role n.core e) (step_role-Sound n.role n.core e)

-- Every vote that an event makes a node grant is the vote its core then holds, for the term its
-- core is then in, and the effects order persistence.
pub grant_recorded :
    (n : Node) (e : Event) (i : ℕ) (m : Message)
    → get_elem? (step_event n e).1.messages i ≡ some m
    → grants m.payload ≡ true
    → (voted_for (step_event n e).0.core ≡ some m.receiver)
      × (m.term ≡ term_of (step_event n e).0.core)
      × ((step_event n e).1.persist ≡ true)
grant_recorded n e i m sent =
    All-get _ (step_event n e).1.messages i m (step_event-Recorded n e) sent
