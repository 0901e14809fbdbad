-- ===== src/Raft/Membership/Changes.antt =====
-- membership.rs: the quorums before and after a change.
use basisdb.Base.{
  suc, ◌+◌, ◌≤◌, ◌≡◌, refl, ap, Bool, true, ◌&&◌, some, [], ◌∷◌, arith, ok, length, inl, inr, ◌==◌,
  Bool-cases, if◌then◌else◌,
}
use mathlib.Core.Path.{subst}
use basisdb.Raft.NodeSet.{NodeId, NodeSet, contains, collect, count, same, IsOrdered}
use basisdb.Raft.NodeSet.Count.{count-common-le}
use basisdb.Raft.NodeSet.Order.{collect-IsOrdered, same→eq}
use basisdb.Raft.Membership.{
  MembershipMode, single_server, joint_consensus, is_single_server, Configuration, simple, joint,
  majority, has_quorum, transition_target, ConfigChange, add_voter, remove_voter, add_learner,
  remove_learner, set_members, Members, validate, validate_simple, check_set_members, count_outside,
  apply, apply_to, IsOrderedConfig,
}
use basisdb.Raft.Membership.Overlap.{
  Shared, counts-Shared, majorities-Shared, insert-Shared, remove-Shared,
}

-- The votes in a set are at most those in another and the elements outside it.
count-le-common :
    (q : NodeId → Bool) (vs ws : NodeSet)
    → count q ws ≤ count (λ x. contains x vs && q x) ws + count_outside vs ws
unfolding count
count-le-common q vs [] = omega arith
count-le-common q vs (w ∷ ws) = ground (arith, count-le-common q vs ws)

count-outside-le :
    (q : NodeId → Bool) (vs ws : NodeSet)
    → IsOrdered ws
    → count q ws ≤ count q vs + count_outside vs ws
count-outside-le q vs ws o = omega (arith, count-le-common q vs ws, count-common-le q ws vs o)

count-true : (vs : NodeSet) → count (λ _. true) vs ≡ length vs
unfolding count
count-true [] = refl
count-true (v ∷ vs) = ap suc (count-true vs)

length-outside-le : (vs ws : NodeSet) → IsOrdered ws → length ws ≤ length vs + count_outside vs ws
length-outside-le vs ws o =
    omega (arith, count-outside-le (λ _. true) vs ws o, count-true vs, count-true ws)

module _ (p q : NodeId → Bool) where
  -- Two sets that differ in one element at most.
  pub single_change-Shared :
      (vs ws : NodeSet)
      → IsOrdered vs
      → IsOrdered ws
      → count_outside vs ws + count_outside ws vs ≤ 1
      → majority p vs ≡ true
      → majority q ws ≡ true
      → Shared p q
  single_change-Shared vs ws ov ow d hp hq = elim (Bool-cases (count_outside vs ws == 0)) [
    | inl e ↦ counts-Shared p q vs (
        let a : count_outside vs ws ≡ 0 = ground arith in
        ground (arith, count-outside-le q vs ws ow, length-outside-le ws vs ov))
    | inr e ↦ counts-Shared p q ws (
        let a : count_outside ws vs ≡ 0 = ground arith in
        ground (arith, count-outside-le p ws vs ov, length-outside-le vs ws ow))
  ]

  -- What `validate` leaves of a `SetMembers` that it accepts.
  set_members_checked :
      (vs ls ws ms : NodeSet) (mode : MembershipMode)
      → check_set_members vs ls ws ms mode ≡ ok tt
      → is_single_server mode ≡ true
      → count_outside vs ws + count_outside ws vs ≤ 1
  unfolding check_set_members
  set_members_checked vs ls ws ms mode h e = ground arith

  set_members-Shared :
      (m : Members) (vs ls : NodeSet) (mode : MembershipMode)
      → IsOrdered vs
      → validate_simple (set_members m) vs ls mode ≡ ok tt
      → majority p vs ≡ true
      → has_quorum (apply_to (set_members m) vs ls mode) q ≡ true
      → Shared p q
  unfolding validate_simple apply_to has_quorum
  set_members-Shared m vs ls single_server ov h hp hq =
      let ws = collect m.voter_ids in
      single_change-Shared vs ws ov (collect-IsOrdered m.voter_ids)
        (set_members_checked vs ls ws (collect m.learner_ids) single_server h refl) hp hq
  set_members-Shared m vs ls joint_consensus ov h hp hq =
      let ws = collect m.voter_ids in
      elim (Bool-cases (same vs ws)) [
        | inl e ↦
            majorities-Shared p q ws (subst (λ s. majority p s ≡ true) (same→eq vs ws e) hp)
              (rw (e, if◌then◌else◌) at hq)
        | inr ne ↦
            majorities-Shared p q vs hp
              (let hq' = rw (ne, if◌then◌else◌, has_quorum) at hq in ground arith)
      ]

  -- The quorums before and after a change of a simple configuration.
  apply_to-Shared :
      (change : ConfigChange) (vs ls : NodeSet) (mode : MembershipMode)
      → IsOrdered vs
      → validate_simple change vs ls mode ≡ ok tt
      → majority p vs ≡ true
      → has_quorum (apply_to change vs ls mode) q ≡ true
      → Shared p q
  unfolding validate_simple apply_to has_quorum
  apply_to-Shared (add_voter id) vs ls mode ov h hp hq =
      insert-Shared p q id vs (ground arith) hp hq
  apply_to-Shared (remove_voter id) vs ls mode ov h hp hq =
      remove-Shared p q id vs (ground arith) hp hq
  apply_to-Shared (add_learner id) vs ls mode ov h hp hq = majorities-Shared p q vs hp hq
  apply_to-Shared (remove_learner id) vs ls mode ov h hp hq = majorities-Shared p q vs hp hq
  apply_to-Shared (set_members m) vs ls mode ov h hp hq = set_members-Shared m vs ls mode ov h hp hq

-- In either membership mode, a quorum of an ordered configuration before a change that `validate`
-- accepts and a quorum of the configuration that `apply` makes share a node.
pub change_quorums_share :
    (change : ConfigChange) (current : Configuration) (mode : MembershipMode) (p q : NodeId → Bool)
    → IsOrderedConfig current
    → validate change current mode ≡ ok tt
    → has_quorum current p ≡ true
    → has_quorum (apply change current mode) q ≡ true
    → Shared p q
unfolding validate apply has_quorum
change_quorums_share change (simple vs ls) mode p q o h hp hq =
    apply_to-Shared p q change vs ls mode o.0 h hp hq
change_quorums_share change (joint old new ls) mode p q o h hp hq = absurd (ground arith)

-- A quorum of a joint configuration and a quorum of the configuration that completes it share a
-- node.
pub transition_quorums_share :
    (c target : Configuration) (p q : NodeId → Bool)
    → transition_target c ≡ some target
    → has_quorum c p ≡ true
    → has_quorum target q ≡ true
    → Shared p q
unfolding transition_target has_quorum
transition_quorums_share (simple vs ls) target p q e hp hq = absurd (ground arith)
transition_quorums_share (joint old new ls) target p q e hp hq =
    majorities-Shared p q new (ground arith) (ground arith)
