-- ===== src/Raft/Examples/Configurations.antt =====
-- A learner that is promoted in a cluster of two voters, and a joint configuration's end.
use basisdb.Base.{◌≡◌, refl, true, some, [], ◌∷◌, arith, Bool, ok}
use basisdb.Raft.NodeSet
use basisdb.Raft.NodeSet.{NodeId, NodeSet, contains, IsAbove, IsOrdered}
use basisdb.Raft.Membership.{
  Configuration, simple, joint, single_server, add_voter, has_quorum, validate, apply,
  transition_target, IsOrderedConfig,
}
use basisdb.Raft.Membership.Overlap.{Shared}
use basisdb.Raft.Membership.Changes.{change_quorums_share, transition_quorums_share}

abbrev two_voters : Configuration
two_voters = simple (1 ∷ 2 ∷ []) (3 ∷ [])

abbrev among : NodeSet → NodeId → Bool
among ids id = contains id ids

one_two-IsAbove : IsAbove 1 (2 ∷ [])
unfolding contains
one_two-IsAbove y h = ground arith

empty-IsAbove : (x : NodeId) → IsAbove x []
unfolding contains
empty-IsAbove x y h = absurd (ground arith)

two_voters-IsOrdered : IsOrderedConfig two_voters
two_voters-IsOrdered = ((one_two-IsAbove, (empty-IsAbove 2, tt)), (empty-IsAbove 3, tt))

promotion_facts :
    (validate (add_voter 3) two_voters single_server ≡ ok tt)
    × (has_quorum two_voters (among (1 ∷ 2 ∷ [])) ≡ true)
    × (has_quorum (apply (add_voter 3) two_voters single_server) (among (2 ∷ 3 ∷ [])) ≡ true)
unfolding validate has_quorum apply contains NodeSet.count NodeSet.insert NodeSet.remove
promotion_facts = (refl, refl, refl)

change_quorums_share_example : Shared (among (1 ∷ 2 ∷ [])) (among (2 ∷ 3 ∷ []))
change_quorums_share_example =
    change_quorums_share (add_voter 3) two_voters single_server (among (1 ∷ 2 ∷ []))
      (among (2 ∷ 3 ∷ [])) two_voters-IsOrdered promotion_facts.0 promotion_facts.1
      promotion_facts.2

abbrev pub two_to_three : Configuration
two_to_three = joint (1 ∷ 2 ∷ []) (1 ∷ 2 ∷ 3 ∷ []) []

abbrev three_voters : Configuration
three_voters = simple (1 ∷ 2 ∷ 3 ∷ []) []

transition_facts :
    (transition_target two_to_three ≡ some three_voters)
    × (has_quorum two_to_three (among (1 ∷ 2 ∷ [])) ≡ true)
    × (has_quorum three_voters (among (2 ∷ 3 ∷ [])) ≡ true)
unfolding transition_target has_quorum contains NodeSet.count
transition_facts = (refl, refl, refl)

transition_quorums_share_example : Shared (among (1 ∷ 2 ∷ [])) (among (2 ∷ 3 ∷ []))
transition_quorums_share_example =
    transition_quorums_share two_to_three three_voters (among (1 ∷ 2 ∷ [])) (among (2 ∷ 3 ∷ []))
      transition_facts.0 transition_facts.1 transition_facts.2
