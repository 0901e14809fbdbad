-- ===== src/Raft/Membership.antt =====
-- consensus/basisdb-raft/src/raft/membership.rs: configurations, quorums and configuration changes.
-- A `BTreeSet` is a `NodeSet`; serialisation and `Display` are left out. The proofs are below.
pub mod Overlap
pub mod Changes
use basisdb.Base.{
  ℕ, suc, ◌+◌, ◌/◌, Bool, true, false, not, ◌&&◌, ◌||◌, Option, none, some, List, [], ◌∷◌, ◌++◌,
  map, Result, ok, err, length, filter, is_empty, ltb, ◌==◌, if◌then◌else◌,
}
use basisdb.Raft.NodeSet
use basisdb.Raft.NodeSet.{NodeId, NodeSet, contains, collect, count, same, find, IsOrdered}

pub data MembershipMode : Type 0 where
  single_server joint_consensus : MembershipMode

abbrev pub is_single_server : MembershipMode → Bool
is_single_server single_server = true
is_single_server joint_consensus = false

-- `simple voters learners` and `joint old new learners`
pub data Configuration : Type 0 where
  simple : NodeSet → NodeSet → Configuration
  joint : NodeSet → NodeSet → NodeSet → Configuration

-- `Configuration::simple`
unfoldable pub simple_config : List NodeId → Configuration
simple_config vs = simple (collect vs) []

unfoldable pub simple_with_learners : List NodeId → List NodeId → Configuration
simple_with_learners vs ls = simple (collect vs) (collect ls)

-- `Configuration::joint`
unfoldable pub joint_config : List NodeId → List NodeId → Configuration
joint_config old new = joint (collect old) (collect new) []

unfoldable pub joint_with_learners : List NodeId → List NodeId → List NodeId → Configuration
joint_with_learners old new ls = joint (collect old) (collect new) (collect ls)

-- `Configuration::default`
abbrev pub empty_config : Configuration
empty_config = simple [] []

unfoldable pub voters : Configuration → List NodeId
voters (simple vs ls) = vs
voters (joint old new ls) = old ++ filter (λ id. not (contains id old)) new

unfoldable pub is_voter : Configuration → NodeId → Bool
is_voter (simple vs ls) id = contains id vs
is_voter (joint old new ls) id = contains id old || contains id new

unfoldable pub learners : Configuration → List NodeId
learners (simple vs ls) = ls
learners (joint old new ls) = ls

unfoldable pub is_learner : Configuration → NodeId → Bool
unfolding learners
is_learner c id = contains id (learners c)

unfoldable pub voter_count : Configuration → ℕ
voter_count (simple vs ls) = length vs
voter_count (joint old new ls) = length old + count (λ id. not (contains id old)) new

unfoldable pub voter_peers : Configuration → NodeId → List NodeId
voter_peers c me = filter (λ id. not (id == me)) (voters c)

unfoldable pub all_nodes : Configuration → List NodeId
all_nodes c = voters c ++ learners c

unfoldable pub replication_peers : Configuration → NodeId → List NodeId
replication_peers c me = filter (λ id. not (id == me)) (all_nodes c)

unfoldable pub is_member : Configuration → NodeId → Bool
unfolding is_voter is_learner
is_member c id = is_voter c id || is_learner c id

unfoldable pub is_joint : Configuration → Bool
is_joint (simple vs ls) = false
is_joint (joint old new ls) = true

unfoldable pub quorum_sizes : Configuration → ℕ × Option ℕ
quorum_sizes (simple vs ls) = (length vs / 2 + 1, none)
quorum_sizes (joint old new ls) = (length old / 2 + 1, some (length new / 2 + 1))

-- The votes of one set pass half of it.
abbrev pub majority : (NodeId → Bool) → NodeSet → Bool
majority has_vote vs = ltb (length vs / 2) (count has_vote vs)

unfoldable pub has_quorum : Configuration → (NodeId → Bool) → Bool
has_quorum (simple vs ls) has_vote = majority has_vote vs
has_quorum (joint old new ls) has_vote = majority has_vote old && majority has_vote new

-- The second loop of `voter_membership`; `seen` holds the old voters and the new ones before.
new_members_after : NodeSet → NodeSet → List (NodeId × Bool × Bool)
new_members_after seen [] = []
new_members_after seen (id ∷ ids) =
    let rest = new_members_after (NodeSet.insert id seen) ids in
    if contains id seen then rest else (id, false, true) ∷ rest

unfoldable pub voter_membership : Configuration → List (NodeId × Bool × Bool)
unfolding new_members_after
voter_membership (simple vs ls) = map (λ id. (id, true, true)) vs
voter_membership (joint old new ls) =
    map (λ id. (id, true, contains id new)) old ++ new_members_after old new

unfoldable pub transition_target : Configuration → Option Configuration
transition_target (simple vs ls) = none
transition_target (joint old new ls) = some (simple new ls)

pub data ConfigChangeError : Type 0 where
  change_in_progress would_be_empty no_change not_leader : ConfigChangeError
  already_voter already_learner overlap promote_requires_learner : NodeId → ConfigChangeError
  not_voter not_a_learner : NodeId → ConfigChangeError
  -- id, have, need
  learner_not_caught_up : NodeId → ℕ → ℕ → ConfigChangeError
  -- added, removed
  not_single_change : ℕ → ℕ → ConfigChangeError

pub record Members : Type 0 where
  pub voter_ids : List NodeId
  pub learner_ids : List NodeId

-- The second loop of `Members::new`: an overlap ends it.
add_learners : NodeSet → NodeSet → List NodeId → Result NodeSet ConfigChangeError
add_learners vs set [] = ok set
add_learners vs set (id ∷ ids) =
    let rest = add_learners vs (NodeSet.insert id set) ids in
    if contains id vs then err (overlap id) else rest

abbrev with_voters : NodeSet → Result NodeSet ConfigChangeError → Result Members ConfigChangeError
with_voters vs (ok ls) = ok (record { voter_ids = vs; learner_ids = ls })
with_voters vs (err e) = err e

-- `Members::new`
unfoldable pub new_members : List NodeId → List NodeId → Result Members ConfigChangeError
unfolding add_learners
new_members vs ls = with_voters (collect vs) (add_learners (collect vs) [] ls)

pub data ConfigChange : Type 0 where
  add_voter remove_voter add_learner remove_learner : NodeId → ConfigChange
  set_members : Members → ConfigChange

-- `iter().filter(|id| !other.contains(id)).count()`
abbrev pub count_outside : NodeSet → NodeSet → ℕ
count_outside other vs = count (λ id. not (contains id other)) vs

abbrev pub Checked : Type 0
Checked = Result (Unit {0}) ConfigChangeError

-- The end of the `SetMembers` case: no empty set of voters and no node that is both.
check_new_sets : NodeSet → NodeSet → Checked
check_new_sets new_voters new_learners =
    if is_empty new_voters
    then err would_be_empty
    else elim (find (λ id. contains id new_learners) new_voters) [
      | some id ↦ err (already_voter id)
      | none ↦ ok tt
    ]

check_set_members : NodeSet → NodeSet → NodeSet → NodeSet → MembershipMode → Checked
unfolding check_new_sets
check_set_members vs ls new_voters new_learners mode =
    let added = count_outside vs new_voters in
    let removed = count_outside new_voters vs in
    if same new_voters vs && same new_learners ls
    then err no_change
    else if is_single_server mode && ltb 1 (added + removed)
    then err (not_single_change added removed)
    else check_new_sets new_voters new_learners

-- The cases of `validate` for the voters and learners of a simple configuration.
validate_simple : ConfigChange → NodeSet → NodeSet → MembershipMode → Checked
unfolding check_set_members
validate_simple (add_voter id) vs ls mode =
    if contains id vs
    then err (already_voter id)
    else if not (contains id ls)
    then err (promote_requires_learner id)
    else ok tt
validate_simple (remove_voter id) vs ls mode =
    if not (contains id vs)
    then err (not_voter id)
    else if length vs == 1
    then err would_be_empty
    else ok tt
validate_simple (add_learner id) vs ls mode =
    if contains id vs
    then err (already_voter id)
    else if contains id ls
    then err (already_learner id)
    else ok tt
validate_simple (remove_learner id) vs ls mode =
    if not (contains id ls) then err (not_a_learner id) else ok tt
validate_simple (set_members m) vs ls mode =
    check_set_members vs ls (collect m.voter_ids) (collect m.learner_ids) mode

unfoldable pub validate : ConfigChange → Configuration → MembershipMode → Checked
unfolding validate_simple
validate change (joint old new ls) mode = err change_in_progress
validate change (simple vs ls) mode = validate_simple change vs ls mode

-- `apply` from the voters and learners that it starts with
apply_to : ConfigChange → NodeSet → NodeSet → MembershipMode → Configuration
apply_to (add_voter id) vs ls mode = simple (NodeSet.insert id vs) (NodeSet.remove id ls)
apply_to (remove_voter id) vs ls mode = simple (NodeSet.remove id vs) ls
apply_to (add_learner id) vs ls mode = simple vs (NodeSet.insert id ls)
apply_to (remove_learner id) vs ls mode = simple vs (NodeSet.remove id ls)
apply_to (set_members m) vs ls mode =
    let new_voters = collect m.voter_ids in
    let new_learners = collect m.learner_ids in
    if not (is_single_server mode) && not (same vs new_voters)
    then joint vs new_voters new_learners
    else simple new_voters new_learners

unfoldable pub apply : ConfigChange → Configuration → MembershipMode → Configuration
unfolding apply_to
apply change (simple vs ls) mode = apply_to change vs ls mode
apply change (joint old new ls) mode = apply_to change new ls mode

-- What the code's `BTreeSet`s are by their type.
abbrev pub IsOrderedConfig : Configuration → Type 0
IsOrderedConfig (simple vs ls) = IsOrdered vs × IsOrdered ls
IsOrderedConfig (joint old new ls) = IsOrdered old × IsOrdered new × IsOrdered ls
