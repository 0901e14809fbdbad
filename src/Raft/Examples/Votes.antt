-- ===== src/Raft/Examples/Votes.antt =====
-- A follower that is asked for its vote twice.
use basisdb.Base.{true, ℕ, ◌+◌, ◌<◌, ◌≤◌, ◌≡◌, refl, some, List, [], ◌∷◌, arith, u64_mod, get_elem?}
use basisdb.Raft.NodeSet
use basisdb.Raft.NodeSet.{NodeId}
use basisdb.Raft.NodeSet
use basisdb.Raft.Membership
use basisdb.Raft.Log
use basisdb.Raft.Core
use basisdb.Raft.Follower
use basisdb.Raft.Membership
use basisdb.Raft.Log
use basisdb.Raft.Event.{Event, message, Message, vote_request, vote_response}
use basisdb.Raft.Core
use basisdb.Raft.Core.{new_config, term_of}
use basisdb.Raft.Core.Advances.{voted_for}
use basisdb.Raft.Follower
use basisdb.Raft.Node.{Node, new_node, step_event, step_role}
use basisdb.Raft.Node.Grants.{grant_recorded}
use basisdb.Raft.Node.Reach.{
  one_vote_per_term, Calls, here, next, event, grants_agree, term_monotone,
}

abbrev node_ids : List NodeId
node_ids = 1 ∷ 2 ∷ 3 ∷ []

-- A new follower of three voters.
abbrev node_one : Node
node_one = new_node (new_config 1) node_ids

abbrev candidacy : Event
candidacy = message (record {
  sender = 2;
  receiver = 1;
  term = 1;
  payload = vote_request (record { last_log_index = 0; last_log_term = 0 });
})

abbrev voted_node : Node
voted_node = (step_event node_one candidacy).0

abbrev vote : Message
vote = record {
  sender = 1;
  receiver = 2;
  term = 1;
  payload = vote_response (record { granted = true });
}

abbrev first_role_term : ℕ
first_role_term = term_of (step_role node_one.role node_one.core candidacy).1

abbrev second_role_term : ℕ
second_role_term = term_of (step_role voted_node.role voted_node.core candidacy).1

-- The request is granted, and granted again.
run :
    (get_elem? (step_event node_one candidacy).1.messages 0 ≡ some vote)
    × (get_elem? (step_event voted_node candidacy).1.messages 0 ≡ some vote)
    × (first_role_term ≡ 1)
    × (second_role_term ≡ 1)
    × (term_of (step_event voted_node candidacy).0.core ≡ term_of voted_node.core)
    × (voted_for voted_node.core ≡ some 2)
unfolding step_event step_role new_node Follower.step Follower.new_follower
    Core.random_election_timeout Core.new_core Core.maybe_update_term Membership.is_voter
    Core.effective_config Log.config_at Log.last_index Membership.simple_config NodeSet.contains
    NodeSet.collect Core.can_vote_for Core.log_is_up_to_date Log.last_term new_config
run = (refl, refl, refl, refl, refl, refl)

first_fits : first_role_term + 1 < u64_mod
first_fits = omega (arith, run.2)

second_fits : second_role_term + 1 < u64_mod
second_fits = omega (arith, run.3)

grants_agree_example : vote.receiver ≡ vote.receiver
grants_agree_example =
    grants_agree node_one voted_node candidacy candidacy 0 0 vote vote here second_fits run.0 run.1
      refl refl refl

abbrev voting_twice : Calls node_one (step_event voted_node candidacy).0
voting_twice = next (next here (event candidacy first_fits)) (event candidacy second_fits)

one_vote_per_term_example : voted_for (step_event voted_node candidacy).0.core ≡ some 2
one_vote_per_term_example =
    one_vote_per_term 2 (next here (event candidacy second_fits)) run.4 run.5

term_monotone_example : term_of node_one.core ≤ term_of (step_event voted_node candidacy).0.core
term_monotone_example = term_monotone voting_twice

grant_recorded_example :
    (voted_for voted_node.core ≡ some 2)
    × (1 ≡ term_of voted_node.core)
    × ((step_event node_one candidacy).1.persist ≡ true)
grant_recorded_example = grant_recorded node_one candidacy 0 vote run.0 refl
