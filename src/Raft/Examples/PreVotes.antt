-- ===== src/Raft/Examples/PreVotes.antt =====
-- A new follower that is asked for a pre-vote.
use basisdb.Base.{◌≡◌, refl, arith, [], ◌∷◌}
use basisdb.Raft.Event.{message, Message, pre_vote_request, PreVoteRequest}
use basisdb.Raft.Core
use basisdb.Raft.Core.{term_of, new_config}
use basisdb.Raft.Follower
use basisdb.Raft.Node.{Node, new_node, step_event}
use basisdb.Raft.Node.PreVote.{pre_vote_request-unchanged}

abbrev asked_node : Node
asked_node = new_node (new_config 1) (1 ∷ 2 ∷ 3 ∷ [])

abbrev pre_vote : PreVoteRequest
pre_vote = record { next_term = 1; last_log_index = 0; last_log_term = 0 }

abbrev pre_vote_message : Message
pre_vote_message = record {
  sender = 2;
  receiver = 1;
  term = 0;
  payload = pre_vote_request pre_vote;
}

asked_term : term_of asked_node.core ≡ 0
unfolding new_node Core.new_core Follower.new_follower Core.random_election_timeout
asked_term = refl

pre_vote_request-unchanged_example :
    (step_event asked_node (message pre_vote_message)).0 ≡ asked_node
pre_vote_request-unchanged_example =
    pre_vote_request-unchanged asked_node pre_vote_message pre_vote refl (omega (arith, asked_term))
