-- ===== src/Raft/Examples/Reads.antt =====
-- A read that the second of three voters confirms.
use basisdb.Base.{◌<◌, ◌≡◌, refl, [], ◌∷◌, arith, some}
use basisdb.Raft.NodeSet
use basisdb.Raft.NodeSet.{contains, insert}
use basisdb.Raft.Membership.{simple, is_voter, has_quorum}
use basisdb.Raft.Event.{ReadIndexResponse}
use basisdb.Raft.Leader.{Leader, PendingReadIndex, handle_read_index_response, confirm_read}
use basisdb.Raft.Leader.Reads.{Completes, handle_read_index_response-Completes}
use basisdb.Raft.Examples.Replication.{leader_of_three}

abbrev waiting : PendingReadIndex
waiting = record {
  id = 1;
  read_index = 2;
  configuration = simple (1 ∷ 2 ∷ 3 ∷ []) [];
  acks = 1 ∷ [];
}

abbrev reading_leader : Leader
reading_leader = record leader_of_three { pending_read_index = some waiting }

abbrev confirmation : ReadIndexResponse
confirmation = record { id = 1; read_index = 2 }

confirmed_two : (handle_read_index_response reading_leader 2 confirmation).confirmed_read_index ≡ 2
unfolding handle_read_index_response confirm_read is_voter has_quorum contains insert NodeSet.count
confirmed_two = refl

confirmed_more :
    reading_leader.confirmed_read_index
    < (handle_read_index_response reading_leader 2 confirmation).confirmed_read_index
confirmed_more = omega (arith, confirmed_two)

handle_read_index_response-Completes_example :
    (p : PendingReadIndex) × Completes reading_leader 2 confirmation p
    × ((handle_read_index_response reading_leader 2 confirmation).confirmed_read_index
        ≡ p.read_index)
handle_read_index_response-Completes_example =
    handle_read_index_response-Completes reading_leader 2 confirmation confirmed_more
