-- ===== src/Raft/Leader/Reads.antt =====
-- leader.rs, `handle_read_index_response`: when a read is confirmed.
use basisdb.Base.{◌<◌, ◌≡◌, true, some, arith, option_rule}
use basisdb.Raft.NodeSet.{NodeId, contains, insert}
use basisdb.Raft.Membership.{is_voter, has_quorum}
use basisdb.Raft.Event.{ReadIndexResponse}
use basisdb.Raft.Leader.{Leader, PendingReadIndex, handle_read_index_response, confirm_read}

-- The round that a response completes: the one that is pending, by its number and its index, whose
-- voters that answered, this one included, are a quorum of its configuration.
pub record Completes (l : Leader) (from : NodeId) (resp : ReadIndexResponse) (p : PendingReadIndex)
    : Type 0 where
  pub pending : l.pending_read_index ≡ some p
  pub same_id : p.id ≡ resp.id
  pub same_index : p.read_index ≡ resp.read_index
  pub voter : is_voter p.configuration from ≡ true
  pub quorum : has_quorum p.configuration (λ v. contains v (insert from p.acks)) ≡ true

confirm_read-Completes :
    (l : Leader) (p : PendingReadIndex) (from : NodeId) (resp : ReadIndexResponse)
    → l.pending_read_index ≡ some p
    → l.confirmed_read_index < (confirm_read l p from resp).confirmed_read_index
    → Completes l from resp p × ((confirm_read l p from resp).confirmed_read_index ≡ p.read_index)
unfolding confirm_read
confirm_read-Completes l p from resp e h = (
  record {
    pending = e;
    same_id = ground (arith, h);
    same_index = ground (arith, h);
    voter = ground (arith, h);
    quorum = ground (arith, h);
  },
  ground (arith, h),
)

-- A response that raises a leader's confirmed read index answers the pending round, by its number
-- and its index, comes from a voter of the round's configuration, and makes the nodes that
-- answered a quorum of it; the confirmed index is then the round's.
pub handle_read_index_response-Completes :
    (l : Leader) (from : NodeId) (resp : ReadIndexResponse)
    → l.confirmed_read_index < (handle_read_index_response l from resp).confirmed_read_index
    → (p : PendingReadIndex) × Completes l from resp p
      × ((handle_read_index_response l from resp).confirmed_read_index ≡ p.read_index)
unfolding handle_read_index_response
handle_read_index_response-Completes l from resp h =
    option_rule
      (λ (next : Leader).
        l.confirmed_read_index < next.confirmed_read_index
        → (p : PendingReadIndex) × Completes l from resp p
          × (next.confirmed_read_index ≡ p.read_index))
      l.pending_read_index (λ _ same. absurd (omega (arith, same)))
      (λ p e moved. let (done, eq) = confirm_read-Completes l p from resp e moved in (p, done, eq))
      h
