-- ===== src/Io/ReadIndex.antt =====
-- basisdb-raft-io/src/read_index.rs: reads that wait for a round of heartbeats. The map of pending
-- reads is in the order of their ids, in which they were requested.
use basisdb.Base.{
  ℕ, ◌+◌, ◌/◌, Bool, false, not, ◌&&◌, ◌||◌, List, [], ◌∷◌, ◌++◌, map, filter, length, is_empty,
  leb, ◌==◌, if◌then◌else◌, Map, put_key, remove_key, number_keyed, add64,
}

pub record PendingRead : Type 0 where
  pub read_index : ℕ
  pub round : ℕ

pub record ReadIndexResult : Type 0 where
  pub id : ℕ
  pub read_index : ℕ

pub record ReadIndexCoordinator : Type 0 where
  pub voters : List ℕ
  pub me : ℕ
  pub next_read_id : ℕ
  pub current_round : ℕ
  pub round_acks : List ℕ
  pub pending : Map ℕ PendingRead
  pub completed : List ReadIndexResult

abbrev pub new_coordinator : ℕ → List ℕ → ReadIndexCoordinator
new_coordinator me voters = record {
  voters = voters;
  me = me;
  next_read_id = 0;
  current_round = 0;
  round_acks = [];
  pending = [];
  completed = [];
}

-- `contains`
unfoldable pub contains : List ℕ → ℕ → Bool
contains [] n = false
contains (m ∷ ns) n = (m == n) || contains ns n

unfoldable pub request_read : ReadIndexCoordinator → ℕ → ReadIndexCoordinator × ℕ
unfolding add64
request_read c read_index = (
  record c {
    next_read_id = add64 c.next_read_id 1;
    pending =
        put_key c.next_read_id (record { read_index = read_index; round = c.current_round })
          c.pending;
  },
  c.next_read_id,
)

-- The filter of `check_quorum`.
abbrev pub is_due : ℕ → ℕ × PendingRead → Bool
is_due current entry = leb entry.1.round current

abbrev pub result_of : ℕ × PendingRead → ReadIndexResult
result_of entry = record { id = entry.0; read_index = entry.1.read_index }

-- The loop of `check_quorum` over `to_complete`.
unfoldable pub complete_reads : List (ℕ × PendingRead) → ReadIndexCoordinator → ReadIndexCoordinator
complete_reads [] c = c
complete_reads (entry ∷ entries) c = complete_reads entries (record c {
  pending = remove_key entry.0 c.pending;
  completed = c.completed ++ result_of entry ∷ [];
})

unfoldable pub check_quorum : ReadIndexCoordinator → ReadIndexCoordinator
unfolding complete_reads
check_quorum c =
    let quorum = length c.voters / 2 + 1 in
    if leb quorum (length c.round_acks)
    then complete_reads (filter (is_due c.current_round) c.pending) c
    else c

-- The loop of `begin_heartbeat_round` over the pending reads.
abbrev pub in_round : ℕ → ℕ × PendingRead → ℕ × PendingRead
in_round round entry = (entry.0, record { read_index = entry.1.read_index; round = round })

unfoldable pub begin_heartbeat_round : ReadIndexCoordinator → ReadIndexCoordinator
unfolding add64 check_quorum
begin_heartbeat_round c =
    let round = add64 c.current_round 1 in
    check_quorum (record c {
      current_round = round;
      round_acks = c.me ∷ [];
      pending = map (in_round round) c.pending;
    })

unfoldable pub record_ack : ReadIndexCoordinator → ℕ → ReadIndexCoordinator
unfolding contains check_quorum
record_ack c from =
    if not (contains c.round_acks from) && contains c.voters from
    then check_quorum (record c { round_acks = c.round_acks ++ from ∷ [] })
    else c

-- `poll_completed`, drained
abbrev pub poll_completed : ReadIndexCoordinator → ReadIndexCoordinator × List ReadIndexResult
poll_completed c = (record c { completed = [] }, c.completed)

abbrev pub pending_count : ReadIndexCoordinator → ℕ
pending_count c = length c.pending

abbrev pub has_pending : ReadIndexCoordinator → Bool
has_pending c = not (is_empty c.pending)

unfoldable pub clear : ReadIndexCoordinator → ReadIndexCoordinator × ℕ
clear c = (record c { pending = []; round_acks = [] }, length c.pending)
