-- ===== src/Raft/Leader/Progress.antt =====
-- leader.rs: the leader's state, what it sends to a peer, and what it knows of each.
-- A `BTreeMap` that is only looked up and written is a function.
use basisdb.Base.{
  ℕ, zero, suc, ◌-◌, min, ◌&&◌, Option, none, some, List, [], ◌∷◌, map, ltb, leb, ◌==◌,
  if◌then◌else◌, add64, get_last?,
}
use basisdb.Raft.NodeSet.{NodeId, NodeSet}
use basisdb.Raft.Membership.{Configuration, all_nodes, voter_peers, replication_peers}
use basisdb.Raft.Log.{LogIndex, Term, Entry, Log, last_index, term_at, slice}
use basisdb.Raft.Event.{
  append_request, read_index_request, AppendRequest, Effects, no_effects, with_message,
  with_messages, with_send_snapshot, merge,
}
use basisdb.Raft.Core.{Core, self_id, term_of, log_of, reply, effective_config, config_at}

abbrev pub ProgressMap : Type 0
ProgressMap = NodeId → Option LogIndex

-- `insert`
unfoldable pub put : ProgressMap → NodeId → LogIndex → ProgressMap
put m id i = λ other. if other == id then some i else m other

abbrev pub or_index : Option LogIndex → LogIndex → LogIndex
or_index none d = d
or_index (some i) d = i

-- `get(&id).copied().unwrap_or(0)`
unfoldable pub progress : ProgressMap → NodeId → LogIndex
progress m id = or_index (m id) 0

-- `entry(id).or_insert(i)`
or_insert : ProgressMap → NodeId → LogIndex → ProgressMap
unfolding put
or_insert m id i = elim (m id) [ none ↦ put m id i | some j ↦ m ]

pub record PendingReadIndex : Type 0 where
  pub id : ℕ
  pub read_index : LogIndex
  pub configuration : Configuration
  pub acks : NodeSet

pub record Leader : Type 0 where
  pub next_index : ProgressMap
  pub match_index : ProgressMap
  pub heartbeat_deadline : ℕ
  pub sent_index : ProgressMap
  pub next_read_id : ℕ
  pub pending_read_index : Option PendingReadIndex
  pub confirmed_read_index : LogIndex

-- The loop that gives each node without progress its first entries.
unfoldable pub add_peers : LogIndex → Leader → List NodeId → Leader
unfolding or_insert
add_peers next l [] = l
add_peers next l (id ∷ ids) =
    add_peers next
      (record l {
        next_index = or_insert l.next_index id next;
        match_index = or_insert l.match_index id 0;
        sent_index = or_insert l.sent_index id 0;
      })
      ids

unfoldable pub reinit_progress : Leader → Core → Leader
unfolding add_peers put
reinit_progress l c =
    let last = last_index (log_of c) in
    let l' = add_peers (add64 last 1) l (all_nodes (effective_config c)) in
    if c.config.parallel_disk_write
    then l'
    else record l' { match_index = put l'.match_index (self_id c) last }

-- The entries of a message that begins at `next`.
unfoldable pub sent_entries : Core → LogIndex → List Entry
sent_entries c next =
    slice (log_of c) next
      (min (add64 next c.config.max_entries_per_msg) (add64 (last_index (log_of c)) 1))

-- `entries.last().map_or(next, |entry| entry.index + 1)`
unfoldable pub after_send : LogIndex → List Entry → LogIndex
after_send next es = elim (get_last? es) [ none ↦ next | some e ↦ add64 e.index 1 ]

-- The term before the first entry sent.
previous_term : Log → LogIndex → Term
previous_term log prev =
    if leb prev log.snapshot_index && ltb 0 prev then log.snapshot_term else term_at log prev

unfoldable pub send_append_to : Leader → Core → NodeId → Leader × Effects
unfolding put sent_entries after_send previous_term
send_append_to l c receiver =
    let log = log_of c in
    let next = or_index (l.next_index receiver) 1 in
    let entries = sent_entries c next in
    let sent_up_to = after_send next entries in
    let request : AppendRequest = record {
      prev_log_index = next - 1;
      prev_log_term = previous_term log (next - 1);
      entries = entries;
      leader_commit = c.commit_index;
    } in
    if leb next log.snapshot_index
    then (
      l,
      with_send_snapshot no_effects (record {
        receiver = receiver;
        last_included_index = log.snapshot_index;
        last_included_term = log.snapshot_term;
        configuration = config_at c log.snapshot_index;
      }),
    )
    else (
      if c.config.pipelining && ltb next sent_up_to
          then record l { next_index = put l.next_index receiver sent_up_to }
          else l,
      with_message no_effects (reply c receiver (append_request request)),
    )

-- The fold over the peers; the effects so far come first.
unfoldable pub broadcast_to : Leader → Core → Effects → List NodeId → Leader × Effects
unfolding send_append_to
broadcast_to l c effects [] = (l, effects)
broadcast_to l c effects (peer ∷ peers) =
    let (l', sent) = send_append_to l c peer in broadcast_to l' c (merge effects sent) peers

unfoldable pub broadcast_append : Leader → Core → Leader × Effects
unfolding broadcast_to
broadcast_append l c =
    broadcast_to l c no_effects (replication_peers (effective_config c) (self_id c))

unfoldable pub read_index_requests : Core → PendingReadIndex → Effects
read_index_requests c pending = with_messages no_effects (
    map
      (λ peer.
        reply c peer
          (read_index_request (record { id = pending.id; read_index = pending.read_index })))
      (voter_peers pending.configuration (self_id c)))

-- The loop of `current_term_commit_index`, from an index down.
term_scan : Log → Term → LogIndex → Option LogIndex
term_scan log term zero = none
term_scan log term (suc n) =
    let rest = term_scan log term n in
    if term_at log (suc n) == term
    then some (suc n)
    else if ltb (term_at log (suc n)) term
    then none
    else rest

unfoldable pub current_term_commit_index : Core → Option LogIndex
unfolding term_scan
current_term_commit_index c = term_scan (log_of c) (term_of c) c.commit_index
