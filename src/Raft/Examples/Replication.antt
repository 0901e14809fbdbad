-- ===== src/Raft/Examples/Replication.antt =====
-- A leader of three voters whose second entry a majority has, and a follower that gets entries
-- which replace its own.
use basisdb.Base.{
  get_elem?, inr, ◌≡◌, true, ℕ, ◌+◌, ◌<◌, ◌≤◌, ◌⊎◌, refl, false, none, some, List, [], ◌∷◌, arith,
  u64_mod, ◌==◌, if◌then◌else◌, Bool,
}
use basisdb.Raft.NodeSet
use basisdb.Raft.NodeSet.{NodeId, contains}
use basisdb.Raft.Membership
use basisdb.Raft.Membership.{has_quorum, simple}
use basisdb.Raft.Log
use basisdb.Raft.Log.{get, term_at, Entry, Log, LogIndex, last_index}
use basisdb.Raft.Event.{StepResult, Event, AppendRequest}
use basisdb.Raft.Core.{Core, new_config, log_of, effective_config}
use basisdb.Raft.Follower.{Follower, handle_append_request, mismatches}
use basisdb.Raft.Follower.Accept.{
  term_at-handle_append_request, get-handle_append_request, handle_append_request-IsGood,
  handle_append_request-persists, IsGood, IsRequest,
}
use basisdb.Raft.Leader.{
  Leader, ProgressMap, advance_commit_index, is_committable, progress, step, propose,
  propose_config_change,
}
use basisdb.Raft.Leader.AppendOnly.{Extends, leader_append_only}
use basisdb.Raft.Leader.CommitIndex.{
  advance_commit_index-Commits, advance_commit_index-misses_none, Commits, commit_reaches_quorums,
}
use basisdb.Raft.Examples.Logs.{entry_of}

abbrev two_entries : Log
two_entries = record {
  entries = entry_of 1 1 ∷ entry_of 1 2 ∷ [];
  snapshot_index = 0;
  snapshot_term = 0;
  snapshot_config = none;
}

abbrev pub leader_core : Core
leader_core = record {
  config = new_config 1;
  persistent = record {
    term = 1;
    voted_for = some 1;
    log = two_entries;
    bootstrap_config = simple (1 ∷ 2 ∷ 3 ∷ []) [];
  };
  commit_index = 0;
  last_applied = 0;
  ticks = 9;
  rng = 5;
}

-- Nodes 1 and 2 have both entries, node 3 has none.
abbrev known_progress : ProgressMap
known_progress id = if id == 3 then some 0 else some 2

abbrev pub leader_of_three : Leader
leader_of_three = record {
  next_index = known_progress;
  match_index = known_progress;
  heartbeat_deadline = 84;
  sent_index = known_progress;
  next_read_id = 1;
  pending_read_index = none;
  confirmed_read_index = 0;
}

leader_append_only_example :
    ((e : Event) → Extends two_entries (log_of (step leader_of_three leader_core e).1))
    × ((cmd : Log.Command)
        → Extends two_entries (log_of (propose leader_of_three leader_core cmd).1))
    × ((change : Membership.ConfigChange)
        → Extends two_entries (log_of (propose_config_change leader_of_three leader_core change).1))
leader_append_only_example = leader_append_only leader_of_three leader_core

advance_commit_index-Commits_example :
    ((advance_commit_index leader_of_three leader_core).commit_index ≡ 0)
    ⊎ Commits leader_of_three leader_core
        (advance_commit_index leader_of_three leader_core).commit_index
advance_commit_index-Commits_example =
    advance_commit_index-Commits leader_of_three leader_core (omega arith)

-- Nodes 1 and 2 have the first entry only, and node 3 has none.
abbrev lagging_leader : Leader
lagging_leader = record leader_of_three { match_index = λ id. if id == 3 then some 0 else some 1 }

lagging_facts :
    ((advance_commit_index lagging_leader leader_core).commit_index ≡ 1)
    × (last_index two_entries ≡ 2)
unfolding advance_commit_index is_committable has_quorum effective_config Log.config_at contains
    NodeSet.count progress last_index basisdb.Base.add64 Log.term_at
lagging_facts = (refl, refl)

lagging_commit : (advance_commit_index lagging_leader leader_core).commit_index < 2
lagging_commit = omega (arith, lagging_facts.0)

abbrev last_two : NodeId → Bool
last_two id = contains id (2 ∷ 3 ∷ [])

commit_facts :
    ((advance_commit_index leader_of_three leader_core).commit_index ≡ 2)
    × (has_quorum (effective_config leader_core) last_two ≡ true)
unfolding advance_commit_index is_committable has_quorum effective_config Log.config_at contains
    NodeSet.count progress last_index basisdb.Base.add64 Log.term_at
commit_facts = (refl, refl)

commit_moves :
    leader_core.commit_index < (advance_commit_index leader_of_three leader_core).commit_index
commit_moves = omega (arith, commit_facts.0)

advance_commit_index-misses_none_example : is_committable lagging_leader leader_core 2 ≡ false
advance_commit_index-misses_none_example =
    advance_commit_index-misses_none lagging_leader leader_core 2 (omega arith) lagging_commit
      (omega (arith, lagging_facts.1))

commit_reaches_quorums_example :
    (voter : NodeId) × (last_two voter ≡ true)
    × ((advance_commit_index leader_of_three leader_core).commit_index
        ≤ progress leader_of_three.match_index voter)
commit_reaches_quorums_example =
    commit_reaches_quorums leader_of_three leader_core last_two (omega arith) commit_moves
      commit_facts.1

abbrev some_follower : Follower
some_follower = record { leader = none; election_deadline = 200; last_contact_tick = none }

-- Entries of term 2 from index 2 on, after the entry of term 1 at index 1.
abbrev replacement : AppendRequest
replacement = record {
  prev_log_index = 1;
  prev_log_term = 1;
  entries = entry_of 2 2 ∷ entry_of 2 3 ∷ [];
  leader_commit = 1;
}

two_entries-IsGood : IsGood two_entries
two_entries-IsGood = record {
  valid = record { numbered = (refl, (refl, tt)); fits = omega arith };
  terms = (omega arith, (omega arith, tt));
}

replacement-IsRequest : IsRequest replacement
replacement-IsRequest = record {
  numbered = (refl, (refl, tt));
  terms = (omega arith, (omega arith, tt));
  prev_term = inr (omega arith);
  fits = omega arith;
}

replacement_passes : mismatches two_entries replacement ≡ false
unfolding mismatches Log.term_at
replacement_passes = refl

abbrev replaced : Follower × Core × StepResult
replaced = handle_append_request some_follower leader_core 2 replacement

term_at-handle_append_request_example : term_at (log_of replaced.1) (2 + 1) ≡ 2
term_at-handle_append_request_example =
    term_at-handle_append_request some_follower leader_core 2 replacement two_entries-IsGood
      replacement-IsRequest (omega arith) replacement_passes 1 (entry_of 2 3) refl

get-handle_append_request_example : get (log_of replaced.1) 1 ≡ get two_entries 1
get-handle_append_request_example =
    get-handle_append_request some_follower leader_core 2 replacement two_entries-IsGood
      replacement-IsRequest (omega arith) replacement_passes 1 (omega arith)

handle_append_request-IsGood_example : IsGood (log_of replaced.1)
handle_append_request-IsGood_example =
    handle_append_request-IsGood some_follower leader_core 2 replacement two_entries-IsGood
      replacement-IsRequest (omega arith) replacement_passes

handle_append_request-persists_example :
    (replaced.2.effects.persist ≡ true) ⊎ (log_of replaced.1 ≡ two_entries)
handle_append_request-persists_example =
    handle_append_request-persists some_follower leader_core 2 replacement two_entries-IsGood
      replacement-IsRequest (omega arith) replacement_passes
