-- ===== src/Runtime/Examples.antt =====
-- The runtime at a concrete state: a node with two committed commands.
use basisdb.Base.{ℕ, ◌≡◌, refl, true, false, Option, some, none, List, [], ◌∷◌, arith}
use basisdb.Raft.Log.{Entry, command, empty_log}
use basisdb.Raft.Event.{no_effects, with_persist}
use basisdb.Raft.Core.{new_config, empty_persistent}
use basisdb.Raft.Node.{Node, committed, new_node}
use basisdb.Wal.Log.{Outcomes, default_options}
use basisdb.Store.{PersistentDelta, raft_state_kind}
use basisdb.Kv.Command.{KvCommand, new_state, register_session}
use basisdb.Runtime.{Runtime, apply_committed, handle_effects}
use basisdb.Runtime.Applied.{IsSound, apply_all, apply_committed-all}
use basisdb.Runtime.Persist.{IsSafe, handle_effects-IsSafe}

abbrev entry_at : ℕ → Entry
entry_at index = record {
  term = 1;
  index = index;
  payload = command (record { bytes = index ∷ [] });
}

abbrev fresh : Node
fresh = new_node (new_config 1) (1 ∷ 2 ∷ 3 ∷ [])

abbrev a_node : Node
a_node = record fresh {
  core = record fresh.core {
    persistent = record empty_persistent {
      term = 1;
      log = record empty_log { entries = entry_at 1 ∷ entry_at 2 ∷ [] };
    };
    commit_index = 2;
    last_applied = 0;
  };
}

a_node-IsSound : IsSound a_node
a_node-IsSound = record {
  log_is = record { numbered = (refl, (refl, tt)); fits = omega arith };
  applied_le = omega arith;
  fits = omega arith;
}

abbrev a_runtime : Runtime
a_runtime = record {
  node_id = 1;
  peers = (1, 71) ∷ (2, 72) ∷ (3, 73) ∷ [];
  node = a_node;
  store = record {
    wal = record {
      options = default_options;
      active_id = 0;
      active_len = 0;
      total_len = 0;
      poisoned = false;
      closed = [];
      active = [];
      spare = [];
    };
    kind = record { get = raft_state_kind };
    durable = empty_persistent;
  };
  state = new_state;
  waiters = [];
  failed = false;
  sent = [];
  answered = [];
}

abbrev decode_command : List ℕ → Option KvCommand
decode_command bytes = some register_session

apply_committed-all_example :
    (committed (apply_committed decode_command a_runtime).node ≡ [])
    × ((apply_committed decode_command a_runtime).state
        ≡ apply_all decode_command a_runtime.state (committed a_runtime.node))
apply_committed-all_example = apply_committed-all decode_command a_runtime a_node-IsSound

abbrev constant_crc : List ℕ → ℕ
constant_crc bytes = 7

abbrev encode : PersistentDelta → Option (List ℕ)
encode delta = some (1 ∷ [])

abbrev all_well : Outcomes
all_well = record {
  rotate_synced = true;
  opened = true;
  dir_synced = true;
  failed_after = none;
  synced = true;
}

handle_effects-IsSafe_example :
    IsSafe decode_command a_runtime
      (handle_effects decode_command constant_crc encode a_runtime all_well true
        (with_persist no_effects)).0
handle_effects-IsSafe_example =
    handle_effects-IsSafe decode_command constant_crc encode a_runtime all_well true
      (with_persist no_effects) refl
