-- ===== src/Store/Examples.antt =====
-- The store at a concrete state, with a codec for the one delta that is written.
use basisdb.Base.{ℕ, ◌≡◌, ◌<◌, refl, inl, true, false, Option, some, none, List, [], ◌∷◌, ok, arith}
use basisdb.Raft.Log.{Entry, command, empty_log, last_index}
use basisdb.Raft.Log.Valid.{IsValid, empty_log-IsValid}
use basisdb.Raft.Core.{Persistent, empty_persistent}
use basisdb.Wal.Format.{u32_mod}
use basisdb.Wal.Refinement.{all_records}
use basisdb.Wal.Scan.{encode_all}
use basisdb.Wal.Log.{Wal, Outcomes, default_options}
use basisdb.Store.{
  RaftStore, PersistentDelta, raft_state_kind, delta_of, apply_delta, save, recover,
}
use basisdb.Store.Replay.{apply_delta-delta_of}
use basisdb.Store.Restart.{Matches, Restarts, save-Restarts}

abbrev constant_crc : List ℕ → ℕ
constant_crc bytes = 7

constant_fits : (bytes : List ℕ) → constant_crc bytes < u32_mod
constant_fits bytes = omega arith

abbrev an_entry : Entry
an_entry = record { term = 1; index = 1; payload = command (record { bytes = [] }) }

abbrev next_state : Persistent
next_state = record empty_persistent {
  term = 1;
  log = record empty_log { entries = an_entry ∷ [] };
}

next_state-IsValid : IsValid next_state.log
next_state-IsValid = record { numbered = (refl, tt); fits = omega arith }

abbrev the_delta : PersistentDelta
the_delta = delta_of empty_persistent next_state

abbrev encode : PersistentDelta → Option (List ℕ)
encode delta = some (1 ∷ [])

abbrev decode : List ℕ → Option PersistentDelta
decode bytes = some the_delta

abbrev store : RaftStore
store = record {
  wal = record {
    options = default_options;
    active_id = 0;
    active_len = 0;
    total_len = 0;
    poisoned = false;
    closed = [];
    active = [];
    spare = [];
  };
  kind = record { get = raft_state_kind };
  durable = empty_persistent;
}

abbrev all_well : Outcomes
all_well = record {
  rotate_synced = true;
  opened = true;
  dir_synced = true;
  failed_after = none;
  synced = true;
}

store-Restarts : Restarts constant_crc decode store.kind empty_persistent store.wal empty_persistent
unfolding encode_all all_records recover
store-Restarts = record {
  records = [];
  held = record {
    older = [];
    current = [];
    torn = [];
    records = refl;
    closed_is = refl;
    active_is = refl;
    whole = inl refl;
    len_is = refl;
    id_is = refl;
    spare_empty = tt;
    older_fit = tt;
    current_fit = record { fits = tt; sized = omega arith };
  };
  recovered = refl;
}

matching : Matches empty_persistent next_state
unfolding last_index
matching i h k same = let nothing : i ≡ 0 = omega (arith, h) in rw nothing refl

saved : (save constant_crc encode store all_well true next_state).1 ≡ ok tt
unfolding save basisdb.Wal.Log.append
saved = refl

apply_delta-delta_of_example : apply_delta empty_persistent the_delta ≡ (next_state, ok tt)
apply_delta-delta_of_example =
    apply_delta-delta_of empty_persistent next_state empty_log-IsValid next_state-IsValid refl refl
      refl (omega arith) matching

save-Restarts_example :
    Restarts constant_crc decode store.kind empty_persistent
      (save constant_crc encode store all_well true next_state).0.wal
      next_state
save-Restarts_example =
    save-Restarts constant_crc encode decode constant_fits store all_well true empty_persistent
      next_state store-Restarts (λ e. ground (arith, e)) (omega arith) empty_log-IsValid
      next_state-IsValid refl refl (omega arith) matching (λ bytes h. refl) saved
