-- ===== src/Raft/Examples/Logs.antt =====
-- A log of three entries after a snapshot.
use basisdb.Base.{
  ℕ, ◌+◌, ◌≡◌, refl, none, some, [], ◌∷◌, arith, get_elem?, leb, ◌==◌, if◌then◌else◌,
}
use basisdb.Raft.Log.{
  Entry, Log, command, last_index, get, append, truncate_after, truncate_prefix, slice,
}
use basisdb.Raft.Log.Valid.{IsValid}
use basisdb.Raft.Log.View.{get-append, get-truncate_after, get-truncate_prefix, get_elem?-slice}

abbrev pub entry_of : ℕ → ℕ → Entry
entry_of term index = record {
  term = term;
  index = index;
  payload = command (record { bytes = 7 ∷ [] });
}

abbrev three_entries : Log
three_entries = record {
  entries = entry_of 1 5 ∷ entry_of 1 6 ∷ entry_of 2 7 ∷ [];
  snapshot_index = 4;
  snapshot_term = 1;
  snapshot_config = none;
}

three_entries-IsValid : IsValid three_entries
three_entries-IsValid = record { numbered = (refl, (refl, (refl, tt))); fits = omega arith }

last_seven : 8 ≡ last_index three_entries + 1
unfolding last_index
last_seven = refl

get-append_example :
    get (append three_entries (entry_of 2 8)) 8
    ≡ (if 8 == 8 then some (entry_of 2 8) else get three_entries 8)
get-append_example = get-append three_entries (entry_of 2 8) 8 three_entries-IsValid last_seven

get-truncate_after_example :
    get (truncate_after three_entries 5) 6 ≡ (if leb 6 5 then get three_entries 6 else none)
get-truncate_after_example = get-truncate_after three_entries 5 6

get-truncate_prefix_example :
    get (truncate_prefix three_entries 5 1) 6 ≡ (if leb 6 5 then none else get three_entries 6)
get-truncate_prefix_example = get-truncate_prefix three_entries 5 6 1 (omega arith)

get_elem?-slice_example : get_elem? (slice three_entries 5 6) 1 ≡ get three_entries 6
get_elem?-slice_example = get_elem?-slice three_entries 5 6 1 three_entries-IsValid
