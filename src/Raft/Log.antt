-- ===== src/Raft/Log.antt =====
-- consensus/basisdb-raft/src/raft/log.rs: the replicated log. `usize` and `u64` have the same
-- width, so `usize::try_from` succeeds. The proofs are below.
pub mod Valid
pub mod View
use basisdb.Base.{
  ℕ, zero, suc, ◌+◌, ◌-◌, ◌≤◌, ◌<◌, ◌≡◌, min, max, Bool, true, false, ◌&&◌, ◌||◌, Option, none,
  some, List, [], ◌∷◌, ◌++◌, length, get_elem?, take, drop, get_last?, is_empty, ltb, leb, ◌==◌,
  if◌then◌else◌, add64,
}
use basisdb.Raft.Membership.{Configuration}

-- `Term`, `LogIndex` and `Command(Vec<u8>)` of lib.rs
abbrev pub Term : Type 0
Term = ℕ

abbrev pub LogIndex : Type 0
LogIndex = ℕ

pub record Command : Type 0 where
  pub bytes : List ℕ

pub data EntryPayload : Type 0 where
  command : Command → EntryPayload
  config : Configuration → EntryPayload

abbrev pub is_config : EntryPayload → Bool
is_config (command c) = false
is_config (config c) = true

abbrev pub as_config : EntryPayload → Option Configuration
as_config (command c) = none
as_config (config c) = some c

pub record Entry : Type 0 where
  pub term : Term
  pub index : LogIndex
  pub payload : EntryPayload

pub record Log : Type 0 where
  pub entries : List Entry
  pub snapshot_index : LogIndex
  pub snapshot_term : Term
  pub snapshot_config : Option Configuration

-- `Log::default`
abbrev pub empty_log : Log
empty_log = record { entries = []; snapshot_index = 0; snapshot_term = 0; snapshot_config = none }

unfoldable pub first_index : Log → LogIndex
first_index log = add64 log.snapshot_index 1

abbrev pub index_or : LogIndex → Option Entry → LogIndex
index_or d none = d
index_or d (some e) = e.index

abbrev pub term_or : Term → Option Entry → Term
term_or d none = d
term_or d (some e) = e.term

unfoldable pub last_index : Log → LogIndex
last_index log = index_or log.snapshot_index (get_last? log.entries)

unfoldable pub last_term : Log → Term
last_term log = term_or log.snapshot_term (get_last? log.entries)

-- The test comes first, so the subtraction is exact.
unfoldable pub to_vec_index : Log → LogIndex → Option ℕ
to_vec_index log index =
    if leb index log.snapshot_index then none else some (index - log.snapshot_index - 1)

-- `self.to_vec_index(index).and_then(|i| self.entries.get(i))`
abbrev entry_at : Log → Option ℕ → Option Entry
entry_at log none = none
entry_at log (some i) = get_elem? log.entries i

unfoldable pub term_at : Log → LogIndex → Term
unfolding to_vec_index
term_at log index =
    if index == 0 || ltb index log.snapshot_index
    then 0
    else if index == log.snapshot_index
    then log.snapshot_term
    else term_or 0 (entry_at log (to_vec_index log index))

unfoldable pub get : Log → LogIndex → Option Entry
unfolding to_vec_index
get log index =
    if index == 0 || leb index log.snapshot_index
    then none
    else entry_at log (to_vec_index log index)

-- The assertion of a debug build, that the index is the next one, is not in a release build.
unfoldable pub append : Log → Entry → Log
append log entry = record log { entries = log.entries ++ entry ∷ [] }

abbrev truncate_at : Log → Option ℕ → Log
truncate_at log none = log
truncate_at log (some i) = record log { entries = take (i + 1) log.entries }

unfoldable pub truncate_after : Log → LogIndex → Log
unfolding to_vec_index
truncate_after log index =
    if leb index log.snapshot_index
    then record log { entries = [] }
    else truncate_at log (to_vec_index log index)

-- `iter().rev().find_map(..)`: the configuration of the last entry that has one
unfoldable pub last_config : List Entry → Option Configuration
last_config [] = none
last_config (e ∷ es) = elim (last_config es) [ some c ↦ some c | none ↦ as_config e.payload ]

abbrev end_vec_index : Log → Option ℕ → ℕ
end_vec_index log none = length log.entries
end_vec_index log (some i) = min (i + 1) (length log.entries)

abbrev pub or_else : Option Configuration → Option Configuration → Option Configuration
or_else none d = d
or_else (some c) d = some c

unfoldable pub config_at : Log → LogIndex → Option Configuration
unfolding to_vec_index last_config
config_at log index =
    if leb index log.snapshot_index
    then log.snapshot_config
    else or_else (last_config (take (end_vec_index log (to_vec_index log index)) log.entries))
        log.snapshot_config

unfoldable pub truncate_prefix : Log → LogIndex → Term → Log
unfolding config_at
truncate_prefix log index term =
    let count = index - log.snapshot_index in
    if leb index log.snapshot_index then log else record {
      entries = if leb (length log.entries) count then [] else drop count log.entries;
      snapshot_index = index;
      snapshot_term = term;
      snapshot_config = config_at log index;
    }

unfoldable pub snapshot_matches_prefix : Log → LogIndex → Term → Bool
unfolding term_at
snapshot_matches_prefix log index term = ltb log.snapshot_index index && term_at log index == term

-- `install_snapshot` without its last assignment
kept_suffix : Log → LogIndex → Term → Log
unfolding truncate_prefix term_at
kept_suffix log index term =
    if ltb log.snapshot_index index && term_at log index == term
    then truncate_prefix log index term
    else record log { entries = []; snapshot_index = index; snapshot_term = term }

unfoldable pub install_snapshot : Log → LogIndex → Term → Configuration → Log
unfolding kept_suffix
install_snapshot log index term c =
    let kept = kept_suffix log index term in record kept { snapshot_config = some c }

-- `&entries[s..e]`
abbrev pub sub_list : List Entry → ℕ → ℕ → List Entry
sub_list es s e = take (e - s) (drop s es)

abbrev slice_end : Log → Option ℕ → ℕ
slice_end log none = length log.entries
slice_end log (some i) = i + 1

-- The end of `slice`, from the position of its first entry.
abbrev slice_from : Log → LogIndex → Option ℕ → List Entry
slice_from log last none = []
slice_from log last (some s) =
    let e = slice_end log (to_vec_index log (min last (last_index log))) in
    if leb (length log.entries) s || leb e s then [] else sub_list log.entries s e

unfoldable pub slice : Log → LogIndex → LogIndex → List Entry
unfolding to_vec_index last_index
slice log start last =
    let actual_start = max start (add64 log.snapshot_index 1) in
    if ltb last actual_start || is_empty log.entries
    then []
    else slice_from log last (to_vec_index log actual_start)

-- The index of the last configuration entry above `commit`.
last_config_index : LogIndex → List Entry → Option LogIndex
last_config_index commit [] = none
last_config_index commit (e ∷ es) = elim (last_config_index commit es) [
  | some i ↦ some i
  | none ↦ if is_config e.payload && ltb commit e.index then some e.index else none
]

unfoldable pub pending_config_index : Log → LogIndex → Option LogIndex
unfolding last_config_index
pending_config_index log commit = last_config_index commit log.entries
