-- ===== src/Raft/Core.antt =====
-- consensus/basisdb-raft/src/raft/core.rs: the state that all roles share.
pub mod Advances
use basisdb.Base.{
  ℕ, ◌+◌, ◌-◌, ◌%◌, bit_xor, Bool, true, false, ◌&&◌, ◌||◌, Option, none, some, List, [], ◌∷◌,
  length, ltb, leb, ◌==◌, if◌then◌else◌, add64, sub64, mul64, shl64, shr64, u64_mod,
}
use basisdb.Raft.NodeSet.{NodeId}
use basisdb.Raft.Membership.{
  Configuration, MembershipMode, single_server, simple_config, empty_config, is_voter,
}
use basisdb.Raft.Log
use basisdb.Raft.Log.{
  Term, LogIndex, Command, EntryPayload, command, config, Entry, Log, empty_log, last_index,
  last_term, slice,
}
use basisdb.Raft.Event.{Message, Payload}

pub record Config : Type 0 where
  pub id : NodeId
  -- at least the first, less than the second
  pub election_timeout : ℕ × ℕ
  pub heartbeat_interval : ℕ
  pub max_entries_per_msg : ℕ
  pub max_uncommitted_entries : ℕ
  pub max_uncommitted_bytes : ℕ
  pub membership_mode : MembershipMode
  pub prevote : Bool
  pub parallel_disk_write : Bool
  pub pipelining : Bool

-- `Config::new`
unfoldable pub new_config : NodeId → Config
new_config id = record {
  id = id;
  election_timeout = (150, 300);
  heartbeat_interval = 75;
  max_entries_per_msg = 100;
  max_uncommitted_entries = 1024;
  max_uncommitted_bytes = 67108864;
  membership_mode = single_server;
  prevote = true;
  parallel_disk_write = true;
  pipelining = true;
}

pub record Persistent : Type 0 where
  pub term : Term
  pub voted_for : Option NodeId
  pub log : Log
  pub bootstrap_config : Configuration

-- `Persistent::default`
abbrev pub empty_persistent : Persistent
empty_persistent = record {
  term = 0;
  voted_for = none;
  log = empty_log;
  bootstrap_config = empty_config;
}

pub record Core : Type 0 where
  pub config : Config
  pub persistent : Persistent
  pub commit_index : LogIndex
  pub last_applied : LogIndex
  pub ticks : ℕ
  pub rng : ℕ

unfoldable pub restore : Config → Persistent → Core
restore cfg persistent = record {
  config = cfg;
  persistent = persistent;
  commit_index = 0;
  last_applied = 0;
  ticks = 0;
  rng = add64 (mul64 cfg.id 0x5DEECE66D) 0xB;
}

-- `Core::new`
unfoldable pub new_core : Config → List NodeId → Core
unfolding restore
new_core cfg vs = restore cfg (record empty_persistent { bootstrap_config = simple_config vs })

abbrev pub self_id : Core → NodeId
self_id c = c.config.id

abbrev pub term_of : Core → Term
term_of c = c.persistent.term

abbrev pub log_of : Core → Log
log_of c = c.persistent.log

-- A write through `log_mut`.
abbrev pub with_log : Core → Log → Core
with_log c log = record c { persistent = record c.persistent { log = log } }

-- A message from this node at its term.
abbrev pub reply : Core → NodeId → Payload → Message
reply c receiver payload = record {
  sender = self_id c;
  receiver = receiver;
  term = term_of c;
  payload = payload;
}

-- `total.checked_add(bytes)` over the commands among the entries, and then `bytes`
checked_bytes : ℕ → List Entry → ℕ → Option ℕ
checked_bytes total [] bytes = if ltb (total + bytes) u64_mod then some (total + bytes) else none
checked_bytes total (e ∷ es) bytes =
    let n : ℕ = elim e.payload [ command cmd ↦ length cmd.bytes | config cfg ↦ 0 ] in
    let rest = checked_bytes (total + n) es bytes in if ltb (total + n) u64_mod then rest else none

abbrev passes : ℕ → Option ℕ → Bool
passes limit none = true
passes limit (some bytes) = ltb limit bytes

-- `none` is the failed assertion that the commit index is in the log.
unfoldable pub proposal_limit_exceeded : Core → Command → Option Bool
unfolding checked_bytes
proposal_limit_exceeded c cmd =
    let last = last_index (log_of c) in
    let entries = slice (log_of c) (add64 c.commit_index 1) last in
    if leb c.commit_index last
    then some (
        leb c.config.max_uncommitted_entries (length entries)
        || passes c.config.max_uncommitted_bytes (checked_bytes 0 entries (length cmd.bytes)))
    else none

unfoldable pub maybe_update_term : Core → Term → Core × Bool
maybe_update_term c t =
    if ltb (term_of c) t
    then (record c { persistent = record c.persistent { term = t; voted_for = none } }, true)
    else (c, false)

abbrev unwrap_or : Option Configuration → Configuration → Configuration
unwrap_or none d = d
unwrap_or (some c) d = c

unfoldable pub config_at : Core → LogIndex → Configuration
config_at c index = unwrap_or (Log.config_at (log_of c) index) c.persistent.bootstrap_config

unfoldable pub effective_config : Core → Configuration
unfolding config_at
effective_config c = config_at c (last_index (log_of c))

abbrev some_if : NodeId → Bool → Option NodeId
some_if id true = some id
some_if id false = none

unfoldable pub is_self_voter : Core → Bool
is_self_voter c = is_voter (effective_config c) (self_id c)

unfoldable pub start_election : Core → Core
start_election c = record c {
  persistent = record c.persistent {
    term = add64 (term_of c) 1;
    voted_for = some_if (self_id c) (is_self_voter c);
  };
}

-- The assertion of a debug build is not in a release build.
unfoldable pub vote_for : Core → NodeId → Core
vote_for c id = record c { persistent = record c.persistent { voted_for = some id } }

abbrev free_or_for : Option NodeId → NodeId → Bool
free_or_for none id = true
free_or_for (some v) id = v == id

unfoldable pub can_vote_for : Core → NodeId → Bool
can_vote_for c id = free_or_for c.persistent.voted_for id

-- The pair of term and index is compared in this order.
unfoldable pub log_is_up_to_date : Core → Term → LogIndex → Bool
log_is_up_to_date c t i =
    let ours = last_term (log_of c) in ltb ours t || ours == t && leb (last_index (log_of c)) i

-- xorshift64
unfoldable pub rand : Core → Core × ℕ
rand c =
    let a = bit_xor c.rng (shl64 c.rng 13) in
    let b = bit_xor a (shr64 a 7) in let d = bit_xor b (shl64 b 17) in (record c { rng = d }, d)

-- Rust panics where the range is empty; the division by it is by 0 there.
unfoldable pub random_election_timeout : Core → Core × ℕ
unfolding rand
random_election_timeout c =
    let (low, high) = c.config.election_timeout in
    let (c', r) = rand c in (c', add64 low (r % sub64 high low))

unfoldable pub pending_config_index : Core → Option LogIndex
pending_config_index c = Log.pending_config_index (log_of c) c.commit_index

abbrev is_some : Option LogIndex → Bool
is_some none = false
is_some (some i) = true

unfoldable pub has_pending_config : Core → Bool
unfolding pending_config_index
has_pending_config c = is_some (pending_config_index c)

-- `saturating_sub`, which is the subtraction of the natural numbers
abbrev pub within_timeout : Core → ℕ → Bool
within_timeout c contact = ltb (c.ticks - contact) c.config.election_timeout.0
