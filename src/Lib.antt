-- ===== src/Lib.antt =====
-- BasisDB: the Raft library, the write-ahead log, the store of a node and its key-value machine.
--
-- The program. BasisDB replicates a key-value service with a Raft library that does no I/O:
-- a node is a `Core` (configuration, persistent state, commit index, clock, random numbers) and
-- the automaton of its role; an event (a tick, a message, the end of a disk write) takes both to
-- their next state and returns `Effects`, the messages to send and the order to persist. The
-- crates around it carry out the effects: basisdb-node saves the persistent state as deltas on the
-- segmented log of basisdb-wal and applies the committed commands to the key-value machine;
-- basisdb-raft-io has sessions and read index coordination for other users of the library.
--
-- Which file models what. Base holds what the modules share: Boolean tests, `Result`, lists over
-- native numbers, ascending association lists for `BTreeMap` and `HashMap` (Base/Maps), strings as
-- bytes (Base/Texts), and the wrap-around arithmetic of `u64`. Under Raft there is a module for each
-- file of consensus/basisdb-raft/src/raft, and its functions keep their names:
--   Raft/NodeSet: `BTreeSet<NodeId>` as an ascending list; NodeSet/Count and NodeSet/Order hold
--     the lemmas that membership relies on.
--   Raft/Membership: membership.rs, configurations, quorums and their changes; Membership/Overlap
--     and Membership/Changes are about the quorums of one configuration and of two in succession.
--   Raft/Log: log.rs, the replicated log with its snapshot; Log/Valid holds its invariant,
--     Log/View relates `get` and the operations.
--   Raft/Event: event.rs, messages and effects, and the transitions of mod.rs; Event/Grants has
--     the predicates for the votes that effects grant.
--   Raft/Core: core.rs, the state that the roles share; Core/Advances has the relation for its
--     term and vote.
--   Raft/Follower, Raft/PreCandidate, Raft/Candidate, Raft/Leader: follower.rs, precandidate.rs,
--     candidate.rs, leader.rs. The method `step` is split by helpers: `handle_message` begins the
--     branch for a message, `handle_current` continues it after the test for pre-vote requests,
--     and `handle` is the last `match`. Leader/Progress and Leader/Commit hold the replication
--     progress and the commit loop; Leader/CommitIndex, Leader/Fuel, Leader/Reads, Leader/AppendOnly,
--     Follower/Append and Follower/Accept are about single operations, Leader/Rule and
--     Leader/StepRule are the rules for what operations keep. In each role, Advances is about the
--     term and the vote, Grants about the votes sent.
--   Raft/Node: mod.rs, `RaftNode`, which steps the automaton of its role and applies the transition
--     that the step returns; Node/Reach has the calls of a node's interface as a step relation,
--     Node/PreVote is about pre-vote requests.
--   Raft/Examples: the theorems at concrete inputs.
-- The crates around the library:
--   Wal: basisdb-wal/src. Wal/Record is record.rs and error.rs, Wal/Format format.rs, Wal/Segment
--     segment.rs, Wal/Log and Wal/Reader wal.rs. Wal/Bytes is about numbers as bytes, Wal/RoundTrip,
--     Wal/Scan, Wal/Torn, Wal/Total and Wal/Recovery are about reading and recovery, Wal/Refinement
--     and Wal/Append relate a log to the records in it.
--   Store: basisdb-node/src/store.rs, which uses Wal/Log and Raft/Log; Store/Replay is about one
--     delta, Store/Restart about the records of a log.
--   Runtime: basisdb-node/src/runtime.rs, which joins Raft/Node, Store and Kv/Command;
--     Runtime/Persist and Runtime/Applied are about handling effects and committed commands.
--   Kv: basisdb-node/src/command.rs and browse.rs. Kv/Names has names and validation, Kv/Types the
--     commands and the state, Kv/Command their application, Kv/Browse the pages, which Kv/Pages is
--     about, and Kv/Rule a proof rule for `apply`; Kv/Valid, Kv/Etag, Kv/Condition, Kv/Cached,
--     Kv/Settled, Kv/Retry and Kv/Once are about its properties.
--   Io: basisdb-raft-io/src. Io/Session is session.rs, Io/ReadIndex read_index.rs; Io/Once,
--     Io/Rounds and Io/Quorum are about them.
--   Wal/Examples, Store/Examples, Runtime/Examples, Kv/Examples, Io/Examples: the theorems at concrete inputs.
--
-- How state is modelled. `&mut self` and `&mut Core` are passed on and returned. A step returns
-- the role, the core and the `StepResult`. Rust's `u64` arithmetic is that of a release build:
-- `add64`, `sub64`, `mul64` and the shifts wrap at 2 ^ 64 and saturating subtraction is that of
-- the natural numbers. `usize` is taken to be 64 bits wide. `debug_assert!` is not modelled, and
-- theorems that need what it checks say so. A `BTreeMap` that is only looked up and written is a
-- function. A panic is a case of its own where the code asserts (`proposal_limit_exceeded` returns
-- no value there); an empty range of election timeouts, which panics, is a remainder by 0.
--
-- Loops. They are structural recursion on lists or on a number of rounds that the bounds of the
-- range give. The loop of `maybe_commit` is on fuel: each round that goes on moves the commit index
-- over a joint configuration and appends a simple one, so it begins with one more than there are
-- joint configurations above the commit index (Leader/Fuel).
-- `apply_committed` goes as many rounds as there are committed commands when it begins; each round
-- acknowledges the first of them. The scan of a segment (`valid_len`) is on fuel, one more than the file has bytes, which is enough
-- since a record takes at least a header.
--
-- Outside code. The checksum of `crc32fast` is any function into 32 bits, and `serde_json` any pair
-- of functions for which the delta that is written decodes to itself. The directory of a log is the
-- list of its files' bytes; the outcomes of the operating system's calls in an append are arguments.
--
-- Not modelled: printing; the crates for storage traits, protocol, command line and console; in
-- basisdb-node the service, transport, authentication, configuration file, and of the runtime the
-- proposals with their channels and timeouts, its opening and its locks; in basisdb-wal the creation
-- of a directory, its lock, and reads that the operating system fails.
pub mod Base
pub mod Io
pub mod Kv
pub mod Raft
pub mod Runtime
pub mod Store
pub mod Wal
