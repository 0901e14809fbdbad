-- ===== src/Raft/Node.antt =====
-- consensus/basisdb-raft/src/raft/mod.rs: the node, which drives the automaton of its role.
pub mod Advances
pub mod Reach
pub mod PreVote
pub mod Grants
use basisdb.Base.{
  ℕ, zero, suc, ◌+◌, ◌-◌, Bool, true, false, Option, none, some, List, [], ◌∷◌, ◌++◌, Result, ok,
  err, add64, if◌then◌else◌,
}
use basisdb.Raft.NodeSet.{NodeId}
use basisdb.Raft.Membership.{ConfigChange, ConfigChangeError}
use basisdb.Raft.Membership
use basisdb.Raft.Log.{LogIndex, Term, Command, EntryPayload, command, config, Entry, Log, get}
use basisdb.Raft.Event.{
  Event, tick, message, disk_write_complete, Message, Effects, no_effects, merge, Transition, stay,
  to_pre_candidate, to_candidate, to_leader, to_follower, to_follower_after_contact, StepResult,
}
use basisdb.Raft.Core.{
  Config, Persistent, Core, self_id, log_of, new_core, restore, proposal_limit_exceeded,
}
use basisdb.Raft.Follower
use basisdb.Raft.Follower.{Follower, new_follower, after_leader_contact}
use basisdb.Raft.PreCandidate
use basisdb.Raft.PreCandidate.{PreCandidate, new_pre_candidate, has_pre_quorum}
use basisdb.Raft.Candidate
use basisdb.Raft.Candidate.{Candidate, new_candidate, has_vote_quorum}
use basisdb.Raft.Leader
use basisdb.Raft.Leader.{Leader, new_leader, ReadIndexError, TransferError, Proposed}

pub data RoleState : Type 0 where
  follower : Follower → RoleState
  pre_candidate : PreCandidate → RoleState
  candidate : Candidate → RoleState
  leading : Leader → RoleState

abbrev pub is_leader : RoleState → Bool
is_leader (leading l) = true
is_leader _ = false

-- `RaftNode`
pub record Node : Type 0 where
  pub core : Core
  pub role : RoleState

-- A node as a new follower, as `new` and `restore` end.
abbrev starting : Core → Node
starting c = let (c', f) = new_follower c none in record { core = c'; role = follower f }

-- `RaftNode::new`
unfoldable pub new_node : Config → List NodeId → Node
new_node cfg vs = starting (new_core cfg vs)

-- `RaftNode::restore`
unfoldable pub restore_node : Config → Persistent → Node
restore_node cfg persistent = starting (restore cfg persistent)

abbrev role_leader : Core → RoleState → Option NodeId
role_leader c (leading l) = some (self_id c)
role_leader c (follower f) = f.leader
role_leader c (pre_candidate p) = none
role_leader c (candidate k) = none

unfoldable pub known_leader : Node → Option NodeId
known_leader n = role_leader n.core n.role

abbrev role_deadline : RoleState → ℕ
role_deadline (follower f) = f.election_deadline
role_deadline (pre_candidate p) = p.election_deadline
role_deadline (candidate k) = k.election_deadline
role_deadline (leading l) = l.heartbeat_deadline

unfoldable pub ticks_until_deadline : Node → ℕ
ticks_until_deadline n = role_deadline n.role - n.core.ticks

-- The node becomes a follower.
to_follower_role : Core → Option NodeId → Node × Effects
to_follower_role c l =
    let (c', f) = new_follower c l in (record { core = c'; role = follower f }, no_effects)

-- The candidate becomes leader at once if its own vote is a quorum.
to_candidate_role : Core → Node × Effects
to_candidate_role c =
    let (c', k, effects) = new_candidate c in
    let (l, leader_effects) = new_leader c' in
    if has_vote_quorum k c'
    then (record { core = c'; role = leading l }, merge effects leader_effects)
    else (record { core = c'; role = candidate k }, effects)

to_pre_candidate_role : Core → Node × Effects
unfolding to_candidate_role
to_pre_candidate_role c =
    let (c', p, effects) = new_pre_candidate c in
    let (n, more) = to_candidate_role c' in
    if has_pre_quorum p c'
    then (n, merge effects more)
    else (record { core = c'; role = pre_candidate p }, effects)

unfoldable pub apply_transition : Core → RoleState → Transition → Node × Effects
unfolding to_follower_role to_candidate_role to_pre_candidate_role
apply_transition c r stay = (record { core = c; role = r }, no_effects)
apply_transition c r (to_follower l) = to_follower_role c l
apply_transition c r (to_follower_after_contact l) =
    let (c', f) = after_leader_contact c l in (record { core = c'; role = follower f }, no_effects)
apply_transition c r to_pre_candidate = to_pre_candidate_role c
apply_transition c r to_candidate = to_candidate_role c
apply_transition c r to_leader =
    let (l, effects) = new_leader c in (record { core = c; role = leading l }, effects)

-- The first `match` of `step_event`: the step of the role.
unfoldable pub step_role : RoleState → Core → Event → RoleState × Core × StepResult
step_role (follower f) c e = let (f', c', r) = Follower.step f c e in (follower f', c', r)
step_role (pre_candidate p) c e =
    let (p', c', r) = PreCandidate.step p c e in (pre_candidate p', c', r)
step_role (candidate k) c e = let (k', c', r) = Candidate.step k c e in (candidate k', c', r)
step_role (leading l) c e = let (l', c', r) = Leader.step l c e in (leading l', c', r)

unfoldable pub step_event : Node → Event → Node × Effects
unfolding step_role apply_transition
step_event n e =
    let (role', c', r) = step_role n.role n.core e in
    let (n', more) = apply_transition c' role' r.transition in (n', merge r.effects more)

-- `tick`, `step` and `disk_write_complete`
abbrev pub on_tick : Node → Node × Effects
on_tick n = step_event n tick

abbrev pub on_message : Node → Message → Node × Effects
on_message n msg = step_event n (message msg)

abbrev pub on_disk_write : Node → LogIndex → Node × Effects
on_disk_write n i = step_event n (disk_write_complete i)

pub data ProposeError : Type 0 where
  not_leader : Option NodeId → ProposeError
  throttled : ProposeError

-- The step down that a proposal asks for.
after_proposal : Leader → Core → Bool → Node
unfolding to_follower_role
after_proposal l c steps_down =
    let (n, effects) = to_follower_role c none in
    if steps_down then n else record { core = c; role = leading l }

-- `None` is the failed assertion of `proposal_limit_exceeded`.
abbrev pub Outcome : Type 0
Outcome = Option (Node × Result (LogIndex × Effects) ProposeError)

-- What becomes of the proposal, by the limit's answer.
abbrev admitted : Node → Node × (LogIndex × Effects) → Option Bool → Outcome
admitted n done none = none
admitted n done (some true) = some (n, err throttled)
admitted n done (some false) = some (done.0, ok done.1)

propose_as : Node → Leader → Command → Outcome
unfolding after_proposal
propose_as n l cmd =
    let (l', c', (index, effects, steps_down)) = Leader.propose l n.core cmd in
    admitted n (after_proposal l' c' steps_down, (index, effects))
      (proposal_limit_exceeded n.core cmd)

propose_in : Node → RoleState → Command → Outcome
unfolding propose_as
propose_in n (leading l) cmd = propose_as n l cmd
propose_in n _ cmd = some (n, err (not_leader (known_leader n)))

unfoldable pub propose : Node → Command → Outcome
unfolding propose_in
propose n cmd = propose_in n n.role cmd

abbrev pub ReadOutcome : Type 0
ReadOutcome = Node × Result (LogIndex × Effects) ReadIndexError

request_read_in : Node → RoleState → ReadOutcome
request_read_in n (leading l) =
    let (l', r) = Leader.request_read_index l n.core in (record n { role = leading l' }, r)
request_read_in n _ = (n, err (ReadIndexError.not_leader (known_leader n)))

unfoldable pub request_read_index : Node → ReadOutcome
unfolding request_read_in
request_read_index n = request_read_in n n.role

unfoldable pub read_index_ready : Node → LogIndex → Bool
read_index_ready n i = elim n.role [ leading l ↦ Leader.read_index_ready l n.core i | _ ↦ false ]

abbrev pub ConfigOutcome : Type 0
ConfigOutcome = Node × Result (LogIndex × Effects) ConfigChangeError

config_change_done : Leader → Core → Result Proposed ConfigChangeError → ConfigOutcome
unfolding after_proposal
config_change_done l c (ok (index, effects, steps_down)) =
    (after_proposal l c steps_down, ok (index, effects))
config_change_done l c (err e) = (record { core = c; role = leading l }, err e)

propose_config_in : Node → RoleState → ConfigChange → ConfigOutcome
unfolding config_change_done
propose_config_in n (leading l) change =
    let (l', c', r) = Leader.propose_config_change l n.core change in config_change_done l' c' r
propose_config_in n _ change = (n, err Membership.not_leader)

unfoldable pub propose_config_change : Node → ConfigChange → ConfigOutcome
unfolding propose_config_in
propose_config_change n change = propose_config_in n n.role change

unfoldable pub transfer_leadership : Node → NodeId → Result Effects TransferError
transfer_leadership n target = elim n.role [
  | leading l ↦ Leader.transfer_leadership l n.core target
  | _ ↦ err Leader.transfer_not_leader
]

pub record CommittedEntry : Type 0 where
  pub index : LogIndex
  pub term : Term
  pub command : Command

abbrev pub committed_entry : Option Entry → List CommittedEntry
committed_entry none = []
committed_entry (some e) = elim e.payload [
  | command cmd ↦ record { index = e.index; term = e.term; command = cmd } ∷ []
  | config cfg ↦ []
]

-- The commands from an index on, for so many indices.
unfoldable pub committed_from : Log → LogIndex → ℕ → List CommittedEntry
committed_from log i zero = []
committed_from log i (suc rounds) = committed_entry (get log i) ++ committed_from log (i + 1) rounds

unfoldable pub committed : Node → List CommittedEntry
unfolding committed_from
committed n =
    let start = add64 n.core.last_applied 1 in
    committed_from (log_of n.core) start (add64 n.core.commit_index 1 - start)

unfoldable pub advance : Node → LogIndex → Node
advance n applied_to = record n { core = record n.core { last_applied = applied_to } }
