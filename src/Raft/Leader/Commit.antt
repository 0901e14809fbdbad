-- ===== src/Raft/Leader/Commit.antt =====
-- leader.rs: `maybe_commit` and what it calls.
use basisdb.Base.{
  ℕ, zero, suc, ◌+◌, ◌-◌, Bool, true, false, not, ◌&&◌, Option, none, some, List, [], ◌∷◌, ltb, leb,
  ◌==◌, if◌then◌else◌, add64,
}
use basisdb.Raft.NodeSet.{NodeId}
use basisdb.Raft.Membership.{
  Configuration, is_voter, is_joint, has_quorum, voters, transition_target,
}
use basisdb.Raft.Log.{
  EntryPayload, LogIndex, command, config, Entry, last_index, term_at, get, append,
}
use basisdb.Raft.Event.{timeout_now, Effects, no_effects, with_persist, with_message, merge}
use basisdb.Raft.Core.{Core, self_id, term_of, log_of, with_log, reply, effective_config}
use basisdb.Raft.Leader.Progress.{Leader, progress, reinit_progress, broadcast_append}

-- `for i in (low..=high).rev()` up to the first that passes the test
unfoldable pub find_down : (ℕ → Bool) → ℕ → ℕ → Option ℕ
find_down test low zero = if low == 0 && test 0 then some 0 else none
find_down test low (suc n) =
    let rest = find_down test low n in
    if leb low (suc n) then if test (suc n) then some (suc n) else rest else none

-- An entry of this term that a quorum has.
unfoldable pub is_committable : Leader → Core → LogIndex → Bool
is_committable l c candidate =
    term_at (log_of c) candidate == term_of c
    && has_quorum (effective_config c) (λ voter. leb candidate (progress l.match_index voter))

unfoldable pub advance_commit_index : Leader → Core → Core
unfolding find_down is_committable
advance_commit_index l c =
    elim (find_down (is_committable l c) (add64 c.commit_index 1) (last_index (log_of c))) [
      | none ↦ c
      | some candidate ↦ record c { commit_index = candidate }
    ]

-- What `process_committed_configs` finds first: a configuration without this node, or a joint
-- one, with its target.
pub data CommittedConfig : Type 0 where
  nothing_committed : CommittedConfig
  removed : Configuration → CommittedConfig
  transition : Configuration → CommittedConfig

-- One entry of that loop; `rest` is the rest of the loop.
abbrev pub examine_payload : Core → EntryPayload → CommittedConfig → CommittedConfig
examine_payload c (command cmd) rest = rest
examine_payload c (config cfg) rest =
    if not (is_voter cfg (self_id c))
    then removed cfg
    else elim (transition_target cfg) [ some target ↦ transition target | none ↦ rest ]

abbrev pub examine : Core → Option Entry → CommittedConfig → CommittedConfig
examine c none rest = rest
examine c (some e) rest = examine_payload c e.payload rest

-- The loop, from an index and for so many rounds.
unfoldable pub first_config : Core → LogIndex → ℕ → CommittedConfig
first_config c i zero = nothing_committed
first_config c i (suc rounds) =
    let rest = first_config c (i + 1) rounds in examine c (get (log_of c) i) rest

unfoldable pub committed_config : Core → LogIndex → CommittedConfig
unfolding first_config
committed_config c old_commit =
    let low = add64 old_commit 1 in first_config c low (suc c.commit_index - low)

-- `best_target` after one more voter that is not caught up
abbrev better : Option (NodeId × LogIndex) → NodeId → LogIndex → Option (NodeId × LogIndex)
better none v m = some (v, m)
better (some (b, best)) v m = if ltb best m then some (v, m) else some (b, best)

-- The loop of `try_auto_transfer` over the voters.
unfoldable pub best_target :
    Leader → Core → List NodeId → Option (NodeId × LogIndex) → Option (NodeId × LogIndex)
best_target l c [] best = best
best_target l c (v ∷ vs) best =
    let m = progress l.match_index v in
    let skipped = best_target l c vs best in
    let rest = best_target l c vs (better best v m) in
    if v == self_id c then skipped else if leb (last_index (log_of c)) m then some (v, m) else rest

unfoldable pub try_auto_transfer : Leader → Core → Configuration → Effects
unfolding best_target
try_auto_transfer l c new_config = elim (best_target l c (voters new_config) none) [
  | none ↦ no_effects
  | some (target, m) ↦
      if leb (last_index (log_of c)) m
      then with_message no_effects (reply c target timeout_now)
      else no_effects
]

unfoldable pub append_transition_target : Leader → Core → Configuration → Leader × Core × Effects
append_transition_target l c target =
    let c' = with_log c (
      append (log_of c) (record {
        term = term_of c;
        index = add64 (last_index (log_of c)) 1;
        payload = config target;
      })) in
    let (l', sent) = broadcast_append (reinit_progress l c') c' in (l', c', with_persist sent)

abbrev pub is_joint_payload : EntryPayload → Bool
is_joint_payload (command cmd) = false
is_joint_payload (config cfg) = is_joint cfg

abbrev pub is_joint_entry : Entry → Bool
is_joint_entry e = is_joint_payload e.payload

-- How many joint configurations lie above an index: a round of the loop that goes on uses one up.
unfoldable pub joints_above : LogIndex → List Entry → ℕ
joints_above i [] = 0
joints_above i (e ∷ es) =
    let rest = joints_above i es in if is_joint_entry e && ltb i e.index then suc rest else rest

abbrev pub Committed : Type 0
Committed = Leader × Core × Effects × Bool

-- The loop of `maybe_commit` on fuel, with the effects so far.
unfoldable pub commit_loop : ℕ → Leader → Core → Effects → Committed
unfolding advance_commit_index committed_config try_auto_transfer append_transition_target
commit_loop zero l c effects = (l, c, effects, false)
commit_loop (suc fuel) l c effects =
    let c1 = advance_commit_index l c in
    let go_on = λ (target : Configuration).
      let (l2, c2, e) = append_transition_target l c1 target in
      commit_loop fuel l2 c2 (merge effects e) in
    if c1.commit_index == c.commit_index
    then (l, c1, effects, false)
    else elim (committed_config c1 c.commit_index) [
      | nothing_committed ↦ (l, c1, effects, false)
      | removed cfg ↦ (l, c1, merge effects (try_auto_transfer l c1 cfg), true)
      | transition target ↦ go_on target
    ]

-- One round more than there are joint configurations to commit.
unfoldable pub maybe_commit : Leader → Core → Committed
unfolding commit_loop joints_above
maybe_commit l c = commit_loop (suc (joints_above c.commit_index (log_of c).entries)) l c no_effects
