-- ===== src/Raft/Leader/Fuel.antt =====
-- leader.rs, `maybe_commit`: the fuel of its loop.
use mathlib.Core.Path.{subst}
use basisdb.Base.{
  Option-cases, ℕ, zero, suc, ◌+◌, ◌-◌, ◌≤◌, ◌<◌, ◌≡◌, ◌⊎◌, refl, sym, ap, ◌∙◌, inl, inr, Bool,
  true, false, some, List, [], ◌∷◌, ◌++◌, arith, ◌==◌, if◌then◌else◌, get_elem?, add64, add64_lem,
  u64_mod, length-append,
}
use basisdb.Raft.Membership.{Configuration, simple, joint, is_joint, transition_target}
use basisdb.Raft.Log.{Entry, Log, LogIndex, EntryPayload, command, config, get, append, last_index}
use basisdb.Raft.Log.Valid.{IsValid, end_index, last_index-end, append-IsValid}
use basisdb.Raft.Log.View.{get_lem, index-get}
use basisdb.Raft.Event.{Effects, no_effects, merge}
use basisdb.Raft.Core.{Core, log_of}
use basisdb.Raft.Leader.{
  Leader, CommittedConfig, nothing_committed, removed, transition, first_config, committed_config,
  commit_loop, maybe_commit, joints_above, advance_commit_index, append_transition_target,
}
use basisdb.Raft.Leader.Commit.{is_joint_entry, is_joint_payload, examine, examine_payload}
use basisdb.Raft.Leader.CommitIndex.{Commits, advance_commit_index-Commits}
use basisdb.Raft.Leader.StepRule.{own_entry}
use basisdb.Raft.Leader.AppendOnly.{advance_commit_index-log}

joints_above-le : (i k : LogIndex) (es : List Entry) → i ≤ k → joints_above k es ≤ joints_above i es
unfolding joints_above
joints_above-le i k [] h = omega arith
joints_above-le i k (e ∷ es) h = ground (arith, joints_above-le i k es h)

-- A joint configuration between two indices counts above the lower one only.
joints_above-lt :
    (i k : LogIndex) (es : List Entry) (p : ℕ) (e : Entry)
    → get_elem? es p ≡ some e
    → is_joint_entry e ≡ true
    → i < e.index
    → e.index ≤ k
    → joints_above k es < joints_above i es
unfolding joints_above
joints_above-lt i k [] p e g j a b = absurd (ground arith)
joints_above-lt i k (x ∷ es) zero e g j a b =
    let eq : x ≡ e = ground arith in
    let below = joints_above-le i k es (omega arith) in rw eq (ground (arith, below, j))
joints_above-lt i k (x ∷ es) (suc p) e g j a b = ground (arith, joints_above-lt i k es p e g j a b)

joints_above-append :
    (i : LogIndex) (es : List Entry) (e : Entry)
    → is_joint_entry e ≡ false
    → joints_above i (es ++ e ∷ []) ≡ joints_above i es
unfolding joints_above
joints_above-append i [] e h = ground (arith, h)
joints_above-append i (x ∷ es) e h = ground (arith, joints_above-append i es e h)

-- An entry with a joint configuration, and the configuration that completes it.
record Joint (c : Core) (j : LogIndex) (target : Configuration) : Type 0 where
  pub entry : Entry
  pub found : get (log_of c) j ≡ some entry
  pub is_joint_found : is_joint_entry entry ≡ true
  pub simple_target : is_joint target ≡ false

transition_target-joint :
    (cfg target : Configuration)
    → transition_target cfg ≡ some target
    → (is_joint cfg ≡ true) × (is_joint target ≡ false)
unfolding transition_target is_joint
transition_target-joint (simple vs ls) target h = absurd (ground arith)
transition_target-joint (joint old new ls) target h =
    let eq : simple new ls ≡ target = ground arith in (refl, rw (sym eq) refl)

examine_payload-cases :
    (c : Core) (p : EntryPayload) (rest : CommittedConfig) (target : Configuration)
    → examine_payload c p rest ≡ transition target
    → (rest ≡ transition target) ⊎ (is_joint_payload p ≡ true) × (is_joint target ≡ false)
examine_payload-cases c (command cmd) rest target h = inl h
examine_payload-cases c (config cfg) rest target h = elim (Option-cases (transition_target cfg)) [
  | inl e ↦ inl (ground (arith, e, h))
  | inr (t, e) ↦
      let eq : t ≡ target = ground (arith, e, h) in
      inr (transition_target-joint cfg target (e ∙ ap some eq))
]

-- A joint configuration somewhere in a range.
JointWithin : Core → LogIndex → ℕ → Configuration → Type 0
JointWithin c i rounds target = (j : LogIndex) × (i ≤ j) × (j < i + rounds) × Joint c j target

JointWithin-suc :
    (c : Core) (i : LogIndex) (rounds : ℕ) (target : Configuration)
    → JointWithin c (i + 1) rounds target
    → JointWithin c i (suc rounds) target
unfolding JointWithin
JointWithin-suc c i rounds target (j, a, b, found) = (j, omega arith, omega arith, found)

first_config-JointWithin :
    (c : Core) (i : LogIndex) (rounds : ℕ) (target : Configuration)
    → first_config c i rounds ≡ transition target
    → JointWithin c i rounds target
unfolding first_config JointWithin
first_config-JointWithin c i zero target h = absurd (ground arith)
first_config-JointWithin c i (suc rounds) target h =
    let rest = first_config c (i + 1) rounds in
    elim (Option-cases (get (log_of c) i)) [
      | inl absent ↦ JointWithin-suc c i rounds target (
          first_config-JointWithin c (i + 1) rounds target
            (ap (λ o. examine c o rest) (sym absent) ∙ h))
      | inr (e, there) ↦
          elim (examine_payload-cases c e.payload rest target
            (ap (λ o. examine c o rest) (sym there) ∙ h)) [
              | inl later ↦
                  JointWithin-suc c i rounds target
                    (first_config-JointWithin c (i + 1) rounds target later)
              | inr (is_joint_found, simple_target) ↦ (
                i,
                omega arith,
                omega arith,
                record {
                  entry = e;
                  found = there;
                  is_joint_found = is_joint_found;
                  simple_target = simple_target;
                },
              )
            ]
    ]

found-same {ℓ} :
    {A : Type ℓ} (found : CommittedConfig) (x : A) (f g g' : Configuration → A)
    → ((target : Configuration) → found ≡ transition target → g target ≡ g' target)
    → elim found [ nothing_committed ↦ x | removed cfg ↦ f cfg | transition target ↦ g target ]
      ≡ elim found [ nothing_committed ↦ x | removed cfg ↦ f cfg | transition target ↦ g' target ]
found-same nothing_committed x f g g' h = refl
found-same (removed cfg) x f g g' h = refl
found-same (transition target) x f g g' h = h target refl

if-same {ℓ} :
    {A : Type ℓ} (b : Bool) (x y y' : A)
    → (b ≡ false → y ≡ y')
    → (if b then x else y) ≡ (if b then x else y')
if-same true x y y' h = refl
if-same false x y y' h = h refl

-- A log that is well formed, reaches the commit index and has room for an entry for each joint
-- configuration above it.
pub record HasRoom (c : Core) : Type 0 where
  pub valid : IsValid (log_of c)
  pub committed : c.commit_index ≤ end_index (log_of c)
  pub room : end_index (log_of c) + joints_above c.commit_index (log_of c).entries + 1 < u64_mod

-- The joint configuration that a round finds was above the commit index and is not any more.
fewer_joints :
    (l : Leader) (c c1 : Core) (target : Configuration)
    → log_of c1 ≡ log_of c
    → HasRoom c
    → Commits l c c1.commit_index
    → committed_config c1 c.commit_index ≡ transition target
    → (joints_above c1.commit_index (log_of c1).entries
        < joints_above c.commit_index (log_of c).entries)
      × (is_joint target ≡ false)
unfolding committed_config JointWithin
fewer_joints l c c1 target same r commits found =
    let low : add64 c.commit_index 1 ≡ c.commit_index + 1 =
      add64_lem c.commit_index 1 (omega (arith, r.committed, r.room)) in
    let (j, a, b, joint_at) =
      first_config-JointWithin c1 (add64 c.commit_index 1)
        (suc c1.commit_index - add64 c.commit_index 1) target found in
    let valid : IsValid (log_of c1) = subst IsValid (sym same) r.valid in
    let index = index-get (log_of c1) j joint_at.entry valid joint_at.found in
    let stands : get_elem? (log_of c1).entries (j - (log_of c1).snapshot_index - 1)
        ≡ some joint_at.entry =
      ground (arith, get_lem (log_of c1) j, joint_at.found) in
    let fewer =
      joints_above-lt c.commit_index c1.commit_index (log_of c1).entries
        (j - (log_of c1).snapshot_index - 1) joint_at.entry stands joint_at.is_joint_found
        (omega (arith, index, a, low)) (omega (arith, index, b, low, commits.above)) in
    (
      subst
          (λ (log : Log).
            joints_above c1.commit_index (log_of c1).entries
            < joints_above c.commit_index log.entries)
          same fewer,
      joint_at.simple_target,
    )

-- What a round that goes on leaves, with fewer joint configurations above the commit index.
round-HasRoom :
    (l : Leader) (c c1 : Core) (target : Configuration)
    → log_of c1 ≡ log_of c
    → HasRoom c
    → Commits l c c1.commit_index
    → committed_config c1 c.commit_index ≡ transition target
    → (let d = (append_transition_target l c1 target).1 in
        HasRoom d
        × (joints_above d.commit_index (log_of d).entries
            < joints_above c.commit_index (log_of c).entries))
unfolding append_transition_target append
round-HasRoom l c c1 target same r commits found =
    let log = log_of c1 in
    let (fewer, simple_target) = fewer_joints l c c1 target same r commits found in
    let added = own_entry c1 (config target) in
    let valid : IsValid log = subst IsValid (sym same) r.valid in
    let ends = ap end_index same in
    let last = last_index-end log valid in
    let joints = joints_above-append c1.commit_index log.entries added simple_target in
    let grown = length-append log.entries (added ∷ []) in
    let index : added.index ≡ last_index log + 1 =
      add64_lem (last_index log) 1 (omega (arith, r.room, last, ends)) in
    (
      record {
        valid =
            append-IsValid log added valid index (omega (arith, r.room, last, ends, index, fewer));
        committed = omega (arith, commits.in_log, last_index-end (log_of c) r.valid, ends, grown);
        room = omega (arith, r.room, ends, grown, joints, fewer);
      },
      omega (arith, joints, fewer),
    )

commit_loop-enough :
    (n m : ℕ) (l : Leader) (c : Core) (effects : Effects)
    → HasRoom c
    → joints_above c.commit_index (log_of c).entries < n
    → joints_above c.commit_index (log_of c).entries < m
    → commit_loop n l c effects ≡ commit_loop m l c effects
unfolding commit_loop
commit_loop-enough zero m l c effects r a b = absurd (omega arith)
commit_loop-enough (suc n) zero l c effects r a b = absurd (omega arith)
commit_loop-enough (suc n) (suc m) l c effects r a b =
    let c1 = advance_commit_index l c in
    if-same (c1.commit_index == c.commit_index) _ _ _ (λ moved.
      found-same (committed_config c1 c.commit_index) _ _ _ _ (λ target found.
        elim (advance_commit_index-Commits l c (omega (arith, r.committed, r.room))) [
          | inl stays ↦ absurd (ground (arith, moved, stays))
          | inr commits ↦
              let next = append_transition_target l c1 target in
              let (room, fewer) =
                round-HasRoom l c c1 target (advance_commit_index-log l c) r commits found in
              commit_loop-enough n m next.0 next.1 (merge effects next.2) room
                (omega (arith, fewer)) (omega (arith, fewer))
        ]))

-- For a core whose log is well formed, reaches the commit index and has room for an entry for
-- each joint configuration above it, the loop of `maybe_commit` gives the same result on any fuel
-- larger than the number of joint configurations above the commit index: the fuel never runs out.
pub maybe_commit-enough :
    (l : Leader) (c : Core) (fuel : ℕ)
    → HasRoom c
    → joints_above c.commit_index (log_of c).entries < fuel
    → commit_loop fuel l c no_effects ≡ maybe_commit l c
unfolding maybe_commit
maybe_commit-enough l c fuel r h =
    commit_loop-enough fuel (suc (joints_above c.commit_index (log_of c).entries)) l c no_effects r
      h (omega arith)
