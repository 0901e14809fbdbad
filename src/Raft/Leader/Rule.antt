-- ===== src/Raft/Leader/Rule.antt =====
-- leader.rs, `maybe_commit`: the induction rule of its loop.
use basisdb.Base.{ℕ, zero, suc, ◌==◌, if_rule}
use basisdb.Raft.Membership.{Configuration}
use basisdb.Raft.Event.{Effects, no_effects, merge}
use basisdb.Raft.Core.{Core, log_of}
use basisdb.Raft.Leader.{
  Leader, Committed, advance_commit_index, append_transition_target, commit_loop, maybe_commit,
  committed_config, joints_above, CommittedConfig, nothing_committed, removed, transition,
}

pub committed_rule {ℓ κ} :
    {A : Type ℓ} (P : A → Type κ) (found : CommittedConfig) {x : A} {f g : Configuration → A}
    → P x
    → ((cfg : Configuration) → P (f cfg))
    → ((target : Configuration) → P (g target))
    → P (elim found [ nothing_committed ↦ x | removed cfg ↦ f cfg | transition target ↦ g target ])
committed_rule P nothing_committed a b c = a
committed_rule P (removed cfg) a b c = b cfg
committed_rule P (transition target) a b c = c target

module _ {ℓ} (P : Leader → Core → Type ℓ)
    (advanced : (l : Leader) (c : Core) → P l c → P l (advance_commit_index l c))
    (appended : (l : Leader) (c : Core) (target : Configuration)
      → P l c
      → P (append_transition_target l c target).0 (append_transition_target l c target).1) where
  commit_loop_rule :
      (fuel : ℕ) (l : Leader) (c : Core) (effects : Effects)
      → P l c
      → P (commit_loop fuel l c effects).0 (commit_loop fuel l c effects).1
  unfolding commit_loop
  commit_loop_rule zero l c effects h = h
  commit_loop_rule (suc fuel) l c effects h =
      let c1 = advance_commit_index l c in
      let h1 = advanced l c h in
      if_rule (λ (s : Committed). P s.0 s.1) (c1.commit_index == c.commit_index) (λ _. h1)
        (λ _.
          committed_rule (λ (s : Committed). P s.0 s.1) (committed_config c1 c.commit_index) h1
            (λ cfg. h1)
            (λ target.
              let next = append_transition_target l c1 target in
              commit_loop_rule fuel next.0 next.1 (merge effects next.2) (appended l c1 target h1)))

  pub maybe_commit_rule :
      (l : Leader) (c : Core) → P l c → P (maybe_commit l c).0 (maybe_commit l c).1
  unfolding maybe_commit
  maybe_commit_rule l c h =
      commit_loop_rule (suc (joints_above c.commit_index (log_of c).entries)) l c no_effects h
