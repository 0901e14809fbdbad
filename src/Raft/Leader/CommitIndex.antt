-- ===== src/Raft/Leader/CommitIndex.antt =====
-- leader.rs, `advance_commit_index`: where the commit index goes.
use basisdb.Base.{
  option_rule, leb→le, ℕ, zero, suc, ◌+◌, ◌≤◌, ◌<◌, ◌≡◌, ◌⊎◌, refl, inl, inr, Bool, true, false,
  none, some, arith, leb, add64, add64_lem, u64_mod, Bool-cases,
}
use basisdb.Raft.NodeSet.{NodeId}
use basisdb.Raft.Membership.{has_quorum}
use basisdb.Raft.Membership.Overlap.{quorums_share}
use basisdb.Raft.Log.{LogIndex, last_index, term_at}
use basisdb.Raft.Core.{Core, term_of, log_of, effective_config}
use basisdb.Raft.Leader.{Leader, progress, find_down, is_committable, advance_commit_index}

-- A failed test at one number and at those between two others.
fails_up_to :
    (test : ℕ → Bool) (n : ℕ)
    → test (suc n) ≡ false
    → (j : ℕ) → (j ≤ n → test j ≡ false)
    → j ≤ suc n
    → test j ≡ false
fails_up_to test n h j f k = elim (Bool-cases (leb j n)) [
  | inl e ↦ f (ground arith)
  | inr e ↦ let eq : j ≡ suc n = ground arith in rw eq h
]

-- The first number from the top that passes, if one does.
find_down-some :
    (test : ℕ → Bool) (low n : ℕ) (i : ℕ)
    → find_down test low n ≡ some i
    → (low ≤ i) × (i ≤ n) × (test i ≡ true) × ((j : ℕ) → i < j → j ≤ n → test j ≡ false)
unfolding find_down
find_down-some test low zero i h =
    let eq : i ≡ 0 = ground arith in
    rw eq (ground arith, omega arith, ground arith, λ j a b. absurd (omega arith))
find_down-some test low (suc n) i h = elim (Bool-cases (test (suc n))) [
  | inl passes ↦
      let eq : i ≡ suc n = ground arith in
      rw eq (ground arith, omega arith, passes, λ j a b. absurd (omega arith))
  | inr fails ↦
      let (a, b, t, above) = find_down-some test low n i (ground arith) in
      (a, omega arith, t, λ j k. fails_up_to test n fails j (above j k))
]

find_down-none :
    (test : ℕ → Bool) (low n : ℕ)
    → find_down test low n ≡ none
    → (j : ℕ) → low ≤ j
    → j ≤ n
    → test j ≡ false
unfolding find_down
find_down-none test low zero h j a b = let eq : j ≡ 0 = omega arith in rw eq (ground arith)
find_down-none test low (suc n) h j a b = elim (Bool-cases (test (suc n))) [
  | inl passes ↦ absurd (ground arith)
  | inr fails ↦ fails_up_to test n fails j (find_down-none test low n (ground arith) j a) b
]

-- An index that may be committed: of an entry of the leader's term, in the log and above the
-- commit index, and a quorum has it.
pub record Commits (l : Leader) (c : Core) (i : LogIndex) : Type 0 where
  pub above : c.commit_index < i
  pub in_log : i ≤ last_index (log_of c)
  pub own_term : term_at (log_of c) i ≡ term_of c
  pub quorum :
      has_quorum (effective_config c) (λ voter. leb i (progress l.match_index voter)) ≡ true

is_committable-Commits :
    (l : Leader) (c : Core) (i : LogIndex)
    → c.commit_index < i
    → i ≤ last_index (log_of c)
    → is_committable l c i ≡ true
    → Commits l c i
unfolding is_committable
is_committable-Commits l c i a b h = record {
  above = a;
  in_log = b;
  own_term = ground (arith, h);
  quorum = ground (arith, h);
}

-- Both: where the commit index goes, and that nothing above it may be committed.
pub advance_commit_index-exact :
    (l : Leader) (c : Core)
    → c.commit_index + 1 < u64_mod
    → (let i = (advance_commit_index l c).commit_index in
        ((i ≡ c.commit_index) ⊎ Commits l c i)
        × ((j : LogIndex) → i < j → j ≤ last_index (log_of c) → is_committable l c j ≡ false))
unfolding advance_commit_index
advance_commit_index-exact l c h =
    let found = find_down (is_committable l c) (add64 c.commit_index 1) (last_index (log_of c)) in
    let low = add64_lem c.commit_index 1 h in
    let committable = is_committable l c in
    option_rule
      (λ (d : Core).
        ((d.commit_index ≡ c.commit_index) ⊎ Commits l c d.commit_index)
        × ((j : LogIndex)
            → d.commit_index < j
            → j ≤ last_index (log_of c)
            → is_committable l c j ≡ false))
      found
      (λ e. (
        inl refl,
        λ j a b.
            find_down-none committable (add64 c.commit_index 1) (last_index (log_of c)) e j
              (omega (arith, low)) b,
      ))
      (λ i e.
        let (a, b, t, above) =
          find_down-some committable (add64 c.commit_index 1) (last_index (log_of c)) i e in
        (inr (is_committable-Commits l c i (omega (arith, low)) b t), above))

-- While the commit index is below the last u64, advancing it leaves it as it is or moves it up to
-- an index of the log whose entry has the leader's term and that a quorum of the effective
-- configuration has by the leader's progress.
pub advance_commit_index-Commits :
    (l : Leader) (c : Core)
    → c.commit_index + 1 < u64_mod
    → ((advance_commit_index l c).commit_index ≡ c.commit_index)
      ⊎ Commits l c (advance_commit_index l c).commit_index
advance_commit_index-Commits l c h = (advance_commit_index-exact l c h).0

-- While the commit index is below the last u64, above where `advance_commit_index` puts it no
-- index of the log passes the test for commitment.
pub advance_commit_index-misses_none :
    (l : Leader) (c : Core) (j : LogIndex)
    → c.commit_index + 1 < u64_mod
    → (advance_commit_index l c).commit_index < j
    → j ≤ last_index (log_of c)
    → is_committable l c j ≡ false
advance_commit_index-misses_none l c j h = (advance_commit_index-exact l c h).1 j

-- While the commit index is below the last u64, a commit index that `advance_commit_index` moved
-- up is held, by the leader's progress, by some node of every quorum of the effective
-- configuration.
pub commit_reaches_quorums :
    (l : Leader) (c : Core) (quorum : NodeId → Bool)
    → c.commit_index + 1 < u64_mod
    → c.commit_index < (advance_commit_index l c).commit_index
    → has_quorum (effective_config c) quorum ≡ true
    → (voter : NodeId) × (quorum voter ≡ true)
      × ((advance_commit_index l c).commit_index ≤ progress l.match_index voter)
commit_reaches_quorums l c quorum h moved q =
    let i = (advance_commit_index l c).commit_index in
    elim (advance_commit_index-exact l c h).0 [
      | inl same ↦ absurd (omega (arith, same))
      | inr commits ↦
          let (voter, in_quorum, has) =
            quorums_share quorum (λ v. leb i (progress l.match_index v)) (effective_config c) q
              commits.quorum in
          (voter, in_quorum, leb→le i (progress l.match_index voter) has)
    ]
