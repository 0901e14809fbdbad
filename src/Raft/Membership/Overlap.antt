-- ===== src/Raft/Membership/Overlap.antt =====
-- membership.rs: the nodes that two quorums have in common.
use basisdb.Base.{◌+◌, ◌<◌, ◌≡◌, Bool, true, false, arith, length}
use basisdb.Raft.NodeSet
use basisdb.Raft.NodeSet.{NodeId, NodeSet, contains, collect, count, same, IsOrdered}
use basisdb.Raft.NodeSet.Count.{
  count_overlap, count-insert-le, length-insert, count-remove-le, length-remove,
}
use basisdb.Raft.Membership.{Configuration, simple, joint, majority, has_quorum}

-- A node that both votes count.
abbrev pub Shared : (NodeId → Bool) → (NodeId → Bool) → Type 0
Shared p q = (id : NodeId) × (p id ≡ true) × (q id ≡ true)

module _ (p q : NodeId → Bool) where
  pub counts-Shared : (vs : NodeSet) → length vs < count p vs + count q vs → Shared p q
  counts-Shared vs h = let (id, m, a, b) = count_overlap p q vs h in (id, a, b)

  pub majorities-Shared : (vs : NodeSet) → majority p vs ≡ true → majority q vs ≡ true → Shared p q
  majorities-Shared vs hp hq = counts-Shared vs (ground arith)

  -- Any two quorums of a configuration share a node.
  pub quorums_share :
      (c : Configuration) → has_quorum c p ≡ true → has_quorum c q ≡ true → Shared p q
  unfolding has_quorum
  quorums_share (simple vs ls) hp hq = majorities-Shared vs hp hq
  quorums_share (joint old new ls) hp hq = majorities-Shared old (ground arith) (ground arith)

  pub insert-Shared :
      (id : NodeId) (vs : NodeSet)
      → contains id vs ≡ false
      → majority p vs ≡ true
      → majority q (NodeSet.insert id vs) ≡ true
      → Shared p q
  insert-Shared id vs out hp hq =
      counts-Shared vs (ground (arith, count-insert-le q id vs, length-insert id vs))

  pub remove-Shared :
      (id : NodeId) (vs : NodeSet)
      → contains id vs ≡ true
      → majority p vs ≡ true
      → majority q (NodeSet.remove id vs) ≡ true
      → Shared p q
  remove-Shared id vs there hp hq =
      counts-Shared vs (ground (arith, count-remove-le q id vs, length-remove id vs))
