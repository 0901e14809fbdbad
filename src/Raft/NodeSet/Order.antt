-- ===== src/Raft/NodeSet/Order.antt =====
-- The order of a set of nodes under its operations.
use basisdb.Base.{
  ◌<◌, ◌≡◌, refl, true, ◌||◌, List, [], ◌∷◌, arith, ◌==◌, ltb, ltb→lt, inl, inr, Bool-cases,
  if◌then◌else◌,
}
use basisdb.Raft.NodeSet.{NodeId, NodeSet, contains, insert, collect, same, IsAbove, IsOrdered}

pub contains-insert :
    (x y : NodeId) (xs : NodeSet) → contains y (insert x xs) ≡ (x == y || contains y xs)
unfolding contains insert
contains-insert x y [] = ground arith
contains-insert x y (z ∷ zs) = ground (arith, contains-insert x y zs)

IsAbove-cons : (x z : NodeId) (zs : NodeSet) → x < z → IsAbove z zs → IsAbove x (z ∷ zs)
unfolding contains
IsAbove-cons x z zs h k y m = ground (arith, k y)

IsAbove-insert : (x z : NodeId) (zs : NodeSet) → z < x → IsAbove z zs → IsAbove z (insert x zs)
IsAbove-insert x z zs h k y m = ground (arith, k y, contains-insert x y zs)

pub insert-IsOrdered : (x : NodeId) (xs : NodeSet) → IsOrdered xs → IsOrdered (insert x xs)
unfolding insert contains
insert-IsOrdered x [] h = ((λ y m. ground arith), tt)
insert-IsOrdered x (z ∷ zs) h = elim (Bool-cases (ltb x z)) [
  | inl lt ↦ rw (lt, if◌then◌else◌) (IsAbove-cons x z zs (ltb→lt x z lt) h.0, h)
  | inr ge ↦ elim (Bool-cases (x == z)) [
    | inl e ↦ rw (ge, e) h
    | inr ne ↦ rw (ge, ne) (IsAbove-insert x z zs (ground arith) h.0, insert-IsOrdered x zs h.1)
  ]
]

pub collect-IsOrdered : (xs : List NodeId) → IsOrdered (collect xs)
unfolding collect
collect-IsOrdered [] = tt
collect-IsOrdered (x ∷ xs) = insert-IsOrdered x (collect xs) (collect-IsOrdered xs)

pub same→eq : (xs ys : NodeSet) → same xs ys ≡ true → xs ≡ ys
unfolding same
same→eq [] [] h = refl
same→eq (x ∷ xs) (y ∷ ys) h = ground (arith, same→eq xs ys)
same→eq [] (y ∷ ys) h = ground arith
same→eq (x ∷ xs) [] h = ground arith
