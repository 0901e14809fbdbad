-- ===== src/Raft/NodeSet/Count.antt =====
-- Counting votes in a set of nodes.
use basisdb.Base.{
  ◌+◌, ◌≤◌, ◌<◌, ◌≡◌, ◌≢◌, refl, Bool, true, false, ◌&&◌, List, [], ◌∷◌, arith, length, ==_iff,
  ◌==◌, inl, inr, Bool-cases,
}
use basisdb.Raft.NodeSet.{NodeId, contains, insert, remove, count, IsOrdered}

pub count-le-length : (p : NodeId → Bool) (xs : List NodeId) → count p xs ≤ length xs
unfolding count
count-le-length p [] = omega arith
count-le-length p (x ∷ xs) = ground (arith, count-le-length p xs)

-- Two counts that pass the size of the set together share an element.
pub count_overlap :
    (p q : NodeId → Bool) (xs : List NodeId)
    → length xs < count p xs + count q xs
    → (x : NodeId) × (contains x xs ≡ true) × (p x ≡ true) × (q x ≡ true)
unfolding count contains
count_overlap p q [] h = absurd (omega arith)
count_overlap p q (x ∷ xs) h = elim (Bool-cases (p x)) [
  | inl px ↦ elim (Bool-cases (q x)) [
    | inl qx ↦ (x, ground arith, px, qx)
    | inr nq ↦
        let (y, my, py, qy) = count_overlap p q xs (ground arith) in (y, ground arith, py, qy)
  ]
  | inr np ↦ let (y, my, py, qy) = count_overlap p q xs (ground arith) in (y, ground arith, py, qy)
]

pub count-insert-le :
    (p : NodeId → Bool) (x : NodeId) (xs : List NodeId) → count p (insert x xs) ≤ count p xs + 1
unfolding count insert
count-insert-le p x [] = ground arith
count-insert-le p x (y ∷ ys) = ground (arith, count-insert-le p x ys)

pub length-insert :
    (x : NodeId) (xs : List NodeId) → contains x xs ≡ false → length (insert x xs) ≡ length xs + 1
unfolding contains insert
length-insert x [] h = refl
length-insert x (y ∷ ys) h = ground (arith, length-insert x ys)

pub count-remove-le :
    (p : NodeId → Bool) (x : NodeId) (xs : List NodeId) → count p (remove x xs) ≤ count p xs
unfolding count remove
count-remove-le p x [] = omega arith
count-remove-le p x (y ∷ ys) = ground (arith, count-remove-le p x ys)

pub length-remove :
    (x : NodeId) (xs : List NodeId) → contains x xs ≡ true → length (remove x xs) + 1 ≡ length xs
unfolding contains remove
length-remove x [] h = ground arith
length-remove x (y ∷ ys) h = ground (arith, length-remove x ys)

count-remove_self :
    (p : NodeId → Bool) (x : NodeId) (xs : List NodeId)
    → contains x xs ≡ true
    → p x ≡ true
    → count p xs ≡ count p (remove x xs) + 1
unfolding contains count remove
count-remove_self p x [] h e = ground arith
count-remove_self p x (y ∷ ys) h e = elim (Bool-cases (y == x)) [
  | inl here ↦ let eq : y ≡ x = (==_iff y x).0 here in ground arith
  | inr there ↦ ground (arith, count-remove_self p x ys)
]

contains-remove_ne :
    (x y : NodeId) (xs : List NodeId) → x ≢ y → contains y (remove x xs) ≡ contains y xs
unfolding contains remove
contains-remove_ne x y [] h = refl
contains-remove_ne x y (z ∷ zs) h = ground (arith, contains-remove_ne x y zs)

pub count_congr :
    (p q : NodeId → Bool) (xs : List NodeId)
    → ((x : NodeId) → contains x xs ≡ true → p x ≡ q x)
    → count p xs ≡ count q xs
unfolding count contains
count_congr p q [] h = refl
count_congr p q (x ∷ xs) h =
    let hd : p x ≡ q x = h x (ground arith) in
    let tl : count p xs ≡ count q xs = count_congr p q xs (λ y m. h y (ground arith)) in
    ground arith

-- The votes of those elements of an ordered set that lie in another are at most the votes there.
pub count-common-le :
    (q : NodeId → Bool) (bs cs : List NodeId)
    → IsOrdered bs
    → count (λ x. contains x cs && q x) bs ≤ count q cs
unfolding count
count-common-le q [] cs o = omega arith
count-common-le q (b ∷ bs) cs o = elim (Bool-cases (contains b cs && q b)) [
  | inr out ↦ ground (arith, count-common-le q bs cs o.1)
  | inl both ↦
      let there : contains b cs ≡ true = ground arith in
      let votes : q b ≡ true = ground arith in
      let ih : count (λ x. contains x (remove b cs) && q x) bs ≤ count q (remove b cs) =
        count-common-le q bs (remove b cs) o.1 in
      let eq : count (λ x. contains x cs && q x) bs
          ≡ count (λ x. contains x (remove b cs) && q x) bs =
        count_congr _ _ bs (λ x m.
          cc (contains-remove_ne b x cs (λ e. absurd (let lt : b < x = o.0 x m in omega arith)))) in
      ground (arith, ih, eq, count-remove_self q b cs)
]
