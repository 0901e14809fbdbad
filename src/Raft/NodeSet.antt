-- ===== src/Raft/NodeSet.antt =====
-- `BTreeSet<NodeId>` of the standard library, as the ascending list of its elements: what
-- consensus/basisdb-raft uses of it. The proofs are in the child modules.
pub mod Count
pub mod Order
use basisdb.Base.{
  ℕ, suc, ◌<◌, ◌≡◌, Bool, true, false, ◌||◌, ◌&&◌, Option, none, some, List, [], ◌∷◌, ltb, ◌==◌,
  if◌then◌else◌,
}

-- `NodeId(u64)`
abbrev pub NodeId : Type 0
NodeId = ℕ

abbrev pub NodeSet : Type 0
NodeSet = List NodeId

-- `contains`
unfoldable pub contains : NodeId → NodeSet → Bool
contains id [] = false
contains id (x ∷ xs) = x == id || contains id xs

-- `insert`: an element that is there stays once.
unfoldable pub insert : NodeId → NodeSet → NodeSet
insert id [] = id ∷ []
insert id (x ∷ xs) =
    let rest = insert id xs in
    if ltb id x then id ∷ x ∷ xs else if id == x then x ∷ xs else x ∷ rest

-- `remove`
unfoldable pub remove : NodeId → NodeSet → NodeSet
remove id [] = []
remove id (x ∷ xs) = let rest = remove id xs in if x == id then xs else x ∷ rest

-- `into_iter().collect()`
unfoldable pub collect : List NodeId → NodeSet
unfolding insert
collect [] = []
collect (x ∷ xs) = insert x (collect xs)

-- `iter().filter(p).count()`
unfoldable pub count : (NodeId → Bool) → List NodeId → ℕ
count p [] = 0
count p (x ∷ xs) = let rest = count p xs in if p x then suc rest else rest

-- `==`
unfoldable pub same : NodeSet → NodeSet → Bool
same [] [] = true
same (x ∷ xs) (y ∷ ys) = x == y && same xs ys
same _ _ = false

-- `iter().find(p)`
unfoldable pub find : (NodeId → Bool) → List NodeId → Option NodeId
find p [] = none
find p (x ∷ xs) = let rest = find p xs in if p x then some x else rest

abbrev pub IsAbove : NodeId → List NodeId → Type 0
IsAbove x ys = (y : NodeId) → contains y ys ≡ true → x < y

-- What a `BTreeSet` is: its elements in ascending order, each once.
abbrev pub IsOrdered : List NodeId → Type 0
IsOrdered [] = Unit
IsOrdered (x ∷ xs) = IsAbove x xs × IsOrdered xs
