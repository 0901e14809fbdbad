-- ===== src/Base/Maps.antt =====
-- `BTreeMap` and `HashMap` of the standard library as ascending association lists: what the
-- program uses of them. `same_key` is the equality of keys.
use Prim.Native.Nat.{Ordering}
use mathlib.Core.Path.{◌≡◌, refl, sym, ap, ◌∙◌}
use mathlib.Core.Logic.{◌⊎◌, inl, inr}
use mathlib.Core.Bool.{Bool, true, false}
use mathlib.Core.List.{List, [], ◌∷◌}
use mathlib.Core.Option.{Option, none, some}
use native.Mathlib.Omega.{arith}
use basisdb.Base.Tests.{if◌then◌else◌, Bool-cases}

-- A key type with its `Ord`.
pub record Keyed (K : Type 0) : Type 0 where
  pub cmp : K → K → Ordering
  pub eq_of_cmp : (a b : K) → cmp a b ≡ Ordering.eq → a ≡ b
  pub cmp_self : (a : K) → cmp a a ≡ Ordering.eq

abbrev pub is_equal : Ordering → Bool
is_equal Ordering.lt = false
is_equal Ordering.eq = true
is_equal Ordering.gt = false

abbrev pub Map : Type 0 → Type 0 → Type 0
Map K V = List (K × V)

module _ {K : Type 0} ⦃o : Keyed K⦄ where
  abbrev pub same_key : K → K → Bool
  same_key a b = is_equal (o.cmp a b)

module _ {K V : Type 0} ⦃o : Keyed K⦄ where
  -- `get(&k)`
  unfoldable pub lookup : K → Map K V → Option V
  lookup k [] = none
  lookup k ((j, v) ∷ m) = let rest = lookup k m in if same_key j k then some v else rest

  -- `insert(k, v)`
  unfoldable pub put_key : K → V → Map K V → Map K V
  put_key k v [] = (k, v) ∷ []
  put_key k v ((j, w) ∷ m) =
      let rest = put_key k v m in
      elim (o.cmp k j) [
        | Ordering.lt ↦ (k, v) ∷ (j, w) ∷ m
        | Ordering.eq ↦ (k, v) ∷ m
        | Ordering.gt ↦ (j, w) ∷ rest
      ]

  -- `remove(&k)`
  unfoldable pub remove_key : K → Map K V → Map K V
  remove_key k [] = []
  remove_key k ((j, w) ∷ m) =
      let rest = remove_key k m in if same_key j k then rest else (j, w) ∷ rest

is_equal-eq : (r : Ordering) → is_equal r ≡ true → r ≡ Ordering.eq
is_equal-eq Ordering.lt h = absurd (ground arith)
is_equal-eq Ordering.eq h = refl
is_equal-eq Ordering.gt h = absurd (ground arith)

pub Ordering-cases : (r : Ordering) → (r ≡ Ordering.lt) ⊎ (r ≡ Ordering.eq) ⊎ (r ≡ Ordering.gt)
Ordering-cases Ordering.lt = inl refl
Ordering-cases Ordering.eq = inr (inl refl)
Ordering-cases Ordering.gt = inr (inr refl)

module _ {K : Type 0} ⦃o : Keyed K⦄ where
  pub eq-same_key : (a b : K) → same_key a b ≡ true → a ≡ b
  eq-same_key a b h = o.eq_of_cmp a b (is_equal-eq (o.cmp a b) h)

  pub same_key_self : (a : K) → same_key a a ≡ true
  same_key_self a = ap is_equal (o.cmp_self a)

  -- Two keys equal to one compare as equal.
  same_key_trans : (a b c : K) → same_key a c ≡ true → same_key b c ≡ true → a ≡ b
  same_key_trans a b c h k = eq-same_key a c h ∙ sym (eq-same_key b c k)

module _ {K V : Type 0} ⦃o : Keyed K⦄ where
  pub lookup-put_key :
      (k j : K) (v : V) (m : Map K V)
      → lookup j (put_key k v m) ≡ (if same_key k j then some v else lookup j m)
  unfolding lookup put_key
  lookup-put_key k j v [] = refl
  lookup-put_key k j v ((i, w) ∷ m) = elim (Ordering-cases (o.cmp k i)) [
    | inl e ↦ rw (e, put_key, lookup) refl
    | inr (inl e) ↦
        let same : same_key k j ≡ same_key i j = ap (λ x. same_key x j) (o.eq_of_cmp k i e) in
        rw (e, put_key, lookup) (ground (arith, same))
    | inr (inr e) ↦
        rw (e, put_key, lookup)
          (elim (Bool-cases (same_key i j)) [
            | inl there ↦ elim (Bool-cases (same_key k j)) [
              | inl new ↦
                  let clash : Ordering.eq ≡ Ordering.gt =
                    sym (o.cmp_self k) ∙ ap (o.cmp k) (same_key_trans k i j new there) ∙ e in
                  absurd (ground (arith, clash))
              | inr old ↦ rw (there, old) refl
            ]
            | inr other ↦ rw other (lookup-put_key k j v m)
          ])
  ]

  pub lookup-remove_key :
      (k j : K) (m : Map K V)
      → lookup j (remove_key k m) ≡ (if same_key k j then none else lookup j m)
  unfolding lookup remove_key
  lookup-remove_key k j [] = ground arith
  lookup-remove_key k j ((i, w) ∷ m) = elim (Bool-cases (same_key i k)) [
    | inl gone ↦
        let same : same_key i j ≡ same_key k j = ap (λ x. same_key x j) (eq-same_key i k gone) in
        rw gone (ground (arith, same, lookup-remove_key k j m))
    | inr kept ↦ elim (Bool-cases (same_key i j)) [
      | inl there ↦ elim (Bool-cases (same_key k j)) [
        | inl clash ↦
            let same : same_key i k ≡ true =
              ap (λ x. same_key i x) (same_key_trans k i j clash there) ∙ same_key_self i in
            absurd (ground (arith, same, kept))
        | inr old ↦ rw (kept, there, old) refl
      ]
      | inr other ↦ rw (kept, other) (lookup-remove_key k j m)
    ]
  ]
