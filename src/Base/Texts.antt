-- ===== src/Base/Texts.antt =====
-- Rust's `String`, as its bytes in UTF-8: its order is that of the bytes. The decimal form of a
-- number, and the keys of the program's maps.
use Prim.Native.Nat.{ℕ, zero, suc, ◌+◌, ◌-◌, ◌*◌, ◌/◌, ◌%◌, ◌<◌, compare, Ordering}
use mathlib.Core.Path.{◌≡◌, refl, sym, ap, ◌∙◌}
use mathlib.Core.Logic.{inl, inr}
use mathlib.Core.Bool.{Bool, true}
use mathlib.Core.List.{List, [], ◌∷◌, ◌++◌}
use native.Mathlib.Omega.{arith}
use basisdb.Base.Tests.{if◌then◌else◌, ltb, Bool-cases}
use basisdb.Base.Maps.{Keyed, is_equal, same_key_self, eq-same_key}

abbrev pub Text : Type 0
Text = List ℕ

abbrev pub then_cmp : Ordering → Ordering → Ordering
then_cmp Ordering.lt r = Ordering.lt
then_cmp Ordering.eq r = r
then_cmp Ordering.gt r = Ordering.gt

unfoldable pub cmp_text : Text → Text → Ordering
cmp_text [] [] = Ordering.eq
cmp_text [] (y ∷ ys) = Ordering.lt
cmp_text (x ∷ xs) [] = Ordering.gt
cmp_text (x ∷ xs) (y ∷ ys) = then_cmp (compare x y) (cmp_text xs ys)

pub then_cmp-eq :
    (r s : Ordering) → then_cmp r s ≡ Ordering.eq → (r ≡ Ordering.eq) × (s ≡ Ordering.eq)
then_cmp-eq Ordering.lt s h = absurd (ground arith)
then_cmp-eq Ordering.eq s h = (refl, h)
then_cmp-eq Ordering.gt s h = absurd (ground arith)

pub compare-eq : (a b : ℕ) → compare a b ≡ Ordering.eq → a ≡ b
compare-eq a b h = ground (arith, h)

pub compare_self : (a : ℕ) → compare a a ≡ Ordering.eq
compare_self a = ground arith

pub eq-cmp_text : (a b : Text) → cmp_text a b ≡ Ordering.eq → a ≡ b
unfolding cmp_text
eq-cmp_text [] [] h = refl
eq-cmp_text [] (y ∷ ys) h = absurd (ground arith)
eq-cmp_text (x ∷ xs) [] h = absurd (ground arith)
eq-cmp_text (x ∷ xs) (y ∷ ys) h =
    let both = then_cmp-eq (compare x y) (cmp_text xs ys) h in
    let heads = compare-eq x y both.0 in
    let tails = eq-cmp_text xs ys both.1 in ap (λ z. z ∷ xs) heads ∙ ap (λ zs. y ∷ zs) tails

pub cmp_text_self : (a : Text) → cmp_text a a ≡ Ordering.eq
unfolding cmp_text
cmp_text_self [] = refl
cmp_text_self (x ∷ xs) = ap (λ r. then_cmp r (cmp_text xs xs)) (compare_self x) ∙ cmp_text_self xs

instance unfoldable pub number_keyed : Keyed ℕ
number_keyed = record { cmp = compare; eq_of_cmp = compare-eq; cmp_self = compare_self }

instance unfoldable pub text_keyed : Keyed Text
text_keyed = record { cmp = cmp_text; eq_of_cmp = eq-cmp_text; cmp_self = cmp_text_self }

-- `a == b`
unfoldable pub same_text : Text → Text → Bool
same_text a b = is_equal (cmp_text a b)

pub eq-same_text : (a b : Text) → same_text a b ≡ true → a ≡ b
unfolding same_text text_keyed cmp_text
eq-same_text a b h = eq-same_key a b h

pub same_text_self : (a : Text) → same_text a a ≡ true
unfolding same_text cmp_text text_keyed
same_text_self a = same_key_self a

abbrev pub ten_pow : ℕ → ℕ
ten_pow zero = 1
ten_pow (suc n) = 10 * ten_pow n

-- The decimal digits of a number below `ten_pow fuel`, in ASCII.
unfoldable pub decimal : ℕ → ℕ → Text
decimal zero n = []
decimal (suc fuel) n =
    let rest = decimal fuel (n / 10) in
    if ltb n 10 then (48 + n) ∷ [] else rest ++ (48 + n % 10) ∷ []

-- What a row of digits stands for, read on from a number.
read_digits : ℕ → Text → ℕ
read_digits acc [] = acc
read_digits acc (d ∷ ds) = read_digits (acc * 10 + (d - 48)) ds

read_digits-append :
    (acc : ℕ) (ds : Text) (d : ℕ)
    → read_digits acc (ds ++ d ∷ []) ≡ read_digits acc ds * 10 + (d - 48)
unfolding read_digits
read_digits-append acc [] d = refl
read_digits-append acc (x ∷ ds) d = read_digits-append (acc * 10 + (x - 48)) ds d

read_digits-decimal : (fuel n : ℕ) → n < ten_pow fuel → read_digits 0 (decimal fuel n) ≡ n
unfolding decimal read_digits
read_digits-decimal zero n h = omega arith
read_digits-decimal (suc fuel) n h = elim (Bool-cases (ltb n 10)) [
  | inl short ↦ rw short (omega arith)
  | inr long ↦ rw long (
      omega (
        arith,
        read_digits-append 0 (decimal fuel (n / 10)) (48 + n % 10),
        read_digits-decimal fuel (n / 10) (omega arith),
      ))
]

-- Numbers of the same digits are the same.
pub decimal-injective :
    (fuel n m : ℕ) → n < ten_pow fuel → m < ten_pow fuel → decimal fuel n ≡ decimal fuel m → n ≡ m
decimal-injective fuel n m a b h =
    sym (read_digits-decimal fuel n a) ∙ ap (read_digits 0) h ∙ read_digits-decimal fuel m b
