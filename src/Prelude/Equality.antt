-- ===== src/Prelude/Equality.antt =====
-- Python's `==` for the types that the program compares, and texts as lists of code points.
use Prim.Native.Nat.{ℕ}
use Prim.Native.Char.{code}
use Prim.Native.String.{String}
use mathlib.Core.Path.{◌≡◌, refl, subst}
use mathlib.Core.Logic.{◌↔◌, inl, inr}
use mathlib.Core.Bool.{Bool, true, false, ◌&&◌, ◌||◌}
use mathlib.Core.List.{List, [], ◌∷◌}
use native.Mathlib.Omega.{arith}
use transparent_gateway.Prelude.Tests.{nat_beq, nat_beq_iff, Bool-cases}
use transparent_gateway.Prelude.Lists.{All}

-- A `str` as its code points, and a `bytes` as its bytes.
abbrev pub Text : Type 0
Text = List ℕ

-- A literal of the source. It stays shut, so that goals show it as it is written.
unfoldable pub str : String → Text
str String.[] = []
str (String.◌∷◌ c s) = code c ∷ str s

-- A type whose values Python compares: the test, and that it decides equality.
pub record Eq {κ} (T : Type κ) : Type κ where
  pub test : T → T → Bool
  pub test_iff : (x y : T) → (test x y ≡ true) ↔ (x ≡ y)

infix 50 ◌==◌
abbrev pub ◌==◌ {κ} : {A : Type κ} ⦃e : Eq A⦄ (x y : A) → Bool
◌==◌ ⦃e⦄ x y = e.test x y

unfoldable pub text_beq : Text → Text → Bool
text_beq [] [] = true
text_beq [] (y ∷ ys) = false
text_beq (x ∷ xs) [] = false
text_beq (x ∷ xs) (y ∷ ys) = nat_beq x y && text_beq xs ys

pub text_beq_iff : (a b : Text) → (text_beq a b ≡ true) ↔ (a ≡ b)
unfolding text_beq
text_beq_iff [] [] = (λ _. refl, λ _. refl)
text_beq_iff [] (y ∷ ys) = (λ h. cc, λ h. cc)
text_beq_iff (x ∷ xs) [] = (λ h. cc, λ h. cc)
text_beq_iff (x ∷ xs) (y ∷ ys) = ground (arith, text_beq_iff xs ys, nat_beq_iff x y)

instance abbrev pub nat_eq : Eq ℕ
nat_eq = record { test = nat_beq; test_iff = nat_beq_iff }

instance abbrev pub text_eq : Eq Text
text_eq = record { test = text_beq; test_iff = text_beq_iff }

pub eq_self {ℓ} : {A : Type ℓ} ⦃e : Eq A⦄ (a : A) → (a == a) ≡ true
eq_self ⦃e⦄ a = (e.test_iff a a).1 refl

-- `x in xs`
abbrev pub contains {ℓ} : {A : Type ℓ} ⦃e : Eq A⦄ → List A → A → Bool
contains [] a = false
contains (x ∷ xs) a = x == a || contains xs a

false-ne-true : false ≡ true → ⊥
false-ne-true h = cc

-- What holds of all elements holds of one that `in` finds.
pub All-contains {ℓ} :
    (P : Text → Type ℓ) (xs : List Text) → All P xs → (a : Text) → contains xs a ≡ true → P a
All-contains P [] h a found = absurd (false-ne-true found)
All-contains P (x ∷ xs) h a found = elim (Bool-cases (text_beq x a)) [
  | inl same ↦ subst P ((text_beq_iff x a).0 same) h.0
  | inr other ↦ All-contains P xs h.1 a (ground (arith, found, other))
]
