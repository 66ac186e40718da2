-- ===== src/Prelude/Members.antt =====
-- Members of filtered, joined and indexed lists.
use Prim.Native.Nat.{ℕ, zero, suc, ◌-◌, ◌≤◌, ◌<◌}
use mathlib.Core.Path.{◌≡◌, refl, sym, ap, ◌∙◌, subst}
use mathlib.Core.Logic.{◌⊎◌, inl, inr}
use mathlib.Core.Bool.{Bool, true, false}
use mathlib.Core.List.{List, [], ◌∷◌, ◌++◌, Memᴰ}
use mathlib.Core.Option.{some}
use native.Mathlib.Omega.{arith}
use transparent_gateway.Prelude.Tests.{if◌then◌else◌}
use transparent_gateway.Prelude.Lists.{length, get_elem?, select, All}

module _ {ℓ} {A : Type ℓ} where
  pub get_elem?-mem : (xs : List A) (i : ℕ) (x : A) → get_elem? xs i ≡ some x → Memᴰ x xs
  get_elem?-mem [] i x h = cc
  get_elem?-mem (y ∷ ys) zero x h = Memᴰ.head (some_inj h)
    where
      some_inj : some y ≡ some x → x ≡ y
      some_inj e = cc
  get_elem?-mem (y ∷ ys) (suc i) x h = Memᴰ.tail (get_elem?-mem ys i x h)

  pub get_elem?_total : (xs : List A) (i : ℕ) → i < length xs → (x : A) × (get_elem? xs i ≡ some x)
  get_elem?_total [] i h = elim h [ ]
  get_elem?_total (x ∷ xs) zero h = (x, refl)
  get_elem?_total (x ∷ xs) (suc i) h = get_elem?_total xs i (omega arith)

  pub mem-get_elem? :
      {x : A} {xs : List A} → Memᴰ x xs → (i : ℕ) × (i < length xs) × (get_elem? xs i ≡ some x)
  mem-get_elem? (Memᴰ.head e) = (0, omega arith, cc)
  mem-get_elem? (Memᴰ.tail m) =
      let (i, below, found) = mem-get_elem? m in (suc i, omega arith, found)

  pub get_elem?-append_right :
      (xs ys : List A) (i : ℕ)
      → length xs ≤ i
      → get_elem? (xs ++ ys) i ≡ get_elem? ys (i - length xs)
  get_elem?-append_right [] ys i h = rw (sub_zero i)
    where
      sub_zero : (i : ℕ) → i - 0 ≡ i
      sub_zero i = omega arith
  get_elem?-append_right (x ∷ xs) ys zero h = absurd (omega arith)
  get_elem?-append_right (x ∷ xs) ys (suc i) h =
      rw (shift i) (get_elem?-append_right xs ys i (omega arith))
    where
      shift : (i : ℕ) → suc i - suc (length xs) ≡ i - length xs
      shift i = omega arith

  mem_if :
      (b : Bool) (y : A) (rest : List A) {x : A}
      → Memᴰ x (if b then y ∷ rest else rest)
      → ((b ≡ true) × (x ≡ y)) ⊎ Memᴰ x rest
  mem_if true y rest (Memᴰ.head e) = inl (refl, e)
  mem_if true y rest (Memᴰ.tail m) = inr m
  mem_if false y rest m = inr m

  mem_if_keep :
      (b : Bool) (y : A) (rest : List A) {x : A}
      → Memᴰ x rest
      → Memᴰ x (if b then y ∷ rest else rest)
  mem_if_keep true y rest m = Memᴰ.tail m
  mem_if_keep false y rest m = m

  module _ (test : A → Bool) where
    pub mem-select : (xs : List A) {x : A} → Memᴰ x (select test xs) → Memᴰ x xs × (test x ≡ true)
    mem-select [] m = elim m [ ]
    mem-select (y ∷ ys) m = elim (mem_if (test y) y (select test ys) m) [
      | inl (passes, same) ↦ (Memᴰ.head same, ap test same ∙ passes)
      | inr m' ↦ let (there, passes) = mem-select ys m' in (Memᴰ.tail there, passes)
    ]

    pub select-mem : (xs : List A) {x : A} → Memᴰ x xs → test x ≡ true → Memᴰ x (select test xs)
    select-mem [] m h = elim m [ ]
    select-mem (y ∷ ys) (Memᴰ.head e) h = rw (ap test (sym e) ∙ h) (Memᴰ.head e)
    select-mem (y ∷ ys) (Memᴰ.tail m) h =
        mem_if_keep (test y) y (select test ys) (select-mem ys m h)

    pub select-eq-nil : (xs : List A) → select test xs ≡ [] → All (λ x. test x ≡ false) xs
    select-eq-nil [] h = tt
    select-eq-nil (x ∷ xs) h = ground (arith, select-eq-nil xs)

  pub All-mem {κ} : (P : A → Type κ) (xs : List A) {x : A} → All P xs → Memᴰ x xs → P x
  All-mem P [] h m = elim m [ ]
  All-mem P (y ∷ ys) h (Memᴰ.head e) = subst P (sym e) h.0
  All-mem P (y ∷ ys) h (Memᴰ.tail m) = All-mem P ys h.1 m
