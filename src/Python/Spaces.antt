-- ===== src/Python/Spaces.antt =====
-- Texts without a space, which `str.strip` leaves alone.
use transparent_gateway.Prelude.{
  ℕ, ◌≡◌, refl, ap, ◌∙◌, Bool, true, false, ◌||◌, [], ◌∷◌, ◌++◌, arith, Text, any, All,
}
use transparent_gateway.Python.Numbers.{is_space, is_digit, lstrip, rstrip, strip}

lstrip-no_space : (s : Text) → any is_space s ≡ false → lstrip s ≡ s
unfolding lstrip
lstrip-no_space [] h = refl
lstrip-no_space (c ∷ s) h = ground (arith, h)

rstrip-no_space : (s : Text) → any is_space s ≡ false → rstrip s ≡ s
unfolding rstrip
rstrip-no_space [] h = refl
rstrip-no_space (c ∷ []) h = ground (arith, h)
rstrip-no_space (c ∷ d ∷ s) h = rw (rstrip-no_space (d ∷ s) (ground (arith, h)), rstrip)

pub any-append : (test : ℕ → Bool) (s t : Text) → any test (s ++ t) ≡ (any test s || any test t)
any-append test [] t = refl
any-append test (c ∷ s) t = ground (arith, any-append test s t)

pub digits-no_space : (s : Text) → All (λ c. is_digit c ≡ true) s → any is_space s ≡ false
unfolding is_space is_digit
digits-no_space [] h = refl
digits-no_space (c ∷ s) h = ground (arith, digits-no_space s h.1)

pub strip-no_space : (s : Text) → any is_space s ≡ false → strip s ≡ s
unfolding strip
strip-no_space s h = ap rstrip (lstrip-no_space s h) ∙ rstrip-no_space s h
