-- ===== src/Python/Strings.antt =====
-- The `str` and `bytes` methods that the code calls. Case is changed in ASCII letters only.
use transparent_gateway.Prelude.{
  ℕ, suc, ◌+◌, ◌-◌, ◌≡◌, refl, Bool, true, false, ◌&&◌, ◌||◌, Option, none, some, List, [], ◌∷◌,
  ◌++◌, map, arith, ltb, leb, Text, ◌==◌, nat_eq, contains, Bool-cases, inl, inr, if◌then◌else◌,
}

unfoldable pub lower : Text → Text
lower = map (λ c. if leb b'A' c && leb c b'Z' then c + 32 else c)

unfoldable pub upper : Text → Text
upper = map (λ c. if leb b'a' c && leb c b'z' then c - 32 else c)

unfoldable pub startswith : Text → Text → Bool
startswith s [] = true
startswith [] (p ∷ ps) = false
startswith (c ∷ s) (p ∷ ps) = c == p && startswith s ps

-- `s.endswith(c)`, for one character
unfoldable pub ends_with_char : Text → ℕ → Bool
ends_with_char [] p = false
ends_with_char (c ∷ []) p = c == p
ends_with_char (c ∷ d ∷ s) p = ends_with_char (d ∷ s) p

-- `s.count(c)`
unfoldable pub count_char : ℕ → Text → ℕ
count_char p [] = 0
count_char p (c ∷ s) = let n = count_char p s in if c == p then suc n else n

-- `s.split(c, 1)`: the text before the first `c` and the text after it, or `none` if there is none
unfoldable pub split_first : ℕ → Text → Option (Text × Text)
split_first p [] = none
split_first p (c ∷ s) =
    let rest : Option (Text × Text) = elim (split_first p s) [
      | none ↦ none
      | some (a, b) ↦ some (c ∷ a, b)
    ] in
    if c == p then some ([], s) else rest

-- `s.rsplit(c, 1)`: the text before the last `c` and the text after it
unfoldable pub split_last : ℕ → Text → Option (Text × Text)
split_last p [] = none
split_last p (c ∷ s) = elim (split_last p s) [
  | none ↦ if c == p then some ([], s) else none
  | some (a, b) ↦ some (c ∷ a, b)
]

-- `s.split(c)`
unfoldable pub split_all : ℕ → Text → List Text
split_all p [] = [] ∷ []
split_all p (c ∷ s) = elim (split_all p s) [
  | [] ↦ (c ∷ []) ∷ []
  | w ∷ ws ↦ if c == p then [] ∷ w ∷ ws else (c ∷ w) ∷ ws
]

lstrip_chars : List ℕ → Text → Text
lstrip_chars set [] = []
lstrip_chars set (c ∷ s) = let rest = lstrip_chars set s in if contains set c then rest else c ∷ s

-- `s.rstrip(set)`
unfoldable pub rstrip_chars : List ℕ → Text → Text
rstrip_chars set [] = []
rstrip_chars set (c ∷ s) = elim (rstrip_chars set s) [
  | [] ↦ if contains set c then [] else c ∷ []
  | d ∷ t ↦ c ∷ d ∷ t
]

-- `s.strip(set)`
unfoldable pub strip_chars : List ℕ → Text → Text
unfolding lstrip_chars rstrip_chars
strip_chars set s = rstrip_chars set (lstrip_chars set s)

-- `s < t`, by code points
unfoldable pub text_lt : Text → Text → Bool
text_lt s [] = false
text_lt [] (d ∷ t) = true
text_lt (c ∷ s) (d ∷ t) = ltb c d || (c == d && text_lt s t)

pub text_lt_irrefl : (s : Text) → text_lt s s ≡ false
unfolding text_lt
text_lt_irrefl [] = refl
text_lt_irrefl (c ∷ s) = ground (arith, text_lt_irrefl s)

pub text_lt_trans : (a b c : Text) → text_lt a b ≡ true → text_lt b c ≡ true → text_lt a c ≡ true
unfolding text_lt
text_lt_trans a b [] p q = ground arith
text_lt_trans a [] (z ∷ c) p q = ground arith
text_lt_trans [] (y ∷ b) (z ∷ c) p q = refl
text_lt_trans (x ∷ a) (y ∷ b) (z ∷ c) p q = ground (arith, text_lt_trans a b c)

module _ (p : ℕ) where
  -- A text without the separator in its second part splits there, at the last separator.
  pub split_last-none : (s : Text) → count_char p s ≡ 0 → split_last p s ≡ none
  unfolding split_last count_char
  split_last-none [] h = refl
  split_last-none (c ∷ s) h = ground (arith, split_last-none s)

  pub split_last-append :
      (s t : Text) → count_char p t ≡ 0 → split_last p (s ++ p ∷ t) ≡ some (s, t)
  unfolding split_last
  split_last-append [] t h = ground (arith, split_last-none t h)
  split_last-append (c ∷ s) t h = ground (arith, split_last-append s t h)

  pub count_char-append : (s t : Text) → count_char p (s ++ t) ≡ count_char p s + count_char p t
  unfolding count_char
  count_char-append [] t = omega arith
  count_char-append (c ∷ s) t = ground (arith, count_char-append s t)

  pub split_first-append :
      (s t : Text) → count_char p s ≡ 0 → split_first p (s ++ p ∷ t) ≡ some (s, t)
  unfolding split_first count_char
  split_first-append [] t h = ground arith
  split_first-append (c ∷ s) t h = ground (arith, split_first-append s t)

  pub split_all-none : (s : Text) → count_char p s ≡ 0 → split_all p s ≡ s ∷ []
  unfolding split_all count_char
  split_all-none [] h = refl
  split_all-none (c ∷ s) h = ground (arith, split_all-none s)

  split_all-cons : (s : Text) → (w : Text) × (ws : List Text) × (split_all p s ≡ w ∷ ws)
  unfolding split_all
  split_all-cons [] = ([], [], refl)
  split_all-cons (c ∷ s) = elim (Bool-cases (c == p)) [
    | inl h ↦ let (w, ws, e) = split_all-cons s in ([], w ∷ ws, ground arith)
    | inr h ↦ let (w, ws, e) = split_all-cons s in (c ∷ w, ws, ground arith)
  ]

  pub split_all-append :
      (s t : Text) → count_char p s ≡ 0 → split_all p (s ++ p ∷ t) ≡ s ∷ split_all p t
  unfolding split_all count_char
  split_all-append [] t h = let (w, ws, e) = split_all-cons t in ground arith
  split_all-append (c ∷ s) t h =
      let (w, ws, e) = split_all-cons t in ground (arith, split_all-append s t)
