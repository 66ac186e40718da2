-- ===== src/Python/Numbers.antt =====
-- `int(…)` of a text and the decimal digits of a number, over ASCII digits.
use transparent_gateway.Prelude.{
  ℕ, zero, suc, ◌+◌, ◌-◌, ◌*◌, ◌/◌, ◌%◌, ◌≡◌, refl, Bool, true, false, ◌&&◌, ◌||◌, Option, none,
  some, [], ◌∷◌, Text, str, ◌==◌, nat_eq, leb, if◌then◌else◌,
}
use transparent_gateway.Prelude.Int.{ℤ, pos, neg_ℕ}

-- The ASCII characters of `str.isspace`.
unfoldable pub is_space : ℕ → Bool
is_space c = (leb 9 c && leb c 13) || (leb 28 c && leb c 32)

unfoldable pub lstrip : Text → Text
unfolding is_space
lstrip [] = []
lstrip (c ∷ s) = let rest = lstrip s in if is_space c then rest else c ∷ s

-- `s.rstrip()`: what is kept ends in a character that is no space.
unfoldable pub rstrip : Text → Text
unfolding is_space
rstrip [] = []
rstrip (c ∷ s) = elim (rstrip s) [ [] ↦ if is_space c then [] else c ∷ [] | d ∷ t ↦ c ∷ d ∷ t ]

unfoldable pub strip : Text → Text
unfolding lstrip rstrip
strip s = rstrip (lstrip s)

unfoldable pub is_digit : ℕ → Bool
is_digit c = leb b'0' c && leb c b'9'

-- Digits, with single underscores between them. `after` says that a digit stands before.
unfoldable pub read_digits : Text → Bool → ℕ → Option ℕ
unfolding is_digit
read_digits [] after n = if after then some n else none
read_digits (c ∷ s) after n =
    let digit = read_digits s true (n * 10 + (c - b'0')) in
    let under = read_digits s false n in
    if is_digit c then digit else if after && c == b'_' then under else none

unfoldable pub read_signed : Text → Option ℤ
unfolding read_digits
read_signed [] = none
read_signed (c ∷ s) =
    if c == b'-'
    then elim (read_digits s false 0) [ none ↦ none | some n ↦ some (neg_ℕ n) ]
    else if c == b'+'
    then elim (read_digits s false 0) [ none ↦ none | some n ↦ some (pos n) ]
    else elim (read_digits (c ∷ s) false 0) [ none ↦ none | some n ↦ some (pos n) ]

-- `int(s)`; `none` is its `ValueError`.
unfoldable pub parse_int : Text → Option ℤ
unfolding read_signed strip
parse_int s = read_signed (strip s)

-- The last digits of `n` in front of `rest`. A number below 10 ^ (fuel + 1) is printed whole.
unfoldable pub print_digits : ℕ → ℕ → Text → Text
print_digits zero n rest = (n % 10 + b'0') ∷ rest
print_digits (suc fuel) n rest = elim (leb n 9) [
  | true ↦ (n + b'0') ∷ rest
  | false ↦ print_digits fuel (n / 10) ((n % 10 + b'0') ∷ rest)
]

-- `str(n)`
unfoldable pub print_nat : ℕ → Text
unfolding print_digits
print_nat n = print_digits n n []

print_nat_example : print_nat 65535 ≡ str "65535"
unfolding print_nat str
print_nat_example = refl

parse_int_examples :
    (parse_int (str " 80\n") ≡ some (pos 80))
    × (parse_int (str "1_0") ≡ some (pos 10))
    × (parse_int (str "1__0") ≡ none)
    × (parse_int (str "") ≡ none)
unfolding parse_int str
parse_int_examples = (refl, refl, refl, refl)
