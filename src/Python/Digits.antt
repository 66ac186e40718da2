-- ===== src/Python/Digits.antt =====
-- `int(str(n))` is `n`, and the characters of `str(n)` are digits.
use transparent_gateway.Prelude.{
  ℕ, zero, suc, ◌+◌, ◌*◌, ◌/◌, ◌%◌, ◌≤◌, ◌<◌, ◌≡◌, refl, ◌∙◌, ap, sym, subst, Bool, true, false,
  some, [], ◌∷◌, arith, Text, nat_eq, All,
}
use native.Mathlib.Decide.{dec_le}
use transparent_gateway.Prelude.Int.{pos}
use transparent_gateway.Python.Numbers.{
  is_space, is_digit, lstrip, rstrip, strip, read_digits, read_signed, parse_int, print_digits,
  print_nat,
}
use transparent_gateway.Python.Strings.{count_char}

abbrev pub AllDigits : Text → Type 0
AllDigits = All (λ c. is_digit c ≡ true)

digit_of : (n : ℕ) → n ≤ 9 → is_digit (n + b'0') ≡ true
unfolding is_digit
digit_of n h = ground arith

print_digits_small :
    (fuel n : ℕ) (rest : Text) → n ≤ 9 → print_digits (suc fuel) n rest ≡ (n + b'0') ∷ rest
unfolding print_digits
print_digits_small fuel n rest h = ground arith

print_digits_big :
    (fuel n : ℕ) (rest : Text)
    → 9 < n
    → print_digits (suc fuel) n rest ≡ print_digits fuel (n / 10) ((n % 10 + b'0') ∷ rest)
unfolding print_digits
print_digits_big fuel n rest h = ground arith

read_digits_step :
    (d : ℕ) (rest : Text) (b : Bool) (n : ℕ)
    → d ≤ 9
    → read_digits ((d + b'0') ∷ rest) b n ≡ read_digits rest true (n * 10 + d)
unfolding read_digits
read_digits_step d rest b n h =
    rw digit_of (ap (λ m. read_digits rest true (n * 10 + m)) (omega arith))

print_digits-AllDigits :
    (fuel n : ℕ) (rest : Text) → AllDigits rest → AllDigits (print_digits fuel n rest)
unfolding print_digits
print_digits-AllDigits zero n rest h = (digit_of (n % 10) (omega arith), h)
print_digits-AllDigits (suc fuel) n rest h = elim (dec_le n 9) [
  | yes small ↦ subst AllDigits (sym (print_digits_small fuel n rest small)) (digit_of n small, h)
  | no big ↦ subst AllDigits (sym (print_digits_big fuel n rest (omega arith))) (
      print_digits-AllDigits fuel (n / 10) ((n % 10 + b'0') ∷ rest)
        (digit_of (n % 10) (omega arith), h))
]

read_digits-print_digits :
    (fuel n : ℕ) (rest : Text) (b : Bool)
    → n ≤ fuel
    → read_digits (print_digits fuel n rest) b 0 ≡ read_digits rest true n
unfolding print_digits
read_digits-print_digits zero n rest b h =
    read_digits_step (n % 10) rest b 0 (omega arith) ∙ ap (read_digits rest true) (omega arith)
read_digits-print_digits (suc fuel) n rest b h = elim (dec_le n 9) [
  | yes small ↦
      ap (λ s. read_digits s b 0) (print_digits_small fuel n rest small)
      ∙ read_digits_step n rest b 0 small
      ∙ ap (read_digits rest true) (omega arith)
  | no big ↦
      ap (λ s. read_digits s b 0) (print_digits_big fuel n rest (omega arith))
      ∙ read_digits-print_digits fuel (n / 10) ((n % 10 + b'0') ∷ rest) b (omega arith)
      ∙ read_digits_step (n % 10) rest true (n / 10) (omega arith)
      ∙ ap (read_digits rest true) (omega arith)
]

digit_not_space : (c : ℕ) → is_digit c ≡ true → is_space c ≡ false
unfolding is_digit is_space
digit_not_space c h = ground arith

lstrip-digits : (s : Text) → AllDigits s → lstrip s ≡ s
unfolding lstrip
lstrip-digits [] h = refl
lstrip-digits (c ∷ s) h = rw (digit_not_space c h.0)

rstrip-digits : (s : Text) → AllDigits s → rstrip s ≡ s
unfolding rstrip
rstrip-digits [] h = refl
rstrip-digits (c ∷ []) h = rw (digit_not_space c h.0)
rstrip-digits (c ∷ d ∷ s) h = rw (rstrip-digits (d ∷ s) h.1, rstrip)

pub strip-digits : (s : Text) → AllDigits s → strip s ≡ s
unfolding strip
strip-digits s h = ap rstrip (lstrip-digits s h) ∙ rstrip-digits s h

pub print_nat-AllDigits : (n : ℕ) → AllDigits (print_nat n)
unfolding print_nat
print_nat-AllDigits n = print_digits-AllDigits n n [] tt

read_signed-digits :
    (s : Text) (n : ℕ) → AllDigits s → read_digits s false 0 ≡ some n → read_signed s ≡ some (pos n)
unfolding read_signed is_digit read_digits
read_signed-digits [] n h e = cc
read_signed-digits (c ∷ s) n h e = ground arith

read_digits-print_nat : (n : ℕ) → read_digits (print_nat n) false 0 ≡ some n
unfolding print_nat read_digits
read_digits-print_nat n = read_digits-print_digits n n [] false (omega arith)

-- A number is read back from its decimal text.
pub parse_int-print_nat : (n : ℕ) → parse_int (print_nat n) ≡ some (pos n)
unfolding parse_int
parse_int-print_nat n =
    ap read_signed (strip-digits (print_nat n) (print_nat-AllDigits n))
    ∙ read_signed-digits (print_nat n) n (print_nat-AllDigits n) (read_digits-print_nat n)

AllDigits-count_char : (c : ℕ) (s : Text) → is_digit c ≡ false → AllDigits s → count_char c s ≡ 0
unfolding count_char
AllDigits-count_char c [] no_digit h = refl
AllDigits-count_char c (d ∷ s) no_digit h = ground (arith, AllDigits-count_char c s no_digit h.1)

-- A character that is no digit does not occur in a decimal text.
pub print_nat-count_char : (c n : ℕ) → is_digit c ≡ false → count_char c (print_nat n) ≡ 0
print_nat-count_char c n h = AllDigits-count_char c (print_nat n) h (print_nat-AllDigits n)
