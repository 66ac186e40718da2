-- ===== src/Python/Platform.antt =====
-- The parts of the Python runtime that the model takes as an argument: arithmetic on floats, the
-- text of a float or a container, the parser and printer of `ipaddress`, and the IDNA codec.
use transparent_gateway.Prelude.{
  ℕ, ◌-◌, ◌*◌, ◌/◌, ◌^◌, ◌≡◌, Bool, true, false, Option, some, ◌∷◌, ◌++◌, Text, str,
}
use transparent_gateway.Prelude.Int.{ℤ, pos, negsuc}
use transparent_gateway.Python.Exceptions.{Result, ok, err, type_error, value_error, or_raise}
use transparent_gateway.Python.Values.{Float, Value, null, bool, int, float, text}
use transparent_gateway.Python.Numbers.{parse_int, print_nat}

-- `IPv4Address` and `IPv6Address`, by their number.
pub data Address : Type 0 where
  v4 v6 : ℕ → Address

pub record Runtime : Type 0 where
  -- `float(n)`, `a + b`, `a * b`, `a / b`, `a < b`, `a == b`, `round(a, 6)`
  pub of_int : ℤ → Float
  pub add : Float → Float → Float
  pub mul : Float → Float → Float
  pub div : Float → Float → Float
  pub lt : Float → Float → Bool
  pub eq : Float → Float → Bool
  pub round6 : Float → Float
  -- `int(a)`; it raises on an infinity and on a NaN
  pub trunc : Float → Result ℤ
  -- `float(s)`; `none` is its `ValueError`
  pub parse_float : Text → Option Float
  -- `str(v)` of a float, a list or a dict
  pub repr : Value → Text
  -- `ipaddress.ip_address(s)` and `str(address)`; `none` is its `ValueError`
  pub parse_address : Text → Option Address
  pub format_address : Address → Text
  -- `s.encode("idna").decode("ascii")`; `none` is its `UnicodeError`
  pub idna : Text → Option Text
  -- `socket.inet_pton(AF_INET, s)`, `socket.inet_pton(AF_INET6, s)` and `socket.inet_aton(s)`:
  -- 4, 16 and 4 bytes; `none` is their `OSError`
  pub inet_pton4 : Text → Option Text
  pub inet_pton6 : Text → Option Text
  pub inet_aton : Text → Option Text

-- The comparisons of IEEE 754, with NaN and the signed zeros among the values.
pub record IsFloatOrder (R : Runtime) : Type 0 where
  pub lt_irrefl : (a : Float) → R.lt a a ≡ false
  pub lt_trans : (a b c : Float) → R.lt a b ≡ true → R.lt b c ≡ true → R.lt a c ≡ true
  pub eq_trans : (a b c : Float) → R.eq a b ≡ true → R.eq b c ≡ true → R.eq a c ≡ true
  pub eq-lt : (a b c : Float) → R.eq a b ≡ true → R.lt b c ≡ true → R.lt a c ≡ true
  pub lt-eq : (a b c : Float) → R.lt a b ≡ true → R.eq b c ≡ true → R.lt a c ≡ true
  pub lt_ne : (a b : Float) → R.lt a b ≡ true → R.eq a b ≡ false
  pub eq_sym : (a b : Float) → R.eq a b ≡ R.eq b a

-- `ip_address(str(a))` is `a`.
abbrev pub IsAddressPrinter : Runtime → Type 0
IsAddressPrinter R = (a : Address) → R.parse_address (R.format_address a) ≡ some a

unfoldable pub print_int : ℤ → Text
print_int (pos n) = print_nat n
print_int (negsuc n) = b'-' ∷ print_nat (Prim.Native.Nat.suc n)

module _ (R : Runtime) where
  -- `str(v)`
  unfoldable pub to_str : Value → Text
  unfolding print_int
  to_str null = str "None"
  to_str (bool true) = str "True"
  to_str (bool false) = str "False"
  to_str (int n) = print_int n
  to_str (text s) = s
  to_str v = R.repr v

  -- `int(v)`
  unfoldable pub to_int : Value → Result ℤ
  to_int (bool true) = ok (pos 1)
  to_int (bool false) = ok (pos 0)
  to_int (int n) = ok n
  to_int (float f) = R.trunc f
  to_int (text s) = or_raise (parse_int s) value_error
  to_int _ = err type_error

  -- `str(ip_network(f"{a}/{prefix}", strict=False))`
  unfoldable pub network_text : Address → ℕ → Text
  network_text (v4 n) prefix =
      let block = 2 ^ (32 - prefix) in
      R.format_address (v4 (n / block * block)) ++ b'/' ∷ print_nat prefix
  network_text (v6 n) prefix =
      let block = 2 ^ (128 - prefix) in
      R.format_address (v6 (n / block * block)) ++ b'/' ∷ print_nat prefix
