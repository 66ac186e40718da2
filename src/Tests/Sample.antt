-- ===== src/Tests/Sample.antt =====
-- A runtime in which every parameter of the model has a concrete value: floats are whole numbers,
-- an address is written as its number, and a name is its own IDNA form.
use transparent_gateway.Sources.Connectors.{Url}
use transparent_gateway.Tool.Settings.{Parsers}
use transparent_gateway.Prelude.{
  ℕ, ◌+◌, ◌*◌, ◌/◌, Option, none, some, [], ◌∷◌, arith, Text, str, ltb, nat_beq, ◌==◌, nat_eq,
  text_eq, if◌then◌else◌,
}
use transparent_gateway.Prelude.Int.{pos, pos_part}
use transparent_gateway.Python.{
  Float, bits, Address, v4, v6, Runtime, IsFloatOrder, ok, parse_int, print_nat,
}

abbrev number : Float → ℕ
number (bits n) = n

read_address : Text → Option Address
read_address [] = none
read_address (c ∷ s) =
    if c == b':'
    then elim (parse_int s) [ none ↦ none | some n ↦ some (v6 (pos_part n)) ]
    else elim (parse_int (c ∷ s)) [ none ↦ none | some n ↦ some (v4 (pos_part n)) ]

write_address : Address → Text
write_address (v4 n) = print_nat n
write_address (v6 n) = b':' ∷ print_nat n

dotted : Text → Option Text
dotted s = if s == str "10.0.0.1" then some (10 ∷ 0 ∷ 0 ∷ 1 ∷ []) else none

unfoldable pub sample : Runtime
unfolding read_address write_address dotted
sample = record {
  of_int = λ n. bits (pos_part n);
  add = λ a b. bits (number a + number b);
  mul = λ a b. bits (number a * number b);
  div = λ a b. bits (number a / number b);
  lt = λ a b. ltb (number a) (number b);
  eq = λ a b. nat_beq (number a) (number b);
  round6 = λ a. a;
  trunc = λ a. ok (pos (number a));
  parse_float = λ s. elim (parse_int s) [ none ↦ none | some n ↦ some (bits (pos_part n)) ];
  repr = λ v. str "{}";
  parse_address = read_address;
  format_address = write_address;
  idna = λ s. some s;
  inet_pton4 = dotted;
  inet_pton6 = λ s. none;
  inet_aton = dotted;
}

-- The order of the sample runtime is that of the numbers.
pub sample_order : IsFloatOrder sample
unfolding sample
sample_order = record {
  lt_irrefl = λ a. ground arith;
  lt_trans = λ a b c p q. ground arith;
  eq_trans = λ a b c p q. ground arith;
  eq-lt = λ a b c p q. ground arith;
  lt-eq = λ a b c p q. ground arith;
  lt_ne = λ a b p. ground arith;
  eq_sym = λ a b. ground arith;
}

abbrev pub sample_url : Url
sample_url = record {
  hostname = str "echo.example";
  username = [];
  password = [];
  fragment = [];
  query = [];
}

abbrev pub sample_parsers : Parsers
sample_parsers = record {
  urlsplit = λ _. ok (str "https", sample_url);
  ipv4_network = λ s. some (s, 24);
}
