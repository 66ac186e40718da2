-- ===== src/Relay/Target.antt =====
-- `target_from_connect` of gateway/egress_relay.py.
use transparent_gateway.Prelude.{
  ℕ, ◌≤◌, ◌≡◌, refl, ◌∙◌, ap, ◌≢◌, Bool, true, false, not, ◌&&◌, Option, none, some, List, [], ◌∷◌,
  ◌++◌, arith, Text, str, ltb, ◌==◌, text_eq, text_beq, length, take, drop, all, All, All-append,
  eq_self, nat_eq, ◌<◌, take-append, if◌then◌else◌,
}
use transparent_gateway.Prelude.Int.{pos, pos_part, leb_ℤ}
use transparent_gateway.Python.{
  Result, ok, err, value_error, ◌>>=◌, ◌>>◌, >>=-eq-ok, raise_if, or_raise, reraise, reraise-eq-ok,
  is_digit, startswith, ends_with_char, split_all, split_last, split_last-append, split_all-append,
  split_all-none, count_char, ascii, parse_int, print_nat, parse_int-print_nat,
  print_nat-count_char, print_nat-AllDigits,
}
use transparent_gateway.Wire.{find}

abbrev cut : Option ℕ → Text → Text
cut none s = s
cut (some i) s = take i s

-- `header.split(b"\r\n", 1)[0]`
unfoldable pub first_line : Text → Text
unfolding find
first_line header = cut (find (13 ∷ 10 ∷ []) header) header

-- `s[:-1]`
init : Text → Text
init [] = []
init (c ∷ []) = []
init (c ∷ d ∷ s) = c ∷ init (d ∷ s)

-- The host without its square brackets.
unfoldable pub unbracket : Text → Text
unfolding init
unbracket host =
    if startswith host (b'[' ∷ []) && ends_with_char host b']' then init (drop 1 host) else host

-- `method, authority, version = …`
three : List Text → Result (Text × Text × Text)
three (a ∷ b ∷ c ∷ []) = ok (a, b, c)
three _ = err value_error

is_empty : Text → Bool
is_empty [] = true
is_empty (_ ∷ _) = false

-- `authority` as a host and a port.
unfoldable pub parse_authority : Text → Result (Text × ℕ)
unfolding is_empty
parse_authority authority = do
  split ← or_raise (split_last b':' authority) value_error
  let host = unbracket split.0
  raise_if (is_empty host) value_error
  port ← or_raise (parse_int split.1) value_error
  raise_if (not (leb_ℤ (pos 1) port && leb_ℤ port (pos 65535))) value_error
  ok (host, pos_part port)

-- `method == "CONNECT" and version.startswith("HTTP/")`
is_connect : Text × Text × Text → Bool
is_connect words = words.0 == str "CONNECT" && startswith words.2 (str "HTTP/")

unfoldable pub target_from_connect : Text → Result (Text × ℕ)
unfolding three is_connect
target_from_connect header = reraise value_error do
  line ← ascii (first_line header)
  words ← three (split_all b' ' line)
  raise_if (not (is_connect words)) value_error
  parse_authority words.1

parse_authority_valid :
    (authority host : Text) (port : ℕ)
    → parse_authority authority ≡ ok (host, port)
    → (host ≢ []) × (1 ≤ port) × (port ≤ 65535)
unfolding parse_authority
parse_authority_valid authority host port h = ground arith

-- An accepted request names a host and a port that exists.
pub target_from_connect_valid :
    (header host : Text) (port : ℕ)
    → target_from_connect header ≡ ok (host, port)
    → (host ≢ []) × (1 ≤ port) × (port ≤ 65535)
unfolding target_from_connect
target_from_connect_valid header host port h =
    let (line, _, h₁) = >>=-eq-ok (ascii (first_line header)) _ (reraise-eq-ok value_error _ h) in
    let (words, _, h₂) = >>=-eq-ok (three (split_all b' ' line)) _ h₁ in
    let (_, _, h₃) = >>=-eq-ok (raise_if (not (is_connect words)) value_error) _ h₂ in
    parse_authority_valid words.1 host port h₃

unfoldable pub print_authority : Text → ℕ → Text
print_authority host port = host ++ b':' ∷ print_nat port

-- A host as it stands in an authority: an IPv6 address in square brackets, any other host as it is.
pub in_authority : (bracketed : Bool) → Text → Text
in_authority true host = b'[' ∷ (host ++ b']' ∷ [])
in_authority false host = host

init-append : (s : Text) (c : ℕ) → init (s ++ c ∷ []) ≡ s
unfolding init
init-append [] c = refl
init-append (d ∷ []) c = refl
init-append (d ∷ e ∷ s) c = ap (λ t. d ∷ t) (init-append (e ∷ s) c)

ends_with_char-append : (d : ℕ) (s : Text) (c : ℕ) → ends_with_char (d ∷ (s ++ c ∷ [])) c ≡ true
unfolding ends_with_char
ends_with_char-append d [] c = eq_self c
ends_with_char-append d (e ∷ s) c = ends_with_char-append e s c

unbracket-in_authority :
    (bracketed : Bool) (host : Text)
    → startswith host (b'[' ∷ []) ≡ false
    → unbracket (in_authority bracketed host) ≡ host
unfolding unbracket in_authority startswith
unbracket-in_authority true host plain =
    rw (ends_with_char-append b'[' host b']', init-append host b']') refl
unbracket-in_authority false host plain = rw plain refl

is_empty_lem : (host : Text) → host ≢ [] → is_empty host ≡ false
unfolding is_empty
is_empty_lem [] nonempty = absurd (nonempty refl)
is_empty_lem (c ∷ host) nonempty = refl

parse_authority-print_authority :
    (shown host : Text) (port : ℕ)
    → host ≢ []
    → unbracket shown ≡ host
    → 1 ≤ port
    → port ≤ 65535
    → parse_authority (print_authority shown port) ≡ ok (host, port)
unfolding parse_authority print_authority is_digit
parse_authority-print_authority shown host port nonempty plain low high =
    rw
      (
        split_last-append b':' shown (print_nat port) (print_nat-count_char b':' port refl),
        plain,
        is_empty_lem host nonempty,
        parse_int-print_nat port,
      )
      (ground arith)

find_crlf :
    (s t : Text) → All (λ c. c ≢ 13) s → find (13 ∷ 10 ∷ []) (s ++ 13 ∷ 10 ∷ t) ≡ some (length s)
unfolding find startswith
find_crlf [] t h = refl
find_crlf (c ∷ s) t h = ground (arith, find_crlf s t h.1, h.0)

first_line_lem : (s t : Text) → All (λ c. c ≢ 13) s → first_line (s ++ 13 ∷ 10 ∷ t) ≡ s
unfolding first_line
first_line_lem s t h =
    ap (λ o. cut o (s ++ 13 ∷ 10 ∷ t)) (find_crlf s t h) ∙ take-append s (13 ∷ 10 ∷ t)

-- The characters that stand in a request line's authority: ASCII, no space and no line break.
abbrev pub IsAuthorityChar : ℕ → Type 0
IsAuthorityChar c = (c < 128) × (c ≢ 32) × (c ≢ 13)

All-mono : {P Q : ℕ → Type 0} → ((c : ℕ) → P c → Q c) → (s : Text) → All P s → All Q s
All-mono f [] h = tt
All-mono f (c ∷ s) h = (f c h.0, All-mono f s h.1)

all_ascii : (s : Text) → All (λ c. c < 128) s → all (λ c. ltb c 128) s ≡ true
all_ascii [] h = refl
all_ascii (c ∷ s) h = ground (arith, all_ascii s h.1, h.0)

no_space : (s : Text) → All (λ c. c ≢ 32) s → count_char 32 s ≡ 0
unfolding count_char
no_space [] h = refl
no_space (c ∷ s) h = ground (arith, no_space s h.1, h.0)

digit_IsAuthorityChar : (c : ℕ) → is_digit c ≡ true → IsAuthorityChar c
unfolding is_digit
digit_IsAuthorityChar c h = (ground arith, λ e. ground arith, λ e. ground arith)

print_authority-chars :
    (host : Text) (port : ℕ)
    → All IsAuthorityChar host
    → All IsAuthorityChar (print_authority host port)
unfolding print_authority
print_authority-chars host port h = All-append IsAuthorityChar host (b':' ∷ print_nat port) h (
  (omega arith, λ e. omega arith, λ e. omega arith),
  All-mono digit_IsAuthorityChar (print_nat port) (print_nat-AllDigits port),
)

-- `CONNECT authority HTTP/1.1`
pub request_line : Text → Text
request_line authority = str "CONNECT" ++ 32 ∷ (authority ++ 32 ∷ str "HTTP/1.1")

abbrev IsLineChar : ℕ → Type 0
IsLineChar c = (c < 128) × (c ≢ 13)

request_line-chars :
    (authority : Text) → All IsAuthorityChar authority → All IsLineChar (request_line authority)
unfolding request_line str
request_line-chars authority h =
    All-append IsLineChar (str "CONNECT ") (authority ++ 32 ∷ str "HTTP/1.1") (omega arith) (
      All-append IsLineChar authority (32 ∷ str "HTTP/1.1")
        (All-mono {P = IsAuthorityChar} {Q = IsLineChar} (λ c p. (p.0, p.2)) authority h)
        (omega arith))

split_request_line :
    (authority : Text)
    → All IsAuthorityChar authority
    → split_all 32 (request_line authority) ≡ str "CONNECT" ∷ authority ∷ str "HTTP/1.1" ∷ []
unfolding request_line str count_char
split_request_line authority h =
    split_all-append 32 (str "CONNECT") (authority ++ 32 ∷ str "HTTP/1.1") refl
    ∙ ap (λ ws. str "CONNECT" ∷ ws)
        (split_all-append 32 authority (str "HTTP/1.1") (
          no_space authority
            (All-mono {P = IsAuthorityChar} {Q = λ c. c ≢ 32} (λ c p. p.1) authority h)))
    ∙ ap (λ ws. str "CONNECT" ∷ authority ∷ ws) (split_all-none 32 (str "HTTP/1.1") refl)

ascii_lem : (s : Text) → All (λ c. c < 128) s → ascii s ≡ ok s
unfolding ascii
ascii_lem s h = rw (all_ascii s h)

is_connect_lem : (authority : Text) → is_connect (str "CONNECT", authority, str "HTTP/1.1") ≡ true
unfolding is_connect str startswith text_beq
is_connect_lem authority = refl

in_authority-chars :
    (bracketed : Bool) (host : Text)
    → All IsAuthorityChar host
    → All IsAuthorityChar (in_authority bracketed host)
unfolding in_authority
in_authority-chars false host h = h
in_authority-chars true host h = (
  (omega arith, λ e. omega arith, λ e. omega arith),
  All-append IsAuthorityChar host (b']' ∷ []) h
      ((omega arith, λ e. omega arith, λ e. omega arith), tt),
)

-- A CONNECT request for a host, in square brackets or not, and a port from 1 to 65535 is read as that
-- host without brackets and that port, whatever headers follow. The host is not empty, does not begin
-- with a bracket itself, and has ASCII characters other than a space and a carriage return.
pub target_from_connect-request :
    (bracketed : Bool) (host headers : Text) (port : ℕ)
    → host ≢ []
    → startswith host (b'[' ∷ []) ≡ false
    → All IsAuthorityChar host
    → 1 ≤ port
    → port ≤ 65535
    → target_from_connect
        (request_line (print_authority (in_authority bracketed host) port) ++ 13 ∷ 10 ∷ headers)
      ≡ ok (host, port)
unfolding target_from_connect
target_from_connect-request bracketed host headers port nonempty plain chars low high =
    let shown = in_authority bracketed host in
    let authority = print_authority shown port in
    let line = request_line authority in
    let authority_chars =
      print_authority-chars shown port (in_authority-chars bracketed host chars) in
    let line_chars = request_line-chars authority authority_chars in
    rw (
      first_line_lem line headers
          (All-mono {P = IsLineChar} {Q = λ c. c ≢ 13} (λ c p. p.1) line line_chars),
      ascii_lem line (All-mono {P = IsLineChar} {Q = λ c. c < 128} (λ c p. p.0) line line_chars),
      split_request_line authority authority_chars,
      is_connect_lem authority,
      parse_authority-print_authority shown host port nonempty
          (unbracket-in_authority bracketed host plain) low high,
    )
