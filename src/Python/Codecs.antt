-- ===== src/Python/Codecs.antt =====
-- `str.encode()` and `base64.b64encode`.
use transparent_gateway.Prelude.{
  ℕ, ◌+◌, ◌-◌, ◌*◌, ◌/◌, ◌%◌, ◌≡◌, refl, Bool, ◌&&◌, [], ◌∷◌, ◌++◌, Text, str, ltb, leb, nat_beq,
  all, if◌then◌else◌,
}
use transparent_gateway.Python.Exceptions.{Result, ok, err, unicode_error, ◌>>=◌}

utf8_char : ℕ → Text
utf8_char c =
    if ltb c 0x80
    then c ∷ []
    else if ltb c 0x800
    then (0xC0 + c / 64) ∷ (0x80 + c % 64) ∷ []
    else if ltb c 0x10000
    then (0xE0 + c / 4096) ∷ (0x80 + c / 64 % 64) ∷ (0x80 + c % 64) ∷ []
    else (0xF0 + c / 262144) ∷ (0x80 + c / 4096 % 64) ∷ (0x80 + c / 64 % 64) ∷ (0x80 + c % 64) ∷ []

is_surrogate : ℕ → Bool
is_surrogate c = leb 0xD800 c && leb c 0xDFFF

-- `s.encode()`: UTF-8, which has no bytes for a surrogate
unfoldable pub encode : Text → Result Text
unfolding utf8_char is_surrogate
encode [] = ok []
encode (c ∷ s) = do
  rest ← encode s
  if is_surrogate c then err unicode_error else ok (utf8_char c ++ rest)

-- `s.decode("ascii")` and `s.encode("ascii")`
unfoldable pub ascii : Text → Result Text
ascii s = if all (λ c. ltb c 128) s then ok s else err unicode_error

b64_digit : ℕ → ℕ
b64_digit n =
    if ltb n 26
    then n + b'A'
    else if ltb n 52
    then n + 71
    else if ltb n 62
    then n - 4
    else if nat_beq n 62
    then b'+'
    else b'/'

unfoldable pub b64encode : Text → Text
unfolding b64_digit
b64encode [] = []
b64encode (a ∷ []) = b64_digit (a / 4) ∷ b64_digit (a % 4 * 16) ∷ b'=' ∷ b'=' ∷ []
b64encode (a ∷ b ∷ []) =
    b64_digit (a / 4) ∷ b64_digit (a % 4 * 16 + b / 16) ∷ b64_digit (b % 16 * 4) ∷ b'=' ∷ []
b64encode (a ∷ b ∷ c ∷ s) =
    b64_digit (a / 4)
    ∷ b64_digit (a % 4 * 16 + b / 16)
    ∷ b64_digit (b % 16 * 4 + c / 64)
    ∷ b64_digit (c % 64)
    ∷ b64encode s

b64encode_example : b64encode (str "user:pass") ≡ str "dXNlcjpwYXNz"
unfolding b64encode str
b64encode_example = refl
