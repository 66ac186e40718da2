-- ===== src/Probe/Chunked.antt =====
-- `_read_chunked` and `_read_http_response` of validator/proxy_probe.py.
pub mod Bounded
use transparent_gateway.Prelude.{
  ℕ, zero, suc, ◌-◌, ◌+◌, ◌*◌, ◌≡◌, refl, Bool, true, false, not, ◌&&◌, ◌||◌, Option, none, some,
  List, [], ◌∷◌, ◌++◌, Text, str, ltb, leb, ◌==◌, nat_eq, text_eq, length, take, drop,
  if◌then◌else◌,
}
use transparent_gateway.Prelude.Int.{ℤ, pos, negsuc, pos_part, leb_ℤ, int_eq}
use transparent_gateway.Python.{
  Exception, value_error, os_error, incomplete_read, Result, ok, err, or_raise, Value, Fields, text,
  lookup, strip, lower, split_first, parse_int, is_digit,
}
use transparent_gateway.Wire.{
  Conn, Wire, continue, ◌>>=◌, ◌>>◌, pure, throw, lift, throw_if, read_exactly, read_until,
}
use transparent_gateway.Relay.Handshake.{crlf, stream_limit}
use transparent_gateway.Probe.Tunnels.{read_headers}

-- `MAX_HTTP_BODY_BYTES`
abbrev pub max_body_bytes : ℕ
max_body_bytes = 0x40000

-- A hexadecimal digit.
hex_digit : ℕ → Option ℕ
hex_digit c =
    if is_digit c
    then some (c - b'0')
    else if leb b'a' c && leb c b'f'
    then some (c - 87)
    else if leb b'A' c && leb c b'F'
    then some (c - 55)
    else none

-- Hexadecimal digits, with single underscores between them.
read_hex_digits : Text → Bool → ℕ → Option ℕ
unfolding hex_digit
read_hex_digits [] seen n = if seen then some n else none
read_hex_digits (c ∷ s) seen n = elim (hex_digit c) [
  | some d ↦ read_hex_digits s true (n * 16 + d)
  | none ↦ elim (seen && c == b'_') [ true ↦ read_hex_digits s false n | false ↦ none ]
]

-- Digits behind `0x`, `0X`, or neither; an underscore may follow the prefix.
read_hex_number : Text → Option ℕ
unfolding read_hex_digits
read_hex_number (c ∷ d ∷ s) =
    if c == b'0' && (d == b'x' || d == b'X')
    then read_hex_digits s true 0
    else read_hex_digits (c ∷ d ∷ s) false 0
read_hex_number s = read_hex_digits s false 0

negative : ℕ → ℤ
negative zero = pos 0
negative (suc n) = negsuc n

-- `int(s, 16)` of a text without spaces around it
unfoldable pub parse_hex : Text → Option ℤ
unfolding read_hex_number negative
parse_hex [] = none
parse_hex (c ∷ s) =
    if c == b'-'
    then elim (read_hex_number s) [ none ↦ none | some n ↦ some (negative n) ]
    else elim (read_hex_number (if c == b'+' then s else c ∷ s)) [
      | none ↦ none
      | some n ↦ some (pos n)
    ]

-- The first line, with its line feed, and what follows it.
unfoldable pub split_line : Text → Option (Text × Text)
split_line [] = none
split_line (c ∷ s) =
    let rest : Option (Text × Text) = elim (split_line s) [
      | none ↦ none
      | some (line, tail) ↦ some (c ∷ line, tail)
    ] in
    if c == 10 then some (10 ∷ [], s) else rest

-- What `readline` does with the first line, or with a stream that has no line feed to come.
abbrev pub take_line : Option (Text × Text) → Wire Text
take_line (some (line, tail)) c =
    if leb (length line) (stream_limit + 1)
    then (ok line, record c { incoming = tail })
    else (err value_error, record c { incoming = tail })
take_line none c =
    if ltb stream_limit (length c.incoming)
    then (err value_error, record c { incoming = [] })
    else elim c.at_end [
      | incomplete_read ↦ (ok c.incoming, record c { incoming = [] })
      | e ↦ (err e, c)
    ]

-- `await reader.readline()`: at the end of the stream it gives what is left, and a line over the
-- limit is a ValueError.
unfoldable pub read_line : Wire Text
read_line c = take_line (split_line c.incoming) c

-- What `bytes.strip` takes off.
is_blank : ℕ → Bool
is_blank c = (leb 9 c && leb c 13) || c == 32

lstrip_bytes : Text → Text
unfolding is_blank
lstrip_bytes [] = []
lstrip_bytes (c ∷ s) = let rest = lstrip_bytes s in if is_blank c then rest else c ∷ s

rstrip_bytes : Text → Text
unfolding is_blank
rstrip_bytes [] = []
rstrip_bytes (c ∷ s) = elim (rstrip_bytes s) [
  | [] ↦ if is_blank c then [] else c ∷ []
  | d ∷ t ↦ c ∷ d ∷ t
]

-- `int(line.split(b";", 1)[0].strip(), 16)`
unfoldable pub chunk_size : Text → Result ℤ
unfolding parse_hex lstrip_bytes rstrip_bytes
chunk_size line =
    let field : Text = elim (split_first b';' line) [ none ↦ line | some (size, _) ↦ size ] in
    or_raise (parse_hex (rstrip_bytes (lstrip_bytes field))) os_error

-- What the line of a chunk leads to.
pub data Chunk : Type 0 where
  last : Chunk
  bytes : Text → Chunk

-- One turn of the loop behind its line; `room` is what the body may still grow by.
unfoldable pub read_chunk : ℕ → ℤ → Wire Chunk
read_chunk room (negsuc _) = throw value_error
read_chunk room (pos zero) = do read_until stream_limit crlf; pure last
read_chunk room (pos (suc n)) = do
  throw_if (ltb room (suc n)) os_error
  chunk ← read_exactly (suc n)
  delimiter ← read_exactly 2
  throw_if (not (delimiter == crlf)) os_error
  pure (bytes chunk)

-- A turn of the loop.
unfoldable pub read_turn : ℕ → Wire Chunk
read_turn room = do line ← read_line; size ← lift (chunk_size line); read_chunk room size

-- What a turn leads to: an error, the whole body, or a further turn with a longer body.
abbrev pub after_turn :
    Result Chunk → Text → Conn → (Text → Option (Result Text × Conn)) → Option (Result Text × Conn)
after_turn (err e) body c further = some (err e, c)
after_turn (ok last) body c further = some (ok body, c)
after_turn (ok (bytes chunk)) body c further = further (body ++ chunk)

-- `_read_chunked`, with the body so far and fuel for its turns; `none` would be no fuel left.
unfoldable pub chunked_loop : ℕ → Text → Conn → Option (Result Text × Conn)
unfolding read_turn
chunked_loop zero body c = none
chunked_loop (suc fuel) body c =
    let (r, c') = read_turn (max_body_bytes - length body) c in
    after_turn r body c' (λ longer. chunked_loop fuel longer c')
