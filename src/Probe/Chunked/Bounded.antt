-- ===== src/Probe/Chunked/Bounded.antt =====
-- The size of a chunked body, and the turns it takes.
use transparent_gateway.Prelude.{
  ℕ, zero, suc, ◌-◌, not, ◌==◌, text_eq, nat_eq, ◌<◌, ◌≤◌, ◌≡◌, refl, Option, none, some, [], ◌∷◌,
  ◌++◌, arith, Text, ltb, leb, length, take, drop, Bool-cases, inl, inr, length-take-le,
  length-append, leb→le,
}
use transparent_gateway.Prelude.Int.{ℤ, pos, negsuc}
use transparent_gateway.Relay.Handshake.{crlf, stream_limit}
use transparent_gateway.Python.{os_error, Result, ok, err}
use transparent_gateway.Wire.{
  read_until, lift, ◌>>=◌, ◌>>◌, pure, throw_if, Conn, Wire, continue, read_exactly,
}
use transparent_gateway.Probe.Chunked.{
  max_body_bytes, Chunk, last, bytes, after_turn, read_chunk, read_turn, read_line, take_line,
  split_line, chunk_size, chunked_loop,
}

length-drop-le : (n : ℕ) (xs : Text) → length (drop n xs) ≤ length xs
length-drop-le zero xs = omega arith
length-drop-le (suc n) [] = omega arith
length-drop-le (suc n) (x ∷ xs) = omega (arith, length-drop-le n xs)

length-drop-lt : (n : ℕ) (xs : Text) → suc n ≤ length xs → length (drop (suc n) xs) < length xs
length-drop-lt n [] h = omega (arith, h)
length-drop-lt n (x ∷ xs) h = omega (arith, length-drop-le n xs)

-- A chunk of a turn fits into the room and has used up some of the stream.
abbrev FitsIn : ℕ → ℕ → Result Chunk × Conn → Type 0
FitsIn room before (ok (bytes chunk), c) = (length chunk ≤ room) × (length c.incoming < before)
FitsIn room before (ok last, c) = Unit {0}
FitsIn room before (err e, c) = Unit {0}

delimited_FitsIn :
    (room before : ℕ) (chunk : Text) (c : Conn)
    → length chunk ≤ room
    → length c.incoming < before
    → FitsIn room before (
        (do
          delimiter ← read_exactly 2
          throw_if (not (delimiter == crlf)) os_error
          pure (bytes chunk))
          c)
unfolding read_exactly
delimited_FitsIn room before chunk c fits less = elim (Bool-cases (leb 2 (length c.incoming))) [
  | inl long ↦ elim (Bool-cases (take 2 c.incoming == crlf)) [
    | inl good ↦
        rw (long, good) (fits, let h = length-drop-le 2 c.incoming in omega (arith, less, h))
    | inr bad ↦ rw (long, bad) tt
  ]
  | inr short ↦ rw short tt
]

last_FitsIn :
    (room before : ℕ) (r : Result Text) (c : Conn)
    → FitsIn room before (continue r (λ _. pure last) c)
last_FitsIn room before (ok a) c = tt
last_FitsIn room before (err e) c = tt

continue-FitsIn :
    {A : Type 0} (room before : ℕ) (r : Result A) (f : A → Wire Chunk) (c : Conn)
    → ((a : A) → FitsIn room before (f a c))
    → FitsIn room before (continue r f c)
continue-FitsIn room before (ok a) f c h = h a
continue-FitsIn room before (err e) f c h = tt

read_chunk-FitsIn :
    (room before : ℕ) (size : ℤ) (c : Conn)
    → length c.incoming ≤ before
    → FitsIn room before (read_chunk room size c)
unfolding read_chunk read_exactly
read_chunk-FitsIn room before (negsuc n) c h = tt
read_chunk-FitsIn room before (pos zero) c h =
    last_FitsIn room before (read_until stream_limit crlf c).0 (read_until stream_limit crlf c).1
read_chunk-FitsIn room before (pos (suc n)) c h = elim (Bool-cases (ltb room (suc n))) [
  | inl over ↦ rw over tt
  | inr fits ↦ elim (Bool-cases (leb (suc n) (length c.incoming))) [
    | inl long ↦
        rw (fits, long)
          (delimited_FitsIn room before (take (suc n) c.incoming)
            (record c { incoming = drop (suc n) c.incoming })
            (let taken = length-take-le (suc n) c.incoming in ground (arith, fits, taken))
            (let shorter = length-drop-lt n c.incoming (leb→le (suc n) (length c.incoming) long) in
              omega (arith, h, shorter)))
    | inr short ↦ rw (fits, short) tt
  ]
]

abbrev TailFits : ℕ → Option (Text × Text) → Type 0
TailFits n none = Unit {0}
TailFits n (some (line, tail)) = length tail ≤ n

longer_TailFits :
    (n c : ℕ) (o : Option (Text × Text))
    → TailFits n o
    → TailFits (suc n) (elim o [ none ↦ none | some (line, tail) ↦ some (c ∷ line, tail) ])
longer_TailFits n c none h = tt
longer_TailFits n c (some (line, tail)) h = omega (arith, h)

split_line-TailFits : (s : Text) → TailFits (length s) (split_line s)
unfolding split_line
split_line-TailFits [] = tt
split_line-TailFits (c ∷ s) = elim (Bool-cases (c == 10)) [
  | inl end ↦ rw end (omega arith)
  | inr inside ↦ rw inside (longer_TailFits (length s) c (split_line s) (split_line-TailFits s))
]

take_line-le :
    (o : Option (Text × Text)) (c : Conn)
    → TailFits (length c.incoming) o
    → length (take_line o c).1.incoming ≤ length c.incoming
take_line-le none c h = ground arith
take_line-le (some (line, tail)) c h = ground (arith, h)

read_line-le : (c : Conn) → length (read_line c).1.incoming ≤ length c.incoming
unfolding read_line
read_line-le c = take_line-le (split_line c.incoming) c (split_line-TailFits c.incoming)

read_turn-FitsIn : (room : ℕ) (c : Conn) → FitsIn room (length c.incoming) (read_turn room c)
unfolding read_turn
read_turn-FitsIn room c =
    continue-FitsIn room (length c.incoming) (read_line c).0
      (λ line. lift (chunk_size line) >>= read_chunk room) (read_line c).1
      (λ line.
        continue-FitsIn room (length c.incoming) (chunk_size line) (read_chunk room) (read_line c).1
          (λ size.
            read_chunk-FitsIn room (length c.incoming) size (read_line c).1 (read_line-le c)))

-- An error, or a body that is not too large.
abbrev pub IsBounded : Result Text → Type 0
IsBounded (ok body) = length body ≤ max_body_bytes
IsBounded (err e) = Unit {0}

abbrev pub ReturnsBounded : Option (Result Text × Conn) → Type 0
ReturnsBounded o = (r : Result Text) × (c : Conn) × (o ≡ some (r, c)) × IsBounded r

after_turn-ReturnsBounded :
    (before : ℕ) (body : Text) (r : Result Chunk) (c : Conn)
    (further : Text → Option (Result Text × Conn))
    → length body ≤ max_body_bytes
    → FitsIn (max_body_bytes - length body) before (r, c)
    → ((longer : Text)
        → length longer ≤ max_body_bytes
        → length c.incoming < before
        → ReturnsBounded (further longer))
    → ReturnsBounded (after_turn r body c further)
after_turn-ReturnsBounded before body (err e) c further h fits next = (err e, c, refl, tt)
after_turn-ReturnsBounded before body (ok last) c further h fits next = (ok body, c, refl, h)
after_turn-ReturnsBounded before body (ok (bytes chunk)) c further h fits next =
    next (body ++ chunk)
      (rw (length-append body chunk) (let room = fits.0 in omega (arith, h, room))) fits.1

-- With more fuel than there are bytes to come, the reading of a chunked body returns; and a body it
-- returns has at most `MAX_HTTP_BODY_BYTES` bytes, whatever the peer sends.
pub chunked_loop-ReturnsBounded :
    (fuel : ℕ) (body : Text) (c : Conn)
    → length c.incoming < fuel
    → length body ≤ max_body_bytes
    → ReturnsBounded (chunked_loop fuel body c)
unfolding chunked_loop
chunked_loop-ReturnsBounded zero body c enough h = absurd (omega (arith, enough))
chunked_loop-ReturnsBounded (suc fuel) body c enough h =
    let room = max_body_bytes - length body in
    after_turn-ReturnsBounded (length c.incoming) body (read_turn room c).0 (read_turn room c).1
      (λ longer. chunked_loop fuel longer (read_turn room c).1) h (read_turn-FitsIn room c)
      (λ longer small less.
        chunked_loop-ReturnsBounded fuel longer (read_turn room c).1 (omega (arith, enough, less))
          small)
