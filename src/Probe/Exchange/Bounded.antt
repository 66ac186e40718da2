-- ===== src/Probe/Exchange/Bounded.antt =====
-- The size of the response that validator/proxy_probe.py reads.
use transparent_gateway.Prelude.{
  ℕ, suc, ◌≤◌, ◌≡◌, refl, Bool, true, false, not, Option, none, some, [], arith, Text, str, ltb,
  leb, ◌==◌, text_eq, length, length-take-le, Bool-cases, inl, inr, subst, sym,
}
use transparent_gateway.Prelude.Int.{pos, int_eq}
use transparent_gateway.Python.{Result, ok, err, Fields, os_error}
use transparent_gateway.Wire.{Conn, Wire, continue, read_exactly, throw_if, pure, ◌>>◌}
use transparent_gateway.Probe.Tunnels.{read_headers}
use transparent_gateway.Probe.Chunked.{max_body_bytes}
use transparent_gateway.Probe.Chunked.Bounded.{IsBounded, chunked_loop-ReturnsBounded}
use transparent_gateway.Probe.Exchange.{
  read_chunked, body_length, read_some, run_out, is_chunked, find_header, read_sized, read_body,
  read_http_response,
}

continue-IsBounded :
    {A : Type 0} (r : Result A) (f : A → Wire Text) (c : Conn)
    → ((a : A) (c : Conn) → IsBounded (f a c).0)
    → IsBounded (continue r f c).0
continue-IsBounded (ok a) f c h = h a c
continue-IsBounded (err e) f c h = tt

-- The fuel of `read_chunked` is enough, so its `none` does not occur.
read_chunked-IsBounded : (c : Conn) → IsBounded (read_chunked c).0
unfolding read_chunked
read_chunked-IsBounded c =
    let (r, c', e, h) =
      chunked_loop-ReturnsBounded (suc (length c.incoming)) [] c (omega arith) (omega arith) in
    subst (λ o. IsBounded (run_out c o).0) (sym e) h

read_exactly-length : (n : ℕ) (c : Conn) → n ≤ max_body_bytes → IsBounded (read_exactly n c).0
unfolding read_exactly
read_exactly-length n c h = elim (Bool-cases (leb n (length c.incoming))) [
  | inl enough ↦ rw enough (let taken = length-take-le n c.incoming in omega (arith, h, taken))
  | inr short ↦ rw short tt
]

body_length-le : (s : Text) (n : ℕ) → body_length s ≡ ok n → n ≤ max_body_bytes
unfolding body_length
body_length-le s n h = ground arith

guarded :
    (body : Text) (c : Conn)
    → IsBounded ((do throw_if (ltb max_body_bytes (length body)) os_error; pure body) c).0
guarded body c = elim (Bool-cases (ltb max_body_bytes (length body))) [
  | inl large ↦ rw large tt
  | inr small ↦ rw small (ground (arith, small))
]

sized :
    (r : Result ℕ) (c : Conn)
    → ((n : ℕ) → r ≡ ok n → n ≤ max_body_bytes)
    → IsBounded (continue r read_exactly c).0
sized (ok n) c h = read_exactly-length n c (h n refl)
sized (err e) c h = tt

read_sized-IsBounded : (now : ℕ) (o : Option Text) (c : Conn) → IsBounded (read_sized now o c).0
unfolding read_sized
read_sized-IsBounded now none c =
    continue-IsBounded (read_some now (suc max_body_bytes) c).0 _
      (read_some now (suc max_body_bytes) c).1 guarded
read_sized-IsBounded now (some s) c = sized (body_length s) c (body_length-le s)

read_body-IsBounded :
    (now : ℕ) (headers : Fields) (c : Conn) → IsBounded (read_body now headers c).0
unfolding read_body
read_body-IsBounded now headers c = elim (Bool-cases (is_chunked headers)) [
  | inl chunked ↦ rw chunked (read_chunked-IsBounded c)
  | inr other ↦ rw other (read_sized-IsBounded now (find_header headers (str "content-length")) c)
]

checked_body :
    (b : Bool) (now : ℕ) (headers : Fields) (c : Conn)
    → IsBounded ((throw_if b os_error >> read_body now headers) c).0
checked_body true now headers c = tt
checked_body false now headers c = read_body-IsBounded now headers c

-- A response whose reading returns is at most `MAX_HTTP_BODY_BYTES` long, by whichever of the three
-- ways its headers ask for.
pub read_http_response-IsBounded : (now : ℕ) (c : Conn) → IsBounded (read_http_response now c).0
unfolding read_http_response
read_http_response-IsBounded now c =
    continue-IsBounded (read_headers c).0 _ (read_headers c).1
      (λ head c'. checked_body (not (head.0 == pos 200)) now head.1 c')
