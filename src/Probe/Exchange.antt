-- ===== src/Probe/Exchange.antt =====
-- The exchange with the echo of validator/proxy_probe.py: the request, the response and the two
-- observations. A connection is what `dial` gives.
pub mod Bounded
use transparent_gateway.Prelude.{
  ℕ, zero, suc, ◌≡◌, refl, Bool, true, false, not, ◌&&◌, ◌||◌, Option, none, some, List, [], ◌∷◌,
  ◌++◌, Text, str, ltb, leb, ◌==◌, nat_eq, text_eq, length, take, drop, contains, if◌then◌else◌,
}
use transparent_gateway.Prelude.Int.{ℤ, pos, pos_part, leb_ℤ, int_eq}
use transparent_gateway.Python.{
  Exception, value_error, os_error, timeout_error, Result, ok, err, or_raise, Value, Fields, text,
  get_default, get, lookup, Runtime, lower, ascii, parse_int,
}
use transparent_gateway.Python as Py
use transparent_gateway.Wire.{
  Conn, Wire, ◌>>=◌, ◌>>◌, pure, throw, lift, throw_if, write, read_exactly,
}
use transparent_gateway.Credentials.{Auth}
use transparent_gateway.Relay.Handshake.{crlf}
use transparent_gateway.Probe.Anonymity.{
  CheckTarget, EchoObservation, authority, absolute_url, parse_echo,
}
use transparent_gateway.Probe.Tunnels.{
  read_headers, basic_authorization, http_tunnel, socks5_tunnel, socks4_tunnel,
}
use transparent_gateway.Probe.Chunked.{max_body_bytes, chunked_loop}
use transparent_gateway.Sources.Candidate.{ProxyCandidate}

-- `_request_bytes`
unfoldable pub request_bytes : CheckTarget → (absolute : Bool) → Auth → Result Text
request_bytes target absolute auth =
    Py.◌>>=◌ (if absolute then basic_authorization auth else ok []) λ authorization. ascii (
      str "GET "
      ++ (if absolute then absolute_url target else target.path)
      ++ str " HTTP/1.1"
      ++ crlf
      ++ str "Host: "
      ++ authority target
      ++ crlf
      ++ authorization
      ++ str "Accept: application/json"
      ++ crlf
      ++ str "User-Agent: transparent-gateway-validator/1"
      ++ crlf
      ++ str "Connection: close"
      ++ crlf
      ++ crlf)

-- The end of a loop on fuel; `none` would be no fuel left.
abbrev pub run_out : Conn → Option (Result Text × Conn) → Result Text × Conn
run_out c none = (err os_error, c)
run_out c (some r) = r

-- `_read_chunked`: the loop with more fuel than the stream has bytes
unfoldable pub read_chunked : Wire Text
read_chunked c = run_out c (chunked_loop (suc (length c.incoming)) [] c)

-- A length from 0 to `MAX_HTTP_BODY_BYTES`.
unfoldable pub body_length : Text → Result ℕ
body_length s =
    Py.◌>>=◌ (or_raise (parse_int s) os_error)
      λ n. if leb_ℤ (pos 0) n && leb_ℤ n (pos max_body_bytes) then ok (pos_part n) else err os_error

-- `await reader.read(n)`: some of the bytes at the front, at most n. `now` says how many are there;
-- at the end of the stream there are none.
unfoldable pub read_some : (now : ℕ) → ℕ → Wire Text
read_some now n c = elim c.incoming [
  | [] ↦ elim c.at_end [ Exception.incomplete_read ↦ (ok [], c) | e ↦ (err e, c) ]
  | b ∷ bs ↦
      let count = if ltb now n then (if ltb 0 now then now else 1) else n in
      (ok (take count (b ∷ bs)), record c { incoming = drop count (b ∷ bs) })
]

-- A header; what `read_headers` gives are texts.
unfoldable pub find_header : Fields → Text → Option Text
find_header headers name = elim (lookup name headers) [ some (text s) ↦ some s | _ ↦ none ]

-- `headers.get("transfer-encoding", "").lower() == "chunked"`
unfoldable pub is_chunked : Fields → Bool
is_chunked headers = elim (find_header headers (str "transfer-encoding")) [
  | none ↦ false
  | some s ↦ lower s == str "chunked"
]

-- The body of a response that is not chunked, by its `content-length`.
unfoldable pub read_sized : (now : ℕ) → Option Text → Wire Text
read_sized now (some s) = do size ← lift (body_length s); read_exactly size
read_sized now none = do
  body ← read_some now (suc max_body_bytes)
  throw_if (ltb max_body_bytes (length body)) os_error
  pure body

-- The body behind the headers.
unfoldable pub read_body : (now : ℕ) → Fields → Wire Text
read_body now headers =
    if is_chunked headers
    then read_chunked
    else read_sized now (find_header headers (str "content-length"))

-- `_read_http_response`
unfoldable pub read_http_response : (now : ℕ) → Wire Text
read_http_response now = do
  head ← read_headers
  throw_if (not (head.0 == pos 200)) os_error
  read_body now head.1

-- `protocol in {"http", "https"}`
unfoldable pub is_http : Text → Bool
is_http protocol = protocol == str "http" || protocol == str "https"

-- The tunnel to a target through a proxy of a protocol; `none` is no tunnel.
unfoldable pub open_tunnel : Runtime → Text → CheckTarget → Auth → Wire (Unit {0})
open_tunnel R protocol target auth =
    if is_http protocol && target.scheme == str "https"
    then http_tunnel target auth
    else if protocol == str "socks5"
    then socks5_tunnel R target auth
    else if protocol == str "socks4"
    then socks4_tunnel R target auth
    else if is_http protocol
    then pure tt
    else throw value_error

module _ (R : Runtime) (loads : Text → Option Value) (now : ℕ) where
  -- The request and the echo that it gets.
  unfoldable pub ask : CheckTarget → (absolute : Bool) → Auth → Wire EchoObservation
  ask target absolute auth = do
    request ← lift (request_bytes target absolute auth)
    write request
    body ← read_http_response now
    lift (parse_echo R loads body)

  -- `finally: writer.close(); await writer.wait_closed()`; what the closing raises replaces what was
  -- read or raised.
  unfoldable pub close_behind : {A : Type 0} → (closing : Result (Unit {0})) → Result A → Result A
  close_behind (ok _) r = r
  close_behind (err e) r = err e

  -- `exchange` of `direct_observation`: `conn` is the connection to the target.
  unfoldable pub direct_exchange :
      (closing : Result (Unit {0})) → CheckTarget → Result Conn → Result EchoObservation
  direct_exchange closing target conn =
      Py.◌>>=◌ conn λ c. close_behind closing (ask target false none c).0

  -- `exchange` of `proxy_observation`: `conn` is the connection to the proxy, and `secure` what
  -- `start_tls` makes of a connection.
  unfoldable pub proxy_exchange :
      (closing : Result (Unit {0})) (protocol : Text)
      → CheckTarget
      → Auth
      → (secure : Wire (Unit {0})) → Result Conn
      → Result EchoObservation
  proxy_exchange closing protocol target auth secure conn = Py.◌>>=◌ conn λ c.
      let absolute = is_http protocol && target.scheme == str "http" in
      close_behind closing
        ((do
          open_tunnel R protocol target auth
          (if target.scheme == str "https" then secure else pure tt)
          ask target absolute (if absolute then auth else none))
          c).0
