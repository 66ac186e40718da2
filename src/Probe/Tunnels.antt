-- ===== src/Probe/Tunnels.antt =====
-- `_read_headers` and the three tunnels of validator/proxy_probe.py.
pub mod Guarded
use transparent_gateway.Prelude.{
  ℕ, ◌-◌, ◌+◌, ◌≡◌, refl, Bool, true, false, not, ◌&&◌, ◌||◌, Option, none, some, List, [], ◌∷◌,
  ◌++◌, Text, str, ltb, leb, ◌==◌, nat_eq, text_eq, length, take, any, if◌then◌else◌,
}
use transparent_gateway.Prelude.Int.{ℤ, pos, leb_ℤ, ltb_ℤ}
use transparent_gateway.Python.{
  value_error, os_error, unicode_error, Result, ok, err, or_raise, reraise, Fields, text, end, put,
  Runtime, strip, lower, encode, ascii, b64encode, split_first, count_char, parse_int, print_nat,
}
use transparent_gateway.Python as Py
use transparent_gateway.Wire.{
  Conn, Wire, ◌>>=◌, ◌>>◌, pure, lift, throw_if, write, read_exactly, read_until,
}
use transparent_gateway.Credentials.{Auth}
use transparent_gateway.Relay.Handshake.{
  crlf, stream_limit, two_bytes, with_length, bind_size, reply_kind,
}
use transparent_gateway.Probe.Anonymity.{CheckTarget}

-- `MAX_HTTP_HEADER_BYTES`
abbrev pub max_header_bytes : ℕ
max_header_bytes = 0x10000

-- `s.split(b"\r\n")`
split_crlf_from : Text → Text → List Text
split_crlf_from line [] = line ∷ []
split_crlf_from line (c ∷ []) = (line ++ c ∷ []) ∷ []
split_crlf_from line (c ∷ d ∷ s) = elim (c == 13 && d == 10) [
  | true ↦ line ∷ split_crlf_from [] s
  | false ↦ split_crlf_from (line ++ c ∷ []) (d ∷ s)
]

first_of : List Text → Text
first_of [] = []
first_of (l ∷ _) = l

rest_of : List Text → List Text
rest_of [] = []
rest_of (_ ∷ ls) = ls

-- `line.split(" ", 2)[1]`
second_word : Text → Option Text
second_word line = elim (split_first b' ' line) [
  | none ↦ none
  | some (_, rest) ↦ elim (split_first b' ' rest) [ none ↦ some rest | some (word, _) ↦ some word ]
]

-- The status of a status line.
unfoldable pub read_status : Text → Result ℤ
unfolding second_word
read_status line = reraise os_error (
    Py.◌>>=◌ (ascii line) λ s.
      Py.◌>>=◌ (or_raise (second_word s) value_error) λ word. or_raise (parse_int word) value_error)

-- The header lines, put into the headers that were read before them.
unfoldable pub read_fields : List Text → Fields → Result Fields
read_fields [] headers = ok headers
read_fields (line ∷ lines) headers = elim (split_first b':' line) [
  | none ↦ err os_error
  | some (name, value) ↦ read_fields lines (put headers (lower (strip name)) (text (strip value)))
]

-- `_read_headers`, without the bytes that it read
unfoldable pub read_headers : Wire (ℤ × Fields)
unfolding split_crlf_from first_of rest_of
read_headers = do
  raw ← read_until stream_limit (crlf ++ crlf)
  throw_if (ltb max_header_bytes (length raw)) os_error
  let lines = split_crlf_from [] (take (length raw - 4) raw)
  status ← lift (read_status (first_of lines))
  headers ← lift (read_fields (rest_of lines) end)
  pure (status, headers)

-- `_basic_proxy_authorization`
unfoldable pub basic_authorization : Auth → Result Text
basic_authorization none = ok []
basic_authorization (some (user, password)) =
    Py.◌>>=◌ (encode (user ++ b':' ∷ password))
      λ raw. ok (str "Proxy-Authorization: Basic " ++ b64encode raw ++ crlf)

unfoldable pub tunnel_request : CheckTarget → Text → Text
tunnel_request target authorization =
    let host =
      if ltb 0 (count_char b':' target.host)
      then b'[' ∷ (target.host ++ b']' ∷ [])
      else target.host in
    let authority = host ++ b':' ∷ print_nat target.port in
    str "CONNECT "
    ++ authority
    ++ str " HTTP/1.1"
    ++ crlf
    ++ str "Host: "
    ++ authority
    ++ crlf
    ++ authorization
    ++ str "Connection: keep-alive"
    ++ crlf
    ++ crlf

-- `_http_proxy_tunnel`
unfoldable pub http_tunnel : CheckTarget → Auth → Wire (Unit {0})
http_tunnel target auth = do
  authorization ← lift (basic_authorization auth)
  request ← lift (ascii (tunnel_request target authorization))
  write request
  reply ← read_headers
  throw_if (not (leb_ℤ (pos 200) reply.0 && ltb_ℤ reply.0 (pos 300))) os_error

-- `method`: user name and password, or none.
unfoldable pub method_of : Auth → ℕ
method_of none = 0
method_of (some _) = 2

unfoldable pub tunnel_greet : Auth → Wire (Unit {0})
unfolding method_of
tunnel_greet auth = do
  write (5 ∷ 1 ∷ method_of auth ∷ [])
  response ← read_exactly 2
  throw_if (not (response == 5 ∷ method_of auth ∷ [])) os_error

-- A length outside of 1..255.
abbrev is_unfit : Text → Bool
is_unfit raw = not (leb 1 (length raw) && leb (length raw) 255)

unfoldable pub tunnel_login : Auth → Wire (Unit {0})
tunnel_login none = pure tt
tunnel_login (some (user, password)) = do
  raw_user ← lift (encode user)
  raw_password ← lift (encode password)
  throw_if (is_unfit raw_user || is_unfit raw_password) value_error
  write (1 ∷ (with_length raw_user ++ with_length raw_password))
  status ← read_exactly 2
  throw_if (not (status == 1 ∷ 0 ∷ [])) os_error

module _ (R : Runtime) where
  unfoldable pub tunnel_address : Text → Result Text
  tunnel_address host = elim (R.inet_pton4 host) [
    | some packed ↦ ok (1 ∷ packed)
    | none ↦ elim (R.inet_pton6 host) [
      | some packed ↦ ok (4 ∷ packed)
      | none ↦ elim (R.idna host) [
        | none ↦ err unicode_error
        | some raw ↦ if ltb 255 (length raw) then err value_error else ok (3 ∷ with_length raw)
      ]
    ]
  ]

  unfoldable pub tunnel_connect : CheckTarget → Wire (Unit {0})
  tunnel_connect target = do
    address ← lift (tunnel_address target.host)
    write (5 ∷ 1 ∷ 0 ∷ (address ++ two_bytes target.port))
    response ← read_exactly 4
    kind ← lift (reply_kind response)
    size ← bind_size kind
    read_exactly (size + 2)
    pure tt

  -- `_socks5_tunnel`
  unfoldable pub socks5_tunnel : CheckTarget → Auth → Wire (Unit {0})
  socks5_tunnel target auth = do tunnel_greet auth; tunnel_login auth; tunnel_connect target

  -- The address, and what follows the user name.
  unfoldable pub socks4_tunnel_address : Text → Result (Text × Text)
  socks4_tunnel_address host = elim (R.inet_aton host) [
    | some packed ↦ ok (packed, [])
    | none ↦ elim (R.idna host) [
      | none ↦ err unicode_error
      | some raw ↦ ok (0 ∷ 0 ∷ 0 ∷ 1 ∷ [], raw ++ 0 ∷ [])
    ]
  ]

  tunnel_user : Auth → Result Text
  tunnel_user none = ok []
  tunnel_user (some (user, _)) = encode user

  -- `response[1] == 0x5A`
  is_granted : Text → Bool
  is_granted (_ ∷ code ∷ _) = code == 0x5A
  is_granted _ = false

  -- `_socks4_tunnel`
  unfoldable pub socks4_tunnel : CheckTarget → Auth → Wire (Unit {0})
  unfolding tunnel_user is_granted
  socks4_tunnel target auth = do
    username ← lift (tunnel_user auth)
    throw_if (ltb 255 (length username) || any (λ b. b == 0) username) value_error
    address ← lift (socks4_tunnel_address target.host)
    write (4 ∷ 1 ∷ (two_bytes target.port ++ address.0 ++ username ++ 0 ∷ address.1))
    response ← read_exactly 8
    throw_if (not (is_granted response)) os_error
