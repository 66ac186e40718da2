-- ===== src/Relay/Handshake.antt =====
-- The handshakes with an upstream proxy in `connect_upstream` of gateway/egress_relay.py, and the
-- query of `probe_dns_tcp`.
pub mod Secrets
pub mod Socks5
use transparent_gateway.Prelude.{
  ℕ, suc, ◌+◌, ◌*◌, ◌/◌, ◌%◌, ◌≤◌, ◌≡◌, refl, Bool, true, false, not, ◌&&◌, ◌||◌, Option, none,
  some, List, [], ◌∷◌, ◌++◌, Text, str, ltb, leb, ◌==◌, nat_eq, text_eq, length, take,
  if◌then◌else◌,
}
use transparent_gateway.Prelude.Int.{ℤ, pos}
use transparent_gateway.Python.{
  Exception, value_error, os_error, unicode_error, key_error, Result, ok, err, or_raise, Value,
  Fields, null, text, lookup, get, is_null, value_or, as_text, Runtime, to_str, to_int, startswith,
  encode, b64encode, print_nat, split_last, strip_chars, parse_int,
}
use transparent_gateway.Python as Py
use transparent_gateway.Wire.{
  Conn, Wire, ◌>>=◌, ◌>>◌, pure, throw, lift, throw_if, write, read_exactly, read_until, find,
}
use transparent_gateway.Credentials.{CredentialStore, Reading, Auth, get_credential, tls_context}
use transparent_gateway.Relay.Target.{first_line}

abbrev pub crlf : Text
crlf = 13 ∷ 10 ∷ []

-- `n.to_bytes(2, "big")`
abbrev pub two_bytes : ℕ → Text
two_bytes n = n / 256 ∷ n % 256 ∷ []

-- `bytes([len(b)]) + b`
abbrev pub with_length : Text → Text
with_length b = length b ∷ b

-- `sub in s`
unfoldable pub holds : Text → Text → Bool
holds sub s = elim (find sub s) [ none ↦ false | some _ ↦ true ]

-- The default limit of a `StreamReader`.
abbrev pub stream_limit : ℕ
stream_limit = 0x10000

-- The head of a reply to CONNECT that the relay takes for a success.
unfoldable pub is_connect_success : Text → Bool
unfolding holds
is_connect_success reply = startswith reply (str "HTTP/") && holds (str " 2") (first_line reply)

unfoldable pub basic_token : Auth → Result Text
basic_token none = ok []
basic_token (some (user, password)) =
    Py.◌>>=◌ (encode (user ++ b':' ∷ password))
      λ raw. ok (str "Proxy-Authorization: Basic " ++ b64encode raw ++ crlf)

http_request : Text → ℕ → Text → Text
http_request host port token =
    let authority = host ++ b':' ∷ print_nat port in
    str "CONNECT "
    ++ authority
    ++ str " HTTP/1.1"
    ++ crlf
    ++ str "Host: "
    ++ authority
    ++ crlf
    ++ token
    ++ str "Proxy-Connection: keep-alive"
    ++ crlf
    ++ crlf

unfoldable pub http_connect : Auth → Text → ℕ → Wire (Unit {0})
unfolding basic_token http_request is_connect_success
http_connect auth host port = do
  token ← lift (basic_token auth)
  request ← lift (encode (http_request host port token))
  write request
  reply ← read_until stream_limit (crlf ++ crlf)
  throw_if (not (is_connect_success reply)) os_error

-- The methods that the relay offers, and the answer that it wants.
unfoldable pub socks5_methods : Auth → Text
socks5_methods none = 0 ∷ []
socks5_methods (some _) = 0 ∷ 2 ∷ []

unfoldable pub socks5_wanted : Auth → Text
socks5_wanted none = 5 ∷ 0 ∷ []
socks5_wanted (some _) = 5 ∷ 2 ∷ []

unfoldable pub socks5_greet : Auth → Wire (Unit {0})
unfolding socks5_methods socks5_wanted
socks5_greet auth = do
  write (5 ∷ with_length (socks5_methods auth))
  chosen ← read_exactly 2
  throw_if (not (chosen == socks5_wanted auth)) os_error

unfoldable pub socks5_login : Auth → Wire (Unit {0})
socks5_login none = pure tt
socks5_login (some (user, password)) = do
  raw_user ← lift (encode user)
  raw_pass ← lift (encode password)
  throw_if (ltb 255 (length raw_user) || ltb 255 (length raw_pass)) value_error
  write (1 ∷ (with_length raw_user ++ with_length raw_pass))
  status ← read_exactly 2
  throw_if (not (status == 1 ∷ 0 ∷ [])) os_error

-- The length of the bind address behind the head of a SOCKS5 reply.
first : Text → ℕ
first [] = 0
first (b ∷ _) = b

unfoldable pub bind_size : ℕ → Wire ℕ
unfolding first
bind_size kind =
    if kind == 1
    then pure 4
    else if kind == 3
    then (do size ← read_exactly 1; pure (first size))
    else if kind == 4
    then pure 16
    else throw os_error

-- `response[:2] != b"\x05\x00"`, and the address type `response[3]`
unfoldable pub reply_kind : Text → Result ℕ
reply_kind (v ∷ r ∷ _ ∷ kind ∷ []) = if v == 5 && r == 0 then ok kind else err os_error
reply_kind _ = err os_error

-- `probe_dns_tcp`, on the connection of `connect_upstream`; `id` is the query's random identifier.
dns_query : Text → Text
dns_query id =
    id
    ++ 1
      ∷ 0
      ∷ 0
      ∷ 1
      ∷ 0
      ∷ 0
      ∷ 0
      ∷ 0
      ∷ 0
      ∷ 0
      ∷ 7
      ∷ (str "example" ++ 3 ∷ (str "com" ++ 0 ∷ 0 ∷ 1 ∷ 0 ∷ 1 ∷ []))

-- `int.from_bytes(two, "big")`
from_two : Text → ℕ
from_two (a ∷ b ∷ _) = a * 256 + b
from_two _ = 0

unfoldable pub probe_dns_tcp : Text → Wire (Unit {0})
unfolding dns_query from_two
probe_dns_tcp id = do
  write (two_bytes (length (dns_query id)) ++ dns_query id)
  size ← read_exactly 2
  response ← read_exactly (from_two size)
  throw_if (ltb (length response) 12 || not (take 2 response == id)) os_error

module _ (R : Runtime) where
  unfoldable pub socks5_address : Text → Result Text
  socks5_address host = elim (R.inet_pton4 host) [
    | some packed ↦ ok (1 ∷ packed)
    | none ↦ elim (R.idna host) [
      | none ↦ err unicode_error
      | some raw ↦ if ltb 255 (length raw) then err value_error else ok (3 ∷ with_length raw)
    ]
  ]

  unfoldable pub socks5_request : Text → ℕ → Wire (Unit {0})
  socks5_request host port = do
    address ← lift (socks5_address host)
    write (5 ∷ 1 ∷ 0 ∷ (address ++ two_bytes port))
    response ← read_exactly 4
    kind ← lift (reply_kind response)
    size ← bind_size kind
    read_exactly (size + 2)
    pure tt

  unfoldable pub socks5_connect : Auth → Text → ℕ → Wire (Unit {0})
  socks5_connect auth host port = do socks5_greet auth; socks5_login auth; socks5_request host port

  -- The address and what follows the user name: SOCKS4a sends a host name behind 0.0.0.1.
  unfoldable pub socks4_address : Text → Result (Text × Text)
  socks4_address host = elim (R.inet_aton host) [
    | some packed ↦ ok (packed, [])
    | none ↦ elim (R.idna host) [
      | none ↦ err unicode_error
      | some raw ↦ ok (0 ∷ 0 ∷ 0 ∷ 1 ∷ [], raw ++ 0 ∷ [])
    ]
  ]

  socks4_user : Auth → Result Text
  socks4_user none = ok []
  socks4_user (some (user, _)) = encode user

  -- `response[1] != 0x5A`
  socks4_granted : Text → Bool
  socks4_granted (_ ∷ code ∷ _) = code == 0x5A
  socks4_granted _ = false

  unfoldable pub socks4_connect : Auth → Text → ℕ → Wire (Unit {0})
  unfolding socks4_user socks4_granted
  socks4_connect auth host port = do
    username ← lift (socks4_user auth)
    throw_if (ltb 255 (length username)) value_error
    address ← lift (socks4_address host)
    write (4 ∷ 1 ∷ (two_bytes port ++ address.0 ++ username ++ 0 ∷ address.1))
    response ← read_exactly 8
    throw_if (not (socks4_granted response)) os_error

  unfoldable pub handshake : Text → Auth → Text → ℕ → Wire (Unit {0})
  handshake protocol auth host port =
      if protocol == str "http" || protocol == str "https"
      then http_connect auth host port
      else if protocol == str "socks5"
      then socks5_connect auth host port
      else if protocol == str "socks4"
      then socks4_connect auth host port
      else throw value_error
