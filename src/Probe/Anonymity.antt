-- ===== src/Probe/Anonymity.antt =====
-- `CheckTarget`, `_parse_echo` and `classify_anonymity` of validator/proxy_probe.py.
pub mod Verdict
use transparent_gateway.Prelude.{
  ℕ, ◌≡◌, refl, Bool, true, false, not, ◌&&◌, ◌||◌, Option, none, some, List, [], ◌∷◌, ◌++◌, Text,
  str, ltb, ◌==◌, nat_eq, text_eq, contains, any, if◌then◌else◌,
}
use transparent_gateway.Python.{
  value_error, os_error, Result, ok, err, ◌>>=◌, ◌>>◌, raise_if, or_raise, reraise, Value, Fields,
  text, end, field, get, lookup, put, value_or, as_dict, Runtime, to_str, strip, lower, count_char,
  split_first, print_nat,
}
use transparent_gateway.Relay.Handshake.{holds}

-- `LEAK_HEADERS`
unfoldable pub leak_headers : List Text
leak_headers =
    str "client-ip"
    ∷ str "cf-connecting-ip"
    ∷ str "forwarded"
    ∷ str "forwarded-for"
    ∷ str "true-client-ip"
    ∷ str "x-client-ip"
    ∷ str "x-cluster-client-ip"
    ∷ str "x-forwarded-for"
    ∷ str "x-real-ip"
    ∷ []

-- `PROXY_MARKER_HEADERS`
unfoldable pub proxy_marker_headers : List Text
unfolding leak_headers
proxy_marker_headers =
    leak_headers ++ str "proxy-connection" ∷ str "via" ∷ str "x-forwarded-proto" ∷ []

pub record CheckTarget : Type 0 where
  pub scheme : Text
  pub host : Text
  pub port : ℕ
  pub path : Text

-- What `urlsplit` finds in a URL; an absent part is empty, and a port that is no number of a port
-- is the error that reading it raises.
pub record SplitUrl : Type 0 where
  pub scheme : Text
  pub hostname : Text
  pub username : Text
  pub password : Text
  pub port : Result (Option ℕ)
  pub path : Text
  pub query : Text
  pub fragment : Text

default_port : Text → ℕ
default_port scheme = if scheme == str "https" then 443 else 80

-- `parsed.port or …`
port_or : Option ℕ → ℕ → ℕ
port_or none d = d
port_or (some p) d = if p == 0 then d else p

-- `CheckTarget.parse`, behind `urlsplit`
unfoldable pub parse_target : SplitUrl → Result CheckTarget
unfolding default_port port_or
parse_target u = do
  raise_if (not (u.scheme == str "http" || u.scheme == str "https") || u.hostname == []) value_error
  raise_if (not (u.username == []) || not (u.password == []) || not (u.fragment == [])) value_error
  port ← reraise value_error u.port
  let path = if u.path == [] then b'/' ∷ [] else u.path
  ok (record {
    scheme = u.scheme;
    host = u.hostname;
    port = port_or port (default_port u.scheme);
    path = if u.query == [] then path else path ++ b'?' ∷ u.query;
  })

-- `CheckTarget.authority`
unfoldable pub authority : CheckTarget → Text
unfolding default_port
authority target =
    let host =
      if ltb 0 (count_char b':' target.host)
      then b'[' ∷ (target.host ++ b']' ∷ [])
      else target.host in
    if target.port == default_port target.scheme then host else host ++ b':' ∷ print_nat target.port

-- `CheckTarget.absolute_url`
unfoldable pub absolute_url : CheckTarget → Text
absolute_url target = target.scheme ++ str "://" ++ authority target ++ target.path

-- `EchoObservation`: the headers by their names in lower case.
pub record EchoObservation : Type 0 where
  pub peer : Text
  pub headers : Fields

-- `not identities`
unfoldable pub is_none : List Text → Bool
is_none [] = true
is_none (_ ∷ _) = false

module _ (R : Runtime) where
  -- `{str(name).lower(): str(value) for …}`
  unfoldable pub lower_names : Fields → Fields → Fields
  lower_names end headers = headers
  lower_names (field name v d) headers =
      lower_names d (put headers (lower name) (text (to_str R v)))

  -- The text of the peer, up to its first comma.
  unfoldable pub peer_text : Fields → Text
  peer_text payload =
      let value = to_str R (
        value_or (get payload (str "backend_peer"))
          (value_or (get payload (str "origin")) (text []))) in
      strip (elim (split_first b',' value) [ none ↦ value | some (peer, _) ↦ peer ])

  -- `_parse_echo`
  unfoldable pub parse_echo : (Text → Option Value) → Text → Result EchoObservation
  parse_echo loads body = do
    value ← or_raise (loads body) os_error
    payload ← or_raise (as_dict value) os_error
    headers ← or_raise (as_dict (get payload (str "headers"))) os_error
    peer ← or_raise (R.parse_address (peer_text payload)) os_error
    ok (record { peer = R.format_address peer; headers = lower_names headers end })

  -- `normalised_identities`
  unfoldable pub normal_identities : List Text → Result (List Text)
  normal_identities [] = ok []
  normal_identities (v ∷ vs) = or_raise (R.parse_address (strip v)) value_error >>= λ a.
      normal_identities vs >>= λ rest. ok (R.format_address a ∷ rest)

  -- `observation.headers.get(name, "")`
  unfoldable pub header : EchoObservation → Text → Text
  header observation name = elim (lookup name observation.headers) [
    | none ↦ []
    | some v ↦ to_str R v
  ]

  -- A leak header that holds one of the identities.
  unfoldable pub leaks : List Text → EchoObservation → Bool
  leaks identities observation =
      any (λ name. any (λ i. holds i (header observation name)) identities) leak_headers

  has_header : EchoObservation → Text → Bool
  has_header observation name = elim (lookup name observation.headers) [
    | none ↦ false
    | some _ ↦ true
  ]

  -- `PROXY_MARKER_HEADERS.intersection(observation.headers)`
  unfoldable pub is_marked : EchoObservation → Bool
  unfolding has_header
  is_marked observation = any (has_header observation) proxy_marker_headers

  unfoldable pub level : EchoObservation → Text
  level observation = if is_marked observation then str "anonymous" else str "elite"

  unfoldable pub verdict : List Text → EchoObservation → Option Text
  verdict identities observation =
      if contains identities observation.peer
      then none
      else if leaks identities observation
      then none
      else some (level observation)

  -- `classify_anonymity`
  unfoldable pub classify_anonymity : EchoObservation → List Text → Result (Option Text)
  classify_anonymity observation direct_identities = do
    identities ← normal_identities direct_identities
    raise_if (is_none identities) value_error
    ok (verdict identities observation)
