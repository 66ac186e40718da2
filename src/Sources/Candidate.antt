-- ===== src/Sources/Candidate.antt =====
-- validator/sources/base.py: the canonical candidate and its parser.
pub mod Valid
pub mod RoundTrip
use transparent_gateway.Prelude.{
  ℕ, suc, ◌+◌, ◌≡◌, refl, Bool, true, false, not, ◌&&◌, ◌||◌, Option, none, some, List, [], ◌∷◌,
  ◌++◌, Text, str, ltb, leb, ◌==◌, nat_eq, text_eq, contains, drop, length, all, any, if◌then◌else◌,
}
use transparent_gateway.Prelude.Int.{ℤ, pos, pos_part, leb_ℤ, int_eq}
use transparent_gateway.Python.{
  Exception, value_error, type_error, is_value_error, Result, ok, err, ◌>>=◌, ◌>>◌, raise_if,
  or_raise, Value, Fields, null, int, text, obj, end, field, get, put, truthy, value_or, is_null,
  as_dict, as_text, Runtime, to_str, to_int, is_space, strip, is_digit, lower, startswith,
  ends_with_char, count_char, split_first, split_last, split_all, rstrip_chars, parse_int,
  print_nat,
}

pub record ProxyCandidate : Type 0 where
  pub host : Text
  pub port : ℕ
  pub protocol : Text
  pub source : Text
  pub credential_ref : Option Text
  pub metadata : Fields

-- `ALLOWED_PROTOCOLS`
unfoldable pub allowed_protocols : List Text
allowed_protocols = str "http" ∷ str "https" ∷ str "socks4" ∷ str "socks5" ∷ []

-- `ProxyCandidate.endpoint`
unfoldable pub endpoint_of : Text → ℕ → Text
endpoint_of host port =
    (if ltb 0 (count_char b':' host) then b'[' ∷ (host ++ b']' ∷ []) else host)
    ++ b':' ∷ print_nat port

unfoldable pub endpoint : ProxyCandidate → Text
unfolding endpoint_of
endpoint c = endpoint_of c.host c.port

-- `ProxyCandidate.address`
unfoldable pub address : ProxyCandidate → Text
address c = c.protocol ++ str "://" ++ endpoint c

-- `credential_ref` as a JSON value
unfoldable pub reference_value : Option Text → Value
reference_value none = null
reference_value (some r) = text r

-- `ProxyCandidate.snapshot_without_validation`
unfoldable pub snapshot_without_validation : ProxyCandidate → Fields
unfolding reference_value
snapshot_without_validation c = field (str "host") (text c.host) (
    field (str "port") (int (pos c.port)) (
      field (str "protocol") (text c.protocol) (
        field (str "source") (text c.source) (
          field (str "credential_ref") (reference_value c.credential_ref) (
            field (str "metadata") (obj c.metadata) (
              field (str "endpoint") (text (endpoint c))
                (field (str "address") (text (address c)) end)))))))

-- `ProxyCandidate.snapshot`
unfoldable pub snapshot : ProxyCandidate → ℤ → Text → Fields
snapshot c latency_ms anonymity_level =
    put
      (put (put (snapshot_without_validation c) (str "latency_ms") (int latency_ms))
        (str "anonymous") (Value.bool true))
      (str "anonymity_level") (text anonymity_level)

-- `int(port_text)`, with its error
unfoldable pub with_port : Text × Text → Result (Text × ℤ)
with_port (host, port_text) = or_raise (parse_int port_text) value_error >>= λ port. ok (host, port)

-- `endpoint[closing + 1] == ":"`, with what follows
unfoldable pub behind_bracket : Text × Text → Result (Text × Text)
behind_bracket (host, []) = err value_error
behind_bracket (host, c ∷ rest) = if c == b':' then ok (host, rest) else err value_error

-- The host and the text of the port.
unfoldable pub endpoint_parts : Text → Result (Text × Text)
unfolding behind_bracket
endpoint_parts value =
    if startswith value (b'[' ∷ [])
    then (or_raise (split_first b']' (drop 1 value)) value_error >>= behind_bracket)
    else if count_char b':' value == 1
    then or_raise (split_last b':' value) value_error
    else err value_error

-- `_split_endpoint`
unfoldable pub split_endpoint : Text → Result (Text × ℤ)
unfolding endpoint_parts with_port
split_endpoint value = endpoint_parts value >>= with_port

-- `label.replace("-", "").isalnum()` of an ASCII label asks for one letter or digit.
is_alnum : ℕ → Bool
is_alnum c = is_digit c || (leb b'a' c && leb c b'z') || (leb b'A' c && leb c b'Z')

unfoldable pub is_label : Text → Bool
unfolding is_alnum
is_label label =
    leb 1 (length label)
    && leb (length label) 63
    && any is_alnum label
    && all (λ c. is_alnum c || c == b'-') label
    && not (startswith label (b'-' ∷ []))
    && not (ends_with_char label b'-')

-- `ascii_host`, checked and without its final dots
unfoldable pub check_hostname : Text → Result Text
unfolding is_label
check_hostname name =
    let plain = rstrip_chars (b'.' ∷ []) name in
    if ltb 253 (length name) || not (all is_label (split_all b'.' plain))
    then err value_error
    else ok plain

-- `int(raw_port)`, where a `TypeError` becomes a `ValueError`
unfoldable pub port_error : Exception → Exception
port_error type_error = value_error
port_error e = if is_value_error e then value_error else e

unfoldable pub port_result : Result ℤ → Result ℤ
unfolding port_error
port_result (ok n) = ok n
port_result (err e) = err (port_error e)

-- `all(isinstance(item, str) for … in metadata.items())`
unfoldable pub is_text_map : Fields → Bool
is_text_map end = true
is_text_map (field _ (text _) d) = is_text_map d
is_text_map (field _ _ _) = false

unfoldable pub text_map : Option Fields → Result Fields
text_map none = err value_error
text_map (some d) = if is_text_map d then ok d else err value_error

unfoldable pub read_metadata : Value → Result Fields
unfolding text_map
read_metadata v = text_map (as_dict (value_or v (obj end)))

-- `protocol not in ALLOWED_PROTOCOLS or not source`
unfoldable pub is_refused : Text → Text → Bool
is_refused protocol source = not (contains allowed_protocols protocol) || source == []

-- `not 1 <= port <= 65535`
unfoldable pub is_no_port : ℤ → Bool
is_no_port port = not (leb_ℤ (pos 1) port && leb_ℤ port (pos 65535))

module _ (R : Runtime) where
  -- `_normalise_host`
  unfoldable pub normalise_host : Text → Result Text
  unfolding check_hostname
  normalise_host host =
      let value = lower (strip host) in
      if value == [] || any is_space value then err value_error else elim (R.parse_address value) [
        | some a ↦ ok (R.format_address a)
        | none ↦ elim (R.idna value) [ none ↦ err value_error | some name ↦ check_hostname name ]
      ]

  -- `raw_host`, compared with the host of the endpoint if there is one
  unfoldable pub check_host : Text → Text → Result (Unit {0})
  check_host raw_host endpoint_host =
      if raw_host == []
      then ok tt
      else (normalise_host raw_host >>= λ a.
          normalise_host endpoint_host >>= λ b. raise_if (not (a == b)) value_error)

  -- `raw_port`, compared with the port of the endpoint if there is one
  unfoldable pub check_port : Value → ℤ → Result (Unit {0})
  check_port raw_port endpoint_port =
      if is_null raw_port
      then ok tt
      else (port_result (to_int R raw_port) >>= λ n.
          raise_if (not (n == endpoint_port)) value_error)

  -- The host and the port of a value.
  unfoldable pub read_location : Text → Text → Value → Result (Text × ℤ)
  read_location raw_endpoint raw_host raw_port =
      if not (raw_endpoint == [])
      then (split_endpoint raw_endpoint >>= λ split.
          check_host raw_host split.0 >> (check_port raw_port split.1 >> ok split))
      else if not (raw_host == []) && not (is_null raw_port)
      then (port_result (to_int R raw_port) >>= λ n. ok (raw_host, n))
      else err value_error

  -- `str(value.get(key) or default)`
  unfoldable pub text_or : Fields → Text → Text → Text
  text_or value key default = to_str R (value_or (get value key) (text default))

  -- `credential_ref`: blank text is refused, and a false value is left out.
  unfoldable pub read_reference : Value → Result (Option Text)
  read_reference v =
      if is_null v
      then ok none
      else if strip (to_str R v) == []
      then err value_error
      else ok (if truthy v then some (to_str R v) else none)

  -- The part of `parse_candidate` behind the reading of the host and the port.
  unfoldable pub complete : Text × ℤ → Text → Text → Value → Value → Result ProxyCandidate
  complete location protocol source reference_value metadata_value = do
    raise_if (is_refused protocol source) value_error
    host ← normalise_host location.0
    raise_if (is_no_port location.1) value_error
    reference ← read_reference reference_value
    metadata ← read_metadata metadata_value
    ok (record {
      host = host;
      port = pos_part location.1;
      protocol = protocol;
      source = source;
      credential_ref = reference;
      metadata = metadata;
    })

  -- `parse_candidate`
  unfoldable pub parse_candidate : Fields → Text → Result ProxyCandidate
  parse_candidate value default_source = do
    location ←
        read_location (strip (text_or value (str "endpoint") []))
          (strip (text_or value (str "host") [])) (get value (str "port"))
    complete location (lower (strip (text_or value (str "protocol") [])))
        (strip (text_or value (str "source") default_source)) (get value (str "credential_ref"))
        (get value (str "metadata"))
