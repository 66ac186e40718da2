-- ===== src/Relay/Upstream.antt =====
-- `connect_upstream` of gateway/egress_relay.py: the address, the credentials and the connection.
use transparent_gateway.Prelude.{
  ℕ, Bool, ◌||◌, Option, none, some, [], Text, str, ◌==◌, nat_eq, text_eq, if◌then◌else◌,
}
use transparent_gateway.Prelude.Int.{ℤ}
use transparent_gateway.Python.{
  Exception, value_error, os_error, unicode_error, key_error, Result, ok, err, or_raise, Value,
  Fields, null, int, text, lookup, get, is_null, value_or, as_text, Runtime, to_str, to_int,
  startswith, encode, b64encode, print_nat, split_last, strip_chars, parse_int,
}
use transparent_gateway.Python as Py
use transparent_gateway.Wire.{Conn}
use transparent_gateway.Credentials.{CredentialStore, Reading, Auth, get_credential, tls_context}
use transparent_gateway.Relay.Handshake.{handshake}

-- What `connect_upstream` meets: two readings for the credentials, what loading the CA file does,
-- and what `asyncio.open_connection` gives for a host, a port and a TLS context.
pub record Surroundings : Type 0 where
  pub first_reading : Reading
  pub second_reading : Reading
  pub ca_loaded : Result (Unit {0})
  pub dial : Text → ℤ → Option Bool → Result Conn

module _ (R : Runtime) where
  -- `host, port_text = endpoint.rsplit(":", 1)`, and both converted
  unfoldable pub split_endpoint : Text → Result (Text × Value)
  split_endpoint endpoint = Py.◌>>=◌ (or_raise (split_last b':' endpoint) value_error) λ split.
      Py.◌>>=◌ (or_raise (parse_int split.1) value_error)
        λ port. ok (strip_chars (str "[]") split.0, int port)

  -- The host and the port of a candidate: its own, or those of its endpoint if one is missing. The
  -- port is converted when the connection is opened.
  unfoldable pub upstream_address : Fields → Text → Result (Text × Value)
  unfolding split_endpoint
  upstream_address candidate endpoint =
      let host = to_str R (value_or (get candidate (str "host")) (text [])) in
      let port = get candidate (str "port") in
      if host == [] || is_null port then split_endpoint endpoint else ok (host, port)

  -- `str(candidate[key])`
  unfoldable pub required : Fields → Text → Result Text
  required candidate key = Py.◌>>=◌ (or_raise (lookup key candidate) key_error) λ v. ok (to_str R v)

  -- The handshake on a connection that is open.
  finish : Text → Text × ℕ → Auth → Conn → Result Conn
  finish protocol target auth conn =
      let (done, conn') = handshake R protocol auth target.0 target.1 conn in
      Py.◌>>=◌ done λ _. ok conn'

  module _ (sha256 : Text → Text) (loads : Text → Option Value) where
    -- `ssl_context`: none without TLS, else whether it trusts the approved file.
    unfoldable pub ssl_context :
        Surroundings → CredentialStore → Text → Value → Result (Option Bool) × CredentialStore
    ssl_context s store protocol reference =
        let (trusted, store') =
          tls_context sha256 loads s.ca_loaded store s.second_reading reference in
        if protocol == str "https"
        then (Py.◌>>=◌ trusted λ t. ok (some t), store')
        else (ok none, store)

    -- `connect_upstream`
    unfoldable pub connect_upstream :
        Surroundings → CredentialStore → Fields → Text × ℕ → Result Conn × CredentialStore
    unfolding finish
    connect_upstream s store candidate target =
        let reference = get candidate (str "credential_ref") in
        let parts : Result (Text × Text × Value) =
          Py.◌>>=◌ (required candidate (str "endpoint")) λ endpoint.
            Py.◌>>=◌ (required candidate (str "protocol")) λ protocol.
              Py.◌>>=◌ (upstream_address candidate endpoint) λ a. ok (protocol, a.0, a.1) in
        elim parts [
          | err e ↦ (err e, store)
          | ok (protocol, host, port) ↦
              let (auth, store₁) = get_credential sha256 loads store s.first_reading reference in
              let (context, store₂) = ssl_context s store₁ protocol reference in
              elim auth [
                | err e ↦ (err e, store₁)
                | ok a ↦ (
                  Py.◌>>=◌ context λ tls.
                      Py.◌>>=◌ (to_int R port)
                        λ n. Py.◌>>=◌ (s.dial host n tls) λ conn. finish protocol target a conn,
                  store₂,
                )
              ]
        ]
