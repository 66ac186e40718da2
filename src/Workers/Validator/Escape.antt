-- ===== src/Workers/Validator/Escape.antt =====
-- An exception that `probe` of validator/validator.py does not catch.
use transparent_gateway.Prelude.{
  ℕ, ◌+◌, ◌-◌, ◌<◌, ◌≡◌, refl, Bool, true, false, Option, none, List, ◌++◌, arith, Text, str,
  text_beq, length, text_eq, eq_self,
}
use transparent_gateway.Python.{limit_overrun, is_os_error, is_value_error, ok, err, Value, Runtime}
use transparent_gateway.Wire.{Wire, Conn, find, read_until}
use transparent_gateway.Relay.Handshake.{crlf, stream_limit}
use transparent_gateway.Credentials.{CredentialStore, Auth, get_credential}
use transparent_gateway.Sources.Candidate.{ProxyCandidate, reference_value}
use transparent_gateway.Asn.{AsnResolver}
use transparent_gateway.Probe.Anonymity.{CheckTarget}
use transparent_gateway.Probe.Tunnels.{read_headers}
use transparent_gateway.Probe.Exchange.{
  request_bytes, read_http_response, is_http, open_tunnel, close_behind, ask, proxy_exchange,
}
use transparent_gateway.Workers.Validator.{
  Encounter, is_caught_probe, or_none, proxy_observation, observe, context_of, probe,
}

-- A stream that the buffer cannot hold and that has no end of headers.
pub record IsEndless (c : Conn) : Type 0 where
  pub no_end : find (crlf ++ crlf) c.incoming ≡ none
  pub too_long : stream_limit < length c.incoming + 1 - 4

read_until_endless :
    (c : Conn) → IsEndless c → read_until stream_limit (crlf ++ crlf) c ≡ (err limit_overrun, c)
unfolding read_until
read_until_endless c endless = rw (endless.no_end, read_until) (ground (arith, endless.too_long))

read_http_response_endless :
    (now : ℕ) (c : Conn) → IsEndless c → read_http_response now c ≡ (err limit_overrun, c)
unfolding read_http_response read_headers
read_http_response_endless now c endless = rw (read_until_endless c endless) refl

module _ (R : Runtime) (loads : Text → Option Value) (now : ℕ) where
  ask_endless :
      (target : CheckTarget) (absolute : Bool) (auth : Auth) (request : Text) (c : Conn)
      → request_bytes target absolute auth ≡ ok request
      → IsEndless c
      → (ask R loads now target absolute auth c).0 ≡ err limit_overrun
  unfolding ask
  ask_endless target absolute auth request c asked endless =
      rw
        (
          asked,
          read_http_response_endless now (record c { sent = c.sent ++ request })
              (record { no_end = endless.no_end; too_long = endless.too_long }),
        )
        refl

  is_http_lem : is_http (str "http") ≡ true
  unfolding is_http str text_beq
  is_http_lem = refl

  not_tls : text_beq (str "http") (str "https") ≡ false
  unfolding str text_beq
  not_tls = refl

  not_socks5 : text_beq (str "http") (str "socks5") ≡ false
  unfolding str text_beq
  not_socks5 = refl

  not_socks4 : text_beq (str "http") (str "socks4") ≡ false
  unfolding str text_beq
  not_socks4 = refl

  proxy_exchange_endless :
      (target : CheckTarget) (auth : Auth) (secure : Wire (Unit {0})) (request : Text) (c : Conn)
      → target.scheme ≡ str "http"
      → request_bytes target true auth ≡ ok request
      → IsEndless c
      → proxy_exchange R loads now (ok tt) (str "http") target auth secure (ok c)
        ≡ err limit_overrun
  unfolding proxy_exchange close_behind open_tunnel
  proxy_exchange_endless target auth secure request c scheme asked endless =
      let plain : text_beq target.scheme (str "http") ≡ true = rw scheme (eq_self (str "http")) in
      let no_tls : text_beq target.scheme (str "https") ≡ false = rw scheme not_tls in
      rw (plain, no_tls, is_http_lem, not_socks5, not_socks4)
        (ask_endless target true auth request c asked endless)

module _ (R : Runtime) (loads : Text → Option Value) (sha256 : Text → Text)
    (store : CredentialStore) (met : Encounter) (candidate : ProxyCandidate) (target : CheckTarget)
    (identities : List Text) (resolver : AsnResolver) where
  -- An HTTP proxy, asked for an HTTP target, that sends more than the buffer holds without an end of
  -- headers, on a connection that closes without an error: the exception passes the
  -- handler of the probe.
  pub probe-limit_overrun :
      (auth : Auth) (request : Text) (c : Conn)
      → candidate.protocol ≡ str "http"
      → target.scheme ≡ str "http"
      → (get_credential sha256 loads store met.first_reading
          (reference_value candidate.credential_ref)).0
        ≡ ok auth
      → met.dial candidate.host candidate.port none ≡ ok c
      → request_bytes target true auth ≡ ok request
      → IsEndless c
      → met.closing ≡ ok tt
      → (probe R loads sha256 store met candidate target identities resolver).0 ≡ err limit_overrun
  unfolding probe context_of observe or_none proxy_observation is_caught_probe is_os_error
      is_value_error
  probe-limit_overrun auth request c protocol scheme found dialled asked endless closed =
      let no_tls : text_beq candidate.protocol (str "https") ≡ false =
        rw protocol (not_tls R loads 0) in
      let exchanged =
        proxy_exchange_endless R loads met.available target auth met.secure request c scheme asked
          endless in
      rw (found, no_tls, dialled, closed, protocol, exchanged) refl
