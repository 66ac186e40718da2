-- ===== src/Workers/Validator.antt =====
-- validator/validator.py: the probe of a candidate. What the
-- process meets is an argument: its environment, the clock, and for each candidate the network and
-- two readings of the credential store.
pub mod Escape
pub mod Cycle
use transparent_gateway.Prelude.{
  ℕ, suc, ◌-◌, Bool, true, ◌||◌, Option, none, some, List, Text, str, leb, ◌==◌, nat_eq, text_eq,
  if◌then◌else◌,
}
use transparent_gateway.Prelude.Int.{ℤ, pos, negsuc, ltb_ℤ}
use transparent_gateway.Python.{
  Exception, incomplete_read, is_os_error, is_value_error, value_error, type_error, Result, ok, err,
  or_raise, Float, Value, Fields, null, text, int, obj, arr, of_items, end, field, get, get_default,
  put, remove, lookup, truthy, as_dict, as_list, Runtime, to_str, to_int, strip, split_all,
  parse_int,
}
use transparent_gateway.Python as Py
use transparent_gateway.Wire.{Conn, Wire}
use transparent_gateway.Credentials.{CredentialStore, Reading, Auth, get_credential, tls_context}
use transparent_gateway.Sources.Candidate.{ProxyCandidate, reference_value, snapshot}
use transparent_gateway.Asn.{AsnResolver, resolve}
use transparent_gateway.Probe.Anonymity.{CheckTarget, EchoObservation, classify_anonymity}
use transparent_gateway.Probe.Exchange.{proxy_exchange}

-- What the probe of a candidate meets.
pub record Encounter : Type 0 where
  pub first_reading : Reading
  pub second_reading : Reading
  pub ca_loaded : Result (Unit {0})
  -- `asyncio.open_connection` for a host, a port and a TLS context, and `start_tls`
  pub dial : Text → ℕ → Option Bool → Result Conn
  pub secure : Wire (Unit {0})
  -- `writer.close()` and `await writer.wait_closed()`
  pub closing : Result (Unit {0})
  -- how many bytes a plain `read` finds
  pub available : ℕ
  -- `round((loop.time() - started) * 1000)`
  pub elapsed : ℤ

-- The exceptions that make `probe` return `None`.
unfoldable pub is_caught_probe : Exception → Bool
is_caught_probe incomplete_read = true
is_caught_probe e = is_os_error e || is_value_error e

-- `max(1, n)`
unfoldable pub at_least_one : ℤ → ℤ
at_least_one n = if ltb_ℤ n (pos 1) then pos 1 else n

-- `n + 1`
unfoldable pub next : ℤ → ℤ
next (pos n) = pos (suc n)
next (negsuc n) = if leb n 0 then pos 0 else negsuc (n - 1)

-- `except (…): return None`
unfoldable pub or_none : {A : Type 0} → Result (Option A) → Result (Option A)
or_none (ok a) = ok a
or_none (err e) = if is_caught_probe e then ok none else err e

module _ (R : Runtime) (loads : Text → Option Value) where
  -- `proxy_observation`, with the TLS context of the proxy if its protocol is https
  unfoldable pub proxy_observation :
      Encounter → ProxyCandidate → CheckTarget → Auth → Option Bool → Result (EchoObservation × ℤ)
  proxy_observation met candidate target auth context =
      Py.◌>>=◌
        (proxy_exchange R loads met.available met.closing candidate.protocol target auth met.secure
          (met.dial candidate.host candidate.port context))
        λ observation. ok (observation, at_least_one met.elapsed)

  -- The part of `probe` in its `try`, once the credentials and the context are read.
  unfoldable pub observe :
      Encounter
      → ProxyCandidate
      → CheckTarget
      → List Text
      → Result Auth
      → Result (Option Bool)
      → Result (Option (EchoObservation × ℤ × Text))
  observe met candidate target identities auth context = Py.◌>>=◌ auth λ a. Py.◌>>=◌ context λ c.
      Py.◌>>=◌ (proxy_observation met candidate target a c) λ (observation, latency).
        Py.◌>>=◌ (classify_anonymity R observation identities)
          λ level. ok (elim level [ none ↦ none | some l ↦ some (observation, latency, l) ])

  -- `metadata` of the snapshot: the ASN that a source names is kept under another key.
  unfoldable pub with_source_asn : Fields → Fields
  with_source_asn metadata =
      let rest = remove metadata (str "asn") in
      let asn = get metadata (str "asn") in
      if truthy asn then put rest (str "source_asn") (text (to_str R asn)) else rest

  -- The snapshot of a candidate that passed.
  unfoldable pub probed_snapshot :
      ProxyCandidate → EchoObservation → ℤ → Text → AsnResolver → Result Fields
  probed_snapshot candidate observation latency level resolver =
      Py.◌>>=◌ (resolve R resolver observation.peer) λ network. ok (
        put
          (put
            (put (snapshot candidate latency level) (str "metadata")
              (obj (with_source_asn candidate.metadata)))
            (str "exit_ip") (text observation.peer))
          (str "network") (obj network))

  unfoldable pub finish_probe :
      ProxyCandidate → AsnResolver → Option (EchoObservation × ℤ × Text) → Result (Option Fields)
  finish_probe candidate resolver none = ok none
  finish_probe candidate resolver (some (observation, latency, level)) =
      Py.◌>>=◌ (probed_snapshot candidate observation latency level resolver) λ s. ok (some s)

  module _ (sha256 : Text → Text) where
    -- The TLS context of the proxy; it is asked for only if the credentials are there.
    unfoldable pub context_of :
        CredentialStore
        → Encounter
        → ProxyCandidate
        → Result Auth
        → Result (Option Bool) × CredentialStore
    context_of store met candidate (err e) = (err e, store)
    context_of store met candidate (ok a) =
        let (trusted, store') =
          tls_context sha256 loads met.ca_loaded store met.second_reading
            (reference_value candidate.credential_ref) in
        if candidate.protocol == str "https"
        then (Py.◌>>=◌ trusted λ t. ok (some t), store')
        else (ok none, store)

    -- `probe`
    unfoldable pub probe :
        CredentialStore
        → Encounter
        → ProxyCandidate
        → CheckTarget
        → List Text
        → AsnResolver
        → Result (Option Fields) × CredentialStore
    probe store met candidate target identities resolver =
        let (auth, store1) =
          get_credential sha256 loads store met.first_reading
            (reference_value candidate.credential_ref) in
        let (context, store2) = context_of store1 met candidate auth in
        (
          Py.◌>>=◌ (or_none (observe met candidate target identities auth context))
              (finish_probe candidate resolver),
          store2,
        )
