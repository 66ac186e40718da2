-- ===== src/Relay/Handle.antt =====
-- `handle` of gateway/egress_relay.py, with the attempts of its loop. The bytes that `pipe` copies
-- afterwards are not modelled.
pub mod Attempts
pub mod Tried
use transparent_gateway.Prelude.{
  ℕ, ◌+◌, ◌≡◌, refl, Bool, true, false, ◌||◌, Option, none, some, List, [], ◌∷◌, Text, ltb, ◌==◌,
  nat_eq, length, if◌then◌else◌,
}
use transparent_gateway.Python.{
  Exception, timeout_error, incomplete_read, is_value_error, is_os_error, Result, ok, err, ◌>>=◌,
  Value, Fields, Runtime,
}
use transparent_gateway.Wire.{Conn}
use transparent_gateway.Credentials.{CredentialStore}
use transparent_gateway.Relay.Pool.{Pool, Moment, pool_key, choose, record_result}
use transparent_gateway.Relay.Target.{target_from_connect}
use transparent_gateway.Relay.Handshake.{probe_dns_tcp}
use transparent_gateway.Relay.Upstream.{Surroundings, connect_upstream}

-- What one turn of the loop meets.
pub record Attempt : Type 0 where
  -- for `choose`, and the time that `record_result` notes for a failure
  pub moment : Moment
  pub ready : ℕ
  -- for `probe_dns_tcp`: its connection, its identifier, whether `wait_for` lets it end, and what
  -- closing the connection does
  pub probe : Surroundings
  pub query_id : Text
  pub probe_in_time : Bool
  pub closed : Result (Unit {0})
  -- for `connect_upstream`
  pub connect : Surroundings
  pub connect_in_time : Bool

-- `asyncio.wait_for`
unfoldable pub wait_for {ℓ} : {A : Type ℓ} → Bool → Result A → Result A
wait_for true r = r
wait_for false r = err timeout_error

-- How the loop ends: with a tunnel, with none, or by an exception that the loop does not catch.
pub data Outcome : Type 0 where
  connected : Conn → Outcome
  exhausted : Outcome
  raised : Exception → Outcome

pub record Run : Type 0 where
  pub outcome : Outcome
  pub pool : Pool
  pub store : CredentialStore
  -- the keys that were tried, the last one first
  pub tried : List Text

-- What the client gets.
pub data Reply : Type 0 where
  established : Conn → Reply
  bad_gateway : Reply
  escaped : Exception → Reply

-- `except (asyncio.TimeoutError, OSError, ValueError)` of the loop
unfoldable pub is_caught_attempt : Exception → Bool
is_caught_attempt e = is_os_error e || is_value_error e

-- The `except` clause of `handle`.
unfoldable pub is_caught : Exception → Bool
is_caught incomplete_read = true
is_caught e = is_caught_attempt e

unfoldable pub reply_of_error : Exception → Reply
reply_of_error e = if is_caught e then bad_gateway else escaped e

unfoldable pub reply_of : Outcome → Reply
reply_of (connected conn) = established conn
reply_of exhausted = bad_gateway
reply_of (raised e) = reply_of_error e

-- `MAX_HEADERS`
abbrev pub max_headers : ℕ
max_headers = 0x4000

module _ (R : Runtime) (sha256 : Text → Text) (loads : Text → Option Value) where
  -- The query on a connection, which is closed behind it.
  unfoldable pub probe_on : Attempt → Result Conn → Result (Unit {0})
  probe_on a (err e) = err e
  probe_on a (ok conn) = a.closed >>= λ _. (probe_dns_tcp a.query_id conn).0

  -- The body of the inner `try`.
  unfoldable pub attempt_upstream :
      Attempt → CredentialStore → Fields → Text × ℕ → Result Conn × CredentialStore
  attempt_upstream a store candidate target =
      let (probed, store₁) = connect_upstream R sha256 loads a.probe store candidate target in
      let (conn₁, probed_store) =
        connect_upstream R sha256 loads a.connect store₁ candidate target in
      let (conn, plain_store) = connect_upstream R sha256 loads a.connect store candidate target in
      if target.1 == 53
      then elim (wait_for a.probe_in_time (probe_on a probed)) [
        | ok _ ↦ (wait_for a.connect_in_time conn₁, probed_store)
        | err e ↦ (err e, store₁)
      ]
      else (wait_for a.connect_in_time conn, plain_store)

  -- The end of a turn, by what its attempt gives.
  unfoldable pub settle :
      (Pool → CredentialStore → List Text → Run)
      → Text × ℕ
      → Attempt
      → Pool
      → List Text
      → Fields
      → Result Conn
      → CredentialStore
      → Run
  settle next target a pool tried candidate (ok conn) store = record {
    outcome = connected conn;
    pool = record_result R loads pool candidate target.1 true a.ready;
    store = store;
    tried = tried;
  }
  settle next target a pool tried candidate (err e) store =
      let failed = record_result R loads pool candidate target.1 false a.ready in
      if is_caught_attempt e
      then next failed store tried
      else record { outcome = raised e; pool = pool; store = store; tried = tried }

  -- A turn, by the candidate that `choose` returns.
  unfoldable pub turn :
      (Pool → CredentialStore → List Text → Run)
      → Text × ℕ
      → Attempt
      → CredentialStore
      → List Text
      → Option Fields
      → Pool
      → Run
  turn next target a store tried none pool = record {
    outcome = exhausted;
    pool = pool;
    store = store;
    tried = tried;
  }
  turn next target a store tried (some candidate) pool =
      let (result, store₁) = attempt_upstream a store candidate target in
      settle next target a pool (pool_key R loads candidate ∷ tried) candidate result store₁

  -- The loop of `handle`, with one element of the list for each turn of `range(attempts)`.
  -- Other requests, which may change the shared pool while a turn waits, are left out.
  unfoldable pub connect_loop : Text × ℕ → List Attempt → Pool → CredentialStore → List Text → Run
  connect_loop target [] pool store tried = record {
    outcome = exhausted;
    pool = pool;
    store = store;
    tried = tried;
  }
  connect_loop target (a ∷ later) pool store tried =
      let (chosen, pool₁) = choose R loads pool a.moment target.1 tried in
      turn (λ p s t. connect_loop target later p s t) target a store tried chosen pool₁

  -- `handle`. `request` is what reading up to the empty line gives within ten seconds.
  unfoldable pub handle :
      Result Text → List Attempt → Pool → CredentialStore → Reply × Pool × CredentialStore
  handle (err e) attempts pool store = (reply_of_error e, pool, store)
  handle (ok request) attempts pool store =
      if ltb max_headers (length request)
      then (bad_gateway, pool, store)
      else elim (target_from_connect request) [
        | err e ↦ (reply_of_error e, pool, store)
        | ok target ↦
            let run = connect_loop target attempts pool store [] in
            (reply_of run.outcome, run.pool, run.store)
      ]
