-- ===== src/Tests/Connect.antt =====
-- The credential store, and the loop of the handler over two upstreams of which the first refuses.
use transparent_gateway.Prelude.{
  ◌≡◌, refl, Bool, true, Option, none, some, [], ◌∷◌, ◌++◌, arith, Text, str, ◌==◌, nat_eq, text_eq,
  text_beq, if◌then◌else◌,
}
use transparent_gateway.Prelude.Int.{ℤ}
use transparent_gateway.Python.{
  Value, Fields, text, obj, end, field, Result, ok, err, incomplete_read, os_error, lookup, to_str,
  value_or, truthy, get, split_last, parse_int, encode, strip_chars, print_nat, startswith,
  is_os_error,
}
use transparent_gateway.Wire.{Conn, read_until}
use transparent_gateway.Credentials.{
  Reading, new_store, get_credential, read_reference, is_due, refresh, reload, read_item,
}
use transparent_gateway.Credentials.Reload.{
  IsLoaded, get_credential-IsLoaded, get_credential-current,
}
use transparent_gateway.Relay.Pool.{
  Pool, unavailable, pool_key, candidates, pick, choose, record_result,
}
use transparent_gateway.Relay.Upstream.{
  Surroundings, connect_upstream, required, upstream_address, split_endpoint, ssl_context,
}
use transparent_gateway.Relay.Handshake.{handshake, http_connect, is_connect_success, holds}
use transparent_gateway.Relay.Target.{first_line}
use transparent_gateway.Relay.Handle.{
  Attempt, Run, connect_loop, turn, settle, attempt_upstream, wait_for, is_caught_attempt,
}
use transparent_gateway.Relay.Handle.Tried.{IsNoted, connect_loop-IsNoted}
use transparent_gateway.Tests.Sample.{sample}

abbrev secrets : Fields
secrets =
    field (str "lab")
      (obj (field (str "username") (text (str "u")) (field (str "password") (text (str "p")) end)))
      end

-- A file that holds "x" stands for the secrets.
abbrev one_file : Text → Option Value
one_file s = if s == str "x" then some (obj secrets) else none

abbrev identity : Text → Text
identity s = s

abbrev reading : Reading
reading = record { now = 5; content = some (str "x") }

new_store-IsLoaded : IsLoaded identity one_file (new_store 1)
unfolding new_store
new_store-IsLoaded d e = cc

get_credential-IsLoaded_example :
    IsLoaded identity one_file
      (get_credential identity one_file (new_store 1) reading (text (str "lab"))).1
get_credential-IsLoaded_example =
    get_credential-IsLoaded identity one_file (new_store 1) reading (text (str "lab"))
      new_store-IsLoaded

get_credential-current_example :
    (get_credential identity one_file (new_store 1) reading (text (str "lab"))).0
    ≡ read_reference secrets (text (str "lab"))
unfolding is_due new_store text_beq str
get_credential-current_example =
    get_credential-current identity one_file (λ a b h. h) (new_store 1) reading (str "x") secrets
      (text (str "lab")) new_store-IsLoaded refl refl refl refl

gets_pair :
    (get_credential identity one_file (new_store 1) reading (text (str "lab"))).0
    ≡ ok (some (str "u", str "p"))
unfolding get_credential refresh is_due new_store reload text_beq str read_reference read_item get
gets_pair = refl

abbrev upstream : Text → Fields
upstream host = field (str "address") (text host) (
    field (str "endpoint") (text (host ++ str ":1"))
      (field (str "protocol") (text (str "http")) end))

abbrev pool : Pool
pool = record {
  size = 2;
  entries = obj (upstream (str "a")) ∷ obj (upstream (str "b")) ∷ [];
  index = 0;
  last_refresh = 0;
  failures = [];
  dns_tcp_capable = [];
}

-- "a" refuses the connection, and "b" accepts the request.
abbrev dial : Text → ℤ → Option Bool → Result Conn
dial host port tls =
    if host == str "b"
    then ok
        (record { incoming = str "HTTP/1.1 200 OK\r\n\r\n"; at_end = incomplete_read; sent = [] })
    else err os_error

abbrev around : Surroundings
around = record {
  first_reading = reading;
  second_reading = reading;
  ca_loaded = ok tt;
  dial = dial;
}

abbrev attempt : Attempt
attempt = record {
  moment = record { checked = 1; refreshed = 1; now = 1; answer = unavailable };
  ready = 301;
  probe = around;
  query_id = 1 ∷ 2 ∷ [];
  probe_in_time = true;
  closed = ok tt;
  connect = around;
  connect_in_time = true;
}

abbrev two_turns : Run
two_turns =
    connect_loop sample identity one_file (str "x", 80) (attempt ∷ attempt ∷ []) pool (new_store 1)
      []

tries_both : two_turns.tried ≡ str "b" ∷ str "a" ∷ []
unfolding connect_loop turn choose settle attempt_upstream wait_for connect_upstream required lookup
    text_beq str upstream_address split_endpoint ssl_context to_str value_or truthy get split_last
    parse_int get_credential new_store handshake http_connect read_until is_connect_success encode
    strip_chars print_nat startswith first_line record_result holds sample refresh pool_key
    candidates pick is_caught_attempt is_os_error transparent_gateway.Python.to_int
tries_both = refl

connect_loop-IsNoted_example :
    IsNoted sample identity one_file
      (str "x", 80)
      200
      two_turns.outcome
      two_turns.pool
      two_turns.tried
connect_loop-IsNoted_example =
    connect_loop-IsNoted sample identity one_file (str "x", 80) 200 (attempt ∷ attempt ∷ []) pool
      (new_store 1) ((omega arith, omega arith), ((omega arith, omega arith), tt))
