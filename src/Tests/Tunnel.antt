-- ===== src/Tests/Tunnel.antt =====
-- The pool with two upstreams, a request line, and the SOCKS5 handshake.
use mathlib.Core.List.{Memᴰ}
use transparent_gateway.Prelude.{
  ℕ, ◌<◌, ◌≡◌, ◌≢◌, refl, true, false, Option, none, some, [], ◌∷◌, ◌++◌, arith, Text, str, nat_eq,
  text_eq, length, text_beq,
}
use transparent_gateway.Python.{
  Value, Fields, text, obj, end, field, ok, incomplete_read, to_str, truthy, get, ascii, startswith,
  split_all, split_last, parse_int, encode,
}
use transparent_gateway.Wire.{Conn}
use transparent_gateway.Relay.Pool.{
  Pool, Moment, unavailable, until, pool_key, refresh, candidates, capable, choose, record_result,
  dicts, capable_first, usable,
}
use transparent_gateway.Relay.Pool.Choice.{IsUsable, choose-IsUsable, choose_total}
use transparent_gateway.Relay.Pool.Rotation.{choose_times, choose_in_turn, choose_not_preferred}
use transparent_gateway.Relay.Pool.Cooldown.{choose_cooldown}
use transparent_gateway.Relay.Target.{
  in_authority, target_from_connect, target_from_connect-request, print_authority, request_line,
  unbracket, first_line, parse_authority, unbracket,
}
use transparent_gateway.Relay.Handshake.{socks5_connect, two_bytes, socks5_address}
use transparent_gateway.Relay.Handshake.Socks5.{
  ipv4, domain, open_replies, login_replies, login_message, socks5_connect-open,
  socks5_connect-login, IsBind,
}
use transparent_gateway.Relay.Handshake.Secrets.{socks5_connect-refused}
use transparent_gateway.Tests.Sample.{sample}

abbrev pub no_json : Text → Option Value
no_json s = none

abbrev pub upstream_a : Fields
upstream_a = field (str "address") (text (str "http://a:1")) end

abbrev pub upstream_b : Fields
upstream_b = field (str "address") (text (str "http://b:1")) end

-- The second turn of the rotation; only the first upstream is known to carry DNS over TCP.
abbrev pub two_upstreams : Pool
two_upstreams = record {
  size = 2;
  entries = obj upstream_a ∷ obj upstream_b ∷ [];
  index = 1;
  last_refresh = 0;
  failures = [];
  dns_tcp_capable = str "http://a:1" ∷ [];
}

abbrev pub soon : Moment
soon = record { checked = 1; refreshed = 1; now = 1; answer = unavailable }

chooses_b : (choose sample no_json two_upstreams soon 53 []).0 ≡ some upstream_b
unfolding choose text_beq str pool_key to_str truthy get
chooses_b = refl

choose-IsUsable_example :
    IsUsable sample no_json (refresh sample no_json two_upstreams soon) 1 53 [] upstream_b
choose-IsUsable_example =
    choose-IsUsable sample no_json two_upstreams soon 53 [] upstream_b chooses_b

a_IsUsable : IsUsable sample no_json (refresh sample no_json two_upstreams soon) 1 80 [] upstream_a
unfolding refresh until
a_IsUsable = record { listed = Memᴰ.head refl; fresh = refl; ready = omega arith }

choose_total_example :
    (chosen : Fields) × ((choose sample no_json two_upstreams soon 80 []).0 ≡ some chosen)
choose_total_example = choose_total sample no_json two_upstreams soon 80 [] upstream_a a_IsUsable

a_is_candidate : Memᴰ upstream_a (candidates sample no_json two_upstreams 1 80 [])
unfolding candidates
a_is_candidate = Memᴰ.head refl

choose_in_turn_example :
    (k : ℕ) × (k < length (candidates sample no_json two_upstreams 1 80 []))
    × ((choose sample no_json (choose_times sample no_json soon 80 [] k two_upstreams) soon 80 []).0
        ≡ some upstream_a)
choose_in_turn_example =
    choose_in_turn sample no_json soon 80 [] two_upstreams upstream_a (omega arith) a_is_candidate

choose_not_preferred_example : capable sample no_json two_upstreams upstream_b ≡ false
unfolding capable dicts capable_first usable text_beq str pool_key to_str truthy get
choose_not_preferred_example =
    choose_not_preferred sample no_json soon [] two_upstreams upstream_b (omega arith) (omega arith)
      chooses_b

choose_cooldown_example : pool_key sample no_json upstream_a ≢ pool_key sample no_json upstream_b
unfolding choose record_result text_beq pool_key to_str truthy get str
choose_cooldown_example =
    choose_cooldown sample no_json two_upstreams upstream_a 80 301 soon [] upstream_b (omega arith)
      refl

reads_request :
    target_from_connect (str "CONNECT a.example:443 HTTP/1.1\r\n\r\n") ≡ ok (str "a.example", 443)
unfolding target_from_connect ascii first_line str startswith split_all text_beq parse_authority
    split_last unbracket parse_int
reads_request = refl

target_from_connect-request_example :
    target_from_connect
      (request_line (print_authority (in_authority true (str "::1")) 53) ++ 13 ∷ 10 ∷ str "x: y")
    ≡ ok (str "::1", 53)
unfolding str startswith text_beq
target_from_connect-request_example =
    target_from_connect-request true (str "::1") (str "x: y") 53 (λ e. cc) refl
      (
        (omega arith, λ e. omega arith, λ e. omega arith),
        (
          (omega arith, λ e. omega arith, λ e. omega arith),
          ((omega arith, λ e. omega arith, λ e. omega arith), tt),
        ),
      )
      (omega arith) (omega arith)

socks5_connect-open_example :
    socks5_connect sample none (str "10.0.0.1") 80 (record {
      incoming = open_replies (ipv4 (1 ∷ 2 ∷ 3 ∷ 4 ∷ [])) (0 ∷ 80 ∷ []) ++ 7 ∷ [];
      at_end = incomplete_read;
      sent = [];
    })
    ≡ (
      ok tt,
      record {
        incoming = 7 ∷ [];
        at_end = incomplete_read;
        sent = ([] ++ 5 ∷ 1 ∷ 0 ∷ []) ++ 5 ∷ 1 ∷ 0 ∷ ((1 ∷ 10 ∷ 0 ∷ 0 ∷ 1 ∷ []) ++ two_bytes 80);
      },
    )
unfolding socks5_address sample text_beq str IsBind
socks5_connect-open_example =
    socks5_connect-open sample (7 ∷ []) [] (str "10.0.0.1") (1 ∷ 10 ∷ 0 ∷ 0 ∷ 1 ∷ [])
      incomplete_read 80 (ipv4 (1 ∷ 2 ∷ 3 ∷ 4 ∷ [])) (0 ∷ 80 ∷ []) refl refl refl

socks5_connect-login_example :
    socks5_connect sample (some (str "u", str "p")) (str "ab") 80 (record {
      incoming = login_replies (domain (9 ∷ [])) (0 ∷ 80 ∷ []) ++ 7 ∷ [];
      at_end = incomplete_read;
      sent = [];
    })
    ≡ (
      ok tt,
      record {
        incoming = 7 ∷ [];
        at_end = incomplete_read;
        sent =
            (([] ++ 5 ∷ 2 ∷ 0 ∷ 2 ∷ []) ++ login_message (str "u") (str "p"))
            ++ 5 ∷ 1 ∷ 0 ∷ ((3 ∷ 2 ∷ str "ab") ++ two_bytes 80);
      },
    )
unfolding str encode socks5_address sample text_beq IsBind
socks5_connect-login_example =
    socks5_connect-login sample (7 ∷ []) [] (str "ab") (3 ∷ 2 ∷ str "ab") (str "u") (str "p")
      (str "u") (str "p") incomplete_read 80 (domain (9 ∷ [])) (0 ∷ 80 ∷ []) refl refl (omega arith)
      (omega arith) refl (omega arith) refl

-- A proxy that asks for no user name.
abbrev careless : Conn
careless = record { incoming = 5 ∷ 0 ∷ []; at_end = incomplete_read; sent = [] }

socks5_connect-refused_example :
    ((a : Unit {0})
      → (socks5_connect sample (some (str "u", str "p")) (str "ab") 80 careless).0 ≢ ok a)
    × ((socks5_connect sample (some (str "u", str "p")) (str "ab") 80 careless).1.sent
        ≡ [] ++ 5 ∷ 2 ∷ 0 ∷ 2 ∷ [])
socks5_connect-refused_example =
    socks5_connect-refused sample (str "u") (str "p") (str "ab") 80 careless (λ e. cc)
