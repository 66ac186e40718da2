-- ===== src/Tests/Validating.antt =====
-- A cycle of the validator with one HTTP proxy, and a proxy that sends no end of headers.
use transparent_gateway.Prelude.{
  ℕ, zero, suc, ◌≡◌, refl, ap, true, Option, none, some, List, [], ◌∷◌, ◌++◌, arith, Text, str,
  ◌==◌, text_eq, text_beq, length, if◌then◌else◌,
}
use transparent_gateway.Prelude.Int.{pos}
use transparent_gateway.Python.{
  Result, ok, err, limit_overrun, startswith, ascii, count_char, Value, Fields, null, int, text,
  obj, arr, of_items, field, end,
}
use transparent_gateway.Wire.{Conn, find, pure}
use transparent_gateway.Relay.Handshake.{crlf}
use transparent_gateway.Storage.{Redis, raw_key}
use transparent_gateway.Credentials.{new_store, get_credential}
use transparent_gateway.Sources.Candidate.{ProxyCandidate, reference_value}
use transparent_gateway.Asn.{AsnResolver}
use transparent_gateway.Probe.Anonymity.{CheckTarget, SplitUrl, absolute_url, authority}
use transparent_gateway.Probe.Tunnels.{basic_authorization}
use transparent_gateway.Probe.Exchange.{request_bytes}
use transparent_gateway.Workers.Validator.{Encounter, probe}
use transparent_gateway.Workers.Validator.Escape.{IsEndless, probe-limit_overrun}
use transparent_gateway.Workers.Validator.Cycle.{Surroundings, cycle}
use transparent_gateway.Workers.Validator.Cycle.Published.{Ended, cycle-Ended}
use transparent_gateway.Tests.Sample.{sample}
use transparent_gateway.Tests.Chunks.{stream_of}

abbrev echo_url : SplitUrl
echo_url = record {
  scheme = str "http";
  hostname = str "1";
  username = [];
  password = [];
  port = ok none;
  path = str "/";
  query = [];
  fragment = [];
}

abbrev echo_target : CheckTarget
echo_target = record { scheme = str "http"; host = str "1"; port = 80; path = str "/" }

abbrev response : Text → Text
response body = str "HTTP/1.1 200 OK" ++ crlf ++ str "Content-Length: 2" ++ crlf ++ crlf ++ body

-- The echo sees the validator as 5 and the proxy as 9.
abbrev echo_of : Text → Value
echo_of peer = obj (field (str "origin") (text peer) (field (str "headers") (obj end) end))

abbrev proxy_fields : Fields
proxy_fields =
    field (str "host") (text (str "7"))
      (field (str "port") (int (pos 3128)) (field (str "protocol") (text (str "http")) end))

abbrev raw_fields : Fields
raw_fields =
    field (str "generated_at") (int (pos 10))
      (field (str "entries") (arr (of_items (obj proxy_fields ∷ []))) end)

abbrev reads : Text → Option Value
reads s =
    if s == str "raw"
    then some (obj raw_fields)
    else if s == str "{}"
    then some (echo_of (str "5"))
    else if s == str "[]"
    then some (echo_of (str "9"))
    else none

abbrev met_first : Encounter
met_first = record {
  first_reading = record { now = 0; content = none };
  second_reading = record { now = 0; content = none };
  ca_loaded = ok tt;
  dial = λ host port context. ok (stream_of (response (str "[]")));
  secure = pure tt;
  closing = ok tt;
  available = 100;
  elapsed = pos 12;
}

abbrev surroundings : Surroundings
surroundings = record {
  getenv = λ name. if name == str "ANONYMITY_CHECK_URL" then some (str "http://1/") else none;
  dial = λ target. ok (stream_of (response (str "{}")));
  available = λ target. 100;
  closing = λ target. ok tt;
  one_second = 1;
  asn_now = 10;
  asn_modified = some 10;
  asn_opened = some (λ address. ok (null, 0));
  encounter = λ n. met_first;
  completed_at = pos 20;
  generated_at = pos 20;
  cycle_id = str "c";
  uuid = str "u";
}

abbrev held : List (Text × Text)
held = (raw_key, str "raw") ∷ []

abbrev ended : Result (Option (ℕ × ℕ)) × Redis
ended =
    cycle sample (λ url. ok echo_url) reads (λ s. s) surroundings (λ v. str "json")
      (λ v. str "json") (record { content = held; fates = [] })

cycle-Ended_example :
    Ended sample
      (λ url. ok echo_url)
      reads
      (λ s. s)
      surroundings
      (λ v. str "json")
      (λ v. str "json")
      held
      ended
cycle-Ended_example =
    cycle-Ended sample (λ url. ok echo_url) reads (λ s. s) surroundings (λ v. str "json")
      (λ v. str "json") held

-- n times the letter x
xs : ℕ → Text
xs zero = []
xs (suc n) = b'x' ∷ xs n

length-xs : (n : ℕ) → length (xs n) ≡ n
unfolding xs
length-xs zero = refl
length-xs (suc n) = ap suc (length-xs n)

find-xs : (n : ℕ) → find (crlf ++ crlf) (xs n) ≡ none
unfolding find xs startswith
find-xs zero = refl
find-xs (suc n) = rw (find-xs n) refl

abbrev endless : Conn
endless = stream_of (xs 70000)

endless-IsEndless : IsEndless (record endless { sent = [] })
endless-IsEndless = record {
  no_end = find-xs 70000;
  too_long = let many = length-xs 70000 in omega (arith, many);
}

abbrev met_endless : Encounter
met_endless = record met_first { dial = λ host port context. ok endless }

abbrev proxy : ProxyCandidate
proxy = record {
  host = str "7";
  port = 3128;
  protocol = str "http";
  source = str "s";
  metadata = end;
  credential_ref = none;
}

abbrev no_resolver : AsnResolver
no_resolver = record { path = []; max_age = pos 1; reader = none }

abbrev request : Text
request =
    str "GET http://1/ HTTP/1.1"
    ++ crlf
    ++ str "Host: 1"
    ++ crlf
    ++ str "Accept: application/json"
    ++ crlf
    ++ str "User-Agent: transparent-gateway-validator/1"
    ++ crlf
    ++ str "Connection: close"
    ++ crlf
    ++ crlf

asks : request_bytes echo_target true none ≡ ok request
unfolding request_bytes str text_beq absolute_url authority basic_authorization ascii count_char
asks = refl

has_no_credentials :
    (get_credential (λ s. s) reads (new_store 1) met_endless.first_reading (reference_value none)).0
    ≡ ok none
unfolding get_credential reference_value new_store
has_no_credentials = refl

probe-limit_overrun_example :
    (probe sample reads
      (λ s. s)
      (new_store 1)
      met_endless
      proxy
      echo_target
      (str "5" ∷ [])
      no_resolver).0
    ≡ err limit_overrun
probe-limit_overrun_example =
    probe-limit_overrun sample reads (λ s. s) (new_store 1) met_endless proxy echo_target
      (str "5" ∷ []) no_resolver none request endless refl refl has_no_credentials refl asks
      endless-IsEndless refl
