-- ===== src/Tests/Feeds.antt =====
-- A candidate, the connectors, the registry and the merge.
use transparent_gateway.Prelude.{
  ◌≡◌, refl, true, Option, none, some, List, [], ◌∷◌, map, arith, Text, str, ◌==◌, text_eq,
  text_beq, contains, all, All, if◌then◌else◌,
}
use transparent_gateway.Prelude.Int.{pos}
use transparent_gateway.Python.{
  Value, Fields, null, text, arr, obj, end, field, of_items, get, as_list, Result, ok, err,
  os_error, is_space, count_char, startswith, lower, strip, parse_int, split_all, rstrip_chars,
  ends_with_char, to_str, value_or, is_value_error, is_digit, lstrip, read_signed, rstrip,
  split_last, lookup, truthy,
}
use transparent_gateway.Sources.Candidate.{
  ProxyCandidate, parse_candidate, snapshot_without_validation, normalise_host, allowed_protocols,
  is_text_map, text_or, read_location, split_endpoint, behind_bracket, check_host, check_hostname,
  check_port, complete, endpoint_parts, is_label, is_no_port, is_refused, read_metadata,
  read_reference, text_map, with_port,
}
use transparent_gateway.Sources.Candidate.Valid.{IsValid, parse_candidate-IsValid}
use transparent_gateway.Sources.Candidate.RoundTrip.{IsCanonical, parse_candidate-snapshot}
use transparent_gateway.Sources.Connectors.{
  JsonlInventory, HttpJsonFeed, FeedResponse, parse_item, collect_items, collect_inventory,
  collect_feed, collect_lines, split_lines, parse_line, fetch, authorization, read_feed,
  yield_candidate,
}
use transparent_gateway.Sources.Connectors.Collected.{AreHandled, collect_inventory-IsValid}
use transparent_gateway.Sources.Registry.{
  Factory, types, register, create, all_texts, load_connectors, key_of, collect_all, load_active,
  is_rejected, kind_of, name_of, factory_of,
}
use transparent_gateway.Sources.Registry.Loaded.{AreLoaded, load_connectors-AreLoaded}
use transparent_gateway.Sources.Registry.Merged.{
  find, last_with, collected_candidates, AreUnique, find-collect_all, collect_all-AreUnique,
}
use transparent_gateway.Workers.Fetcher.{raw_snapshot, read_candidates}
use transparent_gateway.Workers.Fetcher.Handover.{read_candidates-raw_snapshot}
use transparent_gateway.Tests.Sample.{sample}

abbrev plain : ProxyCandidate
plain = record {
  host = str "ab";
  port = 80;
  protocol = str "http";
  source = str "s";
  credential_ref = none;
  metadata = end;
}

plain-IsCanonical : IsCanonical sample plain
unfolding str is_space count_char startswith normalise_host text_beq lower strip sample parse_int
    split_all rstrip_chars ends_with_char allowed_protocols is_text_map
plain-IsCanonical = record {
  host = record { nonempty = λ e. cc; no_space = refl; closed = refl; opened = refl };
  normal = refl;
  low = omega arith;
  high = omega arith;
  allowed = refl;
  named = λ e. cc;
  trimmed = refl;
  referenced = λ r e. cc;
  texts = refl;
}

parse_candidate-snapshot_example :
    parse_candidate sample (snapshot_without_validation plain) (str "x") ≡ ok plain
parse_candidate-snapshot_example = parse_candidate-snapshot sample plain (str "x") plain-IsCanonical

parse_candidate-IsValid_example : IsValid sample plain
parse_candidate-IsValid_example =
    parse_candidate-IsValid sample (snapshot_without_validation plain) (str "x") plain
      (parse_candidate-snapshot sample plain (str "x") plain-IsCanonical)

-- The endpoint form of `plain`.
abbrev legacy : Fields
legacy =
    field (str "endpoint") (text (str "AB:80")) (field (str "protocol") (text (str "HTTP")) end)

abbrev loads : Text → Option Value
loads s = if s == str "{}" then some (obj legacy) else none

abbrev inventory : JsonlInventory
inventory = record { name = str "s"; path = str "p" }

reads_inventory :
    collect_inventory sample loads inventory (ok (str "# note\n{}\njunk")) ≡ ok (plain ∷ [])
unfolding collect_inventory collect_lines split_lines parse_line str text_beq strip startswith
    yield_candidate parse_item parse_candidate read_location text_or to_str value_or get
    split_endpoint count_char is_value_error is_digit is_space lstrip parse_int read_signed rstrip
    ends_with_char lower rstrip_chars split_all split_last lookup truthy allowed_protocols
    behind_bracket check_host check_hostname check_port complete endpoint_parts is_label is_no_port
    is_refused is_text_map normalise_host read_metadata read_reference text_map with_port sample
reads_inventory = refl

collect_inventory-IsValid_example : All (IsValid sample) (plain ∷ [])
collect_inventory-IsValid_example =
    collect_inventory-IsValid sample loads inventory (ok (str "# note\n{}\njunk")) (plain ∷ [])
      reads_inventory

abbrev feed : HttpJsonFeed
feed = record { name = str "s"; url = str "https://x"; token_file = none }

abbrev payload : Text → Option Value
payload s = some (arr (of_items (null ∷ obj legacy ∷ [])))

abbrev exchange : Option Text → Result FeedResponse
exchange header = ok (record { content_length = pos 0; body = [] })

reads_feed : collect_feed sample payload feed (err os_error) exchange ≡ ok (plain ∷ [])
unfolding collect_feed fetch authorization read_feed collect_items str text_beq strip startswith
    yield_candidate parse_item parse_candidate read_location text_or to_str value_or get
    split_endpoint count_char is_value_error is_digit is_space lstrip parse_int read_signed rstrip
    ends_with_char lower rstrip_chars split_all split_last lookup truthy allowed_protocols
    behind_bracket check_host check_hostname check_port complete endpoint_parts is_label is_no_port
    is_refused is_text_map normalise_host read_metadata read_reference text_map with_port sample
reads_feed = refl

handled : AreHandled (map (parse_item sample (str "s")) (null ∷ obj legacy ∷ []))
unfolding AreHandled parse_item str text_beq strip startswith yield_candidate parse_candidate
    read_location text_or to_str value_or get split_endpoint count_char is_value_error is_digit
    is_space lstrip parse_int read_signed rstrip ends_with_char lower rstrip_chars split_all
    split_last lookup truthy allowed_protocols behind_bracket check_host check_hostname check_port
    complete endpoint_parts is_label is_no_port is_refused is_text_map normalise_host read_metadata
    read_reference text_map with_port sample
handled = (refl, tt)

-- A connector is its configuration.
abbrev as_is : Factory Fields
as_is config = ok config

registers : register {C = Fields} [] (str "k") as_is ≡ ok ((str "k", as_is) ∷ [])
unfolding register text_beq str types
registers = refl

abbrev entry : Fields
entry = field (str "type") (text (str "k")) (field (str "name") (text (str "n")) end)

abbrev configuration : Fields
configuration =
    field (str "allowed_connector_types") (arr (of_items (text (str "k") ∷ [])))
      (field (str "active_connectors") (arr (of_items (obj entry ∷ []))) end)

loads_entry :
    load_connectors sample (ok (obj configuration)) ((str "k", as_is) ∷ []) ≡ ok (entry ∷ [])
unfolding load_connectors get text_beq str all_texts types load_active is_rejected kind_of text_or
    to_str value_or name_of create factory_of
loads_entry = refl

load_connectors-AreLoaded_example :
    (config : Fields) × (kinds : List Value) × (allowed : List Text) × (active : List Value)
    × (as_list (get config (str "allowed_connector_types")) ≡ some kinds)
    × (all_texts kinds ≡ some allowed)
    × (as_list (get config (str "active_connectors")) ≡ some active)
    × (all (contains (types {C = Fields} ((str "k", as_is) ∷ []))) allowed ≡ true)
    × AreLoaded sample ((str "k", as_is) ∷ []) allowed [] active (entry ∷ [])
load_connectors-AreLoaded_example =
    load_connectors-AreLoaded sample (ok (obj configuration)) ((str "k", as_is) ∷ []) (entry ∷ [])
      loads_entry

abbrev twice : List (Result (List ProxyCandidate))
twice = ok (plain ∷ []) ∷ err os_error ∷ ok (record plain { source = str "t" } ∷ []) ∷ []

find-collect_all_example :
    find (key_of plain) (collect_all twice)
    ≡ last_with (key_of plain) (collected_candidates twice) none
find-collect_all_example = find-collect_all (key_of plain) twice

collect_all-AreUnique_example : AreUnique (collect_all twice)
collect_all-AreUnique_example = collect_all-AreUnique twice

read_candidates-raw_snapshot_example :
    (vs : List Value) × (as_list (get (raw_snapshot (pos 7) (plain ∷ [])) (str "entries"))
      ≡ some vs)
    × (read_candidates sample vs ≡ ok (plain ∷ []))
read_candidates-raw_snapshot_example =
    read_candidates-raw_snapshot sample (pos 7) (plain ∷ []) (plain-IsCanonical, tt)
