-- ===== src/Tests/Checking.antt =====
-- Runtime files that `check` accepts, and an .env that is written and read again.
use transparent_gateway.Prelude.{
  ◌≡◌, refl, true, some, List, [], ◌∷◌, ◌++◌, Text, str, ◌==◌, text_eq, text_beq, if◌then◌else◌,
}
use transparent_gateway.Prelude.Int.{pos}
use transparent_gateway.Python.{
  ok, Value, text, int, arr, nil, cons, obj, field, end, lookup, get, has_key, method_get, truthy,
  startswith, split_first, parse_int, read_signed, read_digits, strip, lstrip, rstrip, is_space,
  is_digit, value_eq, values_eq, fields_within, size,
}
use transparent_gateway.Host.{Machine}
use transparent_gateway.Tool.Env.{
  Env, Item, comment, value, fine, parse_env, render_env, value_of, is_comment, is_key, is_upper,
  is_special, ◌>>=◌, read_template, parse_lines, parse_setting, parse_pair, is_set, set_value,
}
use transparent_gateway.Tool.Env.RoundTrip.{IsWritable, selected, parse_env-render_env}
use transparent_gateway.Tool.Settings.{
  Loaded, load_settings, validate_permissions, check_files, check_file, check_stat, runtime_files,
  check_values, required_names, required_value, check_client, validate_echo_url, check_sizes,
  int_or_refuse, check_credentials, check_secrets, check_connectors, active_of, check_connector,
  check_lines, read_json, check_candidate, is_in, has_part, is_member, is_port, protocols,
}
use transparent_gateway.Tool.Settings.Sound.{IsSound, load_settings-IsSound}
use transparent_gateway.Sources.Connectors.{split_lines, split_lines_from, is_break}
use transparent_gateway.Tests.Machines.{host}
use transparent_gateway.Tests.Sample.{sample_parsers}

abbrev pub lf : Text
lf = 10 ∷ []

abbrev pub env_text : Text
env_text =
    str "# sizes"
    ++ lf
    ++ str "CLIENT_CIDR=10.0.0.0/8"
    ++ lf
    ++ str "VALIDATOR_REDIS_URL=redis://redis:6379/0"
    ++ lf
    ++ str "GATEWAY_REDIS_URL=redis://127.0.0.1:6379/0"
    ++ lf
    ++ str "POOL_SIZE=1"
    ++ lf
    ++ str "RESERVE_SIZE=10"
    ++ lf
    ++ str "ANONYMITY_CHECK_URL=https://echo.example/"
    ++ lf
    ++ str "DNS_DEFAULT_RESOLVER_IPS=1.1.1.1"
    ++ lf
    ++ str "DNS_DOH_IP=1.1.1.1"
    ++ lf
    ++ str "DNS_DOH_SERVER_NAME=x"
    ++ lf

abbrev pub candidate_value : Value
candidate_value = obj (
    field (str "host") (text (str "proxy.example"))
      (field (str "port") (int (pos 3128)) (field (str "protocol") (text (str "http")) end)))

abbrev pub connectors_value : Value
connectors_value = obj (
    field (str "allowed_connector_types") (arr (cons (text (str "jsonl_inventory")) nil)) (
      field (str "active_connectors")
        (arr (
          cons
            (obj (
              field (str "type") (text (str "jsonl_inventory"))
                (field (str "path") (text (str "/inventory/upstreams.jsonl")) end)))
            nil))
        end))

abbrev pub configured : Machine
configured = record host {
  exists = λ _ _. true;
  read_text = λ _ path.
      if path == str "/g/.env"
      then ok env_text
      else if path == str "/g/inventory/connectors.json"
      then ok (str "connectors")
      else if path == str "/g/inventory/upstreams.jsonl"
      then ok (str "candidate" ++ lf)
      else ok (str "secrets");
  lstat = λ _ path. ok (0, 65532, (if path == str "/g/.env" then 0x8180 else 0x81A0));
  loads = λ s.
      if s == str "connectors"
      then some connectors_value
      else if s == str "candidate"
      then some candidate_value
      else some (obj end);
}

abbrev pub env_values : Env
env_values =
    (str "CLIENT_CIDR", str "10.0.0.0/8")
    ∷ (str "VALIDATOR_REDIS_URL", str "redis://redis:6379/0")
    ∷ (str "GATEWAY_REDIS_URL", str "redis://127.0.0.1:6379/0")
    ∷ (str "POOL_SIZE", str "1")
    ∷ (str "RESERVE_SIZE", str "10")
    ∷ (str "ANONYMITY_CHECK_URL", str "https://echo.example/")
    ∷ (str "DNS_DEFAULT_RESOLVER_IPS", str "1.1.1.1")
    ∷ (str "DNS_DOH_IP", str "1.1.1.1")
    ∷ (str "DNS_DOH_SERVER_NAME", str "x")
    ∷ []

abbrev pub configured_loaded : Loaded
configured_loaded = record {
  values = env_values;
  candidates = candidate_value ∷ [];
  credentials = end;
}

loads_configured : load_settings configured sample_parsers (str "/g") [] ≡ fine configured_loaded
unfolding ◌>>=◌ read_template parse_env parse_lines parse_setting parse_pair is_comment is_key
    is_upper is_special is_set value_of set_value load_settings validate_permissions check_files
    check_file check_stat runtime_files check_values required_names required_value check_client
    validate_echo_url check_sizes int_or_refuse check_credentials check_secrets check_connectors
    active_of check_connector check_lines read_json check_candidate is_in has_part is_member is_port
    protocols lookup get has_key method_get truthy startswith split_first parse_int read_signed
    read_digits strip lstrip rstrip is_space is_digit value_eq values_eq fields_within size
    split_lines split_lines_from is_break str text_beq
loads_configured = refl

load_settings-IsSound_example : IsSound configured_loaded
load_settings-IsSound_example =
    load_settings-IsSound configured sample_parsers (str "/g") [] configured_loaded loads_configured

abbrev pub two_values : Env
two_values = (str "A", str "1") ∷ (str "B", str "x=y") ∷ []

abbrev pub two_items : List Item
two_items = comment 0 ∷ value (str "B") ∷ value (str "A") ∷ []

abbrev pub one_comment : List Text
one_comment = str "# note" ∷ []

two_items-IsWritable : IsWritable two_values one_comment two_items
unfolding value_of is_comment is_key is_special str text_beq startswith is_break
two_items-IsWritable = (
  (str "# note", refl, refl, refl),
  ((str "x=y", refl, refl, refl, refl, refl), ((str "1", refl, refl, refl, refl, refl), tt)),
)

parse_env-render_env_example :
    (content : Text) × (render_env two_values two_items one_comment ≡ ok content)
    × (parse_env content ≡ fine (selected two_values one_comment two_items))
parse_env-render_env_example =
    parse_env-render_env two_values two_items one_comment two_items-IsWritable
