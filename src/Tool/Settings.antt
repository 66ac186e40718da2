-- ===== src/Tool/Settings.antt =====
-- `validate_echo_url`, `validate_permissions` and `load_and_validate` of scripts/tgctl.py.
pub mod Sound
use transparent_gateway.Prelude.{
  ℕ, zero, suc, ◌+◌, ◌/◌, ◌%◌, ◌≡◌, Bool, true, false, not, ◌&&◌, ◌||◌, Option, none, some, List,
  [], ◌∷◌, ◌++◌, Text, str, ◌==◌, nat_eq, text_eq, ltb, leb, nat_beq, all, any, contains, length,
  if◌then◌else◌,
}
use transparent_gateway.Prelude.Int.{ℤ, pos, leb_ℤ, ltb_ℤ}
use transparent_gateway.Python.{
  Result, ok, err, Exception, key_error, index_error, type_error, attribute_error, json_error,
  value_error, is_value_error, Value, null, bool, int, float, text, arr, obj, items, Fields, end,
  field, of_items, truthy, get, has_key, method_get, elements, subscript, value_eq, parse_int,
  startswith, or_raise, as_list,
}
use transparent_gateway.Python as Py
use transparent_gateway.Host.{
  Machine, World, Task, Event, Failure, exception, fault, user_error, refused, Outcome, done,
  failed, lift, look_at, look, fail_if, pure, run_command,
}
use transparent_gateway.Host as Host
use transparent_gateway.Sources.Connectors.{Url, split_lines}
use transparent_gateway.Tool.Env.{
  Checked, fine, bad, ◌>>=◌, ◌>>◌, refuse_if, refuse, of, Env, value_of, is_set, is_comment,
  parse_env,
}

-- `urlsplit` with its scheme, and `ipaddress.IPv4Network(s, strict=True)`: its text and its prefix
-- length; `none` is its ValueError.
pub record Parsers : Type 0 where
  pub urlsplit : Text → Result (Text × Url)
  pub ipv4_network : Text → Option (Text × ℕ)

unfoldable pub protocols : List Text
protocols = str "http" ∷ str "https" ∷ str "socks4" ∷ str "socks5" ∷ []

-- `RUNTIME_FILES`: names and modes
unfoldable pub runtime_files : List (Text × ℕ)
runtime_files =
    (str ".env", 0x180)
    ∷ (str "inventory/connectors.json", 0x1A0)
    ∷ (str "inventory/upstreams.jsonl", 0x1A0)
    ∷ (str "secrets/proxy-credentials.json", 0x1A0)
    ∷ []

-- A failed test that the code turns into `UserError`.
abbrev pub refuse_value_error : {A : Type 0} → Result A → Checked A
refuse_value_error (ok a) = fine a
refuse_value_error (err e) = if is_value_error e then refuse else bad (fault (exception e))

-- A text, or `UserError` instead of the ValueError of `int(…)`.
unfoldable pub int_or_refuse : Text → Checked ℤ
int_or_refuse s = refuse_value_error (or_raise (parse_int s) value_error)

-- `part in s`
unfoldable pub has_part : Text → Text → Bool
has_part part [] = part == []
has_part part (c ∷ s) = startswith (c ∷ s) part || has_part part s

-- `part in v`
unfoldable pub is_in : Text → Value → Result Bool
is_in part (text s) = ok (has_part part s)
is_in part (obj d) = ok (has_key d part)
is_in part (arr vs) = ok (any (λ v. elim v [ text s ↦ s == part | _ ↦ false ]) (items vs))
is_in part _ = err type_error

-- `v in set_of_texts`, where a list and a dict raise
unfoldable pub is_member : Value → (Text → Bool) → Result Bool
is_member (text s) test = ok (test s)
is_member (arr _) test = err type_error
is_member (obj _) test = err type_error
is_member _ test = ok false

-- `isinstance(port, int) and 1 <= port <= 65535`; a `bool` is an `int`.
unfoldable pub is_port : Value → Bool
is_port (int n) = leb_ℤ (pos 1) n && leb_ℤ n (pos 65535)
is_port (bool b) = b
is_port _ = false

-- `values[name]`
unfoldable pub required_value : Env → Text → Checked Text
required_value values name = of (or_raise (value_of name values) key_error)

-- The names of `required`.
unfoldable pub required_names : List Text
required_names =
    str "CLIENT_CIDR"
    ∷ str "VALIDATOR_REDIS_URL"
    ∷ str "GATEWAY_REDIS_URL"
    ∷ str "POOL_SIZE"
    ∷ str "RESERVE_SIZE"
    ∷ str "ANONYMITY_CHECK_URL"
    ∷ str "DNS_DEFAULT_RESOLVER_IPS"
    ∷ str "DNS_DOH_IP"
    ∷ str "DNS_DOH_SERVER_NAME"
    ∷ []

-- The checks of a `lstat`: a regular file of root with these permissions, and its group.
unfoldable pub check_stat : ℕ → ℕ × ℕ × ℕ → Checked (Unit {0})
check_stat mode (uid, gid, found) = do
  refuse_if (not (found / 4096 % 16 == 8))
  refuse_if (not (uid == 0) || not (found % 4096 == mode))
  refuse_if (mode == 0x1A0 && not (gid == 65532))

-- An entry of the credential store.
unfoldable pub check_secret : Text → Value → Checked (Unit {0})
check_secret reference (obj secret) = elim (get secret (str "username")) [
  | text username ↦ elim (get secret (str "password")) [
    | text password ↦ do
      refuse_if (reference == [])
      refuse_if (username == str "replace-me" || password == str "replace-me")
    | _ ↦ refuse
  ]
  | _ ↦ refuse
]
check_secret reference _ = refuse

unfoldable pub check_secrets : Fields → Checked (Unit {0})
check_secrets end = fine tt
check_secrets (field reference secret rest) = do check_secret reference secret; check_secrets rest

-- The credential store: a dict of sound entries.
unfoldable pub check_credentials : Value → Checked Fields
check_credentials (obj credentials) = do check_secrets credentials; fine credentials
check_credentials _ = refuse

-- `POOL_SIZE` and `RESERVE_SIZE`
unfoldable pub check_sizes : Env → Checked (Unit {0})
check_sizes values = do
  pool_text ← required_value values (str "POOL_SIZE")
  pool ← int_or_refuse pool_text
  refuse_if (ltb_ℤ pool (pos 1))
  reserve_text ← required_value values (str "RESERVE_SIZE")
  reserve ← int_or_refuse reserve_text
  refuse_if (ltb_ℤ reserve pool)

module _ (parsers : Parsers) where
  -- `validate_echo_url`
  unfoldable pub validate_echo_url : Text → Checked (Unit {0})
  validate_echo_url value = do
    parsed ← of (parsers.urlsplit value)
    refuse_if (not (parsed.0 == str "http" || parsed.0 == str "https") || parsed.1.hostname == [])
    refuse_if (
        not (parsed.1.username == [])
        || not (parsed.1.password == [])
        || not (parsed.1.query == [])
        || not (parsed.1.fragment == []))

  -- The client's network, from `CLIENT_CIDR`.
  unfoldable pub check_client : Text → Checked (Unit {0})
  check_client cidr = elim (parsers.ipv4_network cidr) [
    | none ↦ refuse
    | some (_, prefix) ↦ refuse_if (prefix == 0)
  ]

  -- The part of `load_and_validate` on the values of .env.
  unfoldable pub check_values : Env → Checked (Unit {0})
  check_values values = do
    refuse_if (not (all (λ name. is_set name values) required_names))
    cidr ← required_value values (str "CLIENT_CIDR")
    check_client cidr
    url ← required_value values (str "ANONYMITY_CHECK_URL")
    validate_echo_url url
    validator ← required_value values (str "VALIDATOR_REDIS_URL")
    gateway ← required_value values (str "GATEWAY_REDIS_URL")
    refuse_if (
        not (validator == str "redis://redis:6379/0")
        || not (gateway == str "redis://127.0.0.1:6379/0"))
    check_sizes values

module _ (M : Machine) where
  same : Value → Value → Bool
  same = value_eq M.runtime.eq M.int_float_eq

  -- The one active connector.
  unfoldable pub check_connector : Value → Checked (Unit {0})
  unfolding same
  check_connector connector = do
    kind ← of (method_get connector (str "type"))
    path ← of (method_get connector (str "path"))
    refuse_if (
        not (same kind (text (str "jsonl_inventory")))
        || not (same path (text (str "/inventory/upstreams.jsonl"))))

  -- `connectors.get("active_connectors") if isinstance(connectors, dict) else None`
  unfoldable pub active_of : Value → Value
  active_of (obj d) = get d (str "active_connectors")
  active_of _ = null

  unfoldable pub check_connectors : Value → Checked (Unit {0})
  unfolding same
  check_connectors connectors = do
    allowed ← of (method_get connectors (str "allowed_connector_types"))
    refuse_if (not (same allowed (arr (of_items (text (str "jsonl_inventory") ∷ [])))))
    elim (as_list (active_of connectors)) [
      | some (connector ∷ []) ↦ check_connector connector
      | _ ↦ refuse
    ]

-- A candidate of the inventory, with the credential store.
unfoldable pub check_candidate : Fields → Value → Checked (Unit {0})
check_candidate credentials candidate = do
  legacy ← of (is_in (str "endpoint") candidate)
  refuse_if legacy
  host ← of (method_get candidate (str "host"))
  refuse_if (not (truthy host))
  example ← of (is_in (str ".internal.example") host)
  refuse_if example
  port ← of (method_get candidate (str "port"))
  refuse_if (not (is_port port))
  protocol ← of (method_get candidate (str "protocol"))
  allowed ← of (is_member protocol (contains protocols))
  refuse_if (not allowed)
  reference ← of (method_get candidate (str "credential_ref"))
  known ← of (if truthy reference then is_member reference (has_key credentials) else ok true)
  refuse_if (not known)

module _ (loads : Text → Option Value) where
  unfoldable pub read_json : Text → Checked Value
  read_json content = of (or_raise (loads content) json_error)

  -- The loop over the lines of the inventory.
  unfoldable pub check_lines : Fields → List Text → Checked (List Value)
  check_lines credentials [] = fine []
  check_lines credentials (line ∷ lines) =
      let rest = check_lines credentials lines in
      if is_comment line then rest else (do
        candidate ← read_json line
        check_candidate credentials candidate
        candidates ← rest
        fine (candidate ∷ candidates))

-- What `load_and_validate` returns.
pub record Loaded : Type 0 where
  pub values : Env
  pub candidates : List Value
  pub credentials : Fields

module _ (M : Machine) (parsers : Parsers) (root : Text) where
  abbrev pub read_file : List Event → Text → Checked Text
  read_file trace name = of (M.read_text trace (root ++ str "/" ++ name))

  -- `validate_permissions` of one file
  unfoldable pub check_file : List Event → Text × ℕ → Checked (Unit {0})
  check_file trace (name, mode) = do
    refuse_if (not (M.exists trace (root ++ str "/" ++ name)))
    info ← of (M.lstat trace (root ++ str "/" ++ name))
    check_stat mode info

  unfoldable pub check_files : List Event → List (Text × ℕ) → Checked (Unit {0})
  check_files trace [] = fine tt
  check_files trace (file ∷ files) = do check_file trace file; check_files trace files

  -- `validate_permissions`
  unfoldable pub validate_permissions : List Event → Checked (Unit {0})
  validate_permissions trace = check_files trace runtime_files

  -- `load_and_validate`, before its command
  unfoldable pub load_settings : List Event → Checked Loaded
  load_settings trace = do
    validate_permissions trace
    env ← read_file trace (str ".env")
    values ← parse_env env
    check_values parsers values
    store ← read_file trace (str "secrets/proxy-credentials.json")
    store_value ← read_json M.loads store
    credentials ← check_credentials store_value
    config ← read_file trace (str "inventory/connectors.json")
    connectors ← read_json M.loads config
    check_connectors M connectors
    inventory ← read_file trace (str "inventory/upstreams.jsonl")
    candidates ← check_lines M.loads credentials (split_lines inventory)
    refuse_if (elim candidates [ [] ↦ true | _ ∷ _ ↦ false ])
    fine (record { values = values; candidates = candidates; credentials = credentials })
