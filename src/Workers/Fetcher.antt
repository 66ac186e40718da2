-- ===== src/Workers/Fetcher.antt =====
-- validator/fetcher.py with the registry of validator/sources/__init__.py, and how
-- validator/validator.py reads what the fetcher publishes. Files and exchanges are arguments.
pub mod Handover
use transparent_gateway.Prelude.{
  ℕ, ◌≡◌, refl, Bool, true, false, Option, none, some, List, [], ◌∷◌, map, Text, str, length,
  if◌then◌else◌,
}
use transparent_gateway.Prelude.Int.{ℤ}
use transparent_gateway.Python.{
  os_error, is_value_error, Result, ok, err, Value, Fields, int, obj, arr, of_items, end, field,
  as_dict, Runtime,
}
use transparent_gateway.Python as Py
use transparent_gateway.Sources.Candidate.{
  ProxyCandidate, snapshot_without_validation, parse_candidate,
}
use transparent_gateway.Sources.Connectors.{
  JsonlInventory, HttpJsonFeed, FeedResponse, Url, yield_candidate, inventory_from_config,
  collect_inventory, feed_from_config, collect_feed,
}
use transparent_gateway.Sources.Registry.{Registry, register, load_connectors, collect_all}
use transparent_gateway.Storage.{Redis, Action, ◌>>=◌, ◌>>◌, give, raw_key, publish_snapshot}

-- The connectors of the two registered types.
pub data Connector : Type 0 where
  inventory : JsonlInventory → Connector
  feed : HttpJsonFeed → Connector

-- `snapshot` of the fetcher's cycle
unfoldable pub raw_snapshot : ℤ → List ProxyCandidate → Fields
raw_snapshot now candidates = field (str "generated_at") (int now) (
    field (str "entries")
      (arr (of_items (map (λ c. obj (snapshot_without_validation c)) candidates))) end)

module _ (R : Runtime) (urlsplit : Text → Result Url) where
  -- `CONNECTOR_REGISTRY`
  unfoldable pub connector_registry : Result (Registry Connector)
  connector_registry =
      Py.◌>>=◌
        (register [] (str "jsonl_inventory")
          (λ config. Py.◌>>=◌ (inventory_from_config R config) λ c. ok (inventory c)))
        λ registry.
          register registry (str "http_json_feed")
            (λ config. Py.◌>>=◌ (feed_from_config R urlsplit config) λ c. ok (feed c))

module _ (R : Runtime) (urlsplit : Text → Result Url) (loads : Text → Option Value)
    (read_text : Text → Result Text) (exchange : Text → Option Text → Result FeedResponse) where
  token_text : Option Text → Result Text
  token_text none = err os_error
  token_text (some path) = read_text path

  -- `connector.collect()`
  unfoldable pub collect : Connector → Result (List ProxyCandidate)
  unfolding token_text
  collect (inventory c) = collect_inventory R loads c (read_text c.path)
  collect (feed f) = collect_feed R loads f (token_text f.token_file) (exchange f.url)

  -- The candidates of a configuration.
  unfoldable pub collect_configured : Result Value → Result (List ProxyCandidate)
  collect_configured file = Py.◌>>=◌ (connector_registry R urlsplit) λ registry.
      Py.◌>>=◌ (load_connectors R file registry)
        λ connectors. ok (collect_all (map collect connectors))

  -- `cycle`
  unfoldable pub cycle :
      (dumps : Value → Text) (now : ℤ) (uuid : Text) (file : Result Value) → Action ℕ
  cycle dumps now uuid file = do
    candidates ← give (collect_configured file)
    publish_snapshot dumps uuid raw_key (raw_snapshot now candidates)
    give (ok (length candidates))

module _ (R : Runtime) where
  -- The loop of the validator's cycle over the raw entries: what is no dict is passed over, and so
  -- is what raises a ValueError.
  unfoldable pub read_candidates : List Value → Result (List ProxyCandidate)
  read_candidates [] = ok []
  read_candidates (v ∷ vs) =
      let rest = read_candidates vs in
      elim (as_dict v) [
        | none ↦ rest
        | some d ↦ yield_candidate (parse_candidate R d (str "fetcher")) rest
      ]
