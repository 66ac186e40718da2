-- ===== src/Workers/Ranker.antt =====
-- validator/ranker.py: one cycle of the ranker. The environment and the clock are arguments.
pub mod Published
use transparent_gateway.Prelude.{
  ℕ, ◌≡◌, refl, Bool, true, false, Option, none, some, List, [], ◌∷◌, ◌++◌, map, Text, str, length,
  if◌then◌else◌,
}
use transparent_gateway.Prelude.Int.{ℤ, pos, pos_part, leb_ℤ, ltb_ℤ}
use transparent_gateway.Python.{
  value_error, type_error, Result, ok, err, raise_if, or_raise, Float, Value, Fields, int, float,
  obj, arr, of_items, end, field, get, as_list, Runtime, parse_int,
}
use transparent_gateway.Python as Py
use transparent_gateway.Ranking.{rank_entries, select_active_entries}
use transparent_gateway.Relay.Pool.{dicts}
use transparent_gateway.Storage.{
  Redis, Action, ◌>>=◌, ◌>>◌, give, validated_key, reserve_key, read_snapshot, publish_snapshot,
  publish_active_snapshot,
}

-- `os.getenv(name, default)`
unfoldable pub env_or : (Text → Option Text) → Text → Text → Text
env_or getenv name default = elim (getenv name) [ none ↦ default | some v ↦ v ]

-- `positive_int`
unfoldable pub positive_int : (Text → Option Text) → Text → Text → Result ℤ
positive_int getenv name default =
    Py.◌>>=◌ (or_raise (parse_int (env_or getenv name default)) value_error)
      λ value. if ltb_ℤ value (pos 1) then err value_error else ok value

-- The settings of a cycle.
pub record Settings : Type 0 where
  pub reserve_size : ℤ
  pub pool_size : ℤ
  pub min_score : Float
  pub unknown_asn_penalty : Float
  pub max_unknown_asn_ratio : Float

-- What a cycle publishes: the ranked and the active entries.
pub record Pools : Type 0 where
  pub ranked : List Fields
  pub active : List Fields

-- The fields that both snapshots begin with, in front of others.
unfoldable pub snapshot_head : ℤ → Fields → List Fields → Fields → Fields
snapshot_head now validated entries rest = field (str "generated_at") (int now) (
    field (str "validator_cycle") (get validated (str "validator_cycle")) (
      field (str "source_generated_at") (get validated (str "generated_at")) (
        field (str "raw_source_generated_at") (get validated (str "source_generated_at"))
          (field (str "entries") (arr (of_items (map obj entries))) rest))))

unfoldable pub reserve_snapshot : ℤ → Fields → Settings → Pools → Fields
reserve_snapshot now validated s pools = snapshot_head now validated pools.ranked (
    field (str "min_score_threshold") (float s.min_score) (
      field (str "reserve_size") (int s.reserve_size)
        (field (str "unknown_asn_penalty") (float s.unknown_asn_penalty) end)))

unfoldable pub active_snapshot : ℤ → Fields → Settings → Pools → Fields
active_snapshot now validated s pools = snapshot_head now validated pools.active (
    field (str "min_score_threshold") (float s.min_score) (
      field (str "pool_size") (int s.pool_size)
        (field (str "max_unknown_asn_ratio") (float s.max_unknown_asn_ratio) end)))

-- `validated["entries"]`, the ones that are dicts; `read_snapshot` has seen that it is a list.
unfoldable pub entries_of : Fields → Result (List Fields)
entries_of validated =
    Py.◌>>=◌ (or_raise (as_list (get validated (str "entries"))) type_error) λ vs. ok (dicts vs)

module _ (R : Runtime) (getenv : Text → Option Text) where
  -- `float(os.getenv(name, default))`
  unfoldable pub env_float : Text → Text → Result Float
  env_float name default = or_raise (R.parse_float (env_or getenv name default)) value_error

  -- The settings, read and checked.
  unfoldable pub read_settings : Result Settings
  read_settings = Py.◌>>=◌ (positive_int getenv (str "RESERVE_SIZE") (str "700")) λ reserve_size.
      Py.◌>>=◌ (positive_int getenv (str "POOL_SIZE") (str "150")) λ pool_size.
        Py.◌>>=◌ (raise_if (ltb_ℤ reserve_size pool_size) value_error) λ _.
          Py.◌>>=◌ (env_float (str "MIN_SCORE_THRESHOLD") (str "0")) λ min_score.
            Py.◌>>=◌ (env_float (str "UNKNOWN_ASN_PENALTY") (str "2")) λ penalty.
              Py.◌>>=◌ (env_float (str "MAX_UNKNOWN_ASN_RATIO") (str "0.1")) λ ratio. ok (record {
                reserve_size = reserve_size;
                pool_size = pool_size;
                min_score = min_score;
                unknown_asn_penalty = penalty;
                max_unknown_asn_ratio = ratio;
              })

  -- The pools that are made of a validated snapshot.
  unfoldable pub make_pools : Settings → Fields → Result Pools
  make_pools s validated = Py.◌>>=◌ (entries_of validated) λ entries.
      Py.◌>>=◌ (rank_entries R entries s.reserve_size s.min_score s.unknown_asn_penalty) λ ranked.
        Py.◌>>=◌ (select_active_entries R ranked s.pool_size s.max_unknown_asn_ratio)
          λ active. ok (record { ranked = ranked; active = active })

  module _ (loads : Text → Option Value) (dumps : Value → Text) (now : ℤ)
      (reserve_uuid active_uuid gateway_uuid : Text) where
    -- The writes of a cycle, and its result.
    unfoldable pub publish_pools : Settings → Fields → Pools → Action (Option (ℕ × ℕ))
    publish_pools s validated pools = do
      publish_snapshot dumps reserve_uuid reserve_key (reserve_snapshot now validated s pools)
      publish_active_snapshot dumps active_uuid gateway_uuid (active_snapshot now validated s pools)
      give (ok (some (length pools.ranked, length pools.active)))

    -- The part of `cycle` behind the reading of the validated snapshot.
    unfoldable pub rank_snapshot : Option Fields → Action (Option (ℕ × ℕ))
    rank_snapshot none = give (ok none)
    rank_snapshot (some validated) = do
      s ← give read_settings
      pools ← give (make_pools s validated)
      publish_pools s validated pools

    -- `cycle`
    unfoldable pub cycle : Action (Option (ℕ × ℕ))
    cycle = do validated ← read_snapshot loads validated_key; rank_snapshot validated
