-- ===== src/Storage.antt =====
-- validator/storage.py: snapshots in Redis. A command fails or not as its fate says.
pub mod Atomic
use transparent_gateway.Prelude.{
  ℕ, ◌≡◌, refl, Bool, true, false, not, Option, none, some, List, [], ◌∷◌, ◌++◌, Text, str, ◌==◌,
  text_eq, if◌then◌else◌,
}
use transparent_gateway.Python.{
  Exception, value_error, json_error, runtime_error, Result, ok, err, Value, Fields, obj, get,
  as_dict, as_list,
}

-- The keys and their texts, and the fates of the commands to come; a command without one succeeds.
pub record Redis : Type 0 where
  pub content : List (Text × Text)
  pub fates : List (Result (Unit {0}))

-- A step that uses Redis.
abbrev pub Action : Type 0 → Type 0
Action A = Redis → Result A × Redis

module _ {A B : Type 0} where
  abbrev pub after : Result A → (A → Action B) → Redis → Result B × Redis
  after (ok a) next redis = next a redis
  after (err e) next redis = (err e, redis)

  infixl 5 ◌>>=◌ ◌>>◌
  abbrev pub ◌>>=◌ : Action A → (A → Action B) → Action B
  (m >>= next) redis = let (r, redis') = m redis in after r next redis'

  abbrev pub ◌>>◌ : Action A → Action B → Action B
  m >> n = m >>= λ _. n

abbrev pub give : {A : Type 0} → Result A → Action A
give r redis = (r, redis)

unfoldable pub value_of : List (Text × Text) → Text → Option Text
value_of [] key = none
value_of ((k, v) ∷ kvs) key = if k == key then some v else value_of kvs key

unfoldable pub without : List (Text × Text) → Text → List (Text × Text)
without [] key = []
without ((k, v) ∷ kvs) key = let rest = without kvs key in if k == key then rest else (k, v) ∷ rest

-- `SET key value`
unfoldable pub set_value : Text → Text → List (Text × Text) → List (Text × Text)
unfolding without
set_value key value kvs = (key, value) ∷ without kvs key

-- A text that was found is stored under another key.
unfoldable pub moved : Text → List (Text × Text) → Option Text → Option (List (Text × Text))
moved other kvs none = none
moved other kvs (some v) = some (set_value other v kvs)

-- `RENAME key other`, which replaces the other; a key that is missing is an error.
unfoldable pub renamed : Text → Text → List (Text × Text) → Option (List (Text × Text))
unfolding moved
renamed key other kvs = moved other (without kvs key) (value_of kvs key)

unfoldable pub next_fate : List (Result (Unit {0})) → Result (Unit {0})
next_fate [] = ok tt
next_fate (r ∷ _) = r

unfoldable pub later_fates : List (Result (Unit {0})) → List (Result (Unit {0}))
later_fates [] = []
later_fates (_ ∷ rs) = rs

-- A command by its fate.
unfoldable pub obey :
    {A : Type 0}
    → Result (Unit {0})
    → List (Result (Unit {0}))
    → List (Text × Text)
    → Result A × List (Text × Text)
    → Result A × Redis
obey (err e) fates kvs done = (err e, record { content = kvs; fates = fates })
obey (ok _) fates kvs done = (done.0, record { content = done.1; fates = fates })

-- A command that succeeds with a result and a new content, unless its fate is an exception.
unfoldable pub command :
    {A : Type 0} → (List (Text × Text) → Result A × List (Text × Text)) → Action A
unfolding next_fate later_fates obey
command run redis =
    obey (next_fate redis.fates) (later_fates redis.fates) redis.content (run redis.content)

abbrev pub get_key : Text → Action (Option Text)
get_key key = command (λ kvs. (ok (value_of kvs key), kvs))

unfoldable pub set_key : Text → Text → Action (Unit {0})
set_key key value = command (λ kvs. (ok tt, set_value key value kvs))

-- The error is redis's ResponseError.
abbrev pub of_renamed :
    List (Text × Text) → Option (List (Text × Text)) → Result (Unit {0}) × List (Text × Text)
of_renamed kvs none = (err runtime_error, kvs)
of_renamed kvs (some new) = (ok tt, new)

unfoldable pub rename_key : Text → Text → Action (Unit {0})
rename_key key other = command (λ kvs. of_renamed kvs (renamed key other kvs))

-- `RAW_KEY`, `VALIDATED_KEY`, `RESERVE_KEY`, `ACTIVE_KEY` and `GATEWAY_ACTIVE_KEY`
pub raw_key : Text
raw_key = str "proxy_pool:raw:v1"

unfoldable pub validated_key : Text
validated_key = str "proxy_pool:validated:v1"

unfoldable pub reserve_key : Text
reserve_key = str "proxy_pool:reserve:v1"

unfoldable pub active_key : Text
active_key = str "proxy_pool:active:v1"

unfoldable pub gateway_active_key : Text
gateway_active_key = str "transparent-gateway:validated:v1"

module _ (loads : Text → Option Value) where
  -- A text that was read, as a snapshot.
  unfoldable pub decode_snapshot : Option Text → Result (Option Fields)
  decode_snapshot none = ok none
  decode_snapshot (some []) = ok none
  decode_snapshot (some (c ∷ s)) = elim (loads (c ∷ s)) [
    | none ↦ err json_error
    | some v ↦ elim (as_dict v) [
      | none ↦ err value_error
      | some d ↦ elim (as_list (get d (str "entries"))) [
        | none ↦ err value_error
        | some _ ↦ ok (some d)
      ]
    ]
  ]

  -- `read_snapshot`
  unfoldable pub read_snapshot : Text → Action (Option Fields)
  read_snapshot key = do raw ← get_key key; give (decode_snapshot raw)

-- `f"{key}:tmp:{uuid}"`
unfoldable pub temporary_key : Text → Text → Text
temporary_key key uuid = key ++ str ":tmp:" ++ uuid

module _ (dumps : Value → Text) where
  -- `publish_snapshot`
  unfoldable pub publish_snapshot : Text → Text → Fields → Action (Unit {0})
  publish_snapshot uuid key snapshot = do
    set_key (temporary_key key uuid) (dumps (obj snapshot))
    rename_key (temporary_key key uuid) key

  -- `publish_active_snapshot`
  unfoldable pub publish_active_snapshot : Text → Text → Fields → Action (Unit {0})
  publish_active_snapshot uuid gateway_uuid snapshot = do
    publish_snapshot uuid active_key snapshot
    publish_snapshot gateway_uuid gateway_active_key snapshot
