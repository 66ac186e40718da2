-- ===== src/Sources/Registry.antt =====
-- validator/sources/registry.py: the registry of connector types, the loader of the configuration
-- and the merge of what the connectors collect.
pub mod Loaded
pub mod Merged
use transparent_gateway.Prelude.{
  ℕ, ◌≡◌, refl, Bool, true, false, not, ◌&&◌, ◌||◌, Option, none, some, List, [], ◌∷◌, ◌++◌, map,
  Text, str, ◌==◌, nat_eq, text_eq, contains, all, if◌then◌else◌,
}
use transparent_gateway.Python.{
  value_error, attribute_error, Result, ok, err, ◌>>=◌, ◌>>◌, raise_if, or_raise, Value, Fields,
  get, as_dict, as_list, as_text, Runtime,
}
use transparent_gateway.Sources.Candidate.{ProxyCandidate, text_or}

-- `ConnectorFactory` for a type of connectors
abbrev pub Factory {ℓ} : Type ℓ → Type ℓ
Factory C = Fields → Result C

-- `ConnectorRegistry`: the factories by their kind, the oldest first.
abbrev pub Registry {ℓ} : Type ℓ → Type ℓ
Registry C = List (Text × Factory C)

module _ {ℓ} {C : Type ℓ} where
  -- `ConnectorRegistry.types`
  unfoldable pub types : Registry C → List Text
  types [] = []
  types ((kind, _) ∷ r) = kind ∷ types r

  unfoldable pub factory_of : Registry C → Text → Option (Factory C)
  factory_of [] kind = none
  factory_of ((k, f) ∷ r) kind = if k == kind then some f else factory_of r kind

  -- `ConnectorRegistry.register`
  unfoldable pub register : Registry C → Text → Factory C → Result (Registry C)
  register registry kind factory =
      if kind == [] || contains (types registry) kind
      then err value_error
      else ok (registry ++ (kind, factory) ∷ [])

  -- `ConnectorRegistry.create`
  unfoldable pub create : Registry C → Text → Fields → Result C
  create registry kind config =
      or_raise (factory_of registry kind) value_error >>= λ factory. factory config

-- The texts of a list, if it holds nothing else.
unfoldable pub all_texts : List Value → Option (List Text)
all_texts [] = some []
all_texts (v ∷ vs) = elim (as_text v) [
  | none ↦ none
  | some s ↦ elim (all_texts vs) [ none ↦ none | some ss ↦ some (s ∷ ss) ]
]

module _ (R : Runtime) where
  -- `str(item.get("type") or "")` and `str(item.get("name") or "")`
  unfoldable pub kind_of : Fields → Text
  kind_of item = text_or R item (str "type") []

  unfoldable pub name_of : Fields → Text
  name_of item = text_or R item (str "name") []

  -- `kind not in allowed_types`, `not name or name in names`
  unfoldable pub is_rejected : List Text → List Text → Fields → Bool
  is_rejected allowed names item =
      not (contains allowed (kind_of item)) || name_of item == [] || contains names (name_of item)

  module _ {ℓ} {C : Type ℓ} where
    -- The loop over the active connectors, with the names that are taken.
    unfoldable pub load_active : Registry C → List Text → List Text → List Value → Result (List C)
    load_active registry allowed names [] = ok []
    load_active registry allowed names (v ∷ vs) = do
      item ← or_raise (as_dict v) value_error
      raise_if (is_rejected allowed names item) value_error
      connector ← create registry (kind_of item) item
      others ← load_active registry allowed (name_of item ∷ names) vs
      ok (connector ∷ others)

    -- `load_connectors`, of what reading and decoding the file gives
    unfoldable pub load_connectors : Result Value → Registry C → Result (List C)
    load_connectors file registry = do
      value ← file
      config ← or_raise (as_dict value) value_error
      kinds ← or_raise (as_list (get config (str "allowed_connector_types"))) value_error
      allowed ← or_raise (all_texts kinds) value_error
      active ← or_raise (as_list (get config (str "active_connectors"))) value_error
      raise_if (not (all (contains (types registry)) allowed)) value_error
      load_active registry allowed [] active

-- The key of a candidate in `unique`.
abbrev pub Key : Type 0
Key = Text × Text × ℕ × Option Text

unfoldable pub key_of : ProxyCandidate → Key
key_of c = (c.protocol, c.host, c.port, c.credential_ref)

unfoldable pub same_reference : Option Text → Option Text → Bool
same_reference none none = true
same_reference (some r) (some s) = r == s
same_reference _ _ = false

unfoldable pub same_key : Key → Key → Bool
unfolding same_reference
same_key (p, h, n, r) (q, i, m, s) = p == q && h == i && n == m && same_reference r s

-- `unique[key] = candidate`: a key that is there keeps its place.
unfoldable pub upsert : ProxyCandidate → List ProxyCandidate → List ProxyCandidate
unfolding same_key key_of
upsert c [] = c ∷ []
upsert c (d ∷ ds) = if same_key (key_of c) (key_of d) then c ∷ ds else d ∷ upsert c ds

unfoldable pub upsert_all : List ProxyCandidate → List ProxyCandidate → List ProxyCandidate
upsert_all [] unique = unique
upsert_all (c ∷ cs) unique = upsert_all cs (upsert c unique)

-- `collect_all`, of what each connector gives
unfoldable pub merge :
    List (Result (List ProxyCandidate)) → List ProxyCandidate → List ProxyCandidate
merge [] unique = unique
merge (err e ∷ rs) unique = merge rs unique
merge (ok cs ∷ rs) unique = merge rs (upsert_all cs unique)

unfoldable pub collect_all : List (Result (List ProxyCandidate)) → List ProxyCandidate
collect_all collected = merge collected []
