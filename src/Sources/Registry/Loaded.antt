-- ===== src/Sources/Registry/Loaded.antt =====
-- What the registry of validator/sources/registry.py creates and what its loader accepts.
use transparent_gateway.Prelude.{
  ◌≡◌, ◌≢◌, refl, ap, subst, true, false, not, ◌||◌, Option, none, some, List, [], ◌∷◌, ◌++◌, arith,
  Text, str, ◌==◌, text_eq, text_beq_iff, contains, all, Bool-cases, if-cases, inl, inr,
  if◌then◌else◌,
}
use transparent_gateway.Python.{
  value_error, Result, ok, >>=-eq-ok, ok_injective, raise_if, raise_if-eq-ok, or_raise, Value,
  Fields, get, as_dict, as_list, Runtime,
}
use transparent_gateway.Sources.Registry.{
  Factory, Registry, types, factory_of, register, create, all_texts, kind_of, name_of, is_rejected,
  load_active, load_connectors,
}

or_raise-eq-ok {ℓ} :
    {A : Type ℓ} (o : Option A) {a : A} → or_raise o value_error ≡ ok a → o ≡ some a
or_raise-eq-ok none h = cc
or_raise-eq-ok (some b) h = ap some (ok_injective h)

module _ {C : Type 0} where
  factory_of-append :
      (r : Registry C) (kind k : Text) (f : Factory C)
      → contains (types r) kind ≡ false
      → factory_of (r ++ (kind, f) ∷ []) k ≡ (if kind == k then some f else factory_of r k)
  unfolding factory_of types
  factory_of-append [] kind k f h = refl
  factory_of-append ((j, g) ∷ r) kind k f h = ground (
    arith,
    factory_of-append r kind k f (ground (arith, h)),
    h,
    text_beq_iff j k,
    text_beq_iff kind k,
    text_beq_iff j kind,
  )

  -- Once a kind is registered, `create` calls its factory for that kind, and does for every other
  -- kind what it did before.
  pub create-register :
      (registry extended : Registry C) (kind k : Text) (factory : Factory C) (config : Fields)
      → register registry kind factory ≡ ok extended
      → create extended k config ≡ (if kind == k then factory config else create registry k config)
  unfolding register create
  create-register registry extended kind k factory config h =
      elim (if-cases (kind == [] || contains (types registry) kind) h) [
        | inl (_, refused) ↦ cc
        | inr (free, same) ↦
            subst
              (λ r.
                create r k config
                ≡ (if kind == k then factory config else create registry k config))
              (ok_injective same)
              (rw (factory_of-append registry kind k factory (ground (arith, free)))
                (elim (Bool-cases (kind == k)) [ inl h ↦ rw h refl | inr h ↦ rw h refl ]))
      ]

  module _ (R : Runtime) (registry : Registry C) (allowed : List Text) where
    -- One connector for each entry: the entry is an object of an allowed type, its name is not empty
    -- and not one of the names before it, and the factory of its type made the connector of it.
    unfoldable pub AreLoaded : List Text → List Value → List C → Type 0
    AreLoaded names [] [] = Unit {0}
    AreLoaded names (v ∷ vs) (c ∷ cs) =
        (item : Fields) × (as_dict v ≡ some item)
        × (contains allowed (kind_of R item) ≡ true)
        × (name_of R item ≢ [])
        × (contains names (name_of R item) ≡ false)
        × (create registry (kind_of R item) item ≡ ok c)
        × AreLoaded (name_of R item ∷ names) vs cs
    AreLoaded names _ _ = ⊥

    accepted :
        (names : List Text) (item : Fields)
        → is_rejected R allowed names item ≡ false
        → (contains allowed (kind_of R item) ≡ true)
          × (name_of R item ≢ [])
          × (contains names (name_of R item) ≡ false)
    unfolding is_rejected
    accepted names item h = (
      ground (arith, h),
      (λ e. ground (arith, h, (text_beq_iff (name_of R item) []).1 e)),
      ground (arith, h),
    )

    load_active-AreLoaded :
        (names : List Text) (vs : List Value) (cs : List C)
        → load_active R registry allowed names vs ≡ ok cs
        → AreLoaded names vs cs
    unfolding load_active AreLoaded
    load_active-AreLoaded names [] cs h = subst (AreLoaded names []) (ok_injective h) tt
    load_active-AreLoaded names (v ∷ vs) cs h =
        let (item, dict, h₁) = >>=-eq-ok (or_raise (as_dict v) value_error) _ h in
        let (_, ok_item, h₂) =
          >>=-eq-ok (raise_if (is_rejected R allowed names item) value_error) _ h₁ in
        let (c, made, h₃) = >>=-eq-ok (create registry (kind_of R item) item) _ h₂ in
        let (others, loaded, h₄) =
          >>=-eq-ok (load_active R registry allowed (name_of R item ∷ names) vs) _ h₃ in
        let (is_allowed, named, new) = accepted names item (raise_if-eq-ok _ _ ok_item) in
        subst (AreLoaded names (v ∷ vs)) (ok_injective h₄) (
          item,
          or_raise-eq-ok (as_dict v) dict,
          is_allowed,
          named,
          new,
          made,
          load_active-AreLoaded (name_of R item ∷ names) vs others loaded,
        )

  -- A configuration that is loaded is an object that lists the allowed types, all of them
  -- registered, and the active connectors, from each of which one connector was made.
  pub load_connectors-AreLoaded :
      (R : Runtime) (file : Result Value) (registry : Registry C) (cs : List C)
      → load_connectors R file registry ≡ ok cs
      → (config : Fields) × (kinds : List Value) × (allowed : List Text) × (active : List Value)
        × (as_list (get config (str "allowed_connector_types")) ≡ some kinds)
        × (all_texts kinds ≡ some allowed)
        × (as_list (get config (str "active_connectors")) ≡ some active)
        × (all (contains (types registry)) allowed ≡ true)
        × AreLoaded R registry allowed [] active cs
  unfolding load_connectors
  load_connectors-AreLoaded R file registry cs h =
      let (value, _, h₁) = >>=-eq-ok file _ h in
      let (config, _, h₂) = >>=-eq-ok (or_raise (as_dict value) value_error) _ h₁ in
      let (kinds, a, h₃) =
        >>=-eq-ok (or_raise (as_list (get config (str "allowed_connector_types"))) value_error) _
          h₂ in
      let (allowed, b, h₄) = >>=-eq-ok (or_raise (all_texts kinds) value_error) _ h₃ in
      let (active, c, h₅) =
        >>=-eq-ok (or_raise (as_list (get config (str "active_connectors"))) value_error) _ h₄ in
      let (_, d, h₆) =
        >>=-eq-ok (raise_if (not (all (contains (types registry)) allowed)) value_error) _ h₅ in
      (
        config,
        kinds,
        allowed,
        active,
        or_raise-eq-ok _ a,
        or_raise-eq-ok _ b,
        or_raise-eq-ok _ c,
        ground (arith, raise_if-eq-ok _ _ d),
        load_active-AreLoaded R registry allowed [] active cs h₆,
      )
