-- ===== src/Tool/Settings/Sound.antt =====
-- What `load_and_validate` of scripts/tgctl.py lets through.
use transparent_gateway.Prelude.{
  ◌≡◌, refl, Bool, true, false, Option, some, List, [], ◌∷◌, arith, Text, str, nat_eq, text_eq,
  contains, ◌≢◌, All, if-cases, inl, inr, subst, if◌then◌else◌,
}
use transparent_gateway.Prelude.Int.{ℤ, pos, ltb_ℤ, ◌≤ℤ◌}
use transparent_gateway.Python.{
  ok, Value, Fields, obj, get, has_key, truthy, parse_int, method_get, is_value_error,
}
use transparent_gateway.Host.{Machine, Event}
use transparent_gateway.Tool.Env.{Checked, fine, bad, ◌>>=◌, refuse_if, Env, value_of, is_comment}
use transparent_gateway.Tool.Settings.{
  Parsers, Loaded, protocols, is_port, is_in, is_member, required_value, int_or_refuse, check_sizes,
  check_values, check_candidate, check_lines, load_settings,
}

>>=-eq-fine :
    {A B : Type 0} (m : Checked A) (f : A → Checked B) (b : B)
    → (m >>= f) ≡ fine b
    → (a : A) × (m ≡ fine a) × (f a ≡ fine b)
unfolding ◌>>=◌
>>=-eq-fine (fine a) f b h = (a, refl, h)
>>=-eq-fine (bad e) f b h = cc

refuse_if-eq-fine : (b : Bool) {u : Unit {0}} → refuse_if b ≡ fine u → b ≡ false
refuse_if-eq-fine true h = cc
refuse_if-eq-fine false h = refl

fine_injective : {A : Type 0} {a b : A} → fine a ≡ fine b → a ≡ b
fine_injective h = cc

is_filled :
    (candidates : List Value) {u : Unit {0}}
    → refuse_if (elim candidates [ [] ↦ true | _ ∷ _ ↦ false ]) ≡ fine u
    → candidates ≢ []
is_filled [] h = cc
is_filled (c ∷ cs) h = λ same. cc

-- Sizes that `check` accepts: numbers with 1 ≤ POOL_SIZE ≤ RESERVE_SIZE.
abbrev pub HasSizes : Env → Type 0
HasSizes values =
    (pool_text reserve_text : Text) × (pool reserve : ℤ) × (value_of (str "POOL_SIZE") values
      ≡ some pool_text)
    × (value_of (str "RESERVE_SIZE") values ≡ some reserve_text)
    × (parse_int pool_text ≡ some pool)
    × (parse_int reserve_text ≡ some reserve)
    × (pos 1 ≤ℤ pool)
    × (pool ≤ℤ reserve)

-- A candidate that can be used: a host, a port, a known protocol, and credentials that exist.
abbrev pub IsUsable : Fields → Value → Type 0
IsUsable credentials candidate =
    (d : Fields) × (candidate ≡ obj d)
    × (truthy (get d (str "host")) ≡ true)
    × (is_port (get d (str "port")) ≡ true)
    × (is_member (get d (str "protocol")) (contains protocols) ≡ ok true)
    × ((if truthy (get d (str "credential_ref"))
          then is_member (get d (str "credential_ref")) (has_key credentials)
          else ok true)
        ≡ ok true)

check_candidate-IsUsable :
    (credentials : Fields) (candidate : Value) {u : Unit {0}}
    → check_candidate credentials candidate ≡ fine u
    → IsUsable credentials candidate
unfolding check_candidate ◌>>=◌ method_get is_in
check_candidate-IsUsable credentials (obj d) h =
    (d, refl, ground arith, ground arith, ground arith, ground arith)
check_candidate-IsUsable credentials _ h = absurd (ground arith)

required_value-eq-fine :
    (values : Env) (name v : Text)
    → required_value values name ≡ fine v
    → value_of name values ≡ some v
unfolding required_value
required_value-eq-fine values name v h = ground arith

int_or_refuse-eq-fine : (s : Text) (n : ℤ) → int_or_refuse s ≡ fine n → parse_int s ≡ some n
unfolding int_or_refuse is_value_error
int_or_refuse-eq-fine s n h = ground arith

ltb_ℤ-false : (a b : ℤ) → ltb_ℤ a b ≡ false → b ≤ℤ a
ltb_ℤ-false a b h = ground arith

check_sizes-HasSizes : (values : Env) {u : Unit {0}} → check_sizes values ≡ fine u → HasSizes values
unfolding check_sizes
check_sizes-HasSizes values {u} h =
    let (pool_text, found_pool, h1) = >>=-eq-fine (required_value values (str "POOL_SIZE")) _ u h in
    let (pool, read_pool, h2) = >>=-eq-fine (int_or_refuse pool_text) _ u h1 in
    let (_, large, h3) = >>=-eq-fine (refuse_if (ltb_ℤ pool (pos 1))) _ u h2 in
    let (reserve_text, found_reserve, h4) =
      >>=-eq-fine (required_value values (str "RESERVE_SIZE")) _ u h3 in
    let (reserve, read_reserve, h5) = >>=-eq-fine (int_or_refuse reserve_text) _ u h4 in
    (
      pool_text,
      reserve_text,
      pool,
      reserve,
      required_value-eq-fine values _ pool_text found_pool,
      required_value-eq-fine values _ reserve_text found_reserve,
      int_or_refuse-eq-fine pool_text pool read_pool,
      int_or_refuse-eq-fine reserve_text reserve read_reserve,
      ltb_ℤ-false pool (pos 1) (refuse_if-eq-fine _ large),
      ltb_ℤ-false reserve pool (refuse_if-eq-fine _ h5),
    )

check_values-HasSizes :
    (parsers : Parsers) (values : Env) {u : Unit {0}}
    → check_values parsers values ≡ fine u
    → HasSizes values
unfolding check_values
check_values-HasSizes parsers values {u} h =
    let (_, _, h1) = >>=-eq-fine _ _ u h in
    let (cidr, _, h2) = >>=-eq-fine _ _ u h1 in
    let (_, _, h3) = >>=-eq-fine _ _ u h2 in
    let (url, _, h4) = >>=-eq-fine _ _ u h3 in
    let (_, _, h5) = >>=-eq-fine _ _ u h4 in
    let (validator, _, h6) = >>=-eq-fine _ _ u h5 in
    let (gateway, _, h7) = >>=-eq-fine _ _ u h6 in
    let (_, _, h8) = >>=-eq-fine _ _ u h7 in check_sizes-HasSizes values h8

check_lines-IsUsable :
    (loads : Text → Option Value) (credentials : Fields) (lines : List Text)
    (candidates : List Value)
    → check_lines loads credentials lines ≡ fine candidates
    → All (IsUsable credentials) candidates
unfolding check_lines
check_lines-IsUsable loads credentials [] [] h = tt
check_lines-IsUsable loads credentials [] (c ∷ cs) h = cc
check_lines-IsUsable loads credentials (line ∷ lines) candidates h =
    elim (if-cases (is_comment line) h) [
      | inl (_, same) ↦ check_lines-IsUsable loads credentials lines candidates same
      | inr (_, more) ↦
          let (candidate, _, h1) = >>=-eq-fine _ _ candidates more in
          let (_, checked, h2) = >>=-eq-fine _ _ candidates h1 in
          let (rest, rest_ok, h3) = >>=-eq-fine _ _ candidates h2 in
          subst (All (IsUsable credentials)) (fine_injective h3) (
            check_candidate-IsUsable credentials candidate checked,
            check_lines-IsUsable loads credentials lines rest rest_ok,
          )
    ]

-- Settings that `check` accepts: sound sizes, and an inventory of usable candidates that is not
-- empty.
pub record IsSound (loaded : Loaded) : Type 0 where
  pub sizes : HasSizes loaded.values
  pub usable : All (IsUsable loaded.credentials) loaded.candidates
  pub nonempty : loaded.candidates ≢ []

-- Settings that `load_and_validate` returns have 1 ≤ POOL_SIZE ≤ RESERVE_SIZE and at least one
-- candidate; each candidate has a host, a port of a 16-bit range that is not zero, an allowed
-- protocol, and no credentials or credentials that the store has.
pub load_settings-IsSound :
    (M : Machine) (parsers : Parsers) (root : Text) (trace : List Event) (loaded : Loaded)
    → load_settings M parsers root trace ≡ fine loaded
    → IsSound loaded
unfolding load_settings
load_settings-IsSound M parsers root trace loaded h =
    let (_, _, h1) = >>=-eq-fine _ _ loaded h in
    let (env, _, h2) = >>=-eq-fine _ _ loaded h1 in
    let (values, _, h3) = >>=-eq-fine _ _ loaded h2 in
    let (_, values_ok, h4) = >>=-eq-fine _ _ loaded h3 in
    let (store, _, h5) = >>=-eq-fine _ _ loaded h4 in
    let (store_value, _, h6) = >>=-eq-fine _ _ loaded h5 in
    let (credentials, _, h7) = >>=-eq-fine _ _ loaded h6 in
    let (config, _, h8) = >>=-eq-fine _ _ loaded h7 in
    let (connectors, _, h9) = >>=-eq-fine _ _ loaded h8 in
    let (_, _, h10) = >>=-eq-fine _ _ loaded h9 in
    let (inventory, _, h11) = >>=-eq-fine _ _ loaded h10 in
    let (candidates, lines_ok, h12) = >>=-eq-fine _ _ loaded h11 in
    let (_, filled, h13) = >>=-eq-fine _ _ loaded h12 in
    subst IsSound (fine_injective h13) (record {
      sizes = check_values-HasSizes parsers values values_ok;
      usable = check_lines-IsUsable M.loads credentials _ candidates lines_ok;
      nonempty = is_filled candidates filled;
    })
