-- ===== src/Asn.antt =====
-- validator/asn_resolver.py: the resolver. The database is an argument.
pub mod Ranked
pub mod Updater
use transparent_gateway.Prelude.{
  ℕ, ◌+◌, ◌≡◌, refl, Bool, true, false, Option, none, some, List, [], ◌∷◌, ◌++◌, Text, str, ltb,
  if◌then◌else◌,
}
use transparent_gateway.Prelude.Int.{ℤ, pos, ltb_ℤ}
use transparent_gateway.Python.{
  Exception, value_error, asn_database_error, Result, ok, err, ◌>>=◌, ◌>>◌, raise_if, or_raise,
  Value, Fields, null, bool, int, text, end, field, get, value_or, as_dict, Runtime, Address,
  to_str, network_text, parse_int,
}

-- A database that is open: what `get_with_prefix_len` gives for an address.
abbrev pub Reader : Type 0
Reader = Text → Result (Value × ℕ)

-- `AsnResolver`
pub record AsnResolver : Type 0 where
  pub path : Text
  pub max_age : ℤ
  pub reader : Option Reader

-- `AsnResolver.from_environment`, of the two settings
unfoldable pub resolver_from : Option Text → Option Text → Result AsnResolver
resolver_from max_age path =
    or_raise (parse_int (elim max_age [ none ↦ str "259200" | some s ↦ s ])) value_error >>= λ age.
    if ltb_ℤ age (pos 1)
    then err value_error
    else ok (record {
      path = elim path [ none ↦ str "/asn-db/origin-asn.mmdb" | some p ↦ p ];
      max_age = age;
      reader = none;
    })

-- `AsnResolver.__enter__`: `modified` is the time of the file, if it can be looked up, and `opened`
-- the database, if it can be opened.
unfoldable pub enter : AsnResolver → ℕ → Option ℕ → Option Reader → Result AsnResolver
enter resolver now modified opened = do
  time ← or_raise modified asn_database_error
  raise_if
      (ltb_ℤ resolver.max_age
        (elim (ltb time now) [ true ↦ pos (Prim.Native.Nat.◌-◌ now time) | false ↦ pos 0 ]))
      asn_database_error
  database ← or_raise opened asn_database_error
  ok (record resolver { reader = some database })

-- `AsnResolver.__exit__`
unfoldable pub leave : AsnResolver → AsnResolver
leave resolver = record resolver { reader = none }

unfoldable pub unknown_network : Fields
unknown_network =
    field (str "asn_status") (text (str "unknown"))
      (field (str "asn") null (field (str "organization") null (field (str "prefix") null end)))

-- `isinstance(number, int)`, with the number; a Boolean is one.
unfoldable pub as_int : Value → Option ℤ
as_int (int n) = some n
as_int (bool true) = some (pos 1)
as_int (bool false) = some (pos 0)
as_int _ = none

-- `except ValueError: … except Exception: …`
unfoldable pub lookup_error : Exception → Exception
lookup_error value_error = value_error
lookup_error Exception.json_error = value_error
lookup_error Exception.unicode_error = value_error
lookup_error _ = asn_database_error

unfoldable pub lookup_result : {A : Type 0} → Result A → Result A
unfolding lookup_error
lookup_result (ok a) = ok a
lookup_result (err e) = err (lookup_error e)

module _ (R : Runtime) where
  unfoldable pub verified_network : Value → Value → Text → Fields
  verified_network number organization prefix = field (str "asn_status") (text (str "verified")) (
      field (str "asn") (text (str "AS" ++ to_str R number)) (
        field (str "organization") (text (to_str R (value_or organization (text []))))
          (field (str "prefix") (text prefix) end)))

  -- The network of a number, if there is one, with the organisation and the prefix.
  unfoldable pub network_for : Option ℤ → Value → Value → Text → Fields
  network_for none number organization prefix = unknown_network
  network_for (some n) number organization prefix =
      if ltb_ℤ n (pos 1) then unknown_network else verified_network number organization prefix

  -- The network of a record that was found.
  unfoldable pub network_of : Option Fields → Address → ℕ → Fields
  network_of none address prefix_length = unknown_network
  network_of (some found) address prefix_length =
      let number = get found (str "autonomous_system_number") in
      network_for (as_int number) number (get found (str "autonomous_system_organization"))
        (network_text R address prefix_length)

  -- `AsnResolver.resolve`
  unfoldable pub resolve : AsnResolver → Text → Result Fields
  resolve resolver address = do
    reader ← or_raise resolver.reader asn_database_error
    ip ← or_raise (R.parse_address address) value_error
    found ← lookup_result (reader (R.format_address ip))
    ok (network_of (as_dict found.0) ip found.1)
