-- ===== src/Python/Access.antt =====
-- `v[k]`, `v.get(k)`, `v == w` and iteration on a value of any type, with what Python raises.
use transparent_gateway.Prelude.{
  ℕ, suc, Bool, true, false, ◌&&◌, none, some, List, [], ◌∷◌, Text, ◌==◌, nat_eq, text_eq,
}
use transparent_gateway.Prelude.Int.{ℤ, pos, int_eq}
use transparent_gateway.Python.Exceptions.{
  Result, ok, err, key_error, type_error, attribute_error, ◌>>=◌,
}
use transparent_gateway.Python.Values.{
  Float, Value, null, bool, int, float, text, arr, obj, Values, nil, cons, Fields, end, field,
  lookup, get, get_default, items,
}

-- `v[k]`, for a string k
unfoldable pub subscript : Value → Text → Result Value
unfolding lookup
subscript (obj d) k = elim (lookup k d) [ none ↦ err key_error | some v ↦ ok v ]
subscript _ k = err type_error

-- `v[j][k]`
unfoldable pub subscript2 : Value → Text → Text → Result Value
unfolding subscript
subscript2 v j k = subscript v j >>= λ w. subscript w k

-- `v.get(k)`
unfoldable pub method_get : Value → Text → Result Value
unfolding get
method_get (obj d) k = ok (get d k)
method_get _ k = err attribute_error

-- `v.get(k, w)`
unfoldable pub method_get_default : Value → Text → Value → Result Value
unfolding get_default
method_get_default (obj d) k w = ok (get_default d k w)
method_get_default _ k w = err attribute_error

-- `for x in v`, of a list
unfoldable pub elements : Value → Result (List Value)
elements (arr vs) = ok (items vs)
elements _ = err type_error

-- A string, where another type raises TypeError.
unfoldable pub expect_text : Value → Result Text
expect_text (text s) = ok s
expect_text _ = err type_error

-- `v.lower()`, `v.split(…)`: another type raises AttributeError.
unfoldable pub expect_str : Value → Result Text
expect_str (text s) = ok s
expect_str _ = err attribute_error

-- `v.items()`
unfoldable pub expect_dict : Value → Result Fields
expect_dict (obj d) = ok d
expect_dict _ = err attribute_error

unfoldable pub keys : Fields → List Text
keys end = []
keys (field k v d) = k ∷ keys d

-- `k in d`
unfoldable pub has_key : Fields → Text → Bool
unfolding lookup
has_key d k = elim (lookup k d) [ none ↦ false | some _ ↦ true ]

-- Every key of the first is a key of the second.
unfoldable pub keys_within : Fields → Fields → Bool
unfolding has_key
keys_within end e = true
keys_within (field k v d) e = has_key e k && keys_within d e

-- `set(d) == set(e)`, of two dicts
unfoldable pub same_keys : Fields → Fields → Bool
unfolding keys_within
same_keys d e = keys_within d e && keys_within e d

unfoldable pub size : Fields → ℕ
size end = 0
size (field k v d) = suc (size d)

int_of_bool : Bool → ℤ
int_of_bool true = pos 1
int_of_bool false = pos 0

-- The arguments are `a == b` of two floats and of an int and a float.
module _ (float_eq : Float → Float → Bool) (int_float_eq : ℤ → Float → Bool) where
  -- Two values that hold no other values.
  number_eq : Value → Value → Bool
  unfolding int_of_bool
  number_eq null null = true
  number_eq (bool a) (bool b) = int_of_bool a == int_of_bool b
  number_eq (bool a) (int n) = int_of_bool a == n
  number_eq (bool a) (float x) = int_float_eq (int_of_bool a) x
  number_eq (int n) (bool b) = n == int_of_bool b
  number_eq (int n) (int m) = n == m
  number_eq (int n) (float x) = int_float_eq n x
  number_eq (float x) (bool b) = int_float_eq (int_of_bool b) x
  number_eq (float x) (int n) = int_float_eq n x
  number_eq (float x) (float y) = float_eq x y
  number_eq (text s) (text t) = s == t
  number_eq _ _ = false

  unfoldable mutual
    unfolding number_eq size lookup

    -- `v == w`
    pub value_eq : Value → Value → Bool
    value_eq (arr vs) (arr ws) = values_eq vs ws
    value_eq (obj d) (obj e) = size d == size e && fields_within d e
    value_eq (arr vs) w = false
    value_eq (obj d) w = false
    value_eq v w = number_eq v w

    pub values_eq : Values → Values → Bool
    values_eq nil nil = true
    values_eq (cons v vs) (cons w ws) = value_eq v w && values_eq vs ws
    values_eq nil (cons w ws) = false
    values_eq (cons v vs) nil = false

    -- Every entry of the first is in the second: the order of a dict does not count.
    pub fields_within : Fields → Fields → Bool
    fields_within end e = true
    fields_within (field k v d) e =
        elim (lookup k e) [ none ↦ false | some w ↦ value_eq v w ] && fields_within d e
