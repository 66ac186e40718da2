-- ===== src/Python/Values.antt =====
-- JSON values as Python holds them, and the `dict` methods that the code calls.
use transparent_gateway.Prelude.{
  ℕ, ◌≡◌, refl, Bool, true, false, not, ◌&&◌, Option, none, some, List, [], ◌∷◌, arith, Text, ◌==◌,
  text_eq, nat_eq, text_beq_iff, if◌then◌else◌,
}
use transparent_gateway.Prelude.Int.{ℤ, pos, int_eq}
use native.Mathlib.Decide.{ℕ_discrete}

-- A `float`, named by its 64 bits. The arithmetic on it is an argument of the code that uses it.
pub data Float : Type 0 where
  bits : ℕ → Float

mutual
  pub data Value : Type 0 where
    null : Value
    bool : Bool → Value
    int : ℤ → Value
    float : Float → Value
    text : Text → Value
    arr : Values → Value
    obj : Fields → Value

  pub data Values : Type 0 where
    nil : Values
    cons : Value → Values → Values

  -- A `dict` in insertion order.
  pub data Fields : Type 0 where
    end : Fields
    field : Text → Value → Fields → Fields

abbrev pub items : Values → List Value
items nil = []
items (cons v vs) = v ∷ items vs

abbrev pub of_items : List Value → Values
of_items [] = nil
of_items (v ∷ vs) = cons v (of_items vs)

unfoldable pub lookup : Text → Fields → Option Value
lookup k end = none
lookup k (field j v d) = if j == k then some v else lookup k d

-- `d.get(k)`: a missing key and a stored `None` read alike.
unfoldable pub get : Fields → Text → Value
unfolding lookup
get d k = elim (lookup k d) [ none ↦ null | some v ↦ v ]

-- `d.get(k, v)`
unfoldable pub get_default : Fields → Text → Value → Value
unfolding lookup
get_default d k v = elim (lookup k d) [ none ↦ v | some w ↦ w ]

-- `d[k] = v`
unfoldable pub put : Fields → Text → Value → Fields
put end k v = field k v end
put (field j w d) k v = if j == k then field j v d else field j w (put d k v)

-- `d.pop(k, None)`, without its result
unfoldable pub remove : Fields → Text → Fields
remove end k = end
remove (field j w d) k = if j == k then d else field j w (remove d k)

-- The test of `if v:`
unfoldable pub truthy : Value → Bool
truthy null = false
truthy (bool b) = b
truthy (int n) = not (n == pos 0)
truthy (float (bits n)) = not (n == 0) && not (n == 0x8000000000000000)
truthy (text []) = false
truthy (text (_ ∷ _)) = true
truthy (arr nil) = false
truthy (arr (cons _ _)) = true
truthy (obj end) = false
truthy (obj (field _ _ _)) = true

-- `v or w`
unfoldable pub value_or : Value → Value → Value
unfolding truthy
value_or v w = if truthy v then v else w

-- `v is None`
abbrev pub is_null : Value → Bool
is_null null = true
is_null _ = false

-- `isinstance(v, dict)`, with the dict
abbrev pub as_dict : Value → Option Fields
as_dict (obj d) = some d
as_dict _ = none

-- `isinstance(v, list)`, with the list
abbrev pub as_list : Value → Option (List Value)
as_list (arr vs) = some (items vs)
as_list _ = none

-- `isinstance(v, str)`, with the string
abbrev pub as_text : Value → Option Text
as_text (text s) = some s
as_text _ = none

pub lookup-put :
    (j k : Text) (v : Value) (d : Fields)
    → lookup j (put d k v) ≡ (if k == j then some v else lookup j d)
unfolding lookup put
lookup-put j k v end = refl
lookup-put j k v (field i w d) =
    ground (arith, text_beq_iff i k, text_beq_iff i j, text_beq_iff k j, lookup-put j k v d)

pub get-put :
    (j k : Text) (v : Value) (d : Fields) → get (put d k v) j ≡ (if k == j then v else get d j)
unfolding get
get-put j k v d = ground (arith, lookup-put j k v d)

pub Value-discrete : Discrete Value
Value-discrete = hlevel ℕ_discrete
