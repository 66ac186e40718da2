-- ===== src/Tool/Env.antt =====
-- The .env file of scripts/tgctl.py: `read_example_env`, `render_env` and `parse_env`.
pub mod RoundTrip
use transparent_gateway.Prelude.{
  ℕ, zero, suc, ◌+◌, ◌≡◌, Bool, true, false, not, ◌&&◌, ◌||◌, Option, none, some, List, [], ◌∷◌,
  ◌++◌, Text, str, ◌==◌, nat_eq, text_eq, ltb, leb, all, any, contains, length, get_elem?,
  if◌then◌else◌,
}
use transparent_gateway.Python.{
  Result, ok, err, Exception, key_error, index_error, split_first, startswith, is_digit, or_raise,
}
use transparent_gateway.Python as Py
use transparent_gateway.Host.{Failure, user_error, refused, exception, fault}
use transparent_gateway.Sources.Connectors.{split_lines}

-- A step that gives a value or raises, and does nothing else.
pub data Checked {ℓ} (A : Type ℓ) : Type ℓ where
  fine : A → Checked A
  bad : Failure → Checked A

module _ {ℓ κ} {A : Type ℓ} {B : Type κ} where
  infixl 5 ◌>>=◌
  unfoldable pub ◌>>=◌ : Checked A → (A → Checked B) → Checked B
  fine a >>= f = f a
  bad e >>= f = bad e

module _ {κ} {B : Type κ} where
  infixl 5 ◌>>◌
  abbrev pub ◌>>◌ : Checked (Unit {0}) → Checked B → Checked B
  m >> n = m >>= λ _. n

-- `raise UserError` if the test holds
abbrev pub refuse_if : Bool → Checked (Unit {0})
refuse_if true = bad (user_error refused)
refuse_if false = fine tt

abbrev pub refuse : {A : Type 0} → Checked A
refuse = bad (user_error refused)

-- A step that may raise one of Python's exceptions.
abbrev pub of {ℓ} : {A : Type ℓ} → Result A → Checked A
of (ok a) = fine a
of (err e) = bad (fault (exception e))

-- A `dict` of strings, in insertion order.
abbrev pub Env : Type 0
Env = List (Text × Text)

unfoldable pub value_of : Text → Env → Option Text
value_of k [] = none
value_of k ((j, v) ∷ d) = if j == k then some v else value_of k d

-- `d[k] = v`
unfoldable pub set_value : Text → Text → Env → Env
set_value k v [] = (k, v) ∷ []
set_value k v ((j, w) ∷ d) = if j == k then (j, v) ∷ d else (j, w) ∷ set_value k v d

-- `k in d`
unfoldable pub is_set : Text → Env → Bool
unfolding value_of
is_set k d = elim (value_of k d) [ none ↦ false | some _ ↦ true ]

-- `d.update(e)`
unfoldable pub update : Env → Env → Env
unfolding set_value
update d [] = d
update d ((k, v) ∷ e) = update (set_value k v d) e

-- An entry of `order`: the number of a comment, or a key.
pub data Item : Type 0 where
  comment : ℕ → Item
  value : Text → Item

pub record Template : Type 0 where
  pub values : Env
  pub order : List Item
  pub comments : List Text

-- `not line or line.startswith("#")`
unfoldable pub is_comment : Text → Bool
is_comment line = line == [] || startswith line (str "#")

-- The loop of `read_example_env`.
unfoldable pub read_template : Template → List Text → Checked Template
read_template t [] = fine t
read_template t (line ∷ lines) =
    if is_comment line
    then read_template
        (record t {
          order = t.order ++ comment (length t.comments) ∷ [];
          comments = t.comments ++ line ∷ [];
        })
        lines
    else elim (split_first b'=' line) [
      | none ↦ refuse
      | some (key, v) ↦
          read_template
            (record t { values = set_value key v t.values; order = t.order ++ value key ∷ [] })
            lines
    ]

-- `read_example_env`, of the text of .env.example
unfoldable pub read_example_env : Text → Checked Template
unfolding read_template
read_example_env content =
    read_template (record { values = []; order = []; comments = [] }) (split_lines content)

-- A line of `render_env`.
unfoldable pub render_item : Env → List Text → Item → Result Text
render_item values comments (comment n) = or_raise (get_elem? comments n) index_error
render_item values comments (value key) =
    Py.◌>>=◌ (or_raise (value_of key values) key_error) λ v. ok (key ++ b'=' ∷ v)

unfoldable pub render_items : Env → List Text → List Item → Result (List Text)
render_items values comments [] = ok []
render_items values comments (item ∷ items) =
    Py.◌>>=◌ (render_item values comments item)
      λ line. Py.◌>>=◌ (render_items values comments items) λ lines. ok (line ∷ lines)

-- `"\n".join(lines) + "\n"`, of one line at least; of none it is a single line feed
unfoldable pub join_lines : List Text → Text
join_lines [] = 10 ∷ []
join_lines (line ∷ []) = line ++ 10 ∷ []
join_lines (line ∷ next ∷ lines) = line ++ 10 ∷ join_lines (next ∷ lines)

-- `render_env`
unfoldable pub render_env : Env → List Item → List Text → Result Text
unfolding join_lines
render_env values order comments =
    Py.◌>>=◌ (render_items values comments order) λ lines. ok (join_lines lines)

unfoldable pub is_upper : ℕ → Bool
is_upper c = leb b'A' c && leb c b'Z'

-- `re.fullmatch(r"[A-Z][A-Z0-9_]*", key)`
unfoldable pub is_key : Text → Bool
unfolding is_upper
is_key [] = false
is_key (c ∷ s) = is_upper c && all (λ d. is_upper d || is_digit d || d == b'_') s

-- The characters that a value may not have.
unfoldable pub is_special : ℕ → Bool
is_special c = c == b'$' || c == b'\\' || c == b'"' || c == b'\'' || c == b'`' || c == 13

-- A key and its value, as `parse_env` takes them; `none` is a line without `=`.
unfoldable pub parse_pair : Env → Option (Text × Text) → Checked Env
unfolding is_key is_special is_set
parse_pair values none = refuse
parse_pair values (some (key, v)) = do
  refuse_if (not (is_key key) || is_set key values)
  refuse_if (any is_special v)
  fine (set_value key v values)

-- A line of `parse_env` that is no comment.
unfoldable pub parse_setting : Env → Text → Checked Env
unfolding parse_pair
parse_setting values line = parse_pair values (split_first b'=' line)

-- The loop of `parse_env`.
unfoldable pub parse_lines : Env → List Text → Checked Env
unfolding parse_setting
parse_lines values [] = fine values
parse_lines values (line ∷ lines) =
    (if is_comment line then fine values else parse_setting values line) >>= λ values'.
    parse_lines values' lines

-- `parse_env`, of the text of the file
unfoldable pub parse_env : Text → Checked Env
unfolding parse_lines
parse_env content = parse_lines [] (split_lines content)
