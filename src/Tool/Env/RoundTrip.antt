-- ===== src/Tool/Env/RoundTrip.antt =====
-- The .env that `configure` of scripts/tgctl.py writes by `render_env` and that `check` parses.
use transparent_gateway.Prelude.{
  ℕ, ◌≡◌, refl, Bool, true, false, ◌||◌, none, some, List, [], ◌∷◌, ◌++◌, arith, Text, str, ◌==◌,
  nat_eq, text_eq, text_beq, text_beq_iff, all, any, get_elem?, append_assoc, append-nil, sym, ap,
  ◌∙◌,
}
use transparent_gateway.Python.{
  ok, startswith, split_first-append, count_char, is_digit, any-append,
}
use transparent_gateway.Sources.Connectors.{is_break, split_lines, split_lines_from}
use transparent_gateway.Tool.Env.{
  fine, ◌>>=◌, Env, value_of, set_value, is_set, Item, comment, value, is_comment, render_item,
  render_items, join_lines, render_env, is_key, is_upper, is_special, parse_setting, parse_pair,
  parse_lines, parse_env,
}

-- A line that holds no line break.
abbrev pub IsLine : Text → Type 0
IsLine s = any is_break s ≡ false

split_line_end :
    (acc rest : Text) → split_lines_from acc (10 ∷ rest) ≡ acc ∷ split_lines_from [] rest
unfolding split_lines_from is_break text_beq
split_line_end acc [] = refl
split_line_end acc (d ∷ rest) = refl

split_char :
    (acc : Text) (c d : ℕ) (s : Text)
    → is_break c ≡ false
    → split_lines_from acc (c ∷ d ∷ s) ≡ split_lines_from (acc ++ c ∷ []) (d ∷ s)
unfolding split_lines_from is_break
split_char acc c d s other = ground arith

split_line-append :
    (acc line rest : Text)
    → IsLine line
    → split_lines_from acc (line ++ 10 ∷ rest) ≡ (acc ++ line) ∷ split_lines_from [] rest
split_line-append acc [] rest h =
    split_line_end acc rest ∙ ap (λ t. t ∷ split_lines_from [] rest) (sym (append-nil acc))
split_line-append acc (c ∷ []) rest h =
    split_char acc c 10 rest (ground (arith, h)) ∙ split_line_end (acc ++ c ∷ []) rest
split_line-append acc (c ∷ d ∷ line) rest h =
    split_char acc c d (line ++ 10 ∷ rest) (ground (arith, h))
    ∙ split_line-append (acc ++ c ∷ []) (d ∷ line) rest (ground (arith, h))
    ∙ ap (λ t. t ∷ split_lines_from [] rest) (append_assoc acc (c ∷ []) (d ∷ line))

abbrev AllLines : List Text → Type 0
AllLines [] = Unit {0}
AllLines (line ∷ lines) = IsLine line × AllLines lines

split_lines-join :
    (line : Text) (lines : List Text)
    → AllLines (line ∷ lines)
    → split_lines_from [] (join_lines (line ∷ lines)) ≡ line ∷ lines
unfolding join_lines split_lines_from text_beq
split_lines-join line [] h = split_line-append [] line [] h.0
split_lines-join line (next ∷ lines) h =
    split_line-append [] line (join_lines (next ∷ lines)) h.0
    ∙ ap (λ t. line ∷ t) (split_lines-join next lines h.1)

-- Whether a key stands in the order.
abbrev pub mentions : Text → List Item → Bool
mentions k [] = false
mentions k (comment n ∷ items) = mentions k items
mentions k (value j ∷ items) = j == k || mentions k items

module _ (values : Env) (comments : List Text) where
  -- What can be written and read again: comments that are comments, keys that are set once, and
  -- values without special characters; all of one line.
  abbrev pub IsWritable : List Item → Type 0
  IsWritable [] = Unit {0}
  IsWritable (comment n ∷ items) =
      ((c : Text) × (get_elem? comments n ≡ some c) × (is_comment c ≡ true) × IsLine c)
      × IsWritable items
  IsWritable (value k ∷ items) =
      ((v : Text) × (value_of k values ≡ some v)
        × (is_key k ≡ true)
        × (any is_special v ≡ false)
        × IsLine v
        × (mentions k items ≡ false))
      × IsWritable items

  -- The keys of the order with their values.
  abbrev pub selected : List Item → Env
  selected [] = []
  selected (comment n ∷ items) = selected items
  selected (value k ∷ items) = elim (value_of k values) [
    | none ↦ selected items
    | some v ↦ (k, v) ∷ selected items
  ]

-- A key holds neither `=` nor a line break, and it opens no comment.
key_chars :
    (s : Text)
    → all (λ d. is_upper d || is_digit d || d == b'_') s ≡ true
    → (count_char b'=' s ≡ 0) × IsLine s
unfolding is_upper is_digit count_char is_break
key_chars [] h = (refl, refl)
key_chars (c ∷ s) h = ground (arith, key_chars s)

key_lem : (k : Text) → is_key k ≡ true → (count_char b'=' k ≡ 0) × IsLine k
unfolding is_key is_upper is_digit count_char is_break
key_lem [] h = cc
key_lem (c ∷ s) h = ground (arith, key_chars s)

key_no_comment : (k v : Text) → is_key k ≡ true → is_comment (k ++ b'=' ∷ v) ≡ false
unfolding is_key is_upper is_comment startswith str text_beq
key_no_comment [] v h = cc
key_no_comment (c ∷ s) v h = ground arith

set_value-new : (k v : Text) (d : Env) → is_set k d ≡ false → set_value k v d ≡ d ++ (k, v) ∷ []
unfolding is_set value_of set_value
set_value-new k v [] h = refl
set_value-new k v ((j, w) ∷ d) h = ground (arith, set_value-new k v d)

-- A setting that was written is read.
parse_setting-written :
    (d : Env) (k v : Text)
    → is_key k ≡ true
    → any is_special v ≡ false
    → is_set k d ≡ false
    → parse_setting d (k ++ b'=' ∷ v) ≡ fine (d ++ (k, v) ∷ [])
unfolding parse_setting parse_pair ◌>>=◌
parse_setting-written d k v key plain new =
    ap (parse_pair d) (split_first-append b'=' k v (key_lem k key).0)
    ∙ rw (key, new, plain) (ap fine (set_value-new k v d new))

parse_lines-comment :
    (d : Env) (line : Text) (lines : List Text)
    → is_comment line ≡ true
    → parse_lines d (line ∷ lines) ≡ parse_lines d lines
unfolding parse_lines ◌>>=◌
parse_lines-comment d line lines h = rw h refl

parse_lines-setting :
    (d : Env) (k v : Text) (lines : List Text)
    → is_key k ≡ true
    → any is_special v ≡ false
    → is_set k d ≡ false
    → parse_lines d ((k ++ b'=' ∷ v) ∷ lines) ≡ parse_lines (d ++ (k, v) ∷ []) lines
unfolding parse_lines ◌>>=◌
parse_lines-setting d k v lines key plain new =
    rw (key_no_comment k v key, parse_setting-written d k v key plain new) refl

is_set-append : (k j v : Text) (d : Env) → is_set k (d ++ (j, v) ∷ []) ≡ (is_set k d || j == k)
unfolding is_set value_of
is_set-append k j v [] = ground arith
is_set-append k j v ((i, w) ∷ d) = ground (arith, is_set-append k j v d)

setting-IsLine : (k v : Text) → IsLine k → IsLine v → IsLine (k ++ b'=' ∷ v)
unfolding is_break
setting-IsLine k v hk hv = any-append is_break k (b'=' ∷ v) ∙ rw (hk, hv) refl

-- No key of the order is set.
abbrev IsFresh : Env → List Item → Type 0
IsFresh d [] = Unit {0}
IsFresh d (comment n ∷ items) = IsFresh d items
IsFresh d (value k ∷ items) = (is_set k d ≡ false) × IsFresh d items

IsFresh-append :
    (d : Env) (k v : Text) (items : List Item)
    → mentions k items ≡ false
    → IsFresh d items
    → IsFresh (d ++ (k, v) ∷ []) items
IsFresh-append d k v [] other h = tt
IsFresh-append d k v (comment n ∷ items) other h = IsFresh-append d k v items other h
IsFresh-append d k v (value j ∷ items) other h = (
  ground (arith, is_set-append j k v d, text_beq_iff j k, text_beq_iff k j),
  IsFresh-append d k v items (ground arith) h.1,
)

IsFresh-empty : (items : List Item) → IsFresh [] items
unfolding is_set value_of
IsFresh-empty [] = tt
IsFresh-empty (comment n ∷ items) = IsFresh-empty items
IsFresh-empty (value k ∷ items) = (refl, IsFresh-empty items)

module _ (values : Env) (comments : List Text) where
  -- The lines of an order, and that they are read.
  abbrev IsRead : List Item → Type 0
  IsRead items =
      (lines : List Text) × (render_items values comments items ≡ ok lines)
      × AllLines lines
      × ((d : Env)
          → IsFresh d items
          → parse_lines d lines ≡ fine (d ++ selected values comments items))

  IsRead-comment :
      (n : ℕ) (items : List Item) (c : Text)
      → get_elem? comments n ≡ some c
      → is_comment c ≡ true
      → IsLine c
      → IsRead items
      → IsRead (comment n ∷ items)
  unfolding render_items render_item
  IsRead-comment n items c found is_c one_line (lines, rendered, all_lines, read) = (
    c ∷ lines,
    rw (found, rendered) refl,
    (one_line, all_lines),
    λ d fresh. parse_lines-comment d c lines is_c ∙ read d fresh,
  )

  IsRead-setting :
      (k : Text) (items : List Item) (v : Text)
      → value_of k values ≡ some v
      → is_key k ≡ true
      → any is_special v ≡ false
      → IsLine v
      → mentions k items ≡ false
      → IsRead items
      → IsRead (value k ∷ items)
  unfolding render_items render_item
  IsRead-setting k items v found key plain one_line once (lines, rendered, all_lines, read) = (
    (k ++ b'=' ∷ v) ∷ lines,
    rw (found, rendered) refl,
    (setting-IsLine k v (key_lem k key).1 one_line, all_lines),
    λ d fresh.
        parse_lines-setting d k v lines key plain fresh.0
        ∙ read (d ++ (k, v) ∷ []) (IsFresh-append d k v items once fresh.1)
        ∙ rw (found, selected)
            (ap fine (append_assoc d ((k, v) ∷ []) (selected values comments items))),
  )

  IsRead-items : (items : List Item) → IsWritable values comments items → IsRead items
  unfolding render_items parse_lines
  IsRead-items [] h = ([], refl, tt, λ d _. ap fine (sym (append-nil d)))
  IsRead-items (comment n ∷ items) ((c, found, is_c, one_line), rest) =
      IsRead-comment n items c found is_c one_line (IsRead-items items rest)
  IsRead-items (value k ∷ items) ((v, found, key, plain, one_line, once), rest) =
      IsRead-setting k items v found key plain one_line once (IsRead-items items rest)

  read_lines :
      (lines : List Text)
      → AllLines lines
      → parse_lines [] (split_lines (join_lines lines)) ≡ parse_lines [] lines
  unfolding split_lines join_lines is_comment text_beq str startswith
  read_lines [] h = parse_lines-comment [] [] [] refl
  read_lines (line ∷ lines) h = ap (parse_lines []) (split_lines-join line lines h)

-- What `render_env` writes of the values and the order of a template is what `parse_env` reads: the
-- keys of the order with their values, in that order. The comments of the order are comments, each
-- key is well formed, set, and stands there once, and no value has a character that is refused or a
-- line break.
pub parse_env-render_env :
    (values : Env) (order : List Item) (comments : List Text)
    → IsWritable values comments order
    → (content : Text) × (render_env values order comments ≡ ok content)
      × (parse_env content ≡ fine (selected values comments order))
unfolding render_env parse_env
parse_env-render_env values order comments writable =
    let (lines, rendered, all_lines, read) = IsRead-items values comments order writable in
    (
      join_lines lines,
      rw rendered refl,
      read_lines values comments lines all_lines ∙ read [] (IsFresh-empty order),
    )
