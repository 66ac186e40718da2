-- ===== src/Sources/Connectors/Collected.antt =====
-- What the connectors of validator/sources collect: the valid ones of the values, in their order.
use transparent_gateway.Prelude.{
  ◌≡◌, refl, subst, true, ◌||◌, Option, List, [], ◌∷◌, map, Text, ◌==◌, text_eq, if-cases, inl, inr,
  All,
}
use transparent_gateway.Python.{
  value_error, is_value_error, Result, ok, err, >>=-eq-ok, or_raise, Value, as_dict, Runtime, strip,
  startswith, ok_injective,
}
use transparent_gateway.Sources.Candidate.{ProxyCandidate}
use transparent_gateway.Sources.Candidate.Valid.{IsValid, parse_candidate-IsValid}
use transparent_gateway.Sources.Connectors.{
  JsonlInventory, HttpJsonFeed, FeedResponse, split_lines, yield_candidate, parse_item, parse_line,
  collect_lines, collect_inventory, fetch, collect_items, collect_feed,
}

-- The results that are candidates.
unfoldable pub successes : List (Result ProxyCandidate) → List ProxyCandidate
successes [] = []
successes (ok c ∷ rs) = c ∷ successes rs
successes (err e ∷ rs) = successes rs

-- No result is an exception that the connectors let pass.
unfoldable pub AreHandled : List (Result ProxyCandidate) → Type 0
AreHandled [] = Unit {0}
AreHandled (ok c ∷ rs) = AreHandled rs
AreHandled (err e ∷ rs) = (is_value_error e ≡ true) × AreHandled rs

module _ (R : Runtime) where
  yield-IsValid :
      (r : Result ProxyCandidate) (rest : Result (List ProxyCandidate)) (cs : List ProxyCandidate)
      → ((c : ProxyCandidate) → r ≡ ok c → IsValid R c)
      → ((ds : List ProxyCandidate) → rest ≡ ok ds → All (IsValid R) ds)
      → yield_candidate r rest ≡ ok cs
      → All (IsValid R) cs
  unfolding yield_candidate
  yield-IsValid (ok c) rest cs one others h =
      let (ds, rest_ok, same) = >>=-eq-ok rest _ h in
      subst (All (IsValid R)) (ok_injective same) (one c refl, others ds rest_ok)
  yield-IsValid (err e) rest cs one others h = elim (if-cases (is_value_error e) h) [
    | inl (_, rest_ok) ↦ others cs rest_ok
    | inr (_, failed) ↦ cc
  ]

  parse_item-IsValid :
      (name : Text) (v : Value) (c : ProxyCandidate) → parse_item R name v ≡ ok c → IsValid R c
  unfolding parse_item
  parse_item-IsValid name v c h =
      let (d, _, parsed) = >>=-eq-ok (or_raise (as_dict v) value_error) _ h in
      parse_candidate-IsValid R d name c parsed

  collect_items-IsValid :
      (name : Text) (vs : List Value) (cs : List ProxyCandidate)
      → collect_items R name vs ≡ ok cs
      → All (IsValid R) cs
  unfolding collect_items
  collect_items-IsValid name [] cs h = subst (All (IsValid R)) (ok_injective h) tt
  collect_items-IsValid name (v ∷ vs) cs h =
      yield-IsValid (parse_item R name v) (collect_items R name vs) cs (parse_item-IsValid name v)
        (collect_items-IsValid name vs) h

  -- Every candidate that a feed yields is valid.
  pub collect_feed-IsValid :
      (loads : Text → Option Value) (feed : HttpJsonFeed) (file : Result Text)
      (exchange : Option Text → Result FeedResponse) (cs : List ProxyCandidate)
      → collect_feed R loads feed file exchange ≡ ok cs
      → All (IsValid R) cs
  unfolding collect_feed
  collect_feed-IsValid loads feed file exchange cs h =
      let (vs, _, collected) = >>=-eq-ok (fetch R loads feed file exchange) _ h in
      collect_items-IsValid feed.name vs cs collected

  yield-successes :
      (r : Result ProxyCandidate) (rest : Result (List ProxyCandidate))
      (rs : List (Result ProxyCandidate))
      → AreHandled (r ∷ rs)
      → (AreHandled rs → rest ≡ ok (successes rs))
      → yield_candidate r rest ≡ ok (successes (r ∷ rs))
  unfolding AreHandled successes yield_candidate
  yield-successes (ok c) rest rs h next = rw (next h) refl
  yield-successes (err e) rest rs h next = rw h.0 (next h.1)

  -- The candidates of a payload are those of its items that parse, in the order of the items,
  -- provided that every item that does not parse raises a ValueError.
  pub collect_items-successes :
      (name : Text) (vs : List Value)
      → AreHandled (map (parse_item R name) vs)
      → collect_items R name vs ≡ ok (successes (map (parse_item R name) vs))
  unfolding collect_items successes
  collect_items-successes name [] h = refl
  collect_items-successes name (v ∷ vs) h =
      yield-successes (parse_item R name v) (collect_items R name vs) _ h
        (collect_items-successes name vs)

  module _ (loads : Text → Option Value) where
    parse_line-IsValid :
        (name content : Text) (c : ProxyCandidate)
        → parse_line R loads name content ≡ ok c
        → IsValid R c
    unfolding parse_line
    parse_line-IsValid name content c h =
        let (v, _, parsed) = >>=-eq-ok (or_raise (loads content) value_error) _ h in
        parse_item-IsValid name v c parsed

    collect_lines-IsValid :
        (name : Text) (lines : List Text) (cs : List ProxyCandidate)
        → collect_lines R loads name lines ≡ ok cs
        → All (IsValid R) cs
    unfolding collect_lines
    collect_lines-IsValid name [] cs h = subst (All (IsValid R)) (ok_injective h) tt
    collect_lines-IsValid name (line ∷ lines) cs h =
        elim (if-cases (strip line == [] || startswith (strip line) (b'#' ∷ [])) h) [
          | inl (_, skipped) ↦ collect_lines-IsValid name lines cs skipped
          | inr (_, read) ↦
              yield-IsValid (parse_line R loads name (strip line))
                (collect_lines R loads name lines) cs (parse_line-IsValid name (strip line))
                (collect_lines-IsValid name lines) read
        ]

    -- Every candidate that an inventory yields is valid.
    pub collect_inventory-IsValid :
        (connector : JsonlInventory) (file : Result Text) (cs : List ProxyCandidate)
        → collect_inventory R loads connector file ≡ ok cs
        → All (IsValid R) cs
    unfolding collect_inventory
    collect_inventory-IsValid connector file cs h =
        let (content, _, collected) = >>=-eq-ok file _ h in
        collect_lines-IsValid connector.name (split_lines content) cs collected
