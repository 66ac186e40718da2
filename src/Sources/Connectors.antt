-- ===== src/Sources/Connectors.antt =====
-- validator/sources/jsonl_inventory.py and http_json_feed.py: what the two connectors collect. The
-- file and the HTTPS exchange are arguments.
pub mod Collected
use transparent_gateway.Prelude.{
  ℕ, ◌+◌, ◌*◌, ◌≡◌, refl, Bool, true, false, not, ◌&&◌, ◌||◌, Option, none, some, List, [], ◌∷◌,
  ◌++◌, Text, str, ltb, leb, ◌==◌, nat_eq, text_eq, any, length, if◌then◌else◌,
}
use transparent_gateway.Prelude.Int.{ℤ, pos, ltb_ℤ}
use transparent_gateway.Python.{
  Exception, value_error, key_error, is_value_error, Result, ok, err, ◌>>=◌, ◌>>◌, raise_if,
  or_raise, Value, Fields, obj, text, get, truthy, as_dict, as_list, Runtime, to_str, strip,
  startswith,
}
use transparent_gateway.Sources.Candidate.{ProxyCandidate, text_or, parse_candidate}

-- `JsonlInventoryConnector`
pub record JsonlInventory : Type 0 where
  pub name : Text
  pub path : Text

-- `JsonlInventoryConnector(name, path)`
unfoldable pub new_inventory : Text → Text → Result JsonlInventory
new_inventory name path =
    raise_if (name == [] || path == []) value_error >> ok (record { name = name; path = path })

-- The ASCII line breaks of `str.splitlines`.
unfoldable pub is_break : ℕ → Bool
is_break c =
    (leb 10 c && leb c 13) || (leb 28 c && leb c 30) || c == 0x85 || c == 0x2028 || c == 0x2029

-- A line break and what stands before the next one. `\r\n` is one break.
unfoldable pub split_lines_from : Text → Text → List Text
unfolding is_break
split_lines_from line [] = if line == [] then [] else line ∷ []
split_lines_from line (c ∷ []) = if is_break c then line ∷ [] else (line ++ c ∷ []) ∷ []
split_lines_from line (c ∷ d ∷ s) = elim (c == 13 && d == 10) [
  | true ↦ line ∷ split_lines_from [] s
  | false ↦ elim (is_break c) [
    | true ↦ line ∷ split_lines_from [] (d ∷ s)
    | false ↦ split_lines_from (line ++ c ∷ []) (d ∷ s)
  ]
]

-- `s.splitlines()`
unfoldable pub split_lines : Text → List Text
unfolding split_lines_from
split_lines s = split_lines_from [] s

-- A value that was read, its candidate in front of those of the values behind it. A `ValueError`
-- skips the value, and another exception ends the iteration.
unfoldable pub yield_candidate :
    Result ProxyCandidate → Result (List ProxyCandidate) → Result (List ProxyCandidate)
yield_candidate (ok c) rest = rest >>= λ cs. ok (c ∷ cs)
yield_candidate (err e) rest = if is_value_error e then rest else err e

module _ (R : Runtime) where
  -- `JsonlInventoryConnector.from_config`
  unfoldable pub inventory_from_config : Fields → Result JsonlInventory
  inventory_from_config config =
      new_inventory (text_or R config (str "name") []) (text_or R config (str "path") [])

  -- `if not isinstance(value, dict): raise ValueError`, and the parser
  unfoldable pub parse_item : Text → Value → Result ProxyCandidate
  parse_item name value = or_raise (as_dict value) value_error >>= λ d. parse_candidate R d name

  unfoldable pub collect_items : Text → List Value → Result (List ProxyCandidate)
  collect_items name [] = ok []
  collect_items name (v ∷ vs) =
      let rest = collect_items name vs in yield_candidate (parse_item name v) rest

  module _ (loads : Text → Option Value) where
    unfoldable pub parse_line : Text → Text → Result ProxyCandidate
    parse_line name content = or_raise (loads content) value_error >>= parse_item name

    unfoldable pub collect_lines : Text → List Text → Result (List ProxyCandidate)
    collect_lines name [] = ok []
    collect_lines name (line ∷ lines) =
        let rest = collect_lines name lines in
        let content = strip line in
        if content == [] || startswith content (b'#' ∷ [])
        then rest
        else yield_candidate (parse_line name content) rest

    -- `JsonlInventoryConnector.collect`. `file` is what reading the text of the path gives.
    unfoldable pub collect_inventory : JsonlInventory → Result Text → Result (List ProxyCandidate)
    collect_inventory connector file =
        file >>= λ content. collect_lines connector.name (split_lines content)

-- `HttpJsonFeedConnector`
pub record HttpJsonFeed : Type 0 where
  pub name : Text
  pub url : Text
  pub token_file : Option Text

-- The parts of `urlsplit(url)` that the code looks at; an absent one is empty.
pub record Url : Type 0 where
  pub hostname : Text
  pub username : Text
  pub password : Text
  pub fragment : Text
  pub query : Text

unfoldable pub is_plain_url : Url → Bool
is_plain_url u = not (
    u.hostname == []
    || not (u.username == [])
    || not (u.password == [])
    || not (u.fragment == [])
    || not (u.query == []))

-- `any(ord(c) < 33 or ord(c) > 126 for c in token)`, or no token
unfoldable pub is_bad_token : Text → Bool
is_bad_token token = token == [] || any (λ c. ltb c 33 || ltb 126 c) token

-- `MAX_FEED_BYTES`
abbrev pub max_feed_bytes : ℕ
max_feed_bytes = 5 * 1024 * 1024

-- A response: the number of `Content-Length`, 0 without one, and the body up to the bound and one
-- byte more.
pub record FeedResponse : Type 0 where
  pub content_length : ℤ
  pub body : Text

module _ (R : Runtime) (urlsplit : Text → Result Url) where
  -- `HttpJsonFeedConnector(name, url, token_file)`
  unfoldable pub new_feed : Text → Text → Option Text → Result HttpJsonFeed
  new_feed name url token_file = do
    raise_if (name == [] || not (startswith url (str "https://"))) value_error
    parsed ← urlsplit url
    raise_if (not (is_plain_url parsed)) value_error
    ok (record { name = name; url = url; token_file = token_file })

  -- `HttpJsonFeedConnector.from_config`
  unfoldable pub feed_from_config : Fields → Result HttpJsonFeed
  feed_from_config config =
      let token = get config (str "token_file") in
      raise_if (truthy (get config (str "token_env"))) value_error
      >> new_feed (text_or R config (str "name") []) (text_or R config (str "url") [])
          (if truthy token then some (to_str R token) else none)

module _ (R : Runtime) (loads : Text → Option Value) where
  -- `headers["Authorization"]`, if a token file is named. `file` is what reading its text gives.
  unfoldable pub authorization : HttpJsonFeed → Result Text → Result (Option Text)
  authorization feed file = elim feed.token_file [
    | none ↦ ok none
    | some [] ↦ ok none
    | some (_ ∷ _) ↦ file >>= λ content.
        raise_if (is_bad_token (strip content)) value_error
        >> ok (some (str "Bearer " ++ strip content))
  ]

  -- The list of a body that was read.
  unfoldable pub read_feed : FeedResponse → Result (List Value)
  read_feed response = do
    raise_if (ltb_ℤ (pos max_feed_bytes) response.content_length) value_error
    raise_if (ltb max_feed_bytes (length response.body)) value_error
    payload ← or_raise (loads response.body) value_error
    or_raise (as_list payload) value_error

  -- `HttpJsonFeedConnector._fetch`. `exchange` is the HTTPS request with this `Authorization`.
  unfoldable pub fetch :
      HttpJsonFeed → Result Text → (Option Text → Result FeedResponse) → Result (List Value)
  fetch feed file exchange = authorization feed file >>= λ header. exchange header >>= read_feed

  -- `HttpJsonFeedConnector.collect`
  unfoldable pub collect_feed :
      HttpJsonFeed
      → Result Text
      → (Option Text → Result FeedResponse)
      → Result (List ProxyCandidate)
  collect_feed feed file exchange = fetch feed file exchange >>= collect_items R feed.name
