-- ===== src/Ranking.antt =====
-- validator/ranking.py: scoring, the greedy diversity ranking, and the active pool.
pub mod Order
pub mod Greedy
pub mod Active
use transparent_gateway.Prelude.{
  ℕ, zero, suc, ◌+◌, ◌≡◌, refl, Bool, true, false, not, ◌&&◌, ◌||◌, Option, none, some, List, [],
  ◌∷◌, ◌++◌, arith, Text, str, ltb, leb, length, ◌==◌, text_eq, if◌then◌else◌,
}
use transparent_gateway.Prelude.Int.{ℤ, pos, pos_part, leb_ℤ}
use transparent_gateway.Python.{
  Exception, value_error, Result, ok, err, ◌>>=◌, ◌>>◌, raise_if, Float, Value, Fields, null, int,
  float, text, obj, get, get_default, put, value_or, as_dict, Value-discrete, strip, upper,
  split_last, strip_chars, text_lt, Address, v4, v6, Runtime, to_str, to_int, network_text,
}

-- `max(1, n)`
abbrev at_least_1 : ℤ → ℤ
at_least_1 n = if leb_ℤ (pos 1) n then n else pos 1

-- `min(n, 10)`
abbrev at_most_10 : ℤ → ℤ
at_most_10 n = if leb_ℤ n (pos 10) then n else pos 10

-- A `Counter`: the number of times that a key was counted.
abbrev pub Counter : Type 0
Counter = List (Text × ℕ)

unfoldable pub counted : Counter → Text → ℕ
counted [] k = 0
counted ((j, n) ∷ c) k = if j == k then n else counted c k

unfoldable pub increment : Counter → Text → Counter
increment [] k = (k, 1) ∷ []
increment ((j, n) ∷ c) k = if j == k then (j, n + 1) ∷ c else (j, n) ∷ increment c k

abbrev count_option : Counter → Option Text → Counter
count_option c none = c
count_option c (some k) = increment c k

-- The tuple that `adjusted_score` returns.
pub record Key : Type 0 where
  pub final : Float
  pub raw : Float
  pub address : Text

module _ (R : Runtime) where
  unfoldable pub base_score : Fields → Result Float
  unfolding to_int
  base_score entry = do
    latency ← to_int R (get_default entry (str "latency_ms") (int (pos 1)))
    streak ← to_int R (get_default entry (str "success_streak") (int (pos 1)))
    let latency_component =
        R.div (R.of_int (pos 1000)) (R.add (R.of_int (pos 1)) (R.of_int (at_least_1 latency)))
    let stability_component = R.mul (R.of_int (at_most_10 (at_least_1 streak))) (R.of_int (pos 2))
    ok (R.add latency_component stability_component)

  -- The text before the last colon of an endpoint, or all of it, without square brackets.
  endpoint_host : Text → Text
  unfolding split_last strip_chars
  endpoint_host s =
      strip_chars (b'[' ∷ b']' ∷ []) (elim (split_last b':' s) [ none ↦ s | some (host, _) ↦ host ])

  -- `host` of the values of "exit_ip", "host" and "endpoint"
  host_of : Value → Value → Value → Text
  unfolding to_str value_or endpoint_host
  host_of exit_ip host endpoint = elim (to_str R (value_or exit_ip (value_or host (text [])))) [
    | [] ↦ endpoint_host (to_str R endpoint)
    | c ∷ s ↦ c ∷ s
  ]

  address_prefix : Address → ℕ
  address_prefix (v4 _) = 24
  address_prefix (v6 _) = 48

  subnet_of : Option Address → Option Text
  unfolding address_prefix network_text
  subnet_of none = none
  subnet_of (some address) = some (network_text R address (address_prefix address))

  unfoldable pub subnet_key : Fields → Option Text
  unfolding host_of subnet_of get get_default
  subnet_key entry = subnet_of (
      R.parse_address (
        host_of (get entry (str "exit_ip")) (get entry (str "host"))
          (get_default entry (str "endpoint") (text []))))

  -- `value or None`
  unfoldable pub nonempty : Text → Option Text
  nonempty [] = none
  nonempty (c ∷ s) = some (c ∷ s)

  -- `network.get("asn_status") == "verified"`
  unfoldable pub is_verified : Fields → Bool
  unfolding get
  is_verified network = elim (get network (str "asn_status")) [
    | text s ↦ s == str "verified"
    | _ ↦ false
  ]

  unfoldable pub asn_of : Value → Option Text
  unfolding get_default is_verified nonempty to_str
  asn_of value = elim (as_dict value) [
    | none ↦ none
    | some network ↦
        if is_verified network
        then nonempty (upper (strip (to_str R (get_default network (str "asn") (text [])))))
        else none
  ]

  unfoldable pub asn_key : Fields → Option Text
  unfolding get asn_of
  asn_key entry = asn_of (get entry (str "network"))

  -- The penalty grows by the number of earlier choices with the same ASN and the same subnet.
  diversity_penalty : Float → Counter → Counter → Option Text → Option Text → Float
  unfolding counted
  diversity_penalty unknown asns subnets asn subnet =
      let start : Float = elim asn [
        | none ↦ R.mul (R.of_int (pos 1)) unknown
        | some k ↦ R.add (R.of_int (pos 1)) (R.of_int (pos (counted asns k)))
      ] in
      elim subnet [ none ↦ start | some k ↦ R.add start (R.of_int (pos (counted subnets k))) ]

  unfoldable pub adjusted_score : Float → Counter → Counter → Fields → Result Key
  unfolding diversity_penalty
  adjusted_score unknown asns subnets entry = do
    raw ← base_score entry
    ok (record {
      final = R.div raw (diversity_penalty unknown asns subnets (asn_key entry) (subnet_key entry));
      raw = raw;
      address = to_str R (get_default entry (str "address") (text []));
    })

  -- `k > l` on these tuples: the first components that differ decide.
  unfoldable pub key_gt : Key → Key → Bool
  unfolding text_lt
  key_gt k l =
      if R.eq k.final l.final
      then (if R.eq k.raw l.raw then text_lt l.address k.address else R.lt l.raw k.raw)
      else R.lt l.final k.final

  -- `max(entries, key=…)` of a nonempty list: the first entry whose key none exceeds.
  unfoldable pub best : (Fields → Result Key) → Fields → Key → List Fields → Result (Fields × Key)
  best score champion key [] = ok (champion, key)
  best score champion key (entry ∷ entries) = do
    k ← score entry
    let won = key_gt k key
    best score (if won then entry else champion) (if won then k else key) entries

  -- `entries.remove(entry)`: the first equal entry is taken out.
  unfoldable pub remove_entry : Fields → List Fields → List Fields
  remove_entry entry [] = []
  remove_entry entry (e ∷ es) = elim (Value-discrete (obj entry) (obj e)) [
    | yes _ ↦ es
    | no _ ↦ e ∷ remove_entry entry es
  ]

  -- `selected["base_score"] = …` and `selected["score"] = …`
  unfoldable pub with_scores : Fields → Key → Fields
  unfolding put
  with_scores entry key =
      put (put entry (str "base_score") (float (R.round6 key.raw))) (str "score")
        (float (R.round6 key.final))

  -- The `while` loop. `slots` is `reserve_size - len(ranked)`.
  unfoldable pub rank_loop :
      Float → ℕ → List Fields → Counter → Counter → List Fields → Result (List Fields)
  unfolding adjusted_score best remove_entry with_scores
  rank_loop unknown zero remaining asns subnets ranked = ok ranked
  rank_loop unknown (suc slots) [] asns subnets ranked = ok ranked
  rank_loop unknown (suc slots) (entry ∷ entries) asns subnets ranked = do
    let score = adjusted_score unknown asns subnets
    first ← score entry
    won ← best score entry first entries
    key ← score won.0
    let selected = with_scores won.0 key
    rank_loop unknown slots (remove_entry won.0 (entry ∷ entries))
        (count_option asns (asn_key selected)) (count_option subnets (subnet_key selected))
        (ranked ++ selected ∷ [])

  -- `[dict(entry) for entry in entries if base_score(entry) >= min_score]`
  unfoldable pub passing : Float → List Fields → Result (List Fields)
  passing min_score [] = ok []
  passing min_score (entry ∷ entries) = do
    score ← base_score entry
    rest ← passing min_score entries
    ok (if R.lt min_score score || R.eq min_score score then entry ∷ rest else rest)

  unfoldable pub rank_entries : List Fields → ℤ → Float → Float → Result (List Fields)
  unfolding passing rank_loop
  rank_entries entries reserve_size min_score unknown_asn_penalty = do
    raise_if (leb_ℤ reserve_size (pos 0)) value_error
    raise_if (R.lt unknown_asn_penalty (R.of_int (pos 1))) value_error
    remaining ← passing min_score entries
    rank_loop unknown_asn_penalty (pos_part reserve_size) remaining [] [] []

  -- The `for` loop. `room` is `pool_size - len(selected)`, and `unknown` counts as the code does.
  unfoldable pub active_loop : ℕ → ℤ → ℕ → List Fields → List Fields
  active_loop room unknown_limit unknown [] = []
  active_loop zero unknown_limit unknown (entry ∷ entries) = []
  active_loop (suc room) unknown_limit unknown (entry ∷ entries) =
      let skip = active_loop (suc room) unknown_limit unknown entries in
      let take_unknown = entry ∷ active_loop room unknown_limit (suc unknown) entries in
      let take_known = entry ∷ active_loop room unknown_limit unknown entries in
      elim (asn_key entry) [
        | none ↦ elim (leb_ℤ unknown_limit (pos unknown)) [ true ↦ skip | false ↦ take_unknown ]
        | some _ ↦ take_known
      ]

  -- `0.0 <= ratio <= 1.0`
  in_unit_range : Float → Bool
  in_unit_range ratio =
      let zero = R.of_int (pos 0) in
      let one = R.of_int (pos 1) in
      (R.lt zero ratio || R.eq zero ratio) && (R.lt ratio one || R.eq ratio one)

  unfoldable pub select_active_entries : List Fields → ℤ → Float → Result (List Fields)
  unfolding active_loop in_unit_range
  select_active_entries ranked pool_size max_unknown_asn_ratio = do
    raise_if (leb_ℤ pool_size (pos 0)) value_error
    raise_if (not (in_unit_range max_unknown_asn_ratio)) value_error
    unknown_limit ← R.trunc (R.mul (R.of_int pool_size) max_unknown_asn_ratio)
    ok (active_loop (pos_part pool_size) unknown_limit 0 ranked)
