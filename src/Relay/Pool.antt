-- ===== src/Relay/Pool.antt =====
-- `class Pool` of gateway/egress_relay.py. Clock readings are whole numbers of one unit.
pub mod Choice
pub mod Rotation
pub mod Cooldown
use transparent_gateway.Prelude.{
  ℕ, zero, suc, ◌+◌, ◌-◌, ◌%◌, ◌≡◌, refl, Bool, true, false, not, ◌&&◌, ◌||◌, Option, none, some,
  List, [], ◌∷◌, ◌++◌, map, Text, str, leb, ◌==◌, nat_eq, text_eq, contains, select, take, length,
  get_elem?, if◌then◌else◌,
}
use transparent_gateway.Python.{
  Value, Fields, text, arr, of_items, get, get_default, truthy, as_dict, as_list, Runtime, to_str,
}

pub record Pool : Type 0 where
  pub size : ℕ
  pub entries : List Value
  pub index : ℕ
  pub last_refresh : ℕ
  -- the time at which a key may be used again for a port
  pub failures : List ((Text × ℕ) × ℕ)
  pub dns_tcp_capable : List Text

-- `Pool(redis_url, size)`
pub new_pool : ℕ → Pool
new_pool size = record {
  size = size;
  entries = [];
  index = 0;
  last_refresh = 0;
  failures = [];
  dns_tcp_capable = [];
}

-- What Redis answers to the two reads, or that it cannot be reached.
pub data Answer : Type 0 where
  unavailable : Answer
  values : (raw dns_capable : Option Text) → Answer

-- What a call of `choose` meets: the clock when it looks whether to refresh, when it notes the
-- refresh and when it filters, and the answer of Redis.
pub record Moment : Type 0 where
  pub checked : ℕ
  pub refreshed : ℕ
  pub now : ℕ
  pub answer : Answer

same_failure : Text × ℕ → Text × ℕ → Bool
same_failure (k, p) (j, q) = k == j && p == q

-- `self.failures.get((key, port), 0.0)`
unfoldable pub until : List ((Text × ℕ) × ℕ) → Text → ℕ → ℕ
unfolding same_failure
until [] key port = 0
until ((kp, t) ∷ fs) key port = if same_failure kp (key, port) then t else until fs key port

-- `self.failures.pop((key, port), None)`; a dict holds a key once.
unfoldable pub forget : List ((Text × ℕ) × ℕ) → Text → ℕ → List ((Text × ℕ) × ℕ)
unfolding same_failure
forget [] key port = []
forget ((kp, t) ∷ fs) key port =
    let rest = forget fs key port in if same_failure kp (key, port) then rest else (kp, t) ∷ rest

-- The entries that are dicts.
unfoldable pub dicts : List Value → List Fields
dicts [] = []
dicts (v ∷ vs) = elim (as_dict v) [ none ↦ dicts vs | some d ↦ d ∷ dicts vs ]

-- `candidates[self.index % len(candidates)]`, and the next index, unless there is no candidate.
unfoldable pub pick : Pool → List Fields → Option Fields × Pool
pick pool [] = (none, pool)
pick pool (e ∷ es) =
    (get_elem? (e ∷ es) (pool.index % length (e ∷ es)), record pool { index = pool.index + 1 })

module _ (R : Runtime) (loads : Text → Option Value) where
  -- `Pool.key`
  unfoldable pub pool_key : Fields → Text
  pool_key candidate =
      let address = get candidate (str "address") in
      to_str R (
        if truthy address
        then address
        else text (
            to_str R (get candidate (str "protocol"))
            ++ str "://"
            ++ to_str R (get candidate (str "endpoint"))))

  -- `if raw: …` of the refresh. `none` stands for an exception, which `choose` reports and drops.
  read_entries : Pool → Option Text → Option Pool
  read_entries pool none = some pool
  read_entries pool (some []) = some pool
  read_entries pool (some (c ∷ s)) = elim (loads (c ∷ s)) [
    | none ↦ none
    | some v ↦ elim (as_dict v) [
      | none ↦ none
      | some d ↦ elim (as_list (get_default d (str "entries") (arr (of_items [])))) [
        | none ↦ some pool
        | some parsed ↦ some (record pool { entries = take pool.size parsed })
      ]
    ]
  ]

  -- `if dns_capable: …` of the refresh
  read_capable : Pool → Option Text → Pool
  read_capable pool none = pool
  read_capable pool (some []) = pool
  read_capable pool (some (c ∷ s)) = elim (loads (c ∷ s)) [
    | none ↦ pool
    | some v ↦ elim (as_list v) [
      | none ↦ pool
      | some parsed ↦ record pool { dns_tcp_capable = map (to_str R) parsed }
    ]
  ]

  unfoldable pub refresh : Pool → Moment → Pool
  unfolding read_entries read_capable
  refresh pool m =
      if leb (pool.last_refresh + 3) m.checked
      then (let noted = record pool { last_refresh = m.refreshed } in
          elim m.answer [
            | unavailable ↦ noted
            | values raw dns_capable ↦ elim (read_entries noted raw) [
              | none ↦ noted
              | some loaded ↦ read_capable loaded dns_capable
            ]
          ])
      else pool

  -- The condition of the list comprehension.
  unfoldable pub usable : Pool → ℕ → ℕ → List Text → Fields → Bool
  unfolding until
  usable pool now port excluded entry =
      not (contains excluded (pool_key entry))
      && leb (until pool.failures (pool_key entry) port) now

  -- `self.key(entry) in self.dns_tcp_capable`
  unfoldable pub capable : Pool → Fields → Bool
  capable pool e = contains pool.dns_tcp_capable (pool_key e)

  -- `sort` by a Boolean key, which is stable: the capable entries come first.
  unfoldable pub capable_first : Pool → List Fields → List Fields
  capable_first pool entries =
      select (capable pool) entries ++ select (λ e. not (capable pool e)) entries

  unfoldable pub candidates : Pool → ℕ → ℕ → List Text → List Fields
  unfolding dicts capable_first usable capable
  candidates pool now port excluded =
      let found = select (usable pool now port excluded) (dicts pool.entries) in
      if port == 53 then capable_first pool found else found

  -- `Pool.choose`
  unfoldable pub choose : Pool → Moment → ℕ → List Text → Option Fields × Pool
  unfolding refresh candidates pick
  choose pool m port excluded =
      let fresh = refresh pool m in pick fresh (candidates fresh m.now port excluded)

  -- `Pool.record_result`. `ready` is the clock reading plus the cooldown.
  unfoldable pub record_result : Pool → Fields → ℕ → Bool → ℕ → Pool
  unfolding forget
  record_result pool candidate port true ready =
      let key = pool_key candidate in
      let forgiven = record pool { failures = forget pool.failures key port } in
      if port == 53 && not (contains pool.dns_tcp_capable key)
      then record forgiven { dns_tcp_capable = key ∷ pool.dns_tcp_capable }
      else forgiven
  record_result pool candidate port false ready =
      let key = pool_key candidate in
      record pool { failures = ((key, port), ready) ∷ forget pool.failures key port }
