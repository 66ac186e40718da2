-- ===== src/Relay/Pool/Choice.antt =====
-- Whom `Pool.choose` returns: a usable entry, in rotation.
use mathlib.Core.List.{Memᴰ}
use mathlib.Core.List.Memᴰ
use native.Mathlib.Nat.{mod-lt}
use transparent_gateway.Prelude.{
  ℕ, ◌%◌, ◌≤◌, ◌≡◌, ap, ◌↔◌, inl, inr, true, false, not, Option, some, List, [], ◌∷◌, arith, Text,
  ◌==◌, nat_eq, text_eq, contains, select, length, Bool-cases, get_elem?-mem, get_elem?_total,
  mem-select, select-mem,
}
use transparent_gateway.Python.{Value, Fields, obj, Runtime}
use transparent_gateway.Relay.Pool.{
  Pool, Moment, until, pool_key, refresh, usable, dicts, capable, capable_first, candidates, pick,
  choose,
}

pick_total :
    (pool : Pool) {e : Fields} {cs : List Fields}
    → Memᴰ e cs
    → (chosen : Fields) × ((pick pool cs).0 ≡ some chosen)
unfolding pick
pick_total pool {cs = []} m = elim m [ ]
pick_total pool {cs = c ∷ cs} m =
    get_elem?_total (c ∷ cs) (pool.index % length (c ∷ cs)) (mod-lt pool.index (omega arith))

pick-mem : (pool : Pool) (cs : List Fields) (e : Fields) → (pick pool cs).0 ≡ some e → Memᴰ e cs
unfolding pick
pick-mem pool [] e h = cc
pick-mem pool (c ∷ cs) e h = get_elem?-mem (c ∷ cs) (pool.index % length (c ∷ cs)) e h

-- A dict of the list, as an entry of the snapshot.
mem-dicts : (vs : List Value) {e : Fields} → Memᴰ e (dicts vs) → Memᴰ (obj e) vs
unfolding dicts
mem-dicts [] m = elim m [ ]
mem-dicts (obj d ∷ vs) (Memᴰ.head e) = Memᴰ.head (ap obj e)
mem-dicts (obj d ∷ vs) (Memᴰ.tail m) = Memᴰ.tail (mem-dicts vs m)
mem-dicts (_ ∷ vs) m = Memᴰ.tail (mem-dicts vs m)

obj_injective : {d e : Fields} → obj e ≡ obj d → e ≡ d
obj_injective h = cc

dicts-mem : (vs : List Value) {e : Fields} → Memᴰ (obj e) vs → Memᴰ e (dicts vs)
unfolding dicts
dicts-mem [] m = elim m [ ]
dicts-mem (obj d ∷ vs) (Memᴰ.head e) = Memᴰ.head (obj_injective e)
dicts-mem (obj d ∷ vs) (Memᴰ.tail m) = Memᴰ.tail (dicts-mem vs m)
dicts-mem (_ ∷ vs) (Memᴰ.head e) = cc
dicts-mem (_ ∷ vs) (Memᴰ.tail m) = dicts-mem vs m

module _ (R : Runtime) (loads : Text → Option Value) where
  module _ (pool : Pool) where
    mem-capable_first :
        (es : List Fields) {e : Fields} → Memᴰ e (capable_first R loads pool es) → Memᴰ e es
    unfolding capable_first
    mem-capable_first es m = elim (Memᴰ.append_cases (select (capable R loads pool) es) m) [
      | inl m' ↦ (mem-select (capable R loads pool) es m').0
      | inr m' ↦ (mem-select (λ e. not (capable R loads pool e)) es m').0
    ]

    capable_first-mem :
        (es : List Fields) {e : Fields} → Memᴰ e es → Memᴰ e (capable_first R loads pool es)
    unfolding capable_first
    capable_first-mem es {e} m = elim (Bool-cases (capable R loads pool e)) [
      | inl h ↦ Memᴰ.append_left _ (select-mem (capable R loads pool) es m h)
      | inr h ↦
          Memᴰ.append_right (select (capable R loads pool) es)
            (select-mem (λ e. not (capable R loads pool e)) es m (ap not h))
    ]

    -- An entry that `choose` may return: a dict of the snapshot that is not excluded and whose
    -- cooldown for the port is over.
    pub record IsUsable (now port : ℕ) (excluded : List Text) (e : Fields) : Type 0 where
      pub listed : Memᴰ (obj e) pool.entries
      pub fresh : contains excluded (pool_key R loads e) ≡ false
      pub ready : until pool.failures (pool_key R loads e) port ≤ now

    usable_iff :
        (now port : ℕ) (excluded : List Text) (e : Fields)
        → (usable R loads pool now port excluded e ≡ true) ↔ (
            (contains excluded (pool_key R loads e) ≡ false)
            × (until pool.failures (pool_key R loads e) port ≤ now))
    unfolding usable
    usable_iff now port excluded e = (λ h. ground arith, λ h. ground arith)

    abbrev found : ℕ → ℕ → List Text → List Fields
    found now port excluded = select (usable R loads pool now port excluded) (dicts pool.entries)

    found-IsUsable :
        (now port : ℕ) (excluded : List Text) {e : Fields}
        → Memᴰ e (found now port excluded)
        → IsUsable now port excluded e
    found-IsUsable now port excluded {e} m =
        let (there, passes) = mem-select (usable R loads pool now port excluded) _ m in
        let (fresh, ready) = (usable_iff now port excluded e).0 passes in
        record { listed = mem-dicts pool.entries there; fresh = fresh; ready = ready }

    IsUsable-found :
        (now port : ℕ) (excluded : List Text) {e : Fields}
        → IsUsable now port excluded e
        → Memᴰ e (found now port excluded)
    IsUsable-found now port excluded {e} u =
        select-mem (usable R loads pool now port excluded) _ (dicts-mem pool.entries u.listed)
          ((usable_iff now port excluded e).1 (u.fresh, u.ready))

    pub mem-candidates :
        (now port : ℕ) (excluded : List Text) {e : Fields}
        → Memᴰ e (candidates R loads pool now port excluded)
        → IsUsable now port excluded e
    unfolding candidates
    mem-candidates now port excluded {e} m = elim (Bool-cases (port == 53)) [
      | inl dns ↦
          found-IsUsable now port excluded
            (mem-capable_first (found now port excluded) (rw dns at m))
      | inr other ↦ found-IsUsable now port excluded (rw other at m)
    ]

    pub candidates-mem :
        (now port : ℕ) (excluded : List Text) {e : Fields}
        → IsUsable now port excluded e
        → Memᴰ e (candidates R loads pool now port excluded)
    unfolding candidates
    candidates-mem now port excluded {e} u = elim (Bool-cases (port == 53)) [
      | inl dns ↦ rw dns (capable_first-mem _ (IsUsable-found now port excluded u))
      | inr other ↦ rw other (IsUsable-found now port excluded u)
    ]

  -- The chosen entry is a dict of the current snapshot, none of the excluded keys is its key, and
  -- its cooldown for the port is over.
  pub choose-IsUsable :
      (pool : Pool) (m : Moment) (port : ℕ) (excluded : List Text) (e : Fields)
      → (choose R loads pool m port excluded).0 ≡ some e
      → IsUsable (refresh R loads pool m) m.now port excluded e
  unfolding choose
  choose-IsUsable pool m port excluded e h =
      mem-candidates (refresh R loads pool m) m.now port excluded
        (pick-mem (refresh R loads pool m) _ e h)

  -- If any entry is usable, one is chosen.
  pub choose_total :
      (pool : Pool) (m : Moment) (port : ℕ) (excluded : List Text) (e : Fields)
      → IsUsable (refresh R loads pool m) m.now port excluded e
      → (chosen : Fields) × ((choose R loads pool m port excluded).0 ≡ some chosen)
  unfolding choose
  choose_total pool m port excluded e u =
      pick_total (refresh R loads pool m)
        (candidates-mem (refresh R loads pool m) m.now port excluded u)
