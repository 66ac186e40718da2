-- ===== src/Relay/Pool/Rotation.antt =====
-- `Pool.choose` between two refreshes: every candidate has its turn, also on the DNS port.
use mathlib.Core.List.{Memᴰ}
use native.Mathlib.Decide.{dec_le}
use native.Mathlib.Nat.{mod-lt, mod-eq_of_lt, mod-add-mod, add-mod_left}
use transparent_gateway.Prelude.{
  ℕ, zero, suc, ◌+◌, ◌-◌, ◌%◌, ◌≤◌, ◌<◌, ◌≡◌, refl, sym, ap, ◌∙◌, Bool, true, false, not, Option,
  some, List, [], ◌∷◌, arith, Text, nat_eq, select, length, get_elem?, get_elem?-mem, mem-get_elem?,
  mem-select, get_elem?-append_right,
}
use transparent_gateway.Python.{Value, Fields, Runtime}
use transparent_gateway.Relay.Pool.{
  Pool, Moment, refresh, usable, dicts, capable, capable_first, candidates, pick, choose,
}

-- Some number of steps below `n` leads from any index to the position `i`.
turn : (index n i : ℕ) → i < n → (k : ℕ) × (k < n) × ((index + k) % n ≡ i)
turn index n i below = elim (dec_le (index % n) i) [
  | yes h ↦
      let k = i - index % n in
      let e : index % n + k ≡ i = omega arith in
      (k, omega arith, sym (mod-add-mod index n k) ∙ rw e (mod-eq_of_lt below))
  | no h ↦
      let k = n - index % n + i in
      let r : index % n < n = mod-lt index (omega arith) in
      let e : index % n + k ≡ n + i = omega arith in
      (k, omega arith, sym (mod-add-mod index n k) ∙ rw e (add-mod_left n i ∙ mod-eq_of_lt below))
]

module _ (R : Runtime) (loads : Text → Option Value) (m : Moment) (port : ℕ)
    (excluded : List Text) where
  abbrev at_index : Pool → ℕ → Pool
  at_index pool i = record pool { index = i }

  -- The pool after so many calls of `choose` at one moment.
  pub choose_times : ℕ → Pool → Pool
  choose_times zero pool = pool
  choose_times (suc k) pool = (choose R loads (choose_times k pool) m port excluded).1

  -- No refresh is due.
  abbrev pub IsSettled : Pool → Type 0
  IsSettled pool = m.checked < pool.last_refresh + 3

  refresh_settled : (pool : Pool) → IsSettled pool → refresh R loads pool m ≡ pool
  unfolding refresh
  refresh_settled pool settled = ground arith

  choose-at_index :
      (pool : Pool) (i : ℕ)
      → IsSettled pool
      → choose R loads (at_index pool i) m port excluded
        ≡ pick (at_index pool i) (candidates R loads pool m.now port excluded)
  unfolding choose candidates
  choose-at_index pool i settled =
      ap (λ p. pick p (candidates R loads p m.now port excluded))
        (refresh_settled (at_index pool i) settled)

  pick-index :
      (pool : Pool) (i : ℕ) (cs : List Fields) {e : Fields}
      → Memᴰ e cs
      → (pick (at_index pool i) cs).1 ≡ at_index pool (i + 1)
  unfolding pick
  pick-index pool i [] m = elim m [ ]
  pick-index pool i (c ∷ cs) m = refl

  choose_times_lem :
      (k : ℕ) (pool : Pool) {e : Fields}
      → IsSettled pool
      → Memᴰ e (candidates R loads pool m.now port excluded)
      → choose_times k pool ≡ at_index pool (pool.index + k)
  unfolding choose_times
  choose_times_lem zero pool settled mem = ap (at_index pool) (omega arith)
  choose_times_lem (suc k) pool settled mem =
      ap (λ p. (choose R loads p m port excluded).1) (choose_times_lem k pool settled mem)
      ∙ ap (λ r. r.1) (choose-at_index pool (pool.index + k) settled)
      ∙ pick-index pool (pool.index + k) _ mem
      ∙ ap (at_index pool) (omega arith)

  pick-get_elem? :
      (pool : Pool) (i : ℕ) (cs : List Fields)
      → (pick (at_index pool i) cs).0 ≡ get_elem? cs (i % length cs)
  unfolding pick
  pick-get_elem? pool i [] = refl
  pick-get_elem? pool i (c ∷ cs) = refl

  -- Between two refreshes each of n candidates is chosen by one of n calls in a row.
  pub choose_in_turn :
      (pool : Pool) (e : Fields)
      → IsSettled pool
      → Memᴰ e (candidates R loads pool m.now port excluded)
      → (k : ℕ) × (k < length (candidates R loads pool m.now port excluded))
        × ((choose R loads (choose_times k pool) m port excluded).0 ≡ some e)
  choose_in_turn pool e settled mem =
      let cs = candidates R loads pool m.now port excluded in
      let (i, below, here) = mem-get_elem? mem in
      let (k, soon, there) = turn pool.index (length cs) i below in
      (
        k,
        soon,
        ap (λ p. (choose R loads p m port excluded).0) (choose_times_lem k pool settled mem)
            ∙ ap (λ r. r.0) (choose-at_index pool (pool.index + k) settled)
            ∙ pick-get_elem? pool (pool.index + k) cs
            ∙ ap (get_elem? cs) there
            ∙ here,
      )

module _ (R : Runtime) (loads : Text → Option Value) (m : Moment) (excluded : List Text)
    (pool : Pool) where
  -- The usable entries in the order of the snapshot.
  abbrev pub usable_for_dns : List Fields
  usable_for_dns = select (usable R loads pool m.now 53 excluded) (dicts pool.entries)

  past_capable-false :
      (es : List Fields) (i : ℕ) (e : Fields)
      → length (select (capable R loads pool) es) ≤ i
      → get_elem? (capable_first R loads pool es) i ≡ some e
      → capable R loads pool e ≡ false
  unfolding capable_first
  past_capable-false es i e past h =
      let yes_part = select (capable R loads pool) es in
      let no_part = select (λ x. not (capable R loads pool x)) es in
      let there : Memᴰ e no_part =
        get_elem?-mem no_part (i - length yes_part) e
          (sym (get_elem?-append_right yes_part no_part i past) ∙ h) in
      not_true (capable R loads pool e) (mem-select (λ x. not (capable R loads pool x)) es there).1
    where
      not_true : (b : Bool) → not b ≡ true → b ≡ false
      not_true b h = ground arith

  -- On port 53 the rotation passes over the preferred entries: whenever the index, taken modulo
  -- the number of usable entries, is not below the number of those known to carry DNS over TCP,
  -- the entry chosen between two refreshes is one that is not known to.
  pub choose_not_preferred :
      (e : Fields)
      → IsSettled R loads m 53 excluded pool
      → length (select (capable R loads pool) usable_for_dns)
        ≤ pool.index % length (capable_first R loads pool usable_for_dns)
      → (choose R loads pool m 53 excluded).0 ≡ some e
      → capable R loads pool e ≡ false
  unfolding candidates
  choose_not_preferred e settled past h = past_capable-false usable_for_dns _ e past (
      sym (
        ap (λ r. r.0) (choose-at_index R loads m 53 excluded pool pool.index settled)
        ∙ pick-get_elem? R loads m 53 excluded pool pool.index _)
      ∙ h)
