-- ===== src/Workers/Validator/Cycle/Streaks.antt =====
-- The streaks of the entries that a cycle of validator/validator.py publishes.
use transparent_gateway.Prelude.{
  ◌≡◌, refl, sym, ap, ◌∙◌, map, Bool-cases, inl, inr, ◌==◌, if◌then◌else◌, Option, none, some, List,
  [], ◌∷◌, Text, str, text_eq, text_beq, arith, nat_eq,
}
use transparent_gateway.Python.{
  ok, err, get_default, lookup-put, to_int, >>=-eq-ok, ok_injective, Value, Fields, int, obj, get,
  put, Runtime, to_str, subscript,
}
use transparent_gateway.Prelude.Int.{ℤ, pos}
use transparent_gateway.Workers.Validator.{next}
use transparent_gateway.Workers.Validator.Cycle.{streak_of, streaks_from, passed_entries}

-- The results that are there, in their order.
unfoldable pub somes : List (Option Fields) → List Fields
somes [] = []
somes (none ∷ checked) = somes checked
somes (some result ∷ checked) = result ∷ somes checked

module _ (R : Runtime) where
  -- The streak that an entry of a snapshot gives an address: none if it is no dict or another's.
  pub own_streak : Text → Value → Option ℤ
  own_streak address (obj entry) =
      if to_str R (get entry (str "address")) == address
      then elim (to_int R (get_default entry (str "success_streak") (int (pos 0)))) [
        | ok n ↦ some n
        | err e ↦ none
      ]
      else none
  own_streak address _ = none

  -- The streak of an address in a snapshot: that of the last entry with it, and 0 if there is none.
  unfoldable pub last_streak : (address : Text) → List Value → (otherwise : ℤ) → ℤ
  unfolding own_streak
  last_streak address [] otherwise = otherwise
  last_streak address (v ∷ vs) otherwise =
      last_streak address vs (elim (own_streak address v) [ none ↦ otherwise | some n ↦ n ])

  -- A result as it is published behind the entries of the snapshot before.
  pub continued : List Value → Fields → Fields
  continued before result =
      put result (str "success_streak")
        (int (next (last_streak (to_str R (get result (str "address"))) before (pos 0))))

  streak_of-put :
      (streaks : Fields) (key address : Text) (n : ℤ)
      → streak_of (put streaks key (int n)) address
        ≡ (if key == address then n else streak_of streaks address)
  unfolding streak_of
  streak_of-put streaks key address n = ground (arith, lookup-put address key (int n) streaks)

  own_lem :
      (streaks entry : Fields) (address : Text) (n : ℤ)
      → to_int R (get_default entry (str "success_streak") (int (pos 0))) ≡ ok n
      → streak_of (put streaks (to_str R (get entry (str "address"))) (int n)) address
        ≡ elim (own_streak address (obj entry)) [ none ↦ streak_of streaks address | some m ↦ m ]
  unfolding own_streak
  own_lem streaks entry address n h =
      let key = to_str R (get entry (str "address")) in
      elim (Bool-cases (text_beq key address)) [
        | inl own ↦ streak_of-put streaks key address n ∙ rw (own, h) refl
        | inr other ↦ streak_of-put streaks key address n ∙ rw other refl
      ]

  -- What the loop over the entries finds for an address is the last streak that they give it.
  pub streaks_from_lem :
      (streaks : Fields) (values : List Value) (found : Fields) (address : Text)
      → streaks_from R streaks values ≡ ok found
      → streak_of found address ≡ last_streak address values (streak_of streaks address)
  unfolding streaks_from last_streak
  streaks_from_lem streaks [] found address h = ap (λ d. streak_of d address) (sym (ok_injective h))
  streaks_from_lem streaks (obj entry ∷ values) found address h =
      let (n, read, h₁) =
        >>=-eq-ok (to_int R (get_default entry (str "success_streak") (int (pos 0)))) _ h in
      streaks_from_lem (put streaks (to_str R (get entry (str "address"))) (int n)) values found
        address h₁
      ∙ ap (last_streak address values) (own_lem streaks entry address n read)
  streaks_from_lem streaks (v ∷ values) found address h =
      streaks_from_lem streaks values found address h

  subscript-get : (d : Fields) (k : Text) (v : Value) → subscript (obj d) k ≡ ok v → get d k ≡ v
  unfolding subscript get
  subscript-get d k v h = ground arith

  -- The loop over the checked candidates keeps every result that is there.
  pub passed_entries_lem :
      (streaks : Fields) (before : List Value) (checked : List (Option Fields))
      (entries : List Fields)
      → ((address : Text) → streak_of streaks address ≡ last_streak address before (pos 0))
      → passed_entries R streaks checked ≡ ok entries
      → entries ≡ map (continued before) (somes checked)
  unfolding passed_entries somes continued
  passed_entries_lem streaks before [] entries known h = sym (ok_injective h)
  passed_entries_lem streaks before (none ∷ checked) entries known h =
      passed_entries_lem streaks before checked entries known h
  passed_entries_lem streaks before (some result ∷ checked) entries known h =
      let (address, found, h₁) = >>=-eq-ok (subscript (obj result) (str "address")) _ h in
      let (rest, passed, h₂) = >>=-eq-ok (passed_entries R streaks checked) _ h₁ in
      sym (ok_injective h₂)
      ∙ rw
          (
            known (to_str R address),
            subscript-get result (str "address") address found,
            passed_entries_lem streaks before checked rest known passed,
          )
          refl
