-- ===== src/Ranking/Active.antt =====
-- The active pool: a subsequence of the reserve, capped in size and in entries without an ASN.
use transparent_gateway.Prelude.{
  ℕ, zero, suc, ◌-◌, ◌≤◌, ◌≡◌, refl, sym, subst, not, none, some, List, [], ◌∷◌, arith, length,
  take, length-take-le,
}
use transparent_gateway.Prelude.Int.{ℤ, pos, pos_part, leb_ℤ}
use transparent_gateway.Python.{Float, Fields, ok, >>=-eq-ok, Runtime, value_error, raise_if}
use transparent_gateway.Ranking.{asn_key, in_unit_range, active_loop, select_active_entries}

module _ (R : Runtime) where
  -- All entries with a verified ASN, and the first `allowed` of the others, in order.
  unfoldable pub cap_unknown : ℕ → List Fields → List Fields
  cap_unknown allowed [] = []
  cap_unknown allowed (entry ∷ entries) = elim (asn_key R entry) [
    | some _ ↦ entry ∷ cap_unknown allowed entries
    | none ↦ elim allowed [
      | zero ↦ cap_unknown zero entries
      | suc fewer ↦ entry ∷ cap_unknown fewer entries
    ]
  ]

  -- The number of entries with no verified ASN.
  unfoldable pub unknowns : List Fields → ℕ
  unknowns [] = 0
  unknowns (entry ∷ entries) = elim (asn_key R entry) [
    | some _ ↦ unknowns entries
    | none ↦ suc (unknowns entries)
  ]

  active_loop-eq-take :
      (room : ℕ) (limit : ℤ) (unknown allowed : ℕ) (entries : List Fields)
      → allowed ≡ pos_part limit - unknown
      → active_loop R room limit unknown entries ≡ take room (cap_unknown allowed entries)
  unfolding active_loop cap_unknown
  active_loop-eq-take zero limit unknown allowed [] e = refl
  active_loop-eq-take (suc room) limit unknown allowed [] e = refl
  active_loop-eq-take zero limit unknown allowed (entry ∷ entries) e = refl
  active_loop-eq-take (suc room) limit unknown zero (entry ∷ entries) e = ground (
    arith,
    active_loop-eq-take (suc room) limit unknown zero entries e,
    active_loop-eq-take room limit unknown zero entries e,
  )
  active_loop-eq-take (suc room) limit unknown (suc allowed) (entry ∷ entries) e = ground (
    arith,
    active_loop-eq-take room limit (suc unknown) allowed entries,
    active_loop-eq-take room limit unknown (suc allowed) entries e,
  )

  cap_unknown-unknowns :
      (allowed room : ℕ) (entries : List Fields)
      → unknowns (take room (cap_unknown allowed entries)) ≤ allowed
  unfolding cap_unknown unknowns
  cap_unknown-unknowns allowed zero entries = omega arith
  cap_unknown-unknowns allowed (suc room) [] = omega arith
  cap_unknown-unknowns zero (suc room) (entry ∷ entries) =
      ground (
        arith,
        cap_unknown-unknowns zero (suc room) entries,
        cap_unknown-unknowns zero room entries,
      )
  cap_unknown-unknowns (suc allowed) (suc room) (entry ∷ entries) = ground (
    arith,
    cap_unknown-unknowns allowed room entries,
    cap_unknown-unknowns (suc allowed) room entries,
  )

  -- An accepted configuration gives the first `pool_size` entries of the reserve, in order, when
  -- entries without a verified ASN past the first `int(pool_size * ratio)` are passed over.
  pub select_active_entries-eq-take :
      (ranked : List Fields) (pool_size : ℤ) (ratio : Float) (active : List Fields)
      → select_active_entries R ranked pool_size ratio ≡ ok active
      → (limit : ℤ) × (R.trunc (R.mul (R.of_int pool_size) ratio) ≡ ok limit)
        × (active ≡ take (pos_part pool_size) (cap_unknown (pos_part limit) ranked))
  unfolding select_active_entries
  select_active_entries-eq-take ranked pool_size ratio active h =
      let (_, _, h₁) = >>=-eq-ok (raise_if (leb_ℤ pool_size (pos 0)) value_error) _ h in
      let (_, _, h₂) = >>=-eq-ok (raise_if (not (in_unit_range R ratio)) value_error) _ h₁ in
      let (limit, truncated, h₃) = >>=-eq-ok (R.trunc (R.mul (R.of_int pool_size) ratio)) _ h₂ in
      (
        limit,
        truncated,
        cc (active_loop-eq-take (pos_part pool_size) limit 0 (pos_part limit) ranked (omega arith)),
      )

  -- The active pool has at most `pool_size` entries, and at most `int(pool_size * ratio)` of them,
  -- or none if that is negative, have no verified ASN.
  pub select_active_entries_bounds :
      (ranked : List Fields) (pool_size : ℤ) (ratio : Float) (active : List Fields)
      → select_active_entries R ranked pool_size ratio ≡ ok active
      → (limit : ℤ) × (R.trunc (R.mul (R.of_int pool_size) ratio) ≡ ok limit)
        × (length active ≤ pos_part pool_size)
        × (unknowns active ≤ pos_part limit)
  select_active_entries_bounds ranked pool_size ratio active h =
      let (limit, truncated, e) = select_active_entries-eq-take ranked pool_size ratio active h in
      (
        limit,
        truncated,
        subst (λ xs. length xs ≤ pos_part pool_size) (sym e)
            (length-take-le (pos_part pool_size) (cap_unknown (pos_part limit) ranked)),
        subst (λ xs. unknowns xs ≤ pos_part limit) (sym e)
            (cap_unknown-unknowns (pos_part limit) (pos_part pool_size) ranked),
      )
