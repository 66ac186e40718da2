-- ===== src/Ranking/Greedy.antt =====
-- What the greedy ranking promises, stated without counters, and that `rank_entries` keeps it.
mod Counts
pub mod Loop
pub mod Total
use mathlib.Core.List.Perm
use mathlib.Core.List.{Perm}
use transparent_gateway.Prelude.{
  ℕ, zero, suc, ◌+◌, ◌≡◌, refl, ◌⊎◌, Bool, Option, none, some, List, [], ◌∷◌, map, Text, str, ◌==◌,
  text_eq, if◌then◌else◌,
}
use transparent_gateway.Prelude.Int.{pos}
use transparent_gateway.Python.{
  Result, ok, ◌>>=◌, Float, Fields, text, get_default, Runtime, to_str,
}
use transparent_gateway.Ranking.{Key, base_score, asn_key, subnet_key, with_scores}
use transparent_gateway.Ranking.Order.{Unbeaten}

-- How often a key stands in a list of optional keys.
unfoldable pub occurs : Text → List (Option Text) → ℕ
occurs k [] = 0
occurs k (none ∷ xs) = occurs k xs
occurs k (some j ∷ xs) = if j == k then occurs k xs + 1 else occurs k xs

module _ (R : Runtime) where
  -- The score of an entry when `history` was chosen before it: each earlier choice with the same
  -- ASN adds 1 to the divisor, and each with the same subnet; a missing ASN multiplies it.
  fair_penalty : Float → List Fields → Option Text → Option Text → Float
  fair_penalty unknown history asn subnet =
      let start : Float = elim asn [
        | none ↦ R.mul (R.of_int (pos 1)) unknown
        | some k ↦ R.add (R.of_int (pos 1)) (R.of_int (pos (occurs k (map (asn_key R) history))))
      ] in
      elim subnet [
        | none ↦ start
        | some k ↦ R.add start (R.of_int (pos (occurs k (map (subnet_key R) history))))
      ]

  score_with : Float → Fields → Result Key
  score_with penalty entry = do
    raw ← base_score R entry
    ok (record {
      final = R.div raw penalty;
      raw = raw;
      address = to_str R (get_default entry (str "address") (text []));
    })

  pub fair_score : Float → List Fields → Fields → Result Key
  unfolding fair_penalty score_with
  fair_score unknown history entry =
      score_with (fair_penalty unknown history (asn_key R entry) (subnet_key R entry)) entry

  -- `out` is a greedy choice of at most `slots` of the remaining entries, after `history`: each
  -- choice is unbeaten among what is left, and it ends when the slots or the entries run out.
  abbrev pub IsGreedy : Float → ℕ → List Fields → List Fields → List Fields → Type 0
  IsGreedy unknown slots remaining history [] = (slots ≡ 0) ⊎ (remaining ≡ [])
  IsGreedy unknown slots remaining history (chosen ∷ out) =
      (entry : Fields) × (rest : List Fields) × (key : Key) × (fewer : ℕ) × (slots ≡ suc fewer)
      × Perm (entry ∷ rest) remaining
      × (fair_score unknown history entry ≡ ok key)
      × Unbeaten R (fair_score unknown history) key remaining
      × (chosen ≡ with_scores R entry key)
      × IsGreedy unknown fewer rest (entry ∷ history) out
