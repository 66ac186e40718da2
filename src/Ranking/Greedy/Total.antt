-- ===== src/Ranking/Greedy/Total.antt =====
-- `rank_entries` as a whole: what it returns, how much of it, and when it raises.
use transparent_gateway.Prelude.{
  ℕ, zero, suc, ◌≡◌, refl, sym, ◌||◌, inl, inr, false, List, [], ◌∷◌, arith, min, length, All,
  Bool-cases, length-perm, subst,
}
use transparent_gateway.Prelude.Int.{ℤ, pos, pos_part, leb_ℤ}
use transparent_gateway.Python.{
  Float, Fields, ok, >>=-eq-ok, >>=_total, Runtime, IsFloatOrder, value_error, raise_if,
}
use transparent_gateway.Ranking.{
  Key, Counter, key_gt, base_score, adjusted_score, best, remove_entry, rank_loop, passing,
  rank_entries,
}
use transparent_gateway.Ranking.Greedy.{IsGreedy}
use transparent_gateway.Ranking.Greedy.Loop.{rank_loop-IsGreedy}
use transparent_gateway.Ranking.Greedy.Counts.{Counts-nil}

module _ (R : Runtime) where
  -- The entries that `rank_entries` ranks are those that pass the score threshold, and its result
  -- is a greedy choice of at most `reserve_size` of them.
  pub rank_entries-IsGreedy :
      IsFloatOrder R
      → (entries : List Fields) (reserve_size : ℤ) (min_score unknown_asn_penalty : Float)
        (ranked : List Fields)
      → rank_entries R entries reserve_size min_score unknown_asn_penalty ≡ ok ranked
      → (kept : List Fields) × (passing R min_score entries ≡ ok kept)
        × IsGreedy R unknown_asn_penalty (pos_part reserve_size) kept [] ranked
  unfolding rank_entries
  rank_entries-IsGreedy L entries reserve_size min_score penalty ranked h =
      let (_, _, h₁) = >>=-eq-ok (raise_if (leb_ℤ reserve_size (pos 0)) value_error) _ h in
      let (_, _, h₂) = >>=-eq-ok (raise_if (R.lt penalty (R.of_int (pos 1))) value_error) _ h₁ in
      let (kept, passed, h₃) = >>=-eq-ok (passing R min_score entries) _ h₂ in
      let (tail, e, greedy) =
        rank_loop-IsGreedy R penalty L (pos_part reserve_size) kept [] [] [] [] ranked Counts-nil
          Counts-nil h₃ in
      (kept, passed, subst (IsGreedy R penalty (pos_part reserve_size) kept []) (sym e) greedy)

  IsGreedy-length :
      (unknown : Float) (slots : ℕ) (remaining history out : List Fields)
      → IsGreedy R unknown slots remaining history out
      → length out ≡ min slots (length remaining)
  IsGreedy-length unknown slots remaining history [] (inl full) = omega arith
  IsGreedy-length unknown slots remaining history [] (inr spent) = rw spent (omega arith)
  IsGreedy-length unknown slots remaining history (r ∷ out)
        (entry, rest, key, fewer, one, p, _, _, _, greedy) =
      omega (
        arith,
        length-perm (entry ∷ rest) remaining p,
        IsGreedy-length unknown fewer rest (entry ∷ history) out greedy,
      )

  -- The reserve is full unless the entries that pass the threshold run out.
  pub rank_entries-length :
      IsFloatOrder R
      → (entries : List Fields) (reserve_size : ℤ) (min_score unknown_asn_penalty : Float)
        (ranked : List Fields)
      → rank_entries R entries reserve_size min_score unknown_asn_penalty ≡ ok ranked
      → (kept : List Fields) × (passing R min_score entries ≡ ok kept)
        × (length ranked ≡ min (pos_part reserve_size) (length kept))
  rank_entries-length L entries reserve_size min_score penalty ranked h =
      let (kept, passed, greedy) =
        rank_entries-IsGreedy L entries reserve_size min_score penalty ranked h in
      (kept, passed, IsGreedy-length penalty (pos_part reserve_size) kept [] ranked greedy)

  -- The entry has a score: its latency and its streak are numbers.
  abbrev pub HasScore : Fields → Type 0
  HasScore entry = (score : Float) × (base_score R entry ≡ ok score)

  adjusted_score_total :
      (unknown : Float) (asns subnets : Counter) (entry : Fields)
      → HasScore entry
      → (key : Key) × (adjusted_score R unknown asns subnets entry ≡ ok key)
  unfolding adjusted_score
  adjusted_score_total unknown asns subnets entry has =
      >>=_total (base_score R entry) _ has (λ raw _. (_, refl))

  module _ (unknown : Float) (asns subnets : Counter) where
    best_total :
        (champion : Fields) (key : Key) (es : List Fields)
        → HasScore champion
        → All HasScore es
        → (won : Fields × Key) × (best R (adjusted_score R unknown asns subnets) champion key es
            ≡ ok won)
          × HasScore won.0
    unfolding best
    best_total champion key [] c hs = ((champion, key), refl, c)
    best_total champion key (e ∷ es) c (h, hs) =
        let (k, scored) = adjusted_score_total unknown asns subnets e h in
        rw scored (elim (Bool-cases (key_gt R k key)) [
          | inl won ↦ rw won (best_total e k es h hs)
          | inr lost ↦ rw lost (best_total champion key es c hs)
        ])

  All-remove_entry :
      (entry : Fields) (es : List Fields) → All HasScore es → All HasScore (remove_entry R entry es)
  unfolding remove_entry
  All-remove_entry entry [] hs = tt
  All-remove_entry entry (e ∷ es) (h, hs) = ground (arith, All-remove_entry entry es hs)

  rank_loop_total :
      (unknown : Float) (slots : ℕ) (remaining : List Fields) (asns subnets : Counter)
      (ranked : List Fields)
      → All HasScore remaining
      → (out : List Fields) × (rank_loop R unknown slots remaining asns subnets ranked ≡ ok out)
  unfolding rank_loop
  rank_loop_total unknown zero remaining asns subnets ranked hs = (ranked, refl)
  rank_loop_total unknown (suc slots) [] asns subnets ranked hs = (ranked, refl)
  rank_loop_total unknown (suc slots) (entry ∷ entries) asns subnets ranked (h, hs) =
      let (first, scored) = adjusted_score_total unknown asns subnets entry h in
      let (won, chosen, has) = best_total unknown asns subnets entry first entries h hs in
      let (key, again) = adjusted_score_total unknown asns subnets won.0 has in
      rw (scored, chosen, again)
        (rank_loop_total unknown slots (remove_entry R won.0 (entry ∷ entries)) _ _ _
          (All-remove_entry won.0 (entry ∷ entries) (h, hs)))

  passing_total :
      (min_score : Float) (entries : List Fields)
      → All HasScore entries
      → (kept : List Fields) × (passing R min_score entries ≡ ok kept) × All HasScore kept
  unfolding passing
  passing_total min_score [] hs = ([], refl, tt)
  passing_total min_score (entry ∷ entries) (h, hs) =
      let (rest, passed, has) = passing_total min_score entries hs in
      let (score, scored) = h in
      rw (scored, passed)
        (elim (Bool-cases (R.lt min_score score || R.eq min_score score)) [
          | inl enough ↦ rw enough (entry ∷ rest, refl, (h, has))
          | inr low ↦ rw low (rest, refl, has)
        ])

  -- With a positive reserve size and a penalty of at least 1, entries that have a score are ranked.
  pub rank_entries_total :
      (entries : List Fields) (reserve_size : ℤ) (min_score unknown_asn_penalty : Float)
      → leb_ℤ reserve_size (pos 0) ≡ false
      → R.lt unknown_asn_penalty (R.of_int (pos 1)) ≡ false
      → All HasScore entries
      → (ranked : List Fields) × (rank_entries R entries reserve_size min_score unknown_asn_penalty
          ≡ ok ranked)
  unfolding rank_entries
  rank_entries_total entries reserve_size min_score penalty positive at_least_one hs =
      let (kept, passed, has) = passing_total min_score entries hs in
      rw (positive, at_least_one, passed)
        (rank_loop_total penalty (pos_part reserve_size) kept [] [] [] has)
