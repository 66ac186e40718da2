-- ===== src/Tests/Rank.antt =====
-- The ranking on two entries, of which the first answers faster.
use transparent_gateway.Prelude.{◌≤◌, ◌≡◌, refl, List, [], ◌∷◌, str, length, take, text_beq}
use transparent_gateway.Prelude.Int.{ℤ, pos, pos_part}
use transparent_gateway.Python.{bits, Fields, int, float, text, end, field, ok, get_default}
use transparent_gateway.Ranking.{
  passing, rank_entries, select_active_entries, base_score, key_gt, subnet_key, asn_key,
}
use transparent_gateway.Ranking.Greedy.{IsGreedy}
use transparent_gateway.Ranking.Greedy.Total.{rank_entries-IsGreedy, rank_entries_total}
use transparent_gateway.Ranking.Active.{
  cap_unknown, unknowns, select_active_entries-eq-take, select_active_entries_bounds,
}
use transparent_gateway.Tests.Sample.{sample, sample_order}

abbrev fast : Fields
fast = field (str "address") (text (str "a")) (field (str "latency_ms") (int (pos 1)) end)

abbrev slow : Fields
slow = field (str "address") (text (str "b")) (field (str "latency_ms") (int (pos 9)) end)

abbrev pub both : List Fields
both = slow ∷ fast ∷ []

abbrev pub fast_ranked : Fields
fast_ranked = field (str "address") (text (str "a")) (
    field (str "latency_ms") (int (pos 1))
      (field (str "base_score") (float (bits 502)) (field (str "score") (float (bits 251)) end)))

ranks_fast : rank_entries sample both (pos 1) (bits 0) (bits 2) ≡ ok (fast_ranked ∷ [])
unfolding rank_entries sample base_score get_default text_beq str key_gt subnet_key asn_key
ranks_fast = refl

selects_fast :
    select_active_entries sample (fast_ranked ∷ []) (pos 2) (bits 1) ≡ ok (fast_ranked ∷ [])
unfolding select_active_entries sample asn_key text_beq str
selects_fast = refl

rank_entries-IsGreedy_example :
    (kept : List Fields) × (passing sample (bits 0) both ≡ ok kept)
    × IsGreedy sample (bits 2) 1 kept [] (fast_ranked ∷ [])
rank_entries-IsGreedy_example =
    rank_entries-IsGreedy sample sample_order both (pos 1) (bits 0) (bits 2) (fast_ranked ∷ [])
      ranks_fast

rank_entries_total_example :
    (ranked : List Fields) × (rank_entries sample both (pos 1) (bits 0) (bits 2) ≡ ok ranked)
unfolding sample base_score get_default text_beq str
rank_entries_total_example =
    rank_entries_total sample both (pos 1) (bits 0) (bits 2) refl refl ((_, refl), ((_, refl), tt))

select_active_entries-eq-take_example :
    (limit : ℤ) × (sample.trunc (sample.mul (sample.of_int (pos 2)) (bits 1)) ≡ ok limit)
    × ((fast_ranked ∷ []) ≡ take 2 (cap_unknown sample (pos_part limit) (fast_ranked ∷ [])))
select_active_entries-eq-take_example =
    select_active_entries-eq-take sample (fast_ranked ∷ []) (pos 2) (bits 1) (fast_ranked ∷ [])
      selects_fast

select_active_entries_bounds_example :
    (limit : ℤ) × (sample.trunc (sample.mul (sample.of_int (pos 2)) (bits 1)) ≡ ok limit)
    × (length (fast_ranked ∷ []) ≤ 2)
    × (unknowns sample (fast_ranked ∷ []) ≤ pos_part limit)
select_active_entries_bounds_example =
    select_active_entries_bounds sample (fast_ranked ∷ []) (pos 2) (bits 1) (fast_ranked ∷ [])
      selects_fast
