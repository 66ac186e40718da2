-- ===== src/Ranking/Greedy/Loop.antt =====
-- The loop of `rank_entries` makes a greedy choice.
use mathlib.Core.List.Perm
use mathlib.Core.List.{Perm, Memᴰ}
use transparent_gateway.Prelude.{
  ℕ, zero, suc, ◌≡◌, refl, sym, ap, ◌∙◌, inl, inr, List, [], ◌∷◌, ◌++◌, map, append_assoc,
  append-nil, fun_ext, subst,
}
use transparent_gateway.Python.{
  Float, Fields, obj, Result, ok, >>=-eq-ok, Runtime, IsFloatOrder, Value-discrete,
}
use transparent_gateway.Ranking.{
  Key, Counter, count_option, asn_key, subnet_key, with_scores, adjusted_score, best, remove_entry,
  rank_loop,
}
use transparent_gateway.Ranking.Order.{Unbeaten, best_lem, not_above_top}
use transparent_gateway.Ranking.Greedy.{IsGreedy, fair_score}
use transparent_gateway.Ranking.Greedy.Counts.{
  Counts, Counts-count_option, adjusted_score-eq-fair_score, asn_key-with_scores,
  subnet_key-with_scores,
}

ok_injective : {a b : Key} → ok a ≡ ok b → a ≡ b
ok_injective h = cc

obj_injective : (a b : Fields) → obj a ≡ obj b → a ≡ b
obj_injective a b h = cc

abbrev taken_out :
    (entry e : Fields) → Dec (obj entry ≡ obj e) → List Fields → List Fields → List Fields
taken_out entry e d es removed = elim d [ yes _ ↦ es | no _ ↦ e ∷ removed ]

taken_out-perm :
    (entry e : Fields) (d : Dec (obj entry ≡ obj e)) (es removed : List Fields)
    → Memᴰ entry (e ∷ es)
    → (Memᴰ entry es → Perm (entry ∷ removed) es)
    → Perm (entry ∷ taken_out entry e d es removed) (e ∷ es)
taken_out-perm entry e (yes same) es removed m ih =
    rw (obj_injective entry e same) (Perm.refl (e ∷ es))
taken_out-perm entry e (no other) es removed (Memᴰ.head same) ih = absurd (other (ap obj same))
taken_out-perm entry e (no other) es removed (Memᴰ.tail m) ih =
    Perm.trans (Perm.swap e entry removed) (Perm.cons e (ih m))

module _ (R : Runtime) where
  pub remove_entry-perm :
      (entry : Fields) (es : List Fields)
      → Memᴰ entry es
      → Perm (entry ∷ remove_entry R entry es) es
  unfolding remove_entry
  remove_entry-perm entry [] m = elim m [ ]
  remove_entry-perm entry (e ∷ es) m =
      taken_out-perm entry e (Value-discrete (obj entry) (obj e)) es (remove_entry R entry es) m
        (remove_entry-perm entry es)

module _ (R : Runtime) (unknown : Float) where
  -- What one round of the loop did: it chose an unbeaten entry and went on with the others.
  record Round (score : Fields → Result Key) (slots : ℕ) (remaining : List Fields)
      (asns subnets : Counter) (ranked out : List Fields) : Type 0 where
    winner : Fields
    top : Key
    found : Memᴰ winner remaining
    scored : score winner ≡ ok top
    unbeaten : Unbeaten R score top remaining
    continues :
        rank_loop R unknown slots
          (remove_entry R winner remaining)
          (count_option asns (asn_key R (with_scores R winner top)))
          (count_option subnets (subnet_key R (with_scores R winner top)))
          (ranked ++ with_scores R winner top ∷ [])
        ≡ ok out

  module _ (L : IsFloatOrder R) where
    round_lem :
        (slots : ℕ) (entry : Fields) (entries : List Fields) (asns subnets : Counter)
        (ranked out : List Fields)
        → rank_loop R unknown (suc slots) (entry ∷ entries) asns subnets ranked ≡ ok out
        → Round
            (adjusted_score R unknown asns subnets)
            slots
            (entry ∷ entries)
            asns
            subnets
            ranked
            out
    unfolding rank_loop
    round_lem slots entry entries asns subnets ranked out h =
        let score = adjusted_score R unknown asns subnets in
        let (first, scored, h₁) = >>=-eq-ok (score entry) _ h in
        let (won, chosen, h₂) = >>=-eq-ok (best R score entry first entries) _ h₁ in
        let (key, again, h₃) = >>=-eq-ok (score won.0) _ h₂ in
        let b = best_lem R L score entry first entries won.0 won.1 scored chosen in
        let same : won.1 ≡ key = ok_injective (sym b.scored ∙ again) in
        record {
          winner = won.0;
          top = key;
          found = b.found;
          scored = again;
          unbeaten =
              subst (λ k. Unbeaten R score k (entry ∷ entries)) same
                ((first, scored, not_above_top R L score won.1 first b.above), b.unbeaten);
          continues = h₃;
        }

    pub rank_loop-IsGreedy :
        (slots : ℕ) (remaining : List Fields) (asns subnets : Counter)
        (ranked history out : List Fields)
        → Counts asns (map (asn_key R) history)
        → Counts subnets (map (subnet_key R) history)
        → rank_loop R unknown slots remaining asns subnets ranked ≡ ok out
        → (tail : List Fields) × (out ≡ ranked ++ tail)
          × IsGreedy R unknown slots remaining history tail
    unfolding rank_loop
    rank_loop-IsGreedy zero remaining asns subnets ranked history out ca cs h =
        ([], cc (append-nil ranked), inl refl)
    rank_loop-IsGreedy (suc slots) [] asns subnets ranked history out ca cs h =
        ([], cc (append-nil ranked), inr refl)
    rank_loop-IsGreedy (suc slots) (entry ∷ entries) asns subnets ranked history out ca cs h =
        let r = round_lem slots entry entries asns subnets ranked out h in
        let selected = with_scores R r.winner r.top in
        let fair : adjusted_score R unknown asns subnets ≡ fair_score R unknown history =
          fun_ext λ e. adjusted_score-eq-fair_score R unknown asns subnets history e ca cs in
        let (tail, e, greedy) =
          rank_loop-IsGreedy slots (remove_entry R r.winner (entry ∷ entries))
            (count_option asns (asn_key R selected)) (count_option subnets (subnet_key R selected))
            (ranked ++ selected ∷ []) (r.winner ∷ history) out
            (rw asn_key-with_scores (Counts-count_option asns _ (asn_key R r.winner) ca))
            (rw subnet_key-with_scores (Counts-count_option subnets _ (subnet_key R r.winner) cs))
            r.continues in
        (
          selected ∷ tail,
          e ∙ append_assoc ranked (selected ∷ []) tail,
          (
            r.winner,
            remove_entry R r.winner (entry ∷ entries),
            r.top,
            slots,
            refl,
            remove_entry-perm R r.winner (entry ∷ entries) r.found,
            subst (λ (s : Fields → Result Key). s r.winner ≡ ok r.top) fair r.scored,
            subst (λ s. Unbeaten R s r.top (entry ∷ entries)) fair r.unbeaten,
            refl,
            greedy,
          ),
        )
