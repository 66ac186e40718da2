-- ===== src/Ranking/Order.antt =====
-- The comparison of score tuples, and what `max(remaining, key=adjusted_score)` returns.
use mathlib.Core.List.{Memᴰ}
use transparent_gateway.Prelude.{
  ◌≡◌, Bool, true, false, List, [], ◌∷◌, arith, if◌then◌else◌, ◌⊎◌, inl, inr, Bool-cases, All,
}
use transparent_gateway.Python.{
  Float, Result, ok, >>=-eq-ok, Fields, Runtime, IsFloatOrder, text_lt_irrefl, text_lt_trans,
}
use transparent_gateway.Ranking.{Key, key_gt, best}

mem_skip : {w x y : Fields} {xs : List Fields} → Memᴰ w (x ∷ xs) → Memᴰ w (x ∷ y ∷ xs)
mem_skip (Memᴰ.head e) = Memᴰ.head e
mem_skip (Memᴰ.tail m) = Memᴰ.tail (Memᴰ.tail m)

module _ (R : Runtime) (score : Fields → Result Key) where
  -- Every entry has a key, and none of the keys is above `top`.
  abbrev pub Unbeaten : Key → List Fields → Type 0
  Unbeaten top es = All (λ e. (k : Key) × (score e ≡ ok k) × (key_gt R k top ≡ false)) es

module _ (R : Runtime) (L : IsFloatOrder R) where
  pub key_gt_irrefl : (k : Key) → key_gt R k k ≡ false
  unfolding key_gt
  key_gt_irrefl k = ground (arith, L.lt_irrefl k.final, L.lt_irrefl k.raw, text_lt_irrefl k.address)

  abbrev lex : Float → Float → Bool → Bool
  lex a b tie = if R.eq a b then tie else R.lt b a

  lex_trans :
      (a b c : Float) (s t u : Bool)
      → lex a b s ≡ true
      → lex b c t ≡ true
      → (s ≡ true → t ≡ true → u ≡ true)
      → lex a c u ≡ true
  lex_trans a b c s t u p q h = elim (Bool-cases (R.eq a b)) [
    | inl e ↦ elim (Bool-cases (R.eq b c)) [
      | inl f ↦ rw (L.eq_trans a b c e f) (h (rw e at p) (rw f at q))
      | inr f ↦
          let below : R.lt c a ≡ true = L.lt-eq c b a (rw f at q) (rw L.eq_sym e) in
          rw (L.eq_sym a c, L.lt_ne c a below) below
    ]
    | inr e ↦ elim (Bool-cases (R.eq b c)) [
      | inl f ↦
          let below : R.lt c a ≡ true = L.eq-lt c b a (rw L.eq_sym f) (rw e at p) in
          rw (L.eq_sym a c, L.lt_ne c a below) below
      | inr f ↦
          let below : R.lt c a ≡ true = L.lt_trans c b a (rw f at q) (rw e at p) in
          rw (L.eq_sym a c, L.lt_ne c a below) below
    ]
  ]

  pub key_gt_trans : (k l m : Key) → key_gt R k l ≡ true → key_gt R l m ≡ true → key_gt R k m ≡ true
  unfolding key_gt
  key_gt_trans k l m p q = lex_trans k.final l.final m.final _ _ _ p q λ p' q'.
      lex_trans k.raw l.raw m.raw _ _ _ p' q'
        λ p'' q''. text_lt_trans m.address l.address k.address q'' p''

  module _ (score : Fields → Result Key) where
    Unbeaten-mono :
        (low high : Key) (es : List Fields)
        → key_gt R high low ≡ true
        → Unbeaten R score low es
        → Unbeaten R score high es
    Unbeaten-mono low high [] g u = tt
    Unbeaten-mono low high (e ∷ es) g ((k, scored, not_above), u) = (
      (
        k,
        scored,
        elim (Bool-cases (key_gt R k high)) [
          | inl above ↦ cc (key_gt_trans k high low above g)
          | inr fine ↦ fine
        ],
      ),
      Unbeaten-mono low high es g u,
    )

    -- `top` is `key`, or above it.
    abbrev pub AtLeast : Key → Key → Type 0
    AtLeast top key = (top ≡ key) ⊎ (key_gt R top key ≡ true)

    AtLeast-Unbeaten :
        (top key : Key) (es : List Fields)
        → AtLeast top key
        → Unbeaten R score key es
        → Unbeaten R score top es
    AtLeast-Unbeaten top key es (inl same) u = rw same u
    AtLeast-Unbeaten top key es (inr above) u = Unbeaten-mono key top es above u

    AtLeast-trans : (a b c : Key) → AtLeast a b → AtLeast b c → AtLeast a c
    AtLeast-trans a b c (inl e) q = rw e q
    AtLeast-trans a b c (inr g) (inl e) = inr (rw (← e) g)
    AtLeast-trans a b c (inr g) (inr g') = inr (key_gt_trans a b c g g')

    pub not_above_top : (top key : Key) → AtLeast top key → key_gt R key top ≡ false
    not_above_top top key (inl e) = rw e (key_gt_irrefl key)
    not_above_top top key (inr g) = elim (Bool-cases (key_gt R key top)) [
      | inl above ↦ cc (key_gt_trans top key top g above, key_gt_irrefl top)
      | inr fine ↦ fine
    ]

    -- What is known of a winner of `best`.
    pub record IsBest (champion : Fields) (key : Key) (es : List Fields) (winner : Fields)
        (top : Key) : Type 0 where
      pub found : Memᴰ winner (champion ∷ es)
      pub scored : score winner ≡ ok top
      pub above : AtLeast top key
      pub unbeaten : Unbeaten R score top es

    pub best_lem :
        (champion : Fields) (key : Key) (es : List Fields) (winner : Fields) (top : Key)
        → score champion ≡ ok key
        → best R score champion key es ≡ ok (winner, top)
        → IsBest champion key es winner top
    unfolding best
    best_lem champion key [] winner top scored h =
        let first : winner ≡ champion = cc in
        let same : top ≡ key = cc in
        record { found = Memᴰ.head first; scored = cc; above = inl same; unbeaten = tt }
    best_lem champion key (e ∷ es) winner top scored h =
        let (k, scored_e, h') = >>=-eq-ok (score e) _ h in
        elim (Bool-cases (key_gt R k key)) [
          | inl won ↦
              let ih = best_lem e k es winner top scored_e (rw won at h') in
              record {
                found = Memᴰ.tail ih.found;
                scored = ih.scored;
                above = AtLeast-trans top k key ih.above (inr won);
                unbeaten = ((k, scored_e, not_above_top top k ih.above), ih.unbeaten);
              }
          | inr lost ↦
              let ih = best_lem champion key es winner top scored (rw lost at h') in
              record {
                found = mem_skip ih.found;
                scored = ih.scored;
                above = ih.above;
                unbeaten = (
                  (AtLeast-Unbeaten top key (e ∷ []) ih.above ((k, scored_e, lost), tt)).0,
                  ih.unbeaten,
                );
              }
        ]
