-- ===== src/Ranking/Greedy/Counts.antt =====
-- The counters of the loop count the history, and writing the scores changes neither key.
use transparent_gateway.Prelude.{
  ◌+◌, ◌≡◌, refl, false, Option, none, some, List, [], ◌∷◌, map, arith, ap, Text, str, ◌==◌,
  text_eq, text_beq, text_beq_iff, if◌then◌else◌,
}
use transparent_gateway.Python.{
  Float, Fields, Value, text, lookup, get, get_default, lookup-put, Runtime,
}
use transparent_gateway.Ranking.{
  Key, Counter, counted, increment, count_option, asn_key, subnet_key, with_scores, adjusted_score,
  diversity_penalty, asn_of,
}
use transparent_gateway.Ranking.Greedy.{occurs, fair_score, fair_penalty, score_with}

counted-increment :
    (c : Counter) (j k : Text)
    → counted (increment c j) k ≡ (if j == k then counted c k + 1 else counted c k)
unfolding counted increment
counted-increment [] j k = ground arith
counted-increment ((i, n) ∷ c) j k =
    ground (arith, counted-increment c j k, text_beq_iff i j, text_beq_iff i k, text_beq_iff j k)

-- A counter that holds the occurrences of each key.
abbrev pub Counts : Counter → List (Option Text) → Type 0
Counts c keys = (k : Text) → counted c k ≡ occurs k keys

pub Counts-count_option :
    (c : Counter) (keys : List (Option Text)) (key : Option Text)
    → Counts c keys
    → Counts (count_option c key) (key ∷ keys)
unfolding occurs
Counts-count_option c keys none h k = h k
Counts-count_option c keys (some j) h k = ground (arith, counted-increment c j k, h k)

pub Counts-nil : Counts [] []
unfolding counted occurs
Counts-nil k = refl

module _ (R : Runtime) where
  diversity_penalty-eq-fair_penalty :
      (unknown : Float) (asns subnets : Counter) (history : List Fields) (asn subnet : Option Text)
      → Counts asns (map (asn_key R) history)
      → Counts subnets (map (subnet_key R) history)
      → diversity_penalty R unknown asns subnets asn subnet
        ≡ fair_penalty R unknown history asn subnet
  unfolding diversity_penalty fair_penalty
  diversity_penalty-eq-fair_penalty unknown asns subnets history none none ha hs = refl
  diversity_penalty-eq-fair_penalty unknown asns subnets history none (some k) ha hs =
      ground (arith, hs k)
  diversity_penalty-eq-fair_penalty unknown asns subnets history (some j) none ha hs =
      ground (arith, ha j)
  diversity_penalty-eq-fair_penalty unknown asns subnets history (some j) (some k) ha hs =
      ground (arith, ha j, hs k)

  pub adjusted_score-eq-fair_score :
      (unknown : Float) (asns subnets : Counter) (history : List Fields) (entry : Fields)
      → Counts asns (map (asn_key R) history)
      → Counts subnets (map (subnet_key R) history)
      → adjusted_score R unknown asns subnets entry ≡ fair_score R unknown history entry
  unfolding fair_score score_with adjusted_score
  adjusted_score-eq-fair_score unknown asns subnets history entry ha hs =
      ap (λ p. score_with R p entry)
        (diversity_penalty-eq-fair_penalty unknown asns subnets history (asn_key R entry)
          (subnet_key R entry) ha hs)

  module _ (entry : Fields) (key : Key) where
    abbrev Kept : Text → Type 0
    Kept k = lookup k (with_scores R entry key) ≡ lookup k entry

    lookup-with_scores :
        (k : Text)
        → text_beq (str "base_score") k ≡ false
        → text_beq (str "score") k ≡ false
        → Kept k
    unfolding with_scores
    lookup-with_scores k h h' = simp (lookup-put, h, h')

    get-Kept : (k : Text) → Kept k → get (with_scores R entry key) k ≡ get entry k
    unfolding get
    get-Kept k h = ground (arith, h)

    get_default-Kept :
        (k : Text) (v : Value)
        → Kept k
        → get_default (with_scores R entry key) k v ≡ get_default entry k v
    unfolding get_default
    get_default-Kept k v h = ground (arith, h)

    network-Kept : Kept (str "network")
    unfolding str text_beq
    network-Kept = lookup-with_scores (str "network") refl refl

    exit_ip-Kept : Kept (str "exit_ip")
    unfolding str text_beq
    exit_ip-Kept = lookup-with_scores (str "exit_ip") refl refl

    host-Kept : Kept (str "host")
    unfolding str text_beq
    host-Kept = lookup-with_scores (str "host") refl refl

    endpoint-Kept : Kept (str "endpoint")
    unfolding str text_beq
    endpoint-Kept = lookup-with_scores (str "endpoint") refl refl

    pub asn_key-with_scores : asn_key R (with_scores R entry key) ≡ asn_key R entry
    unfolding asn_key
    asn_key-with_scores = ap (asn_of R) (get-Kept (str "network") network-Kept)

    pub subnet_key-with_scores : subnet_key R (with_scores R entry key) ≡ subnet_key R entry
    unfolding subnet_key
    subnet_key-with_scores = cc (
      get-Kept (str "exit_ip") exit_ip-Kept,
      get-Kept (str "host") host-Kept,
      get_default-Kept (str "endpoint") (text []) endpoint-Kept,
    )
