-- ===== src/Workers/Fetcher/Handover.antt =====
-- What the validator reads of what the fetcher publishes.
use transparent_gateway.Prelude.{◌≡◌, refl, ap, some, List, [], ◌∷◌, map, str, All, text_beq}
use transparent_gateway.Prelude.Int.{ℤ}
use transparent_gateway.Python.{ok, Value, obj, items, of_items, get, lookup, as_list, Runtime}
use transparent_gateway.Sources.Candidate.{ProxyCandidate, snapshot_without_validation}
use transparent_gateway.Sources.Candidate.RoundTrip.{IsCanonical, parse_candidate-snapshot}
use transparent_gateway.Sources.Connectors.{yield_candidate}
use transparent_gateway.Workers.Fetcher.{raw_snapshot, read_candidates}

module _ (R : Runtime) where
  items-of_items : (vs : List Value) → items (of_items vs) ≡ vs
  items-of_items [] = refl
  items-of_items (v ∷ vs) = ap (λ xs. v ∷ xs) (items-of_items vs)

  read_candidates-snapshots :
      (cs : List ProxyCandidate)
      → All (IsCanonical R) cs
      → read_candidates R (map (λ c. obj (snapshot_without_validation c)) cs) ≡ ok cs
  unfolding read_candidates yield_candidate
  read_candidates-snapshots [] h = refl
  read_candidates-snapshots (c ∷ cs) h =
      rw (parse_candidate-snapshot R c (str "fetcher") h.0, read_candidates-snapshots cs h.1) refl

  -- The entries of a raw snapshot of canonical candidates are a list, and the validator reads it back
  -- as these candidates, in their order.
  pub read_candidates-raw_snapshot :
      (now : ℤ) (cs : List ProxyCandidate)
      → All (IsCanonical R) cs
      → (vs : List Value) × (as_list (get (raw_snapshot now cs) (str "entries")) ≡ some vs)
        × (read_candidates R vs ≡ ok cs)
  unfolding raw_snapshot get lookup str text_beq
  read_candidates-raw_snapshot now cs h = (
    map (λ c. obj (snapshot_without_validation c)) cs,
    ap some (items-of_items (map (λ c. obj (snapshot_without_validation c)) cs)),
    read_candidates-snapshots cs h,
  )
