-- ===== src/Probe/Anonymity/Verdict.antt =====
-- When `classify_anonymity` of validator/proxy_probe.py accepts an observation.
use transparent_gateway.Prelude.{
  ◌≡◌, ◌≢◌, Bool, false, some, List, [], ◌∷◌, arith, Text, str, text_eq, contains, any, All,
  if-cases, inl, inr, if◌then◌else◌,
}
use transparent_gateway.Python.{
  value_error, ok, >>=-eq-ok, ok_injective, raise_if, raise_if-eq-ok, Runtime,
}
use transparent_gateway.Relay.Handshake.{holds}
use transparent_gateway.Probe.Anonymity.{
  EchoObservation, leak_headers, normal_identities, header, leaks, is_marked, level, verdict,
  is_none, classify_anonymity,
}

none_of :
    {A : Type 0} (test : A → Bool) (xs : List A)
    → any test xs ≡ false
    → All (λ x. test x ≡ false) xs
none_of test [] h = tt
none_of test (x ∷ xs) h = (ground (arith, h), none_of test xs (ground (arith, h)))

All-map :
    {A : Type 0} {P Q : A → Type 0} → ((x : A) → P x → Q x) → (xs : List A) → All P xs → All Q xs
All-map f [] h = tt
All-map f (x ∷ xs) h = (f x h.0, All-map f xs h.1)

module _ (R : Runtime) where
  -- No leak header holds one of the identities.
  abbrev pub NoLeak : List Text → EchoObservation → Type 0
  NoLeak identities observation =
      All (λ name. All (λ i. holds i (header R observation name) ≡ false) identities) leak_headers

  leaks-NoLeak :
      (identities : List Text) (observation : EchoObservation)
      → leaks R identities observation ≡ false
      → NoLeak identities observation
  unfolding leaks
  leaks-NoLeak identities observation h =
      All-map (λ name e. none_of (λ i. holds i (header R observation name)) identities e)
        leak_headers
        (none_of (λ name. any (λ i. holds i (header R observation name)) identities) leak_headers h)

  verdict-eq-some :
      (identities : List Text) (observation : EchoObservation) (found : Text)
      → verdict R identities observation ≡ some found
      → (contains identities observation.peer ≡ false)
        × NoLeak identities observation
        × (found ≡ level R observation)
  unfolding verdict
  verdict-eq-some identities observation found h =
      elim (if-cases (contains identities observation.peer) h) [
        | inl (_, refused) ↦ cc
        | inr (foreign, h₁) ↦ elim (if-cases (leaks R identities observation) h₁) [
          | inl (_, refused) ↦ cc
          | inr (tight, same) ↦ (foreign, leaks-NoLeak identities observation tight, cc)
        ]
      ]

  is_none-ne : (xs : List Text) → is_none xs ≡ false → xs ≢ []
  unfolding is_none
  is_none-ne [] h = cc
  is_none-ne (x ∷ xs) h = λ e. cc

  -- An observation that is accepted was made for at least one direct identity, all of them
  -- addresses; its peer is none of them, no leak header holds one of them, and its level says
  -- whether a header betrays a proxy.
  pub classify_anonymity-eq-some :
      (observation : EchoObservation) (direct_identities : List Text) (found : Text)
      → classify_anonymity R observation direct_identities ≡ ok (some found)
      → (identities : List Text) × (normal_identities R direct_identities ≡ ok identities)
        × (identities ≢ [])
        × (contains identities observation.peer ≡ false)
        × NoLeak identities observation
        × (found ≡ (if is_marked R observation then str "anonymous" else str "elite"))
  unfolding classify_anonymity level
  classify_anonymity-eq-some observation direct_identities found h =
      let (identities, normal, h₁) = >>=-eq-ok (normal_identities R direct_identities) _ h in
      let (_, some_identity, h₂) = >>=-eq-ok (raise_if (is_none identities) value_error) _ h₁ in
      let (foreign, tight, same) = verdict-eq-some identities observation found (ok_injective h₂) in
      (
        identities,
        normal,
        is_none-ne identities (raise_if-eq-ok _ _ some_identity),
        foreign,
        tight,
        same,
      )
