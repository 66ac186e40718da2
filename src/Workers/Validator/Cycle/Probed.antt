-- ===== src/Workers/Validator/Cycle/Probed.antt =====
-- The probes of a cycle of validator/validator.py, one by one.
use transparent_gateway.Prelude.{ℕ, suc, ◌≡◌, subst, Option, List, [], ◌∷◌, Text}
use transparent_gateway.Python.{Result, ok, >>=-eq-ok, ok_injective, Value, Fields, Runtime}
use transparent_gateway.Credentials.{CredentialStore}
use transparent_gateway.Sources.Candidate.{ProxyCandidate}
use transparent_gateway.Asn.{AsnResolver}
use transparent_gateway.Probe.Anonymity.{SplitUrl}
use transparent_gateway.Workers.Validator.{probe}
use transparent_gateway.Workers.Validator.Cycle.{Place, place_for, Surroundings, check_all}

module _ (R : Runtime) (urlsplit : Text → Result SplitUrl) (loads : Text → Option Value)
    (sha256 : Text → Text) (s : Surroundings) (lab : Option Place) (usual : Place)
    (resolver : AsnResolver) where
  -- The probe of the n-th candidate at its place, and the store behind it.
  abbrev pub probe_of :
      CredentialStore → ℕ → ProxyCandidate → Result (Option Fields) × CredentialStore
  probe_of store n c =
      probe R loads sha256 store (s.encounter n) c (place_for lab usual c).target
        (place_for lab usual c).identities resolver

  -- A result for each candidate, in their order: what its probe gives.
  pub ArePassed : CredentialStore → ℕ → List ProxyCandidate → List (Option Fields) → Type 0
  ArePassed store n [] [] = Unit {0}
  ArePassed store n (c ∷ cs) (r ∷ rs) =
      ((probe_of store n c).0 ≡ ok r) × ArePassed (probe_of store n c).1 (suc n) cs rs
  ArePassed store n [] (r ∷ rs) = ⊥
  ArePassed store n (c ∷ cs) [] = ⊥

  pub check_all-ArePassed :
      (store : CredentialStore) (n : ℕ) (cs : List ProxyCandidate) (rs : List (Option Fields))
      → check_all R urlsplit loads sha256 s lab usual resolver store n cs ≡ ok rs
      → ArePassed store n cs rs
  unfolding check_all ArePassed
  check_all-ArePassed store n [] rs h = subst (ArePassed store n []) (ok_injective h) tt
  check_all-ArePassed store n (c ∷ cs) rs h =
      let (r, probed, h₁) = >>=-eq-ok (probe_of store n c).0 _ h in
      let (others, checked, h₂) =
        >>=-eq-ok
          (check_all R urlsplit loads sha256 s lab usual resolver (probe_of store n c).1 (suc n) cs)
          _ h₁ in
      subst (ArePassed store n (c ∷ cs)) (ok_injective h₂)
        (probed, check_all-ArePassed (probe_of store n c).1 (suc n) cs others checked)
