-- ===== src/Sources/Candidate/Valid.antt =====
-- What every candidate satisfies that `parse_candidate` of validator/sources/base.py returns.
use transparent_gateway.Prelude.{
  ◌≤◌, ◌≡◌, ◌≢◌, subst, ◌∙◌, true, false, Option, none, some, [], ◌∷◌, arith, Text, str, ◌==◌,
  text_eq, text_beq, text_beq_iff, contains, if-cases, inl, inr,
}
use transparent_gateway.Prelude.Int.{ℤ, pos_part}
use transparent_gateway.Python.{
  value_error, ok, >>=-eq-ok, raise_if, ok_injective, raise_if-eq-ok, Value, Fields, get, truthy,
  is_null, Runtime, to_str, strip,
}
use transparent_gateway.Sources.Candidate.{
  ProxyCandidate, allowed_protocols, is_text_map, text_map, read_metadata, is_refused, is_no_port,
  complete, normalise_host, read_location, text_or, read_reference, parse_candidate,
}

module _ (R : Runtime) where
  -- A candidate as the parser promises it: a normalised host, a port that exists, an allowed
  -- protocol, a source, a reference that is not blank and metadata of texts.
  pub record IsValid (c : ProxyCandidate) : Type 0 where
    pub low : 1 ≤ c.port
    pub high : c.port ≤ 65535
    pub allowed : contains allowed_protocols c.protocol ≡ true
    pub named : c.source ≢ []
    pub normal : (raw : Text) × (normalise_host R raw ≡ ok c.host)
    pub referenced : (r : Text) → c.credential_ref ≡ some r → strip r ≢ []
    pub texts : is_text_map c.metadata ≡ true

  text_map-is_text_map : (o : Option Fields) (d : Fields) → text_map o ≡ ok d → is_text_map d ≡ true
  unfolding text_map
  text_map-is_text_map none d h = cc
  text_map-is_text_map (some e) d h = elim (if-cases (is_text_map e) h) [
    | inl (texts, same) ↦ subst (λ f. is_text_map f ≡ true) (ok_injective same) texts
    | inr (_, refused) ↦ cc
  ]

  read_reference-strip :
      (v : Value) (o : Option Text) (r : Text)
      → read_reference R v ≡ ok o
      → o ≡ some r
      → strip r ≢ []
  unfolding read_reference
  read_reference-strip v o r h e blank = elim (if-cases (is_null v) h) [
    | inl (_, absent) ↦ cc
    | inr (_, given) ↦ elim (if-cases (strip (to_str R v) == []) given) [
      | inl (_, refused) ↦ cc
      | inr (shown, kept) ↦ elim (if-cases (truthy v) (ok_injective kept)) [
        | inl (_, same) ↦
            let text_r : some (to_str R v) ≡ some r = same ∙ e in
            let blank_v : strip (to_str R v) ≡ [] = cc in
            ground (arith, shown, (text_beq_iff (strip (to_str R v)) []).1 blank_v)
        | inr (_, same) ↦ cc
      ]
    ]
  ]

  port_range : (n : ℤ) → is_no_port n ≡ false → (1 ≤ pos_part n) × (pos_part n ≤ 65535)
  unfolding is_no_port
  port_range n h = ground arith

  named_protocol :
      (protocol source : Text)
      → is_refused protocol source ≡ false
      → (contains allowed_protocols protocol ≡ true) × (source ≢ [])
  unfolding is_refused text_beq
  named_protocol protocol [] h = ground arith
  named_protocol protocol (c ∷ source) h = ground arith

  complete-IsValid :
      (location : Text × ℤ) (protocol source : Text) (reference_value metadata_value : Value)
      (c : ProxyCandidate)
      → complete R location protocol source reference_value metadata_value ≡ ok c
      → IsValid c
  unfolding complete read_metadata
  complete-IsValid location protocol source reference_value metadata_value c h =
      let (_, allowed, h₁) = >>=-eq-ok (raise_if (is_refused protocol source) value_error) _ h in
      let (host, normal, h₂) = >>=-eq-ok (normalise_host R location.0) _ h₁ in
      let (_, ranged, h₃) = >>=-eq-ok (raise_if (is_no_port location.1) value_error) _ h₂ in
      let (reference, referenced, h₄) = >>=-eq-ok (read_reference R reference_value) _ h₃ in
      let (metadata, texts, h₅) = >>=-eq-ok (read_metadata metadata_value) _ h₄ in
      let (low, high) = port_range location.1 (raise_if-eq-ok _ _ ranged) in
      let (known, named) = named_protocol protocol source (raise_if-eq-ok _ _ allowed) in
      subst IsValid (ok_injective h₅) (record {
        low = low;
        high = high;
        allowed = known;
        named = named;
        normal = (location.0, normal);
        referenced = λ r e. read_reference-strip reference_value reference r referenced e;
        texts = text_map-is_text_map _ metadata texts;
      })

  -- What `parse_candidate` returns has a normalised host, a port that exists, an allowed protocol, a
  -- source, no blank reference and metadata of texts only.
  pub parse_candidate-IsValid :
      (value : Fields) (default_source : Text) (c : ProxyCandidate)
      → parse_candidate R value default_source ≡ ok c
      → IsValid c
  unfolding parse_candidate
  parse_candidate-IsValid value default_source c h =
      let (location, _, h₁) =
        >>=-eq-ok
          (read_location R (strip (text_or R value (str "endpoint") []))
            (strip (text_or R value (str "host") [])) (get value (str "port")))
          _ h in
      complete-IsValid location _ _ _ _ c h₁
