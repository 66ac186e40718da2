-- ===== src/Sources/Candidate/RoundTrip.antt =====
-- A candidate of validator/sources/base.py is read back from its snapshot.
use transparent_gateway.Prelude.{
  ℕ, ◌≤◌, ◌≡◌, ◌≢◌, refl, ◌∙◌, true, false, Option, none, some, [], ◌∷◌, ◌++◌, arith, append_assoc,
  Text, str, ltb, nat_eq, text_eq, text_beq, text_beq_iff, eq_self, contains, any, All-contains,
  Bool-cases, inl, inr,
}
use transparent_gateway.Prelude.Int.{pos, int_eq}
use transparent_gateway.Python.{
  ok, Fields, int, text, obj, end, field, get, lookup, truthy, value_or, Runtime, to_str, to_int,
  is_space, is_digit, strip, lower, startswith, count_char, count_char-append, split_first-append,
  split_last-append, print_nat, parse_int-print_nat, print_nat-count_char, print_nat-AllDigits,
  any-append, digits-no_space, strip-no_space,
}
use transparent_gateway.Sources.Candidate.{
  ProxyCandidate, allowed_protocols, endpoint_of, endpoint, snapshot_without_validation,
  reference_value, with_port, behind_bracket, endpoint_parts, split_endpoint, port_result,
  is_text_map, text_map, read_metadata, is_refused, is_no_port, normalise_host, check_host,
  check_port, read_location, text_or, read_reference, complete, parse_candidate,
}

-- A host without a space or a closing bracket, that does not begin with an opening one.
pub record IsHost (host : Text) : Type 0 where
  pub nonempty : host ≢ []
  pub no_space : any is_space host ≡ false
  pub closed : count_char b']' host ≡ 0
  pub opened : startswith host (b'[' ∷ []) ≡ false

endpoint_parts-bracketed :
    (host port : Text)
    → count_char b']' host ≡ 0
    → endpoint_parts ((b'[' ∷ (host ++ b']' ∷ [])) ++ b':' ∷ port) ≡ ok (host, port)
unfolding endpoint_parts behind_bracket startswith
endpoint_parts-bracketed host port closed =
    rw
      (
        append_assoc host (b']' ∷ []) (b':' ∷ port),
        split_first-append b']' host (b':' ∷ port) closed,
      )
      refl

endpoint_parts-plain :
    (host port : Text)
    → IsHost host
    → count_char b':' host ≡ 0
    → count_char b':' port ≡ 0
    → endpoint_parts (host ++ b':' ∷ port) ≡ ok (host, port)
unfolding endpoint_parts startswith count_char
endpoint_parts-plain [] port h plain digits = absurd (h.nonempty refl)
endpoint_parts-plain (c ∷ host) port h plain digits = ground (
  arith,
  h.opened,
  count_char-append b':' (c ∷ host) (b':' ∷ port),
  split_last-append b':' (c ∷ host) port digits,
)

-- An endpoint is split into the host and the port that it was made of.
split_endpoint-endpoint_of :
    (host : Text) (port : ℕ)
    → IsHost host
    → split_endpoint (endpoint_of host port) ≡ ok (host, pos port)
unfolding split_endpoint endpoint_of with_port is_digit
split_endpoint-endpoint_of host port h = elim (Bool-cases (ltb 0 (count_char b':' host))) [
  | inl colon ↦
      rw (colon, endpoint_parts-bracketed host (print_nat port) h.closed, parse_int-print_nat port)
        refl
  | inr plain ↦
      rw
        (
          plain,
          endpoint_parts-plain host (print_nat port) h (ground (arith, plain))
              (print_nat-count_char b':' port refl),
          parse_int-print_nat port,
        )
        refl
]

endpoint_of-no_space :
    (host : Text) (port : ℕ)
    → any is_space host ≡ false
    → any is_space (endpoint_of host port) ≡ false
unfolding endpoint_of is_space
endpoint_of-no_space host port h = elim (Bool-cases (ltb 0 (count_char b':' host))) [
  | inl colon ↦ rw colon (
      any-append is_space (host ++ b']' ∷ []) (b':' ∷ print_nat port)
      ∙ ground (
        arith,
        any-append is_space host (b']' ∷ []),
        h,
        digits-no_space (print_nat port) (print_nat-AllDigits port),
      ))
  | inr plain ↦ rw plain (
      any-append is_space host (b':' ∷ print_nat port)
      ∙ ground (arith, h, digits-no_space (print_nat port) (print_nat-AllDigits port)))
]

text_beq-ne : (s t : Text) → s ≢ t → text_beq s t ≡ false
text_beq-ne s t h = ground (arith, text_beq_iff s t, h)

append-ne-nil : (s : Text) (c : ℕ) (t : Text) → s ++ c ∷ t ≢ []
append-ne-nil [] c t h = cc
append-ne-nil (d ∷ s) c t h = cc

endpoint_of-ne-nil : (host : Text) (port : ℕ) → endpoint_of host port ≢ []
unfolding endpoint_of
endpoint_of-ne-nil host port h = append-ne-nil _ b':' (print_nat port) h

port_in_range : (n : ℕ) → 1 ≤ n → n ≤ 65535 → is_no_port (pos n) ≡ false
unfolding is_no_port
port_in_range n low high = ground arith

allowed-trimmed : (p : Text) → contains allowed_protocols p ≡ true → lower (strip p) ≡ p
unfolding lower strip str allowed_protocols
allowed-trimmed =
    All-contains (λ p. lower (strip p) ≡ p) allowed_protocols (refl, (refl, (refl, (refl, tt))))

allowed-ne-nil : (p : Text) → contains allowed_protocols p ≡ true → p ≢ []
unfolding str allowed_protocols
allowed-ne-nil =
    All-contains (λ p. p ≢ []) allowed_protocols (λ e. cc, (λ e. cc, (λ e. cc, (λ e. cc, tt))))

read_metadata-own : (d : Fields) → is_text_map d ≡ true → read_metadata (obj d) ≡ ok d
unfolding read_metadata text_map value_or truthy
read_metadata-own end h = rw h refl
read_metadata-own (field k v d) h = rw h refl

module _ (R : Runtime) where
  -- A candidate that can be read back: its host is the normal form of itself, its protocol is
  -- allowed, no text of it is blank or has spaces around it.
  pub record IsCanonical (c : ProxyCandidate) : Type 0 where
    pub host : IsHost c.host
    pub normal : normalise_host R c.host ≡ ok c.host
    pub low : 1 ≤ c.port
    pub high : c.port ≤ 65535
    pub allowed : contains allowed_protocols c.protocol ≡ true
    pub named : c.source ≢ []
    pub trimmed : strip c.source ≡ c.source
    pub referenced : (r : Text) → c.credential_ref ≡ some r → strip r ≢ []
    pub texts : is_text_map c.metadata ≡ true

  read_location-own :
      (c : ProxyCandidate)
      → IsHost c.host
      → normalise_host R c.host ≡ ok c.host
      → read_location R (endpoint c) c.host (int (pos c.port)) ≡ ok (c.host, pos c.port)
  unfolding read_location check_host check_port endpoint to_int port_result
  read_location-own c h normal =
      rw
        (
          text_beq-ne (endpoint_of c.host c.port) [] (endpoint_of-ne-nil c.host c.port),
          split_endpoint-endpoint_of c.host c.port h,
          text_beq-ne c.host [] h.nonempty,
          normal,
          eq_self c.host,
          eq_self (pos c.port),
        )
        refl

  text_or_lem :
      (value : Fields) (key default s : Text)
      → get value key ≡ text s
      → s ≢ []
      → text_or R value key default ≡ s
  unfolding text_or to_str value_or truthy
  text_or_lem value key default [] h nonempty = absurd (nonempty refl)
  text_or_lem value key default (c ∷ s) h nonempty = rw h refl

  read_reference-own :
      (o : Option Text)
      → ((r : Text) → o ≡ some r → strip r ≢ [])
      → read_reference R (reference_value o) ≡ ok o
  unfolding read_reference reference_value to_str truthy strip
  read_reference-own none h = refl
  read_reference-own (some []) h = absurd (h [] refl refl)
  read_reference-own (some (c ∷ s)) h = rw (text_beq-ne (strip (c ∷ s)) [] (h (c ∷ s) refl)) refl

  complete-own :
      (c : ProxyCandidate)
      → IsCanonical c
      → complete R
          (c.host, pos c.port)
          c.protocol
          c.source
          (reference_value c.credential_ref)
          (obj c.metadata)
        ≡ ok c
  unfolding complete is_refused
  complete-own c h =
      rw
        (
          h.allowed,
          text_beq-ne c.source [] h.named,
          h.normal,
          port_in_range c.port h.low h.high,
          read_reference-own c.credential_ref h.referenced,
          read_metadata-own c.metadata h.texts,
        )
        refl

  -- The snapshot of a canonical candidate is read back as that candidate.
  pub parse_candidate-snapshot :
      (c : ProxyCandidate) (default_source : Text)
      → IsCanonical c
      → parse_candidate R (snapshot_without_validation c) default_source ≡ ok c
  unfolding parse_candidate snapshot_without_validation get lookup str text_beq endpoint
  parse_candidate-snapshot c default_source h =
      let value = snapshot_without_validation c in
      let own_endpoint =
        text_or_lem value (str "endpoint") [] (endpoint c) refl
          (endpoint_of-ne-nil c.host c.port) in
      let own_host = text_or_lem value (str "host") [] c.host refl h.host.nonempty in
      let own_protocol =
        text_or_lem value (str "protocol") [] c.protocol refl
          (allowed-ne-nil c.protocol h.allowed) in
      let own_source = text_or_lem value (str "source") default_source c.source refl h.named in
      rw
        (
          own_endpoint,
          own_host,
          own_protocol,
          own_source,
          strip-no_space (endpoint c) (endpoint_of-no_space c.host c.port h.host.no_space),
          strip-no_space c.host h.host.no_space,
          read_location-own c h.host h.normal,
          allowed-trimmed c.protocol h.allowed,
          h.trimmed,
        )
        (complete-own c h)
