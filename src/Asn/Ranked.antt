-- ===== src/Asn/Ranked.antt =====
-- How validator/ranking.py reads the networks that validator/asn_resolver.py writes.
use transparent_gateway.Prelude.{
  ℕ, ◌≡◌, refl, sym, ap, subst, ◌∙◌, Bool, true, false, none, some, [], ◌∷◌, ◌++◌, arith, Text, str,
  text_beq, All, if◌then◌else◌,
}
use transparent_gateway.Prelude.Int.{ℤ, pos, negsuc, pos_part, ltb_ℤ}
use transparent_gateway.Python.{
  Value, Fields, int, obj, get, get_default, lookup, put, get-put, Runtime, Address, to_str,
  network_text, strip, upper, print_nat, print_nat-AllDigits, is_digit, is_space, strip-no_space,
  digits-no_space,
}
use transparent_gateway.Ranking.{asn_key, asn_of, is_verified, nonempty}
use transparent_gateway.Asn.{as_int, unknown_network, verified_network, network_for, network_of}

upper-digits : (s : Text) → All (λ c. is_digit c ≡ true) s → upper s ≡ s
unfolding upper is_digit
upper-digits [] h = refl
upper-digits (c ∷ s) h = ground (arith, upper-digits s h.1, h.0)

network_put :
    (R : Runtime) (entry network : Fields)
    → asn_key R (put entry (str "network") (obj network)) ≡ asn_of R (obj network)
unfolding asn_key str text_beq
network_put R entry network =
    ap (asn_of R) (get-put (str "network") (str "network") (obj network) entry)

-- An entry whose network is unknown counts as one without an ASN.
asn_key-unknown_network :
    (R : Runtime) (entry : Fields)
    → asn_key R (put entry (str "network") (obj unknown_network)) ≡ none
unfolding asn_of get lookup unknown_network str text_beq
asn_key-unknown_network R entry = network_put R entry unknown_network

plain_asn : (n : ℕ) → upper (strip (str "AS" ++ print_nat n)) ≡ str "AS" ++ print_nat n
unfolding str upper is_space
plain_asn n =
    ap upper (
      strip-no_space (str "AS" ++ print_nat n)
        (digits-no_space (print_nat n) (print_nat-AllDigits n)))
    ∙ ap (λ s. str "AS" ++ s) (upper-digits (print_nat n) (print_nat-AllDigits n))

-- An entry whose network is verified counts under the number of its ASN, whatever organisation and
-- prefix the database names.
asn_key-verified_network :
    (R : Runtime) (entry : Fields) (n : ℕ) (organization : Value) (prefix : Text)
    → asn_key R
        (put entry (str "network") (obj (verified_network R (int (pos n)) organization prefix)))
      ≡ some (str "AS" ++ print_nat n)
unfolding asn_of get get_default lookup verified_network is_verified nonempty to_str str text_beq
asn_key-verified_network R entry n organization prefix =
    network_put R entry (verified_network R (int (pos n)) organization prefix)
    ∙ ap (nonempty R) (plain_asn n)

asn_key-branch :
    (R : Runtime) (entry : Fields) (n : ℕ) (organization : Value) (prefix : Text) (b : Bool)
    → asn_key R (
        put entry (str "network") (
          obj
            (if b then unknown_network else verified_network R (int (pos n)) organization prefix)))
      ≡ (if b then none else some (str "AS" ++ print_nat n))
asn_key-branch R entry n organization prefix true = asn_key-unknown_network R entry
asn_key-branch R entry n organization prefix false =
    asn_key-verified_network R entry n organization prefix

asn_key-network_for :
    (R : Runtime) (entry : Fields) (n : ℤ) (organization : Value) (prefix : Text)
    → asn_key R
        (put entry (str "network") (obj (network_for R (some n) (int n) organization prefix)))
      ≡ (if ltb_ℤ n (pos 1) then none else some (str "AS" ++ print_nat (pos_part n)))
unfolding network_for
asn_key-network_for R entry (negsuc n) organization prefix =
    let below : ltb_ℤ (negsuc n) (pos 1) ≡ true = ground arith in
    subst
      (λ b.
        asn_key R (
          put entry (str "network") (
            obj (
              if b
              then unknown_network
              else verified_network R (int (negsuc n)) organization prefix)))
        ≡ (if b then none else some (str "AS" ++ print_nat 0)))
      (sym below) (asn_key-unknown_network R entry)
asn_key-network_for R entry (pos n) organization prefix =
    asn_key-branch R entry n organization prefix (ltb_ℤ (pos n) (pos 1))

-- Of a record with a whole number as its ASN the ranking reads that number if it is positive, and no
-- ASN otherwise.
pub asn_key-network_of :
    (R : Runtime) (entry found : Fields) (n : ℤ) (address : Address) (prefix_length : ℕ)
    → get found (str "autonomous_system_number") ≡ int n
    → asn_key R (put entry (str "network") (obj (network_of R (some found) address prefix_length)))
      ≡ (if ltb_ℤ n (pos 1) then none else some (str "AS" ++ print_nat (pos_part n)))
unfolding network_of as_int
asn_key-network_of R entry found n address prefix_length h =
    let organization = get found (str "autonomous_system_organization") in
    let prefix = network_text R address prefix_length in
    ap
      (λ v.
        asn_key R
          (put entry (str "network") (obj (network_for R (as_int v) v organization prefix))))
      h
    ∙ asn_key-network_for R entry n organization prefix
