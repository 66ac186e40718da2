-- ===== src/Relay/Handshake/Secrets.antt =====
-- What the SOCKS5 handshake of gateway/egress_relay.py sends to a proxy that does not ask for the
-- user name and the password.
use transparent_gateway.Prelude.{
  ℕ, ◌≡◌, ◌≢◌, refl, false, some, [], ◌∷◌, ◌++◌, Text, leb, text_eq, text_beq, text_beq_iff, take,
  length, Bool-cases, inl, inr,
}
use transparent_gateway.Python.{Result, ok, err, Runtime}
use transparent_gateway.Wire.{Conn, Wire, ◌>>◌, continue, read_exactly}
use transparent_gateway.Relay.Handshake.{
  socks5_methods, socks5_wanted, socks5_greet, socks5_login, socks5_request, socks5_connect,
}

abbrev pub HasFailed : Result (Unit {0}) × Conn → Text → Type 0
HasFailed r sent = ((a : Unit {0}) → r.0 ≢ ok a) × (r.1.sent ≡ sent)

code_differs : (b : Text) → b ≢ 5 ∷ 2 ∷ [] → text_beq b (5 ∷ 2 ∷ []) ≡ false
code_differs b h = elim (Bool-cases (text_beq b (5 ∷ 2 ∷ []))) [
  | inl e ↦ absurd (h ((text_beq_iff b (5 ∷ 2 ∷ [])).0 e))
  | inr e ↦ e
]

greet_refused :
    (user password : Text) (c : Conn)
    → take 2 c.incoming ≢ 5 ∷ 2 ∷ []
    → HasFailed (socks5_greet (some (user, password)) c) (c.sent ++ 5 ∷ 2 ∷ 0 ∷ 2 ∷ [])
unfolding socks5_greet socks5_methods socks5_wanted read_exactly
greet_refused user password c refused = elim (Bool-cases (leb 2 (length c.incoming))) [
  | inl long ↦ rw (long, code_differs (take 2 c.incoming) refused) (λ a e. cc, refl)
  | inr short ↦ rw short (λ a e. cc, refl)
]

-- An error ends what is chained to it.
pub failed-continue :
    (r : Result (Unit {0})) (next : Unit {0} → Wire (Unit {0})) (c : Conn) (sent : Text)
    → HasFailed (r, c) sent
    → HasFailed (continue r next c) sent
failed-continue (ok a) next c sent h = absurd (h.0 a refl)
failed-continue (err e) next c sent h = h

-- With a user name and a password, a proxy that answers the greeting by anything but the choice of
-- that method gets the greeting and nothing more, and the handshake fails.
pub socks5_connect-refused :
    (R : Runtime) (user password host : Text) (port : ℕ) (c : Conn)
    → take 2 c.incoming ≢ 5 ∷ 2 ∷ []
    → ((a : Unit {0}) → (socks5_connect R (some (user, password)) host port c).0 ≢ ok a)
      × ((socks5_connect R (some (user, password)) host port c).1.sent
          ≡ c.sent ++ 5 ∷ 2 ∷ 0 ∷ 2 ∷ [])
unfolding socks5_connect
socks5_connect-refused R user password host port c refused =
    let greeted = socks5_greet (some (user, password)) c in
    failed-continue greeted.0
      (λ _. socks5_login (some (user, password)) >> socks5_request R host port) greeted.1
      (c.sent ++ 5 ∷ 2 ∷ 0 ∷ 2 ∷ []) (greet_refused user password c refused)
