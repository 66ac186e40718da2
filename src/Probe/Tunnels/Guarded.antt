-- ===== src/Probe/Tunnels/Guarded.antt =====
-- What the SOCKS5 tunnel of validator/proxy_probe.py sends to a proxy that refuses the method.
use transparent_gateway.Prelude.{
  ◌≡◌, ◌≢◌, refl, false, [], ◌∷◌, ◌++◌, arith, Text, leb, text_eq, text_beq, text_beq_iff, take,
  length, Bool-cases, inl, inr,
}
use transparent_gateway.Python.{ok, Runtime}
use transparent_gateway.Wire.{Conn, ◌>>◌, read_exactly}
use transparent_gateway.Credentials.{Auth}
use transparent_gateway.Relay.Handshake.Secrets.{HasFailed, failed-continue}
use transparent_gateway.Probe.Anonymity.{CheckTarget}
use transparent_gateway.Probe.Tunnels.{
  method_of, tunnel_greet, tunnel_login, tunnel_connect, socks5_tunnel,
}

answer_differs : (b c : Text) → b ≢ c → text_beq b c ≡ false
answer_differs b c h = ground (arith, text_beq_iff b c, h)

greet_guarded :
    (auth : Auth) (c : Conn)
    → take 2 c.incoming ≢ 5 ∷ method_of auth ∷ []
    → HasFailed (tunnel_greet auth c) (c.sent ++ 5 ∷ 1 ∷ method_of auth ∷ [])
unfolding tunnel_greet read_exactly
greet_guarded auth c refused = elim (Bool-cases (leb 2 (length c.incoming))) [
  | inl long ↦
      rw (long, answer_differs (take 2 c.incoming) (5 ∷ method_of auth ∷ []) refused)
        (λ a e. cc, refl)
  | inr short ↦ rw short (λ a e. cc, refl)
]

-- A proxy that does not answer the greeting by the one method offered there gets the greeting and
-- nothing more, neither a user name nor a request, and the tunnel fails.
pub socks5_tunnel-refused :
    (R : Runtime) (target : CheckTarget) (auth : Auth) (c : Conn)
    → take 2 c.incoming ≢ 5 ∷ method_of auth ∷ []
    → ((a : Unit {0}) → (socks5_tunnel R target auth c).0 ≢ ok a)
      × ((socks5_tunnel R target auth c).1.sent ≡ c.sent ++ 5 ∷ 1 ∷ method_of auth ∷ [])
unfolding socks5_tunnel
socks5_tunnel-refused R target auth c refused =
    let greeted = tunnel_greet auth c in
    failed-continue greeted.0 (λ _. tunnel_login auth >> tunnel_connect R target) greeted.1
      (c.sent ++ 5 ∷ 1 ∷ method_of auth ∷ []) (greet_guarded auth c refused)
