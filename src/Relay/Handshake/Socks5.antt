-- ===== src/Relay/Handshake/Socks5.antt =====
-- The SOCKS5 handshake of gateway/egress_relay.py with a proxy that follows RFC 1928 and RFC 1929.
use transparent_gateway.Prelude.{
  ℕ, ◌+◌, ◌≤◌, ◌≡◌, refl, ap, ◌∙◌, false, none, some, [], ◌∷◌, ◌++◌, arith, Text, ltb, nat_eq,
  text_eq, text_beq, length, length-append,
}
use transparent_gateway.Python.{Exception, ok, Runtime, encode}
use transparent_gateway.Wire.{Conn, ◌>>◌, pure, read_exactly}
use transparent_gateway.Wire.Laws.{read_exactly-append}
use transparent_gateway.Relay.Handshake.{
  two_bytes, with_length, socks5_methods, socks5_wanted, socks5_login, bind_size, reply_kind,
  socks5_address, socks5_greet, socks5_request, socks5_connect,
}

-- The bind address of a reply.
pub data Bind : Type 0 where
  ipv4 ipv6 domain : Text → Bind

unfoldable pub print_bind : Bind → Text
print_bind (ipv4 b) = 1 ∷ b
print_bind (domain b) = 3 ∷ length b ∷ b
print_bind (ipv6 b) = 4 ∷ b

-- The sizes of the addresses.
unfoldable pub IsBind : Bind → Type 0
IsBind (ipv4 b) = length b ≡ 4
IsBind (domain b) = length b ≤ 255
IsBind (ipv6 b) = length b ≡ 16

-- A reply to CONNECT that grants it, with the bind address and two bytes of a port.
unfoldable pub granted : Bind → Text → Text
unfolding print_bind
granted bind bind_port = 5 ∷ 0 ∷ 0 ∷ (print_bind bind ++ bind_port)

module _ (R : Runtime) (rest : Text) (e : Exception) where
  stream : Text → Text → Conn
  stream incoming sent = record { incoming = incoming; at_end = e; sent = sent }

  read_tail :
      (b bind_port sent : Text) (n : ℕ)
      → length b ≡ n
      → length bind_port ≡ 2
      → (read_exactly (n + 2) >> pure tt) (stream ((b ++ bind_port) ++ rest) sent)
        ≡ (ok tt, stream rest sent)
  unfolding stream
  read_tail b bind_port sent n size port_size =
      rw
        (read_exactly-append (n + 2) (b ++ bind_port) rest sent e (
          length-append b bind_port
          ∙ ap (λ m. m + length bind_port) size
          ∙ ap (λ m. n + m) port_size))
        refl

  socks5_request_lem :
      (host address sent : Text) (port : ℕ) (bind : Bind) (bind_port : Text)
      → socks5_address R host ≡ ok address
      → IsBind bind
      → length bind_port ≡ 2
      → socks5_request R host port (stream (granted bind bind_port ++ rest) sent)
        ≡ (ok tt, stream rest (sent ++ 5 ∷ 1 ∷ 0 ∷ (address ++ two_bytes port)))
  unfolding stream socks5_request granted IsBind bind_size reply_kind
  socks5_request_lem host address sent port (ipv4 b) bind_port h size port_size =
      let request = 5 ∷ 1 ∷ 0 ∷ (address ++ two_bytes port) in
      rw
        (
          h,
          read_exactly-append 4 (5 ∷ 0 ∷ 0 ∷ 1 ∷ []) ((b ++ bind_port) ++ rest) (sent ++ request) e
              refl,
        )
        (read_tail b bind_port (sent ++ request) 4 size port_size)
  socks5_request_lem host address sent port (ipv6 b) bind_port h size port_size =
      let request = 5 ∷ 1 ∷ 0 ∷ (address ++ two_bytes port) in
      rw
        (
          h,
          read_exactly-append 4 (5 ∷ 0 ∷ 0 ∷ 4 ∷ []) ((b ++ bind_port) ++ rest) (sent ++ request) e
              refl,
        )
        (read_tail b bind_port (sent ++ request) 16 size port_size)
  socks5_request_lem host address sent port (domain b) bind_port h size port_size =
      let request = 5 ∷ 1 ∷ 0 ∷ (address ++ two_bytes port) in
      rw
        (
          h,
          read_exactly-append 4 (5 ∷ 0 ∷ 0 ∷ 3 ∷ []) (length b ∷ ((b ++ bind_port) ++ rest))
              (sent ++ request) e refl,
          read_exactly-append 1 (length b ∷ []) ((b ++ bind_port) ++ rest) (sent ++ request) e refl,
        )
        (read_tail b bind_port (sent ++ request) (length b) refl port_size)

-- The bytes that a proxy sends that wants no user name and grants the request.
unfoldable pub open_replies : Bind → Text → Text
open_replies bind bind_port = 5 ∷ 0 ∷ granted bind bind_port

-- With a proxy that wants no user name and grants the request, the handshake succeeds, sends the
-- greeting and the request for the target, and leaves exactly what follows the reply.
pub socks5_connect-open :
    (R : Runtime) (rest sent host address : Text) (e : Exception) (port : ℕ) (bind : Bind)
    (bind_port : Text)
    → socks5_address R host ≡ ok address
    → IsBind bind
    → length bind_port ≡ 2
    → socks5_connect R none host port
        (record { incoming = open_replies bind bind_port ++ rest; at_end = e; sent = sent })
      ≡ (
        ok tt,
        record {
          incoming = rest;
          at_end = e;
          sent = (sent ++ 5 ∷ 1 ∷ 0 ∷ []) ++ 5 ∷ 1 ∷ 0 ∷ (address ++ two_bytes port);
        },
      )
unfolding socks5_connect socks5_greet socks5_login socks5_methods socks5_wanted open_replies stream
    text_beq socks5_request
socks5_connect-open R rest sent host address e port bind bind_port h size port_size =
    rw
      (read_exactly-append 2 (5 ∷ 0 ∷ []) (granted bind bind_port ++ rest) (sent ++ 5 ∷ 1 ∷ 0 ∷ [])
        e refl)
      (socks5_request_lem R rest e host address (sent ++ 5 ∷ 1 ∷ 0 ∷ []) port bind bind_port h size
        port_size)

-- The bytes that a proxy sends that takes the user name and password and grants the request.
unfoldable pub login_replies : Bind → Text → Text
login_replies bind bind_port = 5 ∷ 2 ∷ 1 ∷ 0 ∷ granted bind bind_port

-- The message of RFC 1929.
unfoldable pub login_message : Text → Text → Text
login_message raw_user raw_pass = 1 ∷ (with_length raw_user ++ with_length raw_pass)

not_longer : (b : Text) → length b ≤ 255 → ltb 255 (length b) ≡ false
not_longer b h = ground arith

-- With a proxy that takes the user name and password, both of at most 255 bytes, and grants the
-- request, the handshake succeeds, sends the greeting, the login and the request in this order, and
-- leaves exactly what follows the reply.
pub socks5_connect-login :
    (R : Runtime) (rest sent host address user password raw_user raw_pass : Text) (e : Exception)
    (port : ℕ) (bind : Bind) (bind_port : Text)
    → encode user ≡ ok raw_user
    → encode password ≡ ok raw_pass
    → length raw_user ≤ 255
    → length raw_pass ≤ 255
    → socks5_address R host ≡ ok address
    → IsBind bind
    → length bind_port ≡ 2
    → socks5_connect R
        (some (user, password))
        host
        port
        (record { incoming = login_replies bind bind_port ++ rest; at_end = e; sent = sent })
      ≡ (
        ok tt,
        record {
          incoming = rest;
          at_end = e;
          sent =
              ((sent ++ 5 ∷ 2 ∷ 0 ∷ 2 ∷ []) ++ login_message raw_user raw_pass)
              ++ 5 ∷ 1 ∷ 0 ∷ (address ++ two_bytes port);
        },
      )
unfolding socks5_connect socks5_greet socks5_login socks5_methods socks5_wanted login_replies
    login_message stream text_beq
socks5_connect-login R rest sent host address user password raw_user raw_pass e port bind bind_port
      user_ok password_ok user_short password_short h size port_size =
    let greeted = sent ++ 5 ∷ 2 ∷ 0 ∷ 2 ∷ [] in
    let logged = greeted ++ 1 ∷ (with_length raw_user ++ with_length raw_pass) in
    let granted_rest = granted bind bind_port ++ rest in
    rw
      (
        read_exactly-append 2 (5 ∷ 2 ∷ []) (1 ∷ 0 ∷ granted_rest) greeted e refl,
        user_ok,
        password_ok,
        not_longer raw_user user_short,
        not_longer raw_pass password_short,
        read_exactly-append 2 (1 ∷ 0 ∷ []) granted_rest logged e refl,
      )
      (socks5_request_lem R rest e host address logged port bind bind_port h size port_size)
