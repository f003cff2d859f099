-- ===== src/Socks/Request.antt =====
-- A request written as RFC 1928 has it is read as its target: the addresses have the form that the
-- tunnel's header gives them.
use reality_hydra.Base.{
  ℕ, ◌≡◌, ◌<◌, refl, sym, ap, ◌∙◌, true, ◌∷◌, ◌++◌, append_assoc, Bytes, length, length-append,
  take-length-append, drop-length-append, be_bytes, length-be_bytes, from_be-be_bytes, arith,
  le→leb, ◌%◌, ok, ◌>>=◌,
}
use reality_hydra.Proto.{Target, Host, v4, domain, v6, IsHost, IsTarget, encode_host}
use reality_hydra.Socks.{
  Socks5Addr, ipv4, name, ipv6, read_exact, read_u8, read_u16, read_greeting, read_ipv4, read_name,
  read_ipv6, read_addr, read_request, send_reply, answer, on_request, on_greeting, handshake,
  socks_to_target,
}

-- What an application writes: the greeting with its methods, and CONNECT for the target.
abbrev pub request : Bytes → Target → Bytes
request methods t =
    0x05
    ∷ length methods
    ∷ (methods ++ (0x05 ∷ 0x01 ∷ 0x00 ∷ (encode_host t.host ++ be_bytes 2 t.port)))

-- A length that its byte holds.
abbrev pub FitsSocks : Host → Type 0
FitsSocks (domain d) = length d < 256
FitsSocks _ = Unit

abbrev to_addr : Host → ℕ → Socks5Addr
to_addr (v4 a) port = ipv4 a port
to_addr (domain d) port = name d port
to_addr (v6 a) port = ipv6 a port

read_exact-append :
    (n : ℕ) (s rest : Bytes) → length s ≡ n → read_exact n (s ++ rest) ≡ ok (s, rest)
unfolding read_exact
read_exact-append n s rest h =
    rw
      (
        sym h,
        le→leb (length s) (length (s ++ rest)) (omega (arith, length-append s rest)),
        take-length-append s rest,
        drop-length-append s rest,
      )
      refl

read_u16-append :
    (port : ℕ) (rest : Bytes) → port < 65536 → read_u16 (be_bytes 2 port ++ rest) ≡ ok (port, rest)
unfolding read_u16
read_u16-append port rest h =
    rw
      (
        read_exact-append 2 (be_bytes 2 port) rest (length-be_bytes 2 port),
        from_be-be_bytes 2 port h,
      )
      refl

read_addr-host :
    (host : Host) (port : ℕ) (rest : Bytes)
    → IsHost host
    → FitsSocks host
    → port < 65536
    → (read_u8 (encode_host host ++ (be_bytes 2 port ++ rest)) >>= λ atyp. read_addr atyp.0 atyp.1)
      ≡ ok (to_addr host port, rest)
unfolding encode_host read_u8 read_addr read_ipv4 read_name read_ipv6
read_addr-host (v4 a) port rest well fits p =
    rw (read_exact-append 4 a (be_bytes 2 port ++ rest) well.0, read_u16-append port rest p) refl
read_addr-host (v6 a) port rest well fits p =
    rw (read_exact-append 16 a (be_bytes 2 port ++ rest) well.0, read_u16-append port rest p) refl
read_addr-host (domain d) port rest well fits p =
    let len : length d % 256 ≡ length d = omega arith in
    rw
      (
        len,
        read_exact-append (length d) d (be_bytes 2 port ++ rest) refl,
        well.0,
        read_u16-append port rest p,
      )
      refl

to_addr-target :
    (host : Host) (port : ℕ)
    → socks_to_target (to_addr host port) ≡ record { host = host; port = port }
unfolding socks_to_target
to_addr-target (v4 a) port = refl
to_addr-target (domain d) port = refl
to_addr-target (v6 a) port = refl

read_request-host :
    (host : Host) (port : ℕ) (rest : Bytes)
    → IsHost host
    → FitsSocks host
    → port < 65536
    → read_request (0x05 ∷ 0x01 ∷ 0x00 ∷ (encode_host host ++ (be_bytes 2 port ++ rest)))
      ≡ ok (to_addr host port, rest)
unfolding read_request read_u8
read_request-host host port rest well fits p = read_addr-host host port rest well fits p

read_greeting-methods :
    (methods s : Bytes) → read_greeting (0x05 ∷ length methods ∷ (methods ++ s)) ≡ ok (methods, s)
unfolding read_greeting read_u8
read_greeting-methods methods s = read_exact-append (length methods) methods s refl

-- The parts of the request, with what follows it.
request-append :
    (methods rest : Bytes) (t : Target)
    → request methods t ++ rest
      ≡ 0x05
        ∷ length methods
        ∷ (methods ++ (0x05 ∷ 0x01 ∷ 0x00 ∷ (encode_host t.host ++ (be_bytes 2 t.port ++ rest))))
request-append methods rest t =
    ap (λ (b : Bytes). 0x05 ∷ length methods ∷ b)
      (append_assoc methods (0x05 ∷ 0x01 ∷ 0x00 ∷ (encode_host t.host ++ be_bytes 2 t.port)) rest
        ∙ ap (λ (b : Bytes). methods ++ (0x05 ∷ 0x01 ∷ 0x00 ∷ b))
            (append_assoc (encode_host t.host) (be_bytes 2 t.port) rest))

-- An application that offers any methods and asks for a target is told of success, the address that
-- is read is that target, and what the application wrote after its request is left for the relay.
pub handshake-request :
    (methods rest : Bytes) (t : Target)
    → length methods < 256
    → IsTarget t
    → FitsSocks t.host
    → (addr : Socks5Addr) × (handshake true true (request methods t ++ rest)
        ≡ record { sent = 0x05 ∷ 0x00 ∷ send_reply 0x00; result = ok (addr, rest) })
      × (socks_to_target addr ≡ t)
unfolding handshake on_greeting on_request answer
handshake-request methods rest t few well fits = (
  to_addr t.host t.port,
  rw
      (
        request-append methods rest t,
        read_greeting-methods methods
            (0x05 ∷ 0x01 ∷ 0x00 ∷ (encode_host t.host ++ (be_bytes 2 t.port ++ rest))),
        read_request-host t.host t.port rest well.0 fits well.1,
      )
      refl,
  to_addr-target t.host t.port,
)
