-- ===== src/Socks.antt =====
-- crates/hydra-client/src/socks5.rs: the handshake with the local application, and the way from its
-- address to the tunnel's target in pipeline.rs.
-- The stream is what arrives on it before it ends, and whether each of the two writes succeeds.
pub mod Request
use reality_hydra.Base.{
  ℕ, Bool, true, false, [], ◌∷◌, Bytes, length, take, drop, from_be, is_utf8, Result, ok, err,
  panic, ◌>>=◌, ◌>>◌, ensure, leb, ◌==◌, if◌then◌else◌,
}
use reality_hydra.Proto.{Target, v4, domain, v6}

pub data Socks5Addr : Type 0 where
  ipv4 : Bytes → ℕ → Socks5Addr
  name : Bytes → ℕ → Socks5Addr
  ipv6 : Bytes → ℕ → Socks5Addr

pub data SocksError : Type 0 where
  stream_failed : SocksError
  greeting_version : ℕ → SocksError
  request_version : ℕ → SocksError
  unsupported_command : ℕ → SocksError
  unsupported_type : ℕ → SocksError
  bad_name : SocksError

abbrev pub Reading : Type 0 → Type 0
Reading A = Result SocksError (A × Bytes)

-- `read_exact` of `n` bytes.
unfoldable pub read_exact : ℕ → Bytes → Reading Bytes
read_exact n s = if leb n (length s) then ok (take n s, drop n s) else err stream_failed

unfoldable pub read_u8 : Bytes → Reading ℕ
read_u8 [] = err stream_failed
read_u8 (b ∷ s) = ok (b, s)

unfoldable pub read_u16 : Bytes → Reading ℕ
read_u16 s = read_exact 2 s >>= λ p. ok (from_be p.0, p.1)

unfoldable pub read_greeting : Bytes → Reading Bytes
read_greeting s = read_u8 s >>= λ ver.
    ensure (ver.0 == 0x05) (greeting_version ver.0)
    >> (read_u8 ver.1 >>= λ nmethods. read_exact nmethods.0 nmethods.1)

unfoldable pub read_ipv4 : Bytes → Reading Socks5Addr
read_ipv4 s = read_exact 4 s >>= λ a. read_u16 a.1 >>= λ port. ok (ipv4 a.0 port.0, port.1)

unfoldable pub read_name : Bytes → Reading Socks5Addr
read_name s = read_u8 s >>= λ len. read_exact len.0 len.1 >>= λ d.
    ensure (is_utf8 d.0) bad_name >> (read_u16 d.1 >>= λ port. ok (name d.0 port.0, port.1))

unfoldable pub read_ipv6 : Bytes → Reading Socks5Addr
read_ipv6 s = read_exact 16 s >>= λ a. read_u16 a.1 >>= λ port. ok (ipv6 a.0 port.0, port.1)

-- The `match atyp`.
unfoldable pub read_addr : ℕ → Bytes → Reading Socks5Addr
read_addr atyp s =
    if atyp == 0x01
    then read_ipv4 s
    else (if atyp == 0x03
        then read_name s
        else (if atyp == 0x04 then read_ipv6 s else err (unsupported_type atyp)))

unfoldable pub read_request : Bytes → Reading Socks5Addr
read_request s = read_u8 s >>= λ ver.
    ensure (ver.0 == 0x05) (request_version ver.0)
    >> (read_u8 ver.1 >>= λ cmd.
        ensure (cmd.0 == 0x01) (unsupported_command cmd.0)
        >> (read_u8 cmd.1 >>= λ rsv. read_u8 rsv.1 >>= λ atyp. read_addr atyp.0 atyp.1))

-- `send_reply`
abbrev pub send_reply : ℕ → Bytes
send_reply status = 0x05 ∷ status ∷ 0 ∷ 1 ∷ 0 ∷ 0 ∷ 0 ∷ 0 ∷ 0 ∷ 0 ∷ []

-- What was written to the application, and the address with the bytes left on the stream.
pub record Handshake : Type 0 where
  pub sent : Bytes
  pub result : Reading Socks5Addr

-- An answer to the request, written if the stream takes it.
unfoldable pub answer : Bool → ℕ → Reading Socks5Addr → Handshake
answer true status r = record { sent = 0x05 ∷ 0x00 ∷ send_reply status; result = r }
answer false status r = record { sent = 0x05 ∷ 0x00 ∷ []; result = err stream_failed }

unfoldable pub on_request : Bool → Reading Socks5Addr → Handshake
unfolding answer
on_request written (ok p) = answer written 0x00 (ok p)
on_request written (err (unsupported_command c)) = answer written 0x07 (err (unsupported_command c))
on_request written (err (unsupported_type t)) = answer written 0x08 (err (unsupported_type t))
on_request written r = record { sent = 0x05 ∷ 0x00 ∷ []; result = r }

unfoldable pub on_greeting : Bool → Bool → Reading Bytes → Handshake
on_greeting greeted written (ok p) =
    if greeted
    then on_request written (read_request p.1)
    else record { sent = []; result = err stream_failed }
on_greeting greeted written (err e) = record { sent = []; result = err e }
on_greeting greeted written panic = record { sent = []; result = panic }

unfoldable pub handshake : Bool → Bool → Bytes → Handshake
unfolding on_greeting
handshake greeted written s = on_greeting greeted written (read_greeting s)

unfoldable pub socks_to_target : Socks5Addr → Target
socks_to_target (ipv4 a port) = record { host = v4 a; port = port }
socks_to_target (name d port) = record { host = domain d; port = port }
socks_to_target (ipv6 a port) = record { host = v6 a; port = port }
