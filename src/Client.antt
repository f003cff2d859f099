-- ===== src/Client.antt =====
-- crates/hydra-client/src/tunnel.rs: the client's end of the tunnel. What TCP, TLS and the exit node
-- answer is given; SHA-256 and the names that rustls takes for legal are parameters.
pub mod Meeting
pub mod Pipeline
pub mod Serve
use reality_hydra.Base.{
  ℕ, Bool, true, [], ◌∷◌, Bytes, Option, none, some, ◌==◌, if◌then◌else◌, text_eq, Result, ok, err,
  ◌||◌,
}
use reality_hydra.Socks.{SocksError}
use reality_hydra.Proto.{
  Hmac, Target, display, encode_request, reply_ok, reply_auth_fail, reply_dial_fail,
}

-- The `reason` of a rejection, by what its text says.
pub data Reason : Type 0 where
  not_authentic : Reason
  could_not_reach : Bytes → Reason
  unexpected_reply : ℕ → Reason

-- `Dns` and `Reality` are constructed nowhere in the crate and are left out; `Pool` is made by the
-- binary's `run` alone, and stands in `Client.Serve`.
pub data ClientError : Type 0 where
  bind_failed : Bytes → ClientError
  no_server_addr : ClientError
  socks5_failed : SocksError → ClientError
  tunnel_connect : Bytes → ClientError
  tunnel_tls : Bytes → ClientError
  invalid_name : ClientError
  io : ClientError
  tunnel_rejected : Reason → ClientError

-- `PinnedVerifier::verify_server_cert`: no pin accepts any certificate.
unfoldable pub verify_server_cert : (Bytes → Bytes) → Option Bytes → Bytes → Bool
verify_server_cert digest none end_entity = true
verify_server_cert digest (some expected) end_entity = text_eq (digest end_entity) expected

-- What a dial meets: the TCP connection, the certificate, the rest of the TLS handshake, the write of
-- the header, and the reply byte, if one comes.
pub record Dial : Type 0 where
  pub connects : Bool
  pub end_entity : Bytes
  pub handshakes : Bool
  pub header_written : Bool
  pub reply : Option ℕ

pub record TunnelClient : Type 0 where
  pub server_addr : Bytes
  pub cert_pin : Option Bytes
  pub master_secret : Bytes

-- The `match reply_byte[0]`.
unfoldable pub on_reply : Target → ℕ → Result ClientError (Unit {0})
on_reply target reply =
    if reply == reply_ok
    then ok tt
    else (if reply == reply_auth_fail
        then err (tunnel_rejected not_authentic)
        else (if reply == reply_dial_fail
            then err (tunnel_rejected (could_not_reach (display target)))
            else err (tunnel_rejected (unexpected_reply reply))))

unfoldable pub await_reply : Target → Option ℕ → Result ClientError (Unit {0})
await_reply target none = err io
await_reply target (some reply) = on_reply target reply

-- What went into the TLS stream, and whether the stream is ready to relay.
pub record Opened : Type 0 where
  pub written : Bytes
  pub result : Result ClientError (Unit {0})

-- "www.microsoft.com"
abbrev pub placeholder : Bytes
placeholder =
    119 ∷ 119 ∷ 119 ∷ 46 ∷ 109 ∷ 105 ∷ 99 ∷ 114 ∷ 111 ∷ 115 ∷ 111 ∷ 102 ∷ 116 ∷ 46 ∷ 99 ∷ 111 ∷ 109
    ∷ []

-- The server name of the handshake that a dial begins, which is the fallback when the SNI is not a
-- legal name.
unfoldable pub server_name : (Bytes → Bool) → Dial → Bytes → Option Bytes
server_name legal_name dial sni =
    if dial.connects
    then (if legal_name sni
        then some sni
        else (if legal_name placeholder then some placeholder else none))
    else none

module _ (h : Hmac) (digest : Bytes → Bytes) (legal_name : Bytes → Bool) where
  -- From a complete TLS handshake on.
  unfoldable pub send_header : TunnelClient → ℕ → Dial → Target → Opened
  unfolding await_reply on_reply
  send_header client timestamp dial target =
      if dial.header_written
      then record {
        written = encode_request h client.master_secret timestamp target;
        result = await_reply target dial.reply;
      }
      else record { written = []; result = err io }

  -- `sni` is checked to be a legal name; identity is the pin's matter.
  unfoldable pub open_tunnel : TunnelClient → ℕ → Dial → Bytes → Target → Opened
  unfolding send_header verify_server_cert
  open_tunnel client timestamp dial sni target =
      if dial.connects
      then (if legal_name sni || legal_name placeholder
          then (if verify_server_cert digest client.cert_pin dial.end_entity
              then (if dial.handshakes
                  then send_header client timestamp dial target
                  else record { written = []; result = err (tunnel_tls client.server_addr) })
              else record { written = []; result = err (tunnel_tls client.server_addr) })
          else record { written = []; result = err invalid_name })
      else record { written = []; result = err (tunnel_connect client.server_addr) }
