-- ===== src/Proto.antt =====
-- crates/tunnel-proto/src/lib.rs: the authenticated CONNECT header of the self-tunnel.
-- This file has the wire types and the encoder; `Proto.Parse` has the decoder.
-- HMAC-SHA256 is a parameter, with what the `hmac` crate documents of it.
pub mod Parse
pub mod Reads
mod Inversion
pub mod Accepted
pub mod Limits
pub mod Prefixes
pub mod Stability
mod Parts
pub mod RoundTrip
use reality_hydra.Base.{
  ℕ, ◌+◌, ◌%◌, ◌<◌, ◌≤◌, ◌≡◌, ◌↔◌, Bool, true, [], ◌∷◌, ◌++◌, length, Bytes, AreBytes, le_bytes,
  be_bytes, is_utf8, decimal, hex_byte,
}

-- `Hmac<Sha256>`: `finalize` is the tag of a message, `verify_slice` the comparison with a tag.
pub record Hmac : Type 0 where
  pub finalize : Bytes → Bytes → Bytes
  pub verify_slice : Bytes → Bytes → Bytes → Bool
  pub length-finalize : (key msg : Bytes) → length (finalize key msg) ≡ 32
  pub finalize-AreBytes : (key msg : Bytes) → AreBytes (finalize key msg)
  pub verify_slice_iff :
      (key msg tag : Bytes) → (verify_slice key msg tag ≡ true) ↔ (tag ≡ finalize key msg)

abbrev pub version : ℕ
version = 1

abbrev pub mac_len : ℕ
mac_len = 32

abbrev pub default_max_skew_secs : ℕ
default_max_skew_secs = 120

abbrev pub atyp_ipv4 : ℕ
atyp_ipv4 = 0x01

abbrev pub atyp_domain : ℕ
atyp_domain = 0x03

abbrev pub atyp_ipv6 : ℕ
atyp_ipv6 = 0x04

abbrev pub max_domain_len : ℕ
max_domain_len = 253

-- `reply::OK`, `reply::AUTH_FAIL`, `reply::DIAL_FAIL`
abbrev pub reply_ok : ℕ
reply_ok = 0x00

abbrev pub reply_auth_fail : ℕ
reply_auth_fail = 0x01

abbrev pub reply_dial_fail : ℕ
reply_dial_fail = 0x02

-- The arrays of 4 and 16 bytes and the text are their bytes; `IsHost` has the sizes.
pub data Host : Type 0 where
  v4 : Bytes → Host
  domain : Bytes → Host
  v6 : Bytes → Host

pub record Target : Type 0 where
  pub host : Host
  pub port : ℕ

-- What the Rust types say of a host: `[u8; 4]`, `String`, `[u8; 16]`.
abbrev pub IsHost : Host → Type 0
IsHost (v4 a) = (length a ≡ 4) × AreBytes a
IsHost (domain d) = (is_utf8 d ≡ true) × AreBytes d
IsHost (v6 a) = (length a ≡ 16) × AreBytes a

abbrev pub IsTarget : Target → Type 0
IsTarget t = IsHost t.host × (t.port < 65536)

-- The domain fits what the decoder accepts.
abbrev pub FitsHeader : Host → Type 0
FitsHeader (domain d) = length d ≤ max_domain_len
FitsHeader _ = Unit

pub data ProtoError : Type 0 where
  truncated : ℕ → ProtoError
  bad_version : ℕ → ProtoError
  bad_atyp : ℕ → ProtoError
  bad_domain : ProtoError
  domain_too_long : ℕ → ProtoError
  bad_mac : ProtoError
  stale : ℕ → ProtoError

unfoldable pub encode_host : Host → Bytes
encode_host (v4 a) = atyp_ipv4 ∷ a
encode_host (domain d) = atyp_domain ∷ (length d % 256) ∷ d
encode_host (v6 a) = atyp_ipv6 ∷ a

-- `encode_addr` appends to the buffer that it is given.
unfoldable pub encode_addr : Target → Bytes → Bytes
unfolding encode_host
encode_addr t out = out ++ (encode_host t.host ++ be_bytes 2 t.port)

-- The bytes that the tag covers.
unfoldable pub unsigned : ℕ → Target → Bytes
unfolding encode_addr
unsigned timestamp target = encode_addr target (version ∷ le_bytes 8 timestamp)

-- The groups of an IPv6 address: two bytes each, joined by `:`.
v6_groups : Bytes → Bytes
v6_groups [] = []
v6_groups (a ∷ []) = hex_byte a
v6_groups (a ∷ b ∷ []) = hex_byte a ++ hex_byte b
v6_groups (a ∷ b ∷ c ∷ rest) = hex_byte a ++ (hex_byte b ++ (b':' ∷ v6_groups (c ∷ rest)))

dotted : Bytes → Bytes
dotted [] = []
dotted (a ∷ []) = decimal a
dotted (a ∷ b ∷ rest) = decimal a ++ (b'.' ∷ dotted (b ∷ rest))

display_host : Host → Bytes
display_host (v4 a) = dotted a
display_host (domain d) = d
display_host (v6 a) = b'[' ∷ (v6_groups a ++ (b']' ∷ []))

-- `Target::display`: the text that the exit node dials and the client logs.
unfoldable pub display : Target → Bytes
unfolding decimal hex_byte dotted v6_groups display_host
display t = display_host t.host ++ (b':' ∷ decimal t.port)

module _ (h : Hmac) where
  unfoldable pub mac : Bytes → Bytes → Bytes
  mac key preceding = h.finalize key preceding

  unfoldable pub encode_request : Bytes → ℕ → Target → Bytes
  unfolding unsigned mac
  encode_request key timestamp target = let buf = unsigned timestamp target in buf ++ mac key buf
