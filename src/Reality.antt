-- ===== src/Reality.antt =====
-- crates/reality-tls: the handshake token in `session_id` and the client's REALITY configuration.
-- This file has error.rs, fingerprint.rs and config.rs; `Reality.Auth` has auth.rs, `Reality.Connect`
-- client.rs. Arrays are lists whose length the theorems name.
pub mod Auth
pub mod Payload
pub mod Opens
pub mod Connect
use reality_hydra.Base.{
  ℕ, List, [], ◌∷◌, Bytes, length, Option, none, some, ltb, Result, ok, ◌>>◌, ensure, not,
}

-- Why opening failed: the cipher refused, or the plaintext has another length.
pub data OpenFailure : Type 0 where
  cipher_refused : OpenFailure
  plaintext_length : ℕ → OpenFailure

-- The texts of the libraries' messages are left out.
pub data RealityError : Type 0 where
  bad_server_key : ℕ → RealityError
  bad_client_random : ℕ → RealityError
  short_id_too_long : ℕ → RealityError
  auth_seal : RealityError
  auth_open : OpenFailure → RealityError
  session_id_injection_unsupported : RealityError
  boring_build : RealityError
  boring_config : RealityError
  tcp_connect : Bytes → RealityError
  handshake_failed : Bytes → Bytes → RealityError

abbrev pub chrome_cipher_suites : List ℕ
chrome_cipher_suites =
    0x1301 ∷ 0x1302 ∷ 0x1303 ∷ 0xc02b ∷ 0xc02f ∷ 0xc02c ∷ 0xc030 ∷ 0xcca9 ∷ 0xcca8 ∷ 0xc013 ∷ 0xc014
    ∷ []

abbrev pub chrome_groups : List ℕ
chrome_groups = 0x001d ∷ 0x0017 ∷ 0x0018 ∷ 0x0019 ∷ []

abbrev pub chrome_sig_algs : List ℕ
chrome_sig_algs = 0x0403 ∷ 0x0804 ∷ 0x0401 ∷ 0x0503 ∷ 0x0805 ∷ 0x0501 ∷ 0x0806 ∷ 0x0601 ∷ []

-- "h2" and "http/1.1"
abbrev pub chrome_alpn : List Bytes
chrome_alpn = (104 ∷ 50 ∷ []) ∷ (104 ∷ 116 ∷ 116 ∷ 112 ∷ 47 ∷ 49 ∷ 46 ∷ 49 ∷ []) ∷ []

pub data Fingerprint : Type 0 where
  chrome : Fingerprint

abbrev pub max_short_id_len : ℕ
max_short_id_len = 32

abbrev pub default_version : Bytes
default_version = 1 ∷ 8 ∷ 4 ∷ []

pub record RealityConfig : Type 0 where
  pub server_public_key : Bytes
  pub short_ids : List Bytes
  pub fingerprint : Fingerprint
  pub version : Bytes
  pub dest : Option Bytes

-- The loop over `&short_ids`.
unfoldable pub check_short_ids : List Bytes → Result RealityError (Unit {0})
check_short_ids [] = ok tt
check_short_ids (sid ∷ sids) =
    ensure (not (ltb max_short_id_len (length sid))) (short_id_too_long (length sid))
    >> check_short_ids sids

unfoldable pub with_version :
    Bytes → List Bytes → Fingerprint → Bytes → Result RealityError RealityConfig
unfolding check_short_ids
with_version server_public_key short_ids fingerprint version =
    check_short_ids short_ids
    >> ok (record {
      server_public_key = server_public_key;
      short_ids = short_ids;
      fingerprint = fingerprint;
      version = version;
      dest = none;
    })

unfoldable pub new : Bytes → List Bytes → Fingerprint → Result RealityError RealityConfig
unfolding with_version
new server_public_key short_ids fingerprint =
    with_version server_public_key short_ids fingerprint default_version

unfoldable pub with_dest : RealityConfig → Bytes → RealityConfig
with_dest cfg dest = record {
  server_public_key = cfg.server_public_key;
  short_ids = cfg.short_ids;
  fingerprint = cfg.fingerprint;
  version = cfg.version;
  dest = some dest;
}

abbrev pub first_or_empty : List Bytes → Bytes
first_or_empty [] = []
first_or_empty (sid ∷ sids) = sid

unfoldable pub pick_short_id : RealityConfig → Bytes
pick_short_id cfg = first_or_empty cfg.short_ids
