-- ===== src/Examples/Tokens.antt =====
-- A token for a server with the private key 2, 2, …, and a connect with stock BoringSSL.
use reality_hydra.Base.{
  ℕ, ◌^◌, ◌<◌, ◌≡◌, ◌≢◌, refl, [], ◌∷◌, ◌++◌, Bytes, AreBytes, length, replicate, be_bytes, from_be,
  from_le, text_eq, some, none, ok, true, arith,
}
use reality_hydra.Reality.{
  RealityConfig, new, with_version, check_short_ids, pick_short_id, first_or_empty, chrome,
  default_version,
}
use reality_hydra.Reality.Auth.{
  RealityAuth, AuthPayload, nonce_of, derive_auth_key, seal_with_ephemeral, open_token,
  parse_plaintext, to_array, expect_key,
}
use reality_hydra.Reality.Payload.{sealed_id}
use reality_hydra.Reality.Opens.{open_token-seal_with_ephemeral, open_token-sealed, new_opens}
use reality_hydra.Reality.Connect.{
  RealityClient, Edge, connect, new_client, with_injector, build_connector, set_all,
  chrome_settings, unsupported_injector, connect_refuses, grease_enabled, permute_extensions,
  verify_none,
}
use reality_hydra.Examples.Fixtures.{sum}
use reality_hydra.Examples.Crypto.{sums, zeros, marked, unmask, tag, pointwise}

abbrev client_key : Bytes
client_key = replicate 32 1

abbrev server_key : Bytes
server_key = replicate 32 2

abbrev random : Bytes
random = replicate 32 5

abbrev hello : Bytes
hello = 22 ∷ 3 ∷ 1 ∷ []

abbrev short_id : Bytes
short_id = 171 ∷ 205 ∷ []

open_token-seal_with_ephemeral_example :
    (auth : RealityAuth) × (seal_with_ephemeral sums zeros marked client_key
        (sums.public server_key)
        short_id
        default_version
        1700000000
        random
        hello
      ≡ ok auth)
    × (length auth.session_id ≡ 32)
    × (open_token sums zeros marked server_key auth.client_public auth.session_id random hello
        ≡ ok (record {
          version = default_version;
          timestamp = 1700000000;
          short_id = sealed_id short_id;
        }))
open_token-seal_with_ephemeral_example =
    open_token-seal_with_ephemeral sums zeros marked client_key server_key short_id default_version
      1700000000 random hello refl refl (omega arith) refl (omega arith) refl (omega arith)

-- The plaintext and the checksum behind it.
abbrev sealed : Bytes
sealed = 1 ∷ 8 ∷ 4 ∷ 0 ∷ 0 ∷ 0 ∷ 0 ∷ 9 ∷ 171 ∷ 205 ∷ 0 ∷ 0 ∷ 0 ∷ 0 ∷ 0 ∷ 0 ∷ replicate 16 228

abbrev read : AuthPayload
read = record {
  version = default_version;
  timestamp = 9;
  short_id = 171 ∷ 205 ∷ 0 ∷ 0 ∷ 0 ∷ 0 ∷ 0 ∷ 0 ∷ [];
}

opened : open_token sums zeros marked server_key client_key sealed random hello ≡ ok read
unfolding open_token derive_auth_key expect_key to_array parse_plaintext sums zeros marked unmask
    tag pointwise sum text_eq from_be from_le
opened = refl

sealed-AreBytes : AreBytes sealed
sealed-AreBytes = ground arith

open_token-sealed_example :
    (auth_key : Bytes) × ((reserved : ℕ) × (derive_auth_key zeros
          (sums.diffie_hellman server_key client_key)
          random
        ≡ ok auth_key)
      × (marked.encrypt auth_key
            (nonce_of random)
            (read.version ++ (reserved ∷ (be_bytes 4 read.timestamp ++ read.short_id)))
            hello
          ≡ some sealed)
      × (length read.version ≡ 3)
      × (length read.short_id ≡ 8)
      × (read.timestamp < 2 ^ 32))
open_token-sealed_example =
    open_token-sealed sums zeros marked server_key client_key sealed random hello read
      sealed-AreBytes opened

abbrev config : RealityConfig
config = record {
  server_public_key = sums.public server_key;
  short_ids = short_id ∷ [];
  fingerprint = chrome;
  version = default_version;
  dest = none;
}

made : new (sums.public server_key) (short_id ∷ []) chrome ≡ ok config
unfolding new with_version check_short_ids
made = refl

new_opens_example :
    (auth : RealityAuth) × (seal_with_ephemeral sums zeros marked client_key
        config.server_public_key
        (pick_short_id config)
        config.version
        9
        random
        hello
      ≡ ok auth)
    × (open_token sums zeros marked server_key auth.client_public auth.session_id random hello
        ≡ ok (record {
          version = default_version;
          timestamp = 9;
          short_id = sealed_id (first_or_empty (short_id ∷ []));
        }))
new_opens_example =
    new_opens sums zeros marked server_key (short_id ∷ []) chrome config client_key 9 random hello
      made refl refl (omega arith) refl (omega arith)

abbrev edge : Edge
edge = record { seconds = 1700000000; connects = true; configures = true; handshakes = true }

abbrev client : RealityClient
client = record {
  config = config;
  connector = chrome_settings ++ (grease_enabled true ∷ permute_extensions true ∷ verify_none ∷ []);
  injector = unsupported_injector;
}

built : new_client true (λ s. true) config ≡ ok client
unfolding new_client with_injector build_connector set_all chrome_settings
built = refl

connect_refuses_example :
    ((connect client edge (b'a' ∷ []) (b's' ∷ [])).presented ≡ [])
    × ((connect client edge (b'a' ∷ []) (b's' ∷ [])).result ≢ ok tt)
connect_refuses_example =
    connect_refuses true (λ s. true) config client edge (b'a' ∷ []) (b's' ∷ []) built
