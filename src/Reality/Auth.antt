-- ===== src/Reality/Auth.antt =====
-- crates/reality-tls/src/auth.rs: the token that a client seals into `session_id` and the server
-- opens. X25519, HKDF-SHA256 and AES-256-GCM are parameters, with what their crates document.
use reality_hydra.Base.{
  AreBytes, ℕ, ◌+◌, ◌-◌, ◌*◌, ◌≤◌, ◌≡◌, ◌↔◌, min, [], ◌∷◌, ◌++◌, Bytes, length, take, drop,
  replicate, be_bytes, from_be, Option, none, some, ltb, ◌==◌, if◌then◌else◌, not, Result, ok,
  panic, ◌>>=◌, ◌>>◌, ensure, ok_or,
}
use reality_hydra.Reality.{
  RealityError, auth_seal, auth_open, cipher_refused, plaintext_length, short_id_too_long,
  max_short_id_len,
}

abbrev pub key_len : ℕ
key_len = 32

abbrev pub auth_key_len : ℕ
auth_key_len = 32

abbrev pub client_random_len : ℕ
client_random_len = 32

abbrev pub nonce_len : ℕ
nonce_len = 12

abbrev pub tag_len : ℕ
tag_len = 16

abbrev pub plaintext_len : ℕ
plaintext_len = 16

abbrev pub session_id_len : ℕ
session_id_len = 32

abbrev pub short_id_field_len : ℕ
short_id_field_len = 8

-- b"REALITY"
abbrev pub reality_hkdf_info : Bytes
reality_hkdf_info = 82 ∷ 69 ∷ 65 ∷ 76 ∷ 73 ∷ 84 ∷ 89 ∷ []

-- `x25519_dalek`: both ends of an exchange reach the same secret.
pub record X25519 : Type 0 where
  pub public : Bytes → Bytes
  pub diffie_hellman : Bytes → Bytes → Bytes
  pub length-public : (k : Bytes) → length k ≡ key_len → length (public k) ≡ key_len
  pub agree :
      (a b : Bytes)
      → length a ≡ key_len
      → length b ≡ key_len
      → diffie_hellman a (public b) ≡ diffie_hellman b (public a)

-- `hkdf`: `expand` of a salt, a secret, an `info` and a length fails above 255 blocks of 32 bytes.
pub record Hkdf : Type 0 where
  pub expand : Bytes → Bytes → Bytes → ℕ → Option Bytes
  pub expand_some :
      (salt ikm info : Bytes) (n : ℕ)
      → n ≤ 255 * 32
      → (okm : Bytes) × (expand salt ikm info n ≡ some okm) × (length okm ≡ n)

-- The longest message and associated data of AES-GCM in `aes_gcm`.
abbrev pub gcm_max : ℕ
gcm_max = 68719476736

-- `aes_gcm`, by key, nonce, message and associated data: `encrypt` appends a tag of 16 bytes, and
-- `decrypt` gives a message exactly when that message encrypts to what it was given.
pub record AesGcm : Type 0 where
  pub encrypt : Bytes → Bytes → Bytes → Bytes → Option Bytes
  pub decrypt : Bytes → Bytes → Bytes → Bytes → Option Bytes
  pub encrypt_some :
      (key nonce msg aad : Bytes)
      → length msg ≤ gcm_max
      → length aad ≤ gcm_max
      → (c : Bytes) × (encrypt key nonce msg aad ≡ some c) × (length c ≡ length msg + tag_len)
  pub decrypt_iff :
      (key nonce c aad msg : Bytes)
      → (decrypt key nonce c aad ≡ some msg) ↔ (encrypt key nonce msg aad ≡ some c)
  pub decrypt-AreBytes :
      (key nonce c aad msg : Bytes) → decrypt key nonce c aad ≡ some msg → AreBytes c → AreBytes msg

pub record RealityAuth : Type 0 where
  pub client_public : Bytes
  pub client_private : Bytes
  pub session_id : Bytes

pub record AuthPayload : Type 0 where
  pub version : Bytes
  pub timestamp : ℕ
  pub short_id : Bytes

-- `copy_from_slice` into an array of `n` bytes.
unfoldable pub to_array : ℕ → Bytes → Result RealityError Bytes
to_array n src = if length src == n then ok src else panic

unfoldable pub expect_key : Option Bytes → Result RealityError Bytes
expect_key none = panic
expect_key (some okm) = ok okm

-- `client_random[20..32]`
abbrev pub nonce_of : Bytes → Bytes
nonce_of client_random = take 12 (drop 20 client_random)

-- The array of eight zeros with the front of the short id copied in.
unfoldable pub short_id_field : Bytes → Bytes
short_id_field short_id =
    let n = min (length short_id) short_id_field_len in
    take n short_id ++ replicate (short_id_field_len - n) 0

unfoldable pub build_plaintext : Bytes → ℕ → Bytes → Bytes
unfolding short_id_field
build_plaintext version timestamp short_id =
    version ++ (0 ∷ (be_bytes 4 timestamp ++ short_id_field short_id))

unfoldable pub parse_plaintext : Bytes → Result RealityError AuthPayload
parse_plaintext plaintext =
    ensure (length plaintext == plaintext_len) (auth_open (plaintext_length (length plaintext)))
    >> ok (record {
      version = take 3 plaintext;
      timestamp = from_be (take 4 (drop 4 plaintext));
      short_id = take 8 (drop 8 plaintext);
    })

module _ (dh : X25519) where
  unfoldable pub public_from_private : Bytes → Bytes
  public_from_private private = dh.public private

  -- `secret` is what the generator gave.
  unfoldable pub generate_keypair : Bytes → Bytes × Bytes
  generate_keypair secret = (secret, dh.public secret)

module _ (hkdf : Hkdf) where
  unfoldable pub derive_auth_key : Bytes → Bytes → Result RealityError Bytes
  unfolding expect_key
  derive_auth_key shared_secret client_random =
      expect_key (hkdf.expand (take 20 client_random) shared_secret reality_hkdf_info auth_key_len)

module _ (dh : X25519) (hkdf : Hkdf) (gcm : AesGcm) where
  unfoldable pub seal_with_ephemeral :
      Bytes → Bytes → Bytes → Bytes → ℕ → Bytes → Bytes → Result RealityError RealityAuth
  unfolding derive_auth_key build_plaintext to_array
  seal_with_ephemeral client_private server_public_key short_id version timestamp client_random
        client_hello_raw =
      ensure (not (ltb max_short_id_len (length short_id))) (short_id_too_long (length short_id))
      >> derive_auth_key hkdf (dh.diffie_hellman client_private server_public_key) client_random
      >>= λ auth_key. to_array nonce_len (nonce_of client_random) >>= λ nonce.
          ok_or
            (gcm.encrypt auth_key nonce (build_plaintext version timestamp short_id)
              client_hello_raw)
            auth_seal
          >>= λ sealed. to_array session_id_len sealed >>= λ session_id. ok (record {
            client_public = dh.public client_private;
            client_private = client_private;
            session_id = session_id;
          })

  -- `ephemeral` is what the operating system's generator gave.
  unfoldable pub seal :
      Bytes → Bytes → Bytes → Bytes → ℕ → Bytes → Bytes → Result RealityError RealityAuth
  unfolding seal_with_ephemeral
  seal ephemeral server_public_key short_id version timestamp client_random client_hello_raw =
      seal_with_ephemeral ephemeral server_public_key short_id version timestamp client_random
        client_hello_raw

  unfoldable pub open_token :
      Bytes → Bytes → Bytes → Bytes → Bytes → Result RealityError AuthPayload
  unfolding derive_auth_key parse_plaintext to_array
  open_token server_private_key client_public_key session_id client_random client_hello_raw =
      derive_auth_key hkdf (dh.diffie_hellman server_private_key client_public_key) client_random
      >>= λ auth_key. to_array nonce_len (nonce_of client_random) >>= λ nonce.
          ok_or (gcm.decrypt auth_key nonce session_id client_hello_raw) (auth_open cipher_refused)
          >>= λ plaintext. parse_plaintext plaintext
