-- ===== src/Reality/Opens.antt =====
-- What the server reads from a token, and which tokens it accepts.
use reality_hydra.Base.{
  Bool, if-cases, inl, inr, ok-injective, false, true, ltb→le, ℕ, ◌^◌, ◌≤◌, ◌<◌, ◌≡◌, refl, sym, ap,
  ◌∙◌, List, [], ◌∷◌, ◌++◌, Bytes, length, take, drop, length-take, length-drop, be_bytes, AreBytes,
  Option, none, some, ltb, le→ltb, ◌==◌, not, ok, ok_elim, ensure_elim, arith, ok_or, All,
}
use reality_hydra.Reality.{
  RealityConfig, Fingerprint, new, with_version, check_short_ids, pick_short_id, first_or_empty,
  default_version, max_short_id_len, auth_open, cipher_refused,
}
use reality_hydra.Reality.Auth.{
  X25519, Hkdf, AesGcm, RealityAuth, AuthPayload, gcm_max, to_array, expect_key, nonce_of,
  build_plaintext, derive_auth_key, seal_with_ephemeral, open_token, reality_hkdf_info,
}
use reality_hydra.Reality.Payload.{
  parse_plaintext-parts, sealed_id, to_array_ok, length-build_plaintext,
  parse_plaintext-build_plaintext,
}

length-nonce_of : (random : Bytes) → length random ≡ 32 → length (nonce_of random) ≡ 12
length-nonce_of random size =
    omega (arith, size, length-take 12 (drop 20 random), length-drop 20 random)

not-true : (b : Bool) → not b ≡ true → b ≡ false
not-true true e = cc
not-true false e = refl

to_array-eq : (n : ℕ) (src arr : Bytes) → to_array n src ≡ ok arr → arr ≡ src
unfolding to_array
to_array-eq n src arr e = elim (if-cases (length src == n) e) [
  | inl (_, same) ↦ sym (ok-injective same)
  | inr (_, other) ↦ cc
]

ok_or-some :
    {E : Type 0} {A : Type 0} {a : A} (o : Option A) (e : E) → ok_or o e ≡ ok a → o ≡ some a
ok_or-some none e h = cc
ok_or-some (some x) e h = ap some (ok-injective h)

first_short :
    (sids : List Bytes)
    → All (λ (s : Bytes). length s ≤ 32) sids
    → length (first_or_empty sids) ≤ 32
first_short [] h = omega arith
first_short (s ∷ sids) h = h.0

check_short_ids-All :
    (sids : List Bytes) → check_short_ids sids ≡ ok tt → All (λ (s : Bytes). length s ≤ 32) sids
unfolding check_short_ids
check_short_ids-All [] e = tt
check_short_ids-All (s ∷ sids) e =
    ensure_elim (not (ltb 32 (length s))) _ _ e
      (λ few on. (ltb→le 32 (length s) (not-true _ few), check_short_ids-All sids on))

module _ (dh : X25519) (hkdf : Hkdf) (gcm : AesGcm) where
  -- A client that seals for the server's public key gets a token, and the server opens it, with its
  -- own private key and the same handshake bytes, to the version, the timestamp and the first eight
  -- bytes of the short id, zeros behind a shorter one.
  pub open_token-seal_with_ephemeral :
      (client_private server_private short_id version : Bytes) (timestamp : ℕ)
      (random hello : Bytes)
      → length client_private ≡ 32
      → length server_private ≡ 32
      → length short_id ≤ 32
      → length version ≡ 3
      → timestamp < 2 ^ 32
      → length random ≡ 32
      → length hello ≤ gcm_max
      → (auth : RealityAuth) × (seal_with_ephemeral dh hkdf gcm client_private
            (dh.public server_private)
            short_id
            version
            timestamp
            random
            hello
          ≡ ok auth)
        × (length auth.session_id ≡ 32)
        × (open_token dh hkdf gcm server_private auth.client_public auth.session_id random hello
            ≡ ok (record {
              version = version;
              timestamp = timestamp;
              short_id = sealed_id short_id;
            }))
  unfolding seal_with_ephemeral open_token derive_auth_key expect_key
  open_token-seal_with_ephemeral client_private server_private short_id version timestamp random
        hello client_size server_size short three stamp random_size hello_size =
      let shared : Bytes = dh.diffie_hellman client_private (dh.public server_private) in
      let same : dh.diffie_hellman server_private (dh.public client_private) ≡ shared =
        dh.agree server_private client_private server_size client_size in
      let (auth_key, expanded, _) =
        hkdf.expand_some (take 20 random) shared reality_hkdf_info 32 (omega arith) in
      let plain_size = length-build_plaintext version short_id timestamp three in
      let (sealed, sealing, sealed_size) =
        gcm.encrypt_some auth_key (nonce_of random) (build_plaintext version timestamp short_id)
          hello (omega (arith, plain_size)) hello_size in
      let size : length sealed ≡ 32 = omega (arith, sealed_size, plain_size) in
      let few : ltb max_short_id_len (length short_id) ≡ false = le→ltb _ _ short in
      let nonce = to_array_ok 12 (nonce_of random) (length-nonce_of random random_size) in
      let opening = (gcm.decrypt_iff auth_key (nonce_of random) sealed hello _).1 sealing in
      (
        record {
          client_public = dh.public client_private;
          client_private = client_private;
          session_id = sealed;
        },
        rw (few, expanded, nonce, sealing, to_array_ok 32 sealed size) refl,
        size,
        rw (same, expanded, nonce, opening)
            (parse_plaintext-build_plaintext version short_id timestamp three stamp),
      )

  -- A token that the server opens is what AES-GCM makes, under the key from the server's private key,
  -- the client's public key and the handshake's random, with the handshake's bytes as associated data,
  -- of a plaintext with the version, the timestamp and the short id that were read; only its reserved
  -- byte is free.
  pub open_token-sealed :
      (server_private client_public session_id random hello : Bytes) (p : AuthPayload)
      → AreBytes session_id
      → open_token dh hkdf gcm server_private client_public session_id random hello ≡ ok p
      → (auth_key : Bytes) × ((reserved : ℕ) × (derive_auth_key hkdf
              (dh.diffie_hellman server_private client_public)
              random
            ≡ ok auth_key)
          × (gcm.encrypt auth_key
                (nonce_of random)
                (p.version ++ (reserved ∷ (be_bytes 4 p.timestamp ++ p.short_id)))
                hello
              ≡ some session_id)
          × (length p.version ≡ 3)
          × (length p.short_id ≡ 8)
          × (p.timestamp < 2 ^ 32))
  unfolding open_token
  open_token-sealed server_private client_public session_id random hello p bytes e =
      let secret : Bytes = dh.diffie_hellman server_private client_public in
      ok_elim (derive_auth_key hkdf secret random) _ e (λ auth_key derived on_key.
        ok_elim (to_array 12 (nonce_of random)) _ on_key (λ nonce array on_nonce.
          ok_elim (ok_or (gcm.decrypt auth_key nonce session_id hello) (auth_open cipher_refused)) _
            on_nonce
            (λ plaintext opened read.
              let same : nonce ≡ nonce_of random = to_array-eq 12 (nonce_of random) nonce array in
              let decrypted : gcm.decrypt auth_key (nonce_of random) session_id hello
                  ≡ some plaintext =
                ap (λ (n : Bytes). gcm.decrypt auth_key n session_id hello) (sym same)
                ∙ ok_or-some _ _ opened in
              let plain_bytes =
                gcm.decrypt-AreBytes auth_key _ session_id hello plaintext decrypted bytes in
              let (reserved, whole, version_size, id_size, stamp) =
                parse_plaintext-parts plaintext p plain_bytes read in
              (
                auth_key,
                (
                  reserved,
                  derived,
                  ap (λ (m : Bytes). gcm.encrypt auth_key (nonce_of random) m hello) (sym whole)
                      ∙ (gcm.decrypt_iff auth_key (nonce_of random) session_id hello plaintext).0
                          decrypted,
                  version_size,
                  id_size,
                  stamp,
                ),
              ))))

  -- A client with a configuration that `new` made from the server's public key seals with the short id
  -- it picks, and the server opens that token to the default version, the timestamp and the first eight
  -- bytes of the configuration's first short id, or zeros if it has none.
  pub new_opens :
      (server_private : Bytes) (sids : List Bytes) (fingerprint : Fingerprint) (cfg : RealityConfig)
      (client_private : Bytes) (timestamp : ℕ) (random hello : Bytes)
      → new (dh.public server_private) sids fingerprint ≡ ok cfg
      → length client_private ≡ 32
      → length server_private ≡ 32
      → timestamp < 2 ^ 32
      → length random ≡ 32
      → length hello ≤ gcm_max
      → (auth : RealityAuth) × (seal_with_ephemeral dh hkdf gcm client_private cfg.server_public_key
            (pick_short_id cfg)
            cfg.version
            timestamp
            random
            hello
          ≡ ok auth)
        × (open_token dh hkdf gcm server_private auth.client_public auth.session_id random hello
            ≡ ok (record {
              version = default_version;
              timestamp = timestamp;
              short_id = sealed_id (first_or_empty sids);
            }))
  unfolding new with_version pick_short_id
  new_opens server_private sids fingerprint cfg client_private timestamp random hello made
        client_size server_size stamp random_size hello_size =
      ok_elim (check_short_ids sids) _ made (λ u checked built.
        let same = ok-injective built in
        let (auth, sealing, _, opening) =
          open_token-seal_with_ephemeral client_private server_private (first_or_empty sids)
            default_version timestamp random hello client_size server_size
            (first_short sids (check_short_ids-All sids checked)) refl stamp random_size
            hello_size in
        rw (sym same) (auth, sealing, opening))
