-- ===== src/Config/Checked.antt =====
-- What a configuration that was accepted is sure to have.
use mathlib.Core.Path.{subst}
use reality_hydra.Base.{
  ◌≢◌, ℕ, suc, ◌≤◌, ◌≡◌, inl, inr, false, not, List, [], ◌∷◌, Bytes, length, All, Option, none,
  some, arith, Result, ok, ok_elim, ensure_elim, ok-injective, if-cases, leb, leb→le, ◌==◌, ==_iff,
  text_eq, text_eq→eq, map_err,
}
use reality_hydra.Base.Sort.{IsSorted}
use reality_hydra.Pool.{
  Floats, Field, by_sni, domain_tag, salt_len, secret_len, bad_short_id_hex, in_private_key,
  in_public_key, in_master_secret, in_server_salt, bad_reality_key_len, bad_secret_len,
  bad_salt_len, bad_cert_pin_len, in_cert_pin,
}
use reality_hydra.Pool.Master.{new}
use reality_hydra.Pool.Master.Valid.{IsValid, IsDistinct, new-IsDistinct, new_some}
use reality_hydra.Config.{
  RealitySettings, HydraConfig, RawReality, RawConfig, Base64, decode_hex, decode_b64, decode_key,
  decode_short_ids, into_settings, decode_pin, into_config, try_into, transpose, parse_duration,
  max_short_id_len, reality_key_len,
}

-- The property of what is there, if anything is.
abbrev pub WhenSome : {A : Type 0} → (A → Type 0) → Option A → Type 0
WhenSome P none = Unit
WhenSome P (some a) = P a

try_into-length :
    {E : Type 0} (n : ℕ) (bad : ℕ → E) (bytes : Bytes) {out : Bytes}
    → try_into n bad bytes ≡ ok out
    → length out ≡ n
try_into-length n bad bytes h = elim (if-cases (length bytes == n) h) [
  | inl fits ↦ subst (λ b. length b ≡ n) (ok-injective fits.1) ((==_iff (length bytes) n).0 fits.0)
  | inr other ↦ cc
]

transpose-WhenSome :
    {E A B : Type 0} (P : B → Type 0) (f : A → Result E B) (o : Option A) {out : Option B}
    → ((a : A) (b : B) → f a ≡ ok b → P b)
    → transpose f o ≡ ok out
    → WhenSome P out
unfolding transpose
transpose-WhenSome P f none good h = subst (WhenSome P) (ok-injective h) tt
transpose-WhenSome P f (some a) good h =
    ok_elim (f a) _ h λ b got made. subst (WhenSome P) (ok-injective made) (good a b got)

-- The keys are 32 bytes and the short ids at most 32.
abbrev pub IsSettings : RealitySettings → Type 0
IsSettings r =
    (length r.public_key ≡ reality_key_len)
    × WhenSome (λ k. length k ≡ reality_key_len) r.private_key
    × All (λ id. length id ≤ max_short_id_len) r.short_ids

module _ {F : Type 0} (b64 : Base64) where
  decode_short_ids-All :
      (index : ℕ) (hexes : List Bytes) {ids : List Bytes}
      → decode_short_ids {F = F} b64 index hexes ≡ ok ids
      → All (λ id. length id ≤ max_short_id_len) ids
  unfolding decode_short_ids
  decode_short_ids-All index [] h = subst (All _) (ok-injective h) tt
  decode_short_ids-All index (hex ∷ rest) h =
      ok_elim (map_err (bad_short_id_hex index) (decode_hex hex)) _ h λ bytes got h.
        ensure_elim (leb (length bytes) max_short_id_len) _ _ h λ short h.
          ok_elim (decode_short_ids b64 (suc index) rest) _ h λ more those made.
            subst (All _) (ok-injective made)
              (leb→le _ _ short, decode_short_ids-All (suc index) rest those)

  decode_key-length :
      (field : Field) (value : Bytes) {key : Bytes}
      → decode_key {F = F} b64 field value ≡ ok key
      → length key ≡ reality_key_len
  unfolding decode_key
  decode_key-length field value h =
      ok_elim (decode_b64 b64 field value) _ h
        λ bytes _ h. try_into-length reality_key_len (bad_reality_key_len field) bytes h

  into_settings-IsSettings :
      (raw : RawReality) {r : RealitySettings} → into_settings {F = F} b64 raw ≡ ok r → IsSettings r
  unfolding into_settings
  into_settings-IsSettings raw h =
      ok_elim (decode_key b64 in_public_key raw.public_key) _ h λ public got h.
        ok_elim (transpose (decode_key b64 in_private_key) raw.private_key) _ h λ private there h.
          ok_elim (decode_short_ids b64 0 raw.short_ids) _ h λ ids those made.
            subst IsSettings (ok-injective made) (
              decode_key-length in_public_key raw.public_key got,
              transpose-WhenSome (λ k. length k ≡ reality_key_len) (decode_key b64 in_private_key)
                  raw.private_key (λ a b. decode_key-length in_private_key a) there,
              decode_short_ids-All 0 raw.short_ids those,
            )

  decode_pin-length :
      (s : Bytes) {pin : Bytes} → decode_pin {F = F} b64 s ≡ ok pin → length pin ≡ 32
  unfolding decode_pin
  decode_pin-length s h =
      ok_elim (decode_b64 b64 in_cert_pin s) _ h
        λ bytes _ h. try_into-length 32 bad_cert_pin_len bytes h

module _ (fl : Floats) (b64 : Base64) where
  -- Keys, salt and pin of their lengths, at least one active SNI, a valid master list in strictly
  -- ascending order.
  pub record IsChecked (c : HydraConfig fl.F) : Type 0 where
    pub secret : length c.master_secret ≡ secret_len
    pub salt : length c.server_salt ≡ salt_len
    pub some_active : (c.active_k == 0) ≡ false
    pub valid : All (IsValid fl) c.master_list.entries
    pub some_entry : c.master_list.entries ≢ []
    pub sorted : IsSorted by_sni c.master_list.entries
    pub distinct : IsDistinct c.master_list.entries
    pub settings : WhenSome IsSettings c.reality
    pub pin : WhenSome (λ p. length p ≡ 32) c.cert_pin

  -- A configuration that is accepted has keys, salt, pin and short ids of their lengths, at least one
  -- active SNI, and a valid master list, not empty and in strictly ascending order; and its file had
  -- the format of this build.
  pub into_config-IsChecked :
      (raw : RawConfig fl.F) {c : HydraConfig fl.F}
      → into_config fl b64 raw ≡ ok c
      → IsChecked c × (raw.pool_format ≡ domain_tag)
  unfolding into_config
  into_config-IsChecked raw h = ensure_elim (text_eq raw.pool_format domain_tag) _ _ h λ format h.
      ok_elim (decode_b64 b64 in_master_secret raw.master_secret) _ h λ secret_bytes _ h.
        ok_elim (try_into secret_len bad_secret_len secret_bytes) _ h λ secret is_secret h.
          ok_elim (decode_b64 b64 in_server_salt raw.server_salt) _ h λ salt_bytes _ h.
            ok_elim (try_into salt_len bad_salt_len salt_bytes) _ h λ salt is_salt h.
              ensure_elim (not (raw.active_k == 0)) _ _ h λ active h.
                ok_elim (parse_duration raw.epoch_len) _ h λ epoch_len _ h.
                  ok_elim (new fl raw.pool) _ h λ master made_list h.
                    ok_elim (transpose (into_settings b64) raw.reality) _ h
                      λ reality are_settings h.
                        ok_elim (transpose (decode_pin b64) raw.cert_pin) _ h λ pin is_pin made.
                          let list = new-IsDistinct fl raw.pool made_list in
                          (
                            subst IsChecked (ok-injective made) (record {
                              secret =
                                  try_into-length secret_len bad_secret_len secret_bytes is_secret;
                              salt = try_into-length salt_len bad_salt_len salt_bytes is_salt;
                              some_active = ground arith;
                              valid = list.1;
                              some_entry = new_some fl raw.pool made_list;
                              sorted = list.2;
                              distinct = list.3;
                              settings =
                                  transpose-WhenSome IsSettings (into_settings b64) raw.reality
                                    (λ a b. into_settings-IsSettings b64 a) are_settings;
                              pin =
                                  transpose-WhenSome (λ p. length p ≡ 32) (decode_pin b64)
                                    raw.cert_pin (λ a b. decode_pin-length b64 a) is_pin;
                            }),
                            text_eq→eq raw.pool_format domain_tag format,
                          )
