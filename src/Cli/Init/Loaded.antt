-- ===== src/Cli/Init/Loaded.antt =====
-- The file that `init` writes, loaded.
use reality_hydra.Base.{
  ℕ, ◌<◌, ◌≡◌, ◌≢◌, refl, none, some, true, false, List, [], ◌∷◌, ◌++◌, map, take, Bytes, AreBytes,
  IsByte, All, All-take, length, length-take, ascii, text_eq, text_le, text_eq_self, ==_iff, arith,
  ok, leb, le→leb, ◌==◌,
}
use reality_hydra.Base.Sort.{sort, insert}
use reality_hydra.Pool.{
  Floats, PoolEntry, by_sni, domain_tag, in_public_key, in_private_key, in_master_secret,
  in_server_salt,
}
use reality_hydra.Pool.Master.{new, is_empty, bad_weight, check_pairs}
use reality_hydra.Pool.Master.Valid.{IsValid, check_entries_iff}
use reality_hydra.Config.{
  RawConfig, HydraConfig, RealitySettings, Base64, b64_prefix, parse_duration, into_config,
  into_settings, decode_short_ids, transpose,
}
use reality_hydra.Config.Hex.{decode_hex-hex_text}
use reality_hydra.Config.Standard.{Standard, decode_b64-prefix, decode_key-prefix}
use reality_hydra.Reality.Auth.{X25519, generate_keypair}
use reality_hydra.Cli.Init.{InitArgs, default_pool, default_cidrs, Drawn, Filling, filling}

default_pool_plain : All (λ (p : Bytes × ℕ). (is_empty p.0 ≡ false) × (0 < p.1)) default_pool
unfolding default_pool ascii
default_pool_plain = ground arith

module _ (fl : Floats) (tenths : ℕ → fl.F) where
  abbrev pub entry_of : Bytes × ℕ → PoolEntry fl.F
  entry_of p = record { sni = p.0; weight = tenths p.1 }

  -- The entries of the default pool.
  abbrev pub default_entries : List (PoolEntry fl.F)
  default_entries = map entry_of default_pool

  -- The values that the template gives to the keys.
  abbrev pub raw_of : InitArgs → Filling → RawConfig fl.F
  raw_of args f = record {
    master_secret = b64_prefix ++ f.ms;
    server_salt = b64_prefix ++ f.ss;
    pool_format = domain_tag;
    epoch_len = args.epoch_len;
    active_k = args.active_k;
    dest = some args.dest;
    coherence_cidrs = default_cidrs;
    pool = default_entries;
    reality = some (record {
      private_key = some (b64_prefix ++ f.pk);
      public_key = b64_prefix ++ f.pbk;
      short_ids = f.sid ∷ [];
      fingerprint = ascii "chrome";
    });
    server_addr = none;
    cert_pin = none;
  }

  entries-IsValid :
      (pool : List (Bytes × ℕ))
      → ((n : ℕ) → 0 < n → bad_weight fl (tenths n) ≡ false)
      → All (λ (p : Bytes × ℕ). (is_empty p.0 ≡ false) × (0 < p.1)) pool
      → All (IsValid fl) (map entry_of pool)
  entries-IsValid [] weights a = tt
  entries-IsValid (p ∷ pool) weights a =
      ((a.0.0, weights p.1 a.0.1), entries-IsValid pool weights a.1)

  default_entries-apart : check_pairs fl (sort by_sni default_entries) ≡ ok tt
  unfolding default_pool check_pairs sort insert text_le text_eq ascii
  default_entries-apart = refl

  new-default_entries :
      ((n : ℕ) → 0 < n → bad_weight fl (tenths n) ≡ false)
      → new fl default_entries ≡ ok (record { entries = sort by_sni default_entries })
  unfolding new default_pool
  new-default_entries weights =
      rw
        (
          (check_entries_iff fl 0 default_entries).1
              (entries-IsValid default_pool weights default_pool_plain),
          default_entries-apart,
        )
        refl

  abbrev pub settings_of : Drawn → Bytes → RealitySettings
  settings_of drawn public_key = record {
    private_key = some drawn.private_key;
    public_key = public_key;
    short_ids = take 8 drawn.sid_src ∷ [];
    fingerprint = ascii "chrome";
  }

  abbrev pub config_of : InitArgs → ℕ → Drawn → Bytes → HydraConfig fl.F
  config_of args epoch_len drawn public_key = record {
    master_secret = drawn.master_secret;
    server_salt = take 16 drawn.salt_src;
    epoch_len = epoch_len;
    active_k = args.active_k;
    master_list = record { entries = sort by_sni default_entries };
    dest = some args.dest;
    coherence_cidrs = default_cidrs;
    reality = some (settings_of drawn public_key);
    server_addr = none;
    cert_pin = none;
  }

  -- The generator gives 32 bytes each time.
  pub record IsDrawn (drawn : Drawn) : Type 0 where
    pub master : AreBytes drawn.master_secret × (length drawn.master_secret ≡ 32)
    pub salt : AreBytes drawn.salt_src × (length drawn.salt_src ≡ 32)
    pub sid : AreBytes drawn.sid_src × (length drawn.sid_src ≡ 32)
    pub private : AreBytes drawn.private_key × (length drawn.private_key ≡ 32)

  module _ (dh : X25519) (b64 : Base64) (base64_encode : Bytes → Bytes)
      (standard : Standard base64_encode b64)
      (weights : (n : ℕ) → 0 < n → bad_weight fl (tenths n) ≡ false) where
    into_settings-raw_of :
        (f : Filling) (drawn : Drawn)
        → f ≡ filling dh base64_encode drawn
        → IsDrawn drawn
        → AreBytes (dh.public drawn.private_key)
        → into_settings {F = fl.F} b64 (record {
          private_key = some (b64_prefix ++ f.pk);
          public_key = b64_prefix ++ f.pbk;
          short_ids = f.sid ∷ [];
          fingerprint = ascii "chrome";
        })
          ≡ ok (settings_of drawn (dh.public drawn.private_key))
    unfolding filling generate_keypair transpose into_settings decode_short_ids
    into_settings-raw_of f drawn e is public =
        let sid = take 8 drawn.sid_src in
        let short : leb (length sid) 32 ≡ true =
          le→leb _ _ (omega (arith, length-take 8 drawn.sid_src)) in
        rw
          (
            e,
            decode_key-prefix b64 base64_encode standard in_public_key (dh.public drawn.private_key)
                public (dh.length-public drawn.private_key is.private.1),
            decode_key-prefix b64 base64_encode standard in_private_key drawn.private_key
                is.private.0 is.private.1,
            decode_hex-hex_text sid (All-take IsByte 8 drawn.sid_src is.sid.0),
            short,
          )
          refl

    pub into_config-raw_of :
        (args : InitArgs) (drawn : Drawn) (epoch_len : ℕ)
        → IsDrawn drawn
        → args.active_k ≢ 0
        → parse_duration {F = fl.F} args.epoch_len ≡ ok epoch_len
        → AreBytes (dh.public drawn.private_key)
        → into_config fl b64 (raw_of args (filling dh base64_encode drawn))
          ≡ ok (config_of args epoch_len drawn (dh.public drawn.private_key))
    unfolding into_config filling transpose
    into_config-raw_of args drawn epoch_len is active lasts public =
        let salt = take 16 drawn.salt_src in
        let salted : (length salt == 16) ≡ true =
          (==_iff _ _).1 (omega (arith, length-take 16 drawn.salt_src, is.salt.1)) in
        let some_active : (args.active_k == 0) ≡ false = ground arith in
        rw
          (
            text_eq_self domain_tag,
            decode_b64-prefix b64 base64_encode standard in_master_secret drawn.master_secret
                is.master.0,
            (==_iff _ _).1 is.master.1,
            decode_b64-prefix b64 base64_encode standard in_server_salt salt
                (All-take IsByte 16 drawn.salt_src is.salt.0),
            salted,
            some_active,
            lasts,
            new-default_entries weights,
            into_settings-raw_of (filling dh base64_encode drawn) drawn refl is public,
          )
          refl
