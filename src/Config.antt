-- ===== src/Config.antt =====
-- crates/pool-engine/src/config.rs: from the raw fields of the TOML file to a checked configuration.
-- TOML is parsed by `toml`; base64 is a parameter, its error given as text.
pub mod Checked
pub mod Hex
pub mod Standard
pub mod Load
pub mod Document
pub mod Deserialize
use reality_hydra.Base.{
  ℕ, suc, ◌+◌, ◌-◌, ◌*◌, ◌%◌, ◌^◌, ◌&&◌, not, List, [], ◌∷◌, Bytes, length, take, drop, get_elem?,
  Option, none, some, ltb, leb, ◌==◌, if◌then◌else◌, text_eq, trim, Result, ok, err, panic, ◌>>=◌,
  ◌>>◌, ensure, ok_or, map_err,
}
use reality_hydra.Pool.{
  Floats, PoolEntry, MasterList, Field, in_master_secret, in_server_salt, in_cert_pin,
  in_public_key, in_private_key, HexError, odd_length, invalid_char, PoolError, zero_k,
  bad_secret_len, bad_salt_len, base64, unsupported_format, bad_duration, bad_reality_key_len,
  bad_short_id_hex, short_id_too_long, bad_cert_pin_len, domain_tag, salt_len, secret_len,
}
use reality_hydra.Pool.Master.{new}

abbrev pub reality_key_len : ℕ
reality_key_len = 32

abbrev pub max_short_id_len : ℕ
max_short_id_len = 32

pub record RealitySettings : Type 0 where
  pub private_key : Option Bytes
  pub public_key : Bytes
  pub short_ids : List Bytes
  pub fingerprint : Bytes

pub record HydraConfig (F : Type 0) : Type 0 where
  pub master_secret : Bytes
  pub server_salt : Bytes
  pub epoch_len : ℕ
  pub active_k : ℕ
  pub master_list : MasterList F
  pub dest : Option Bytes
  pub coherence_cidrs : List Bytes
  pub reality : Option RealitySettings
  pub server_addr : Option Bytes
  pub cert_pin : Option Bytes

pub record RawReality : Type 0 where
  pub private_key : Option Bytes
  pub public_key : Bytes
  pub short_ids : List Bytes
  pub fingerprint : Bytes

pub record RawConfig (F : Type 0) : Type 0 where
  pub master_secret : Bytes
  pub server_salt : Bytes
  pub pool_format : Bytes
  pub epoch_len : Bytes
  pub active_k : ℕ
  pub dest : Option Bytes
  pub coherence_cidrs : List Bytes
  pub pool : List (PoolEntry F)
  pub reality : Option RawReality
  pub server_addr : Option Bytes
  pub cert_pin : Option Bytes

-- `base64::engine::general_purpose::STANDARD.decode`
pub record Base64 : Type 0 where
  pub decode : Bytes → Result Bytes Bytes

-- The closure `nibble`.
unfoldable pub nibble : ℕ → Result HexError ℕ
nibble c =
    if leb 48 c && leb c 57
    then ok (c - 48)
    else (if leb 97 c && leb c 102
        then ok (c - 97 + 10)
        else (if leb 65 c && leb c 70 then ok (c - 65 + 10) else err (invalid_char c)))

-- The loop over `chunks_exact(2)`: a last odd byte is left out.
unfoldable pub decode_pairs : Bytes → Result HexError Bytes
unfolding nibble
decode_pairs (a ∷ b ∷ s) = nibble a >>= λ high.
    nibble b >>= λ low. decode_pairs s >>= λ rest. ok ((high * 16 + low) ∷ rest)
decode_pairs _ = ok []

unfoldable pub decode_hex : Bytes → Result HexError Bytes
decode_hex s =
    let s = trim s in if length s % 2 == 0 then decode_pairs s else err (odd_length (length s))

-- `str::parse::<u64>`: digits, a `+` before them, and no value past 64 bits.
digits_value : ℕ → Bytes → Option ℕ
digits_value acc [] = some acc
digits_value acc (c ∷ s) =
    let rest = digits_value (acc * 10 + (c - 48)) s in
    if leb 48 c && leb c 57 && ltb (acc * 10 + (c - 48)) (2 ^ 64) then rest else none

unfoldable pub parse_u64 : Bytes → Option ℕ
unfolding digits_value
parse_u64 [] = none
parse_u64 (c ∷ []) = digits_value 0 (c ∷ [])
parse_u64 (c ∷ d ∷ s) = if c == 43 then digits_value 0 (d ∷ s) else digits_value 0 (c ∷ d ∷ s)

-- `u64::checked_mul`
abbrev pub checked_mul : ℕ → ℕ → Option ℕ
checked_mul a b = if ltb (a * b) (2 ^ 64) then some (a * b) else none

module _ {F : Type 0} where
  -- The `match unit`.
  unfoldable pub unit_secs : Bytes → ℕ → ℕ → Result (PoolError F) (Option ℕ)
  unit_secs s unit n =
      if unit == 104
      then ok (checked_mul n 3600)
      else (if unit == 109
          then ok (checked_mul n 60)
          else (if unit == 115 then ok (some n) else err (bad_duration s)))

  -- With the text in its two parts; a last byte inside a character makes `split_at` panic.
  unfoldable pub parse_parts : Bytes → Option ℕ → Bytes → Result (PoolError F) ℕ
  parse_parts s none num = err (bad_duration s)
  parse_parts s (some unit) num =
      if leb 128 unit && ltb unit 192
      then panic
      else (ok_or (parse_u64 num) (bad_duration s) >>= λ n.
          unit_secs s unit n >>= λ secs. ok_or secs (bad_duration s))

  unfoldable pub parse_duration : Bytes → Result (PoolError F) ℕ
  unfolding parse_parts
  parse_duration text =
      let s = trim text in parse_parts s (get_elem? s (length s - 1)) (take (length s - 1) s)

-- "base64:"
abbrev pub b64_prefix : Bytes
b64_prefix = 98 ∷ 97 ∷ 115 ∷ 101 ∷ 54 ∷ 52 ∷ 58 ∷ []

-- `value.strip_prefix("base64:").unwrap_or(value)`
unfoldable pub strip_b64 : Bytes → Bytes
strip_b64 value = if text_eq (take 7 value) b64_prefix then drop 7 value else value

-- `try_into` of a slice to an array of `n` bytes.
abbrev pub try_into : {E : Type 0} → ℕ → (ℕ → E) → Bytes → Result E Bytes
try_into n bad bytes = if length bytes == n then ok bytes else err (bad (length bytes))

-- `Option::map(f).transpose()`, also the matches on an optional field.
unfoldable pub transpose {ℓ κ} :
    {E : Type 0} {A : Type ℓ} {B : Type κ} → (A → Result E B) → Option A → Result E (Option B)
transpose f none = ok none
transpose f (some a) = f a >>= λ b. ok (some b)

module _ {F : Type 0} (b64 : Base64) where
  unfoldable pub decode_b64 : Field → Bytes → Result (PoolError F) Bytes
  unfolding strip_b64
  decode_b64 field value = map_err (base64 field) (b64.decode (trim (strip_b64 value)))

  unfoldable pub decode_key : Field → Bytes → Result (PoolError F) Bytes
  decode_key field value =
      decode_b64 field value >>= try_into reality_key_len (bad_reality_key_len field)

  -- The loop over the short ids, from the index on.
  unfoldable pub decode_short_ids : ℕ → List Bytes → Result (PoolError F) (List Bytes)
  decode_short_ids index [] = ok []
  decode_short_ids index (hex ∷ rest) =
      map_err (bad_short_id_hex index) (decode_hex hex) >>= λ bytes.
      ensure (leb (length bytes) max_short_id_len) (short_id_too_long index (length bytes))
      >> (decode_short_ids (suc index) rest >>= λ ids. ok (bytes ∷ ids))

  unfoldable pub into_settings : RawReality → Result (PoolError F) RealitySettings
  into_settings raw = decode_key in_public_key raw.public_key >>= λ public_key.
      transpose (decode_key in_private_key) raw.private_key >>= λ private_key.
      decode_short_ids 0 raw.short_ids >>= λ short_ids. ok (record {
        private_key = private_key;
        public_key = public_key;
        short_ids = short_ids;
        fingerprint = raw.fingerprint;
      })

  unfoldable pub decode_pin : Bytes → Result (PoolError F) Bytes
  decode_pin s = decode_b64 in_cert_pin s >>= try_into 32 bad_cert_pin_len

module _ (fl : Floats) (b64 : Base64) where
  unfoldable pub into_config : RawConfig fl.F → Result (PoolError fl.F) (HydraConfig fl.F)
  into_config raw =
      ensure (text_eq raw.pool_format domain_tag) (unsupported_format raw.pool_format)
      >> (decode_b64 b64 in_master_secret raw.master_secret >>= λ secret_bytes.
          try_into secret_len bad_secret_len secret_bytes >>= λ master_secret.
          decode_b64 b64 in_server_salt raw.server_salt >>= λ salt_bytes.
          try_into salt_len bad_salt_len salt_bytes >>= λ server_salt.
          ensure (not (raw.active_k == 0)) zero_k
          >> (parse_duration raw.epoch_len >>= λ epoch_len. new fl raw.pool >>= λ master_list.
              transpose (into_settings b64) raw.reality >>= λ reality.
              transpose (decode_pin b64) raw.cert_pin >>= λ cert_pin. ok (record {
                master_secret = master_secret;
                server_salt = server_salt;
                epoch_len = epoch_len;
                active_k = raw.active_k;
                master_list = master_list;
                dest = raw.dest;
                coherence_cidrs = raw.coherence_cidrs;
                reality = reality;
                server_addr = raw.server_addr;
                cert_pin = cert_pin;
              })))
