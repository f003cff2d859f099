-- ===== src/Pool.antt =====
-- crates/pool-engine/src: the keyed, time-evolving pool of SNIs. This file has the types of entry.rs
-- and error.rs, the epochs of epoch.rs and the seed of kdf.rs.
-- `f64` is a parameter with the operations the crate uses; of `total_cmp` it has the place of each
-- value in the IEEE 754 total order.
pub mod Master
pub mod Sampler
pub mod Window
pub mod Selector
use reality_hydra.Base.{
  ℕ, ◌+◌, ◌-◌, ◌/◌, ◌^◌, min, max, Bool, List, [], ◌∷◌, ◌++◌, Bytes, le_bytes, text_eq, text_le,
  ◌||◌, false,
}
use reality_hydra.Base.Sort.{sort}
use reality_hydra.Proto.{Hmac}

pub record Floats : Type 1 where
  pub F : Type 0
  pub zero_f : F
  pub one_f : F
  pub add : F → F → F
  pub sub : F → F → F
  pub mul : F → F → F
  pub div : F → F → F
  pub ln : F → F
  pub is_finite : F → Bool
  pub le : F → F → Bool
  pub lt : F → F → Bool
  pub total_place : F → ℕ

-- `ChaCha20Rng` and the thread's generator: a state, its seed, and `random::<f64>()`.
pub record Rng (F : Type 0) : Type 1 where
  pub State : Type 0
  pub from_seed : Bytes → State
  pub random : State → F
  pub next : State → State

pub record PoolEntry (F : Type 0) : Type 0 where
  pub sni : Bytes
  pub weight : F

pub record MasterList (F : Type 0) : Type 0 where
  pub entries : List (PoolEntry F)

pub record ActivePool (F : Type 0) : Type 0 where
  pub entries : List (PoolEntry F)

-- The `field` of an error, by the field of the configuration.
pub data Field : Type 0 where
  in_master_secret : Field
  in_server_salt : Field
  in_cert_pin : Field
  in_public_key : Field
  in_private_key : Field

-- What the two messages of `decode_hex` say.
pub data HexError : Type 0 where
  odd_length : ℕ → HexError
  invalid_char : ℕ → HexError

-- The expected lengths are constants and are left out; the error of `toml` is given as text.
pub data PoolError (F : Type 0) : Type 0 where
  empty_master_list : PoolError F
  empty_sni : ℕ → PoolError F
  invalid_weight : ℕ → F → PoolError F
  duplicate_sni : Bytes → PoolError F
  zero_k : PoolError F
  bad_secret_len : ℕ → PoolError F
  bad_salt_len : ℕ → PoolError F
  base64 : Field → Bytes → PoolError F
  unsupported_format : Bytes → PoolError F
  bad_duration : Bytes → PoolError F
  bad_reality_key_len : Field → ℕ → PoolError F
  bad_short_id_hex : ℕ → HexError → PoolError F
  short_id_too_long : ℕ → ℕ → PoolError F
  bad_cert_pin_len : ℕ → PoolError F
  io : Bytes → PoolError F
  toml : Bytes → PoolError F

module _ {F : Type 0} where
  -- `|a, b| a.sni.cmp(&b.sni)`, as "not after".
  abbrev pub by_sni : PoolEntry F → PoolEntry F → Bool
  by_sni a b = text_le a.sni b.sni

  -- `entries.iter().any(|e| e.sni == sni)`
  unfoldable pub has_sni : List (PoolEntry F) → Bytes → Bool
  has_sni [] s = false
  has_sni (e ∷ es) s = text_eq e.sni s || has_sni es s

  abbrev pub contains : ActivePool F → Bytes → Bool
  contains pool s = has_sni pool.entries s

  unfoldable pub from_unsorted : List (PoolEntry F) → ActivePool F
  from_unsorted es = record { entries = sort by_sni es }

-- The largest `u64`, at which `saturating_add` stops.
abbrev pub max_u64 : ℕ
max_u64 = 2 ^ 64 - 1

-- `Duration::as_secs` of the epoch's length is the argument.
unfoldable pub epoch_at : ℕ → ℕ → ℕ
epoch_at unix_secs len = unix_secs / max len 1

abbrev pub epoch_window : ℕ → List ℕ
epoch_window epoch = (epoch - 1) ∷ epoch ∷ min (epoch + 1) max_u64 ∷ []

-- "hydra-pool-v1"
abbrev pub domain_tag : Bytes
domain_tag = 104 ∷ 121 ∷ 100 ∷ 114 ∷ 97 ∷ 45 ∷ 112 ∷ 111 ∷ 111 ∷ 108 ∷ 45 ∷ 118 ∷ 49 ∷ []

abbrev pub salt_len : ℕ
salt_len = 16

abbrev pub secret_len : ℕ
secret_len = 32

unfoldable pub derive_seed : Hmac → Bytes → Bytes → ℕ → Bytes
derive_seed h master_secret server_salt epoch =
    h.finalize master_secret (domain_tag ++ server_salt ++ le_bytes 8 epoch)
