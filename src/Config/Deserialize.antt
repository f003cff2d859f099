-- ===== src/Config/Deserialize.antt =====
-- crates/pool-engine/src/config.rs: `RawConfig` and `RawReality`, and `PoolEntry` of
-- crates/pool-engine/src/entry.rs, as their `Deserialize` reads them from a document. An unknown key is
-- ignored. `decimals n` is the floating-point number n / 10.
use reality_hydra.Base.{
  ℕ, ◌*◌, ◌≡◌, true, List, [], ◌∷◌, Bytes, ascii, get, Option, none, some, Result, ok, err, ◌>>=◌,
  StringMap,
}
use reality_hydra.Pool.{PoolEntry, domain_tag}
use reality_hydra.Config.{RawConfig, RawReality}
use reality_hydra.Config.Load.{Toml}
use reality_hydra.Config.Document.{
  Value, text, integer, tenths, only, column, Line, Node, leaf, single, elements, DocumentError,
  missing, mistyped, document_of, document_text, valid_lines,
}

abbrev pub Deserialized : Type 0 → Type 0
Deserialized A = Result DocumentError A

unfoldable pub string_of : Bytes → Option Value → Deserialized (Option Bytes)
string_of key none = ok none
string_of key (some (text s)) = ok (some s)
string_of key (some (integer n)) = err (mistyped key)
string_of key (some (tenths n)) = err (mistyped key)
string_of key (some (only s)) = err (mistyped key)
string_of key (some (column texts)) = err (mistyped key)

-- `#[serde(default)]` of a list.
unfoldable pub strings_of : Bytes → Option Value → Deserialized (List Bytes)
strings_of key none = ok []
strings_of key (some (only s)) = ok (s ∷ [])
strings_of key (some (column texts)) = ok texts
strings_of key (some (text s)) = err (mistyped key)
strings_of key (some (integer n)) = err (mistyped key)
strings_of key (some (tenths n)) = err (mistyped key)

unfoldable pub integer_of : Bytes → Option Value → Deserialized ℕ
integer_of key none = err (missing key)
integer_of key (some (integer n)) = ok n
integer_of key (some (tenths n)) = err (mistyped key)
integer_of key (some (text s)) = err (mistyped key)
integer_of key (some (only s)) = err (mistyped key)
integer_of key (some (column texts)) = err (mistyped key)

-- A field that has to be there.
unfoldable pub required : {A : Type 0} → Bytes → Option A → Deserialized A
required key none = err (missing key)
required key (some a) = ok a

-- `#[serde(default = "...")]`
unfoldable pub or_default : {A : Type 0} → A → Option A → A
or_default a none = a
or_default a (some b) = b

-- The value of a key of the document, if it is no table.
unfoldable pub value_of : Bytes → Option Node → Deserialized (Option Value)
value_of key none = ok none
value_of key (some (leaf v)) = ok (some v)
value_of key (some (single t)) = err (mistyped key)
value_of key (some (elements ts)) = err (mistyped key)

unfoldable pub string_at : StringMap Node → Bytes → Deserialized (Option Bytes)
unfolding value_of string_of
string_at d key = value_of key (get d key) >>= string_of key

unfoldable pub reality_from : StringMap Value → Deserialized RawReality
unfolding string_of strings_of required or_default ascii
reality_from t = string_of (ascii "private_key") (get t (ascii "private_key")) >>= λ private_key.
    string_of (ascii "public_key") (get t (ascii "public_key"))
    >>= required (ascii "public_key")
    >>= λ public_key. strings_of (ascii "short_ids") (get t (ascii "short_ids")) >>= λ short_ids.
        string_of (ascii "fingerprint") (get t (ascii "fingerprint")) >>= λ fingerprint.
        ok (record {
          private_key = private_key;
          public_key = public_key;
          short_ids = short_ids;
          fingerprint = or_default (ascii "chrome") fingerprint;
        })

unfoldable pub reality_of : Bytes → Option Node → Deserialized (Option RawReality)
unfolding reality_from
reality_of key none = ok none
reality_of key (some (single t)) = reality_from t >>= λ r. ok (some r)
reality_of key (some (leaf v)) = err (mistyped key)
reality_of key (some (elements ts)) = err (mistyped key)

module _ {F : Type 0} (decimals : ℕ → F) where
  -- An integer is taken for a floating-point number.
  unfoldable pub float_of : Bytes → Option Value → Deserialized F
  float_of key none = err (missing key)
  float_of key (some (tenths n)) = ok (decimals n)
  float_of key (some (integer n)) = ok (decimals (n * 10))
  float_of key (some (text s)) = err (mistyped key)
  float_of key (some (only s)) = err (mistyped key)
  float_of key (some (column texts)) = err (mistyped key)

  unfoldable pub entry_from : StringMap Value → Deserialized (PoolEntry F)
  unfolding string_of required float_of ascii
  entry_from t = string_of (ascii "sni") (get t (ascii "sni")) >>= required (ascii "sni") >>= λ sni.
      float_of (ascii "weight") (get t (ascii "weight")) >>= λ weight.
      ok (record { sni = sni; weight = weight })

  unfoldable pub entries_from : List (StringMap Value) → Deserialized (List (PoolEntry F))
  unfolding entry_from
  entries_from [] = ok []
  entries_from (t ∷ ts) = entry_from t >>= λ e. entries_from ts >>= λ es. ok (e ∷ es)

  unfoldable pub pool_of : Bytes → Option Node → Deserialized (List (PoolEntry F))
  unfolding entries_from
  pool_of key none = ok []
  pool_of key (some (elements ts)) = entries_from ts
  pool_of key (some (leaf v)) = err (mistyped key)
  pool_of key (some (single t)) = err (mistyped key)

  unfoldable pub config_from : StringMap Node → Deserialized (RawConfig F)
  unfolding string_at value_of strings_of integer_of required or_default reality_of pool_of ascii
  config_from d =
      string_at d (ascii "master_secret") >>= required (ascii "master_secret") >>= λ master_secret.
      string_at d (ascii "server_salt") >>= required (ascii "server_salt") >>= λ server_salt.
      string_at d (ascii "pool_format") >>= λ pool_format.
      string_at d (ascii "epoch_len") >>= λ epoch_len.
      value_of (ascii "active_k") (get d (ascii "active_k"))
      >>= integer_of (ascii "active_k")
      >>= λ active_k. string_at d (ascii "dest") >>= λ dest.
          value_of (ascii "coherence_cidrs") (get d (ascii "coherence_cidrs"))
          >>= strings_of (ascii "coherence_cidrs")
          >>= λ coherence_cidrs. pool_of (ascii "pool") (get d (ascii "pool")) >>= λ pool.
              reality_of (ascii "reality") (get d (ascii "reality")) >>= λ reality.
              string_at d (ascii "server_addr") >>= λ server_addr.
              string_at d (ascii "cert_pin") >>= λ cert_pin. ok (record {
                master_secret = master_secret;
                server_salt = server_salt;
                pool_format = or_default domain_tag pool_format;
                epoch_len = or_default (ascii "6h") epoch_len;
                active_k = active_k;
                dest = dest;
                coherence_cidrs = coherence_cidrs;
                pool = pool;
                reality = reality;
                server_addr = server_addr;
                cert_pin = cert_pin;
              })

  unfoldable pub deserialize : List Line → Deserialized (RawConfig F)
  unfolding document_of config_from
  deserialize lines = document_of lines >>= config_from

  -- `toml::from_str` reads the text of these lines, if they are TOML, as they are read above.
  abbrev pub Parses : Toml F → List Line → Type 0
  Parses parser lines =
      valid_lines lines ≡ true
      → (raw : RawConfig F) → deserialize lines ≡ ok raw
      → parser.from_str (document_text lines) ≡ ok raw
