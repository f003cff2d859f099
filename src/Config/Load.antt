-- ===== src/Config/Load.antt =====
-- crates/pool-engine/src/config.rs: a configuration from its text and from its file.
use reality_hydra.Base.{
  ◌≡◌, refl, true, Bytes, Result, err, ◌>>=◌, map_err, if◌then◌else◌, Option, none, some, Disk,
  FileTable, read_file, is_utf8,
}
use reality_hydra.Pool.{Floats, PoolError, io, toml}
use reality_hydra.Config.{RawConfig, HydraConfig, Base64, into_config}

-- `toml::from_str` with the derived `Deserialize`, its error as text.
pub record Toml (F : Type 0) : Type 0 where
  pub from_str : Bytes → Result Bytes (RawConfig F)

as_text : Option Bytes → Option Bytes
as_text none = none
as_text (some s) = if is_utf8 s then some s else none

-- `std::fs::read_to_string`, `none` for its error.
unfoldable pub read_to_string : Disk → FileTable → Bytes → Option Bytes
unfolding as_text
read_to_string disk files path = as_text (read_file disk files path)

module _ (fl : Floats) (b64 : Base64) (parser : Toml fl.F) where
  unfoldable pub from_toml_str : Bytes → Result (PoolError fl.F) (HydraConfig fl.F)
  from_toml_str s = map_err toml (parser.from_str s) >>= into_config fl b64

  from_text : Bytes → Option Bytes → Result (PoolError fl.F) (HydraConfig fl.F)
  unfolding from_toml_str
  from_text path none = err (io path)
  from_text path (some s) = from_toml_str s

  unfoldable pub from_file : Disk → FileTable → Bytes → Result (PoolError fl.F) (HydraConfig fl.F)
  unfolding from_text read_to_string
  from_file disk files path = from_text path (read_to_string disk files path)

  -- A readable file of text is loaded as its text.
  pub from_file-from_toml_str :
      (disk : Disk) (files : FileTable) (path s : Bytes)
      → read_file disk files path ≡ some s
      → is_utf8 s ≡ true
      → from_file disk files path ≡ from_toml_str s
  unfolding from_file from_text read_to_string as_text
  from_file-from_toml_str disk files path s there text = rw (there, text) refl
