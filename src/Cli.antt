-- ===== src/Cli.antt =====
-- crates/hydra-cli/src: what the commands compute. This file has epoch.rs and the lines and keys of
-- render.rs; `Cli.Render` has the three shapes of its output.
-- The wall clock is an argument; base64 and the writing of JSON are third-party code.
pub mod Names
pub mod Lines
pub mod Render
pub mod Init
pub mod Keygen
pub mod Service
pub mod Server
use reality_hydra.Base.{
  ℕ, Bool, List, [], ◌∷◌, ◌++◌, map, concat, Bytes, ascii, hex_byte, Option, none, some,
  if◌then◌else◌,
}
use reality_hydra.Proto.{Hmac}
use reality_hydra.Pool.{Floats, Rng, PoolEntry, ActivePool, epoch_at}
use reality_hydra.Pool.Sampler.{keyed_epoch_subset}
use reality_hydra.Pool.Window.{accepted_pool_window}
use reality_hydra.Config.{HydraConfig, RealitySettings}

module _ {F : Type 0} where
  -- `now_secs` is what `current_epoch` reads.
  unfoldable pub resolve_epoch : ℕ → HydraConfig F → Option ℕ → Option ℕ → ℕ
  resolve_epoch now_secs cfg at_unix_secs (some e) = e
  resolve_epoch now_secs cfg (some secs) none = epoch_at secs cfg.epoch_len
  resolve_epoch now_secs cfg none none = epoch_at now_secs cfg.epoch_len

  -- `snis`
  unfoldable pub snis : List (PoolEntry F) → List Bytes
  snis es = map (λ e. e.sni) es

module _ (fl : Floats) (rng : Rng fl.F) (h : Hmac) where
  unfoldable pub server_names : HydraConfig fl.F → ℕ → Bool → ActivePool fl.F
  server_names cfg epoch window =
      if window
      then accepted_pool_window fl rng h cfg.master_secret cfg.server_salt cfg.master_list
          cfg.active_k epoch
      else keyed_epoch_subset fl rng h cfg.master_secret cfg.server_salt cfg.master_list epoch
          cfg.active_k

abbrev pub newline : ℕ
newline = 10

-- `join("\n")`
unfoldable pub join_lines : List Bytes → Bytes
join_lines [] = []
join_lines (s ∷ []) = s
join_lines (s ∷ t ∷ ts) = s ++ (newline ∷ join_lines (t ∷ ts))

unfoldable pub render_lines : {F : Type 0} → ActivePool F → Bytes
unfolding join_lines snis
render_lines pool = join_lines (snis pool.entries)

-- `DEST_PLACEHOLDER`
abbrev pub dest_placeholder : Bytes
dest_placeholder = ascii "SET-dest-IN-hydra.toml:443"

hex_of : Bytes → Bytes
hex_of sid = concat (map hex_byte sid)

short_id_texts : List Bytes → List Bytes
short_id_texts [] = [] ∷ []
short_id_texts (sid ∷ sids) = map hex_of (sid ∷ sids)

-- `encode` is base64's.
unfoldable pub reality_keys : (Bytes → Bytes) → Option RealitySettings → Bytes × List Bytes
unfolding short_id_texts hex_of
reality_keys encode none = (ascii "SET-from-`xray x25519`", [] ∷ [])
reality_keys encode (some r) = (private_text r.private_key, short_id_texts r.short_ids)
  where
    private_text : Option Bytes → Bytes
    private_text none = ascii "SET-privateKey-IN-[reality]"
    private_text (some k) = encode k

unwrap_or : Option Bytes → Bytes → Bytes
unwrap_or none other = other
unwrap_or (some a) other = a

-- The fields of the inbound that are not fixed.
pub record XrayInbound : Type 0 where
  pub epoch : ℕ
  pub active_k : ℕ
  pub dest : Bytes
  pub server_names : List Bytes
  pub private_key : Bytes
  pub short_ids : List Bytes

unfoldable pub xray_inbound :
    {F : Type 0} → (Bytes → Bytes) → HydraConfig F → ActivePool F → ℕ → XrayInbound
unfolding reality_keys unwrap_or snis
xray_inbound encode cfg pool epoch =
    let (private_key, short_ids) = reality_keys encode cfg.reality in
    record {
      epoch = epoch;
      active_k = cfg.active_k;
      dest = unwrap_or cfg.dest dest_placeholder;
      server_names = snis pool.entries;
      private_key = private_key;
      short_ids = short_ids;
    }
