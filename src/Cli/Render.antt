-- ===== src/Cli/Render.antt =====
-- crates/hydra-cli/src/render.rs: the three shapes of the output, and `server-names` of main.rs. What
-- serde_json makes of a value is a parameter, with the error that it may answer.
pub mod Listed
use reality_hydra.Base.{
  ℕ, Bool, not, List, [], ◌∷◌, Bytes, ascii, utf8, Option, none, Result, ok, map_err, ◌>>=◌, Disk,
  FileTable,
}
use reality_hydra.Proto.{Hmac}
use reality_hydra.Pool.{Floats, Rng, PoolError, ActivePool}
use reality_hydra.Config.{Base64, HydraConfig}
use reality_hydra.Config.Load.{Toml, from_file}
use reality_hydra.Cli.{XrayInbound, snis, resolve_epoch, server_names, render_lines, xray_inbound}

-- `serde_json::Value`, of its constructors those that occur.
mutual
  pub data Value : Type 0 where
    number : ℕ → Value
    string : Bytes → Value
    array : Values → Value
    object : Members → Value

  pub data Values : Type 0 where
    no_values : Values
    and_value : Value → Values → Values

  pub data Members : Type 0 where
    no_members : Members
    member : Bytes → Value → Members → Members

pub data OutputFormat : Type 0 where
  as_lines : OutputFormat
  as_json : OutputFormat
  as_xray : OutputFormat

-- `Value::from` on a vector of strings.
unfoldable pub strings : List Bytes → Values
strings [] = no_values
strings (s ∷ ss) = and_value (string s) (strings ss)

unfoldable pub json_value : {F : Type 0} → ActivePool F → Value
unfolding strings snis
json_value pool = array (strings (snis pool.entries))

hydra_value : XrayInbound → Value
unfolding ascii utf8
hydra_value x = object (
    member (ascii "note")
      (string (ascii "REALITY-Hydra Phase 6: regenerate each epoch from hydra.toml"))
      (member (ascii "epoch") (number x.epoch) (
        member (ascii "active_k") (number x.active_k) (
          member (ascii "serverNames_are") (string (utf8 "the ±1 epoch accepted window"))
            no_members))))

settings_value : Value
unfolding ascii
settings_value = object (
    member (ascii "clients")
      (array (
        and_value
          (object (
            member (ascii "id") (string (ascii "SET-client-uuid"))
              (member (ascii "flow") (string (ascii "xtls-rprx-vision")) no_members)))
          no_values))
      (member (ascii "decryption") (string (ascii "none")) no_members))

reality_value : XrayInbound → Value
unfolding ascii strings
reality_value x = object (
    member (ascii "dest") (string x.dest) (
      member (ascii "serverNames") (array (strings x.server_names)) (
        member (ascii "privateKey") (string x.private_key) (
          member (ascii "shortIds") (array (strings x.short_ids))
            (member (ascii "maxTimeDiff") (number 60000) no_members)))))

-- The `json!` of `render_xray`.
unfoldable pub inbound_value : XrayInbound → Value
unfolding ascii hydra_value settings_value reality_value
inbound_value x = object (
    member (ascii "_hydra") (hydra_value x) (
      member (ascii "protocol") (string (ascii "vless")) (
        member (ascii "settings") settings_value (
          member (ascii "streamSettings")
            (object (
              member (ascii "network") (string (ascii "tcp")) (
                member (ascii "security") (string (ascii "reality"))
                  (member (ascii "realitySettings") (reality_value x) no_members))))
            no_members))))

pub record ServerNamesArgs : Type 0 where
  pub config : Bytes
  pub format : OutputFormat
  pub at_secs : Option ℕ
  pub epoch : Option ℕ
  pub single : Bool

-- `Serialize` carries what serde_json answered.
pub data RenderError (F E : Type 0) : Type 0 where
  pool_failed : PoolError F → RenderError F E
  serialize_failed : E → RenderError F E

module _ {E : Type 0} (fl : Floats) (base64_encode : Bytes → Bytes)
    (to_string_pretty : Value → Result E Bytes) where
  unfoldable pub render_names :
      HydraConfig fl.F → ActivePool fl.F → ℕ → OutputFormat → Result (RenderError fl.F E) Bytes
  unfolding render_lines json_value inbound_value xray_inbound
  render_names cfg pool epoch as_lines = ok (render_lines pool)
  render_names cfg pool epoch as_json =
      map_err serialize_failed (to_string_pretty (json_value pool))
  render_names cfg pool epoch as_xray =
      map_err serialize_failed
        (to_string_pretty (inbound_value (xray_inbound base64_encode cfg pool epoch)))

  module _ (rng : Rng fl.F) (h : Hmac) (b64 : Base64) (parser : Toml fl.F) where
    names_of_config : ℕ → ServerNamesArgs → HydraConfig fl.F → Result (RenderError fl.F E) Bytes
    unfolding resolve_epoch server_names render_names
    names_of_config now_secs args cfg =
        let epoch = resolve_epoch now_secs cfg args.at_secs args.epoch in
        render_names cfg (server_names fl rng h cfg epoch (not args.single)) epoch args.format

    unfoldable pub server_names_output :
        Disk → FileTable → ℕ → ServerNamesArgs → Result (RenderError fl.F E) Bytes
    unfolding names_of_config from_file
    server_names_output disk files now_secs args =
        map_err pool_failed (from_file fl b64 parser disk files args.config)
        >>= names_of_config now_secs args
