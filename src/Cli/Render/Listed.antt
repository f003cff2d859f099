-- ===== src/Cli/Render/Listed.antt =====
-- What a reader of the output finds, in each of its shapes.
use reality_hydra.Base.{
  ℕ, ◌≤◌, ◌<◌, ◌^◌, ◌≡◌, refl, ap, ◌∙◌, true, false, List, [], ◌∷◌, All, Bytes, ascii, text_eq,
  if◌then◌else◌, Option, none, some, Result, ok, map_err, Disk, FileTable,
}
use reality_hydra.Proto.{Hmac}
use reality_hydra.Proto.Parse.{abs_diff}
use reality_hydra.Pool.{Floats, Rng, PoolEntry, ActivePool, contains}
use reality_hydra.Pool.Window.Union.{accepted_within_skew}
use reality_hydra.Config.{Base64, HydraConfig}
use reality_hydra.Config.Load.{Toml, from_file}
use reality_hydra.Cli.{XrayInbound, snis, resolve_epoch, server_names, xray_inbound}
use reality_hydra.Cli.Lines.{OneLine, lines}
use reality_hydra.Cli.Names.{has_line, has_line-snis, published}
use reality_hydra.Cli.Render.{
  Value, string, array, object, Values, no_values, and_value, Members, no_members, member,
  OutputFormat, as_lines, as_json, as_xray, strings, json_value, reality_value, inbound_value,
  ServerNamesArgs, serialize_failed, render_names, names_of_config, server_names_output,
}

onto : Bytes → Option (List Bytes) → Option (List Bytes)
onto s none = none
onto s (some ss) = some (s ∷ ss)

all_strings : Values → Option (List Bytes)
unfolding onto
all_strings no_values = some []
all_strings (and_value (string s) vs) = onto s (all_strings vs)
all_strings (and_value v vs) = none

field : Bytes → Members → Option Value
field key no_members = none
field key (member k v ms) = if text_eq k key then some v else field key ms

-- The array of strings under a path of keys.
unfoldable pub strings_at : List Bytes → Option Value → Option (List Bytes)
unfolding all_strings field
strings_at [] (some (array vs)) = all_strings vs
strings_at (key ∷ path) (some (object ms)) = strings_at path (field key ms)
strings_at path v = none

all_strings-strings : (ss : List Bytes) → all_strings (strings ss) ≡ some ss
unfolding all_strings strings onto
all_strings-strings [] = refl
all_strings-strings (s ∷ ss) = ap (onto s) (all_strings-strings ss)

-- Where an Xray inbound has its names.
abbrev pub names_path : List Bytes
names_path = ascii "streamSettings" ∷ ascii "realitySettings" ∷ ascii "serverNames" ∷ []

strings_at-inbound_value :
    (x : XrayInbound) → strings_at names_path (some (inbound_value x)) ≡ some x.server_names
unfolding strings_at field inbound_value reality_value text_eq ascii
strings_at-inbound_value x = all_strings-strings x.server_names

-- The names in an output; `strings_in` is a reader of JSON, which looks under a path of keys.
unfoldable pub listed :
    (Bytes → List Bytes → Option (List Bytes)) → OutputFormat → Bytes → Option (List Bytes)
listed strings_in as_lines out = some (lines out)
listed strings_in as_json out = strings_in out []
listed strings_in as_xray out = strings_in out names_path

module _ (fl : Floats) (base64_encode : Bytes → Bytes) (rng : Rng fl.F) (h : Hmac) where
  -- What is published when the server's clock shows the time.
  abbrev pub pool_at : HydraConfig fl.F → ℕ → ActivePool fl.F
  pool_at cfg secs = server_names fl rng h cfg (resolve_epoch secs cfg none none) true

  abbrev pub inbound_at : HydraConfig fl.F → ℕ → Value
  inbound_at cfg secs =
      inbound_value
        (xray_inbound base64_encode cfg (pool_at cfg secs) (resolve_epoch secs cfg none none))

module _ {E : Type 0} (fl : Floats) (base64_encode : Bytes → Bytes)
    (to_string_pretty : Value → Result E Bytes)
    (strings_in : Bytes → List Bytes → Option (List Bytes)) where
  -- The value is written, and the reader finds in the text what is in the value.
  abbrev pub Readable : Value → Type 0
  Readable v =
      (text : Bytes) × (to_string_pretty v ≡ ok text)
      × ((path : List Bytes) → strings_in text path ≡ strings_at path (some v))

  module _ (rng : Rng fl.F) (h : Hmac) where
    named :
        (cfg : HydraConfig fl.F) (client_secs server_secs : ℕ) (s : Bytes)
        → client_secs < 2 ^ 64
        → abs_diff client_secs server_secs ≤ cfg.epoch_len
        → contains (server_names fl rng h cfg (resolve_epoch client_secs cfg none none) false) s
          ≡ true
        → has_line (snis (pool_at fl base64_encode rng h cfg server_secs).entries) s ≡ true
    unfolding server_names resolve_epoch
    named cfg client_secs server_secs s small near there =
        has_line-snis _ s
        ∙ accepted_within_skew fl rng h cfg.master_secret cfg.server_salt cfg.master_list
            cfg.active_k client_secs server_secs cfg.epoch_len s small near there

    listed_in :
        (cfg : HydraConfig fl.F) (client_secs server_secs : ℕ) (s : Bytes) (format : OutputFormat)
        → All (λ (e : PoolEntry fl.F). OneLine e.sni) cfg.master_list.entries
        → client_secs < 2 ^ 64
        → abs_diff client_secs server_secs ≤ cfg.epoch_len
        → Readable (json_value (pool_at fl base64_encode rng h cfg server_secs))
        → Readable (inbound_at fl base64_encode rng h cfg server_secs)
        → contains (server_names fl rng h cfg (resolve_epoch client_secs cfg none none) false) s
          ≡ true
        → (out : Bytes) × (names : List Bytes) × (render_names fl base64_encode to_string_pretty cfg
              (pool_at fl base64_encode rng h cfg server_secs)
              (resolve_epoch server_secs cfg none none)
              format
            ≡ ok out)
          × (listed strings_in format out ≡ some names)
          × (has_line names s ≡ true)
    unfolding render_names listed strings_at json_value
    listed_in cfg client_secs server_secs s as_lines one_line small near j x there = (
      _,
      _,
      refl,
      refl,
      published fl rng h cfg client_secs server_secs s one_line small near there,
    )
    listed_in cfg client_secs server_secs s as_json one_line small near (text, wrote, found) x
          there =
        (
          text,
          _,
          ap (map_err serialize_failed) wrote,
          found [] ∙ all_strings-strings _,
          named cfg client_secs server_secs s small near there,
        )
    listed_in cfg client_secs server_secs s as_xray one_line small near j (text, wrote, found)
          there =
        (
          text,
          _,
          ap (map_err serialize_failed) wrote,
          found names_path ∙ strings_at-inbound_value _,
          named cfg client_secs server_secs s small near there,
        )

    module _ (b64 : Base64) (parser : Toml fl.F) where
      -- The server has a configuration whose SNIs have no line end, and its clock is apart from the
      -- client's by at most the length of an epoch. Then `server-names`, given no epoch and not asked
      -- for a single one, has an output in whichever shape it is asked for, and an SNI of the pool for
      -- the client's time is among the names that a reader finds there, if what it is to write as JSON
      -- is written and read back.
      pub server_names_output-listed :
          (disk : Disk) (files : FileTable) (args : ServerNamesArgs) (cfg : HydraConfig fl.F)
          (client_secs server_secs : ℕ) (s : Bytes)
          → from_file fl b64 parser disk files args.config ≡ ok cfg
          → args.at_secs ≡ none
          → args.epoch ≡ none
          → args.single ≡ false
          → All (λ (e : PoolEntry fl.F). OneLine e.sni) cfg.master_list.entries
          → client_secs < 2 ^ 64
          → abs_diff client_secs server_secs ≤ cfg.epoch_len
          → Readable (json_value (pool_at fl base64_encode rng h cfg server_secs))
          → Readable (inbound_at fl base64_encode rng h cfg server_secs)
          → contains (server_names fl rng h cfg (resolve_epoch client_secs cfg none none) false) s
            ≡ true
          → (out : Bytes) × (names : List Bytes) × (server_names_output fl base64_encode
                to_string_pretty rng h b64 parser disk files server_secs args
              ≡ ok out)
            × (listed strings_in args.format out ≡ some names)
            × (has_line names s ≡ true)
      unfolding server_names_output names_of_config
      server_names_output-listed disk files args cfg client_secs server_secs s loads now current
            window one_line small near json xray there =
          let (out, names, rendered, found, has) =
            listed_in cfg client_secs server_secs s args.format one_line small near json xray
              there in
          (out, names, rw (loads, now, current, window) rendered, found, has)
