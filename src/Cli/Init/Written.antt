-- ===== src/Cli/Init/Written.antt =====
-- `init`, and the programs that load what it wrote.
use mathlib.Core.Path.{subst}
use reality_hydra.Base.{
  ◌^◌, take, All-take, IsByte, le→leb, arith, ◌≡◌, ◌≢◌, ℕ, ◌<◌, refl, ◌∙◌, some, true, false, ◌&&◌,
  not, Bytes, AreBytes, ok, is_utf8, exists, read_file, get, put, get-put, get-put_other, text_eq,
  Disk, FileTable, whole, write_file, write_result,
}
use reality_hydra.Pool.{Floats}
use reality_hydra.Pool.Master.{bad_weight}
use reality_hydra.Config.{Base64, parse_duration}
use reality_hydra.Config.Standard.{Standard}
use reality_hydra.Config.Load.{Toml, from_file, from_toml_str, from_file-from_toml_str}
use reality_hydra.Config.Document.{plain_text}
use reality_hydra.Config.Deserialize.{Parses}
use reality_hydra.Reality.Auth.{X25519, generate_keypair}
use reality_hydra.Cli.Init.{InitArgs, Drawn, Filling, filling}
use reality_hydra.Cli.Init.Text.{toml_text, written_text, after_write, run_init}
use reality_hydra.Cli.Init.Template.{
  template, document_text-template, deserialize-template, valid_lines-template, IsFillable,
  plain_text-hex_text,
}
use reality_hydra.Cli.Init.Loaded.{raw_of, config_of, IsDrawn, into_config-raw_of}

module _ (fl : Floats) (tenths : ℕ → fl.F) (dh : X25519) (b64 : Base64)
    (base64_encode : Bytes → Bytes) (standard : Standard base64_encode b64) (parser : Toml fl.F)
    (weights : (n : ℕ) → 0 < n → bad_weight fl (tenths n) ≡ false)
    (plain : (bytes : Bytes) → AreBytes bytes → plain_text (base64_encode bytes) ≡ true) where
  run_init-put :
      (disk : Disk) (drawn : Drawn) (args : InitArgs) (files : FileTable)
      → args.stdout ≡ false
      → exists files args.output && not args.force ≡ false
      → disk.writes args.output ≡ whole
      → run_init dh base64_encode disk drawn args files ≡ (
        put files args.output (toml_text args (filling dh base64_encode drawn)),
        ok (written_text args.output (filling dh base64_encode drawn)),
      )
  unfolding run_init after_write write_file write_result
  run_init-put disk drawn args files written may wrote = rw (written, may, wrote) refl

  -- What is filled in between the quotes of the template.
  filling-IsFillable :
      (drawn : Drawn) (args : InitArgs)
      → IsDrawn fl tenths drawn
      → AreBytes (dh.public drawn.private_key)
      → plain_text args.epoch_len ≡ true
      → plain_text args.dest ≡ true
      → IsFillable args (filling dh base64_encode drawn)
  unfolding filling generate_keypair
  filling-IsFillable drawn args is public epoch_plain dest_plain = record {
    epoch_len = epoch_plain;
    dest = dest_plain;
    ms = plain drawn.master_secret is.master.0;
    ss = plain (take 16 drawn.salt_src) (All-take IsByte 16 drawn.salt_src is.salt.0);
    pk = plain drawn.private_key is.private.0;
    pbk = plain (dh.public drawn.private_key) public;
    sid = plain_text-hex_text (take 8 drawn.sid_src) (All-take IsByte 8 drawn.sid_src is.sid.0);
  }

  -- The TOML parser, on the text of `init`.
  from_str-toml_text :
      (args : InitArgs) (f : Filling)
      → Parses tenths parser (template args f)
      → IsFillable args f
      → args.active_k < 2 ^ 63
      → parser.from_str (toml_text args f) ≡ ok (raw_of fl tenths args f)
  from_str-toml_text args f parses is fits =
      subst (λ s. parser.from_str s ≡ ok (raw_of fl tenths args f)) (document_text-template args f)
        (parses (valid_lines-template args f is (le→leb _ _ (omega (arith, fits))))
          (raw_of fl tenths args f) (deserialize-template fl tenths args f))

  -- Where base64 and X25519 behave as documented, the positive weights are finite positive numbers, and
  -- the TOML parser reads the lines of the template as TOML and `Deserialize` of the configuration do:
  -- `init` without `--stdout`, on a path that is free or with `--force`, with an active number that is
  -- not 0 and below 2^63, with an address and an epoch length that need no escape between quotes, of
  -- which the configuration reads the latter, once its write succeeds, leaves every other file and one
  -- at that path which loads, as a configuration with the keys drawn, the public key of the private key
  -- drawn, the default pool sorted, and what the arguments say.
  pub run_init_loads :
      (disk : Disk) (drawn : Drawn) (args : InitArgs) (epoch_len : ℕ) (files : FileTable)
      → (let f = filling dh base64_encode drawn in
          (is_utf8 (toml_text args f) ≡ true) × Parses tenths parser (template args f))
      → IsDrawn fl tenths drawn
      → AreBytes (dh.public drawn.private_key)
      → args.stdout ≡ false
      → exists files args.output && not args.force ≡ false
      → args.active_k ≢ 0
      → args.active_k < 2 ^ 63
      → plain_text args.epoch_len ≡ true
      → plain_text args.dest ≡ true
      → parse_duration {F = fl.F} args.epoch_len ≡ ok epoch_len
      → disk.writes args.output ≡ whole
      → disk.can_read args.output ≡ true
      → let (after, ended) = run_init dh base64_encode disk drawn args files in
        (ended ≡ ok (written_text args.output (filling dh base64_encode drawn)))
        × (from_file fl b64 parser disk after args.output
            ≡ ok (config_of fl tenths args epoch_len drawn (dh.public drawn.private_key)))
        × ((p : Bytes) → text_eq args.output p ≡ false → get after p ≡ get files p)
  unfolding from_toml_str read_file
  run_init_loads disk drawn args epoch_len files (text, parses) is public printed may active fits
        epoch_plain dest_plain lasts wrote readable =
      let f = filling dh base64_encode drawn in
      let written = toml_text args f in
      let after = put files args.output written in
      let there : read_file disk after args.output ≡ some written =
        rw readable (get-put files args.output written) in
      let reads : parser.from_str written ≡ ok (raw_of fl tenths args f) =
        from_str-toml_text args f parses
          (filling-IsFillable drawn args is public epoch_plain dest_plain) fits in
      rw (run_init-put disk drawn args files printed may wrote) (
        refl,
        from_file-from_toml_str fl b64 parser disk after args.output written there text
            ∙ rw reads (
                into_config-raw_of fl tenths dh b64 base64_encode standard weights args drawn
                  epoch_len is active lasts public),
        λ p apart. get-put_other files args.output p written apart,
      )
