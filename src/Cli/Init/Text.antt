-- ===== src/Cli/Init/Text.antt =====
-- crates/hydra-cli/src/init.rs: the template and `run`.
use reality_hydra.Base.{
  ℕ, ◌&&◌, not, Bool, true, false, List, [], ◌∷◌, ◌++◌, concat, Bytes, ascii, utf8, decimal, Result,
  ok, err, if◌then◌else◌, exists, write_file, Disk, FileTable,
}
use reality_hydra.Reality.Auth.{X25519}
use reality_hydra.Cli.Service.{CliError, io_failed, already_exists}
use reality_hydra.Cli.Init.{
  InitArgs, default_pool, default_cidrs, Drawn, Filling, filling, one_decimal,
}

unfoldable pub pool_text : List (Bytes × ℕ) → Bytes
unfolding one_decimal ascii
pool_text [] = []
pool_text ((sni, tenths) ∷ rest) =
    ascii "[[pool]]\nsni    = \""
    ++ sni
    ++ ascii "\"\nweight = "
    ++ one_decimal tenths
    ++ ascii "\n\n"
    ++ pool_text rest

unfoldable pub cidrs_text : List Bytes → Bytes
unfolding ascii
cidrs_text [] = []
cidrs_text (cidr ∷ rest) = ascii "    \"" ++ cidr ++ ascii "\",\n" ++ cidrs_text rest

-- The template of `format!`.
unfoldable pub toml_text : InitArgs → Filling → Bytes
unfolding utf8 pool_text cidrs_text default_pool default_cidrs decimal
toml_text args f = concat (
    utf8 "# hydra.toml — generated by `hydra init`.\n"
    ∷ utf8 "# Secrets below are UNIQUE to this deployment. Keep this file private and\n"
    ∷ utf8 "# distribute it to clients out of band (REALITY.md §12).\n"
    ∷ utf8 "master_secret = \"base64:"
    ∷ f.ms
    ∷ utf8 "\"   # 32 B — rotate on suspected leak\n"
    ∷ utf8 "server_salt   = \"base64:"
    ∷ f.ss
    ∷ utf8 "\"   # 16 B — per-deployment\n"
    ∷ utf8 "pool_format   = \"hydra-pool-v1\"\n"
    ∷ utf8 "epoch_len     = \""
    ∷ args.epoch_len
    ∷ utf8 "\"\nactive_k      = "
    ∷ decimal args.active_k
    ∷ utf8 "\n\n"
    ∷ utf8 "# The single CDN edge probes fall back to. Every pool SNI MUST be a real\n"
    ∷ utf8 "# domain served by this CDN (REALITY.md §5.3).\n"
    ∷ utf8 "dest            = \""
    ∷ args.dest
    ∷ utf8 "\"\ncoherence_cidrs = [\n"
    ∷ cidrs_text default_cidrs
    ∷ utf8 "]\n\n"
    ∷ utf8 "# ── Self-tunnel (no Xray): the Rust `hydra server` exit node ──\n"
    ∷ utf8 "# Uncomment and point at YOUR VPS to use the built-in tunnel instead of a\n"
    ∷ utf8 "# stock Xray REALITY server. `server_addr` is where the client dials; if\n"
    ∷ utf8 "# left unset the client falls back to `dest`. `cert_pin` is printed by\n"
    ∷ utf8 "# `hydra server` on first run (SHA-256 of its self-signed cert).\n"
    ∷ utf8 "# server_addr = \"YOUR.VPS.IP:443\"\n"
    ∷ utf8 "# cert_pin    = \"base64:...\"   # from `hydra server` output\n"
    ∷ utf8 "\n"
    ∷ utf8 "# REALITY handshake keys (this section is what `keygen` produces).\n"
    ∷ utf8 "[reality]\n"
    ∷ utf8 "private_key = \"base64:"
    ∷ f.pk
    ∷ utf8 "\"   # SERVER only — omit on client copies\n"
    ∷ utf8 "public_key  = \"base64:"
    ∷ f.pbk
    ∷ utf8 "\"  # client pbk\n"
    ∷ utf8 "short_ids   = [\""
    ∷ f.sid
    ∷ utf8 "\"]\n"
    ∷ utf8 "fingerprint = \"chrome\"\n"
    ∷ utf8 "\n"
    ∷ utf8 "# ── SNI pool: replace with domains genuinely fronted by YOUR CDN ──\n"
    ∷ pool_text default_pool
    ∷ [])

-- The message after a write.
unfoldable pub written_text : Bytes → Filling → Bytes
unfolding utf8
written_text out f = concat (
    utf8 "Wrote "
    ∷ out
    ∷ utf8 "\n\nShare these client-side values (they are safe to hand to clients):\n"
    ∷ utf8 "  pbk (public_key): "
    ∷ f.pbk
    ∷ utf8 "\n  sid (short_id):   "
    ∷ f.sid
    ∷ utf8 "\n\nNext — pick ONE server path:\n"
    ∷ utf8 "  A) Self-tunnel (no Xray), the built-in Rust exit node:\n"
    ∷ utf8 "     server (VPS): hydra server -c "
    ∷ out
    ∷ utf8 " --listen 0.0.0.0:443   # prints cert_pin\n"
    ∷ utf8 "     client:       set server_addr + cert_pin in "
    ∷ out
    ∷ utf8 ", then\n"
    ∷ utf8 "                   hydra serve -c "
    ∷ out
    ∷ utf8 " --listen 127.0.0.1:1080\n"
    ∷ utf8 "  B) Stock Xray REALITY server:\n"
    ∷ utf8 "     server:  hydra server-names -c "
    ∷ out
    ∷ utf8 " --format xray > reality-inbound.json\n"
    ∷ utf8 "     client:  hydra serve -c "
    ∷ out
    ∷ utf8 " --listen 127.0.0.1:1080"
    ∷ [])

unfoldable pub after_write :
    InitArgs → Filling → FileTable × Bool → FileTable × Result CliError Bytes
unfolding written_text
after_write args f (files, true) = (files, ok (written_text args.output f))
after_write args f (files, false) = (files, err (io_failed args.output))

-- `run` of init.rs.
unfoldable pub run_init :
    X25519
    → (Bytes → Bytes)
    → Disk
    → Drawn
    → InitArgs
    → FileTable
    → FileTable × Result CliError Bytes
unfolding filling toml_text after_write exists write_file
run_init dh base64_encode disk drawn args files =
    let f = filling dh base64_encode drawn in
    if args.stdout
    then (files, ok (toml_text args f))
    else (if exists files args.output && not args.force
        then (files, err (already_exists args.output))
        else after_write args f (write_file disk files args.output (toml_text args f)))
