-- ===== src/Cli/Init/Template.antt =====
-- The template of crates/hydra-cli/src/init.rs as the lines of a TOML document.
use reality_hydra.Base.{
  ◌<◌, ◌/◌, ◌%◌, arith, ◌≡◌, refl, true, List, [], ◌∷◌, ◌++◌, ℕ, hex_byte, hex_digit, Bytes,
  AreBytes, ascii, utf8, ok, leb, get, put, text_eq,
}
use reality_hydra.Pool.{Floats, domain_tag}
use reality_hydra.Config.{b64_prefix}
use reality_hydra.Config.Hex.{hex_text}
use reality_hydra.Config.Document.{
  text, integer, tenths, only, column, Line, remark, pair, table, array_table, document_text,
  plain_text, plain_char, visible, max_i64, valid_lines,
}
use reality_hydra.Config.Deserialize.{deserialize}
use reality_hydra.Cli.Init.{InitArgs, default_pool, default_cidrs, Filling, one_decimal}
use reality_hydra.Cli.Init.Text.{toml_text, pool_text, cidrs_text}
use reality_hydra.Cli.Init.Loaded.{raw_of}

unfoldable pub pool_lines : List (Bytes × ℕ) → List Line
unfolding ascii
pool_lines [] = []
pool_lines ((sni, weight) ∷ rest) =
    array_table (ascii "pool")
    ∷ pair (ascii "sni") 4 (text sni) []
    ∷ pair (ascii "weight") 1 (tenths weight) []
    ∷ remark []
    ∷ pool_lines rest

unfoldable pub template : InitArgs → Filling → List Line
unfolding ascii utf8 pool_lines
template args f =
    remark (utf8 "# hydra.toml — generated by `hydra init`.")
    ∷ remark (utf8 "# Secrets below are UNIQUE to this deployment. Keep this file private and")
    ∷ remark (utf8 "# distribute it to clients out of band (REALITY.md §12).")
    ∷ pair (ascii "master_secret") 1 (text (b64_prefix ++ f.ms))
        (utf8 "   # 32 B — rotate on suspected leak")
    ∷ pair (ascii "server_salt") 3 (text (b64_prefix ++ f.ss)) (utf8 "   # 16 B — per-deployment")
    ∷ pair (ascii "pool_format") 3 (text domain_tag) []
    ∷ pair (ascii "epoch_len") 5 (text args.epoch_len) []
    ∷ pair (ascii "active_k") 6 (integer args.active_k) []
    ∷ remark []
    ∷ remark (utf8 "# The single CDN edge probes fall back to. Every pool SNI MUST be a real")
    ∷ remark (utf8 "# domain served by this CDN (REALITY.md §5.3).")
    ∷ pair (ascii "dest") 12 (text args.dest) []
    ∷ pair (ascii "coherence_cidrs") 1 (column default_cidrs) []
    ∷ remark []
    ∷ remark (utf8 "# ── Self-tunnel (no Xray): the Rust `hydra server` exit node ──")
    ∷ remark (utf8 "# Uncomment and point at YOUR VPS to use the built-in tunnel instead of a")
    ∷ remark (utf8 "# stock Xray REALITY server. `server_addr` is where the client dials; if")
    ∷ remark (utf8 "# left unset the client falls back to `dest`. `cert_pin` is printed by")
    ∷ remark (utf8 "# `hydra server` on first run (SHA-256 of its self-signed cert).")
    ∷ remark (utf8 "# server_addr = \"YOUR.VPS.IP:443\"")
    ∷ remark (utf8 "# cert_pin    = \"base64:...\"   # from `hydra server` output")
    ∷ remark []
    ∷ remark (utf8 "# REALITY handshake keys (this section is what `keygen` produces).")
    ∷ table (ascii "reality")
    ∷ pair (ascii "private_key") 1 (text (b64_prefix ++ f.pk))
        (utf8 "   # SERVER only — omit on client copies")
    ∷ pair (ascii "public_key") 2 (text (b64_prefix ++ f.pbk)) (utf8 "  # client pbk")
    ∷ pair (ascii "short_ids") 3 (only f.sid) []
    ∷ pair (ascii "fingerprint") 1 (text (ascii "chrome")) []
    ∷ remark []
    ∷ remark (utf8 "# ── SNI pool: replace with domains genuinely fronted by YOUR CDN ──")
    ∷ pool_lines default_pool

pub document_text-template :
    (args : InitArgs) (f : Filling) → document_text (template args f) ≡ toml_text args f
unfolding document_text template toml_text pool_text cidrs_text default_pool default_cidrs
    one_decimal
document_text-template args f = refl

pub deserialize-template :
    (fl : Floats) (decimals : ℕ → fl.F) (args : InitArgs) (f : Filling)
    → deserialize decimals (template args f) ≡ ok (raw_of fl decimals args f)
unfolding deserialize template default_pool default_cidrs get put text_eq
deserialize-template fl decimals args f = refl

-- What is filled in between quotes stands for itself there.
pub record IsFillable (args : InitArgs) (f : Filling) : Type 0 where
  pub epoch_len : plain_text args.epoch_len ≡ true
  pub dest : plain_text args.dest ≡ true
  pub ms : plain_text f.ms ≡ true
  pub ss : plain_text f.ss ≡ true
  pub pk : plain_text f.pk ≡ true
  pub pbk : plain_text f.pbk ≡ true
  pub sid : plain_text f.sid ≡ true

pub valid_lines-template :
    (args : InitArgs) (f : Filling)
    → IsFillable args f
    → leb args.active_k max_i64 ≡ true
    → valid_lines (template args f) ≡ true
unfolding valid_lines template default_pool default_cidrs
valid_lines-template args f is fits =
    rw (is.epoch_len, is.dest, is.ms, is.ss, is.pk, is.pbk, is.sid, fits) refl

plain_char-hex_digit : (n : ℕ) → n < 16 → plain_char (hex_digit n) ≡ true
unfolding plain_char visible hex_digit
plain_char-hex_digit n small = ground arith

pub plain_text-hex_text : (bytes : Bytes) → AreBytes bytes → plain_text (hex_text bytes) ≡ true
unfolding plain_text hex_text hex_byte
plain_text-hex_text [] a = refl
plain_text-hex_text (b ∷ bytes) a =
    rw
      (
        plain_char-hex_digit (b / 16) (omega (arith, a.0)),
        plain_char-hex_digit (b % 16) (omega arith),
        plain_text-hex_text bytes a.1,
      )
      refl
