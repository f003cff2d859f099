-- ===== src/Cli/Init.antt =====
-- crates/hydra-cli/src/init.rs: a configuration with fresh keys, as text and as a file. What the
-- generator of the system gave for the four key pairs is an argument, X25519 and base64 are parameters.
pub mod Text
pub mod Loaded
pub mod Template
pub mod Written
use reality_hydra.Base.{ℕ, ◌/◌, ◌%◌, Bool, List, [], ◌∷◌, ◌++◌, take, Bytes, ascii, decimal}
use reality_hydra.Config.Hex.{hex_text}
use reality_hydra.Reality.Auth.{X25519, generate_keypair}

pub record InitArgs : Type 0 where
  pub output : Bytes
  pub force : Bool
  pub dest : Bytes
  pub active_k : ℕ
  pub epoch_len : Bytes
  pub stdout : Bool

-- The weights in tenths.
unfoldable pub default_pool : List (Bytes × ℕ)
unfolding ascii
default_pool =
    (ascii "www.cloudflare.com", 80)
    ∷ (ascii "www.digitalocean.com", 60)
    ∷ (ascii "www.medium.com", 60)
    ∷ (ascii "www.discord.com", 70)
    ∷ (ascii "play.google.com", 65)
    ∷ (ascii "www.udemy.com", 50)
    ∷ (ascii "www.canva.com", 60)
    ∷ (ascii "www.upwork.com", 50)
    ∷ (ascii "www.fiverr.com", 45)
    ∷ (ascii "www.gitlab.com", 50)
    ∷ (ascii "www.zendesk.com", 40)
    ∷ (ascii "www.hubspot.com", 40)
    ∷ []

unfoldable pub default_cidrs : List Bytes
unfolding ascii
default_cidrs =
    ascii "104.16.0.0/13"
    ∷ ascii "172.64.0.0/13"
    ∷ ascii "173.245.48.0/20"
    ∷ ascii "141.101.64.0/18"
    ∷ ascii "108.162.192.0/18"
    ∷ ascii "190.93.240.0/20"
    ∷ ascii "188.114.96.0/20"
    ∷ ascii "162.158.0.0/15"
    ∷ ascii "131.0.72.0/22"
    ∷ []

-- The secrets of the four calls of `generate_keypair`, in order.
pub record Drawn : Type 0 where
  pub master_secret : Bytes
  pub salt_src : Bytes
  pub sid_src : Bytes
  pub private_key : Bytes

-- What the template is filled with.
pub record Filling : Type 0 where
  pub ms : Bytes
  pub ss : Bytes
  pub pk : Bytes
  pub pbk : Bytes
  pub sid : Bytes

unfoldable pub filling : X25519 → (Bytes → Bytes) → Drawn → Filling
unfolding generate_keypair hex_text
filling dh base64_encode drawn =
    let (private_key, public_key) = generate_keypair dh drawn.private_key in
    record {
      ms = base64_encode drawn.master_secret;
      ss = base64_encode (take 16 drawn.salt_src);
      pk = base64_encode private_key;
      pbk = base64_encode public_key;
      sid = hex_text (take 8 drawn.sid_src);
    }

-- `{weight:.1}`
unfoldable pub one_decimal : ℕ → Bytes
unfolding decimal
one_decimal tenths = decimal (tenths / 10) ++ (b'.' ∷ decimal (tenths % 10))
