-- ===== src/Cli/Server.antt =====
-- crates/hydra-cli/src/server.rs: `hydra server`, from its arguments to the accept loop. What the
-- listener gives, the randomness of a certificate and whether the runtime starts are arguments.
pub mod Runs
use mathlib.Core.List.{reverse}
use reality_hydra.Base.{
  ℕ, Option, none, some, Bool, ◌&&◌, List, [], ◌∷◌, ◌++◌, Bytes, ascii, ◌==◌, if◌then◌else◌, Result,
  ok, err, panic, Disk, FileTable,
}
use reality_hydra.Proto.{Hmac}
use reality_hydra.Pool.{Floats, PoolError}
use reality_hydra.Config.{Base64, HydraConfig}
use reality_hydra.Config.Load.{Toml, from_file}
use reality_hydra.Server.Tls.{TlsError, TlsMaterial, Certifier, load_or_generate, pin_base64}
use reality_hydra.Server.Serve.{Incoming, Served, serve}

pub record ServerArgs : Type 0 where
  pub config : Bytes
  pub listen : Bytes
  pub cert_dir : Option Bytes
  pub sni : List Bytes
  pub max_skew : ℕ

-- On a path backwards: separators and `.` behind the last component go, but not the root.
strip_back : Bytes → Bytes
strip_back [] = []
strip_back (b ∷ []) = b ∷ []
strip_back (b ∷ c ∷ r) =
    let rest = strip_back (c ∷ r) in
    if b == 47 then rest else (if (b == 46) && (c == 47) then rest else b ∷ c ∷ r)

drop_name : Bytes → Bytes
drop_name [] = []
drop_name (b ∷ r) = if b == 47 then b ∷ r else drop_name r

parent_of : Bytes → Option Bytes
parent_of [] = none
parent_of (b ∷ r) = if b == 47 then none else some (reverse (strip_back (drop_name (b ∷ r))))

-- `Path::parent`
unfoldable pub parent : Bytes → Option Bytes
unfolding parent_of strip_back drop_name
parent path = parent_of (strip_back (reverse path))

or_here : Option Bytes → Bytes
or_here none = ascii "."
or_here (some dir) = dir

-- The explicit directory, or the configuration's, or the current one.
unfoldable pub cert_dir_of : Option Bytes → Bytes → Bytes
unfolding or_here parent
cert_dir_of (some d) config = d
cert_dir_of none config = or_here (parent config)

-- The errors of `run` before the server listens.
pub data StartError (F : Type 0) : Type 0 where
  pool_failed : PoolError F → StartError F
  server_failed : TlsError → StartError F
  runtime_failed : StartError F

-- The files, what was printed, and the server's run.
pub record ServerRun (F : Type 0) : Type 0 where
  pub files : FileTable
  pub printed : List Bytes
  pub served : Result (StartError F) Served

module _ (fl : Floats) (h : Hmac) (b64 : Base64) (base64_encode : Bytes → Bytes)
    (parser : Toml fl.F) (cert : Certifier) (server_config : Bytes → Bytes → Bool) where
  unfoldable pub pin_line : TlsMaterial → Bytes
  unfolding pin_base64
  pin_line material = ascii "cert_pin = \"" ++ pin_base64 cert base64_encode material ++ ascii "\""

  -- From the material on.
  start_serving :
      ServerArgs
      → HydraConfig fl.F
      → Bool
      → Bool
      → List Incoming
      → FileTable × Result TlsError (TlsMaterial × Bool)
      → ServerRun fl.F
  unfolding pin_line serve
  start_serving args cfg runtime binds incoming (files, ok (material, new)) = record {
    files = files;
    printed = pin_line material ∷ [];
    served =
        if runtime
        then ok (
            serve h server_config binds args.listen material cfg.master_secret args.max_skew
              incoming)
        else err runtime_failed;
  }
  start_serving args cfg runtime binds incoming (files, err e) = record {
    files = files;
    printed = [];
    served = err (server_failed e);
  }
  start_serving args cfg runtime binds incoming (files, panic) = record {
    files = files;
    printed = [];
    served = panic;
  }

  -- From the configuration on.
  on_config :
      Disk
      → FileTable
      → ServerArgs
      → Bytes
      → Bool
      → Bool
      → List Incoming
      → Result (PoolError fl.F) (HydraConfig fl.F)
      → ServerRun fl.F
  unfolding start_serving cert_dir_of load_or_generate
  on_config disk files args randomness runtime binds incoming (ok cfg) =
      start_serving args cfg runtime binds incoming (
        load_or_generate cert disk (cert_dir_of args.cert_dir args.config) args.sni randomness
          files)
  on_config disk files args randomness runtime binds incoming (err e) = record {
    files = files;
    printed = [];
    served = err (pool_failed e);
  }
  on_config disk files args randomness runtime binds incoming panic = record {
    files = files;
    printed = [];
    served = panic;
  }

  -- `run` of server.rs.
  unfoldable pub run_server :
      Disk → FileTable → ServerArgs → Bytes → Bool → Bool → List Incoming → ServerRun fl.F
  unfolding on_config from_file
  run_server disk files args randomness runtime binds incoming =
      on_config disk files args randomness runtime binds incoming
        (from_file fl b64 parser disk files args.config)
