-- ===== src/Examples/Running.antt =====
-- `hydra server` on the configuration that `init` wrote, its certificate beside it.
use reality_hydra.Base.{
  ◌≡◌, refl, true, false, List, [], ◌∷◌, Bytes, none, ok, ascii, exists, get, put, write_file,
  write_result, text_eq, join,
}
use reality_hydra.Proto.{encode_request}
use reality_hydra.Server.{failed}
use reality_hydra.Server.Tls.{load_or_generate, generate, pin_of, persist}
use reality_hydra.Server.Serve.{Incoming, accept_failed, accepted}
use reality_hydra.Cli.Server.{ServerArgs, cert_dir_of}
use reality_hydra.Cli.Server.Runs.{Starts}
use reality_hydra.Cli.Init.Text.{run_init}
use reality_hydra.Examples.Fixtures.{checksum_hmac, edge}
use reality_hydra.Examples.Exit.{noon}
use reality_hydra.Examples.Starts.{certifier, healthy, material}
use reality_hydra.Examples.Scaffold.{after_init, cfg}

abbrev server_args : ServerArgs
server_args = record {
  config = ascii "hydra.toml";
  listen = ascii "0.0.0.0:443";
  cert_dir = none;
  sni = [];
  max_skew = 120;
}

started :
    (load_or_generate certifier healthy
      (cert_dir_of none (ascii "hydra.toml"))
      []
      (7 ∷ [])
      after_init).1
    ≡ ok (material, true)
unfolding load_or_generate generate pin_of exists get persist write_file write_result run_init put
    cert_dir_of ascii text_eq join
started = refl

abbrev before : List Incoming
before = accepted false noon [] ∷ accepted true noon (failed ∷ []) ∷ []

abbrev after : List Incoming
after = accept_failed ∷ []

abbrev wire : Bytes
wire = encode_request checksum_hmac cfg.master_secret 1000 edge
