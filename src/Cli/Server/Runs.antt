-- ===== src/Cli/Server/Runs.antt =====
-- `hydra server` started on a configuration that loads.
use reality_hydra.Base.{◌≡◌, Bool, true, Bytes, AreBytes, length, ok, Disk, FileTable}
use reality_hydra.Proto.{Hmac}
use reality_hydra.Pool.{Floats}
use reality_hydra.Config.{Base64, HydraConfig}
use reality_hydra.Config.Standard.{Standard}
use reality_hydra.Config.Load.{Toml, from_file}
use reality_hydra.Server.Tls.{TlsMaterial, Certifier, cert_path, key_path, load_or_generate}
use reality_hydra.Server.Tls.Kept.{Certifies}
use reality_hydra.Cli.Server.{ServerArgs, cert_dir_of}

module _ (fl : Floats) (h : Hmac) (b64 : Base64) (base64_encode : Bytes → Bytes)
    (parser : Toml fl.F) (cert : Certifier) (server_config : Bytes → Bytes → Bool)
    (standard : Standard base64_encode b64) where
  -- Configured, with material, a runtime and an address.
  pub record Starts (disk : Disk) (files : FileTable) (args : ServerArgs) (randomness : Bytes)
      (cfg : HydraConfig fl.F) (material : TlsMaterial) : Type 0 where
    pub new : Bool
    pub loaded : from_file fl b64 parser disk files args.config ≡ ok cfg
    pub certifies : Certifies cert disk (cert_dir_of args.cert_dir args.config)
    pub digests : (s : Bytes) → AreBytes (cert.sha256 s) × (length (cert.sha256 s) ≡ 32)
    pub may_read_cert : disk.can_read (cert_path (cert_dir_of args.cert_dir args.config)) ≡ true
    pub may_read_key : disk.can_read (key_path (cert_dir_of args.cert_dir args.config)) ≡ true
    pub started :
        (load_or_generate cert disk
          (cert_dir_of args.cert_dir args.config)
          args.sni
          randomness
          files).1
        ≡ ok (material, new)
    pub taken : server_config material.cert_der material.key_der ≡ true
