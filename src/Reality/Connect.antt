-- ===== src/Reality/Connect.antt =====
-- crates/reality-tls/src/client.rs: the connector's settings, and what a connect does before and
-- after the step that installs the token. BoringSSL, TCP and the clock are given by what they answer.
use reality_hydra.Base.{
  ok_elim, ok-injective, sym, ℕ, ◌/◌, ◌%◌, ◌^◌, ◌≡◌, ◌≢◌, refl, List, [], ◌∷◌, ◌++◌, Bytes, length,
  hex_byte, Bool, true, Bool-cases, inl, inr, if◌then◌else◌, Result, ok, err, panic, ◌>>=◌, ◌>>◌,
  ensure,
}
use reality_hydra.Reality.{
  RealityError, RealityConfig, session_id_injection_unsupported, boring_build, boring_config,
  tcp_connect, handshake_failed, chrome_cipher_suites, chrome_groups, chrome_sig_algs, chrome_alpn,
}

-- `install`, by the configuration and the timestamp; what it writes goes into the handshake.
abbrev pub RealityInjector : Type 0
RealityInjector = RealityConfig → ℕ → Result RealityError (Unit {0})

unfoldable pub unsupported_injector : RealityInjector
unsupported_injector cfg timestamp = err session_id_injection_unsupported

-- A call on the builder.
pub data Setting : Type 0 where
  min_proto_version : ℕ → Setting
  max_proto_version : ℕ → Setting
  cipher_list : Bytes → Setting
  curves_list : Bytes → Setting
  sigalgs_list : Bytes → Setting
  alpn_protos : Bytes → Setting
  grease_enabled : Bool → Setting
  permute_extensions : Bool → Setting
  verify_none : Setting

abbrev pub SslConnector : Type 0
SslConnector = List Setting

-- `format!("0x{v:04x}")` of a u16.
unfoldable pub hex_word : ℕ → Bytes
hex_word v = b'0' ∷ b'x' ∷ (hex_byte (v / 256) ++ hex_byte (v % 256))

-- `join(":")`
unfoldable pub hex_list : List ℕ → Bytes
unfolding hex_word
hex_list [] = []
hex_list (v ∷ []) = hex_word v
hex_list (v ∷ w ∷ vs) = hex_word v ++ (b':' ∷ hex_list (w ∷ vs))

-- The loop that pushes `proto.len() as u8` and the protocol.
unfoldable pub alpn_wire : List Bytes → Bytes
alpn_wire [] = []
alpn_wire (proto ∷ protos) = (length proto % 256) ∷ (proto ++ alpn_wire protos)

-- The calls that can fail, in order.
unfoldable pub chrome_settings : List Setting
unfolding hex_list alpn_wire
chrome_settings =
    min_proto_version 0x0303
    ∷ max_proto_version 0x0304
    ∷ cipher_list (hex_list chrome_cipher_suites)
    ∷ curves_list (hex_list chrome_groups)
    ∷ sigalgs_list (hex_list chrome_sig_algs)
    ∷ alpn_protos (alpn_wire chrome_alpn)
    ∷ []

-- `accepts` is what each setter of BoringSSL answers.
unfoldable pub set_all : (Setting → Bool) → List Setting → Result RealityError (Unit {0})
set_all accepts [] = ok tt
set_all accepts (s ∷ ss) = ensure (accepts s) boring_build >> set_all accepts ss

-- `builds` is what `SslConnector::builder` answers.
unfoldable pub build_connector : Bool → (Setting → Bool) → Result RealityError SslConnector
unfolding set_all chrome_settings
build_connector builds accepts =
    ensure builds boring_build
    >> set_all accepts chrome_settings
    >> ok (chrome_settings ++ (grease_enabled true ∷ permute_extensions true ∷ verify_none ∷ []))

pub record RealityClient : Type 0 where
  pub config : RealityConfig
  pub connector : SslConnector
  pub injector : RealityInjector

unfoldable pub with_injector :
    Bool → (Setting → Bool) → RealityConfig → RealityInjector → Result RealityError RealityClient
unfolding build_connector
with_injector builds accepts config injector = build_connector builds accepts >>= λ connector.
    ok (record { config = config; connector = connector; injector = injector })

-- `RealityClient::new`
unfoldable pub new_client :
    Bool → (Setting → Bool) → RealityConfig → Result RealityError RealityClient
unfolding with_injector unsupported_injector
new_client builds accepts config = with_injector builds accepts config unsupported_injector

-- What a connect meets: TCP, `configure`, and the TLS handshake; the clock in seconds.
pub record Edge : Type 0 where
  pub seconds : ℕ
  pub connects : Bool
  pub configures : Bool
  pub handshakes : Bool

-- The names that handshakes presented, and the result.
pub record Connected : Type 0 where
  pub presented : List Bytes
  pub result : Result RealityError (Unit {0})

-- From the injector's answer on.
unfoldable pub after_install : Result RealityError (Unit {0}) → Edge → Bytes → Bytes → Connected
after_install panic edge addr sni = record { presented = []; result = panic }
after_install (err e) edge addr sni = record { presented = []; result = err e }
after_install (ok _) edge addr sni = record {
  presented = sni ∷ [];
  result = ensure edge.handshakes (handshake_failed addr sni);
}

unfoldable pub connect : RealityClient → Edge → Bytes → Bytes → Connected
unfolding after_install
connect client edge addr sni =
    if edge.connects
    then (if edge.configures
        then after_install (client.injector client.config (edge.seconds % 2 ^ 32)) edge addr sni
        else record { presented = []; result = err boring_config })
    else record { presented = []; result = err (tcp_connect addr) }

connect-injector :
    (client : RealityClient) (edge : Edge) (addr sni : Bytes) (e : RealityError)
    → client.injector client.config (edge.seconds % 2 ^ 32) ≡ err e
    → ((connect client edge addr sni).presented ≡ [])
      × ((connect client edge addr sni).result ≢ ok tt)
unfolding connect after_install
connect-injector client edge addr sni e refused = elim (Bool-cases edge.connects) [
  | inr none_there ↦ rw none_there (refl, λ e. cc)
  | inl there ↦ elim (Bool-cases edge.configures) [
    | inr unset ↦ rw (there, unset) (refl, λ e. cc)
    | inl set ↦ rw (there, set, refused) (refl, λ e. cc)
  ]
]

-- From a client made by `new`, with the injector that refuses, no handshake starts and no connection
-- results, whatever BoringSSL and the server do.
pub connect_refuses :
    (builds : Bool) (accepts : Setting → Bool) (config : RealityConfig) (client : RealityClient)
    (edge : Edge) (addr sni : Bytes)
    → new_client builds accepts config ≡ ok client
    → ((connect client edge addr sni).presented ≡ [])
      × ((connect client edge addr sni).result ≢ ok tt)
unfolding new_client with_injector unsupported_injector
connect_refuses builds accepts config client edge addr sni made =
    ok_elim (build_connector builds accepts) _ made (λ connector built whole.
      let same = ok-injective whole in
      connect-injector client edge addr sni session_id_injection_unsupported (rw (sym same) refl))
