-- ===== src/Lib.antt =====
-- REALITY-Hydra: a tunnel whose client presents SNIs from a keyed pool that changes with time, and
-- whose exit node answers only to headers authenticated under the shared secret.
--
-- The parts modelled and how they interact:
-- * `Proto` is crates/tunnel-proto/src/lib.rs, the CONNECT header. `Proto` has the types, `encode_request`
--   and `Target::display`; `Proto.Parse` has `parse_request`, split where its `match` on the address
--   type begins and ends (`parse_host`, `parse_tail`), every index and slice a read that may panic.
-- * `Server` is `handle` of crates/hydra-server/src/lib.rs, which reads until `parse_request` has an
--   answer, then dials, replies, forwards early bytes and relays. The reads are a list of chunks, the
--   clock a function of the round, so that every way the network cuts the stream is covered.
-- * `Server.Tls` is crates/hydra-server/src/tls.rs, the certificate and the key kept in two files over the
--   starts, whose pin the client has in its configuration; `Server.Serve` is the accept loop of lib.rs.
-- * `Pool` is crates/pool-engine/src: entry.rs (`Pool.Master`), epoch.rs and kdf.rs (`Pool`), sampler.rs
--   (`Pool.Sampler`), lib.rs (`Pool.Window`) and select.rs (`Pool.Selector`). The client draws its SNI
--   with the selector from such a pool; the server publishes the window.
-- * `Config` is crates/pool-engine/src/config.rs: `into_config` and the decoders under it, which make the
--   keys and the master list that the other parts take. `Config.Document` is a TOML document as lines and
--   the text of these; `Config.Deserialize` is what the derived `Deserialize` of the raw types makes of it.
-- * `Socks` is crates/hydra-client/src/socks5.rs, the handshake with the local application, and
--   `socks_to_target` of crates/hydra-client/src/pipeline.rs, which makes the header's target of it.
-- * `Client` is crates/hydra-client/src/tunnel.rs, which dials the exit node, checks the pinned
--   certificate, sends the header and reads the reply; `Client.Meeting` runs it against `Server`.
-- * `Client.Pipeline` is crates/hydra-client/src/pipeline.rs: `handle_connection` with its refresh,
--   selection, warm and tunnel in order, over `Socks`, `Pool`, `Dns` and `Client`;
--   `Client.Pipeline.Races` is a step relation on the three sections of `maybe_refresh_epoch`, which no
--   lock spans.
-- * `Dns` is crates/dns-warmer/src/warmer.rs: the cache of resolutions that must hold an SNI before it is
--   presented. `warm` leaves the lock while the resolver works; `Dns.Steps` is a step relation on the
--   cache and the calls under way, so that every interleaving of the sections is covered. `Dns.Mock` is
--   the MockResolver of crates/dns-warmer/src/resolver.rs.
-- * `Client.Serve` is `serve` of crates/hydra-client/src/pipeline.rs and `run` of main.rs beside it: a
--   configuration's file, the pipeline of `mock` and the accept loop. `hydra serve` is the same code.
-- * `Health` is crates/health-checker/src/san.rs, the match of an SNI with a certificate's names;
--   `Health.Check` is coherence.rs, prober.rs, report.rs and checker.rs, from the observations of each
--   entry of the master list to the pruned pool.
-- * `Cli` is crates/hydra-cli/src: epoch.rs and render.rs (`Cli`, `Cli.Render`), which print the names
--   that the server accepts, with `server-names` of main.rs; keygen.rs (`Cli.Keygen`); init.rs
--   (`Cli.Init`), whose file `Config.Load` reads; server.rs (`Cli.Server`), which joins that file, the
--   material and the accept loop; and service.rs (`Cli.Service`), where `install` and `uninstall` are
--   functions on the files and the commands started.
-- * `Hardening` is crates/hardening/src/checklist.rs, the checks of a configuration against `Pool`;
--   `Hardening.Metrics` is metrics.rs, the counters and the deltas of their snapshots;
--   `Hardening.Distribution` is distribution.rs, the chi-square test of the selections.
-- * `Reality` is crates/reality-tls/src: config.rs, error.rs and fingerprint.rs (`Reality`), auth.rs
--   (`Reality.Auth`), where the client seals a token that the server opens, and client.rs
--   (`Reality.Connect`), whose injector is the step between TCP and the TLS handshake.
-- * `Tasks` is xtask/src/main.rs, the tasks that build, test, install and configure, as steps on the files
--   and the commands started.
-- * `Base` has the shared helpers: lists over native numbers, `Result` with a panic, bytes in both
--   orders, maps, `str::trim`, UTF-8, the order of strings, Rust's stable sort.
-- * `Examples` instantiates the theorems, with a checksum in place of HMAC and natural numbers in place
--   of `f64`.
--
-- Integers are natural numbers; `as u8`, `to_le_bytes` and saturation are written out. A `String` is its
-- bytes; paths are those of Unix. The reads of a connection are finite and the loop recurs on them: an
-- end of the list is the peer's end of stream. A listener is the list of what it gives, and the accept
-- loops recur on it. The only fuel is in `decimal`, twenty digits, which every 64-bit number fits.
--
-- Parameters: base64 (`Base64`), HMAC-SHA256 (`Hmac`, 32 bytes, `verify_slice` compares with the tag),
-- `f64` (`Floats`, of which `total_cmp` is the order of a place), the generators (`Rng`), SHA-256 and
-- rustls's legal names (`Client`), the resolver (`Dns`), TOML (`Toml`, of
-- which `Parses` of `Config.Deserialize` is relied on), the generator of certificates (`Certifier`), serde_json
-- (`Cli.Render`, `Cli.Keygen`), the file system and the commands, X25519, HKDF-SHA256 and AES-256-GCM (`Reality.Auth`), what BoringSSL answers (`Reality.Connect`).
--
-- Not modelled: TLS, sockets and the relay (tokio, rustls), the parsing of arguments and the dispatch of
-- crates/hydra-cli/src/main.rs, the live resolver of crates/dns-warmer/src/hickory.rs, the inspection of
-- certificates in crates/health-checker/src/rustls_inspector.rs, and the instructions that
-- crates/hydra-client/src/server_setup.rs prints: they are I/O, calls of third-party code or fixed text.
-- The `HashMap`s are association lists.
pub mod Base
pub mod Proto
pub mod Pool
pub mod Dns
pub mod Config
pub mod Socks
pub mod Client
pub mod Health
pub mod Hardening
pub mod Cli
pub mod Reality
pub mod Server
pub mod Tasks
pub mod Examples
