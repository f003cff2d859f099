-- ===== src/Examples/Routing.antt =====
-- `hydra serve` on a configuration file, with the exit node of `Exit`.
use reality_hydra.Base.{
  ◌≡◌, ◌≢◌, refl, ◌∙◌, ℕ, true, false, List, [], ◌∷◌, ◌++◌, Bytes, All, map, length, get_elem?, get,
  some, none, ok, err, ascii, arith, text_eq, text_le, trim, replicate, FileTable, read_file,
  is_utf8, if◌then◌else◌,
}
use reality_hydra.Base.Sort.{insert, sort}
use reality_hydra.Proto.{encode_request, unsigned, display}
use reality_hydra.Pool.{domain_tag}
use reality_hydra.Pool.Master
use reality_hydra.Pool.Master.{check_entries, check_pairs}
use reality_hydra.Config.{
  HydraConfig, RawConfig, parse_u64, unit_secs, parse_parts, parse_duration, strip_b64, transpose,
  decode_b64, decode_pin, into_config,
}
use reality_hydra.Config.Load.{Toml, from_file, from_toml_str, from_file-from_toml_str}
use reality_hydra.Dns.{no_addresses}
use reality_hydra.Dns.Mock.{mock_resolve, empty_table}
use reality_hydra.Socks.Request.{request}
use reality_hydra.Server.{chunk, handle}
use reality_hydra.Client.{Dial, TunnelClient, verify_server_cert}
use reality_hydra.Client.Meeting.{first}
use reality_hydra.Client.Pipeline.{Connection, Handled, build_tunnel, tunnel_to, mock}
use reality_hydra.Client.Pipeline.Warmed.{seen}
use reality_hydra.Client.Serve.{
  Arrival, lost, arrived, ClientArgs, Routed, route_all, serve, run_client, run_client-serve,
}
use reality_hydra.Client.Serve.Cold.{KnowsNone, run_client_cold}
use reality_hydra.Client.Serve.Reaches.{run_client_reaches}
use reality_hydra.Examples.Fixtures.{whole_floats, checksum_hmac, counter, edge, entry_a, entry_b}
use reality_hydra.Examples.Settings.{plain_decoder}
use reality_hydra.Examples.Tunnel.{edge-IsTarget}
use reality_hydra.Examples.Exit.{noon}
use reality_hydra.Examples.Dialling.{as_is, any_name}
use reality_hydra.Examples.Starts.{healthy}

abbrev secret : Bytes
secret = replicate 32 65

abbrev cut : List Bytes
cut = encode_request checksum_hmac secret 1000 edge ∷ []

some_wire : encode_request checksum_hmac secret 1000 edge ≢ []
unfolding encode_request unsigned
some_wire = λ e. cc

abbrev settings : RawConfig ℕ
settings = record {
  master_secret = secret;
  server_salt = replicate 16 66;
  pool_format = domain_tag;
  epoch_len = ascii "6h";
  active_k = 1;
  dest = none;
  coherence_cidrs = [];
  pool = entry_b ∷ entry_a ∷ [];
  reality = none;
  server_addr = some (b'h' ∷ []);
  cert_pin = some (replicate 32 120);
}

abbrev pub text_parser : Toml ℕ
text_parser = record { from_str = λ s. if text_eq s (b't' ∷ []) then ok settings else err [] }

abbrev pub there : FileTable
there = (ascii "hydra.toml", b't' ∷ []) ∷ []

abbrev client_args : ClientArgs
client_args = record { config = ascii "hydra.toml"; listen = ascii "127.0.0.1:1080" }

abbrev pub config : HydraConfig ℕ
config = record {
  master_secret = secret;
  server_salt = replicate 16 66;
  epoch_len = 21600;
  active_k = 1;
  master_list = record { entries = entry_a ∷ entry_b ∷ [] };
  dest = none;
  coherence_cidrs = [];
  reality = none;
  server_addr = some (b'h' ∷ []);
  cert_pin = some (replicate 32 120);
}

parsed : from_toml_str whole_floats plain_decoder text_parser (b't' ∷ []) ≡ ok config
unfolding from_toml_str into_config decode_b64 strip_b64 trim parse_duration parse_parts unit_secs
    parse_u64 Master.new check_entries check_pairs sort insert text_eq text_le transpose decode_pin
    ascii
parsed = refl

readable : read_file healthy there client_args.config ≡ some (b't' ∷ [])
unfolding read_file get text_eq ascii
readable = refl

plain_text : is_utf8 (b't' ∷ []) ≡ true
unfolding is_utf8
plain_text = refl

pub loads :
    from_file whole_floats plain_decoder text_parser healthy there client_args.config ≡ ok config
loads =
    from_file-from_toml_str whole_floats plain_decoder text_parser healthy there client_args.config
      (b't' ∷ []) readable plain_text
    ∙ parsed

abbrev client : TunnelClient
client = record {
  server_addr = b'h' ∷ [];
  cert_pin = some (replicate 32 120);
  master_secret = secret;
}

set_up : build_tunnel whole_floats counter checksum_hmac true config ≡ some client
unfolding build_tunnel tunnel_to
set_up = refl

is_pinned : verify_server_cert as_is client.cert_pin (replicate 32 120) ≡ true
unfolding verify_server_cert text_eq
is_pinned = refl

-- The application's request, and one that the exit node never answers.
abbrev asking : Dial → Connection
asking dial = record {
  stream = request (0 ∷ []) edge ++ (7 ∷ []);
  greeted = true;
  replied = true;
  refresh_secs = 1010;
  now_ms = 1010000;
  resolve = λ host. err (no_addresses host);
  timestamp = 1000;
  dial = dial;
}

abbrev answered : Connection
answered = asking (record {
  connects = true;
  end_entity = replicate 32 120;
  handshakes = true;
  header_written = true;
  reply = first (handle checksum_hmac noon secret 120 (map chunk cut)).sent;
})

abbrev unanswered : Connection
unanswered = asking (record {
  connects = false;
  end_entity = [];
  handshakes = false;
  header_written = false;
  reply = none;
})

abbrev before : List Arrival
before = arrived unanswered ∷ []

abbrev after : List Arrival
after = arrived answered ∷ lost ∷ []

run_client_reaches_example :
    let s = handle checksum_hmac noon secret 120 (map chunk cut) in
    (routed : Routed whole_floats counter checksum_hmac) × (o : Handled whole_floats counter
      checksum_hmac)
    × (sni : Bytes) × (run_client whole_floats counter checksum_hmac as_is any_name plain_decoder
          text_parser healthy there client_args true true true 500 3
          (before ++ (arrived answered ∷ after))
        ≡ ok routed)
    × (get_elem? routed.handled (length before) ≡ some o)
    × (seen whole_floats counter checksum_hmac o
        ≡ (some sni, encode_request checksum_hmac secret 1000 edge, some (7 ∷ []), ok tt))
    × (s.dialled ≡ display edge ∷ [])
    × (s.relayed ≡ true)
run_client_reaches_example =
    run_client_reaches whole_floats counter checksum_hmac as_is any_name true config plain_decoder
      text_parser healthy there client_args 500 3 before after noon answered client (0 ∷ [])
      (7 ∷ []) edge 120 (replicate 32 120) cut [] loads set_up (tt, tt) refl refl refl (omega arith)
      edge-IsTarget tt (omega arith) (λ round. omega arith) refl is_pinned (some_wire, tt) refl refl
      refl refl refl

abbrev all_routed : Routed whole_floats counter checksum_hmac
all_routed =
    route_all whole_floats counter checksum_hmac as_is any_name (mock_resolve empty_table)
      (mock whole_floats counter checksum_hmac true 500 config) 3 (before ++ after)

completes :
    run_client whole_floats counter checksum_hmac as_is any_name plain_decoder text_parser healthy
      there client_args true true true 500 3
      (before ++ after)
    ≡ ok all_routed
unfolding serve
completes =
    run_client-serve whole_floats counter checksum_hmac as_is any_name plain_decoder text_parser
      healthy there client_args true true 500 3 (before ++ after) config loads

run_client_cold_example :
    All (KnowsNone whole_floats counter checksum_hmac as_is any_name) all_routed.handled
run_client_cold_example =
    run_client_cold whole_floats counter checksum_hmac as_is any_name plain_decoder text_parser
      healthy there client_args true true true 500 3 (before ++ after) all_routed completes
