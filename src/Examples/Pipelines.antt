-- ===== src/Examples/Pipelines.antt =====
-- A client that relays for an application, with a resolver that has no answers.
use reality_hydra.Base.{
  ◌∙◌, ◌≤◌, ℕ, ◌≡◌, ◌≢◌, refl, ◌⊎◌, true, [], ◌∷◌, ◌++◌, map, Bytes, none, some, Result, ok, err,
  panic, arith, replicate, text_eq, text_le, get, le_bytes, be_bytes,
}
use reality_hydra.Base.Sort.{insert, sort}
use reality_hydra.Proto.{encode_host}
use reality_hydra.Pool.{epoch_at, has_sni, from_unsorted, derive_seed}
use reality_hydra.Pool.Sampler.{key_le, draw_keys, subset_from_seed, keyed_epoch_subset}
use reality_hydra.Pool.Window.{or_insert, insert_all, union_epochs, accepted_pool_window}
use reality_hydra.Pool.Selector.{
  select, select_from, choose, usable, fresh_choice, weighted_pick, walk, total_weight,
}
use reality_hydra.Config.{HydraConfig}
use reality_hydra.Dns.{
  Resolved, ResolveError, no_addresses, default_config, warm, on_peek, peek, resolve_and_store,
}
use reality_hydra.Socks.{
  handshake, on_greeting, on_request, answer, read_greeting, read_request, read_addr, read_ipv4,
  read_u8, read_u16, read_exact, socks_to_target,
}
use reality_hydra.Socks.Request.{request}
use reality_hydra.Server.{chunk, handle}
use reality_hydra.Client.Meeting.{first}
use reality_hydra.Client.Pipeline.{
  Connection, Pipeline, with_resolver, build_tunnel, tunnel_to, window_of, maybe_refresh_epoch,
  select_sni, handle_connection, on_handshake, on_target, on_pick, after_warm, through_tunnel,
  with_resolve,
}
use reality_hydra.Client.Pipeline.Drawn.{MayPresent, started, handle_connection-MayPresent}
use reality_hydra.Client.Pipeline.Warmed.{seen, handle_connection_warms_quietly}
use reality_hydra.Client.Pipeline.Races.{
  Shared, Interleaved, start, checked, written, sent, Interleaved-current, Interleaved_stale,
}
use reality_hydra.Examples.Fixtures.{checksum, checksum_hmac, whole_floats, counter, key, edge, sum}
use reality_hydra.Examples.Exit.{noon, cut}
use reality_hydra.Examples.Dialling.{as_is, any_name}
use reality_hydra.Examples.Settings

abbrev no_exit : HydraConfig ℕ
no_exit = Settings.checked

abbrev config : HydraConfig ℕ
config = record {
  master_secret = key;
  server_salt = replicate 16 66;
  epoch_len = 100;
  active_k = 1;
  master_list = no_exit.master_list;
  dest = none;
  coherence_cidrs = [];
  reality = none;
  server_addr = some (b'h' ∷ []);
  cert_pin = some (8 ∷ []);
}

abbrev started_at_5 : HydraConfig ℕ → Pipeline whole_floats counter checksum_hmac
started_at_5 cfg = with_resolver whole_floats counter checksum_hmac true 500 cfg default_config

abbrev no_answers : Bytes → Result ResolveError Resolved
no_answers host = err (no_addresses host)

abbrev one_answer : Bytes → Result ResolveError Resolved
one_answer host = ok (record { addrs = (1 ∷ 1 ∷ 1 ∷ 1 ∷ []) ∷ []; ttl = 60000000000 })

abbrev connection : Connection
connection = record {
  stream = request (0 ∷ []) edge ++ (7 ∷ []);
  greeted = true;
  replied = true;
  refresh_secs = 1010;
  now_ms = 1010000;
  resolve = no_answers;
  timestamp = 1000;
  dial = record {
    connects = true;
    end_entity = 8 ∷ [];
    handshakes = true;
    header_written = true;
    reply = first (handle checksum_hmac noon key 120 (map chunk cut)).sent;
  };
}

no_panic : (host : Bytes) → no_answers host ≢ panic
no_panic host e = cc

no_panic' : (host : Bytes) → one_answer host ≢ panic
no_panic' host e = cc

shows_b :
    (handle_connection whole_floats counter checksum_hmac as_is any_name
      (started_at_5 config)
      3
      connection).presented
    ≡ some (b'b' ∷ [])
unfolding with_resolver build_tunnel tunnel_to window_of maybe_refresh_epoch select_sni
    handle_connection on_handshake on_target on_pick after_warm through_tunnel handshake on_greeting
    on_request answer read_greeting read_request read_addr read_ipv4 read_u8 read_u16 read_exact
    socks_to_target warm on_peek peek resolve_and_store select select_from choose usable
    fresh_choice weighted_pick walk total_weight get or_insert insert_all union_epochs
    accepted_pool_window key_le draw_keys subset_from_seed keyed_epoch_subset has_sni from_unsorted
    derive_seed epoch_at sort insert text_eq text_le checksum_hmac checksum sum encode_host be_bytes
    le_bytes
shows_b = refl

handle_connection-MayPresent_example :
    MayPresent whole_floats counter checksum_hmac as_is any_name config 1010 (b'b' ∷ [])
handle_connection-MayPresent_example =
    handle_connection-MayPresent whole_floats counter checksum_hmac as_is any_name true config
      (started_at_5 config) 3 connection (b'b' ∷ []) (started 500 default_config) shows_b

sane : (started_at_5 config).warmer_config.min_ttl ≤ (started_at_5 config).warmer_config.max_ttl
unfolding with_resolver
sane = omega arith

handle_connection_warms_quietly_example :
    seen whole_floats counter checksum_hmac (
      handle_connection whole_floats counter checksum_hmac as_is any_name
        (started_at_5 config)
        3
        connection)
    ≡ seen whole_floats counter checksum_hmac (
        handle_connection whole_floats counter checksum_hmac as_is any_name
          (started_at_5 config)
          3
          (with_resolve connection one_answer))
handle_connection_warms_quietly_example =
    handle_connection_warms_quietly whole_floats counter checksum_hmac as_is any_name
      (started_at_5 config) 3 connection one_answer sane no_panic no_panic'

-- The pool of epoch 5, and a refresh to epoch 10 that has not written yet.
abbrev idle : Shared whole_floats counter checksum_hmac config
idle = record {
  pool = window_of whole_floats counter checksum_hmac config 5;
  current_epoch = 5;
  under_way = [];
}

at : (secs epoch : ℕ) → epoch_at secs 100 ≡ epoch → 5 ≢ epoch → 5 ≢ epoch_at secs 100
at secs epoch e apart = λ same. apart (same ∙ e)

in_10 : epoch_at 1010 100 ≡ 10
unfolding epoch_at
in_10 = refl

in_11 : epoch_at 1110 100 ≡ 11
unfolding epoch_at
in_11 = refl

moved_to_10 : 5 ≢ epoch_at 1010 100
moved_to_10 = at 1010 10 in_10 (λ e. omega (arith, e))

moved_to_11 : 5 ≢ epoch_at 1110 100
moved_to_11 = at 1110 11 in_11 (λ e. omega (arith, e))

abbrev refreshed : Shared whole_floats counter checksum_hmac config
refreshed = record {
  pool = window_of whole_floats counter checksum_hmac config (epoch_at 1010 100);
  current_epoch = epoch_at 1010 100;
  under_way = [];
}

one_refresh :
    Interleaved whole_floats counter checksum_hmac config
      (λ x. x ≡ epoch_at 1010 100)
      idle
      refreshed
one_refresh =
    sent [] [] (epoch_at 1010 100)
      (written [] [] (epoch_at 1010 100) (checked 1010 start refl moved_to_10) refl) refl

Interleaved-current_example :
    refreshed.pool ≡ window_of whole_floats counter checksum_hmac config refreshed.current_epoch
Interleaved-current_example =
    Interleaved-current whole_floats counter checksum_hmac config (epoch_at 1010 100) idle refreshed
      refl refl one_refresh refl

Interleaved_stale_example :
    Interleaved whole_floats counter checksum_hmac config
      (λ x. (x ≡ epoch_at 1010 100) ⊎ (x ≡ epoch_at 1110 100))
      idle
      (record {
        pool = window_of whole_floats counter checksum_hmac config (epoch_at 1010 100);
        current_epoch = epoch_at 1110 100;
        under_way = [];
      })
Interleaved_stale_example =
    Interleaved_stale whole_floats counter checksum_hmac config idle 1010 1110 refl moved_to_10
      moved_to_11
