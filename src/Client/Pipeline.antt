-- ===== src/Client/Pipeline.antt =====
-- crates/hydra-client/src/pipeline.rs: one connection after the other through the pipeline. What
-- connections that run at once make of a refresh is `Client.Pipeline.Races`.
-- The clocks, the resolver, the application's stream and the exit node are given by what they answer;
-- each time the code reads a clock is an argument of its own.
pub mod Drawn
pub mod Warmed
pub mod Reach
pub mod Unset
pub mod Races
pub mod Cold
use reality_hydra.Base.{
  ℕ, Bool, [], Bytes, Option, none, some, ◌==◌, if◌then◌else◌, Result, ok, err, panic,
}
use reality_hydra.Proto.{Hmac, Target, display}
use reality_hydra.Pool.{Floats, Rng, ActivePool, epoch_at}
use reality_hydra.Pool.Window.{accepted_pool_window}
use reality_hydra.Pool.Selector.{Selector, new, select}
use reality_hydra.Config.{HydraConfig}
use reality_hydra.Dns
use reality_hydra.Dns.{Resolved, ResolveError, WarmerConfig, default_config, warm}
use reality_hydra.Socks.{Socks5Addr, Reading, handshake, socks_to_target}
use reality_hydra.Client.{
  ClientError, socks5_failed, no_server_addr, TunnelClient, Dial, placeholder, server_name,
  open_tunnel,
}

-- `or_else`
abbrev pub or_else : Option Bytes → Option Bytes → Option Bytes
or_else none other = other
or_else (some a) other = some a

unwrap_or : Option Bytes → Bytes → Bytes
unwrap_or none other = other
unwrap_or (some a) other = a

-- What one connection meets.
pub record Connection : Type 0 where
  pub stream : Bytes
  pub greeted : Bool
  pub replied : Bool
  pub refresh_secs : ℕ
  pub now_ms : ℕ
  pub resolve : Bytes → Result ResolveError Resolved
  pub timestamp : ℕ
  pub dial : Dial

-- The connection with another resolver.
abbrev pub with_resolve : Connection → (Bytes → Result ResolveError Resolved) → Connection
with_resolve c resolve = record {
  stream = c.stream;
  greeted = c.greeted;
  replied = c.replied;
  refresh_secs = c.refresh_secs;
  now_ms = c.now_ms;
  resolve = resolve;
  timestamp = c.timestamp;
  dial = c.dial;
}

module _ (fl : Floats) (rng : Rng fl.F) (h : Hmac) where
  pub record Pipeline : Type 0 where
    pub config : HydraConfig fl.F
    pub warmer_config : WarmerConfig
    pub warm_cache : Dns.Cache
    pub selector : Selector
    pub pool : ActivePool fl.F
    pub current_epoch : ℕ
    pub tunnel : Option TunnelClient

  unfoldable pub tunnel_to : Bool → HydraConfig fl.F → Option Bytes → Option TunnelClient
  tunnel_to builds config none = none
  tunnel_to builds config (some addr) =
      if builds
      then some (record {
        server_addr = addr;
        cert_pin = config.cert_pin;
        master_secret = config.master_secret;
      })
      else none

  -- `builds` is whether rustls takes the client's configuration.
  unfoldable pub build_tunnel : Bool → HydraConfig fl.F → Option TunnelClient
  unfolding tunnel_to
  build_tunnel builds config = tunnel_to builds config (or_else config.server_addr config.dest)

  -- The call of `accepted_pool_window` with the configuration's keys and list.
  unfoldable pub window_of : HydraConfig fl.F → ℕ → ActivePool fl.F
  window_of config epoch =
      accepted_pool_window fl rng h config.master_secret config.server_salt config.master_list
        config.active_k epoch

  unfoldable pub with_resolver : Bool → ℕ → HydraConfig fl.F → WarmerConfig → Pipeline
  unfolding window_of build_tunnel
  with_resolver builds unix_secs config warmer_config =
      let epoch = epoch_at unix_secs config.epoch_len in
      record {
        config = config;
        warmer_config = warmer_config;
        warm_cache = [];
        selector = new 30000;
        pool = window_of config epoch;
        current_epoch = epoch;
        tunnel = build_tunnel builds config;
      }

  unfoldable pub mock : Bool → ℕ → HydraConfig fl.F → Pipeline
  unfolding with_resolver
  mock builds unix_secs config = with_resolver builds unix_secs config default_config

  unfoldable pub maybe_refresh_epoch : Pipeline → ℕ → Pipeline
  unfolding window_of
  maybe_refresh_epoch p unix_secs =
      let epoch = epoch_at unix_secs p.config.epoch_len in
      if p.current_epoch == epoch then p else record {
        config = p.config;
        warmer_config = p.warmer_config;
        warm_cache = p.warm_cache;
        selector = p.selector;
        pool = window_of p.config epoch;
        current_epoch = epoch;
        tunnel = p.tunnel;
      }

  -- The answer, the selector after it, and the generator after it.
  unfoldable pub select_sni : Pipeline → Bytes → ℕ → rng.State → Option Bytes × Selector × rng.State
  select_sni p dest now_ms st = select fl rng p.selector p.pool dest now_ms st

  with_selector : Pipeline → Selector → Pipeline
  with_selector p selector = record {
    config = p.config;
    warmer_config = p.warmer_config;
    warm_cache = p.warm_cache;
    selector = selector;
    pool = p.pool;
    current_epoch = p.current_epoch;
    tunnel = p.tunnel;
  }

  with_warm_cache : Pipeline → Dns.Cache → Pipeline
  with_warm_cache p cache = record {
    config = p.config;
    warmer_config = p.warmer_config;
    warm_cache = cache;
    selector = p.selector;
    pool = p.pool;
    current_epoch = p.current_epoch;
    tunnel = p.tunnel;
  }

  -- What a connection did: the server name of the handshake it began, the bytes it wrote there, and the rest of
  -- the application's stream when the relay has started.
  pub record Handled : Type 0 where
    pub pipeline : Pipeline
    pub rng_state : rng.State
    pub presented : Option Bytes
    pub written : Bytes
    pub relayed : Option Bytes
    pub result : Result ClientError (Unit {0})

  stopped : Pipeline → rng.State → Result ClientError (Unit {0}) → Handled
  stopped p st result = record {
    pipeline = p;
    rng_state = st;
    presented = none;
    written = [];
    relayed = none;
    result = result;
  }

  started : Bytes → Result ClientError (Unit {0}) → Option Bytes
  started rest (ok _) = some rest
  started rest _ = none

  module _ (digest : Bytes → Bytes) (legal_name : Bytes → Bool) where
    -- From the look for a tunnel on.
    unfoldable pub through_tunnel :
        Option TunnelClient → Pipeline → rng.State → Connection → Bytes → Target → Bytes → Handled
    unfolding stopped started server_name
    through_tunnel none p st c sni target rest = stopped p st (err no_server_addr)
    through_tunnel (some tunnel) p st c sni target rest =
        let o = open_tunnel h digest legal_name tunnel c.timestamp c.dial sni target in
        record {
          pipeline = p;
          rng_state = st;
          presented = server_name legal_name c.dial sni;
          written = o.written;
          relayed = started rest o.result;
          result = o.result;
        }

    -- With the outcome of the warmer, whose errors are passed over; a panic ends the connection.
    unfoldable pub after_warm :
        Result ResolveError (Resolved × Dns.Cache)
        → Pipeline
        → rng.State
        → Connection
        → Bytes
        → Target
        → Bytes
        → Handled
    unfolding through_tunnel with_warm_cache stopped
    after_warm (ok w) p st c sni target rest =
        through_tunnel p.tunnel (with_warm_cache p w.1) st c sni target rest
    after_warm (err e) p st c sni target rest = through_tunnel p.tunnel p st c sni target rest
    after_warm panic p st c sni target rest = stopped p st panic

    -- With the selector's answer.
    unfoldable pub on_pick :
        Option Bytes × Selector × rng.State → Pipeline → Connection → Target → Bytes → Handled
    unfolding after_warm with_selector unwrap_or
    on_pick picked p c target rest =
        let sni = unwrap_or picked.0 placeholder in
        after_warm (warm p.warmer_config c.resolve p.warm_cache sni c.now_ms)
          (with_selector p picked.1) picked.2 c sni target rest

    -- From the application's address on.
    unfoldable pub on_target : Pipeline → rng.State → Connection → Target → Bytes → Handled
    unfolding on_pick maybe_refresh_epoch select_sni
    on_target p st c target rest =
        let q = maybe_refresh_epoch p c.refresh_secs in
        on_pick (select_sni q (display target) c.now_ms st) q c target rest

    unfoldable pub on_handshake : Reading Socks5Addr → Pipeline → rng.State → Connection → Handled
    unfolding on_target stopped
    on_handshake (ok a) p st c = on_target p st c (socks_to_target a.0) a.1
    on_handshake (err e) p st c = stopped p st (err (socks5_failed e))
    on_handshake panic p st c = stopped p st panic

    unfoldable pub handle_connection : Pipeline → rng.State → Connection → Handled
    unfolding on_handshake
    handle_connection p st c = on_handshake (handshake c.greeted c.replied c.stream).result p st c
