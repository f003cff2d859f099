-- ===== src/Client/Pipeline/Unset.antt =====
-- A pipeline with no address for the exit node.
use mathlib.Core.Path.{subst}
use reality_hydra.Base.{[], Bytes, ◌≡◌, ◌≢◌, refl, Option, none, Bool, Result, ok, err, panic}
use reality_hydra.Proto.{Hmac, Target}
use reality_hydra.Pool.{Floats, Rng}
use reality_hydra.Config.{HydraConfig}
use reality_hydra.Dns
use reality_hydra.Dns.{Resolved, ResolveError}
use reality_hydra.Socks.{Socks5Addr, Reading, socks_to_target}
use reality_hydra.Client.{TunnelClient}
use reality_hydra.Client.Pipeline.{
  Connection, Pipeline, Handled, tunnel_to, build_tunnel, with_selector, stopped, through_tunnel,
  after_warm, on_pick, on_target, on_handshake, handle_connection,
}
use reality_hydra.Client.Pipeline.Drawn.{
  Reached, Reached-IsCurrent, maybe_refresh_epoch-IsCurrent, IsCurrent,
}

module _ (fl : Floats) (rng : Rng fl.F) (h : Hmac) where
  -- No tunnel was tried and no relay started, and the connection failed.
  abbrev pub Fails : Handled fl rng h → Type 0
  Fails o = (o.presented ≡ none) × (o.written ≡ []) × (o.relayed ≡ none) × (o.result ≢ ok tt)

  module _ (digest : Bytes → Bytes) (legal_name : Bytes → Bool) where
    after_warm-Fails :
        (w : Result ResolveError (Resolved × Dns.Cache)) (p : Pipeline fl rng h) (st : rng.State)
        (c : Connection) (sni : Bytes) (target : Target) (rest : Bytes)
        → p.tunnel ≡ none
        → Fails (after_warm fl rng h digest legal_name w p st c sni target rest)
    unfolding after_warm through_tunnel stopped
    after_warm-Fails (ok w) p st c sni target rest unset = rw unset (refl, refl, refl, λ e. cc)
    after_warm-Fails (err e) p st c sni target rest unset = rw unset (refl, refl, refl, λ e. cc)
    after_warm-Fails panic p st c sni target rest unset = (refl, refl, refl, λ e. cc)

    on_handshake-Fails :
        (r : Reading Socks5Addr) {config : HydraConfig fl.F} (p : Pipeline fl rng h)
        (st : rng.State) (c : Connection)
        → IsCurrent fl rng h config none p
        → Fails (on_handshake fl rng h digest legal_name r p st c)
    unfolding on_handshake on_target on_pick with_selector stopped
    on_handshake-Fails (ok a) p st c i =
        after_warm-Fails _ _ _ c _ (socks_to_target a.0) a.1
          (maybe_refresh_epoch-IsCurrent fl rng h p c.refresh_secs i).0.same_tunnel
    on_handshake-Fails (err e) p st c i = (refl, refl, refl, λ e. cc)
    on_handshake-Fails panic p st c i = (refl, refl, refl, λ e. cc)

    -- With neither `server_addr` nor `dest` in the configuration, every connection fails, after any
    -- others, without an attempt at a tunnel.
    pub handle_connection-Fails :
        (builds : Bool) (config : HydraConfig fl.F) (p : Pipeline fl rng h) (st : rng.State)
        (c : Connection)
        → config.server_addr ≡ none
        → config.dest ≡ none
        → Reached fl rng h digest legal_name builds config p
        → Fails (handle_connection fl rng h digest legal_name p st c)
    unfolding handle_connection build_tunnel tunnel_to
    handle_connection-Fails builds config p st c no_addr no_dest r =
        let unset : build_tunnel fl rng h builds config ≡ none = rw (no_addr, no_dest) refl in
        on_handshake-Fails _ p st c (
          subst (λ (t : Option TunnelClient). IsCurrent fl rng h config t p) unset
            (Reached-IsCurrent fl rng h digest legal_name builds config r))
