-- ===== src/Client/Pipeline/Warmed.antt =====
-- A failed warm never shows in a connection.
use reality_hydra.Base.{
  Bool-cases, ◌==◌, inl, inr, ℕ, ◌≤◌, Bool, Bytes, ◌≡◌, ◌≢◌, refl, sym, ◌∙◌, Option, none, some,
  Result, ok, err, panic,
}
use reality_hydra.Proto.{Hmac, Target}
use reality_hydra.Pool.{Floats, Rng, epoch_at}
use reality_hydra.Dns
use reality_hydra.Dns.{Resolved, ResolveError, warm}
use reality_hydra.Dns.Single.{warm_total}
use reality_hydra.Socks.{Socks5Addr, Reading, handshake}
use reality_hydra.Client.{ClientError, TunnelClient}
use reality_hydra.Client.Pipeline.{
  Connection, Pipeline, Handled, maybe_refresh_epoch, with_warm_cache, stopped, through_tunnel,
  with_resolve, after_warm, on_pick, on_target, on_handshake, handle_connection,
}

module _ (fl : Floats) (rng : Rng fl.F) (h : Hmac) where
  -- What the application and the exit node see of a connection.
  abbrev pub seen :
      Handled fl rng h → Option Bytes × Bytes × Option Bytes × Result ClientError (Unit {0})
  seen o = (o.presented, o.written, o.relayed, o.result)

  module _ (digest : Bytes → Bytes) (legal_name : Bytes → Bool) where
    through_tunnel-seen :
        (tunnel : Option TunnelClient) (p q : Pipeline fl rng h) (st : rng.State) (c : Connection)
        (resolve : Bytes → Result ResolveError Resolved) (sni : Bytes) (target : Target)
        (rest : Bytes)
        → seen (through_tunnel fl rng h digest legal_name tunnel p st c sni target rest)
          ≡ seen (
              through_tunnel fl rng h digest legal_name tunnel q st
                (with_resolve c resolve)
                sni
                target
                rest)
    unfolding through_tunnel stopped
    through_tunnel-seen none p q st c resolve sni target rest = refl
    through_tunnel-seen (some t) p q st c resolve sni target rest = refl

    -- A warm that did not panic is as good as none.
    pub after_warm-seen :
        (w : Result ResolveError (Resolved × Dns.Cache)) (p : Pipeline fl rng h) (st : rng.State)
        (c : Connection) (resolve : Bytes → Result ResolveError Resolved) (sni : Bytes)
        (target : Target) (rest : Bytes)
        → w ≢ panic
        → seen (after_warm fl rng h digest legal_name w p st c sni target rest)
          ≡ seen (
              through_tunnel fl rng h digest legal_name p.tunnel p st
                (with_resolve c resolve)
                sni
                target
                rest)
    unfolding after_warm
    after_warm-seen (ok w) p st c resolve sni target rest calm =
        through_tunnel-seen p.tunnel (with_warm_cache fl rng h p w.1) p st c resolve sni target rest
    after_warm-seen (err e) p st c resolve sni target rest calm =
        through_tunnel-seen p.tunnel p p st c resolve sni target rest
    after_warm-seen panic p st c resolve sni target rest calm = absurd (calm refl)

    warmed :
        (p : Pipeline fl rng h) (c : Connection) (sni : Bytes) (q : Pipeline fl rng h)
        (st : rng.State) (resolve : Bytes → Result ResolveError Resolved) (target : Target)
        (rest : Bytes)
        → p.warmer_config.min_ttl ≤ p.warmer_config.max_ttl
        → ((host : Bytes) → c.resolve host ≢ panic)
        → ((host : Bytes) → resolve host ≢ panic)
        → seen (
            after_warm fl rng h digest legal_name
              (warm p.warmer_config c.resolve p.warm_cache sni c.now_ms)
              q
              st
              c
              sni
              target
              rest)
          ≡ seen (
              after_warm fl rng h digest legal_name
                (warm p.warmer_config resolve p.warm_cache sni c.now_ms)
                q
                st
                (with_resolve c resolve)
                sni
                target
                rest)
    warmed p c sni q st resolve target rest sane calm calm' =
        after_warm-seen _ q st c resolve sni target rest
          (warm_total p.warmer_config c.resolve p.warm_cache sni c.now_ms sane (calm sni))
        ∙ sym (
            after_warm-seen _ q st (with_resolve c resolve) resolve sni target rest
              (warm_total p.warmer_config resolve p.warm_cache sni c.now_ms sane (calm' sni)))

    refreshed_warmer :
        (p : Pipeline fl rng h) (unix_secs : ℕ)
        → (maybe_refresh_epoch fl rng h p unix_secs).warmer_config ≡ p.warmer_config
    unfolding maybe_refresh_epoch
    refreshed_warmer p unix_secs =
        elim (Bool-cases (p.current_epoch == epoch_at unix_secs p.config.epoch_len)) [
          | inl same ↦ rw same refl
          | inr moved ↦ rw moved refl
        ]

    -- The warmer's bounds stay in order over a refresh.
    pub refreshed_sane :
        (p : Pipeline fl rng h) (unix_secs : ℕ)
        → p.warmer_config.min_ttl ≤ p.warmer_config.max_ttl
        → let q = maybe_refresh_epoch fl rng h p unix_secs in
          q.warmer_config.min_ttl ≤ q.warmer_config.max_ttl
    refreshed_sane p unix_secs sane = rw (refreshed_warmer p unix_secs) sane

    on_handshake-seen :
        (r : Reading Socks5Addr) (p : Pipeline fl rng h) (st : rng.State) (c : Connection)
        (resolve : Bytes → Result ResolveError Resolved)
        → p.warmer_config.min_ttl ≤ p.warmer_config.max_ttl
        → ((host : Bytes) → c.resolve host ≢ panic)
        → ((host : Bytes) → resolve host ≢ panic)
        → seen (on_handshake fl rng h digest legal_name r p st c)
          ≡ seen (on_handshake fl rng h digest legal_name r p st (with_resolve c resolve))
    unfolding on_handshake on_target on_pick stopped
    on_handshake-seen (err e) p st c resolve sane calm calm' = refl
    on_handshake-seen panic p st c resolve sane calm calm' = refl
    on_handshake-seen (ok a) p st c resolve sane calm calm' =
        warmed (maybe_refresh_epoch fl rng h p c.refresh_secs) c _ _ _ resolve _ a.1
          (refreshed_sane p c.refresh_secs sane) calm calm'

    -- With the warmer's bounds in order, what the application and the exit node see of a connection is
    -- the same whatever the resolver answers, errors included, as long as it does not panic.
    pub handle_connection_warms_quietly :
        (p : Pipeline fl rng h) (st : rng.State) (c : Connection)
        (resolve : Bytes → Result ResolveError Resolved)
        → p.warmer_config.min_ttl ≤ p.warmer_config.max_ttl
        → ((host : Bytes) → c.resolve host ≢ panic)
        → ((host : Bytes) → resolve host ≢ panic)
        → seen (handle_connection fl rng h digest legal_name p st c)
          ≡ seen (handle_connection fl rng h digest legal_name p st (with_resolve c resolve))
    unfolding handle_connection
    handle_connection_warms_quietly p st c resolve =
        on_handshake-seen (handshake c.greeted c.replied c.stream).result p st c resolve
