-- ===== src/Client/Pipeline/Drawn.antt =====
-- The SNI of a connection depends on the state of the pipeline only through the window of the clock's
-- epoch.
use reality_hydra.Base.{
  ℕ, Bool, true, false, [], Bytes, ◌≡◌, refl, sym, ap, ◌∙◌, ◌⊎◌, inl, inr, Option, none, some, ◌==◌,
  ==_iff, Bool-cases, if-cases, Result, ok, err, panic,
}
use reality_hydra.Proto.{Hmac, Target, display}
use reality_hydra.Pool.{Floats, Rng, ActivePool, contains, epoch_at}
use reality_hydra.Pool.Selector.{select}
use reality_hydra.Pool.Selector.Sticky.{Answers, select-contains}
use reality_hydra.Config.{HydraConfig}
use reality_hydra.Dns
use reality_hydra.Dns.{Resolved, ResolveError, WarmerConfig, warm}
use reality_hydra.Socks.{Socks5Addr, Reading, socks_to_target}
use reality_hydra.Client.{TunnelClient, Dial, placeholder, server_name}
use reality_hydra.Client.Pipeline.{
  Connection, Pipeline, window_of, with_resolver, build_tunnel, maybe_refresh_epoch, select_sni,
  with_selector, with_warm_cache, stopped, through_tunnel, after_warm, on_pick, on_target,
  on_handshake, handle_connection, unwrap_or,
}

module _ (fl : Floats) (rng : Rng fl.F) (h : Hmac) where
  -- The pool is the window of the epoch that the pipeline knows.
  pub record IsCurrent (config : HydraConfig fl.F) (tunnel : Option TunnelClient)
      (p : Pipeline fl rng h) : Type 0 where
    pub same_config : p.config ≡ config
    pub same_tunnel : p.tunnel ≡ tunnel
    pub window : p.pool ≡ window_of fl rng h config p.current_epoch

  pub maybe_refresh_epoch-IsCurrent :
      {config : HydraConfig fl.F} {tunnel : Option TunnelClient} (p : Pipeline fl rng h)
      (unix_secs : ℕ)
      → IsCurrent config tunnel p
      → IsCurrent config tunnel (maybe_refresh_epoch fl rng h p unix_secs)
        × ((maybe_refresh_epoch fl rng h p unix_secs).current_epoch
            ≡ epoch_at unix_secs config.epoch_len)
  unfolding maybe_refresh_epoch
  maybe_refresh_epoch-IsCurrent {config} {tunnel} p unix_secs i =
      let same_len : epoch_at unix_secs p.config.epoch_len ≡ epoch_at unix_secs config.epoch_len =
        ap (λ (c : HydraConfig fl.F). epoch_at unix_secs c.epoch_len) i.same_config in
      elim (Bool-cases (p.current_epoch == epoch_at unix_secs p.config.epoch_len)) [
        | inl same ↦ rw same (i, (==_iff p.current_epoch _).0 same ∙ same_len)
        | inr moved ↦ rw moved (
          record {
            same_config = i.same_config;
            same_tunnel = i.same_tunnel;
            window =
                ap
                  (λ (c : HydraConfig fl.F).
                    window_of fl rng h c (epoch_at unix_secs p.config.epoch_len))
                  i.same_config;
          },
          same_len,
        )
      ]

  module _ (digest : Bytes → Bytes) (legal_name : Bytes → Bool) where
    pub through_tunnel-pipeline :
        (tunnel : Option TunnelClient) (p : Pipeline fl rng h) (st : rng.State) (c : Connection)
        (sni : Bytes) (target : Target) (rest : Bytes)
        → (through_tunnel fl rng h digest legal_name tunnel p st c sni target rest).pipeline ≡ p
    unfolding through_tunnel stopped
    through_tunnel-pipeline none p st c sni target rest = refl
    through_tunnel-pipeline (some t) p st c sni target rest = refl

    -- What the handshake shows of the SNI that was picked.
    abbrev Presents : Bytes → Bytes → Type 0
    Presents sni shown =
        ((shown ≡ sni) × (legal_name sni ≡ true))
        ⊎ ((shown ≡ placeholder) × (legal_name sni ≡ false))

    server_name-Presents :
        (dial : Dial) (sni : Bytes) {shown : Bytes}
        → server_name legal_name dial sni ≡ some shown
        → Presents sni shown
    unfolding server_name
    server_name-Presents dial sni e = elim (if-cases dial.connects e) [
      | inr away ↦ absurd cc
      | inl there ↦ elim (if-cases (legal_name sni) there.1) [
        | inl own ↦ inl (cc, own.0)
        | inr other ↦ elim (if-cases (legal_name placeholder) other.1) [
          | inl fixed ↦ inr (cc, other.0)
          | inr neither ↦ absurd cc
        ]
      ]
    ]

    through_tunnel-Presents :
        (tunnel : Option TunnelClient) (p : Pipeline fl rng h) (st : rng.State) (c : Connection)
        (sni : Bytes) (target : Target) (rest : Bytes) {shown : Bytes}
        → (through_tunnel fl rng h digest legal_name tunnel p st c sni target rest).presented
          ≡ some shown
        → Presents sni shown
    unfolding through_tunnel stopped
    through_tunnel-Presents none p st c sni target rest e = absurd cc
    through_tunnel-Presents (some t) p st c sni target rest e = server_name-Presents c.dial sni e

    after_warm-IsCurrent :
        {config : HydraConfig fl.F} {tunnel : Option TunnelClient}
        (w : Result ResolveError (Resolved × Dns.Cache)) (p : Pipeline fl rng h) (st : rng.State)
        (c : Connection) (sni : Bytes) (target : Target) (rest : Bytes)
        → IsCurrent config tunnel p
        → IsCurrent config tunnel
            (after_warm fl rng h digest legal_name w p st c sni target rest).pipeline
    unfolding after_warm with_warm_cache stopped
    after_warm-IsCurrent (ok w) p st c sni target rest i =
        rw (through_tunnel-pipeline p.tunnel (with_warm_cache fl rng h p w.1) st c sni target rest)
          (record { same_config = i.same_config; same_tunnel = i.same_tunnel; window = i.window })
    after_warm-IsCurrent (err e) p st c sni target rest i =
        rw (through_tunnel-pipeline p.tunnel p st c sni target rest) i
    after_warm-IsCurrent panic p st c sni target rest i = i

    after_warm-Presents :
        (w : Result ResolveError (Resolved × Dns.Cache)) (p : Pipeline fl rng h) (st : rng.State)
        (c : Connection) (sni : Bytes) (target : Target) (rest : Bytes) {shown : Bytes}
        → (after_warm fl rng h digest legal_name w p st c sni target rest).presented ≡ some shown
        → Presents sni shown
    unfolding after_warm stopped
    after_warm-Presents (ok w) p st c sni target rest e =
        through_tunnel-Presents p.tunnel _ st c sni target rest e
    after_warm-Presents (err x) p st c sni target rest e =
        through_tunnel-Presents p.tunnel p st c sni target rest e
    after_warm-Presents panic p st c sni target rest e = absurd cc

    on_target-IsCurrent :
        {config : HydraConfig fl.F} {tunnel : Option TunnelClient} (p : Pipeline fl rng h)
        (st : rng.State) (c : Connection) (target : Target) (rest : Bytes)
        → IsCurrent config tunnel p
        → IsCurrent config tunnel (on_target fl rng h digest legal_name p st c target rest).pipeline
    unfolding on_target on_pick with_selector
    on_target-IsCurrent p st c target rest i =
        let q = (maybe_refresh_epoch-IsCurrent p c.refresh_secs i).0 in
        after_warm-IsCurrent _ _ _ c _ target rest
          (record { same_config = q.same_config; same_tunnel = q.same_tunnel; window = q.window })

    on_handshake-IsCurrent :
        {config : HydraConfig fl.F} {tunnel : Option TunnelClient} (r : Reading Socks5Addr)
        (p : Pipeline fl rng h) (st : rng.State) (c : Connection)
        → IsCurrent config tunnel p
        → IsCurrent config tunnel (on_handshake fl rng h digest legal_name r p st c).pipeline
    unfolding on_handshake stopped
    on_handshake-IsCurrent (ok a) p st c i = on_target-IsCurrent p st c (socks_to_target a.0) a.1 i
    on_handshake-IsCurrent (err e) p st c i = i
    on_handshake-IsCurrent panic p st c i = i

    -- A pipeline started from a configuration, after some connections, one after the other.
    pub data Reached (builds : Bool) (config : HydraConfig fl.F) : Pipeline fl rng h → Type 0 where
      started :
          (unix_secs : ℕ) (warmer_config : WarmerConfig)
          → Reached builds config (with_resolver fl rng h builds unix_secs config warmer_config)
      served :
          {p : Pipeline fl rng h} (st : rng.State) (c : Connection)
          → Reached builds config p
          → Reached builds config (handle_connection fl rng h digest legal_name p st c).pipeline

    pub Reached-IsCurrent :
        (builds : Bool) (config : HydraConfig fl.F) {p : Pipeline fl rng h}
        → Reached builds config p
        → IsCurrent config (build_tunnel fl rng h builds config) p
    unfolding with_resolver handle_connection
    Reached-IsCurrent builds config (started unix_secs warmer_config) = record {
      same_config = refl;
      same_tunnel = refl;
      window = refl;
    }
    Reached-IsCurrent builds config (served st c r) =
        on_handshake-IsCurrent _ _ st c (Reached-IsCurrent builds config r)

    -- What a client without any state may present at a time of its clock: a legal name of the window, or
    -- the fixed name if the window is empty or has a name that is not legal.
    pub MayPresent : HydraConfig fl.F → ℕ → Bytes → Type 0
    MayPresent config unix_secs shown =
        let pool = window_of fl rng h config (epoch_at unix_secs config.epoch_len) in
        ((contains pool shown ≡ true) × (legal_name shown ≡ true))
        ⊎ ((shown ≡ placeholder)
            × ((pool.entries ≡ [])
                ⊎ ((picked : Bytes) × (contains pool picked ≡ true) × (legal_name picked ≡ false))))

    answered :
        (pool : ActivePool fl.F) (o : Option Bytes) (shown : Bytes)
        → Answers fl rng pool o
        → Presents (unwrap_or o placeholder) shown
        → ((contains pool shown ≡ true) × (legal_name shown ≡ true))
          ⊎ ((shown ≡ placeholder)
              × ((pool.entries ≡ [])
                  ⊎ ((picked : Bytes) × (contains pool picked ≡ true)
                      × (legal_name picked ≡ false))))
    unfolding unwrap_or
    answered pool none shown a (inl (same, legal)) = inr (same, inl a)
    answered pool none shown a (inr (fixed, other)) = inr (fixed, inl a)
    answered pool (some sni) shown a (inl (same, legal)) = inl (rw same a, rw same legal)
    answered pool (some sni) shown a (inr (fixed, other)) = inr (fixed, inr (sni, a, other))

    on_target-MayPresent :
        {config : HydraConfig fl.F} {tunnel : Option TunnelClient} (p : Pipeline fl rng h)
        (st : rng.State) (c : Connection) (target : Target) (rest : Bytes) {shown : Bytes}
        → IsCurrent config tunnel p
        → (on_target fl rng h digest legal_name p st c target rest).presented ≡ some shown
        → MayPresent config c.refresh_secs shown
    unfolding on_target on_pick select_sni MayPresent
    on_target-MayPresent {config} p st c target rest {shown} i e =
        let q = maybe_refresh_epoch fl rng h p c.refresh_secs in
        let (current, epoch) = maybe_refresh_epoch-IsCurrent p c.refresh_secs i in
        let pool : q.pool ≡ window_of fl rng h config (epoch_at c.refresh_secs config.epoch_len) =
          current.window ∙ ap (window_of fl rng h config) epoch in
        let (picked, sel, after) = select fl rng q.selector q.pool (display target) c.now_ms st in
        rw (sym pool) (
          answered q.pool picked shown
            (select-contains fl rng q.selector q.pool (display target) c.now_ms st)
            (after_warm-Presents
              (warm q.warmer_config c.resolve q.warm_cache (unwrap_or picked placeholder) c.now_ms)
              (with_selector fl rng h q sel) after c (unwrap_or picked placeholder) target rest e))

    on_handshake-MayPresent :
        {config : HydraConfig fl.F} {tunnel : Option TunnelClient} (r : Reading Socks5Addr)
        (p : Pipeline fl rng h) (st : rng.State) (c : Connection) {shown : Bytes}
        → IsCurrent config tunnel p
        → (on_handshake fl rng h digest legal_name r p st c).presented ≡ some shown
        → MayPresent config c.refresh_secs shown
    unfolding on_handshake stopped
    on_handshake-MayPresent (ok a) p st c i e =
        on_target-MayPresent p st c (socks_to_target a.0) a.1 i e
    on_handshake-MayPresent (err x) p st c i e = cc
    on_handshake-MayPresent panic p st c i e = cc

    -- After any connections, one after the other, the server name that the next one presents is a legal
    -- name of the window for the epoch of its clock; or it is the fixed name, and that window is empty or
    -- has a name that is not legal.
    pub handle_connection-MayPresent :
        (builds : Bool) (config : HydraConfig fl.F) (p : Pipeline fl rng h) (st : rng.State)
        (c : Connection) (shown : Bytes)
        → Reached builds config p
        → (handle_connection fl rng h digest legal_name p st c).presented ≡ some shown
        → MayPresent config c.refresh_secs shown
    unfolding handle_connection
    handle_connection-MayPresent builds config p st c shown r e =
        on_handshake-MayPresent _ p st c (Reached-IsCurrent builds config r) e
