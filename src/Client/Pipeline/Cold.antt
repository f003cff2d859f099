-- ===== src/Client/Pipeline/Cold.antt =====
-- A connection whose resolver is the empty table.
use reality_hydra.Base.{
  ℕ, Bool, Bool-cases, ◌==◌, inl, inr, [], Bytes, ◌≡◌, refl, ap, ◌∙◌, Result, ok, err, panic,
}
use reality_hydra.Proto.{Hmac, Target, display}
use reality_hydra.Pool.{Floats, Rng, epoch_at}
use reality_hydra.Config.{HydraConfig}
use reality_hydra.Dns
use reality_hydra.Dns.{Resolved, ResolveError, default_config, warm}
use reality_hydra.Socks.{Socks5Addr, Reading, handshake, socks_to_target}
use reality_hydra.Client.{placeholder}
use reality_hydra.Client.Pipeline.{
  Connection, Pipeline, with_resolve, mock, with_resolver, maybe_refresh_epoch, with_selector,
  select_sni, unwrap_or, stopped, after_warm, on_pick, on_target, on_handshake, handle_connection,
}
use reality_hydra.Client.Pipeline.Drawn.{through_tunnel-pipeline}
use reality_hydra.Dns.Mock.{mock_resolve, empty_table, warm_misses}

module _ (fl : Floats) (rng : Rng fl.F) (h : Hmac) where
  -- Nothing was ever resolved, and the warmer has its defaults.
  pub record IsCold (p : Pipeline fl rng h) : Type 0 where
    pub cache : p.warm_cache ≡ []
    pub bounds : p.warmer_config ≡ default_config

  maybe_refresh_epoch-IsCold :
      (p : Pipeline fl rng h) (unix_secs : ℕ)
      → IsCold p
      → IsCold (maybe_refresh_epoch fl rng h p unix_secs)
  unfolding maybe_refresh_epoch
  maybe_refresh_epoch-IsCold p unix_secs i =
      elim (Bool-cases (p.current_epoch == epoch_at unix_secs p.config.epoch_len)) [
        | inl same ↦ rw same i
        | inr moved ↦ rw moved (record { cache = i.cache; bounds = i.bounds })
      ]

  pub mock-IsCold :
      (builds : Bool) (unix_secs : ℕ) (config : HydraConfig fl.F)
      → IsCold (mock fl rng h builds unix_secs config)
  unfolding mock with_resolver
  mock-IsCold builds unix_secs config = record { cache = refl; bounds = refl }

  module _ (digest : Bytes → Bytes) (legal_name : Bytes → Bool) where
    after_warm-IsCold :
        (w : Result ResolveError (Resolved × Dns.Cache)) {e : ResolveError} (p : Pipeline fl rng h)
        (st : rng.State) (c : Connection) (sni : Bytes) (target : Target) (rest : Bytes)
        → w ≡ err e
        → IsCold p
        → IsCold (after_warm fl rng h digest legal_name w p st c sni target rest).pipeline
    unfolding after_warm stopped
    after_warm-IsCold (err e) p st c sni target rest missed i =
        rw (through_tunnel-pipeline fl rng h digest legal_name p.tunnel p st c sni target rest) i
    after_warm-IsCold (ok w) p st c sni target rest missed i = cc
    after_warm-IsCold panic p st c sni target rest missed i = i

    on_handshake-IsCold :
        (r : Reading Socks5Addr) (p : Pipeline fl rng h) (st : rng.State) (c : Connection)
        → IsCold p
        → IsCold
            (on_handshake fl rng h digest legal_name r p st
              (with_resolve c (mock_resolve empty_table))).pipeline
    unfolding on_handshake on_target on_pick with_selector stopped
    on_handshake-IsCold (ok a) p st c i =
        let q = maybe_refresh_epoch fl rng h p c.refresh_secs in
        let j = maybe_refresh_epoch-IsCold p c.refresh_secs i in
        let target = socks_to_target a.0 in
        let picked = select_sni fl rng h q (display target) c.now_ms st in
        let sni : Bytes = unwrap_or picked.0 placeholder in
        let missed =
          ap (λ cache. warm q.warmer_config (mock_resolve empty_table) cache sni c.now_ms) j.cache
          ∙ warm_misses q.warmer_config sni c.now_ms in
        after_warm-IsCold _ (with_selector fl rng h q picked.1) picked.2
          (with_resolve c (mock_resolve empty_table)) sni target a.1 missed
          (record { cache = j.cache; bounds = j.bounds })
    on_handshake-IsCold (err e) p st c i = i
    on_handshake-IsCold panic p st c i = i

    pub handle_connection-IsCold :
        (p : Pipeline fl rng h) (st : rng.State) (c : Connection)
        → IsCold p
        → IsCold
            (handle_connection fl rng h digest legal_name p st
              (with_resolve c (mock_resolve empty_table))).pipeline
    unfolding handle_connection
    handle_connection-IsCold p st c i =
        on_handshake-IsCold (handshake c.greeted c.replied c.stream).result p st c i
