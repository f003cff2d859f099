-- ===== src/Client/Serve/Cold.antt =====
-- The cache of the warmer in a client that was started from the command line.
use mathlib.Core.Path.{subst}
use reality_hydra.Base.{
  ℕ, Bool, true, false, List, [], ◌∷◌, Bytes, get, All, ◌≡◌, refl, Result, ok, err, panic, map_err,
  ok-injective, ◌>>=◌, Disk, FileTable,
}
use reality_hydra.Proto.{Hmac}
use reality_hydra.Pool.{Floats, Rng, PoolError}
use reality_hydra.Config.{Base64, HydraConfig}
use reality_hydra.Config.Load.{Toml, from_file}
use reality_hydra.Dns.{is_warm}
use reality_hydra.Client.Pipeline.{Pipeline, Handled, with_resolve, handle_connection}
use reality_hydra.Client.Pipeline.Cold.{IsCold, mock-IsCold, handle_connection-IsCold}
use reality_hydra.Dns.Mock.{mock_resolve, empty_table}
use reality_hydra.Client.Serve.{
  Arrival, lost, arrived, ClientArgs, RunError, Routed, with_handled, route_all, serve,
  serve_config, run_client,
}

module _ (fl : Floats) (rng : Rng fl.F) (h : Hmac) where
  module _ (digest : Bytes → Bytes) (legal_name : Bytes → Bool) where
    -- The cache after a connection has no name to present.
    abbrev pub KnowsNone : Handled fl rng h → Type 0
    KnowsNone o = (host : Bytes) (now_ms : ℕ) → is_warm o.pipeline.warm_cache host now_ms ≡ false

    cold_misses :
        (p : Pipeline fl rng h)
        → IsCold fl rng h p
        → (host : Bytes) (now_ms : ℕ) → is_warm p.warm_cache host now_ms ≡ false
    unfolding is_warm get
    cold_misses p i host now_ms = rw i.cache refl

    route_all-KnowsNone :
        (p : Pipeline fl rng h) (st : rng.State) (arrivals : List Arrival)
        → IsCold fl rng h p
        → All KnowsNone
            (route_all fl rng h digest legal_name (mock_resolve empty_table) p st arrivals).handled
    unfolding route_all with_handled
    route_all-KnowsNone p st [] i = tt
    route_all-KnowsNone p st (lost ∷ later) i = tt
    route_all-KnowsNone p st (arrived c ∷ later) i =
        let o =
          handle_connection fl rng h digest legal_name p st
            (with_resolve c (mock_resolve empty_table)) in
        let j = handle_connection-IsCold fl rng h digest legal_name p st c i in
        (cold_misses o.pipeline j, route_all-KnowsNone o.pipeline o.rng_state later j)

    serve-KnowsNone :
        (binds : Bool) (addr : Bytes) (p : Pipeline fl rng h) (st : rng.State)
        (arrivals : List Arrival)
        → IsCold fl rng h p
        → All KnowsNone
            (serve fl rng h digest legal_name binds addr
              (mock_resolve empty_table)
              p
              st
              arrivals).handled
    unfolding serve
    serve-KnowsNone true addr p st arrivals i = route_all-KnowsNone p st arrivals i
    serve-KnowsNone false addr p st arrivals i = tt

    module _ (b64 : Base64) (parser : Toml fl.F) where
      on_loaded :
          (loaded : Result (PoolError fl.F) (HydraConfig fl.F)) (args : ClientArgs)
          (starts builds binds : Bool) (unix_secs : ℕ) (st : rng.State) (arrivals : List Arrival)
          {routed : Routed fl rng h}
          → (map_err RunError.pool_failed loaded
              >>= serve_config fl rng h digest legal_name b64 parser args starts builds binds
                  unix_secs st arrivals)
            ≡ ok routed
          → All KnowsNone routed.handled
      unfolding serve_config
      on_loaded (ok cfg) args true builds binds unix_secs st arrivals {routed} e =
          subst (λ (r : Routed fl rng h). All KnowsNone r.handled) (ok-injective e)
            (serve-KnowsNone binds args.listen _ st arrivals
              (mock-IsCold fl rng h builds unix_secs cfg))
      on_loaded (ok cfg) args false builds binds unix_secs st arrivals e = cc
      on_loaded (err x) args starts builds binds unix_secs st arrivals e = cc
      on_loaded panic args starts builds binds unix_secs st arrivals e = cc

      -- When the client has loaded its configuration and its runtime started, whatever connections
      -- arrive, after each of them no name at all is warm in the cache, at any time: the command line
      -- has no resolver but the one whose table is empty.
      pub run_client_cold :
          (disk : Disk) (files : FileTable) (args : ClientArgs) (starts builds binds : Bool)
          (unix_secs : ℕ) (st : rng.State) (arrivals : List Arrival) (routed : Routed fl rng h)
          → run_client fl rng h digest legal_name b64 parser disk files args starts builds binds
              unix_secs st arrivals
            ≡ ok routed
          → All KnowsNone routed.handled
      unfolding run_client
      run_client_cold disk files args starts builds binds unix_secs st arrivals routed e =
          on_loaded (from_file fl b64 parser disk files args.config) args starts builds binds
            unix_secs st arrivals e
