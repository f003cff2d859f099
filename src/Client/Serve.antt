-- ===== src/Client/Serve.antt =====
-- crates/hydra-client/src/pipeline.rs: `serve`, with the `run` of
-- crates/hydra-client/src/main.rs.
-- The connections are given in the order of `accept` and each is run to its end before the next; what
-- connections that run at once make of a refresh is `Client.Pipeline.Races`.
pub mod Cold
pub mod Reaches
use reality_hydra.Base.{
  ◌≡◌, refl, true, ℕ, Bool, List, [], ◌∷◌, Bytes, Option, none, some, if◌then◌else◌, Result, ok,
  err, map_err, ◌>>=◌, Disk, FileTable,
}
use reality_hydra.Proto.{Hmac}
use reality_hydra.Pool.{Floats, Rng, PoolError}
use reality_hydra.Config.{Base64, HydraConfig}
use reality_hydra.Config.Load.{Toml, from_file}
use reality_hydra.Dns.{Resolved, ResolveError}
use reality_hydra.Dns.Mock.{mock_resolve, empty_table}
use reality_hydra.Client.{ClientError, bind_failed, io}
use reality_hydra.Client.Pipeline.{
  Connection, Pipeline, Handled, with_resolve, mock, handle_connection,
}

-- What the listener gives.
pub data Arrival : Type 0 where
  lost : Arrival
  arrived : Connection → Arrival

pub record ClientArgs : Type 0 where
  pub config : Bytes
  pub listen : Bytes

-- The errors of the binary's `run`.
pub data RunError (F : Type 0) : Type 0 where
  pool_failed : PoolError F → RunError F
  runtime_failed : RunError F

module _ (fl : Floats) (rng : Rng fl.F) (h : Hmac) where
  -- The connections as they ended, in order, and the error that ended the loop.
  pub record Routed : Type 0 where
    pub handled : List (Handled fl rng h)
    pub ended : Option ClientError

  unfoldable pub with_handled : Handled fl rng h → Routed → Routed
  with_handled o later = record { handled = o ∷ later.handled; ended = later.ended }

  module _ (digest : Bytes → Bytes) (legal_name : Bytes → Bool) where
    -- The loop; it still runs at the end of the list.
    unfoldable pub route_all :
        (Bytes → Result ResolveError Resolved)
        → Pipeline fl rng h
        → rng.State
        → List Arrival
        → Routed
    unfolding with_handled
    route_all resolve p st [] = record { handled = []; ended = none }
    route_all resolve p st (lost ∷ later) = record { handled = []; ended = some io }
    route_all resolve p st (arrived c ∷ later) =
        let o = handle_connection fl rng h digest legal_name p st (with_resolve c resolve) in
        with_handled o (route_all resolve o.pipeline o.rng_state later)

    -- `binds` is whether the address could be bound.
    unfoldable pub serve :
        Bool
        → Bytes
        → (Bytes → Result ResolveError Resolved)
        → Pipeline fl rng h
        → rng.State
        → List Arrival
        → Routed
    unfolding route_all
    serve binds addr resolve p st arrivals =
        if binds
        then route_all resolve p st arrivals
        else record { handled = []; ended = some (bind_failed addr) }

    module _ (b64 : Base64) (parser : Toml fl.F) where
      -- From the configuration on; `starts` is whether the runtime does.
      serve_config :
          ClientArgs
          → Bool
          → Bool
          → Bool
          → ℕ
          → rng.State
          → List Arrival
          → HydraConfig fl.F
          → Result (RunError fl.F) Routed
      unfolding serve mock mock_resolve
      serve_config args starts builds binds unix_secs st arrivals cfg =
          if starts
          then ok (
              serve binds args.listen (mock_resolve empty_table)
                (mock fl rng h builds unix_secs cfg) st arrivals)
          else err runtime_failed

      -- The binary's `run`, and that of `hydra serve`.
      unfoldable pub run_client :
          Disk
          → FileTable
          → ClientArgs
          → Bool
          → Bool
          → Bool
          → ℕ
          → rng.State
          → List Arrival
          → Result (RunError fl.F) Routed
      unfolding serve_config from_file
      run_client disk files args starts builds binds unix_secs st arrivals =
          map_err pool_failed (from_file fl b64 parser disk files args.config)
          >>= serve_config args starts builds binds unix_secs st arrivals

      -- With its configuration and the runtime there, the client serves.
      pub run_client-serve :
          (disk : Disk) (files : FileTable) (args : ClientArgs) (builds binds : Bool)
          (unix_secs : ℕ) (st : rng.State) (arrivals : List Arrival) (cfg : HydraConfig fl.F)
          → from_file fl b64 parser disk files args.config ≡ ok cfg
          → run_client disk files args true builds binds unix_secs st arrivals
            ≡ ok (
                serve binds args.listen
                  (mock_resolve empty_table)
                  (mock fl rng h builds unix_secs cfg)
                  st
                  arrivals)
      unfolding run_client serve_config
      run_client-serve disk files args builds binds unix_secs st arrivals cfg loads = rw loads refl
