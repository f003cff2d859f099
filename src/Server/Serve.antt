-- ===== src/Server/Serve.antt =====
-- crates/hydra-server/src/lib.rs: `serve` and its accept loop over `handle`. The connections are given
-- in the order of `accept`; each task has its own stream, and only the key is shared.
pub mod Isolated
use reality_hydra.Base.{
  Option, none, some, Bool, true, false, List, [], ◌∷◌, Bytes, ℕ, if◌then◌else◌,
}
use reality_hydra.Proto.{Hmac}
use reality_hydra.Server.{Read, World, Session, handle}
use reality_hydra.Server.Tls.{TlsMaterial}

pub data ServeError : Type 0 where
  bind : Bytes → ServeError
  accept : ServeError
  tls : ServeError

-- What the listener gives: an error, or a connection, whether its TLS handshake succeeds, and what
-- `handle` meets on it.
pub data Incoming : Type 0 where
  accept_failed : Incoming
  accepted : Bool → World → List Read → Incoming

-- The tasks in order, `none` where the handshake failed, and the error that ended the loop.
pub record Served : Type 0 where
  pub tasks : List (Option Session)
  pub ended : Option ServeError

unfoldable pub with_task : Option Session → Served → Served
with_task task later = record { tasks = task ∷ later.tasks; ended = later.ended }

module _ (h : Hmac) (server_config : Bytes → Bytes → Bool) where
  -- The loop; it still runs at the end of the list.
  unfoldable pub accept_loop : Bytes → ℕ → List Incoming → Served
  unfolding with_task
  accept_loop key max_skew [] = record { tasks = []; ended = none }
  accept_loop key max_skew (accept_failed ∷ later) = record { tasks = []; ended = some accept }
  accept_loop key max_skew (accepted true w reads ∷ later) =
      with_task (some (handle h w key max_skew reads)) (accept_loop key max_skew later)
  accept_loop key max_skew (accepted false w reads ∷ later) =
      with_task none (accept_loop key max_skew later)

  -- `server_config` is whether rustls takes the certificate and the key.
  unfoldable pub serve_on : TlsMaterial → Bytes → ℕ → List Incoming → Served
  unfolding accept_loop
  serve_on material master_secret max_skew incoming =
      if server_config material.cert_der material.key_der
      then accept_loop master_secret max_skew incoming
      else record { tasks = []; ended = some tls }

  -- `binds` is whether the address could be bound.
  unfoldable pub serve : Bool → Bytes → TlsMaterial → Bytes → ℕ → List Incoming → Served
  unfolding serve_on
  serve binds listen material master_secret max_skew incoming =
      if binds
      then serve_on material master_secret max_skew incoming
      else record { tasks = []; ended = some (bind listen) }
