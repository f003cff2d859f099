-- ===== src/Dns/Mock.antt =====
-- crates/dns-warmer/src/resolver.rs: the resolver of tests and offline builds, a table.
use reality_hydra.Base.{
  ◌≡◌, refl, ℕ, [], Bytes, StringMap, get, put, List, ascii, Option, none, some, Result, ok, err,
}
use reality_hydra.Dns.{
  Resolved, ResolveError, backend, WarmerConfig, warm, peek, on_peek, resolve_and_store,
}

abbrev pub MockResolver : Type 0
MockResolver = StringMap Resolved

-- `MockResolver::new`
abbrev pub empty_table : MockResolver
empty_table = []

-- `with`
unfoldable pub with_host : MockResolver → Bytes → List Bytes → ℕ → MockResolver
with_host table host addrs ttl = put table host (record { addrs = addrs; ttl = ttl })

answer_of : Bytes → Option Resolved → Result ResolveError Resolved
answer_of host (some r) = ok r
answer_of host none = err (backend host (ascii "host not in MockResolver table"))

unfoldable pub mock_resolve : MockResolver → Bytes → Result ResolveError Resolved
unfolding answer_of
mock_resolve table host = answer_of host (get table host)

-- The empty table answers no name.
pub warm_misses :
    (cfg : WarmerConfig) (host : Bytes) (now_ms : ℕ)
    → warm cfg (mock_resolve empty_table) [] host now_ms
      ≡ err (backend host (ascii "host not in MockResolver table"))
unfolding warm on_peek peek resolve_and_store mock_resolve answer_of get
warm_misses cfg host now_ms = refl
