-- ===== src/Dns.antt =====
-- crates/dns-warmer/src/warmer.rs: the cache of resolutions. `warm` runs in two sections that hold the
-- lock, with the resolver between them; `Dns.Steps` interleaves those of many connections.
-- Durations are in nanoseconds. `clamp` panics, as `Ord::clamp` does, when the bounds are crossed.
pub mod Steps
pub mod Single
pub mod Mock
use reality_hydra.Base.{
  ℕ, ◌+◌, ◌-◌, ◌/◌, ◌%◌, ◌^◌, min, Bool, false, List, Bytes, StringMap, get, put, retain, Option,
  none, some, ltb, leb, if◌then◌else◌, Result, ok, panic, ◌>>=◌,
}

-- An address is its bytes.
pub record Resolved : Type 0 where
  pub addrs : List Bytes
  pub ttl : ℕ

pub data ResolveError : Type 0 where
  no_addresses : Bytes → ResolveError
  backend : Bytes → Bytes → ResolveError

pub record WarmerConfig : Type 0 where
  pub min_ttl : ℕ
  pub max_ttl : ℕ

abbrev pub nanos_per_sec : ℕ
nanos_per_sec = 1000000000

abbrev pub default_config : WarmerConfig
default_config = record { min_ttl = 30000000000; max_ttl = 3600000000000 }

-- `WarmerConfig::clamp`
unfoldable pub clamp : WarmerConfig → ℕ → Result ResolveError ℕ
clamp cfg ttl =
    if leb cfg.min_ttl cfg.max_ttl
    then ok (
        if ltb ttl cfg.min_ttl
        then cfg.min_ttl
        else (if ltb cfg.max_ttl ttl then cfg.max_ttl else ttl))
    else panic

pub record CacheEntry : Type 0 where
  pub resolved : Resolved
  pub expires_at_ms : ℕ

abbrev pub Cache : Type 0
Cache = StringMap CacheEntry

-- `as_millis() as u64`, then `saturating_add`.
unfoldable pub expiry : ℕ → ℕ → ℕ
expiry now_ms ttl = min (now_ms + (ttl / 1000000) % 2 ^ 64) (2 ^ 64 - 1)

abbrev pub still_fresh : ℕ → Option CacheEntry → Option Resolved
still_fresh now_ms none = none
still_fresh now_ms (some e) = if ltb now_ms e.expires_at_ms then some e.resolved else none

-- The first section of `warm`, which is `peek`.
unfoldable pub peek : Cache → Bytes → ℕ → Option Resolved
peek cache host now_ms = still_fresh now_ms (get cache host)

abbrev pub is_live : ℕ → Option CacheEntry → Bool
is_live now_ms none = false
is_live now_ms (some e) = ltb now_ms e.expires_at_ms

unfoldable pub is_warm : Cache → Bytes → ℕ → Bool
is_warm cache host now_ms = is_live now_ms (get cache host)

-- The second section of `warm`, with what the resolver returned.
unfoldable pub store : WarmerConfig → Cache → Bytes → ℕ → Resolved → Result ResolveError Cache
unfolding clamp
store cfg cache host now_ms r = clamp cfg r.ttl >>= λ ttl.
    ok (put cache host (record { resolved = r; expires_at_ms = expiry now_ms ttl }))

unfoldable pub evict_expired : Cache → ℕ → Cache
evict_expired cache now_ms = retain (λ e. ltb now_ms e.expires_at_ms) cache

-- `warm` without other connections: the answer, and the cache after it.
unfoldable pub resolve_and_store :
    WarmerConfig
    → Cache
    → Bytes
    → ℕ
    → Result ResolveError Resolved
    → Result ResolveError (Resolved × Cache)
unfolding store
resolve_and_store cfg cache host now_ms answer =
    answer >>= λ r. store cfg cache host now_ms r >>= λ cache'. ok (r, cache')

unfoldable pub on_peek :
    Option Resolved
    → WarmerConfig
    → Cache
    → Bytes
    → ℕ
    → Result ResolveError Resolved
    → Result ResolveError (Resolved × Cache)
on_peek (some r) cfg cache host now_ms answer = ok (r, cache)
on_peek none cfg cache host now_ms answer = resolve_and_store cfg cache host now_ms answer

unfoldable pub warm :
    WarmerConfig
    → (Bytes → Result ResolveError Resolved)
    → Cache
    → Bytes
    → ℕ
    → Result ResolveError (Resolved × Cache)
unfolding on_peek peek
warm cfg resolve cache host now_ms =
    on_peek (peek cache host now_ms) cfg cache host now_ms (resolve host)
