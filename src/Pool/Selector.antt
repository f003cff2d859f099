-- ===== src/Pool/Selector.antt =====
-- crates/pool-engine/src/select.rs: one SNI per connection, kept for a destination while it is fresh.
pub mod Sticky
pub mod Lasting
use reality_hydra.Base.{
  StringMap, get, put, retain, ℕ, ◌+◌, min, ◌&&◌, List, [], ◌∷◌, Bytes, ltb, if◌then◌else◌, Option,
  none, some,
}
use reality_hydra.Pool.{Floats, Rng, PoolEntry, ActivePool, contains, max_u64}

-- `Sticky`
pub record Choice : Type 0 where
  pub sni : Bytes
  pub expires_at_ms : ℕ

abbrev pub Cache : Type 0
Cache = StringMap Choice

pub record Selector : Type 0 where
  pub sticky_ttl_ms : ℕ
  pub cache : Cache

abbrev pub new : ℕ → Selector
new ttl = record { sticky_ttl_ms = ttl; cache = [] }

-- `retain(|_, s| now_ms < s.expires_at_ms)`
unfoldable pub evict_expired : Selector → ℕ → Selector
evict_expired sel now_ms = record {
  sticky_ttl_ms = sel.sticky_ttl_ms;
  cache = retain (λ c. ltb now_ms c.expires_at_ms) sel.cache;
}

module _ (fl : Floats) where
  unfoldable pub total_weight : fl.F → List (PoolEntry fl.F) → fl.F
  total_weight acc [] = acc
  total_weight acc (e ∷ es) = total_weight (fl.add acc e.weight) es

  -- The walk down the weights; `last` is the SNI of the last entry passed, for the fall through.
  unfoldable pub walk : fl.F → Bytes → List (PoolEntry fl.F) → Bytes
  walk r last [] = last
  walk r last (e ∷ es) =
      if fl.lt (fl.sub r e.weight) fl.zero_f then e.sni else walk (fl.sub r e.weight) e.sni es

  module _ (rng : Rng fl.F) where
    unfoldable pub weighted_pick : PoolEntry fl.F → List (PoolEntry fl.F) → rng.State → Bytes
    weighted_pick e es st =
        walk (fl.mul (rng.random st) (total_weight fl.zero_f (e ∷ es))) e.sni (e ∷ es)

    -- The cached choice, if it may be used.
    unfoldable pub usable : Option Choice → ActivePool fl.F → ℕ → Option Bytes
    usable none pool now_ms = none
    usable (some c) pool now_ms =
        if ltb now_ms c.expires_at_ms && contains pool c.sni then some c.sni else none

    unfoldable pub fresh_choice :
        Selector
        → PoolEntry fl.F
        → List (PoolEntry fl.F)
        → Bytes
        → ℕ
        → rng.State
        → Option Bytes × Selector × rng.State
    fresh_choice sel e es dest now_ms st =
        let sni = weighted_pick e es st in
        (
          some sni,
          record {
            sticky_ttl_ms = sel.sticky_ttl_ms;
            cache =
                put sel.cache dest
                  (record { sni = sni; expires_at_ms = min (now_ms + sel.sticky_ttl_ms) max_u64 });
          },
          rng.next st,
        )

    -- A cached choice is the answer; otherwise a fresh one is.
    unfoldable pub choose :
        Option Bytes
        → Selector
        → PoolEntry fl.F
        → List (PoolEntry fl.F)
        → Bytes
        → ℕ
        → rng.State
        → Option Bytes × Selector × rng.State
    unfolding fresh_choice
    choose (some sni) sel e es dest now_ms st = (some sni, sel, st)
    choose none sel e es dest now_ms st = fresh_choice sel e es dest now_ms st

    -- `entries` are those of the pool.
    unfoldable pub select_from :
        List (PoolEntry fl.F)
        → Selector
        → ActivePool fl.F
        → Bytes
        → ℕ
        → rng.State
        → Option Bytes × Selector × rng.State
    select_from [] sel pool dest now_ms st = (none, sel, st)
    select_from (e ∷ es) sel pool dest now_ms st =
        choose (usable (get sel.cache dest) pool now_ms) sel e es dest now_ms st

    unfoldable pub select :
        Selector → ActivePool fl.F → Bytes → ℕ → rng.State → Option Bytes × Selector × rng.State
    unfolding select_from
    select sel pool dest now_ms st = select_from pool.entries sel pool dest now_ms st
