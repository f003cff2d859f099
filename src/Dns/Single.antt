-- ===== src/Dns/Single.antt =====
-- One call of `warm` at a time.
use mathlib.Core.Path.{ap₂}
use reality_hydra.Base.{
  ◌≢◌, panic, err, Option, le→leb, ℕ, ◌<◌, ◌≤◌, ◌≡◌, refl, sym, ap, ◌∙◌, ◌⊎◌, inl, inr, Bytes, get,
  get-put, none, some, arith, leb, lt→ltb, if-cases, Result, ok, ok_elim, ok-injective,
}
use reality_hydra.Dns.{
  Resolved, ResolveError, WarmerConfig, clamp, Cache, expiry, peek, store, resolve_and_store,
  on_peek, warm,
}

-- The clamped lifetime lies between the bounds, and is the record's own where that does.
pub clamp_bounds :
    (cfg : WarmerConfig) (ttl : ℕ) {d : ℕ}
    → clamp cfg ttl ≡ ok d
    → (cfg.min_ttl ≤ d)
      × (d ≤ cfg.max_ttl)
      × ((d ≡ ttl) ⊎ ((ttl < d) × (d ≡ cfg.min_ttl)) ⊎ ((d < ttl) × (d ≡ cfg.max_ttl)))
unfolding clamp
clamp_bounds cfg ttl {d} h = elim (if-cases (leb cfg.min_ttl cfg.max_ttl) h) [
  | inl sane ↦ ground (arith, ok-injective sane.1)
  | inr crossed ↦ cc
]

on_peek_total :
    (cfg : WarmerConfig) (o : Option Resolved) (cache : Cache) (host : Bytes) (now_ms : ℕ)
    (answer : Result ResolveError Resolved)
    → cfg.min_ttl ≤ cfg.max_ttl
    → answer ≢ panic
    → on_peek o cfg cache host now_ms answer ≢ panic
unfolding on_peek resolve_and_store store clamp
on_peek_total cfg (some r) cache host now_ms answer sane h = λ e. cc
on_peek_total cfg none cache host now_ms (ok r) sane h =
    rw (le→leb cfg.min_ttl cfg.max_ttl sane) (λ e. cc)
on_peek_total cfg none cache host now_ms (err x) sane h = λ e. cc
on_peek_total cfg none cache host now_ms panic sane h = λ e. h refl

-- With bounds in order, a resolver that does not panic is not made to by the warmer.
pub warm_total :
    (cfg : WarmerConfig) (resolve : Bytes → Result ResolveError Resolved) (cache : Cache)
    (host : Bytes) (now_ms : ℕ)
    → cfg.min_ttl ≤ cfg.max_ttl
    → resolve host ≢ panic
    → warm cfg resolve cache host now_ms ≢ panic
unfolding warm
warm_total cfg resolve cache host now_ms =
    on_peek_total cfg (peek cache host now_ms) cache host now_ms (resolve host)

module _ (cfg : WarmerConfig) (resolve : Bytes → Result ResolveError Resolved) where
  -- What a call that asked the resolver leaves in the cache.
  resolve_and_store-get :
      (cache : Cache) (host : Bytes) (now_ms lifetime : ℕ) (answer : Result ResolveError Resolved)
      {r : Resolved} {cache' : Cache}
      → resolve_and_store cfg cache host now_ms answer ≡ ok (r, cache')
      → clamp cfg r.ttl ≡ ok lifetime
      → get cache' host ≡ some (record { resolved = r; expires_at_ms = expiry now_ms lifetime })
  unfolding resolve_and_store store
  resolve_and_store-get cache host now_ms lifetime answer {r} {cache'} h clamped =
      ok_elim answer _ h λ r₀ got rest.
        ok_elim (store cfg cache host now_ms r₀) _ rest λ cache₀ stored made.
          ok_elim (clamp cfg r₀.ttl) _ stored λ ttl clamped₀ put_it.
            let same : r₀ ≡ r = ap (λ p. p.0) (ok-injective made) in
            let same_cache : cache₀ ≡ cache' = ap (λ p. p.1) (ok-injective made) in
            let same_ttl : ttl ≡ lifetime =
              ok-injective (sym clamped₀ ∙ ap (λ (q : Resolved). clamp cfg q.ttl) same ∙ clamped) in
            ap (λ c. get c host) (sym same_cache ∙ sym (ok-injective put_it))
            ∙ get-put cache host _
            ∙ ap₂ (λ q n. some (record { resolved = q; expires_at_ms = expiry now_ms n })) same
                same_ttl

  -- A call that answers leaves the answer in the cache until its lifetime has run out: at any time
  -- before that, for a host that was not fresh, the cache has it and the resolver is not asked.
  pub warm_twice :
      (cache : Cache) (host : Bytes) (now_ms soon lifetime : ℕ) {r : Resolved} {cache' : Cache}
      → peek cache host now_ms ≡ none
      → warm cfg resolve cache host now_ms ≡ ok (r, cache')
      → clamp cfg r.ttl ≡ ok lifetime
      → soon < expiry now_ms lifetime
      → warm cfg resolve cache' host soon ≡ ok (r, cache')
  unfolding warm peek on_peek
  warm_twice cache host now_ms soon lifetime {r} {cache'} miss answered clamped early =
      let asked : resolve_and_store cfg cache host now_ms (resolve host) ≡ ok (r, cache') =
        sym (ap (λ p. on_peek p cfg cache host now_ms (resolve host)) miss) ∙ answered in
      let there = resolve_and_store-get cache host now_ms lifetime (resolve host) asked clamped in
      rw (there, lt→ltb soon (expiry now_ms lifetime) early) refl
