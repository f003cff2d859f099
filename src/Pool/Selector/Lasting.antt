-- ===== src/Pool/Selector/Lasting.antt =====
-- A choice among other calls of the selector.
use reality_hydra.Base.{
  get, get-retain, ℕ, min, ◌+◌, ◌<◌, ◌≡◌, ap, ◌∙◌, ◌⊎◌, inl, inr, true, false, List, [], ◌∷◌, All,
  Bytes, text_eq, text_eq→eq, Bool-cases, Option, none, some, ltb, lt→ltb,
}
use reality_hydra.Pool.{Floats, Rng, ActivePool, contains, max_u64}
use reality_hydra.Pool.Selector.{Choice, Selector, evict_expired, select}
use reality_hydra.Pool.Selector.Sticky.{select_usable, first_visit, select_others}

module _ (fl : Floats) (rng : Rng fl.F) where
  -- A use of the selector: a call with its pool, its destination, its time and the generator, or an
  -- eviction at a time.
  pub data Use : Type 0 where
    selects : ActivePool fl.F → Bytes → ℕ → rng.State → Use
    evicts : ℕ → Use

  unfoldable pub after_use : Selector → Use → Selector
  after_use sel (selects pool dest now_ms st) = (select fl rng sel pool dest now_ms st).1
  after_use sel (evicts now_ms) = evict_expired sel now_ms

  unfoldable pub after_uses : Selector → List Use → Selector
  unfolding after_use
  after_uses sel [] = sel
  after_uses sel (u ∷ us) = after_uses (after_use sel u) us

  -- The use is for another destination, or comes before the choice's end with a pool that has it.
  abbrev pub Spares : Bytes → Choice → Use → Type 0
  Spares dest c (selects pool other now_ms st) =
      (text_eq other dest ≡ false) ⊎ ((now_ms < c.expires_at_ms) × (contains pool c.sni ≡ true))
  Spares dest c (evicts now_ms) = now_ms < c.expires_at_ms

  select-kept :
      (sel : Selector) (pool : ActivePool fl.F) (dest other : Bytes) (now_ms : ℕ) (st : rng.State)
      (c : Choice)
      → get sel.cache dest ≡ some c
      → Spares dest c (selects pool other now_ms st)
      → get (select fl rng sel pool other now_ms st).1.cache dest ≡ some c
  unfolding select
  select-kept sel pool dest other now_ms st c there spares =
      elim (Bool-cases (text_eq other dest)) [
        | inr apart ↦ select_others fl rng sel pool other dest now_ms st apart ∙ there
        | inl same ↦ elim spares [
          | inl apart ↦ absurd cc
          | inr (fresh, has) ↦
              let here : get sel.cache other ≡ some c =
                ap (get sel.cache) (text_eq→eq other dest same) ∙ there in
              ap (λ (r : Option Bytes × Selector × rng.State). get r.1.cache dest)
                (select_usable fl rng sel pool.entries pool other now_ms st c has here fresh has)
              ∙ there
        ]
      ]

  after_use-kept :
      (sel : Selector) (dest : Bytes) (c : Choice) (u : Use)
      → get sel.cache dest ≡ some c
      → Spares dest c u
      → get (after_use sel u).cache dest ≡ some c
  unfolding after_use evict_expired
  after_use-kept sel dest c (selects pool other now_ms st) there spares =
      select-kept sel pool dest other now_ms st c there spares
  after_use-kept sel dest c (evicts now_ms) there spares =
      get-retain (λ (d : Choice). ltb now_ms d.expires_at_ms) sel.cache dest there
        (lt→ltb now_ms c.expires_at_ms spares)

  after_uses-kept :
      (sel : Selector) (dest : Bytes) (c : Choice) (us : List Use)
      → get sel.cache dest ≡ some c
      → All (Spares dest c) us
      → get (after_uses sel us).cache dest ≡ some c
  unfolding after_uses
  after_uses-kept sel dest c [] there spare = there
  after_uses-kept sel dest c (u ∷ us) there spare =
      after_uses-kept (after_use sel u) dest c us (after_use-kept sel dest c u there spare.0)
        spare.1

  -- After the first choice for a destination, and after any calls for other destinations, any evictions
  -- before its end and any calls for it before its end with pools that have it, a call for it before
  -- its end with a pool that has it gets the same SNI: no draw is made and the selector stays as it is.
  pub select_sticky :
      (sel : Selector) (pool later : ActivePool fl.F) (dest : Bytes) (now_ms soon : ℕ)
      (st st' : rng.State) (sni : Bytes) (us : List Use)
      → get sel.cache dest ≡ none
      → (select fl rng sel pool dest now_ms st).0 ≡ some sni
      → All
          (Spares dest
            (record { sni = sni; expires_at_ms = min (now_ms + sel.sticky_ttl_ms) max_u64 }))
          us
      → soon < min (now_ms + sel.sticky_ttl_ms) max_u64
      → contains later sni ≡ true
      → let then_ = after_uses (select fl rng sel pool dest now_ms st).1 us in
        select fl rng then_ later dest soon st' ≡ (some sni, then_, st')
  unfolding select
  select_sticky sel pool later dest now_ms soon st st' sni us new h spare lt p =
      let c : Choice = record {
        sni = sni;
        expires_at_ms = min (now_ms + sel.sticky_ttl_ms) max_u64;
      } in
      let then_ = after_uses (select fl rng sel pool dest now_ms st).1 us in
      select_usable fl rng then_ later.entries later dest soon st' c p
        (after_uses-kept (select fl rng sel pool dest now_ms st).1 dest c us
          (first_visit fl rng sel pool.entries pool dest now_ms st sni new h) spare)
        lt p
