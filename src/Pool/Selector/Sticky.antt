-- ===== src/Pool/Selector/Sticky.antt =====
-- The selector presents only SNIs of the pool, and keeps to one for a destination while it is fresh.
use mathlib.Core.Path.{subst}
use reality_hydra.Base.{
  get, get-put, get-put_other, ℕ, min, ◌+◌, ◌<◌, ◌≡◌, refl, ap, ◌∙◌, ◌⊎◌, inl, inr, Bool, true,
  false, ◌||◌, ◌&&◌, List, [], ◌∷◌, Bytes, text_eq, text_eq_self, Bool-cases, if-cases, Option,
  none, some, ltb, lt→ltb, &&-split,
}
use reality_hydra.Pool.{Floats, Rng, PoolEntry, ActivePool, has_sni, contains, max_u64}
use reality_hydra.Pool.Selector.{
  Choice, Selector, total_weight, walk, weighted_pick, usable, fresh_choice, choose, select_from,
  select,
}

or_true : (a : Bool) → (a || true) ≡ true
or_true true = refl
or_true false = refl

module _ (fl : Floats) where
  walk-has_sni :
      (r : fl.F) (last : Bytes) (es : List (PoolEntry fl.F))
      → (walk fl r last es ≡ last) ⊎ (has_sni es (walk fl r last es) ≡ true)
  unfolding walk has_sni
  walk-has_sni r last [] = inl refl
  walk-has_sni r last (e ∷ es) = elim (Bool-cases (fl.lt (fl.sub r e.weight) fl.zero_f)) [
    | inl here ↦ rw here (inr (ap (λ b. b || has_sni es e.sni) (text_eq_self e.sni)))
    | inr on ↦ rw on (elim (walk-has_sni (fl.sub r e.weight) e.sni es) [
      | inl same ↦ rw same (inr (ap (λ b. b || has_sni es e.sni) (text_eq_self e.sni)))
      | inr found ↦ rw found (inr (or_true (text_eq e.sni (walk fl (fl.sub r e.weight) e.sni es))))
    ])
  ]

  module _ (rng : Rng fl.F) where
    weighted_pick-has_sni :
        (e : PoolEntry fl.F) (es : List (PoolEntry fl.F)) (st : rng.State)
        → has_sni (e ∷ es) (weighted_pick fl rng e es st) ≡ true
    unfolding weighted_pick has_sni
    weighted_pick-has_sni e es st =
        elim (walk-has_sni (fl.mul (rng.random st) (total_weight fl fl.zero_f (e ∷ es))) e.sni
          (e ∷ es)) [
            | inl same ↦ rw same (ap (λ b. b || has_sni es e.sni) (text_eq_self e.sni))
            | inr found ↦ found
          ]

    -- The answer of a call: none from an empty pool and an SNI of the pool from any other.
    abbrev pub Answers : ActivePool fl.F → Option Bytes → Type 0
    Answers pool none = pool.entries ≡ []
    Answers pool (some sni) = contains pool sni ≡ true

    answers_usable :
        (found : Option Choice) (pool : ActivePool fl.F) (now_ms : ℕ) {sni : Bytes}
        → usable fl rng found pool now_ms ≡ some sni
        → contains pool sni ≡ true
    unfolding usable
    answers_usable none pool now_ms h = cc
    answers_usable (some c) pool now_ms h =
        elim (if-cases (ltb now_ms c.expires_at_ms && contains pool c.sni) h) [
          | inl hit ↦
              let same : c.sni ≡ _ = cc in
              subst (λ s. contains pool s ≡ true) same (&&-split _ _ hit.0).1
          | inr miss ↦ cc
        ]

    choose-contains :
        (found : Option Bytes) (sel : Selector) (e : PoolEntry fl.F) (es : List (PoolEntry fl.F))
        (dest : Bytes) (now_ms : ℕ) (st : rng.State)
        → ((sni : Bytes) → found ≡ some sni → has_sni (e ∷ es) sni ≡ true)
        → Answers (record { entries = e ∷ es }) (choose fl rng found sel e es dest now_ms st).0
    unfolding choose fresh_choice
    choose-contains none sel e es dest now_ms st h = weighted_pick-has_sni e es st
    choose-contains (some sni) sel e es dest now_ms st h = h sni refl

    select_from-contains :
        (es : List (PoolEntry fl.F)) (sel : Selector) (dest : Bytes) (now_ms : ℕ) (st : rng.State)
        → Answers
            (record { entries = es })
            (select_from fl rng es sel (record { entries = es }) dest now_ms st).0
    unfolding select_from
    select_from-contains [] sel dest now_ms st = refl
    select_from-contains (e ∷ es) sel dest now_ms st =
        choose-contains _ sel e es dest now_ms st
          (λ sni. answers_usable (get sel.cache dest) (record { entries = e ∷ es }) now_ms)

    -- From an empty pool the selector has no answer, and from any other it has an SNI of that pool.
    pub select-contains :
        (sel : Selector) (pool : ActivePool fl.F) (dest : Bytes) (now_ms : ℕ) (st : rng.State)
        → Answers pool (select fl rng sel pool dest now_ms st).0
    unfolding select
    select-contains sel pool dest now_ms st = select_from-contains pool.entries sel dest now_ms st

    -- A cached choice that is fresh and in the pool is the answer.
    pub select_usable :
        (sel : Selector) (es : List (PoolEntry fl.F)) (pool : ActivePool fl.F) (dest : Bytes)
        (now_ms : ℕ) (st : rng.State) (c : Choice)
        → has_sni es c.sni ≡ true
        → get sel.cache dest ≡ some c
        → now_ms < c.expires_at_ms
        → contains pool c.sni ≡ true
        → select_from fl rng es sel pool dest now_ms st ≡ (some c.sni, sel, st)
    unfolding select_from usable choose has_sni
    select_usable sel [] pool dest now_ms st c there h lt p = cc
    select_usable sel (e ∷ es) pool dest now_ms st c there h lt p =
        rw (h, lt→ltb now_ms c.expires_at_ms lt, p) refl

    choose_fresh :
        (found : Option Bytes) (sel : Selector) (e : PoolEntry fl.F) (es : List (PoolEntry fl.F))
        (dest : Bytes) (now_ms : ℕ) (st : rng.State) (sni : Bytes)
        → found ≡ none
        → (choose fl rng found sel e es dest now_ms st).0 ≡ some sni
        → get (choose fl rng found sel e es dest now_ms st).1.cache dest
          ≡ some (record { sni = sni; expires_at_ms = min (now_ms + sel.sticky_ttl_ms) max_u64 })
    unfolding choose fresh_choice
    choose_fresh (some s) sel e es dest now_ms st sni miss h = cc
    choose_fresh none sel e es dest now_ms st sni miss h =
        let same : weighted_pick fl rng e es st ≡ sni = cc in
        get-put sel.cache dest _
        ∙ ap
            (λ s.
              some (record { sni = s; expires_at_ms = min (now_ms + sel.sticky_ttl_ms) max_u64 }))
            same

    -- What a first call for a destination caches.
    pub first_visit :
        (sel : Selector) (es : List (PoolEntry fl.F)) (pool : ActivePool fl.F) (dest : Bytes)
        (now_ms : ℕ) (st : rng.State) (sni : Bytes)
        → get sel.cache dest ≡ none
        → (select_from fl rng es sel pool dest now_ms st).0 ≡ some sni
        → get (select_from fl rng es sel pool dest now_ms st).1.cache dest
          ≡ some (record { sni = sni; expires_at_ms = min (now_ms + sel.sticky_ttl_ms) max_u64 })
    unfolding select_from usable
    first_visit sel [] pool dest now_ms st sni new h = cc
    first_visit sel (e ∷ es) pool dest now_ms st sni new h =
        choose_fresh (usable fl rng (get sel.cache dest) pool now_ms) sel e es dest now_ms st sni
          (ap (λ found. usable fl rng found pool now_ms) new) h

    choose_others :
        (found : Option Bytes) (sel : Selector) (e : PoolEntry fl.F) (es : List (PoolEntry fl.F))
        (dest other : Bytes) (now_ms : ℕ) (st : rng.State)
        → text_eq dest other ≡ false
        → get (choose fl rng found sel e es dest now_ms st).1.cache other ≡ get sel.cache other
    unfolding choose fresh_choice
    choose_others none sel e es dest other now_ms st ne = get-put_other sel.cache dest other _ ne
    choose_others (some sni) sel e es dest other now_ms st ne = refl

    select_from_others :
        (es : List (PoolEntry fl.F)) (sel : Selector) (pool : ActivePool fl.F) (dest other : Bytes)
        (now_ms : ℕ) (st : rng.State)
        → text_eq dest other ≡ false
        → get (select_from fl rng es sel pool dest now_ms st).1.cache other ≡ get sel.cache other
    unfolding select_from
    select_from_others [] sel pool dest other now_ms st ne = refl
    select_from_others (e ∷ es) sel pool dest other now_ms st ne =
        choose_others (usable fl rng (get sel.cache dest) pool now_ms) sel e es dest other now_ms st
          ne

    -- A call for one destination leaves the choices of all others as they are.
    pub select_others :
        (sel : Selector) (pool : ActivePool fl.F) (dest other : Bytes) (now_ms : ℕ) (st : rng.State)
        → text_eq dest other ≡ false
        → get (select fl rng sel pool dest now_ms st).1.cache other ≡ get sel.cache other
    unfolding select
    select_others sel pool = select_from_others pool.entries sel pool
