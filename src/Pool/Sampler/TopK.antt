-- ===== src/Pool/Sampler/TopK.antt =====
-- The subset of an epoch: it has the entries with the largest keys, as many as are asked for.
use mathlib.Core.Path.{subst}
use mathlib.Core.List.{Permᴰ}
use reality_hydra.Base.{
  ℕ, suc, zero, min, ◌≡◌, ◌<◌, refl, sym, ap, ◌⊎◌, true, List, [], ◌∷◌, ◌++◌, map, take, drop,
  length, length-take, take-append-drop, All, All-drop, Bytes, text_le, text_le_total,
  text_le_trans, arith,
}
use reality_hydra.Base.Sort.{sort, IsSorted, sort-perm, sort-IsSorted, length-sort}
use reality_hydra.Pool.{Floats, Rng, PoolEntry, MasterList, ActivePool, by_sni, from_unsorted}
use reality_hydra.Pool.Master.Valid.{by_sni-IsSorted}
use reality_hydra.Pool.Sampler.{Keyed, key_le, draw_keys, subset_from_seed}

module _ (fl : Floats) where
  key_le_total : (p q : Keyed fl) → (key_le fl p q ≡ true) ⊎ (key_le fl q p ≡ true)
  unfolding key_le
  key_le_total (ka, a) (kb, b) = ground (arith, text_le_total a.sni b.sni)

  key_le_trans :
      (p q r : Keyed fl) → key_le fl p q ≡ true → key_le fl q r ≡ true → key_le fl p r ≡ true
  unfolding key_le
  key_le_trans (ka, a) (kb, b) (kc, c) h k = ground (arith, text_le_trans a.sni b.sni c.sni)

  -- A larger key, or the same key and no later SNI.
  abbrev pub Beats : Keyed fl → Keyed fl → Type 0
  Beats (kp, p) (kq, q) =
      (fl.total_place kq < fl.total_place kp)
      ⊎ ((fl.total_place kq ≡ fl.total_place kp) × (text_le p.sni q.sni ≡ true))

  key_le-Beats : (p q : Keyed fl) → key_le fl p q ≡ true → Beats p q
  unfolding key_le
  key_le-Beats (kp, p) (kq, q) h = ground arith

  All-Beats :
      (p : Keyed fl) (qs : List (Keyed fl))
      → All (λ q. key_le fl p q ≡ true) qs
      → All (λ q. Beats p q) qs
  All-Beats p [] h = tt
  All-Beats p (q ∷ qs) h = (key_le-Beats p q h.0, All-Beats p qs h.1)

  -- In a sorted list what is taken comes before all that is left.
  take-drop-All :
      (n : ℕ) (ps : List (Keyed fl))
      → IsSorted (key_le fl) ps
      → All (λ p. All (λ q. Beats p q) (drop n ps)) (take n ps)
  take-drop-All zero ps s = tt
  take-drop-All (suc n) [] s = tt
  take-drop-All (suc n) (p ∷ ps) s = (
    All-Beats p (drop n ps) (All-drop (λ q. key_le fl p q ≡ true) n ps s.0),
    take-drop-All n ps s.1,
  )

  module _ (rng : Rng fl.F) where
    pub length-draw_keys :
        (st : rng.State) (es : List (PoolEntry fl.F)) → length (draw_keys fl rng st es) ≡ length es
    unfolding draw_keys
    length-draw_keys st [] = refl
    length-draw_keys st (e ∷ es) = ap suc (length-draw_keys (rng.next st) es)

    pub map-draw_keys :
        (st : rng.State) (es : List (PoolEntry fl.F)) → map (λ p. p.1) (draw_keys fl rng st es) ≡ es
    unfolding draw_keys
    map-draw_keys st [] = refl
    map-draw_keys st (e ∷ es) = ap (λ l. e ∷ l) (map-draw_keys (rng.next st) es)

    -- The entries with their keys are `chosen` and `left` together, no key of `left` comes before
    -- one of `chosen`, `chosen` has `k` entries or all there are, and the pool is `chosen` in the
    -- order of the SNIs.
    pub record TopK (master : MasterList fl.F) (seed : Bytes) (k : ℕ) (pool : ActivePool fl.F)
        : Type 0 where
      pub chosen : List (Keyed fl)
      pub left : List (Keyed fl)
      pub drawn : Permᴰ (chosen ++ left) (draw_keys fl rng (rng.from_seed seed) master.entries)
      pub best : All (λ p. All (λ q. Beats p q) left) chosen
      pub size : length chosen ≡ min k (length master.entries)
      pub same : Permᴰ pool.entries (map (λ p. p.1) chosen)
      pub sorted : IsSorted by_sni pool.entries

    -- The subset of a seed has the `k` entries with the largest keys, or all of them when there are
    -- fewer, in ascending order of their SNIs.
    pub subset_from_seed-TopK :
        (master : MasterList fl.F) (seed : Bytes) (k : ℕ)
        → TopK master seed k (subset_from_seed fl rng master seed k)
    unfolding subset_from_seed from_unsorted
    subset_from_seed-TopK master seed k =
        let keys : List (Keyed fl) = draw_keys fl rng (rng.from_seed seed) master.entries in
        let n : ℕ = min k (length master.entries) in
        let ranked : List (Keyed fl) = sort (key_le fl) keys in
        record {
          chosen = take n ranked;
          left = drop n ranked;
          drawn =
              subst (λ l. Permᴰ l keys) (sym (take-append-drop n ranked))
                (sort-perm (key_le fl) keys);
          best = take-drop-All n ranked (sort-IsSorted (key_le fl) key_le_total key_le_trans keys);
          size = omega (
            arith,
            length-take n ranked,
            length-sort (key_le fl) keys,
            length-draw_keys (rng.from_seed seed) master.entries,
          );
          same = sort-perm by_sni (map (λ p. p.1) (take n ranked));
          sorted = by_sni-IsSorted (map (λ p. p.1) (take n ranked));
        }
