-- ===== src/Pool/Sampler/Members.antt =====
-- The entries of an epoch's subset: they are the master list's, as many as asked for or as there are,
-- and no SNI twice.
use mathlib.Core.Path.{subst}
use mathlib.Core.List.{Permᴰ, map-append}
use mathlib.Core.List.Permᴰ.{nil, cons, swap, trans, symm}
use reality_hydra.Base.{
  ℕ, min, ◌≡◌, ap, ◌∙◌, List, [], ◌∷◌, ◌++◌, map, take, Bytes, length, length-take, length-map, All,
  All-take, All-prefix, false, text_eq, arith,
}
use reality_hydra.Base.Sort.{sort, length-sort, All-sort}
use reality_hydra.Proto.{Hmac}
use reality_hydra.Pool.{Floats, Rng, PoolEntry, MasterList, by_sni, from_unsorted, derive_seed}
use reality_hydra.Pool.Master.Valid.{IsDistinct}
use reality_hydra.Pool.Master.Order.{IsDistinct-Permᴰ}
use reality_hydra.Pool.Sampler.{Keyed, key_le, draw_keys, subset_from_seed, keyed_epoch_subset}
use reality_hydra.Pool.Sampler.TopK.{subset_from_seed-TopK, map-draw_keys, length-draw_keys}

pub map-Permᴰ :
    {A B : Type 0} (f : A → B) {xs ys : List A} → Permᴰ xs ys → Permᴰ (map f xs) (map f ys)
map-Permᴰ f nil = nil
map-Permᴰ f (cons e p) = cons (ap f e) (map-Permᴰ f p)
map-Permᴰ f (swap e e') = swap (ap f e) (ap f e')
map-Permᴰ f (trans p q) = trans (map-Permᴰ f p) (map-Permᴰ f q)

IsDistinct-front : {F : Type 0} (xs ys : List (PoolEntry F)) → IsDistinct (xs ++ ys) → IsDistinct xs
IsDistinct-front [] ys d = tt
IsDistinct-front (x ∷ xs) ys d =
    (All-prefix (λ y. text_eq x.sni y.sni ≡ false) xs ys d.0, IsDistinct-front xs ys d.1)

module _ (fl : Floats) (rng : Rng fl.F) where
  All-draw_keys :
      (P : PoolEntry fl.F → Type 0) (st : rng.State) (es : List (PoolEntry fl.F))
      → All P es
      → All (λ (p : Keyed fl). P p.1) (draw_keys fl rng st es)
  unfolding draw_keys
  All-draw_keys P st [] h = tt
  All-draw_keys P st (e ∷ es) h = (h.0, All-draw_keys P (rng.next st) es h.1)

  All-second :
      (P : PoolEntry fl.F → Type 0) (ps : List (Keyed fl))
      → All (λ (p : Keyed fl). P p.1) ps
      → All P (map (λ (p : Keyed fl). p.1) ps)
  All-second P [] h = tt
  All-second P (p ∷ ps) h = (h.0, All-second P ps h.1)

  module _ (h : Hmac) (master_secret server_salt : Bytes) (master : MasterList fl.F)
      (epoch k : ℕ) where
    pub All-keyed_epoch_subset :
        (P : PoolEntry fl.F → Type 0)
        → All P master.entries
        → All P (keyed_epoch_subset fl rng h master_secret server_salt master epoch k).entries
    unfolding keyed_epoch_subset subset_from_seed from_unsorted
    All-keyed_epoch_subset P all =
        let keys =
          draw_keys fl rng (rng.from_seed (derive_seed h master_secret server_salt epoch))
            master.entries in
        All-sort by_sni P _ (
          All-second P (take (min k (length master.entries)) (sort (key_le fl) keys)) (
            All-take (λ (p : Keyed fl). P p.1) (min k (length master.entries))
              (sort (key_le fl) keys)
              (All-sort (key_le fl) (λ (p : Keyed fl). P p.1) keys
                (All-draw_keys P _ master.entries all))))

    pub length-keyed_epoch_subset :
        length (keyed_epoch_subset fl rng h master_secret server_salt master epoch k).entries
        ≡ min k (length master.entries)
    unfolding keyed_epoch_subset subset_from_seed from_unsorted
    length-keyed_epoch_subset =
        let keys =
          draw_keys fl rng (rng.from_seed (derive_seed h master_secret server_salt epoch))
            master.entries in
        let ranked = sort (key_le fl) keys in
        let n = min k (length master.entries) in
        length-sort by_sni (map (λ (p : Keyed fl). p.1) (take n ranked))
        ∙ length-map (take n ranked) (λ (p : Keyed fl). p.1)
        ∙ omega (
          arith,
          length-take n ranked,
          length-sort (key_le fl) keys,
          length-draw_keys fl rng (rng.from_seed (derive_seed h master_secret server_salt epoch))
              master.entries,
        )

    pub keyed_epoch_subset-IsDistinct :
        IsDistinct master.entries
        → IsDistinct (keyed_epoch_subset fl rng h master_secret server_salt master epoch k).entries
    unfolding keyed_epoch_subset
    keyed_epoch_subset-IsDistinct distinct =
        let seed = derive_seed h master_secret server_salt epoch in
        let top = subset_from_seed-TopK fl rng master seed k in
        let snd : Keyed fl → PoolEntry fl.F = λ p. p.1 in
        let whole : Permᴰ (map snd (top.chosen ++ top.left)) master.entries =
          subst (λ (l : List (PoolEntry fl.F)). Permᴰ (map snd (top.chosen ++ top.left)) l)
            (map-draw_keys fl rng (rng.from_seed seed) master.entries) (map-Permᴰ snd top.drawn) in
        let parts : IsDistinct (map snd top.chosen ++ map snd top.left) =
          subst IsDistinct (map-append snd top.chosen top.left)
            (IsDistinct-Permᴰ (symm whole) distinct) in
        IsDistinct-Permᴰ (symm top.same)
          (IsDistinct-front (map snd top.chosen) (map snd top.left) parts)
