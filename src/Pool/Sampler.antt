-- ===== src/Pool/Sampler.antt =====
-- crates/pool-engine/src/sampler.rs: the weighted subset of an epoch.
pub mod TopK
pub mod Members
use Prim.Native.Nat.{compare, Ordering}
use reality_hydra.Base.{ℕ, Bool, true, false, List, [], ◌∷◌, map, take, length, min, Bytes, text_le}
use reality_hydra.Base.Sort.{sort}
use reality_hydra.Proto.{Hmac}
use reality_hydra.Pool.{Floats, Rng, PoolEntry, MasterList, ActivePool, from_unsorted, derive_seed}

abbrev pub Keyed : Floats → Type 0
Keyed fl = fl.F × PoolEntry fl.F

module _ (fl : Floats) where
  -- The comparison of the sort: the larger key first, then the smaller SNI, as "not after".
  unfoldable pub key_le : Keyed fl → Keyed fl → Bool
  key_le (ka, a) (kb, b) = elim (compare (fl.total_place kb) (fl.total_place ka)) [
    | Ordering.lt ↦ true
    | Ordering.eq ↦ text_le a.sni b.sni
    | Ordering.gt ↦ false
  ]

  module _ (rng : Rng fl.F) where
    -- One draw for each entry, in the order of the list.
    unfoldable pub draw_keys : rng.State → List (PoolEntry fl.F) → List (Keyed fl)
    draw_keys st [] = []
    draw_keys st (e ∷ es) =
        (fl.div (fl.ln (fl.sub fl.one_f (rng.random st))) e.weight, e) ∷ draw_keys (rng.next st) es

    unfoldable pub subset_from_seed : MasterList fl.F → Bytes → ℕ → ActivePool fl.F
    unfolding key_le draw_keys
    subset_from_seed master seed k = from_unsorted (
        map (λ p. p.1)
          (take (min k (length master.entries))
            (sort key_le (draw_keys (rng.from_seed seed) master.entries))))

    unfoldable pub keyed_epoch_subset :
        Hmac → Bytes → Bytes → MasterList fl.F → ℕ → ℕ → ActivePool fl.F
    keyed_epoch_subset h master_secret server_salt master epoch k =
        subset_from_seed master (derive_seed h master_secret server_salt epoch) k
