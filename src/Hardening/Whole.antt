-- ===== src/Hardening/Whole.antt =====
-- The checks of a configuration whose pools are the whole master list.
use mathlib.Core.Path.{subst}
use mathlib.Core.List.{Permᴰ}
use mathlib.Core.List.Permᴰ.{symm}
use reality_hydra.Base.{
  ℕ, ◌≤◌, ◌≡◌, refl, ap, ◌∙◌, Bool, true, false, not, min, List, Bytes, length, map, take_all,
  replicate, All, arith,
}
use reality_hydra.Base.Sort.{sort, sort-perm, length-sort, All-sort}
use reality_hydra.Proto.{Hmac}
use reality_hydra.Pool.{
  Floats, Rng, PoolEntry, MasterList, ActivePool, by_sni, from_unsorted, derive_seed, salt_len,
}
use reality_hydra.Pool.Master.Valid.{IsDistinct}
use reality_hydra.Pool.Master.Order.{IsDistinct-Permᴰ, sort-Permᴰ}
use reality_hydra.Pool.Sampler.{Keyed, key_le, draw_keys, subset_from_seed, keyed_epoch_subset}
use reality_hydra.Pool.Sampler.TopK.{map-draw_keys, length-draw_keys}
use reality_hydra.Pool.Sampler.Members.{map-Permᴰ}
use reality_hydra.Hardening.{pool_eq, check_salt_isolation, check_epoch_evolution}
use reality_hydra.Hardening.Passing.{entries_eq_self}

module _ (fl : Floats) (rng : Rng fl.F) (h : Hmac) where
  -- The pool of an epoch with as many SNIs as the list has is the list.
  pub keyed_epoch_subset_whole :
      (secret salt : Bytes) (master : MasterList fl.F) (epoch k : ℕ)
      → IsDistinct master.entries
      → length master.entries ≤ k
      → (keyed_epoch_subset fl rng h secret salt master epoch k).entries
        ≡ sort by_sni master.entries
  unfolding keyed_epoch_subset subset_from_seed from_unsorted
  keyed_epoch_subset_whole secret salt master epoch k distinct large =
      let st : rng.State = rng.from_seed (derive_seed h secret salt epoch) in
      let keys : List (Keyed fl) = draw_keys fl rng st master.entries in
      let ranked : List (Keyed fl) = sort (key_le fl) keys in
      let second : Keyed fl → PoolEntry fl.F = λ p. p.1 in
      let size : length ranked ≤ min k (length master.entries) =
        omega (arith, length-sort (key_le fl) keys, length-draw_keys fl rng st master.entries) in
      let perm : Permᴰ (map second ranked) master.entries =
        subst (λ (l : List (PoolEntry fl.F)). Permᴰ (map second ranked) l)
          (map-draw_keys fl rng st master.entries)
          (map-Permᴰ second (sort-perm (key_le fl) keys)) in
      ap (λ (ps : List (Keyed fl)). sort by_sni (map second ps)) (take_all _ ranked size)
      ∙ sort-Permᴰ perm (IsDistinct-Permᴰ (symm perm) distinct)

  module _ (weight_eq : fl.F → fl.F → Bool) where
    same_pools :
        (a b : ActivePool fl.F) (es : List (PoolEntry fl.F))
        → a.entries ≡ es
        → b.entries ≡ es
        → All (λ (e : PoolEntry fl.F). weight_eq e.weight e.weight ≡ true) es
        → not (pool_eq fl rng h weight_eq a b) ≡ false
    same_pools a b es e f w = rw (e, f, entries_eq_self fl rng h weight_eq es w) refl

    -- When the active number is at least that of the master list, whose SNIs are distinct and whose
    -- weights equal themselves, the checks of salts and of epochs fail, whatever the keys.
    pub checks_whole :
        (secret salt : Bytes) (master : MasterList fl.F) (epoch k : ℕ)
        → IsDistinct master.entries
        → All (λ (e : PoolEntry fl.F). weight_eq e.weight e.weight ≡ true) master.entries
        → length master.entries ≤ k
        → (check_salt_isolation fl rng h weight_eq secret master epoch k ≡ false)
          × (check_epoch_evolution fl rng h weight_eq secret salt master k ≡ false)
    unfolding check_salt_isolation check_epoch_evolution
    checks_whole secret salt master epoch k distinct w large =
        let sorted = All-sort by_sni _ master.entries w in
        let whole =
          λ (s : Bytes) (n : ℕ). keyed_epoch_subset_whole secret s master n k distinct large in
        (
          same_pools _ _ (sort by_sni master.entries) (whole (replicate salt_len 0xAA) epoch)
              (whole (replicate salt_len 0xBB) epoch) sorted,
          same_pools _ _ (sort by_sni master.entries) (whole salt 100) (whole salt 200) sorted,
        )
