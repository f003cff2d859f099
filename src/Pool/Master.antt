-- ===== src/Pool/Master.antt =====
-- crates/pool-engine/src/entry.rs: `MasterList::new`.
pub mod Order
pub mod Valid
use reality_hydra.Base.{
  ℕ, suc, Bool, true, false, List, [], ◌∷◌, Bytes, text_eq, Result, ok, err, ◌>>◌, ◌||◌, not,
  if◌then◌else◌,
}
use reality_hydra.Base.Sort.{sort}
use reality_hydra.Pool.{
  Floats, PoolEntry, MasterList, PoolError, empty_master_list, empty_sni, invalid_weight,
  duplicate_sni, by_sni,
}

abbrev pub is_empty : Bytes → Bool
is_empty [] = true
is_empty (b ∷ bs) = false

module _ (fl : Floats) where
  -- `!e.weight.is_finite() || e.weight <= 0.0`
  abbrev pub bad_weight : fl.F → Bool
  bad_weight w = not (fl.is_finite w) || fl.le w fl.zero_f

  -- The loop over the entries, from the index on.
  unfoldable pub check_entries : ℕ → List (PoolEntry fl.F) → Result (PoolError fl.F) (Unit {0})
  check_entries index [] = ok tt
  check_entries index (e ∷ es) =
      if is_empty e.sni
      then err (empty_sni index)
      else (if bad_weight e.weight
          then err (invalid_weight index e.weight)
          else check_entries (suc index) es)

  -- The loop over `windows(2)`.
  unfoldable pub check_pairs : List (PoolEntry fl.F) → Result (PoolError fl.F) (Unit {0})
  check_pairs (a ∷ (b ∷ rest)) =
      if text_eq a.sni b.sni then err (duplicate_sni a.sni) else check_pairs (b ∷ rest)
  check_pairs _ = ok tt

  unfoldable pub new : List (PoolEntry fl.F) → Result (PoolError fl.F) (MasterList fl.F)
  new [] = err empty_master_list
  new (e ∷ es) =
      check_entries 0 (e ∷ es)
      >> (check_pairs (sort by_sni (e ∷ es)) >> ok (record { entries = sort by_sni (e ∷ es) }))
