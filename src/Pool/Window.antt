-- ===== src/Pool/Window.antt =====
-- crates/pool-engine/src/lib.rs: `accepted_pool_window`, the pools of an epoch and its neighbours.
-- The `BTreeMap` is the list of its values in the order of their keys.
pub mod Union
pub mod Size
pub mod Entries
use reality_hydra.Base.{ℕ, List, [], ◌∷◌, Bytes, text_eq, text_le, if◌then◌else◌}
use reality_hydra.Proto.{Hmac}
use reality_hydra.Pool.{Floats, Rng, PoolEntry, MasterList, ActivePool, from_unsorted, epoch_window}
use reality_hydra.Pool.Sampler.{keyed_epoch_subset}

module _ {F : Type 0} where
  -- `union.entry(entry.sni.clone()).or_insert_with(|| entry.clone())`
  unfoldable pub or_insert : PoolEntry F → List (PoolEntry F) → List (PoolEntry F)
  or_insert e [] = e ∷ []
  or_insert e (y ∷ ys) =
      if text_eq e.sni y.sni
      then y ∷ ys
      else (if text_le e.sni y.sni then e ∷ (y ∷ ys) else y ∷ or_insert e ys)

  -- The loop over the entries of one pool.
  unfoldable pub insert_all : List (PoolEntry F) → List (PoolEntry F) → List (PoolEntry F)
  insert_all [] union = union
  insert_all (e ∷ es) union = insert_all es (or_insert e union)

module _ (fl : Floats) (rng : Rng fl.F) (h : Hmac) (master_secret server_salt : Bytes)
    (master : MasterList fl.F) (k : ℕ) where
  -- The loop over the epochs.
  unfoldable pub union_epochs : List ℕ → List (PoolEntry fl.F) → List (PoolEntry fl.F)
  union_epochs [] union = union
  union_epochs (e ∷ es) union =
      union_epochs es (
        insert_all (keyed_epoch_subset fl rng h master_secret server_salt master e k).entries union)

  unfoldable pub accepted_pool_window : ℕ → ActivePool fl.F
  accepted_pool_window epoch = from_unsorted (union_epochs (epoch_window epoch) [])
