-- ===== src/Pool/Window/Entries.antt =====
-- The entries of a window are the master list's.
use reality_hydra.Base.{ℕ, inl, inr, List, [], ◌∷◌, Bytes, All, text_eq, text_le, Bool-cases}
use reality_hydra.Base.Sort.{All-sort}
use reality_hydra.Proto.{Hmac}
use reality_hydra.Pool.{Floats, Rng, PoolEntry, MasterList, by_sni, from_unsorted, epoch_window}
use reality_hydra.Pool.Sampler.Members.{All-keyed_epoch_subset}
use reality_hydra.Pool.Window.{or_insert, insert_all, union_epochs, accepted_pool_window}

module _ {F : Type 0} (P : PoolEntry F → Type 0) where
  All-or_insert :
      (e : PoolEntry F) (es : List (PoolEntry F)) → P e → All P es → All P (or_insert e es)
  unfolding or_insert
  All-or_insert e [] p h = (p, tt)
  All-or_insert e (y ∷ ys) p h = elim (Bool-cases (text_eq e.sni y.sni)) [
    | inl same ↦ rw same h
    | inr other ↦ elim (Bool-cases (text_le e.sni y.sni)) [
      | inl first ↦ rw (other, first) (p, h)
      | inr later ↦ rw (other, later) (h.0, All-or_insert e ys p h.1)
    ]
  ]

  All-insert_all :
      (es union : List (PoolEntry F)) → All P es → All P union → All P (insert_all es union)
  unfolding insert_all
  All-insert_all [] union h k = k
  All-insert_all (e ∷ es) union h k =
      All-insert_all es (or_insert e union) h.1 (All-or_insert e union h.0 k)

module _ (fl : Floats) (rng : Rng fl.F) (h : Hmac) (secret salt : Bytes) (master : MasterList fl.F)
    (k : ℕ) (P : PoolEntry fl.F → Type 0) where
  All-union_epochs :
      (epochs : List ℕ) (union : List (PoolEntry fl.F))
      → All P master.entries
      → All P union
      → All P (union_epochs fl rng h secret salt master k epochs union)
  unfolding union_epochs
  All-union_epochs [] union all there = there
  All-union_epochs (e ∷ es) union all there = All-union_epochs es _ all (
      All-insert_all P _ union (All-keyed_epoch_subset fl rng h secret salt master e k P all) there)

  pub All-accepted_pool_window :
      (epoch : ℕ)
      → All P master.entries
      → All P (accepted_pool_window fl rng h secret salt master k epoch).entries
  unfolding accepted_pool_window from_unsorted
  All-accepted_pool_window epoch all =
      All-sort by_sni P _ (All-union_epochs (epoch_window epoch) [] all tt)
