-- ===== src/Examples/Pools.antt =====
-- Two entries, their master list and its pools.
use mathlib.Core.List.{Permᴰ}
use mathlib.Core.List.Permᴰ.{swap}
use reality_hydra.Base.{
  ◌⊎◌, ◌+◌, false, inl, inr, List, get, ℕ, ◌≡◌, refl, true, [], ◌∷◌, All, Bytes, replicate, arith,
  ok, none, some, text_eq, text_le,
}
use reality_hydra.Base.Sort.{insert, sort, IsSorted}
use reality_hydra.Pool.{
  PoolEntry, MasterList, ActivePool, by_sni, has_sni, contains, from_unsorted, epoch_at,
  derive_seed,
}
use reality_hydra.Pool.Master.{check_entries, check_pairs, new}
use reality_hydra.Pool.Master.Valid.{IsValid, IsDistinct, new-IsDistinct}
use reality_hydra.Pool.Master.Order.{new_any_order}
use reality_hydra.Pool.Sampler.{key_le, draw_keys, subset_from_seed, keyed_epoch_subset}
use reality_hydra.Pool.Sampler.TopK.{TopK, subset_from_seed-TopK}
use reality_hydra.Pool.Window.{accepted_pool_window}
use reality_hydra.Pool.Window.Union.{accepted_within_skew, drawn_within_skew}
use reality_hydra.Pool.Selector.{
  Selector, total_weight, walk, weighted_pick, usable, fresh_choice, choose, select_from, select,
}
use reality_hydra.Pool.Selector.Lasting.{Use, selects, evicts, after_uses, select_sticky}
use reality_hydra.Examples.Fixtures.{
  checksum, checksum_hmac, whole_floats, counter, key, entry_a, entry_b,
}

abbrev given : List (PoolEntry ℕ)
given = entry_b ∷ entry_a ∷ []

abbrev master : MasterList ℕ
master = record { entries = entry_a ∷ entry_b ∷ [] }

given_is_fine : new whole_floats given ≡ ok master
unfolding new check_entries check_pairs sort insert text_eq text_le
given_is_fine = refl

new-IsDistinct_example :
    Permᴰ master.entries given
    × All (IsValid whole_floats) master.entries
    × IsSorted by_sni master.entries
    × IsDistinct master.entries
new-IsDistinct_example = new-IsDistinct whole_floats given given_is_fine

given-IsDistinct : IsDistinct given
unfolding text_eq
given-IsDistinct = ((refl, tt), (tt, tt))

new_any_order_example : new whole_floats (entry_a ∷ entry_b ∷ []) ≡ ok master
new_any_order_example =
    new_any_order whole_floats given (entry_a ∷ entry_b ∷ []) (swap refl refl) given_is_fine

subset_from_seed-TopK_example :
    TopK whole_floats counter master
      (replicate 32 1)
      1
      (subset_from_seed whole_floats counter master (replicate 32 1) 1)
subset_from_seed-TopK_example = subset_from_seed-TopK whole_floats counter master (replicate 32 1) 1

abbrev salt : Bytes
salt = replicate 16 9

abbrev two : ActivePool ℕ
two = keyed_epoch_subset whole_floats counter checksum_hmac key salt master (epoch_at 7199 3600) 2

two-contains : contains two (b'a' ∷ []) ≡ true
unfolding keyed_epoch_subset subset_from_seed from_unsorted draw_keys key_le sort insert text_le
    text_eq has_sni epoch_at derive_seed checksum_hmac checksum
two-contains = refl

drawn :
    contains
      (accepted_pool_window whole_floats counter checksum_hmac key salt master 2
        (epoch_at 7199 3600))
      (b'a' ∷ [])
    ≡ true
drawn =
    accepted_within_skew whole_floats counter checksum_hmac key salt master 2 7199 7199 3600
      (b'a' ∷ []) (omega arith) (omega arith) two-contains

drawn_within_skew_example :
    (contains
        (accepted_pool_window whole_floats counter checksum_hmac key salt master 2
          (epoch_at 7201 3600))
        (b'a' ∷ [])
      ≡ true)
    ⊎ ((contains two (b'a' ∷ []) ≡ false)
        × (far : ℕ) × (contains
              (keyed_epoch_subset whole_floats counter checksum_hmac key salt master far 2)
              (b'a' ∷ [])
            ≡ true)
        × ((far + 2 ≡ epoch_at 7201 3600) ⊎ (far ≡ epoch_at 7201 3600 + 2)))
drawn_within_skew_example =
    drawn_within_skew whole_floats counter checksum_hmac key salt master 2 7199 7201 3600
      (b'a' ∷ []) (omega arith) (omega arith) drawn

abbrev pool : ActivePool ℕ
pool = record { entries = entry_a ∷ entry_b ∷ [] }

abbrev fresh : Selector
fresh = record { sticky_ttl_ms = 30000; cache = [] }

first_answer : (select whole_floats counter fresh pool (b'x' ∷ []) 10 3).0 ≡ some (b'b' ∷ [])
unfolding select select_from choose usable fresh_choice weighted_pick walk total_weight get
first_answer = refl

pool-contains : contains pool (b'b' ∷ []) ≡ true
unfolding has_sni text_eq
pool-contains = refl

no_choice : get fresh.cache (b'x' ∷ []) ≡ none
unfolding get
no_choice = refl

-- A call for another destination, an eviction, and a call for the same one.
abbrev uses : List (Use whole_floats counter)
uses = selects pool (b'y' ∷ []) 15 4 ∷ evicts 100 ∷ selects pool (b'x' ∷ []) 15000 5 ∷ []

another : text_eq (b'y' ∷ []) (b'x' ∷ []) ≡ false
unfolding text_eq
another = refl

select_sticky_example :
    let then_ =
      after_uses whole_floats counter
        (select whole_floats counter fresh pool (b'x' ∷ []) 10 3).1
        uses in
    select whole_floats counter then_ pool (b'x' ∷ []) 20000 8 ≡ (some (b'b' ∷ []), then_, 8)
select_sticky_example =
    select_sticky whole_floats counter fresh pool pool (b'x' ∷ []) 10 20000 3 8 (b'b' ∷ []) uses
      no_choice first_answer (inl another, (omega arith, (inr (omega arith, pool-contains), tt)))
      (omega arith) pool-contains
