-- ===== src/Hardening/Passing.antt =====
-- The checks that every accepted configuration passes.
use reality_hydra.Base.{
  ◌-◌, ℕ, ◌+◌, ◌≤◌, ◌<◌, ◌≡◌, ◌≢◌, refl, ◌∙◌, ◌⊎◌, inl, inr, Bool, true, false, ◌||◌, min, List, [],
  ◌∷◌, Bytes, length, All, le→leb, ==_iff, text_eq, text_eq_self, arith, ok,
}
use reality_hydra.Proto.{Hmac}
use reality_hydra.Pool.{Floats, Rng, PoolEntry, MasterList, has_sni, contains, max_u64}
use reality_hydra.Pool.Master.Valid.{IsValid, IsDistinct}
use reality_hydra.Pool.Sampler.Members.{
  All-keyed_epoch_subset, length-keyed_epoch_subset, keyed_epoch_subset-IsDistinct,
}
use reality_hydra.Pool.Window.Union.{contains-accepted_pool_window}
use reality_hydra.Pool.Window.Size.{length-IsDistinct}
use reality_hydra.Config.{RawConfig, HydraConfig, Base64, into_config}
use reality_hydra.Config.Checked.{into_config-IsChecked}
use reality_hydra.Hardening.{
  salt_isolation, epoch_evolution, CheckResult, failures, failed_results, entries_eq, all_in,
  pool_at, window_at, check_pool_determinism, check_epoch_window, check_epoch_window_saturation,
  check_k_clamping, check_salt_isolation, check_epoch_evolution, check_pool_is_subset,
  check_pool_size, run_checklist, result,
}

or_middle : (a c : Bool) → (a || true || c) ≡ true
or_middle true c = refl
or_middle false c = refl

or_first : (a b : Bool) → a ≡ true → (a || b) ≡ true
or_first true b h = refl
or_first false b h = cc

module _ (fl : Floats) (rng : Rng fl.F) (h : Hmac) (weight_eq : fl.F → fl.F → Bool) where
  pub entries_eq_self :
      (es : List (PoolEntry fl.F))
      → All (λ (e : PoolEntry fl.F). weight_eq e.weight e.weight ≡ true) es
      → entries_eq fl rng h weight_eq es es ≡ true
  unfolding entries_eq
  entries_eq_self [] w = refl
  entries_eq_self (e ∷ es) w = rw (text_eq_self e.sni, w.0) (entries_eq_self es w.1)

  all_in-All :
      (es within : List (PoolEntry fl.F))
      → All (λ (e : PoolEntry fl.F). has_sni within e.sni ≡ true) es
      → all_in fl rng h weight_eq es within ≡ true
  unfolding all_in
  all_in-All [] within a = refl
  all_in-All (e ∷ es) within a = rw a.0 (all_in-All es within a.1)

  All-weaker :
      (e : PoolEntry fl.F) (es fs : List (PoolEntry fl.F))
      → All (λ (f : PoolEntry fl.F). has_sni es f.sni ≡ true) fs
      → All (λ (f : PoolEntry fl.F). has_sni (e ∷ es) f.sni ≡ true) fs
  unfolding has_sni
  All-weaker e es [] a = tt
  All-weaker e es (f ∷ fs) a = (ground (arith, a.0), All-weaker e es fs a.1)

  has_sni-All :
      (es : List (PoolEntry fl.F)) → All (λ (e : PoolEntry fl.F). has_sni es e.sni ≡ true) es
  unfolding has_sni
  has_sni-All [] = tt
  has_sni-All (e ∷ es) =
      (or_first (text_eq e.sni e.sni) _ (text_eq_self e.sni), All-weaker e es es (has_sni-All es))

  All-has_sni :
      (within : List (PoolEntry fl.F)) (es fs : List (PoolEntry fl.F))
      → ((s : Bytes) → has_sni fs s ≡ true → has_sni within s ≡ true)
      → All (λ (e : PoolEntry fl.F). has_sni fs e.sni ≡ true) es
      → All (λ (e : PoolEntry fl.F). has_sni within e.sni ≡ true) es
  All-has_sni within [] fs f a = tt
  All-has_sni within (e ∷ es) fs f a = (f e.sni a.0, All-has_sni within es fs f a.1)

  module _ (secret salt : Bytes) (master : MasterList fl.F) where
    -- The entries of an epoch's pool are in the window around it.
    pool-in-window :
        (epoch k : ℕ)
        → All
            (λ (e : PoolEntry fl.F).
              has_sni (window_at fl rng h weight_eq secret salt master epoch k).entries e.sni
              ≡ true)
            (pool_at fl rng h weight_eq secret salt master epoch k).entries
    pool-in-window epoch k =
        let pool = pool_at fl rng h weight_eq secret salt master in
        All-has_sni (window_at fl rng h weight_eq secret salt master epoch k).entries
          (pool epoch k).entries (pool epoch k).entries
          (λ s there.
            contains-accepted_pool_window fl rng h secret salt master k epoch s
            ∙ rw there (
                or_middle (contains (pool (epoch - 1) k) s)
                  (contains (pool (min (epoch + 1) max_u64) k) s)))
          (has_sni-All (pool epoch k).entries)

    pool-le-window :
        (epoch k : ℕ)
        → IsDistinct master.entries
        → length (pool_at fl rng h weight_eq secret salt master epoch k).entries
          ≤ length (window_at fl rng h weight_eq secret salt master epoch k).entries
    pool-le-window epoch k distinct =
        length-IsDistinct (pool_at fl rng h weight_eq secret salt master epoch k).entries _
          (keyed_epoch_subset-IsDistinct fl rng h secret salt master epoch k distinct)
          (pool-in-window epoch k)

    determinism :
        (epoch k : ℕ)
        → All (λ (e : PoolEntry fl.F). weight_eq e.weight e.weight ≡ true) master.entries
        → check_pool_determinism fl rng h weight_eq secret salt master epoch k ≡ true
    unfolding check_pool_determinism
    determinism epoch k w =
        entries_eq_self _ (All-keyed_epoch_subset fl rng h secret salt master epoch k _ w)

    superset :
        (epoch k : ℕ)
        → IsDistinct master.entries
        → check_epoch_window fl rng h weight_eq secret salt master epoch k ≡ true
    unfolding check_epoch_window
    superset epoch k distinct =
        rw (all_in-All _ _ (pool-in-window epoch k), le→leb _ _ (pool-le-window epoch k distinct))
          refl

    saturation :
        (k : ℕ)
        → IsDistinct master.entries
        → 0 < k
        → 0 < length master.entries
        → check_epoch_window_saturation fl rng h weight_eq secret salt master k ≡ true
    unfolding check_epoch_window_saturation
    saturation k distinct active some =
        let few = pool-le-window 0 k distinct in
        let size = length-keyed_epoch_subset fl rng h secret salt master 0 k in
        ground (arith, few, size, active, some)

    clamping : (epoch : ℕ) → check_k_clamping fl rng h weight_eq secret salt master epoch ≡ true
    unfolding check_k_clamping
    clamping epoch = (==_iff _ _).1 (
        length-keyed_epoch_subset fl rng h secret salt master epoch (length master.entries + 100)
        ∙ omega arith)

    subset :
        (epoch k : ℕ) → check_pool_is_subset fl rng h weight_eq secret salt master epoch k ≡ true
    unfolding check_pool_is_subset
    subset epoch k =
        all_in-All _ _ (
          All-keyed_epoch_subset fl rng h secret salt master epoch k _ (has_sni-All master.entries))

    size : (epoch k : ℕ) → check_pool_size fl rng h weight_eq secret salt master epoch k ≡ true
    unfolding check_pool_size
    size epoch k = (==_iff _ _).1 (length-keyed_epoch_subset fl rng h secret salt master epoch k)

  finite_weight : (e : PoolEntry fl.F) → IsValid fl e → fl.is_finite e.weight ≡ true
  finite_weight e v = ground (arith, v.1)

  self_equal :
      (es : List (PoolEntry fl.F))
      → ((x : fl.F) → fl.is_finite x ≡ true → weight_eq x x ≡ true)
      → All (IsValid fl) es
      → All (λ (e : PoolEntry fl.F). weight_eq e.weight e.weight ≡ true) es
  self_equal [] f v = tt
  self_equal (e ∷ es) f v = (f e.weight (finite_weight e v.0), self_equal es f v.1)

  some_length : (es : List (PoolEntry fl.F)) → es ≢ [] → 0 < length es
  some_length [] h = absurd (h refl)
  some_length (e ∷ es) h = omega arith

  abbrev pub IsChance : CheckResult → Type 0
  IsChance r = (r.name ≡ salt_isolation) ⊎ (r.name ≡ epoch_evolution)

  two_left :
      (a b : Bool)
      → All IsChance (
          failed_results (
            record { name = salt_isolation; passed = a }
            ∷ record { name = epoch_evolution; passed = b }
            ∷ []))
  unfolding failed_results
  two_left true true = tt
  two_left true false = (inr refl, tt)
  two_left false true = (inl refl, tt)
  two_left false false = (inl refl, (inr refl, tt))

  -- Where a finite `f64` equals itself, an accepted configuration fails at most the two checks that
  -- compare pools of different seeds, the isolation of salts and the evolution over epochs.
  pub run_checklist-failures :
      (b64 : Base64) (raw : RawConfig fl.F) (cfg : HydraConfig fl.F)
      → into_config fl b64 raw ≡ ok cfg
      → ((x : fl.F) → fl.is_finite x ≡ true → weight_eq x x ≡ true)
      → All IsChance (failures (run_checklist fl rng h weight_eq cfg))
  unfolding failures run_checklist failed_results result
  run_checklist-failures b64 raw cfg made equal =
      let c = (into_config-IsChecked fl b64 raw made).0 in
      let secret : Bytes = cfg.master_secret in
      let salt : Bytes = cfg.server_salt in
      let master : MasterList fl.F = cfg.master_list in
      let k : ℕ = cfg.active_k in
      let some_active : 0 < k = ground (arith, c.some_active) in
      rw
        (
          determinism secret salt master 42 k (self_equal master.entries equal c.valid),
          superset secret salt master 42 k c.distinct,
          saturation secret salt master k c.distinct some_active
              (some_length master.entries c.some_entry),
          clamping secret salt master 42,
          subset secret salt master 42 k,
          size secret salt master 42 k,
        )
        (two_left (check_salt_isolation fl rng h weight_eq secret master 42 k)
          (check_epoch_evolution fl rng h weight_eq secret salt master k))
