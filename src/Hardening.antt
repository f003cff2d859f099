-- ===== src/Hardening.antt =====
-- crates/hardening/src/checklist.rs: the checks of a configuration. `f64`'s `==` is a parameter beside
-- those of `Pool`. The names are those of the texts; the details, fixed texts, are left out.
pub mod Distribution
pub mod Metrics
pub mod Passing
pub mod Whole
use reality_hydra.Base.{
  ℕ, ◌+◌, Bool, true, false, ◌&&◌, not, min, List, [], ◌∷◌, Bytes, length, replicate, leb, ◌==◌,
  if◌then◌else◌, text_eq,
}
use reality_hydra.Proto.{Hmac}
use reality_hydra.Pool.{Floats, Rng, PoolEntry, MasterList, ActivePool, has_sni, salt_len}
use reality_hydra.Pool.Sampler.{keyed_epoch_subset}
use reality_hydra.Pool.Window.{accepted_pool_window}
use reality_hydra.Config.{HydraConfig}

pub data CheckName : Type 0 where
  pool_determinism : CheckName
  epoch_window_superset : CheckName
  epoch_window_saturation : CheckName
  k_clamping : CheckName
  salt_isolation : CheckName
  epoch_evolution : CheckName
  pool_is_subset : CheckName
  pool_size : CheckName

pub record CheckResult : Type 0 where
  pub name : CheckName
  pub passed : Bool

pub record ChecklistReport : Type 0 where
  pub results : List CheckResult

unfoldable pub all_results : List CheckResult → Bool
all_results [] = true
all_results (r ∷ rs) = r.passed && all_results rs

unfoldable pub all_passed : ChecklistReport → Bool
unfolding all_results
all_passed report = all_results report.results

unfoldable pub failed_results : List CheckResult → List CheckResult
failed_results [] = []
failed_results (r ∷ rs) = if not r.passed then r ∷ failed_results rs else failed_results rs

unfoldable pub failures : ChecklistReport → List CheckResult
unfolding failed_results
failures report = failed_results report.results

unfoldable pub fail_count : ChecklistReport → ℕ
unfolding failed_results
fail_count report = length (failed_results report.results)

module _ (fl : Floats) (rng : Rng fl.F) (h : Hmac) (weight_eq : fl.F → fl.F → Bool) where
  -- The derived `==` of two entry lists.
  unfoldable pub entries_eq : List (PoolEntry fl.F) → List (PoolEntry fl.F) → Bool
  entries_eq [] [] = true
  entries_eq (a ∷ as_) (b ∷ bs) =
      text_eq a.sni b.sni && weight_eq a.weight b.weight && entries_eq as_ bs
  entries_eq _ _ = false

  abbrev pub pool_eq : ActivePool fl.F → ActivePool fl.F → Bool
  pool_eq a b = entries_eq a.entries b.entries

  -- `snis().all(|sni| …)` with the SNIs of the given entries.
  unfoldable pub all_in : List (PoolEntry fl.F) → List (PoolEntry fl.F) → Bool
  all_in [] within = true
  all_in (e ∷ es) within = has_sni within e.sni && all_in es within

  module _ (master_secret server_salt : Bytes) (master : MasterList fl.F) where
    abbrev pub pool_at : ℕ → ℕ → ActivePool fl.F
    pool_at epoch k = keyed_epoch_subset fl rng h master_secret server_salt master epoch k

    abbrev pub window_at : ℕ → ℕ → ActivePool fl.F
    window_at epoch k = accepted_pool_window fl rng h master_secret server_salt master k epoch

    unfoldable pub check_pool_determinism : ℕ → ℕ → Bool
    unfolding entries_eq
    check_pool_determinism epoch k = pool_eq (pool_at epoch k) (pool_at epoch k)

    unfoldable pub check_epoch_window : ℕ → ℕ → Bool
    unfolding all_in
    check_epoch_window epoch k =
        all_in (pool_at epoch k).entries (window_at epoch k).entries
        && leb (length (pool_at epoch k).entries) (length (window_at epoch k).entries)

    unfoldable pub check_epoch_window_saturation : ℕ → Bool
    check_epoch_window_saturation k = not (length (window_at 0 k).entries == 0)

    unfoldable pub check_k_clamping : ℕ → Bool
    check_k_clamping epoch =
        length (pool_at epoch (length master.entries + 100)).entries == length master.entries

    unfoldable pub check_epoch_evolution : ℕ → Bool
    unfolding entries_eq
    check_epoch_evolution k = not (pool_eq (pool_at 100 k) (pool_at 200 k))

    unfoldable pub check_pool_is_subset : ℕ → ℕ → Bool
    unfolding all_in
    check_pool_is_subset epoch k = all_in (pool_at epoch k).entries master.entries

    unfoldable pub check_pool_size : ℕ → ℕ → Bool
    check_pool_size epoch k = length (pool_at epoch k).entries == min k (length master.entries)

  -- With the two fixed salts in place of the configuration's.
  unfoldable pub check_salt_isolation : Bytes → MasterList fl.F → ℕ → ℕ → Bool
  unfolding entries_eq
  check_salt_isolation master_secret master epoch k = not (
      pool_eq (pool_at master_secret (replicate salt_len 0xAA) master epoch k)
        (pool_at master_secret (replicate salt_len 0xBB) master epoch k))

  result : CheckName → Bool → CheckResult
  result name passed = record { name = name; passed = passed }

  unfoldable pub run_checklist : HydraConfig fl.F → ChecklistReport
  unfolding result check_pool_determinism check_epoch_window check_epoch_window_saturation
      check_k_clamping check_salt_isolation check_epoch_evolution check_pool_is_subset
      check_pool_size
  run_checklist cfg =
      let secret = cfg.master_secret in
      let salt = cfg.server_salt in
      let master = cfg.master_list in
      let k = cfg.active_k in
      record {
        results =
            result pool_determinism (check_pool_determinism secret salt master 42 k)
            ∷ result epoch_window_superset (check_epoch_window secret salt master 42 k)
            ∷ result epoch_window_saturation (check_epoch_window_saturation secret salt master k)
            ∷ result k_clamping (check_k_clamping secret salt master 42)
            ∷ result salt_isolation (check_salt_isolation secret master 42 k)
            ∷ result epoch_evolution (check_epoch_evolution secret salt master k)
            ∷ result pool_is_subset (check_pool_is_subset secret salt master 42 k)
            ∷ result pool_size (check_pool_size secret salt master 42 k)
            ∷ [];
      }
