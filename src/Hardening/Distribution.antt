-- ===== src/Hardening/Distribution.antt =====
-- crates/hardening/src/distribution.rs: the chi-square test of observed selections against weights, as
-- built for release, where the sum of the observations wraps. `f64` is the parameter of `Pool` with the
-- conversions and functions used here beside it.
pub mod Unlisted
use reality_hydra.Base.{
  ℕ, zero, suc, ◌+◌, ◌-◌, ◌%◌, ◌^◌, Option, none, some, Bool, true, ◌||◌, List, [], ◌∷◌, Bytes,
  StringMap, get, length, get_elem?, ◌==◌, if◌then◌else◌,
}
use reality_hydra.Pool.{Floats}
use reality_hydra.Hardening.Metrics.{or_zero}

-- `as f64` of an integer, the literal nearest to so many thousandths, `powi(2)` and `sqrt`.
pub record Conversions (F : Type 0) : Type 0 where
  pub as_f64 : ℕ → F
  pub thousandths : ℕ → F
  pub squared : F → F
  pub sqrt : F → F

pub record SampleEntry (F : Type 0) : Type 0 where
  pub label : Bytes
  pub weight : F

-- The table of critical values for 1 to 20 degrees of freedom, in thousandths.
abbrev pub critical_values : List ℕ
critical_values =
    6635 ∷ 9210 ∷ 11345 ∷ 13277 ∷ 15086 ∷ 16812 ∷ 18475 ∷ 20090 ∷ 21666 ∷ 23209 ∷ 24725 ∷ 26217
    ∷ 27688 ∷ 29141 ∷ 30578 ∷ 32000 ∷ 33409 ∷ 34805 ∷ 36191 ∷ 37566 ∷ []

-- `counts.get(&label).copied().unwrap_or(0)`
unfoldable pub observed : StringMap ℕ → Bytes → ℕ
unfolding or_zero
observed counts label = or_zero (get counts label)

module _ (fl : Floats) (conv : Conversions fl.F) where
  unfoldable pub sum_weights : fl.F → List (SampleEntry fl.F) → fl.F
  sum_weights acc [] = acc
  sum_weights acc (e ∷ es) = sum_weights (fl.add acc e.weight) es

  unfoldable pub sum_observed : ℕ → StringMap ℕ → List (SampleEntry fl.F) → ℕ
  unfolding observed
  sum_observed acc counts [] = acc
  sum_observed acc counts (e ∷ es) =
      sum_observed ((acc + observed counts e.label) % 2 ^ 64) counts es

  -- One round of the loop: the count and the expected count.
  unfoldable pub deviation : fl.F → fl.F → fl.F → fl.F
  deviation chi_sq seen expected =
      if fl.lt fl.zero_f expected
      then fl.add chi_sq (fl.div (conv.squared (fl.sub seen expected)) expected)
      else chi_sq

  unfoldable pub deviations : fl.F → StringMap ℕ → fl.F → fl.F → List (SampleEntry fl.F) → fl.F
  unfolding observed deviation
  deviations chi_sq counts total_obs_f total_weight [] = chi_sq
  deviations chi_sq counts total_obs_f total_weight (e ∷ es) =
      deviations
        (deviation chi_sq (conv.as_f64 (observed counts e.label))
          (fl.mul total_obs_f (fl.div e.weight total_weight)))
        counts total_obs_f total_weight es

  -- From the two sums on.
  unfoldable pub chi_square_of : StringMap ℕ → List (SampleEntry fl.F) → fl.F → ℕ → fl.F × ℕ
  unfolding deviations
  chi_square_of counts entries total_weight total_obs =
      if (total_obs == 0) || fl.le total_weight fl.zero_f then (fl.zero_f, 0) else (
        deviations fl.zero_f counts (conv.as_f64 total_obs) total_weight entries,
        length entries - 1,
      )

  unfoldable pub chi_square : StringMap ℕ → List (SampleEntry fl.F) → fl.F × ℕ
  unfolding sum_weights sum_observed chi_square_of
  chi_square counts entries =
      chi_square_of counts entries (sum_weights fl.zero_f entries) (sum_observed 0 counts entries)

  unfoldable pub from_table : ℕ → Option ℕ → fl.F
  from_table dof (some v) = conv.thousandths v
  from_table dof none = fl.add (conv.as_f64 dof) (
      fl.mul (conv.thousandths 4000) (conv.sqrt (fl.mul (conv.thousandths 2000) (conv.as_f64 dof))))

  unfoldable pub critical_value_001 : ℕ → fl.F
  unfolding from_table
  critical_value_001 zero = from_table 0 none
  critical_value_001 (suc n) = from_table (suc n) (get_elem? critical_values n)

  unfoldable pub distribution_matches_weights : StringMap ℕ → List (SampleEntry fl.F) → Bool
  unfolding chi_square critical_value_001
  distribution_matches_weights counts entries =
      let result = chi_square counts entries in
      if result.1 == 0 then true else fl.le result.0 (critical_value_001 result.1)
