-- ===== src/Hardening/Distribution/Unlisted.antt =====
-- What the chi-square test reads of the observations.
use reality_hydra.Base.{
  ℕ, ◌+◌, ◌%◌, ◌^◌, ◌≡◌, refl, ap, ◌∙◌, true, false, List, [], ◌∷◌, Bytes, StringMap, get, put,
  get-put_other, All, text_eq,
}
use reality_hydra.Pool.{Floats}
use reality_hydra.Hardening.Metrics.{or_zero}
use reality_hydra.Hardening.Distribution.{
  Conversions, SampleEntry, observed, sum_weights, sum_observed, deviations, chi_square_of,
  chi_square, distribution_matches_weights,
}

module _ (fl : Floats) (conv : Conversions fl.F) where
  sum_observed_same :
      (acc : ℕ) (counts other : StringMap ℕ) (es : List (SampleEntry fl.F))
      → All (λ (e : SampleEntry fl.F). observed other e.label ≡ observed counts e.label) es
      → sum_observed fl conv acc other es ≡ sum_observed fl conv acc counts es
  unfolding sum_observed
  sum_observed_same acc counts other [] same = refl
  sum_observed_same acc counts other (e ∷ es) same =
      rw same.0
        (sum_observed_same ((acc + observed counts e.label) % 2 ^ 64) counts other es same.1)

  deviations_same :
      (counts other : StringMap ℕ) (obs weight : fl.F) (es : List (SampleEntry fl.F))
      (chi_sq : fl.F)
      → All (λ (e : SampleEntry fl.F). observed other e.label ≡ observed counts e.label) es
      → deviations fl conv chi_sq other obs weight es
        ≡ deviations fl conv chi_sq counts obs weight es
  unfolding deviations
  deviations_same counts other obs weight [] chi_sq same = refl
  deviations_same counts other obs weight (e ∷ es) chi_sq same =
      rw same.0 (deviations_same counts other obs weight es _ same.1)

  observed-put :
      (counts : StringMap ℕ) (label : Bytes) (n : ℕ) (es : List (SampleEntry fl.F))
      → All (λ (e : SampleEntry fl.F). text_eq label e.label ≡ false) es
      → All
          (λ (e : SampleEntry fl.F).
            observed (put counts label n) e.label ≡ observed counts e.label)
          es
  unfolding observed
  observed-put counts label n [] apart = tt
  observed-put counts label n (e ∷ es) apart = (
    ap or_zero (get-put_other counts label e.label n apart.0),
    observed-put counts label n es apart.1,
  )

  chi_square-put :
      (counts : StringMap ℕ) (label : Bytes) (n : ℕ) (es : List (SampleEntry fl.F))
      → All (λ (e : SampleEntry fl.F). text_eq label e.label ≡ false) es
      → chi_square fl conv (put counts label n) es ≡ chi_square fl conv counts es
  unfolding chi_square chi_square_of
  chi_square-put counts label n es apart =
      let same = observed-put counts label n es apart in
      rw
        (
          sum_observed_same 0 counts (put counts label n) es same,
          deviations_same counts (put counts label n)
              (conv.as_f64 (sum_observed fl conv 0 counts es)) (sum_weights fl conv fl.zero_f es) es
              fl.zero_f same,
        )
        refl

  sum_observed-nil : (es : List (SampleEntry fl.F)) → sum_observed fl conv 0 [] es ≡ 0
  unfolding sum_observed observed get or_zero
  sum_observed-nil [] = refl
  sum_observed-nil (e ∷ es) = sum_observed-nil es

  matches-nil : (es : List (SampleEntry fl.F)) → distribution_matches_weights fl conv [] es ≡ true
  unfolding distribution_matches_weights chi_square chi_square_of
  matches-nil es = rw (sum_observed-nil es) refl

  matches-chi_square :
      (counts other : StringMap ℕ) (es : List (SampleEntry fl.F))
      → chi_square fl conv other es ≡ chi_square fl conv counts es
      → distribution_matches_weights fl conv other es
        ≡ distribution_matches_weights fl conv counts es
  unfolding distribution_matches_weights
  matches-chi_square counts other es same = rw same refl

  -- The observations of a label that no entry has, however many, do not change the statistic and so
  -- not the verdict; and where that label alone was observed, the verdict is that the selection
  -- matches the weights.
  pub chi_square_unlisted :
      (counts : StringMap ℕ) (entries : List (SampleEntry fl.F)) (label : Bytes) (n : ℕ)
      → All (λ (e : SampleEntry fl.F). text_eq label e.label ≡ false) entries
      → (chi_square fl conv (put counts label n) entries ≡ chi_square fl conv counts entries)
        × (distribution_matches_weights fl conv (put counts label n) entries
            ≡ distribution_matches_weights fl conv counts entries)
        × (distribution_matches_weights fl conv (put [] label n) entries ≡ true)
  chi_square_unlisted counts entries label n apart = (
    chi_square-put counts label n entries apart,
    matches-chi_square counts _ entries (chi_square-put counts label n entries apart),
    matches-chi_square [] _ entries (chi_square-put [] label n entries apart) ∙ matches-nil entries,
  )
