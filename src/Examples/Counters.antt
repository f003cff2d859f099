-- ===== src/Examples/Counters.antt =====
-- The counters of the source's own test of snapshots, and a selection that left the listed names.
use reality_hydra.Base.{
  ◌+◌, ◌<◌, ◌^◌, All, ◌≡◌, refl, some, map, [], ◌∷◌, List, ascii, text_eq, arith,
}
use reality_hydra.Hardening.Metrics.{all_names}
use reality_hydra.Hardening.Metrics.Delta.{
  Count, inc_of, add_of, total, is_in, AreKnown, measured_after, measured_after-total,
}

abbrev prior : List Count
prior = inc_of (ascii "selections") ∷ []

abbrev later : List Count
later = add_of (ascii "selections") 7 ∷ inc_of (ascii "tls_handshakes") ∷ []

prior-AreKnown : AreKnown prior
unfolding all_names is_in text_eq
prior-AreKnown = (refl, tt)

later-AreKnown : AreKnown later
unfolding all_names is_in text_eq
later-AreKnown = (refl, (refl, tt))

fits : All (λ name. total prior name + total later name < 2 ^ 64) all_names
unfolding all_names total text_eq
fits = ground arith

measured_after-total_example :
    measured_after prior later ≡ some (map (λ name. (name, total later name)) all_names)
measured_after-total_example = measured_after-total prior later prior-AreKnown later-AreKnown fits
