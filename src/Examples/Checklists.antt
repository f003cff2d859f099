-- ===== src/Examples/Checklists.antt =====
-- The checks of the example's configuration, and of its list with both SNIs active.
use reality_hydra.Base.{ℕ, ◌==◌, ==_self, Bool, All}
use reality_hydra.Hardening.{failures, run_checklist}
use reality_hydra.Hardening.Passing.{IsChance, run_checklist-failures}
use reality_hydra.Examples.Fixtures.{checksum_hmac, whole_floats, counter}
use reality_hydra.Examples.Settings.{plain_decoder, raw, checked, accepted}

abbrev same : ℕ → ℕ → Bool
same a b = a == b

run_checklist-failures_example :
    All
      (IsChance whole_floats counter checksum_hmac same)
      (failures (run_checklist whole_floats counter checksum_hmac same checked))
run_checklist-failures_example =
    run_checklist-failures whole_floats counter checksum_hmac same plain_decoder raw checked
      accepted (λ x finite. ==_self x)
