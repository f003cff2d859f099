-- ===== src/Tasks/Ordered.antt =====
-- What stands behind a success of `all`.
use reality_hydra.Base.{
  ℕ, ◌≤◌, ◌<◌, ◌≡◌, ◌⊎◌, List, [], ◌∷◌, ◌++◌, Bytes, ascii, some, ok, if◌then◌else◌,
}
use reality_hydra.Tasks.{Options, Workspace, capture}
use reality_hydra.Tasks.Dispatch.{build_command, test_command, clippy_command, fmt_command}
use reality_hydra.Tasks.Version.{parse_semver}

-- A success of `check` changes nothing and has read a version that is not too old.
abbrev pub IsCurrent : Workspace → Type 0
IsCurrent host =
    (text : Bytes) × (maj : ℕ) × (min : ℕ) × (capture host (ascii "rustc" ∷ ascii "--version" ∷ [])
      ≡ ok text)
    × (parse_semver text ≡ some (maj, min))
    × ((1 < maj) ⊎ ((maj ≡ 1) × (88 ≤ min)))

-- What `all` starts before it installs.
unfoldable pub planned : Options → List (List Bytes)
planned o =
    (if o.skip_build then [] else build_command o ∷ [])
    ++ (if o.skip_tests then [] else test_command ∷ clippy_command ∷ fmt_command ∷ [])
