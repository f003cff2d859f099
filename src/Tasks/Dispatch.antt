-- ===== src/Tasks/Dispatch.antt =====
-- xtask/src/main.rs: `check`, `build`, `test`, and `dispatch`, which puts the tasks in order.
use reality_hydra.Base.{
  ℕ, Bool, true, false, List, [], ◌∷◌, Bytes, ascii, Option, none, some, if◌then◌else◌, Result, ok,
  err, panic,
}
use reality_hydra.Tasks.{
  TaskError, bad_version, old_version, Options, Task, do_check, do_build, do_test, do_install,
  do_config, do_uninstall, do_status, do_all, Workspace, Site, TaskStep, after_success,
  run_task_command, capture,
}
use reality_hydra.Tasks.Install.{install_bins, generate_config, uninstall_bins}
use reality_hydra.Tasks.Version.{parse_semver, too_old}

unfoldable pub on_version :
    Site → Bytes → Option (ℕ × ℕ) → Result TaskError Bytes → TaskStep (Unit {0})
unfolding too_old
on_version s text none cargo = (s, err (bad_version text))
on_version s text (some (maj, min)) (ok shown) =
    (s, if too_old maj min then err (old_version maj min) else ok tt)
on_version s text (some (maj, min)) (err e) =
    (s, if too_old maj min then err (old_version maj min) else err e)
on_version s text (some (maj, min)) panic = (s, panic)

unfoldable pub on_rustc : Workspace → Site → Result TaskError Bytes → TaskStep (Unit {0})
unfolding on_version capture parse_semver ascii
on_rustc host s (ok text) =
    on_version s text (parse_semver text) (capture host (ascii "cargo" ∷ ascii "--version" ∷ []))
on_rustc host s (err e) = (s, err e)
on_rustc host s panic = (s, panic)

-- `check`
unfoldable pub check_toolchain : Workspace → Site → TaskStep (Unit {0})
unfolding on_rustc capture ascii
check_toolchain host s = on_rustc host s (capture host (ascii "rustc" ∷ ascii "--version" ∷ []))

feature_args : Option Bytes → List Bytes
unfolding ascii
feature_args none = []
feature_args (some []) = []
feature_args (some (c ∷ fs)) = ascii "--features" ∷ (c ∷ fs) ∷ []

unfoldable pub build_command : Options → List Bytes
unfolding feature_args ascii
build_command o =
    ascii "cargo"
    ∷ ascii "build"
    ∷ ascii "--release"
    ∷ ascii "--workspace"
    ∷ feature_args o.features

-- `build`
unfoldable pub build_workspace : Workspace → Options → Site → TaskStep (Unit {0})
unfolding build_command run_task_command
build_workspace host o s = run_task_command host (build_command o) s

abbrev pub test_command : List Bytes
test_command = ascii "cargo" ∷ ascii "test" ∷ ascii "--workspace" ∷ []

abbrev pub clippy_command : List Bytes
clippy_command =
    ascii "cargo"
    ∷ ascii "clippy"
    ∷ ascii "--all-targets"
    ∷ ascii "--"
    ∷ ascii "-D"
    ∷ ascii "warnings"
    ∷ []

abbrev pub fmt_command : List Bytes
fmt_command = ascii "cargo" ∷ ascii "fmt" ∷ ascii "--all" ∷ ascii "--check" ∷ []

-- `test`
unfoldable pub run_tests : Workspace → Site → TaskStep (Unit {0})
unfolding run_task_command after_success ascii
run_tests host s = after_success (run_task_command host test_command s) (λ s1 done.
    after_success (run_task_command host clippy_command s1)
      (λ s2 done'. run_task_command host fmt_command s2))

-- A step that an option may skip.
unfoldable pub skipping : Bool → (Site → TaskStep (Unit {0})) → Site → TaskStep (Unit {0})
skipping true step s = (s, ok tt)
skipping false step s = step s

-- `All`
unfoldable pub run_all : Workspace → Options → Site → TaskStep (Unit {0})
unfolding skipping after_success check_toolchain build_workspace run_tests install_bins
    generate_config
run_all host o s = after_success (check_toolchain host s) (λ s1 checked.
    after_success (skipping o.skip_build (build_workspace host o) s1) (λ s2 built.
      after_success (skipping o.skip_tests (run_tests host) s2) (λ s3 tested.
        after_success (install_bins host o s3) (λ s4 installed. generate_config host o s4))))

-- `dispatch`; `status` only prints.
unfoldable pub dispatch_task : Workspace → Options → Task → Site → TaskStep (Unit {0})
unfolding run_all check_toolchain build_workspace run_tests install_bins generate_config
    uninstall_bins
dispatch_task host o do_check s = check_toolchain host s
dispatch_task host o do_build s = build_workspace host o s
dispatch_task host o do_test s = run_tests host s
dispatch_task host o do_install s = install_bins host o s
dispatch_task host o do_config s = generate_config host o s
dispatch_task host o do_uninstall s = uninstall_bins host o s
dispatch_task host o do_status s = (s, ok tt)
dispatch_task host o do_all s = run_all host o s
