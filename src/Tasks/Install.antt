-- ===== src/Tasks/Install.antt =====
-- xtask/src/main.rs: `install`, `config` and `uninstall`.
use reality_hydra.Base.{
  Bool, true, false, List, [], ◌∷◌, Bytes, ascii, Option, none, some, if◌then◌else◌, ok, err,
  FileTable, text_eq, exists, read_file, write_file,
}
use reality_hydra.Cli.Service.{delete}
use reality_hydra.Tasks.{
  no_directory, not_built, no_copy, no_removal, Options, Workspace, Site, TaskStep, after_success,
  bins, install_dir_of, config_dir_of, config_path, release_path, installed_path, run_task_command,
}

unfoldable pub make_dir : Workspace → Bytes → Site → TaskStep (Unit {0})
make_dir host dir s = (s, if host.disk.can_make dir then ok tt else err (no_directory dir))

unfoldable pub ended_copy : Site → Bytes → FileTable × Bool → TaskStep (Unit {0})
ended_copy s src (files, true) = (record { files = files; ran = s.ran }, ok tt)
ended_copy s src (files, false) = (record { files = files; ran = s.ran }, err (no_copy src))

unfoldable pub copy_contents : Workspace → Bytes → Bytes → Site → Option Bytes → TaskStep (Unit {0})
unfolding ended_copy write_file
copy_contents host src dst s none = (s, err (no_copy src))
copy_contents host src dst s (some contents) =
    ended_copy s src (write_file host.disk s.files dst (if text_eq src dst then [] else contents))

-- `std::fs::copy`; the destination is cut before the first read, so a file copied onto itself is empty.
unfoldable pub copy : Workspace → Bytes → Bytes → Site → TaskStep (Unit {0})
unfolding copy_contents read_file
copy host src dst s = copy_contents host src dst s (read_file host.disk s.files src)

unfoldable pub install_bin : Workspace → Options → Bytes → Site → TaskStep (Unit {0})
unfolding copy exists release_path installed_path
install_bin host o bin s =
    if exists s.files (release_path host bin)
    then copy host (release_path host bin) (installed_path host o bin) s
    else (s, err (not_built (release_path host bin)))

-- The loop of `install`.
unfoldable pub install_each : Workspace → Options → List Bytes → Site → TaskStep (Unit {0})
unfolding install_bin after_success
install_each host o [] s = (s, ok tt)
install_each host o (bin ∷ later) s =
    after_success (install_bin host o bin s) (λ s1 done. install_each host o later s1)

-- `install`; the warning on the PATH is left out.
unfoldable pub install_bins : Workspace → Options → Site → TaskStep (Unit {0})
unfolding install_each make_dir after_success install_dir_of ascii
install_bins host o s =
    after_success (make_dir host (install_dir_of host o) s) (λ s1 done. install_each host o bins s1)

-- The installed `hydra`, or the built one.
unfoldable pub hydra_path : Workspace → Options → Site → Bytes
unfolding exists release_path installed_path ascii
hydra_path host o s =
    if exists s.files (installed_path host o (ascii "hydra"))
    then installed_path host o (ascii "hydra")
    else release_path host (ascii "hydra")

-- `config`
unfoldable pub generate_config : Workspace → Options → Site → TaskStep (Unit {0})
unfolding make_dir after_success config_dir_of config_path exists hydra_path run_task_command ascii
generate_config host o s = after_success (make_dir host (config_dir_of host o) s) (λ s1 done.
    if exists s1.files (config_path host o)
    then (s1, ok tt)
    else run_task_command host
        (hydra_path host o s1 ∷ ascii "init" ∷ ascii "--output" ∷ config_path host o ∷ []) s1)

-- A file that is there is removed, or the task fails; the answer is whether it was there.
unfoldable pub remove_existing : Workspace → Bytes → Site → TaskStep Bool
unfolding exists delete
remove_existing host path s =
    if exists s.files path
    then (if host.can_remove path
        then (record { files = delete s.files path; ran = s.ran }, ok true)
        else (s, err (no_removal path)))
    else (s, ok false)

unfoldable pub remove_each : Workspace → List Bytes → Site → TaskStep (Unit {0})
unfolding remove_existing after_success
remove_each host [] s = (s, ok tt)
remove_each host (path ∷ later) s =
    after_success (remove_existing host path s) (λ s1 removed. remove_each host later s1)

-- What `uninstall` removes, in order.
unfoldable pub removed_paths : Workspace → Options → List Bytes
unfolding installed_path config_path ascii
removed_paths host o =
    installed_path host o (ascii "hydra")
    ∷ installed_path host o (ascii "hydra-client")
    ∷ config_path host o
    ∷ []

-- `uninstall`
unfoldable pub uninstall_bins : Workspace → Options → Site → TaskStep (Unit {0})
unfolding remove_each removed_paths
uninstall_bins host o s = remove_each host (removed_paths host o) s
