-- ===== src/Tasks.antt =====
-- xtask/src/main.rs: the tasks that build, test, install and configure. The files are a table under the
-- paths as the process names them; what a started command does to them, and how it ends, is given, as is
-- what a captured one prints. What is printed on the way is left out.
pub mod Version
pub mod Install
pub mod Dispatch
pub mod Removed
pub mod Ran
pub mod Ordered
pub mod Installed
use reality_hydra.Base.{
  ℕ, Bool, true, false, List, [], ◌∷◌, ◌++◌, Bytes, ascii, Option, none, some, if◌then◌else◌,
  Result, ok, err, panic, Disk, FileTable, join,
}
use reality_hydra.Cli.Server.{parent}

pub data TaskError : Type 0 where
  no_launch : List Bytes → TaskError
  no_success : List Bytes → TaskError
  bad_version : Bytes → TaskError
  old_version : ℕ → ℕ → TaskError
  no_directory : Bytes → TaskError
  not_built : Bytes → TaskError
  no_copy : Bytes → TaskError
  no_removal : Bytes → TaskError

-- The options that all tasks share.
pub record Options : Type 0 where
  pub features : Option Bytes
  pub install_dir : Option Bytes
  pub config_dir : Option Bytes
  pub skip_tests : Bool
  pub skip_build : Bool

pub data Task : Type 0 where
  do_check : Task
  do_build : Task
  do_test : Task
  do_install : Task
  do_config : Task
  do_uninstall : Task
  do_status : Task
  do_all : Task

-- The process's surroundings. `runs` has `none` for a command that does not start, else whether it
-- succeeds; `prints` the same for a captured one, with its output as text.
pub record Workspace : Type 0 where
  pub home_var : Option Bytes
  pub user_profile : Option Bytes
  pub manifest_dir : Bytes
  pub exe_suffix : Bytes
  pub disk : Disk
  pub can_remove : Bytes → Bool
  pub runs : List Bytes → FileTable → FileTable × Option Bool
  pub prints : List Bytes → Option (Bool × Bytes)

-- The files and the commands started so far.
pub record Site : Type 0 where
  pub files : FileTable
  pub ran : List (List Bytes)

abbrev pub TaskStep : Type 0 → Type 0
TaskStep A = Site × Result TaskError A

-- `?` after a step.
unfoldable pub after_success : {A B : Type 0} → TaskStep A → (Site → A → TaskStep B) → TaskStep B
after_success (s, ok a) k = k s a
after_success (s, err e) k = (s, err e)
after_success (s, panic) k = (s, panic)

-- `BINS`
abbrev pub bins : List Bytes
bins = ascii "hydra" ∷ ascii "hydra-client" ∷ []

given_or : Option Bytes → Bytes → Bytes
given_or none other = other
given_or (some a) other = a

first_of : Option Bytes → Option Bytes → Option Bytes
first_of none other = other
first_of (some a) other = some a

unfoldable pub home : Workspace → Bytes
unfolding given_or first_of ascii
home host = given_or (first_of host.home_var host.user_profile) (ascii ".")

unfoldable pub install_dir_of : Workspace → Options → Bytes
unfolding given_or home
install_dir_of host o =
    given_or o.install_dir (join (join (home host) (ascii ".local")) (ascii "bin"))

unfoldable pub config_dir_of : Workspace → Options → Bytes
unfolding given_or home
config_dir_of host o =
    given_or o.config_dir (join (join (home host) (ascii ".config")) (ascii "hydra"))

unfoldable pub config_path : Workspace → Options → Bytes
unfolding config_dir_of
config_path host o = join (config_dir_of host o) (ascii "hydra.toml")

unfoldable pub repo_root : Workspace → Bytes
unfolding given_or parent
repo_root host = given_or (parent host.manifest_dir) (ascii ".")

-- "target/release" under the root, and there the file of a binary.
unfoldable pub release_path : Workspace → Bytes → Bytes
unfolding repo_root
release_path host bin =
    join (join (join (repo_root host) (ascii "target")) (ascii "release")) (bin ++ host.exe_suffix)

unfoldable pub installed_path : Workspace → Options → Bytes → Bytes
unfolding install_dir_of
installed_path host o bin = join (install_dir_of host o) (bin ++ host.exe_suffix)

ended_run : Site → List Bytes → FileTable × Option Bool → TaskStep (Unit {0})
ended_run s cmd (files, none) = (s, err (no_launch cmd))
ended_run s cmd (files, some true) = (record { files = files; ran = s.ran ++ (cmd ∷ []) }, ok tt)
ended_run s cmd (files, some false) =
    (record { files = files; ran = s.ran ++ (cmd ∷ []) }, err (no_success cmd))

-- The program and its arguments are one list.
unfoldable pub run_task_command : Workspace → List Bytes → Site → TaskStep (Unit {0})
unfolding ended_run
run_task_command host cmd s = ended_run s cmd (host.runs cmd s.files)

captured : List Bytes → Option (Bool × Bytes) → Result TaskError Bytes
captured cmd none = err (no_launch cmd)
captured cmd (some (true, text)) = ok text
captured cmd (some (false, text)) = err (no_success cmd)

unfoldable pub capture : Workspace → List Bytes → Result TaskError Bytes
unfolding captured
capture host cmd = captured cmd (host.prints cmd)
