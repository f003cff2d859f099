-- ===== src/Cli/Service/Platform.antt =====
-- crates/hydra-cli/src/service.rs on every system it is built for, and `run`. The Linux parts are those
-- of `Cli.Service`.
use reality_hydra.Base.{List, [], ◌∷◌, ◌++◌, Bytes, ascii, Option, Result, ok, err}
use reality_hydra.Cli.Service.{
  CliError, service_text_error, Role, client, server, ServiceSpec, service_name, bin_path,
  systemd_service, render, Machine, Rights, and_then, run_cmd, install, uninstall,
}

-- `cfg!(target_os = …)`
pub data Os : Type 0 where
  linux : Os
  windows : Os
  other : Os

-- The command does not look at the role.
unfoldable pub schtasks_command : Option Bytes → ServiceSpec → Bytes
unfolding service_name bin_path
schtasks_command current_exe spec =
    ascii "schtasks /Create /TN "
    ++ service_name spec
    ++ ascii " /SC ONLOGON /RL HIGHEST /TR \"'"
    ++ bin_path current_exe spec
    ++ ascii "' serve --config '"
    ++ spec.config
    ++ ascii "' --listen "
    ++ spec.listen
    ++ ascii "\""

unfoldable pub render_on : Os → Option Bytes → ServiceSpec → Bytes
unfolding render schtasks_command systemd_service
render_on linux current_exe spec = render current_exe spec
render_on windows current_exe spec =
    ascii "REM Create the scheduled task:\n" ++ schtasks_command current_exe spec ++ ascii "\n"
render_on other current_exe spec =
    ascii "# Unsupported OS for automatic install. systemd equivalent:\n"
    ++ systemd_service current_exe spec

-- The arguments of the task's creation and of its removal.
abbrev pub create_task : Bytes → Bytes → List Bytes
create_task name tr =
    ascii "schtasks"
    ∷ ascii "/Create"
    ∷ ascii "/F"
    ∷ ascii "/TN"
    ∷ name
    ∷ ascii "/SC"
    ∷ ascii "ONLOGON"
    ∷ ascii "/RL"
    ∷ ascii "HIGHEST"
    ∷ ascii "/TR"
    ∷ tr
    ∷ []

abbrev pub delete_task : Bytes → List Bytes
delete_task name = ascii "schtasks" ∷ ascii "/Delete" ∷ ascii "/F" ∷ ascii "/TN" ∷ name ∷ []

-- What the task starts.
unfoldable pub task_run : Option Bytes → ServiceSpec → Bytes
unfolding bin_path
task_run current_exe spec =
    ascii "\""
    ++ bin_path current_exe spec
    ++ ascii "\" serve --config \""
    ++ spec.config
    ++ ascii "\" --listen "
    ++ spec.listen

pub data ServiceAction : Type 0 where
  print_it : ServiceSpec → ServiceAction
  install_it : ServiceSpec → ServiceAction
  uninstall_it : ServiceSpec → ServiceAction

module _ (rights : Rights) where
  -- `install` for Windows.
  install_task : Role → Option Bytes → ServiceSpec → Machine → Machine × Result CliError Bytes
  unfolding task_run run_cmd service_name
  install_task server current_exe spec m = (
    m,
    err (
        service_text_error
          (ascii "server role isn't supported as a Windows task; run it on the Linux server")),
  )
  install_task client current_exe spec m =
      and_then (run_cmd rights (create_task (service_name spec) (task_run current_exe spec)) m)
        (λ m₁. (m₁, ok (ascii "Created scheduled task " ++ service_name spec)))

  unfoldable pub install_on :
      Os → Option Bytes → ServiceSpec → Machine → Machine × Result CliError Bytes
  unfolding install install_task render_on
  install_on linux current_exe spec m = install rights current_exe spec m
  install_on windows current_exe spec m = install_task spec.role current_exe spec m
  install_on other current_exe spec m = (
    m,
    err (
        service_text_error (
          ascii "automatic install is unsupported on this OS; use the printed definition:\n"
          ++ render_on other current_exe spec)),
  )

  unfoldable pub uninstall_on : Os → ServiceSpec → Machine → Machine × Result CliError Bytes
  unfolding uninstall run_cmd service_name
  uninstall_on linux spec m = uninstall rights spec m
  uninstall_on windows spec m =
      and_then (run_cmd rights (delete_task (service_name spec)) m)
        (λ m₁. (m₁, ok (ascii "Deleted scheduled task " ++ service_name spec)))
  uninstall_on other spec m =
      (m, err (service_text_error (ascii "automatic uninstall is unsupported on this OS")))

  -- `run` of service.rs.
  unfoldable pub run_service :
      Os → Option Bytes → ServiceAction → Machine → Machine × Result CliError Bytes
  unfolding render_on install_on uninstall_on
  run_service os current_exe (print_it spec) m = (m, ok (render_on os current_exe spec))
  run_service os current_exe (install_it spec) m = install_on os current_exe spec m
  run_service os current_exe (uninstall_it spec) m = uninstall_on os spec m
