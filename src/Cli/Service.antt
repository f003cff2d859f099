-- ===== src/Cli/Service.antt =====
-- crates/hydra-cli/src/service.rs as built for Linux: the unit files and what `install` and
-- `uninstall` do to the machine. The file system and the commands are given by what they answer; a
-- write takes effect as a whole or not at all.
pub mod Removed
pub mod Platform
use reality_hydra.Base.{
  Bool, true, List, [], ◌∷◌, ◌++◌, Bytes, ascii, text_eq, Option, none, some, StringMap, put, join,
  if◌then◌else◌, Result, ok, err, panic,
}

pub data Role : Type 0 where
  client : Role
  server : Role

pub record ServiceSpec : Type 0 where
  pub role : Role
  pub config : Bytes
  pub listen : Bytes
  pub schedule : Bytes
  pub name : Option Bytes
  pub bin : Option Bytes

-- A command is its program and its arguments.
pub data CliError : Type 0 where
  io_failed : Bytes → CliError
  service_failed : List Bytes → CliError
  service_text_error : Bytes → CliError
  already_exists : Bytes → CliError

default_name : Role → Bytes
default_name client = ascii "hydra-client"
default_name server = ascii "hydra-server"

unwrap_or : Option Bytes → Bytes → Bytes
unwrap_or none other = other
unwrap_or (some a) other = a

unfoldable pub service_name : ServiceSpec → Bytes
unfolding unwrap_or default_name
service_name spec = unwrap_or spec.name (default_name spec.role)

-- `current_exe`, if there is one in UTF-8, is an argument.
unfoldable pub bin_path : Option Bytes → ServiceSpec → Bytes
unfolding unwrap_or
bin_path current_exe spec = unwrap_or spec.bin (unwrap_or current_exe (ascii "hydra"))

unfoldable pub service_text : Role → Bytes → Bytes → Bytes → Bytes
service_text client bin cfg listen =
    ascii "[Unit]\nDescription=REALITY-Hydra SOCKS5 client\nAfter=network-online.target\n"
    ++ ascii "Wants=network-online.target\n\n[Service]\nExecStart="
    ++ bin
    ++ ascii " serve --config "
    ++ cfg
    ++ ascii " --listen "
    ++ listen
    ++ ascii "\nRestart=on-failure\nRestartSec=3\nDynamicUser=yes\n\n"
    ++ ascii "[Install]\nWantedBy=multi-user.target\n"
service_text server bin cfg listen =
    ascii "[Unit]\nDescription=REALITY-Hydra epoch serverNames refresh\n\n"
    ++ ascii "[Service]\nType=oneshot\n"
    ++ ascii "# Regenerate the accepted serverNames for the current epoch. Wire your\n"
    ++ ascii "# own Xray reload after this (e.g. ExecStartPost=systemctl reload xray).\n"
    ++ ascii "ExecStart="
    ++ bin
    ++ ascii " server-names --config "
    ++ cfg
    ++ ascii " --format xray\n"

unfoldable pub systemd_service : Option Bytes → ServiceSpec → Bytes
unfolding service_text bin_path
systemd_service current_exe spec =
    service_text spec.role (bin_path current_exe spec) spec.config spec.listen

unfoldable pub systemd_timer : ServiceSpec → Bytes
unfolding service_name
systemd_timer spec =
    ascii "[Unit]\nDescription=Run "
    ++ service_name spec
    ++ ascii " on the epoch schedule\n\n[Timer]\nOnCalendar="
    ++ spec.schedule
    ++ ascii "\nPersistent=true\n\n[Install]\nWantedBy=timers.target\n"

timer_part : Role → Bytes → Bytes → Bytes
timer_part client name timer = []
timer_part server name timer = ascii "\n# /etc/systemd/system/" ++ name ++ ascii ".timer\n" ++ timer

-- `render` for Linux.
unfoldable pub render : Option Bytes → ServiceSpec → Bytes
unfolding timer_part systemd_service systemd_timer service_name
render current_exe spec =
    ascii "# /etc/systemd/system/"
    ++ service_name spec
    ++ ascii ".service\n"
    ++ systemd_service current_exe spec
    ++ timer_part spec.role (service_name spec) (systemd_timer spec)

-- The files, and the commands that were started.
pub record Machine : Type 0 where
  pub files : StringMap Bytes
  pub ran : List (List Bytes)

-- What the machine allows, and what the commands that it starts do to the files.
pub record Rights : Type 0 where
  pub can_write : Bytes → Bool
  pub can_remove : Bytes → Bool
  pub succeeds : List Bytes → Bool
  pub effect : List Bytes → StringMap Bytes → StringMap Bytes

abbrev pub Step : Type 0
Step = Machine × Result CliError (Unit {0})

-- `?` after a step.
abbrev pub and_then {ℓ} :
    {A : Type ℓ} → Step → (Machine → Machine × Result CliError A) → Machine × Result CliError A
and_then (m, ok _) k = k m
and_then (m, err e) k = (m, err e)
and_then (m, panic) k = (m, panic)

unfoldable pub delete : StringMap Bytes → Bytes → StringMap Bytes
delete [] key = []
delete ((k, v) ∷ m) key = if text_eq k key then delete m key else (k, v) ∷ delete m key

abbrev pub unit_dir : Bytes
unit_dir = ascii "/etc/systemd/system"

abbrev pub daemon_reload : List Bytes
daemon_reload = ascii "systemctl" ∷ ascii "daemon-reload" ∷ []

module _ (rights : Rights) where
  unfoldable pub write_unit : Bytes → Bytes → Machine → Step
  write_unit path contents m =
      if rights.can_write path
      then (record { files = put m.files path contents; ran = m.ran }, ok tt)
      else (m, err (io_failed path))

  unfoldable pub run_cmd : List Bytes → Machine → Step
  run_cmd cmd m = (
    record { files = rights.effect cmd m.files; ran = m.ran ++ (cmd ∷ []) },
    if rights.succeeds cmd then ok tt else err (service_failed cmd),
  )

  -- `let _ = std::fs::remove_file(…)`
  unfoldable pub remove_file : Bytes → Machine → Machine
  remove_file path m =
      if rights.can_remove path then record { files = delete m.files path; ran = m.ran } else m

  enable : Bytes → Machine → Machine × Result CliError Bytes
  unfolding run_cmd
  enable unit m = and_then (run_cmd daemon_reload m) (λ m₁.
      and_then (run_cmd (ascii "systemctl" ∷ ascii "enable" ∷ ascii "--now" ∷ unit ∷ []) m₁)
        (λ m₂. (m₂, ok (ascii "Installed and started " ++ unit))))

  -- From the service's unit file on.
  unfoldable pub install_role : Role → Bytes → Bytes → Machine → Machine × Result CliError Bytes
  unfolding enable write_unit join
  install_role client name timer m = enable (name ++ ascii ".service") m
  install_role server name timer m =
      and_then (write_unit (join unit_dir (name ++ ascii ".timer")) timer m)
        (λ m₁. enable (name ++ ascii ".timer") m₁)

  unfoldable pub install : Option Bytes → ServiceSpec → Machine → Machine × Result CliError Bytes
  unfolding install_role systemd_service systemd_timer service_name write_unit join
  install current_exe spec m =
      let name = service_name spec in
      and_then
        (write_unit (join unit_dir (name ++ ascii ".service")) (systemd_service current_exe spec) m)
        (λ m₁. install_role spec.role name (systemd_timer spec) m₁)

  unit_of : Role → Bytes → Bytes
  unit_of client name = name ++ ascii ".service"
  unit_of server name = name ++ ascii ".timer"

  unfoldable pub uninstall : ServiceSpec → Machine → Machine × Result CliError Bytes
  unfolding unit_of run_cmd remove_file service_name
  uninstall spec m =
      let name = service_name spec in
      let disabled =
        (run_cmd (ascii "systemctl" ∷ ascii "disable" ∷ ascii "--now" ∷ unit_of spec.role name ∷ [])
          m).0 in
      let removed =
        remove_file (ascii "/etc/systemd/system/" ++ name ++ ascii ".timer")
          (remove_file (ascii "/etc/systemd/system/" ++ name ++ ascii ".service") disabled) in
      and_then (run_cmd daemon_reload removed) (λ m₁. (m₁, ok (ascii "Removed " ++ name)))
