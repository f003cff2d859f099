-- ===== src/Cli/Service/Removed.antt =====
-- What is left on the machine of a service that was installed and uninstalled.
use reality_hydra.Base.{
  starts_slash, needs_no_slash, join, ◌≡◌, refl, sym, ap, ◌∙◌, inl, inr, true, false, List, [], ◌∷◌,
  ◌++◌, Bytes, ascii, text_eq, text_eq→eq, Bool-cases, Option, none, some, StringMap, get,
  get-put_other, if◌then◌else◌, Result,
}
use reality_hydra.Cli.Service.{
  CliError, Role, client, server, ServiceSpec, service_name, systemd_service, systemd_timer,
  Machine, Rights, and_then, delete, unit_dir, write_unit, run_cmd, remove_file, unit_of,
  daemon_reload, enable, install_role, install, uninstall,
}

pub get-delete : (m : StringMap Bytes) (key : Bytes) → get (delete m key) key ≡ none
unfolding get delete
get-delete [] key = refl
get-delete ((k, v) ∷ m) key = elim (Bool-cases (text_eq k key)) [
  | inl here ↦ rw here (get-delete m key)
  | inr other ↦ rw (other, other) (get-delete m key)
]

pub get-delete_other :
    (m : StringMap Bytes) (key p : Bytes) → text_eq key p ≡ false → get (delete m key) p ≡ get m p
unfolding get delete
get-delete_other [] key p apart = refl
get-delete_other ((k, v) ∷ m) key p apart = elim (Bool-cases (text_eq k key)) [
  | inl here ↦
      let not_p : text_eq k p ≡ false = ap (λ s. text_eq s p) (text_eq→eq k key here) ∙ apart in
      rw (here, not_p) (get-delete_other m key p apart)
  | inr other ↦
      rw other (ap (λ o. if text_eq k p then some v else o) (get-delete_other m key p apart))
]

pub get-delete_absent :
    (m : StringMap Bytes) (key p : Bytes) → get m p ≡ none → get (delete m key) p ≡ none
get-delete_absent m key p h = elim (Bool-cases (text_eq key p)) [
  | inl same ↦ ap (get (delete m key)) (sym (text_eq→eq key p same)) ∙ get-delete m key
  | inr apart ↦ get-delete_other m key p apart ∙ h
]

-- The path of a unit file, as `uninstall` writes it.
abbrev pub unit_path : Bytes → Bytes → Bytes
unit_path name suffix = ascii "/etc/systemd/system/" ++ name ++ suffix

join-unit_path :
    (name suffix : Bytes)
    → starts_slash name ≡ false
    → starts_slash suffix ≡ false
    → join unit_dir (name ++ suffix) ≡ unit_path name suffix
unfolding join ascii starts_slash needs_no_slash
join-unit_path [] suffix plain plain' = rw plain' refl
join-unit_path (b ∷ name) suffix plain plain' = rw plain refl

dot_service : starts_slash (ascii ".service") ≡ false
unfolding starts_slash ascii
dot_service = refl

dot_timer : starts_slash (ascii ".timer") ≡ false
unfolding starts_slash ascii
dot_timer = refl

module _ (rights : Rights) where
  -- None of the commands changes the file.
  abbrev pub Leaves : Bytes → Type 0
  Leaves p =
      (cmd : List Bytes) (files : StringMap Bytes) → get (rights.effect cmd files) p ≡ get files p

  enable-kept :
      (unit : Bytes) (m : Machine) (p : Bytes)
      → Leaves p
      → get (enable rights unit m).0.files p ≡ get m.files p
  unfolding enable run_cmd
  enable-kept unit m p leaves = elim (Bool-cases (rights.succeeds daemon_reload)) [
    | inr refused ↦ rw refused (leaves daemon_reload m.files)
    | inl reloaded ↦
        elim (Bool-cases
          (rights.succeeds (ascii "systemctl" ∷ ascii "enable" ∷ ascii "--now" ∷ unit ∷ []))) [
            | inr refused ↦ rw (reloaded, refused) (leaves _ _ ∙ leaves daemon_reload m.files)
            | inl done ↦ rw (reloaded, done) (leaves _ _ ∙ leaves daemon_reload m.files)
          ]
  ]

  write_unit-others :
      (path contents : Bytes) (m : Machine) (p : Bytes)
      → text_eq path p ≡ false
      → get (write_unit rights path contents m).0.files p ≡ get m.files p
  unfolding write_unit
  write_unit-others path contents m p apart = elim (Bool-cases (rights.can_write path)) [
    | inl can ↦ rw can (get-put_other m.files path p contents apart)
    | inr cannot ↦ rw cannot refl
  ]

  -- After a write, a failed one ends the command and leaves the files.
  written-others :
      (path contents : Bytes) (m : Machine) (p : Bytes)
      (k : Machine → Machine × Result CliError Bytes)
      → text_eq path p ≡ false
      → ((n : Machine) → get (k n).0.files p ≡ get n.files p)
      → get (and_then (write_unit rights path contents m) k).0.files p ≡ get m.files p
  unfolding write_unit
  written-others path contents m p k apart keeps = elim (Bool-cases (rights.can_write path)) [
    | inl can ↦ rw can (keeps _ ∙ get-put_other m.files path p contents apart)
    | inr cannot ↦ rw cannot refl
  ]

  install_role-others :
      (role : Role) (name timer : Bytes) (m : Machine) (p : Bytes)
      → text_eq (join unit_dir (name ++ ascii ".timer")) p ≡ false
      → Leaves p
      → get (install_role rights role name timer m).0.files p ≡ get m.files p
  unfolding install_role
  install_role-others client name timer m p apart leaves =
      enable-kept (name ++ ascii ".service") m p leaves
  install_role-others server name timer m p apart leaves =
      written-others (join unit_dir (name ++ ascii ".timer")) timer m p _ apart
        (λ n. enable-kept (name ++ ascii ".timer") n p leaves)

  install-others :
      (current_exe : Option Bytes) (spec : ServiceSpec) (m : Machine) (p : Bytes)
      → text_eq (join unit_dir (service_name spec ++ ascii ".service")) p ≡ false
      → text_eq (join unit_dir (service_name spec ++ ascii ".timer")) p ≡ false
      → Leaves p
      → get (install rights current_exe spec m).0.files p ≡ get m.files p
  unfolding install
  install-others current_exe spec m p apart apart' leaves =
      written-others (join unit_dir (service_name spec ++ ascii ".service"))
        (systemd_service current_exe spec) m p _ apart
        (λ n.
          install_role-others spec.role (service_name spec) (systemd_timer spec) n p apart' leaves)

  disabled : ServiceSpec → Machine → StringMap Bytes
  disabled spec m =
      rights.effect
        (ascii "systemctl"
          ∷ ascii "disable"
          ∷ ascii "--now"
          ∷ unit_of rights spec.role (service_name spec)
          ∷ [])
        m.files

  -- The files after `uninstall`, when both unit files may be removed.
  uninstall-files :
      (spec : ServiceSpec) (m : Machine)
      → rights.can_remove (unit_path (service_name spec) (ascii ".service")) ≡ true
      → rights.can_remove (unit_path (service_name spec) (ascii ".timer")) ≡ true
      → (uninstall rights spec m).0.files
        ≡ rights.effect daemon_reload (
            delete
              (delete (disabled spec m) (unit_path (service_name spec) (ascii ".service")))
              (unit_path (service_name spec) (ascii ".timer")))
  unfolding uninstall remove_file run_cmd disabled
  uninstall-files spec m may may' = elim (Bool-cases (rights.succeeds daemon_reload)) [
    | inl done ↦ rw (done, may, may') refl
    | inr refused ↦ rw (refused, may, may') refl
  ]

  -- A service whose name does not start with a slash is installed, with any outcome, and uninstalled,
  -- with any outcome of the commands, by a user who may remove its two unit files, which the commands
  -- do not change: then neither of them is there, and a file at any other path that the commands do
  -- not change is as before.
  pub install-uninstall :
      (current_exe : Option Bytes) (spec : ServiceSpec) (m : Machine) (p : Bytes)
      → starts_slash (service_name spec) ≡ false
      → rights.can_remove (unit_path (service_name spec) (ascii ".service")) ≡ true
      → rights.can_remove (unit_path (service_name spec) (ascii ".timer")) ≡ true
      → Leaves (unit_path (service_name spec) (ascii ".service"))
      → Leaves (unit_path (service_name spec) (ascii ".timer"))
      → text_eq (unit_path (service_name spec) (ascii ".service")) p ≡ false
      → text_eq (unit_path (service_name spec) (ascii ".timer")) p ≡ false
      → Leaves p
      → let after = (uninstall rights spec (install rights current_exe spec m).0).0 in
        (get after.files (unit_path (service_name spec) (ascii ".service")) ≡ none)
        × (get after.files (unit_path (service_name spec) (ascii ".timer")) ≡ none)
        × (get after.files p ≡ get m.files p)
  unfolding disabled
  install-uninstall current_exe spec m p plain may may' leaves leaves' apart apart' leaves_p =
      let name : Bytes = service_name spec in
      let installed : Machine = (install rights current_exe spec m).0 in
      let there : StringMap Bytes = disabled spec installed in
      let service = unit_path name (ascii ".service") in
      let timer = unit_path name (ascii ".timer") in
      rw (uninstall-files spec installed may may') (
        leaves daemon_reload _
            ∙ get-delete_absent (delete there service) timer service (get-delete there service),
        leaves' daemon_reload _ ∙ get-delete (delete there service) timer,
        leaves_p daemon_reload _
            ∙ get-delete_other (delete there service) timer p apart'
            ∙ get-delete_other there service p apart
            ∙ leaves_p _ installed.files
            ∙ install-others current_exe spec m p
                (ap (λ s. text_eq s p) (join-unit_path name (ascii ".service") plain dot_service)
                  ∙ apart)
                (ap (λ s. text_eq s p) (join-unit_path name (ascii ".timer") plain dot_timer)
                  ∙ apart')
                leaves_p,
      )
