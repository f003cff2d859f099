-- ===== src/Examples/Building.antt =====
-- The tasks of a checkout whose release is built.
use reality_hydra.Base.{
  ◌≡◌, refl, true, false, [], ◌∷◌, All, Bytes, ascii, some, none, ok, text_eq, get, join,
  starts_slash, needs_no_slash,
}
use reality_hydra.Cli.Server.{parent}
use reality_hydra.Tasks.{
  Options, Workspace, Site, release_path, installed_path, install_dir_of, home, repo_root,
}
use reality_hydra.Tasks.Install.{install_bins, uninstall_bins, removed_paths}
use reality_hydra.Tasks.Dispatch.{run_all}
use reality_hydra.Tasks.Installed.{IsReady, path_of, install_bins-uninstall_bins}
use reality_hydra.Examples.Starts.{healthy}

abbrev host : Workspace
host = record {
  home_var = some (ascii "/root");
  user_profile = none;
  manifest_dir = ascii "/r/xtask";
  exe_suffix = [];
  disk = healthy;
  can_remove = λ path. true;
  runs = λ cmd files. (files, some true);
  prints = λ cmd. some (true, ascii "rustc 1.88.0 (6b00bc388 2025-06-23)");
}

abbrev options : Options
options = record {
  features = none;
  install_dir = none;
  config_dir = none;
  skip_tests = false;
  skip_build = true;
}

abbrev site : Site
site = record {
  files =
      (ascii "/r/target/release/hydra", 1 ∷ [])
      ∷ (ascii "/r/target/release/hydra-client", 2 ∷ [])
      ∷ [];
  ran = [];
}

ready : IsReady host options site (1 ∷ []) (2 ∷ [])
unfolding release_path installed_path install_dir_of home repo_root parent join starts_slash
    needs_no_slash ascii text_eq get
ready = record {
  may_make = refl;
  may_read = λ bin. refl;
  room = λ bin. refl;
  moved_hydra = refl;
  moved_client = refl;
  built_hydra = refl;
  built_client = refl;
  elsewhere = refl;
}

install_bins-uninstall_bins_example :
    let (s1, installed) = install_bins host options site in
    let (s2, removed) = uninstall_bins host options s1 in
    (installed ≡ ok tt)
    × (get s1.files (path_of host options (ascii "hydra")) ≡ some (1 ∷ []))
    × (get s1.files (path_of host options (ascii "hydra-client")) ≡ some (2 ∷ []))
    × (removed ≡ ok tt)
    × All (λ p. get s2.files p ≡ none) (removed_paths host options)
    × ((p : Bytes)
        → All (λ q. text_eq q p ≡ false) (removed_paths host options)
        → get s2.files p ≡ get site.files p)
install_bins-uninstall_bins_example =
    install_bins-uninstall_bins host options site (1 ∷ []) (2 ∷ []) ready (λ path. refl)

abbrev after_all : Site
after_all = (run_all host options site).0
