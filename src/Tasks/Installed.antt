-- ===== src/Tasks/Installed.antt =====
-- What `install` leaves in the files, and `uninstall` after it.
use reality_hydra.Base.{
  ◌≡◌, refl, ap, ◌∙◌, inl, inr, ◌+◌, ℕ, true, false, All, ◌++◌, Bytes, ascii, length, length-append,
  arith, some, none, ok, text_eq, text_eq→eq, text_eq_sym, Bool-cases, get, put, get-put,
  get-put_other, exists, is_some, Disk, FileTable, read_file, write_file, write_result, whole,
  starts_slash, join_apart,
}
use reality_hydra.Tasks.{
  Options, Workspace, Site, after_success, release_path, installed_path, install_dir_of,
}
use reality_hydra.Tasks.Install.{
  install_bin, install_each, install_bins, make_dir, copy, copy_contents, ended_copy, removed_paths,
  uninstall_bins,
}
use reality_hydra.Tasks.Removed.{remove_each-Clears}

apart_by_length : (s t : Bytes) (n : ℕ) → length t ≡ length s + (1 + n) → text_eq s t ≡ false
unfolding text_eq
apart_by_length s t n longer = elim (Bool-cases (text_eq s t)) [
  | inl same ↦ absurd (omega (arith, longer, ap length (text_eq→eq s t same)))
  | inr apart ↦ apart
]

exists_lem :
    (files : FileTable) (path : Bytes) {contents : Bytes}
    → get files path ≡ some contents
    → exists files path ≡ true
unfolding exists
exists_lem files path e = ap (λ o. is_some o) e

read_file_lem :
    (disk : Disk) (files : FileTable) (path : Bytes) {contents : Bytes}
    → disk.can_read path ≡ true
    → get files path ≡ some contents
    → read_file disk files path ≡ some contents
unfolding read_file
read_file_lem disk files path may there = rw may there

write_file_lem :
    (disk : Disk) (files : FileTable) (path contents : Bytes)
    → disk.writes path ≡ whole
    → write_file disk files path contents ≡ (put files path contents, true)
unfolding write_file write_result
write_file_lem disk files path contents room = rw room refl

module _ (host : Workspace) (o : Options) where
  abbrev pub path_of : Bytes → Bytes
  path_of bin = installed_path host o bin

  sizes : (length (ascii "hydra") ≡ 5) × (length (ascii "hydra-client") ≡ 12)
  unfolding ascii
  sizes = (refl, refl)

  -- The two binaries have two paths.
  pub installed_apart : text_eq (path_of (ascii "hydra")) (path_of (ascii "hydra-client")) ≡ false
  unfolding installed_path starts_slash ascii
  installed_apart =
      join_apart (install_dir_of host o) (ascii "hydra" ++ host.exe_suffix)
        (ascii "hydra-client" ++ host.exe_suffix) refl refl
        (apart_by_length _ _ 6 (
          omega (
            arith,
            length-append (ascii "hydra") host.exe_suffix,
            length-append (ascii "hydra-client") host.exe_suffix,
            sizes.0,
            sizes.1,
          )))

  install_bin-copies :
      (bin contents : Bytes) (s : Site)
      → host.disk.can_read (release_path host bin) ≡ true
      → get s.files (release_path host bin) ≡ some contents
      → host.disk.writes (path_of bin) ≡ whole
      → text_eq (release_path host bin) (path_of bin) ≡ false
      → install_bin host o bin s
        ≡ (record { files = put s.files (path_of bin) contents; ran = s.ran }, ok tt)
  unfolding install_bin copy copy_contents ended_copy
  install_bin-copies bin contents s may built room apart =
      rw
        (
          exists_lem s.files (release_path host bin) built,
          read_file_lem host.disk s.files (release_path host bin) may built,
          apart,
          write_file_lem host.disk s.files (path_of bin) contents room,
        )
        refl

  -- The release is built, its files may be copied, and no copy is over a file of the release.
  pub record IsReady (s : Site) (hydra client : Bytes) : Type 0 where
    pub may_make : host.disk.can_make (install_dir_of host o) ≡ true
    pub may_read : (bin : Bytes) → host.disk.can_read (release_path host bin) ≡ true
    pub room : (bin : Bytes) → host.disk.writes (path_of bin) ≡ whole
    pub built_hydra : get s.files (release_path host (ascii "hydra")) ≡ some hydra
    pub built_client : get s.files (release_path host (ascii "hydra-client")) ≡ some client
    pub moved_hydra : text_eq (release_path host (ascii "hydra")) (path_of (ascii "hydra")) ≡ false
    pub moved_client :
        text_eq (release_path host (ascii "hydra-client")) (path_of (ascii "hydra-client")) ≡ false
    pub elsewhere :
        text_eq (path_of (ascii "hydra")) (release_path host (ascii "hydra-client")) ≡ false

  abbrev pub with_binaries : Site → Bytes → Bytes → Site
  with_binaries s hydra client = record {
    files =
        put (put s.files (path_of (ascii "hydra")) hydra) (path_of (ascii "hydra-client")) client;
    ran = s.ran;
  }

  pub install_bins_lem :
      (s : Site) (hydra client : Bytes)
      → IsReady s hydra client
      → install_bins host o s ≡ (with_binaries s hydra client, ok tt)
  unfolding install_bins install_each after_success make_dir
  install_bins_lem s hydra client r =
      let first =
        install_bin-copies (ascii "hydra") hydra s (r.may_read (ascii "hydra")) r.built_hydra
          (r.room (ascii "hydra")) r.moved_hydra in
      let there =
        get-put_other s.files (path_of (ascii "hydra")) (release_path host (ascii "hydra-client"))
          hydra r.elsewhere
        ∙ r.built_client in
      let second =
        install_bin-copies (ascii "hydra-client") client
          (record { files = put s.files (path_of (ascii "hydra")) hydra; ran = s.ran })
          (r.may_read (ascii "hydra-client")) there (r.room (ascii "hydra-client"))
          r.moved_client in
      rw (r.may_make, first, second) refl

  -- With the release built, the rights there and the install directory not that of the release,
  -- `install` puts the two binaries in the install
  -- directory as they were built; `uninstall` after it removes both and the configuration, and every
  -- other file is as it was before the two.
  pub install_bins-uninstall_bins :
      (s : Site) (hydra client : Bytes)
      → IsReady s hydra client
      → ((path : Bytes) → host.can_remove path ≡ true)
      → let (s1, installed) = install_bins host o s in
        let (s2, removed) = uninstall_bins host o s1 in
        (installed ≡ ok tt)
        × (get s1.files (path_of (ascii "hydra")) ≡ some hydra)
        × (get s1.files (path_of (ascii "hydra-client")) ≡ some client)
        × (removed ≡ ok tt)
        × All (λ p. get s2.files p ≡ none) (removed_paths host o)
        × ((p : Bytes)
            → All (λ q. text_eq q p ≡ false) (removed_paths host o)
            → get s2.files p ≡ get s.files p)
  unfolding uninstall_bins removed_paths
  install_bins-uninstall_bins s hydra client r may =
      let s1 = with_binaries s hydra client in
      let (s2, cleared, c) = remove_each-Clears host may (removed_paths host o) s1 in
      rw (install_bins_lem s hydra client r, cleared)
        (
          refl,
          get-put_other _ (path_of (ascii "hydra-client")) (path_of (ascii "hydra")) client
                (text_eq_sym _ _ installed_apart)
              ∙ get-put s.files (path_of (ascii "hydra")) hydra,
          get-put _ (path_of (ascii "hydra-client")) client,
          refl,
          c.gone,
          λ p apart.
              c.kept p apart
              ∙ get-put_other _ (path_of (ascii "hydra-client")) p client apart.1.0
              ∙ get-put_other s.files (path_of (ascii "hydra")) p hydra apart.0,
        )
