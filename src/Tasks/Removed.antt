-- ===== src/Tasks/Removed.antt =====
-- What `uninstall` leaves in the files.
use reality_hydra.Base.{
  ◌≡◌, refl, ◌∙◌, inl, inr, Bool, true, false, List, [], ◌∷◌, All, Bytes, Option, some, none, ok,
  text_eq, Bool-cases, get, exists, is_some, FileTable,
}
use reality_hydra.Cli.Service.{delete}
use reality_hydra.Cli.Service.Removed.{get-delete, get-delete_other, get-delete_absent}
use reality_hydra.Tasks.{Workspace, Site, after_success}
use reality_hydra.Tasks.Install.{remove_existing, remove_each}

absent : {A : Type 0} (o : Option A) → is_some o ≡ false → o ≡ none
absent none e = refl
absent (some a) e = cc

not_there : (files : FileTable) (path : Bytes) → exists files path ≡ false → get files path ≡ none
unfolding exists
not_there files path e = absent (get files path) e

-- Of the two tables, the second lacks the paths and has the others as the first.
pub record Clears (paths : List Bytes) (before after : FileTable) : Type 0 where
  pub gone : All (λ p. get after p ≡ none) paths
  pub kept : (p : Bytes) → All (λ q. text_eq q p ≡ false) paths → get after p ≡ get before p
  pub still : (p : Bytes) → get before p ≡ none → get after p ≡ none

module _ (host : Workspace) (may : (path : Bytes) → host.can_remove path ≡ true) where
  remove_existing-Clears :
      (path : Bytes) (s : Site)
      → (s1 : Site) × (removed : Bool) × (remove_existing host path s ≡ (s1, ok removed))
        × Clears (path ∷ []) s.files s1.files
  unfolding remove_existing
  remove_existing-Clears path s = elim (Bool-cases (exists s.files path)) [
    | inl there ↦ (
      record { files = delete s.files path; ran = s.ran },
      true,
      rw (there, may path) refl,
      record {
        gone = (get-delete s.files path, tt);
        kept = λ p apart. get-delete_other s.files path p apart.0;
        still = λ p no. get-delete_absent s.files path p no;
      },
    )
    | inr missing ↦ (
      s,
      false,
      rw missing refl,
      record {
        gone = (not_there s.files path missing, tt);
        kept = λ p apart. refl;
        still = λ p no. no;
      },
    )
  ]

  -- With the right to remove them, the files go, and no other.
  pub remove_each-Clears :
      (paths : List Bytes) (s : Site)
      → (s' : Site) × (remove_each host paths s ≡ (s', ok tt)) × Clears paths s.files s'.files
  unfolding remove_each after_success
  remove_each-Clears [] s =
      (s, refl, record { gone = tt; kept = λ p apart. refl; still = λ p no. no })
  remove_each-Clears (path ∷ paths) s =
      let (s1, removed, first, c) = remove_existing-Clears path s in
      let (s', rest, d) = remove_each-Clears paths s1 in
      (
        s',
        rw first rest,
        record {
          gone = (d.still path c.gone.0, d.gone);
          kept = λ p apart. d.kept p apart.1 ∙ c.kept p (apart.0, tt);
          still = λ p no. d.still p (c.still p no);
        },
      )
