-- ===== src/Tasks/Ran.antt =====
-- The commands that a task which succeeds has started.
use reality_hydra.Base.{
  text_eq, ◌≡◌, refl, sym, ap, ◌∙◌, ◌⊎◌, inl, inr, Bool, true, false, List, [], ◌∷◌, ◌++◌,
  append-nil, append_assoc, Bytes, ascii, Option, some, none, Result, ok, err, panic, if-cases,
  if◌then◌else◌, exists, write_file, FileTable,
}
use reality_hydra.Tasks.{
  TaskError, Options, Workspace, Site, TaskStep, after_success, ended_run, run_task_command,
  release_path, config_path, bins,
}
use reality_hydra.Tasks.Install.{
  ended_copy, copy_contents, copy, install_bin, install_each, install_bins, make_dir, hydra_path,
  generate_config,
}
use reality_hydra.Tasks.Dispatch.{test_command, clippy_command, fmt_command, run_tests}

-- `?` goes on only behind a success.
pub after_success-ok :
    {A B : Type 0} (m : TaskStep A) (k : Site → A → TaskStep B) {s' : Site} {b : B}
    → after_success m k ≡ (s', ok b)
    → (s1 : Site) × (a : A) × (m ≡ (s1, ok a)) × (k s1 a ≡ (s', ok b))
unfolding after_success
after_success-ok (s, ok a) k e = (s, a, refl, e)
after_success-ok (s, err x) k e = cc
after_success-ok (s, panic) k e = cc

-- The step that succeeded started these commands.
abbrev pub Runs : Site → List (List Bytes) → Site → Type 0
Runs s cmds s' = s'.ran ≡ s.ran ++ cmds

pub Runs-trans :
    (s s1 s' : Site) (xs ys : List (List Bytes))
    → Runs s xs s1
    → Runs s1 ys s'
    → Runs s (xs ++ ys) s'
Runs-trans s s1 s' xs ys one two = two ∙ ap (λ r. r ++ ys) one ∙ append_assoc s.ran xs ys

pub same_ran : (s s' : Site) → s'.ran ≡ s.ran → Runs s [] s'
same_ran s s' e = e ∙ sym (append-nil s.ran)

ended_run-Runs :
    (s : Site) (cmd : List Bytes) (r : FileTable × Option Bool) {s' : Site}
    → ended_run s cmd r ≡ (s', ok tt)
    → Runs s (cmd ∷ []) s'
unfolding ended_run
ended_run-Runs s cmd (files, none) e = cc
ended_run-Runs s cmd (files, some true) e = sym (ap (λ (x : TaskStep (Unit {0})). x.0.ran) e)
ended_run-Runs s cmd (files, some false) e = cc

pub run_task_command-Runs :
    (host : Workspace) (cmd : List Bytes) (s : Site) {s' : Site}
    → run_task_command host cmd s ≡ (s', ok tt)
    → Runs s (cmd ∷ []) s'
unfolding run_task_command
run_task_command-Runs host cmd s e = ended_run-Runs s cmd (host.runs cmd s.files) e

pub run_tests-Runs :
    (host : Workspace) (s : Site) {s' : Site}
    → run_tests host s ≡ (s', ok tt)
    → Runs s (test_command ∷ clippy_command ∷ fmt_command ∷ []) s'
unfolding run_tests
run_tests-Runs host s {s'} e =
    let (s1, _, first, later) = after_success-ok (run_task_command host test_command s) _ e in
    let (s2, _, second, third) =
      after_success-ok (run_task_command host clippy_command s1) _ later in
    Runs-trans s s1 s' (test_command ∷ []) (clippy_command ∷ fmt_command ∷ [])
      (run_task_command-Runs host test_command s first)
      (Runs-trans s1 s2 s' (clippy_command ∷ []) (fmt_command ∷ [])
        (run_task_command-Runs host clippy_command s1 second)
        (run_task_command-Runs host fmt_command s2 third))

-- A copy starts no command.
ended_copy-ran :
    (s : Site) (src : Bytes) (r : FileTable × Bool) {s' : Site}
    → ended_copy s src r ≡ (s', ok tt)
    → s'.ran ≡ s.ran
unfolding ended_copy
ended_copy-ran s src (files, true) e = sym (ap (λ (x : TaskStep (Unit {0})). x.0.ran) e)
ended_copy-ran s src (files, false) e = cc

copy_contents-ran :
    (host : Workspace) (src dst : Bytes) (s : Site) (contents : Option Bytes) {s' : Site}
    → copy_contents host src dst s contents ≡ (s', ok tt)
    → s'.ran ≡ s.ran
unfolding copy_contents
copy_contents-ran host src dst s none e = cc
copy_contents-ran host src dst s (some c) e =
    ended_copy-ran s src (write_file host.disk s.files dst (if text_eq src dst then [] else c)) e

install_bin-ran :
    (host : Workspace) (o : Options) (bin : Bytes) (s : Site) {s' : Site}
    → install_bin host o bin s ≡ (s', ok tt)
    → s'.ran ≡ s.ran
unfolding install_bin copy
install_bin-ran host o bin s e = elim (if-cases (exists s.files (release_path host bin)) e) [
  | inl built ↦ copy_contents-ran host _ _ s _ built.1
  | inr missing ↦ absurd cc
]

install_each-ran :
    (host : Workspace) (o : Options) (names : List Bytes) (s : Site) {s' : Site}
    → install_each host o names s ≡ (s', ok tt)
    → s'.ran ≡ s.ran
unfolding install_each
install_each-ran host o [] s e = sym (ap (λ (x : TaskStep (Unit {0})). x.0.ran) e)
install_each-ran host o (bin ∷ names) s e =
    let (s1, _, first, later) = after_success-ok (install_bin host o bin s) _ e in
    install_each-ran host o names s1 later ∙ install_bin-ran host o bin s first

make_dir-same :
    (host : Workspace) (dir : Bytes) (s : Site) {s' : Site} {r : Result TaskError (Unit {0})}
    → make_dir host dir s ≡ (s', r)
    → s' ≡ s
unfolding make_dir
make_dir-same host dir s e = sym (ap (λ (x : TaskStep (Unit {0})). x.0) e)

pub install_bins-ran :
    (host : Workspace) (o : Options) (s : Site) {s' : Site}
    → install_bins host o s ≡ (s', ok tt)
    → s'.ran ≡ s.ran
unfolding install_bins
install_bins-ran host o s e =
    let (s1, _, made, later) = after_success-ok (make_dir host _ s) _ e in
    install_each-ran host o bins s1 later ∙ ap (λ (x : Site). x.ran) (make_dir-same host _ s made)

-- Nothing, or one run of `hydra init`.
abbrev pub IsInit : Workspace → Options → List (List Bytes) → Type 0
IsInit host o cmds =
    (cmds ≡ [])
    ⊎ ((hydra : Bytes) × (cmds
          ≡ (hydra ∷ ascii "init" ∷ ascii "--output" ∷ config_path host o ∷ []) ∷ []))

pub generate_config-Runs :
    (host : Workspace) (o : Options) (s : Site) {s' : Site}
    → generate_config host o s ≡ (s', ok tt)
    → (cmds : List (List Bytes)) × IsInit host o cmds × Runs s cmds s'
unfolding generate_config
generate_config-Runs host o s {s'} e =
    let (s1, _, made, later) = after_success-ok (make_dir host _ s) _ e in
    let same : s1.ran ≡ s.ran = ap (λ (x : Site). x.ran) (make_dir-same host _ s made) in
    elim (if-cases (exists s1.files (config_path host o)) later) [
      | inl kept ↦ (
        [],
        inl refl,
        same_ran s s' (sym (ap (λ (x : TaskStep (Unit {0})). x.0.ran) kept.1) ∙ same),
      )
      | inr made_new ↦ (
        _,
        inr (hydra_path host o s1, refl),
        run_task_command-Runs host _ s1 made_new.1
            ∙ ap
                (λ r.
                  r
                  ++ ((hydra_path host o s1
                        ∷ ascii "init"
                        ∷ ascii "--output"
                        ∷ config_path host o
                        ∷ [])
                      ∷ []))
                same,
      )
    ]
