-- ===== src/Apply/Looking.antt =====
-- The validation of the targets in workflow-kernel/workflow-plugin.js, and the code that finishes an
-- apply, change no file.
use opencode_workflows.Prelude.{
  refl, Bool, true, false, Option, none, some, List, [], ◌∷◌, String, Outcome, ok, throw,
}
use opencode_workflows.Authority.Pattern.{Text, includes}
use opencode_workflows.Paths.{FilePath, enter, parts_of, resolve}
use opencode_workflows.Apply.{
  Error, system, refused, Code, Special, symlink, directory, fault, Host, World, RunState,
  ApplyRecord, looks_at, reads, append_apply_ledger, appends, noted, save_state, saves, stored,
  set_state, Status, apply_failed,
}
use opencode_workflows.Apply.Frames.{
  Frame, Keeps, Keeps-pure, Keeps-throwing, Keeps-call, Keeps-catching, Keeps-bind, Keeps-require,
  Keeps-option, Keeps-if,
}
use opencode_workflows.Apply.Targets.{
  RawPatch, Planned, found, looked, all_but_last, lstat, read_found, read_file, unless_missing,
  lstat_if_any, validate_ancestors, validate_patch_ancestors, git_path_tracked, check_tracked,
  previous_content, validate_patch, validate_raw, validate_patches, validate_patch_targets,
  verify_applied_patch_contents,
}
use opencode_workflows.Apply.Run.{
  plan_targets, finalize_after_apply, verify_recovery_applied_contents, finish_applied, fail_with,
}

module _ {frame : Frame} where
  open frame use {R, same, trans}

  found-Keeps : {A : Type 0} (f : String → A) (o : Option String) → Keeps frame (found f o)
  found-Keeps f none = Keeps-throwing _
  found-Keeps f (some content) = Keeps-pure _

  pub set_state-Keeps : (f : RunState → RunState) → Keeps frame (set_state f)
  unfolding set_state
  set_state-Keeps f = record { keeps = λ w. same w _ refl }

  module _ (host : Host) where
    pub append_apply_ledger-Keeps : (r : ApplyRecord) → Keeps frame (append_apply_ledger host r)
    unfolding append_apply_ledger
    append_apply_ledger-Keeps r = record { keeps = λ w. settle (host.append (appends ∷ w.calls)) w }
      where
        settle :
            (o : Outcome Error (Unit {0})) (w : World)
            → R w (noted host r o (record w { calls = appends ∷ w.calls })).1
        settle (ok done) w = same w _ refl
        settle (throw e) w = same w _ refl

    pub save_state-Keeps : Keeps frame (save_state host)
    unfolding save_state
    save_state-Keeps = record { keeps = λ w. settle (host.save (saves ∷ w.calls)) w }
      where
        settle :
            (o : Outcome Error (Unit {0})) (w : World)
            → R w (stored host o (record w { calls = saves ∷ w.calls })).1
        settle (ok done) w = same w _ refl
        settle (throw e) w = same w _ refl

    pub lstat-Keeps : (path : FilePath) → Keeps frame (lstat host path)
    unfolding lstat
    lstat-Keeps path = record { keeps = λ w. settle (host.special (looks_at path ∷ w.calls)) w }
      where
        settle :
            (o : Option Special) (w : World)
            → R w (looked path o (record w { calls = looks_at path ∷ w.calls })).1
        settle (some symlink) w = same w _ refl
        settle (some directory) w = same w _ refl
        settle (some (fault c)) w = same w _ refl
        settle none w =
            trans w (record w { calls = looks_at path ∷ w.calls }) _ (same w _ refl)
              ((found-Keeps _ (w.files path)).keeps (record w { calls = looks_at path ∷ w.calls }))

    pub read_file-Keeps : (path : FilePath) → Keeps frame (read_file host path)
    unfolding read_file
    read_file-Keeps path = record { keeps = λ w. settle (host.read (reads path ∷ w.calls)) w }
      where
        settle :
            (o : Outcome Error (Unit {0})) (w : World)
            → R w (read_found host path o (record w { calls = reads path ∷ w.calls })).1
        settle (throw e) w = same w _ refl
        settle (ok done) w =
            trans w (record w { calls = reads path ∷ w.calls }) _ (same w _ refl)
              ((found-Keeps _ (w.files path)).keeps (record w { calls = reads path ∷ w.calls }))

    unless_missing-Keeps : {A : Type 0} (e : Error) → Keeps frame (unless_missing {A = A} e)
    unless_missing-Keeps (system Code.enoent) = Keeps-pure _
    unless_missing-Keeps (refused r) = Keeps-throwing _
    unless_missing-Keeps e = Keeps-throwing _

    validate_ancestors-Keeps :
        (root_real current : FilePath) (parts : List Text)
        → Keeps frame (validate_ancestors host root_real current parts)
    unfolding validate_ancestors lstat_if_any
    validate_ancestors-Keeps root_real current [] = Keeps-pure _
    validate_ancestors-Keeps root_real current (part ∷ parts) =
        Keeps-bind
          (Keeps-catching (Keeps-bind (lstat-Keeps _) λ kind. Keeps-pure _) unless_missing-Keeps)
          λ kind.
            Keeps-option kind (λ e. Keeps-pure _)
              λ k e. Keeps-bind (Keeps-require _ _) λ a. Keeps-bind (Keeps-require _ _) λ b.
                Keeps-bind (Keeps-call _ host.realpath) λ real.
                  Keeps-bind (Keeps-require _ _)
                    λ c. validate_ancestors-Keeps root_real (enter current part) parts

    pub check_tracked-Keeps : (b : Bool) (path : Text) → Keeps frame (check_tracked host b path)
    unfolding git_path_tracked
    check_tracked-Keeps true path =
        Keeps-bind (record { keeps = λ w. same w _ refl }) λ tracked. Keeps-require _ _
    check_tracked-Keeps false path = Keeps-pure _

    pub previous_content-Keeps :
        (b : Bool) (path : Text) (target : FilePath)
        → Keeps frame (previous_content host b path target)
    unfolding previous_content
    previous_content-Keeps b path target =
        Keeps-catching
          (Keeps-bind (lstat-Keeps target) λ kind. Keeps-bind (Keeps-require _ _) λ a.
            Keeps-bind (Keeps-require _ _) λ c.
              Keeps-bind (read_file-Keeps target)
                λ content. Keeps-bind (check_tracked-Keeps b path) λ d. Keeps-pure _)
          unless_missing-Keeps

    pub validate_patch_ancestors-Keeps :
        (root : FilePath) (path : Text) → Keeps frame (validate_patch_ancestors host root path)
    unfolding validate_patch_ancestors
    validate_patch_ancestors-Keeps root path =
        Keeps-bind (Keeps-call _ host.realpath)
          λ root_real. validate_ancestors-Keeps root_real root (all_but_last (parts_of path))

    pub validate_patch-Keeps :
        (root : FilePath) (b : Bool) (seen : List Text) (path : Text) (content : String)
        → Keeps frame (validate_patch host root b seen path content)
    unfolding validate_patch
    validate_patch-Keeps root b seen path content =
        Keeps-bind (Keeps-if (includes seen path) (λ e. Keeps-throwing _) (λ e. Keeps-pure _)) λ a.
          Keeps-bind (Keeps-require _ _) λ a. Keeps-bind (Keeps-require _ _) λ a.
            Keeps-bind (Keeps-require _ _) λ a.
              Keeps-bind (validate_patch_ancestors-Keeps root path) λ a.
                Keeps-bind (previous_content-Keeps b path (resolve root path))
                  λ previous. Keeps-pure _

    pub validate_raw-Keeps :
        (root : FilePath) (b : Bool) (seen : List Text) (path : Option Text)
        (content : Option String)
        → Keeps frame (validate_raw host root b seen path content)
    validate_raw-Keeps root b seen (some path) (some content) =
        validate_patch-Keeps root b seen path content
    validate_raw-Keeps root b seen (some path) none = Keeps-throwing _
    validate_raw-Keeps root b seen none content = Keeps-throwing _

    pub validate_patches-Keeps :
        (root : FilePath) (b : Bool) (seen : List Text) (patches : List RawPatch)
        → Keeps frame (validate_patches host root b seen patches)
    unfolding validate_patches
    validate_patches-Keeps root b seen [] = Keeps-pure _
    validate_patches-Keeps root b seen (patch ∷ patches) =
        Keeps-bind (validate_raw-Keeps root b seen patch.path patch.content) λ item.
          Keeps-bind (validate_patches-Keeps root b (item.path ∷ seen) patches)
            λ items. Keeps-pure _

    pub validate_patch_targets-Keeps :
        (root : FilePath) (b : Bool) (patches : List RawPatch)
        → Keeps frame (validate_patch_targets host root b patches)
    unfolding validate_patch_targets
    validate_patch_targets-Keeps root b patches = validate_patches-Keeps root b [] patches

    verify-Keeps : (items : List Planned) → Keeps frame (verify_applied_patch_contents items)
    unfolding verify_applied_patch_contents
    verify-Keeps [] = Keeps-pure _
    verify-Keeps (item ∷ items) = Keeps-bind (Keeps-require _ _) λ a. verify-Keeps items

    pub fail_with-Keeps :
        {A : Type 0} (root : FilePath) (status : Status) (e : Error)
        → Keeps frame (fail_with host root {A = A} status e)
    fail_with-Keeps root status e =
        Keeps-bind (set_state-Keeps _) λ a. Keeps-bind save_state-Keeps λ b. Keeps-throwing e

    pub finalize_after_apply-Keeps :
        (root : FilePath) → Keeps frame (finalize_after_apply host root)
    unfolding finalize_after_apply
    finalize_after_apply-Keeps root =
        Keeps-catching
          (Keeps-bind (Keeps-call _ host.finalize) λ finalized. Keeps-bind (set_state-Keeps _) λ a.
            Keeps-bind (Keeps-call _ host.measure) λ b.
              Keeps-bind save_state-Keeps
                λ c. Keeps-bind (Keeps-call _ host.close_out) λ d. Keeps-pure _)
          λ e. Keeps-bind (set_state-Keeps _) λ a. Keeps-bind save_state-Keeps λ b. Keeps-throwing e

    pub finish_applied-Keeps :
        (root : FilePath) (patches : List RawPatch) → Keeps frame (finish_applied host root patches)
    unfolding finish_applied verify_recovery_applied_contents
    finish_applied-Keeps root patches =
        Keeps-bind
          (Keeps-catching
            (Keeps-bind (validate_patch_targets-Keeps root false patches) verify-Keeps)
            λ e. fail_with-Keeps root apply_failed e)
          λ a. Keeps-bind (finalize_after_apply-Keeps root) λ finalized. Keeps-pure _

    pub plan_targets-Keeps :
        (root : FilePath) (patches : List RawPatch) → Keeps frame (plan_targets host root patches)
    unfolding plan_targets
    plan_targets-Keeps root patches =
        Keeps-catching
          (Keeps-bind (Keeps-call _ host.git_clean)
            λ a. validate_patch_targets-Keeps root true patches)
          λ e. fail_with-Keeps root _ e
