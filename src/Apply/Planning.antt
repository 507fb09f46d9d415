-- ===== src/Apply/Planning.antt =====
-- What the targets that validatePatchTargets of workflow-kernel/workflow-plugin.js plans say of the
-- files, where an ENOENT of the file system is the truth.
use opencode_workflows.Prelude.{
  ◌≡◌, refl, sym, ap, ◌∙◌, Bool, true, false, not, Option, none, some, List, [], ◌∷◌, String,
  Outcome, ok, throw, ok-injective, ◌≢◌,
}
use opencode_workflows.Authority.Pattern.{Text, includes}
use opencode_workflows.Paths.{FilePath, resolve}
use opencode_workflows.Apply.{
  Error, system, refused, enoent, Code, Special, symlink, directory, fault, Host, World, Io, Call,
  ◌>>=◌, ◌>>◌, pure, throwing, require, looks_at, reads, target_is_symlink, target_is_directory,
}
use opencode_workflows.Apply.Frames.{
  same_files, Keeps, Keeps-call, Keeps-throwing, Keeps-require, Keeps-bind, Keeps-if, Keeps-pure,
  throw≢ok, throw-injective,
}
use opencode_workflows.Apply.Targets.{
  RawPatch, Planned, is_link, is_folder, found, looked, lstat, read_found, read_file,
  unless_missing, as_read, text_of, check_tracked, git_path_tracked, previous_content,
  validate_patch, validate_raw, validate_patches, validate_patch_targets,
}
use opencode_workflows.Apply.Looking.{
  set_state-Keeps, save_state-Keeps, lstat-Keeps, read_file-Keeps, check_tracked-Keeps,
  validate_raw-Keeps, validate_patches-Keeps, previous_content-Keeps,
  validate_patch_ancestors-Keeps,
}
use opencode_workflows.Apply.Run.{plan_targets}
use opencode_workflows.Apply.Finding.{
  Finds, Finds-any, Finds-pure, Finds-throwing, Finds-bind, Finds-test, Finds-catching, Blames,
  Blames-pure, Blames-require, Blames-bind,
}

-- ENOENT is answered of a missing file only, which the files say.
pub record IsTruthful (host : Host) : Type 0 where
  pub special_truth : (calls : List Call) → host.special calls ≢ some (fault enoent)
  pub read_truth : (calls : List Call) → host.read calls ≢ throw (system enoent)

abbrev code_of : Error → Code
code_of (system c) = c
code_of e = enoent

found-blames :
    {A : Type 0} (g : String → A) (o : Option String) (w : World)
    → (found g o w).0 ≡ throw (system enoent)
    → o ≡ none
unfolding pure
found-blames g none w h = refl
found-blames g (some c) w h = absurd (throw≢ok (system enoent) (g c) (sym h))

found-some :
    (host : Host) (o : Option String) (w : World) (content : String)
    → (found (λ c. host.as_text c) o w).0 ≡ ok content
    → text_of host o ≡ some content
unfolding pure throwing
found-some host none w content h = absurd (throw≢ok _ _ h)
found-some host (some c) w content h = ap some (ok-injective h)

-- A planned item is what the patch and the files say.
abbrev pub IsPlanned : FilePath → (FilePath → Option String) → Text → String → Planned → Type 0
IsPlanned root f path content item =
    (item.path ≡ path)
    × (item.content ≡ content)
    × (item.target ≡ resolve root path)
    × (item.previous ≡ f item.target)

abbrev pub Plans : FilePath → (FilePath → Option String) → List RawPatch → List Planned → Type 0
Plans root f [] [] = Unit
Plans root f [] (item ∷ items) = ⊥
Plans root f (patch ∷ patches) [] = ⊥
Plans root f (patch ∷ patches) (item ∷ items) =
    (patch.path ≡ some item.path)
    × (patch.content ≡ some item.content)
    × IsPlanned root f item.path item.content item
    × Plans root f patches items

module _ (host : Host) (truthful : IsTruthful host) {f : FilePath → Option String} where
  lstat-Blames : (target : FilePath) → Blames f (f target ≡ none) (lstat host target)
  unfolding lstat
  lstat-Blames target = record {
    blames =
        λ w e h. settle (host.special (looks_at target ∷ w.calls)) w (truthful.special_truth _) e h;
  }
    where
      settle :
          (o : Option Special) (w : World)
          → o ≢ some (fault enoent)
          → w.files ≡ f
          → (looked target o (record w { calls = looks_at target ∷ w.calls })).0
            ≡ throw (system enoent)
          → f target ≡ none
      settle (some symlink) w n e h = absurd (throw≢ok _ _ (sym h))
      settle (some directory) w n e h = absurd (throw≢ok _ _ (sym h))
      settle (some (fault c)) w n e h =
          absurd (n (ap (λ x. some (fault (code_of x))) (throw-injective h)))
      settle none w n e h =
          ap (λ (g : FilePath → Option String). g target) (sym e)
          ∙ found-blames _ (w.files target) (record w { calls = looks_at target ∷ w.calls }) h

  read_file-Blames : (target : FilePath) → Blames f (f target ≡ none) (read_file host target)
  unfolding read_file
  read_file-Blames target = record {
    blames = λ w e h. settle (host.read (reads target ∷ w.calls)) w (truthful.read_truth _) e h;
  }
    where
      settle :
          (o : Outcome Error (Unit {0})) (w : World)
          → o ≢ throw (system enoent)
          → w.files ≡ f
          → (read_found host target o (record w { calls = reads target ∷ w.calls })).0
            ≡ throw (system enoent)
          → f target ≡ none
      settle (throw x) w n e h = absurd (n (ap throw (throw-injective h)))
      settle (ok done) w n e h =
          ap (λ (g : FilePath → Option String). g target) (sym e)
          ∙ found-blames _ (w.files target) (record w { calls = reads target ∷ w.calls }) h

  read_file-Finds :
      (target : FilePath)
      → Finds f (read_file host target) (λ content. as_read host f target ≡ some content)
  unfolding read_file
  read_file-Finds target = record {
    finds = λ w content e h. settle (host.read (reads target ∷ w.calls)) w content e h;
  }
    where
      settle :
          (o : Outcome Error (Unit {0})) (w : World) (content : String)
          → w.files ≡ f
          → (read_found host target o (record w { calls = reads target ∷ w.calls })).0 ≡ ok content
          → as_read host f target ≡ some content
      settle (throw x) w content e h = absurd (throw≢ok _ _ h)
      settle (ok done) w content e h =
          ap (λ (g : FilePath → Option String). as_read host g target) (sym e)
          ∙ found-some host (w.files target) (record w { calls = reads target ∷ w.calls }) content h

  check_tracked-Blames :
      {Q : Type 0} (b : Bool) (path : Text) → Blames f Q (check_tracked host b path)
  unfolding git_path_tracked
  check_tracked-Blames true path =
      Blames-bind (record { keeps = λ w. refl })
        (record { blames = λ w e h. absurd (throw≢ok _ _ (sym h)) }) λ tracked. Blames-require _ _
  check_tracked-Blames false path = Blames-pure tt

  previous_content-Finds :
      (b : Bool) (path : Text) (target : FilePath)
      → Finds f (previous_content host b path target) (λ previous. previous ≡ as_read host f target)
  unfolding previous_content
  previous_content-Finds b path target = Finds-catching inspect_keeps inspect missing
    where
      body : Io (Option String)
      body = do
        kind ← lstat host target
        require (not (is_link kind)) target_is_symlink
        require (not (is_folder kind)) target_is_directory
        content ← read_file host target
        check_tracked host b path
        pure (some content)

      inspect_keeps : Keeps same_files body
      inspect_keeps = Keeps-bind (lstat-Keeps host target) λ kind.
          Keeps-bind (Keeps-require _ _) λ a. Keeps-bind (Keeps-require _ _) λ c.
            Keeps-bind (read_file-Keeps host target)
              λ content. Keeps-bind (check_tracked-Keeps host b path) λ d. Keeps-pure _

      inspect : Finds f body (λ previous. previous ≡ as_read host f target)
      inspect = Finds-bind (lstat-Keeps host target) (Finds-any _) λ kind u.
          Finds-test (not (is_link kind)) target_is_symlink λ a.
            Finds-test (not (is_folder kind)) target_is_directory λ c.
              Finds-bind (read_file-Keeps host target) (read_file-Finds target) λ content at.
                Finds-bind (check_tracked-Keeps host b path) (Finds-any _)
                  λ d u. Finds-pure (some content) (sym at)

      blame : Blames f (f target ≡ none) body
      blame = Blames-bind (lstat-Keeps host target) (lstat-Blames target) λ kind.
          Blames-bind (Keeps-require _ _) (Blames-require _ _) λ a.
            Blames-bind (Keeps-require _ _) (Blames-require _ _) λ c.
              Blames-bind (read_file-Keeps host target) (read_file-Blames target) λ content.
                Blames-bind (check_tracked-Keeps host b path) (check_tracked-Blames b path)
                  λ d. Blames-pure _

      missing :
          (w : World) (e : Error)
          → w.files ≡ f
          → (body w).0 ≡ throw e
          → Finds f (unless_missing e) (λ previous. previous ≡ as_read host f target)
      missing w (system Code.enoent) e h =
          Finds-pure none (ap (text_of host) (sym (blame.blames w e h)))
      missing w (refused r) e h = Finds-throwing _
      missing w x e h = Finds-throwing _

  validate_patch-Finds :
      (root : FilePath) (b : Bool) (seen : List Text) (path : Text) (content : String)
      → Finds f
          (validate_patch host root b seen path content)
          (IsPlanned root (as_read host f) path content)
  unfolding validate_patch
  validate_patch-Finds root b seen path content =
      Finds-bind (Keeps-if (includes seen path) (λ e. Keeps-throwing _) (λ e. Keeps-pure _))
        (Finds-any _)
        λ a u. Finds-test _ _ λ a. Finds-test _ _ λ a. Finds-test _ _ λ a.
          Finds-bind (validate_patch_ancestors-Keeps host root path) (Finds-any _) λ a u.
            Finds-bind (previous_content-Keeps host b path (resolve root path))
              (previous_content-Finds b path (resolve root path))
              λ previous at. Finds-pure _ (refl, refl, refl, at)

  validate_raw-Finds :
      (root : FilePath) (b : Bool) (seen : List Text) (path : Option Text) (content : Option String)
      → Finds f (validate_raw host root b seen path content) (λ item.
        (path ≡ some item.path)
        × (content ≡ some item.content)
        × IsPlanned root (as_read host f) item.path item.content item)
  validate_raw-Finds root b seen (some path) (some content) = record {
    finds = λ w item e h.
        let (at_path, at_content, at_target, previous) =
          (validate_patch-Finds root b seen path content).finds w item e h in
        (
          ap some (sym at_path),
          ap some (sym at_content),
          (refl, refl, at_target ∙ ap (resolve root) (sym at_path), previous),
        );
  }
  validate_raw-Finds root b seen (some path) none = Finds-throwing _
  validate_raw-Finds root b seen none content = Finds-throwing _

  validate_patches-Finds :
      (root : FilePath) (b : Bool) (seen : List Text) (patches : List RawPatch)
      → Finds f (validate_patches host root b seen patches) (Plans root (as_read host f) patches)
  unfolding validate_patches
  validate_patches-Finds root b seen [] = Finds-pure _ tt
  validate_patches-Finds root b seen (patch ∷ patches) =
      Finds-bind (validate_raw-Keeps host root b seen patch.path patch.content)
        (validate_raw-Finds root b seen patch.path patch.content)
        λ item (path, content, planned).
          Finds-bind (validate_patches-Keeps host root b (item.path ∷ seen) patches)
            (validate_patches-Finds root b (item.path ∷ seen) patches)
            λ items rest. Finds-pure _ (path, content, planned, rest)

  -- The targets that are planned are those of the patches, with what is read of the files.
  pub plan_targets-Finds :
      (root : FilePath) (patches : List RawPatch)
      → Finds f (plan_targets host root patches) (Plans root (as_read host f) patches)
  unfolding plan_targets validate_patch_targets
  plan_targets-Finds root patches =
      Finds-catching
        (Keeps-bind (Keeps-call _ host.git_clean)
          λ a. validate_patches-Keeps host root true [] patches)
        (Finds-bind (Keeps-call _ host.git_clean) (Finds-any _)
          λ a u. validate_patches-Finds root true [] patches)
        λ w e at h.
          Finds-bind (set_state-Keeps _) (Finds-any _)
            λ a u. Finds-bind (save_state-Keeps host) (Finds-any _) λ a u. Finds-throwing e
