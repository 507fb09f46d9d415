-- ===== src/Apply/Targets.antt =====
-- validatePatchAncestors, validatePatchTargets and verifyAppliedPatchContents of
-- workflow-kernel/workflow-plugin.js.
use opencode_workflows.Prelude.{
  String, Bool, true, false, not, ◌&&◌, Option, none, some, List, [], ◌∷◌, str_eq, Outcome, ok,
  throw, if◌then◌else◌,
}
use opencode_workflows.Authority.Pattern.{Text, text_eq, includes}
use opencode_workflows.Paths.{
  FilePath, path_contains, is_below, resolve, parts_of, enter, is_absolute, split_at,
  is_either_slash, dot_dot,
}
use opencode_workflows.Paths.Glob.{is_writable_workflow_path}
use opencode_workflows.Apply.{
  Error, system, refused, overlapping_patch, enoent, Special, symlink, directory, fault, Host, Io,
  ◌>>=◌, ◌>>◌, catching, pure, throwing, call, require, looks_at, reads, resolves, asks_tracked,
  ancestor_is_symlink, ancestor_not_directory, ancestor_escapes, invalid_patch, patch_escapes,
  protected_path, target_is_symlink, target_is_directory, untracked_target, content_changed,
}

-- A patch of diff-plan.json: what is not a text is `none`.
pub record RawPatch : Type 0 where
  pub path : Option Text
  pub content : Option String

-- A patch that was validated; `previous` is the text that was read of the target, if it existed.
pub record Planned : Type 0 where
  pub path : Text
  pub content : String
  pub target : FilePath
  pub previous : Option String

pub data Kind : Type 0 where
  link folder file : Kind

abbrev pub is_link : Kind → Bool
is_link link = true
is_link folder = false
is_link file = false

abbrev pub is_folder : Kind → Bool
is_folder folder = true
is_folder link = false
is_folder file = false

-- `fs.readFile` and `fs.lstat` on what the files hold.
abbrev pub found : {A : Type 0} → (String → A) → Option String → Io A
found f none = throwing (system enoent)
found f (some content) = pure (f content)

abbrev pub looked : FilePath → Option Special → Io Kind
looked path (some symlink) w = (ok link, w)
looked path (some directory) w = (ok folder, w)
looked path (some (fault c)) w = (throw (system c), w)
looked path none w = found (λ content. file) (w.files path) w

-- All but the last.
abbrev pub all_but_last : List Text → List Text
all_but_last [] = []
all_but_last (s ∷ []) = []
all_but_last (s ∷ t ∷ segments) = s ∷ all_but_last (t ∷ segments)

-- `none` where the error is ENOENT.
abbrev pub unless_missing : {A : Type 0} → Error → Io (Option A)
unless_missing (system enoent) = pure none
unless_missing e = throwing e

-- What a read of each path gives, where the files are these.
abbrev pub text_of : Host → Option String → Option String
text_of host none = none
text_of host (some content) = some (host.as_text content)

abbrev pub as_read : Host → (FilePath → Option String) → FilePath → Option String
as_read host files path = text_of host (files path)

module _ (host : Host) where
  unfoldable pub lstat : FilePath → Io Kind
  unfolding pure throwing
  lstat path w =
      let calls = looks_at path ∷ w.calls in
      looked path (host.special calls) (record w { calls = calls })

  abbrev pub read_found : FilePath → Outcome Error (Unit {0}) → Io String
  read_found path (ok done) w = found (λ content. host.as_text content) (w.files path) w
  read_found path (throw e) w = (throw e, w)

  unfoldable pub read_file : FilePath → Io String
  unfolding pure throwing
  read_file path w =
      let calls = reads path ∷ w.calls in
      read_found path (host.read calls) (record w { calls = calls })

  unfoldable pub lstat_if_any : FilePath → Io (Option Kind)
  unfolding lstat
  lstat_if_any path = catching (lstat path >>= λ kind. pure (some kind)) unless_missing

  -- The loop of `validatePatchAncestors`.
  unfoldable pub validate_ancestors : FilePath → FilePath → List Text → Io (Unit {0})
  unfolding lstat_if_any path_contains require
  validate_ancestors root_real current [] = pure tt
  validate_ancestors root_real current (part ∷ parts) = do
    let child = enter current part
    kind ← lstat_if_any child
    elim kind [
      | none ↦ pure tt
      | some k ↦ do
        require (not (is_link k)) ancestor_is_symlink
        require (is_folder k) ancestor_not_directory
        real ← call (resolves child) host.realpath
        require (path_contains root_real real) ancestor_escapes
        validate_ancestors root_real child parts
    ]

  unfoldable pub validate_patch_ancestors : FilePath → Text → Io (Unit {0})
  unfolding validate_ancestors parts_of
  validate_patch_ancestors root path = do
    root_real ← call (resolves root) host.realpath
    validate_ancestors root_real root (all_but_last (parts_of path))

  -- `gitPathTracked`.
  unfoldable pub git_path_tracked : Text → Io Bool
  git_path_tracked path w =
      let calls = asks_tracked path ∷ w.calls in
      (ok (host.is_tracked calls), record w { calls = calls })

  abbrev pub check_tracked : Bool → Text → Io (Unit {0})
  check_tracked true path = git_path_tracked path >>= λ tracked. require tracked untracked_target
  check_tracked false path = pure tt

  -- The `try` block on the target: its content, or `none` where there is no such file.
  unfoldable pub previous_content : Bool → Text → FilePath → Io (Option String)
  unfolding lstat read_file git_path_tracked require
  previous_content require_tracked path target =
      catching
        (do
          kind ← lstat target
          require (not (is_link kind)) target_is_symlink
          require (not (is_folder kind)) target_is_directory
          content ← read_file target
          check_tracked require_tracked path
          pure (some content))
        unless_missing

  -- One patch, with the paths that were seen before it.
  unfoldable pub validate_patch : FilePath → Bool → List Text → Text → String → Io Planned
  unfolding includes text_eq is_absolute split_at is_writable_workflow_path is_below resolve
      validate_patch_ancestors previous_content require
  validate_patch root require_tracked seen path content = do
    if includes seen path then throwing overlapping_patch else pure tt
    require (not (is_absolute path) && not (includes (split_at is_either_slash path) dot_dot))
        patch_escapes
    require (is_writable_workflow_path path) protected_path
    let target = resolve root path
    require (is_below root target) patch_escapes
    validate_patch_ancestors root path
    previous ← previous_content require_tracked path target
    pure (record { path = path; content = content; target = target; previous = previous })

  abbrev pub validate_raw : FilePath → Bool → List Text → Option Text → Option String → Io Planned
  validate_raw root require_tracked seen (some path) (some content) =
      validate_patch root require_tracked seen path content
  validate_raw root require_tracked seen (some path) none = throwing (refused invalid_patch)
  validate_raw root require_tracked seen none content = throwing (refused invalid_patch)

  unfoldable pub validate_patches : FilePath → Bool → List Text → List RawPatch → Io (List Planned)
  unfolding validate_patch
  validate_patches root require_tracked seen [] = pure []
  validate_patches root require_tracked seen (patch ∷ patches) = do
    item ← validate_raw root require_tracked seen patch.path patch.content
    items ← validate_patches root require_tracked (item.path ∷ seen) patches
    pure (item ∷ items)

  unfoldable pub validate_patch_targets : FilePath → Bool → List RawPatch → Io (List Planned)
  unfolding validate_patches
  validate_patch_targets root require_tracked patches =
      validate_patches root require_tracked [] patches

abbrev pub has_content : Option String → String → Bool
has_content none content = false
has_content (some previous) content = str_eq previous content

-- `verifyAppliedPatchContents`.
unfoldable pub verify_applied_patch_contents : List Planned → Io (Unit {0})
unfolding require
verify_applied_patch_contents [] = pure tt
verify_applied_patch_contents (item ∷ items) =
    require (has_content item.previous item.content) content_changed
    >> verify_applied_patch_contents items
