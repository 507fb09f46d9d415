-- ===== src/Apply/Write.antt =====
-- safeWriteFileWithinRoot of workflow-kernel/path-policy.js. A descriptor is closed without an error.
use opencode_workflows.Prelude.{String, Option, none, some, List, [], ◌∷◌, ◌++◌, keep}
use opencode_workflows.Authority.Pattern.{Text}
use opencode_workflows.Paths.{FilePath, path_contains, resolve, relative, is_named}
use opencode_workflows.Apply
use opencode_workflows.Apply.{
  Error, system, refused, enoent, eloop, enotdir, other_code, root_escapes, target_escapes,
  names_no_file, ancestor_is_symlink, ancestor_escapes, target_is_symlink, escapes_after_open,
  opens_dir, makes_dir, resolves, Host, Io, ◌>>=◌, ◌>>◌, catching, pure, throwing, call, require,
  open_file, write_file, required_fd_real_path,
}

-- `error.code === "ELOOP" || error.code === "ENOTDIR"` makes a refusal of the error.
abbrev pub not_followed : Apply.Refusal → Error → Error
not_followed r (system eloop) = refused r
not_followed r (system enotdir) = refused r
not_followed r e = e

abbrev pub with_front : Text → Option (List Text × Text) → Option (List Text × Text)
with_front s none = some ([], s)
with_front s (some (front, last)) = some (s ∷ front, last)

-- All but the last, and the last.
abbrev pub split_last : List Text → Option (List Text × Text)
split_last [] = none
split_last (s ∷ segments) = with_front s (split_last segments)

module _ (host : Host) where
  unfoldable pub open_dir : FilePath → Io FilePath
  unfolding call
  open_dir path = call (opens_dir path) host.open_dir

  -- The `catch` of the loop: a directory that is missing is made.
  abbrev pub make_and_open : FilePath → Error → Io FilePath
  make_and_open path (system enoent) = call (makes_dir path) host.make_dir >> open_dir path
  make_and_open path e = throwing (not_followed ancestor_is_symlink e)

  -- One round of the loop over the ancestors: the real path of the child.
  unfoldable pub enter_ancestor : FilePath → FilePath → Text → Io FilePath
  unfolding open_dir required_fd_real_path path_contains require
  enter_ancestor root_real current part = do
    let child = current ++ part ∷ []
    handle_path ← catching (open_dir child) (make_and_open child)
    real ← required_fd_real_path host handle_path
    require (path_contains root_real real) ancestor_escapes
    pure real

  unfoldable pub enter_ancestors : FilePath → FilePath → List Text → Io FilePath
  unfolding enter_ancestor
  enter_ancestors root_real current [] = pure current
  enter_ancestors root_real current (part ∷ parts) = do
    real ← enter_ancestor root_real current part
    enter_ancestors root_real real parts

  -- From the open of the final component on.
  unfoldable pub write_final : FilePath → FilePath → String → Io (Unit {0})
  unfolding open_file required_fd_real_path path_contains require write_file
  write_final root_real final_path content = do
    handle_path ←
        catching (open_file host final_path) λ e. throwing (not_followed target_is_symlink e)
    real ← required_fd_real_path host handle_path
    require (path_contains root_real real) escapes_after_open
    write_file host handle_path content

  abbrev pub write_below : FilePath → Option (List Text × Text) → String → Io (Unit {0})
  write_below root_real none content = throwing (refused names_no_file)
  write_below root_real (some (front, last)) content = do
    current ← enter_ancestors root_real root_real front
    write_final root_real (current ++ last ∷ []) content

  -- The open of the root, which must not have moved.
  unfoldable pub check_root : FilePath → Io (Unit {0})
  unfolding open_dir required_fd_real_path path_contains require
  check_root root_real = do
    handle_path ← open_dir root_real
    real ← required_fd_real_path host handle_path
    require (path_contains root_real real) root_escapes

  -- What follows once the root is resolved.
  abbrev pub after_root : FilePath → Text → String → Io (Unit {0})
  after_root root_real target content = do
    check_root root_real
    let target_abs = resolve root_real target
    require (path_contains root_real target_abs) target_escapes
    write_below root_real (split_last (keep is_named (relative root_real target_abs))) content

  unfoldable pub safe_write_file_within_root : FilePath → Text → String → Io (Unit {0})
  unfolding check_root enter_ancestors write_final resolve relative path_contains require
  safe_write_file_within_root root target content = do
    root_real ← call (resolves root) host.realpath
    after_root root_real target content
