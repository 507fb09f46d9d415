-- ===== src/Apply/Ancestors.antt =====
-- The walk over the ancestors of a target in workflow-kernel/path-policy.js changes no file.
use opencode_workflows.Prelude.{List, [], ◌∷◌}
use opencode_workflows.Authority.Pattern.{Text}
use opencode_workflows.Paths.{FilePath}
use opencode_workflows.Apply.{Error, Host, Code, system, refused}
use opencode_workflows.Apply.Frames.{
  Frame, Keeps, Keeps-pure, Keeps-throwing, Keeps-call, Keeps-catching, Keeps-bind, Keeps-require,
  Keeps-required_fd_real_path,
}
use opencode_workflows.Apply.Write.{
  open_dir, make_and_open, enter_ancestor, enter_ancestors, check_root,
}

module _ {frame : Frame} (host : Host) (root : FilePath) where
  make_and_open-Keeps : (path : FilePath) (e : Error) → Keeps frame (make_and_open host path e)
  unfolding open_dir
  make_and_open-Keeps path (system Code.enoent) =
      Keeps-bind (Keeps-call _ host.make_dir) λ a. Keeps-call _ host.open_dir
  make_and_open-Keeps path (refused r) = Keeps-throwing _
  make_and_open-Keeps path e = Keeps-throwing _

  enter_ancestor-Keeps :
      (current : FilePath) (part : Text) → Keeps frame (enter_ancestor host root current part)
  unfolding enter_ancestor open_dir
  enter_ancestor-Keeps current part =
      Keeps-bind (Keeps-catching (Keeps-call _ host.open_dir) (make_and_open-Keeps _))
        λ handle_path.
          Keeps-bind (Keeps-required_fd_real_path host handle_path)
            λ real. Keeps-bind (Keeps-require _ _) λ a. Keeps-pure real

  pub enter_ancestors-Keeps :
      (current : FilePath) (parts : List Text)
      → Keeps frame (enter_ancestors host root current parts)
  unfolding enter_ancestors
  enter_ancestors-Keeps current [] = Keeps-pure current
  enter_ancestors-Keeps current (part ∷ parts) =
      Keeps-bind (enter_ancestor-Keeps current part) λ real. enter_ancestors-Keeps real parts

  pub check_root-Keeps : Keeps frame (check_root host root)
  unfolding check_root open_dir
  check_root-Keeps = Keeps-bind (Keeps-call _ host.open_dir) λ handle_path.
      Keeps-bind (Keeps-required_fd_real_path host handle_path) λ real. Keeps-require _ _
