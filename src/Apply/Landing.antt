-- ===== src/Apply/Landing.antt =====
-- What a write of workflow-kernel/path-policy.js does where no other process moves a link: every
-- descriptor lands at the path that was asked for. Any call may still fail.
use opencode_workflows.Prelude.{
  ◌≡◌, sym, subst, ap, ◌∙◌, inl, inr, String, true, some, List, [], ◌∷◌, ◌++◌, Option-cases, keep,
}
use opencode_workflows.Authority.Pattern.{Text}
use opencode_workflows.Paths.{FilePath, path_contains, resolve, relative, is_named}
use opencode_workflows.Paths.Segments.{contained-eq, resolve-named, relative-named}
use opencode_workflows.Apply.{Host, call, write_file, resolves, escapes_after_open}
use opencode_workflows.Apply.Frames.{
  Keeps, Keeps-throwing, Keeps-call, Keeps-catching, Keeps-bind, Keeps-test,
  Keeps-required_fd_real_path,
}
use opencode_workflows.Apply.Yields.{
  Yields, Yields-any, Yields-throwing, Yields-catching, Yields-bind, Yields-then, Yields-test,
  Keeps-bind_yields,
}
use opencode_workflows.Apply.Ancestors.{enter_ancestors-Keeps, check_root-Keeps}
use opencode_workflows.Apply.Write.{
  write_final, write_below, split_last, after_root, safe_write_file_within_root,
}
use opencode_workflows.Apply.Calm.{
  IsCalm, touching, final_path, enter_ancestors-lands, open_file-lands, open_file-touching,
  write_file-touching, write_file-leaves,
}

module _ (host : Host) (root : FilePath) (calm : IsCalm host root) where
  write_final-touching :
      (path : FilePath) (content : String)
      → Keeps (touching path) (write_final host root path content)
  unfolding write_final
  write_final-touching path content =
      Keeps-bind_yields
        (Keeps-catching (open_file-touching host root calm path) λ e. Keeps-throwing _)
        (Yields-catching (open_file-lands host root calm path) λ e. Yields-throwing _)
        λ handle_path w at. Keeps-bind (Keeps-required_fd_real_path host handle_path) λ real.
          Keeps-test (path_contains root real) escapes_after_open λ inside.
            subst (λ q. Keeps (touching path) (write_file host q content)) (sym at)
              (write_file-touching host root calm path content)

  write_final-leaves :
      (path : FilePath) (content : String)
      → Yields (write_final host root path content) (λ a w. w.files path ≡ some content)
  unfolding write_final
  write_final-leaves path content =
      Yields-bind (Yields-catching (open_file-lands host root calm path) λ e. Yields-throwing _)
        λ handle_path w at. Yields-bind (Yields-any _) λ real w' u.
          Yields-test (path_contains root real) escapes_after_open λ inside.
            subst (λ q. Yields (write_file host q content) (λ a w. w.files path ≡ some content))
              (sym at) (write_file-leaves host root calm path content)

  write_below-touching :
      (target : FilePath) (parts : List Text) (content : String)
      → target ≡ root ++ parts
      → Keeps (touching target) (write_below host root (split_last parts) content)
  write_below-touching target parts content h = elim (Option-cases (split_last parts)) [
    | inl e ↦ rw e (Keeps-throwing _)
    | inr ((front, last), e) ↦ rw e (
        Keeps-bind_yields (enter_ancestors-Keeps host root root front)
          (enter_ancestors-lands host root calm root front)
          λ current w at.
            subst (λ q. Keeps (touching q) (write_final host root (current ++ last ∷ []) content))
              (final_path root parts front last current e at ∙ sym h)
              (write_final-touching (current ++ last ∷ []) content))
  ]

  write_below-leaves :
      (target : FilePath) (parts : List Text) (content : String)
      → target ≡ root ++ parts
      → Yields
          (write_below host root (split_last parts) content)
          (λ a w. w.files target ≡ some content)
  write_below-leaves target parts content h = elim (Option-cases (split_last parts)) [
    | inl e ↦ rw e (Yields-throwing _)
    | inr ((front, last), e) ↦ rw e (
        Yields-bind (enter_ancestors-lands host root calm root front) λ current w at.
          subst
            (λ q.
              Yields (write_final host root (current ++ last ∷ []) content)
                (λ a w. w.files q ≡ some content))
            (final_path root parts front last current e at ∙ sym h)
            (write_final-leaves (current ++ last ∷ []) content))
  ]

  target_path :
      (target : Text)
      → path_contains root (resolve root target) ≡ true
      → resolve root target ≡ root ++ keep is_named (relative root (resolve root target))
  target_path target inside =
      contained-eq root (resolve root target) inside
      ∙ ap (λ (q : FilePath). root ++ q)
          (sym (
            relative-named root (resolve root target) inside
              (resolve-named root target calm.named)))

  resolved : Yields (call (resolves root) host.realpath) (λ p w. p ≡ root)
  unfolding call
  resolved = record { yields = λ w p h. calm.root_real w.calls p h }

  -- A write changes its target at most.
  pub safe_write_file_within_root-touching :
      (target : Text) (content : String)
      → Keeps
          (touching (resolve root target))
          (safe_write_file_within_root host root target content)
  unfolding safe_write_file_within_root
  safe_write_file_within_root-touching target content =
      Keeps-bind_yields (Keeps-call _ host.realpath) resolved λ root_real w at.
        subst (λ r. Keeps (touching (resolve root target)) (after_root host r target content))
          (sym at)
          (Keeps-bind (check_root-Keeps host root) λ a. Keeps-test _ _ λ inside.
            write_below-touching (resolve root target) _ content (target_path target inside))

  -- A write that returns has left its content in the target.
  pub safe_write_file_within_root-leaves :
      (target : Text) (content : String)
      → Yields
          (safe_write_file_within_root host root target content)
          (λ a w. w.files (resolve root target) ≡ some content)
  unfolding safe_write_file_within_root
  safe_write_file_within_root-leaves target content = Yields-bind resolved λ root_real w at.
      subst
        (λ r.
          Yields (after_root host r target content)
            (λ a w. w.files (resolve root target) ≡ some content))
        (sym at)
        (Yields-then _ λ a.
          Yields-test _ _ λ inside.
            write_below-leaves (resolve root target) _ content (target_path target inside))
