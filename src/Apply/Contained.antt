-- ===== src/Apply/Contained.antt =====
-- What safeWriteFileWithinRoot of workflow-kernel/path-policy.js can do outside its root, whatever the
-- file system answers.
use opencode_workflows.Prelude.{
  ◌≡◌, refl, ◌⊎◌, inl, String, true, false, Option, none, some, List, ◌∷◌, Outcome, ok, throw,
  arith, ap, keep, ◌∙◌, sym,
}
use opencode_workflows.Authority.Pattern.{Text}
use opencode_workflows.Paths.{FilePath, path_contains, path_eq_iff, resolve, relative, is_named}
use opencode_workflows.Apply.{
  Error, Host, World, opened, written, open_file, write_file, opens, writes, resolves, call, ◌>>=◌,
  target_escapes,
}
use opencode_workflows.Apply.Frames.{
  Frame, Keeps, Keeps-throwing, Keeps-catching, Keeps-bind, Keeps-bind_from, Keeps-test,
  Keeps-required_fd_real_path, required_fd_real_path-eq,
}
use opencode_workflows.Apply.Ancestors.{enter_ancestors-Keeps, check_root-Keeps}
use opencode_workflows.Apply.Write.{
  write_final, write_below, split_last, after_root, safe_write_file_within_root,
}

-- Outside the root every file is as it was, or empty.
abbrev pub Spares : FilePath → World → World → Type 0
Spares root w w' =
    (p : FilePath)
    → path_contains root p ≡ false
    → (w'.files p ≡ w.files p) ⊎ (w'.files p ≡ some "")

module _ (root : FilePath) where
  Spares-trans : (w w' w'' : World) → Spares root w w' → Spares root w' w'' → Spares root w w''
  Spares-trans w w' w'' h k p out = let a = h p out in let b = k p out in ground (arith, a, b)

  abbrev sparing : Frame
  sparing = record {
    R = Spares root;
    same = λ w w' e p out. inl (ap (λ (f : FilePath → Option String). f p) e);
    trans = Spares-trans;
  }

  module _ (host : Host) where
    open_file-Keeps : (path : FilePath) → Keeps sparing (open_file host path)
    unfolding open_file
    open_file-Keeps path = record { keeps = λ w. settle (host.open_file (opens path ∷ w.calls)) w }
      where
        settle :
            (r : Outcome Error FilePath) (w : World)
            → Spares root w (opened host r (record w { calls = opens path ∷ w.calls })).1
        settle (ok real) w p out = ground arith
        settle (throw e) w p out = inl refl

    write_file-Keeps :
        (path : FilePath) (content : String)
        → path_contains root path ≡ true
        → Keeps sparing (write_file host path content)
    unfolding write_file
    write_file-Keeps path content inside = record {
      keeps = λ w. settle (host.write (writes path ∷ w.calls)) w;
    }
      where
        settle :
            (r : Option (Error × String)) (w : World)
            → Spares root w
                (written host path content r (record w { calls = writes path ∷ w.calls })).1
        settle none w p out = ground (arith, path_eq_iff path p)
        settle (some (e, left)) w p out = ground (arith, path_eq_iff path p)

    write_final-Keeps :
        (path : FilePath) (content : String) → Keeps sparing (write_final host root path content)
    unfolding write_final
    write_final-Keeps path content =
        Keeps-bind (Keeps-catching (open_file-Keeps path) λ e. Keeps-throwing _) λ handle_path.
          Keeps-bind_from (Keeps-required_fd_real_path host handle_path) λ w real e.
            Keeps-test (path_contains root real) _ λ inside. write_file-Keeps handle_path content (
              ap (path_contains root) (sym (required_fd_real_path-eq host handle_path real w e))
              ∙ inside)

    write_below-Keeps :
        (parts : Option (List Text × Text)) (content : String)
        → Keeps sparing (write_below host root parts content)
    write_below-Keeps none content = Keeps-throwing _
    write_below-Keeps (some (front, last)) content =
        Keeps-bind (enter_ancestors-Keeps host root root front)
          λ current. write_final-Keeps _ content

-- The code after the root is resolved.
module _ (host : Host) (root : FilePath) (w : World) where
  -- However the file system answers a write within a root, whichever links it swaps in while the code
  -- runs and wherever the descriptors land: a file that is not below the real path of the root is
  -- afterwards what it was before, or empty. No text is written outside.
  pub safe_write_file_within_root-Spares :
      (target : Text) (content : String) (root_real : FilePath)
      → host.realpath (resolves root ∷ w.calls) ≡ ok root_real
      → Spares root_real w (safe_write_file_within_root host root target content w).1
  unfolding safe_write_file_within_root call ◌>>=◌
  safe_write_file_within_root-Spares target content root_real h =
      rw h (kept.keeps (record w { calls = resolves root ∷ w.calls }))
    where
      kept : Keeps (sparing root_real) (after_root host root_real target content)
      kept = Keeps-bind (check_root-Keeps host root_real) λ a.
          Keeps-test (path_contains root_real (resolve root_real target)) target_escapes λ inside.
            write_below-Keeps root_real host
              (split_last (keep is_named (relative root_real (resolve root_real target)))) content
