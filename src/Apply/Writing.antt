-- ===== src/Apply/Writing.antt =====
-- What the writes of an apply in workflow-kernel/workflow-plugin.js leave at one path.
use opencode_workflows.Prelude.{
  ◌≡◌, refl, sym, subst, ap, ◌∙◌, inl, inr, String, false, Option, some, List, [], ◌∷◌, ok,
  Bool-cases, if◌then◌else◌,
}
use opencode_workflows.Paths.{FilePath, path_eq, path_eq_iff, resolve}
use opencode_workflows.Apply.{Host, World, pure, append_apply_ledger, before_write, after_write}
use opencode_workflows.Apply.Frames.{Keeps, Keeps-pure, Keeps-bind}
use opencode_workflows.Apply.Runs.{bind-ok}
use opencode_workflows.Apply.Looking.{append_apply_ledger-Keeps}
use opencode_workflows.Apply.Calm.{IsCalm, touching}
use opencode_workflows.Apply.Landing.{
  safe_write_file_within_root-touching, safe_write_file_within_root-leaves,
}
use opencode_workflows.Apply.Write.{safe_write_file_within_root}
use opencode_workflows.Apply.Targets.{Planned}
use opencode_workflows.Apply.Restoring.{at_path, Keeps-at_path, is_target, IsRestorable, both_false}
use opencode_workflows.Apply.Patches.{write_patches}

-- What a path holds after all the writes.
abbrev pub after_writes : List Planned → FilePath → Option String → Option String
after_writes [] p held = held
after_writes (item ∷ items) p held =
    after_writes items p (if path_eq item.target p then some item.content else held)

module _ (host : Host) (root : FilePath) (calm : IsCalm host root)
    (f : FilePath → Option String) where
  write_one-touching :
      (item : Planned)
      → item.target ≡ resolve root item.path
      → Keeps (touching item.target) (safe_write_file_within_root host root item.path item.content)
  write_one-touching item e =
      subst (λ q. Keeps (touching q) (safe_write_file_within_root host root item.path item.content))
        (sym e) (safe_write_file_within_root-touching host root calm item.path item.content)

  write_one-holds :
      (item : Planned) (p : FilePath) (w : World) (a : Unit {0})
      → item.target ≡ resolve root item.path
      → (safe_write_file_within_root host root item.path item.content w).0 ≡ ok a
      → (safe_write_file_within_root host root item.path item.content w).1.files p
        ≡ (if path_eq item.target p then some item.content else w.files p)
  write_one-holds item p w a e h =
      let next = safe_write_file_within_root host root item.path item.content w in
      elim (Bool-cases (path_eq item.target p)) [
        | inl at ↦
            let there : next.1.files (resolve root item.path) ≡ some item.content =
              (safe_write_file_within_root-leaves host root calm item.path item.content).yields w a
                h in
            rw at (
              subst (λ q. next.1.files q ≡ some item.content)
                (sym e ∙ (path_eq_iff item.target p).0 at) there)
        | inr apart ↦ rw apart ((write_one-touching item e).keeps w p apart)
      ]

  -- The writes change their targets at most, whether they return or throw.
  pub write_patches-apart :
      (items : List Planned) (p : FilePath)
      → IsRestorable root f items
      → is_target items p ≡ false
      → Keeps (at_path p) (write_patches host root items)
  unfolding write_patches
  write_patches-apart [] p r h = Keeps-pure tt
  write_patches-apart (item ∷ items) p (e, previous, r) h =
      let (apart, others) = both_false (path_eq item.target p) (is_target items p) h in
      Keeps-bind (append_apply_ledger-Keeps host _) λ a.
        Keeps-bind (Keeps-at_path item.target p apart (write_one-touching item e)) λ b.
          Keeps-bind (append_apply_ledger-Keeps host _) λ c. write_patches-apart items p r others

  -- Writes that return have left the last content that was planned for a path.
  pub write_patches-holds :
      (items : List Planned) (p : FilePath) (w : World)
      → IsRestorable root f items
      → (write_patches host root items w).0 ≡ ok tt
      → (write_patches host root items w).1.files p ≡ after_writes items p (w.files p)
  unfolding write_patches
  write_patches-holds [] p w r h = unfold pure in refl
  write_patches-holds (item ∷ items) p w (e, previous, r) h =
      let (a, noted, h1, run1) =
        bind-ok (append_apply_ledger host (before_write item.path)) _ w tt h in
      let w1 = (append_apply_ledger host (before_write item.path) w).1 in
      let (b, put, h2, run2) =
        bind-ok (safe_write_file_within_root host root item.path item.content) _ w1 tt h1 in
      let w2 = (safe_write_file_within_root host root item.path item.content w1).1 in
      let (c, noted2, h3, run3) =
        bind-ok (append_apply_ledger host (after_write item.path)) _ w2 tt h2 in
      let w3 = (append_apply_ledger host (after_write item.path) w2).1 in
      ap (λ r. r.1.files p) (run1 ∙ run2 ∙ run3)
      ∙ write_patches-holds items p w3 r h3
      ∙ ap (after_writes items p) (
          (append_apply_ledger-Keeps {frame = at_path p} host (after_write item.path)).keeps w2
          ∙ write_one-holds item p w1 b e put
          ∙ ap (λ held. if path_eq item.target p then some item.content else held)
              ((append_apply_ledger-Keeps {frame = at_path p} host (before_write item.path)).keeps
                w))
