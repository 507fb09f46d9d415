-- ===== src/Apply/Restoring.antt =====
-- rollbackPatches of workflow-kernel/workflow-plugin.js always returns, and restores every target but
-- those of the paths that it returns.
use opencode_workflows.Prelude.{
  ◌≡◌, refl, sym, subst, ap, ◌∙◌, ◌⊎◌, inl, inr, String, Bool, true, false, Option, none, some,
  List, [], ◌∷◌, Outcome, ok, throw, Bool-cases, ◌||◌, any,
}
use opencode_workflows.Authority.Pattern.{Text}
use opencode_workflows.Paths.{FilePath, path_eq, path_eq_refl, path_eq_iff, resolve}
use opencode_workflows.Apply.{Error, Host, World, Io, ◌>>◌, pure, remove_file, removed, removes}
use opencode_workflows.Apply.Frames.{Frame, Keeps, Keeps-pure, Keeps-bind, Keeps-catching, throw≢ok}
use opencode_workflows.Apply.Yields.{Yields}
use opencode_workflows.Apply.Runs.{bind-ok, bind-eq, catching-cases}
use opencode_workflows.Apply.Calm.{IsCalm, touching}
use opencode_workflows.Apply.Landing.{
  safe_write_file_within_root-touching, safe_write_file_within_root-leaves,
}
use opencode_workflows.Apply.Targets.{Planned}
use opencode_workflows.Apply.Patches.{restore_to, restore, restore_all, with_failure}

-- What stands at one path does not change.
abbrev pub at_path : FilePath → Frame
at_path p = record {
  R = λ w w'. w'.files p ≡ w.files p;
  same = λ w w' e. ap (λ (f : FilePath → Option String). f p) e;
  trans = λ w w' w'' h k. k ∙ h;
}

pub Keeps-at_path :
    {A : Type 0} {m : Io A} (target p : FilePath)
    → path_eq target p ≡ false
    → Keeps (touching target) m
    → Keeps (at_path p) m
Keeps-at_path target p apart h = record { keeps = λ w. h.keeps w p apart }

-- Some of the paths has p as its target.
abbrev pub is_among : FilePath → FilePath → List Text → Bool
is_among root p paths = any (λ path. path_eq (resolve root path) p) paths

abbrev pub is_target : List Planned → FilePath → Bool
is_target items p = any (λ (item : Planned). path_eq item.target p) items

remove_file-touching :
    (host : Host) (path : FilePath) → Keeps (touching path) (remove_file host path)
unfolding remove_file
remove_file-touching host path = record {
  keeps = λ w. settle (host.remove (removes path ∷ w.calls)) w;
}
  where
    settle :
        (r : Outcome Error (Unit {0})) (w : World) (p : FilePath)
        → path_eq path p ≡ false
        → (removed host path r (record w { calls = removes path ∷ w.calls })).1.files p ≡ w.files p
    settle (ok done) w p apart = rw apart refl
    settle (throw e) w p apart = refl

remove_file-leaves :
    (host : Host) (path : FilePath) → Yields (remove_file host path) (λ a w. w.files path ≡ none)
unfolding remove_file
remove_file-leaves host path = record {
  yields = λ w a h. settle (host.remove (removes path ∷ w.calls)) w a h;
}
  where
    settle :
        (r : Outcome Error (Unit {0})) (w : World) (a : Unit {0})
        → (removed host path r (record w { calls = removes path ∷ w.calls })).0 ≡ ok a
        → (removed host path r (record w { calls = removes path ∷ w.calls })).1.files path ≡ none
    settle (ok done) w a h = rw (path_eq_refl path) refl
    settle (throw e) w a h = absurd (throw≢ok _ _ h)

pub both_false : (a b : Bool) → a || b ≡ false → (a ≡ false) × (b ≡ false)
both_false true b h = cc
both_false false b h = (refl, h)

-- The items say where their targets are and what stood there.
abbrev pub IsRestorable : FilePath → (FilePath → Option String) → List Planned → Type 0
IsRestorable root f [] = Unit
IsRestorable root f (item ∷ items) =
    (item.target ≡ resolve root item.path)
    × (item.previous ≡ f item.target)
    × IsRestorable root f items

module _ (host : Host) (root : FilePath) (calm : IsCalm host root)
    (f : FilePath → Option String) where
  restore_to-touching :
      (item : Planned) (previous : Option String)
      → item.target ≡ resolve root item.path
      → Keeps (touching item.target) (restore_to host root item previous)
  restore_to-touching item (some previous) e =
      subst (λ q. Keeps (touching q) (restore_to host root item (some previous))) (sym e)
        (safe_write_file_within_root-touching host root calm item.path previous)
  restore_to-touching item none e = remove_file-touching host item.target

  restore_to-leaves :
      (item : Planned) (previous : Option String)
      → item.target ≡ resolve root item.path
      → Yields (restore_to host root item previous) (λ a w. w.files item.target ≡ previous)
  restore_to-leaves item (some previous) e =
      subst
        (λ q. Yields (restore_to host root item (some previous)) (λ a w. w.files q ≡ some previous))
        (sym e) (safe_write_file_within_root-leaves host root calm item.path previous)
  restore_to-leaves item none e = remove_file-leaves host item.target

  restore-touching :
      (item : Planned)
      → item.target ≡ resolve root item.path
      → Keeps (touching item.target) (restore host root item)
  unfolding restore
  restore-touching item e =
      Keeps-catching (Keeps-bind (restore_to-touching item item.previous e) λ a. Keeps-pure _)
        λ x. Keeps-pure _

  -- A restore returns: nothing where it left the previous content, and its path where it failed.
  restore-total :
      (item : Planned) (w : World)
      → item.target ≡ resolve root item.path
      → (((restore host root item w).0 ≡ ok none)
          × ((restore host root item w).1.files item.target ≡ item.previous))
        ⊎ ((restore host root item w).0 ≡ ok (some item.path))
  unfolding restore pure
  restore-total item w e =
      elim (catching-cases (restore_to host root item item.previous >> pure none)
        (λ e. pure (some item.path)) w) [
          | inl (a, returned, same) ↦
              let (u, left, value, run) =
                bind-ok (restore_to host root item item.previous) (λ u. pure none) w a returned in
              inl (
                ap (λ r. r.0) (same ∙ run),
                ap (λ r. r.1.files item.target) (same ∙ run)
                    ∙ (restore_to-leaves item item.previous e).yields w u left,
              )
          | inr (x, thrown, same) ↦ inr (ap (λ r. r.0) same)
        ]

  -- What the failures and the files are after a rollback of the items, at one path.
  abbrev pub IsRestored : FilePath → List Planned → World → Type 0
  IsRestored p items w =
      (failures : List Text) × ((restore_all host root items w).0 ≡ ok failures)
      × ((is_target items p ≡ false → w.files p ≡ f p)
          → is_among root p failures ≡ false
          → (restore_all host root items w).1.files p ≡ f p)

  -- The files at p after one item, for the rest.
  restored_first :
      (item : Planned) (items : List Planned) (p : FilePath) (w : World)
      → item.target ≡ resolve root item.path
      → item.previous ≡ f item.target
      → (restore host root item w).0 ≡ ok none
      → (restore host root item w).1.files item.target ≡ item.previous
      → (is_target (item ∷ items) p ≡ false → w.files p ≡ f p)
      → is_target items p ≡ false
      → (restore host root item w).1.files p ≡ f p
  restored_first item items p w e previous returned left before h =
      elim (Bool-cases (path_eq item.target p)) [
        | inl at ↦
            subst (λ q. (restore host root item w).1.files q ≡ f q)
              ((path_eq_iff item.target p).0 at) (left ∙ previous)
        | inr apart ↦ (restore-touching item e).keeps w p apart ∙ before (rw apart h)
      ]

  restored_apart :
      (item : Planned) (items : List Planned) (p : FilePath) (w : World)
      → item.target ≡ resolve root item.path
      → path_eq item.target p ≡ false
      → (is_target (item ∷ items) p ≡ false → w.files p ≡ f p)
      → is_target items p ≡ false
      → (restore host root item w).1.files p ≡ f p
  restored_apart item items p w e apart before h =
      (restore-touching item e).keeps w p apart ∙ before (rw apart h)

  restore_all-run :
      (item : Planned) (items : List Planned) (w : World) (failure : Option Text)
      (failures : List Text)
      → (restore host root item w).0 ≡ ok failure
      → (restore_all host root items (restore host root item w).1).0 ≡ ok failures
      → restore_all host root (item ∷ items) w ≡ (
        ok (with_failure failure failures),
        (restore_all host root items (restore host root item w).1).1,
      )
  unfolding restore_all pure
  restore_all-run item items w failure failures first rest =
      bind-eq (restore host root item) _ w failure first
      ∙ bind-eq (restore_all host root items) _ (restore host root item w).1 failures rest

  pub restore_all-IsRestored :
      (p : FilePath) (items : List Planned) (w : World)
      → IsRestorable root f items
      → IsRestored p items w
  restore_all-IsRestored p [] w r =
      ([], unfold restore_all pure in refl, λ before apart. unfold restore_all pure in before refl)
  restore_all-IsRestored p (item ∷ items) w (e, previous, r) =
      let (failures, rest, restored) =
        restore_all-IsRestored p items (restore host root item w).1 r in
      elim (restore-total item w e) [
        | inl (returned, left) ↦
            let run = restore_all-run item items w none failures returned rest in
            (
              failures,
              ap (λ o. o.0) run,
              λ before apart.
                  ap (λ (o : Outcome Error (List Text) × World). o.1.files p) run
                  ∙ restored (restored_first item items p w e previous returned left before) apart,
            )
        | inr returned ↦
            let run = restore_all-run item items w (some item.path) failures returned rest in
            (
              item.path ∷ failures,
              ap (λ o. o.0) run,
              λ before apart.
                  let (away, others) =
                    both_false (path_eq (resolve root item.path) p) (is_among root p failures)
                      apart in
                  ap (λ (o : Outcome Error (List Text) × World). o.1.files p) run
                  ∙ restored
                      (restored_apart item items p w e (ap (λ q. path_eq q p) e ∙ away) before)
                      others,
            )
      ]
