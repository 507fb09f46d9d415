-- ===== src/Apply/Whole.antt =====
-- A fresh apply of workflow-kernel/workflow-plugin.js, from the plan of its targets on.
use opencode_workflows.Prelude.{
  ◌≡◌, refl, sym, ap, ◌∙◌, Bool, true, false, ◌||◌, String, Option, none, some, List, [], ◌∷◌,
  Outcome, ok, inl, inr, length, if◌then◌else◌,
}
use opencode_workflows.Authority.Pattern.{Text}
use opencode_workflows.Paths.{FilePath, path_eq, path_eq_refl, resolve}
use opencode_workflows.Apply.{
  Error, apply_running, Host, World, Io, append_apply_ledger, started, set_state, save_state,
}
use opencode_workflows.Apply.Frames.{same_files, Keeps-bind, Keeps-pure}
use opencode_workflows.Apply.Runs.{bind-ok}
use opencode_workflows.Apply.Looking.{
  append_apply_ledger-Keeps, save_state-Keeps, plan_targets-Keeps, finalize_after_apply-Keeps,
}
use opencode_workflows.Apply.Calm.{IsCalm}
use opencode_workflows.Apply.Planning.{IsTruthful, Plans, plan_targets-Finds}
use opencode_workflows.Apply.Targets.{RawPatch, Planned, as_read}
use opencode_workflows.Apply.Restoring.{IsRestorable, is_target}
use opencode_workflows.Apply.Writing.{after_writes}
use opencode_workflows.Apply.Atomic.{IsAllOrNothing, write_planned-IsAtomic}
use opencode_workflows.Apply.Run.{
  plan_targets, write_planned, apply_fresh, Applied, patches_applied,
}

-- What a path holds after the patches, applied in order, of what it held.
abbrev pub after_patch :
    FilePath → Option Text → Option String → FilePath → Option String → Option String
after_patch root (some path) (some content) p held =
    if path_eq (resolve root path) p then some content else held
after_patch root (some path) none p held = held
after_patch root none content p held = held

abbrev pub after_patches : FilePath → List RawPatch → FilePath → Option String → Option String
after_patches root [] p held = held
after_patches root (patch ∷ patches) p held =
    after_patches root patches p (after_patch root patch.path patch.content p held)

Plans-IsRestorable :
    (root : FilePath) (f : FilePath → Option String) (patches : List RawPatch)
    (planned : List Planned)
    → Plans root f patches planned
    → IsRestorable root f planned
Plans-IsRestorable root f [] [] h = tt
Plans-IsRestorable root f [] (item ∷ items) h = absurd h
Plans-IsRestorable root f (patch ∷ patches) [] h = absurd h
Plans-IsRestorable root f (patch ∷ patches) (item ∷ items)
      (path, content, (a, b, target, previous), rest) =
    (target, previous, Plans-IsRestorable root f patches items rest)

Plans-after :
    (root : FilePath) (f : FilePath → Option String) (patches : List RawPatch)
    (planned : List Planned) (p : FilePath) (held : Option String)
    → Plans root f patches planned
    → after_writes planned p held ≡ after_patches root patches p held
Plans-after root f [] [] p held h = refl
Plans-after root f [] (item ∷ items) p held h = absurd h
Plans-after root f (patch ∷ patches) [] p held h = absurd h
Plans-after root f (patch ∷ patches) (item ∷ items) p held
      (path, content, (a, b, target, previous), rest) =
    Plans-after root f patches items p _ rest
    ∙ ap (after_patches root patches p) (
        ap (λ t. if path_eq t p then some item.content else held) target
        ∙ ap (λ o. after_patch root o (some item.content) p held) (sym path)
        ∙ ap (λ o. after_patch root patch.path o p held) (sym content))

-- What a rollback makes of the files: the target of a plan gets the text that was read of it.
abbrev pub as_restored : Host → List Planned → (FilePath → Option String) → FilePath → Option String
as_restored host planned files p = if is_target planned p then as_read host files p else files p

as_restored-IsRestorable :
    (host : Host) (root : FilePath) (f : FilePath → Option String) (all items : List Planned)
    → ((p : FilePath) → is_target items p ≡ true → is_target all p ≡ true)
    → IsRestorable root (as_read host f) items
    → IsRestorable root (as_restored host all f) items
as_restored-IsRestorable host root f all [] among r = tt
as_restored-IsRestorable host root f all (item ∷ items) among (target, previous, r) =
    let here : is_target all item.target ≡ true =
      among item.target (rw (path_eq_refl item.target) refl) in
    (
      target,
      previous ∙ rw here refl,
      as_restored-IsRestorable host root f all items
          (λ p h. among p (any_later (path_eq item.target p) h)) r,
    )
  where
    any_later : (a : Bool) {b : Bool} → b ≡ true → a || b ≡ true
    any_later true h = refl
    any_later false h = h

module _ (host : Host) (root : FilePath) (calm : IsCalm host root)
    (truthful : IsTruthful host) where
  -- Where descriptors land as asked and ENOENT is the truth, the writes that follow the plan of the
  -- targets, on the files that were planned from, return, and every path holds what the patches in order
  -- make of it; or they throw, the rollback returns the paths that it could not restore, and of the paths
  -- that are not the target of one of these a target holds the text that was read of it before, in
  -- UTF-8, and every other path what it held before.
  pub write_planned-IsAllOrNothing :
      (patches : List RawPatch) (planned : List Planned) (plan_hash : String) (w0 w : World)
      → (plan_targets host root patches w0).0 ≡ ok planned
      → w.files ≡ w0.files
      → IsAllOrNothing host root planned plan_hash w
          (λ p. after_patches root patches p (w0.files p))
          (as_restored host planned w0.files)
  write_planned-IsAllOrNothing patches planned plan_hash w0 w h same =
      let plans = (plan_targets-Finds host truthful root patches).finds w0 planned refl h in
      let restorable =
        as_restored-IsRestorable host root w0.files planned planned (λ p among. among)
          (Plans-IsRestorable root (as_read host w0.files) patches planned plans) in
      let written =
        write_planned-IsAtomic host root calm (as_restored host planned w0.files) planned plan_hash
          w restorable λ p apart. ap (λ (f : FilePath → Option String). f p) same ∙ rw apart refl in
      elim written [
        | inl (returned, holds) ↦ inl (
          returned,
          λ p.
              holds p
              ∙ ap (λ (f : FilePath → Option String). after_writes planned p (f p)) same
              ∙ Plans-after root (as_read host w0.files) patches planned p (w0.files p) plans,
        )
        | inr rolled ↦ inr rolled
      ]

  writes_returned :
      (patches : List RawPatch) (planned : List Planned) (plan_hash : String) (w0 w : World)
      (a : Unit {0})
      → (plan_targets host root patches w0).0 ≡ ok planned
      → w.files ≡ w0.files
      → (write_planned host root planned plan_hash w).0 ≡ ok a
      → (p : FilePath)
      → (write_planned host root planned plan_hash w).1.files p
        ≡ after_patches root patches p (w0.files p)
  writes_returned patches planned plan_hash w0 w a h same returned p =
      elim (write_planned-IsAllOrNothing patches planned plan_hash w0 w h same) [
        | inl (again, holds) ↦ holds p
        | inr (e, failures, thrown, never, rolled, restored) ↦ absurd (never a returned)
      ]

  -- Where descriptors land as asked and ENOENT is the truth, a fresh apply that returns has left in every
  -- path what the patches in order make of it: the last content for a target, and elsewhere what it was.
  pub apply_fresh-writes :
      (patches : List RawPatch) (plan_hash : String) (w : World) (result : Applied)
      → (apply_fresh host root patches plan_hash w).0 ≡ ok result
      → (p : FilePath)
      → (apply_fresh host root patches plan_hash w).1.files p
        ≡ after_patches root patches p (w.files p)
  unfolding apply_fresh
  apply_fresh-writes patches plan_hash w result h p =
      let (planned, targets, h1, run1) = bind-ok (plan_targets host root patches) _ w result h in
      let w1 = (plan_targets host root patches w).1 in
      let running : Io (Unit {0}) = set_state (λ s. record s { status = apply_running }) in
      let (a, set, h2, run2) = bind-ok running _ w1 result h1 in
      let w2 = (running w1).1 in
      let (b, saved, h3, run3) = bind-ok (save_state host) _ w2 result h2 in
      let w3 = (save_state host w2).1 in
      let (c, noted, h4, run4) =
        bind-ok (append_apply_ledger host (started plan_hash)) _ w3 result h3 in
      let w4 = (append_apply_ledger host (started plan_hash) w3).1 in
      let (d, wrote, h5, run5) =
        bind-ok (write_planned host root planned plan_hash) _ w4 result h4 in
      let w5 = (write_planned host root planned plan_hash w4).1 in
      let same : w4.files ≡ w.files =
        (append_apply_ledger-Keeps {frame = same_files} host (started plan_hash)).keeps w3
        ∙ (save_state-Keeps {frame = same_files} host).keeps w2
        ∙ (plan_targets-Keeps {frame = same_files} host root patches).keeps w in
      ap (λ (r : Outcome Error Applied × World). r.1.files p) (run1 ∙ run2 ∙ run3 ∙ run4 ∙ run5)
      ∙ ap (λ (f : FilePath → Option String). f p)
          ((Keeps-bind {frame = same_files} (finalize_after_apply-Keeps host root)
              λ finalized. Keeps-pure (patches_applied (length planned) finalized)).keeps
            w5)
      ∙ writes_returned patches planned plan_hash w w4 d targets same wrote p
