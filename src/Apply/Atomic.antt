-- ===== src/Apply/Atomic.antt =====
-- Whether the patches of an apply of workflow-kernel/workflow-plugin.js are written all or not at all.
use opencode_workflows.Prelude.{
  ◌≡◌, ◌≢◌, refl, sym, subst, ap, ◌∙◌, ◌⊎◌, inl, inr, String, false, Option, some, List, [], ◌∷◌,
  Outcome, ok, throw, ok-injective,
}
use mathlib.Core.List.{reverse, reverse_aux}
use opencode_workflows.Authority.Pattern.{Text}
use opencode_workflows.Paths.{FilePath, path_eq}
use opencode_workflows.Apply.{
  Error, Host, World, Io, ◌>>◌, append_apply_ledger, completed, failed, set_state, save_state,
  throwing,
}
use opencode_workflows.Apply.Frames.{same_files, Keeps, Keeps-bind, Keeps-throwing}
use opencode_workflows.Apply.Yields.{Yields, Yields-then, Yields-throwing}
use opencode_workflows.Apply.Runs.{bind-ok, bind-eq, catching-cases}
use opencode_workflows.Apply.Looking.{append_apply_ledger-Keeps, set_state-Keeps, save_state-Keeps}
use opencode_workflows.Apply.Calm.{IsCalm}
use opencode_workflows.Apply.Targets.{Planned}
use opencode_workflows.Apply.Restoring.{
  at_path, is_target, is_among, both_false, IsRestorable, restore_all-IsRestored,
}
use opencode_workflows.Apply.Writing.{after_writes, write_patches-apart, write_patches-holds}
use opencode_workflows.Apply.Patches.{write_patches, rollback_patches}
use opencode_workflows.Apply.Run.{status_after, roll_back, write_planned}

-- Turning the items around.
reverse-IsRestorable :
    (root : FilePath) (f : FilePath → Option String) (items done : List Planned)
    → IsRestorable root f items
    → IsRestorable root f done
    → IsRestorable root f (reverse_aux items done)
reverse-IsRestorable root f [] done r q = q
reverse-IsRestorable root f (item ∷ items) done (e, previous, r) q =
    reverse-IsRestorable root f items (item ∷ done) r (e, previous, q)

reverse-is_target :
    (items done : List Planned) (p : FilePath)
    → is_target (reverse_aux items done) p ≡ false
    → (is_target items p ≡ false) × (is_target done p ≡ false)
reverse-is_target [] done p h = (refl, h)
reverse-is_target (item ∷ items) done p h =
    let (here, there) = reverse-is_target items (item ∷ done) p h in
    let (apart, others) = both_false (path_eq item.target p) (is_target done p) there in
    (rw apart here, others)

module _ (host : Host) (root : FilePath) where
  -- The writes with the record of their completion.
  abbrev pub writes_all : List Planned → String → Io (Unit {0})
  writes_all planned plan_hash =
      write_patches host root planned >> append_apply_ledger host (completed plan_hash)

  -- The writes return and the files are as given, or they throw, the rollback returns the paths that it
  -- could not restore, and every path that is not the target of one of these is as given for that case.
  abbrev pub IsAllOrNothing :
      List Planned
      → String
      → World
      → (FilePath → Option String)
      → (FilePath → Option String)
      → Type 0
  IsAllOrNothing planned plan_hash w after before =
      (((write_planned host root planned plan_hash w).0 ≡ ok tt)
        × ((p : FilePath) → (write_planned host root planned plan_hash w).1.files p ≡ after p))
      ⊎ ((e : Error) × (failures : List Text) × ((writes_all planned plan_hash w).0 ≡ throw e)
          × ((b : Unit {0}) → (write_planned host root planned plan_hash w).0 ≢ ok b)
          × ((rollback_patches host root planned (writes_all planned plan_hash w).1).0
              ≡ ok failures)
          × ((p : FilePath)
              → is_among root p failures ≡ false
              → (write_planned host root planned plan_hash w).1.files p ≡ before p))

  roll_back-never :
      (planned : List Planned) (h : String) (e : Error)
      → Yields (roll_back host root {A = Unit {0}} planned h e) (λ a w. ⊥)
  unfolding roll_back
  roll_back-never planned h e =
      Yields-then _
        λ failures. Yields-then _ λ a. Yields-then _ λ b. Yields-then _ λ c. Yields-throwing e

  roll_back-files :
      (planned : List Planned) (h : String) (e : Error) (failures : List Text) (w : World)
      → (rollback_patches host root planned w).0 ≡ ok failures
      → (roll_back host root {A = Unit {0}} planned h e w).1.files
        ≡ (rollback_patches host root planned w).1.files
  unfolding roll_back
  roll_back-files planned h e failures w returned =
      let rest : (failures : List Text)
          → Keeps same_files (do
            set_state (λ s. record s { status = status_after e; error = some e })
            append_apply_ledger host (failed h e failures)
            save_state host
            throwing {A = Unit {0}} e) =
        λ failures. Keeps-bind (set_state-Keeps _) λ a.
          Keeps-bind (append_apply_ledger-Keeps host _)
            λ b. Keeps-bind (save_state-Keeps host) λ c. Keeps-throwing e in
      ap (λ (r : Outcome Error (Unit {0}) × World). r.1.files)
        (bind-eq (rollback_patches host root planned) _ w failures returned)
      ∙ (rest failures).keeps (rollback_patches host root planned w).1

  module _ (calm : IsCalm host root) where
    writes_all-apart :
        (f : FilePath → Option String) (planned : List Planned) (h : String) (p : FilePath)
        → IsRestorable root f planned
        → is_target planned p ≡ false
        → Keeps (at_path p) (writes_all planned h)
    writes_all-apart f planned h p r apart =
        Keeps-bind (write_patches-apart host root calm f planned p r apart)
          λ a. append_apply_ledger-Keeps host _

    writes_all-holds :
        (f : FilePath → Option String) (planned : List Planned) (h : String) (p : FilePath)
        (w : World) (a : Unit {0})
        → IsRestorable root f planned
        → (writes_all planned h w).0 ≡ ok a
        → (writes_all planned h w).1.files p ≡ after_writes planned p (w.files p)
    writes_all-holds f planned h p w a r e =
        let (b, wrote, noted, run) = bind-ok (write_patches host root planned) _ w a e in
        ap (λ (o : Outcome Error (Unit {0}) × World). o.1.files p) run
        ∙ (append_apply_ledger-Keeps {frame = at_path p} host (completed h)).keeps _
        ∙ write_patches-holds host root calm f planned p w r wrote

    restored_at :
        (g : FilePath → Option String) (p : FilePath) (planned : List Planned) (h : String)
        (w : World) (failures : List Text)
        → IsRestorable root g planned
        → (is_target planned p ≡ false → w.files p ≡ g p)
        → (rollback_patches host root planned (writes_all planned h w).1).0 ≡ ok failures
        → is_among root p failures ≡ false
        → (rollback_patches host root planned (writes_all planned h w).1).1.files p ≡ g p
    unfolding rollback_patches
    restored_at g p planned h w failures r other returned apart =
        let w2 = (writes_all planned h w).1 in
        let (found, same, restored) =
          restore_all-IsRestored host root calm g p (reverse planned) w2
            (reverse-IsRestorable root g planned [] r tt) in
        restored
          (λ away.
            let (others, nothing) = reverse-is_target planned [] p away in
            (writes_all-apart g planned h p r others).keeps w ∙ other others)
          (subst (λ paths. is_among root p paths ≡ false) (ok-injective (sym returned ∙ same))
            apart)

    -- The writes of a plan whose previous contents are those of g, which is what the files hold elsewhere.
    pub write_planned-IsAtomic :
        (g : FilePath → Option String) (planned : List Planned) (plan_hash : String) (w : World)
        → IsRestorable root g planned
        → ((p : FilePath) → is_target planned p ≡ false → w.files p ≡ g p)
        → IsAllOrNothing planned plan_hash w (λ p. after_writes planned p (w.files p)) g
    unfolding write_planned rollback_patches
    write_planned-IsAtomic g planned plan_hash w r other =
        let rolled = reverse-IsRestorable root g planned [] r tt in
        elim (catching-cases (writes_all planned plan_hash) (roll_back host root planned plan_hash)
          w) [
            | inl (a, wrote, same) ↦ inl (
              ap (λ o. o.0) same ∙ wrote,
              λ p.
                  ap (λ (o : Outcome Error (Unit {0}) × World). o.1.files p) same
                  ∙ writes_all-holds g planned plan_hash p w a r wrote,
            )
            | inr (e, thrown, same) ↦
                let w2 = (writes_all planned plan_hash w).1 in
                let (failures, returned, u) =
                  restore_all-IsRestored host root calm g [] (reverse planned) w2 rolled in
                inr (
                  e,
                  failures,
                  thrown,
                  λ b bad.
                      (roll_back-never planned plan_hash e).yields w2 b
                        (sym (ap (λ o. o.0) same) ∙ bad),
                  returned,
                  λ p apart.
                      ap (λ (o : Outcome Error (Unit {0}) × World). o.1.files p) same
                      ∙ ap (λ (g : FilePath → Option String). g p)
                          (roll_back-files planned plan_hash e failures w2 returned)
                      ∙ restored_at g p planned plan_hash w failures r (other p) returned apart,
                )
          ]
