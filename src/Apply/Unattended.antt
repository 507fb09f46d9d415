-- ===== src/Apply/Unattended.antt =====
-- What a drain of workflow-kernel/workflow-plugin.js that applied its plan by itself leaves.
use opencode_workflows.Prelude.{
  ℕ, ◌≡◌, refl, sym, ap, ◌∙◌, inl, inr, String, Bool, true, false, Option, none, some, List, [],
  ◌∷◌, Outcome, ok, throw, ok-injective, eq_refl, if◌then◌else◌,
}
use opencode_workflows.Authority.Pattern.{Text}
use opencode_workflows.Paths.{FilePath}
use opencode_workflows.Apply.{
  Error, apply_running, ApplyRecord, completed, domain_finalized, started, Host, World, Io, ◌>>=◌,
  ◌>>◌, pure, call, append_apply_ledger, appends, noted, set_state, save_state, finalizes,
  finalization_failed,
}
use opencode_workflows.Apply.Frames.{throw≢ok}
use opencode_workflows.Apply.Runs.{bind-ok, catching-cases}
use opencode_workflows.Apply.Auto.{
  auto_targets, auto_writes, auto_finalize, auto_planned, run_auto_apply, give_up_auto,
}
use opencode_workflows.Apply.Targets.{RawPatch, Planned}
use opencode_workflows.Apply.Patches.{write_patches, rollback_patches}
use opencode_workflows.Apply.Approval.{Args, Entry, Plan, apply_ledger_has_completed}
use opencode_workflows.Apply.Run.{apply_workflow}
use opencode_workflows.Apply.Gate.{apply_workflow-IsReleased}

module _ (host : Host) (root : FilePath) where
  append-ledger :
      (r : ApplyRecord) (w : World) (a : Unit {0})
      → (append_apply_ledger host r w).0 ≡ ok a
      → (append_apply_ledger host r w).1.ledger ≡ r ∷ w.ledger
  unfolding append_apply_ledger
  append-ledger r w a h = settle (host.append (appends ∷ w.calls)) w h
    where
      settle :
          (o : Outcome Error (Unit {0})) (w : World)
          → (noted host r o (record w { calls = appends ∷ w.calls })).0 ≡ ok a
          → (noted host r o (record w { calls = appends ∷ w.calls })).1.ledger ≡ r ∷ w.ledger
      settle (ok done) w h = refl
      settle (throw e) w h = absurd (throw≢ok _ _ h)

  -- What was given up does not return true.
  give_up_auto-ok :
      {A : Type 0} (result : A) (plan_hash : String) (e : Error) (failures : List Text) (w : World)
      (b : A)
      → (give_up_auto host root result plan_hash e failures w).0 ≡ ok b
      → result ≡ b
  unfolding pure
  give_up_auto-ok result plan_hash e failures w b h =
      let (x, h0, h1, run1) = bind-ok _ _ w b h in
      let (y, h2, h3, run2) = bind-ok _ _ _ b h1 in
      let (z, h4, h5, run3) = bind-ok _ _ _ b h3 in ok-injective h5

  -- Writes that are all done are recorded last.
  auto_writes-ledger :
      (planned : List Planned) (plan_hash : String) (w : World)
      → (auto_writes host root planned plan_hash w).0 ≡ ok true
      → (rest : List ApplyRecord) × ((auto_writes host root planned plan_hash w).1.ledger
          ≡ completed plan_hash ∷ rest)
  unfolding auto_writes pure
  auto_writes-ledger planned plan_hash w h =
      elim (catching-cases
        (do
          write_patches host root planned
          append_apply_ledger host (completed plan_hash)
          pure true)
        (λ e. rollback_patches host root planned >>= give_up_auto host root false plan_hash e) w) [
          | inl (b, returned, same) ↦
              let (x, wrote, h1, run1) = bind-ok (write_patches host root planned) _ w b returned in
              let w1 = (write_patches host root planned w).1 in
              let (y, noted_, h2, run2) =
                bind-ok (append_apply_ledger host (completed plan_hash)) _ w1 b h1 in
              (
                w1.ledger,
                ap (λ (r : Outcome Error Bool × World). r.1.ledger) (same ∙ run1 ∙ run2)
                    ∙ append-ledger (completed plan_hash) w1 y noted_,
              )
          | inr (e, thrown, same) ↦
              let (failures, rolled, h1, run1) =
                bind-ok (rollback_patches host root planned) _ _ true
                  (sym (ap (λ (r : Outcome Error Bool × World). r.0) same) ∙ h) in
              let bad : false ≡ true = give_up_auto-ok false plan_hash e failures _ true h1 in cc
        ]

  auto_finalize-ledger :
      (plan_hash : String) (w : World)
      → (auto_finalize host root plan_hash w).0 ≡ ok true
      → (n : ℕ) × ((auto_finalize host root plan_hash w).1.ledger ≡ domain_finalized n ∷ w.ledger)
  unfolding auto_finalize pure call set_state
  auto_finalize-ledger plan_hash w h =
      let setting : ℕ → Io (Unit {0}) =
        λ n. set_state (λ s. record s { finalized = some n; error = none }) in
      elim (catching-cases
        (do
          n ← call finalizes host.finalize
          setting n
          append_apply_ledger host (domain_finalized n)
          pure true)
        (λ e. give_up_auto host root false plan_hash finalization_failed []) w) [
          | inl (b, returned, same) ↦
              let (n, asked, h1, run1) = bind-ok (call finalizes host.finalize) _ w b returned in
              let w1 = (call finalizes host.finalize w).1 in
              let (x, set, h2, run2) = bind-ok (setting n) _ w1 b h1 in
              let w2 = (setting n w1).1 in
              let (y, noted_, h3, run3) =
                bind-ok (append_apply_ledger host (domain_finalized n)) _ w2 b h2 in
              (
                n,
                ap (λ (r : Outcome Error Bool × World). r.1.ledger) (same ∙ run1 ∙ run2 ∙ run3)
                    ∙ append-ledger (domain_finalized n) w2 y noted_,
              )
          | inr (e, thrown, same) ↦
              let bad : false ≡ true =
                give_up_auto-ok false plan_hash finalization_failed [] _ true
                  (sym (ap (λ (r : Outcome Error Bool × World). r.0) same) ∙ h) in
              cc
        ]

  completed_lem :
      (plan_hash : String) (n : ℕ) (rest : List ApplyRecord)
      → apply_ledger_has_completed (domain_finalized n ∷ completed plan_hash ∷ rest) plan_hash
        ≡ true
  unfolding apply_ledger_has_completed
  completed_lem plan_hash n rest = rw (eq_refl plan_hash) refl

  written-ledger :
      (planned : List Planned) (plan_hash : String) (w : World) (written : Bool)
      → (auto_writes host root planned plan_hash w).0 ≡ ok written
      → let w1 = (auto_writes host root planned plan_hash w).1 in
        let m = if written then auto_finalize host root plan_hash else pure false in
        (m w1).0 ≡ ok true → apply_ledger_has_completed (m w1).1.ledger plan_hash ≡ true
  unfolding pure
  written-ledger planned plan_hash w false h k = let bad : false ≡ true = ok-injective k in cc
  written-ledger planned plan_hash w true h k =
      let (rest, at) = auto_writes-ledger planned plan_hash w h in
      let (n, finalized) = auto_finalize-ledger plan_hash _ k in
      ap (λ ledger. apply_ledger_has_completed ledger plan_hash)
        (finalized ∙ ap (λ ledger. domain_finalized n ∷ ledger) at)
      ∙ completed_lem plan_hash n rest

  planned-ledger :
      (plan_hash : String) (o : Option (List Planned)) (w : World)
      → (auto_planned host root plan_hash o w).0 ≡ ok true
      → apply_ledger_has_completed (auto_planned host root plan_hash o w).1.ledger plan_hash ≡ true
  unfolding pure
  planned-ledger plan_hash none w h = let bad : false ≡ true = ok-injective h in cc
  planned-ledger plan_hash (some planned) w h =
      let running : Io (Unit {0}) = set_state (λ s. record s { status = apply_running }) in
      let (a, set, h1, run1) = bind-ok running _ w true h in
      let w1 = (running w).1 in
      let (b, saved, h2, run2) = bind-ok (save_state host) _ w1 true h1 in
      let w2 = (save_state host w1).1 in
      let (c, noted_, h3, run3) =
        bind-ok (append_apply_ledger host (started plan_hash)) _ w2 true h2 in
      let w3 = (append_apply_ledger host (started plan_hash) w2).1 in
      let (written, wrote, h4, run4) =
        bind-ok (auto_writes host root planned plan_hash) _ w3 true h3 in
      ap (λ (r : Outcome Error Bool × World). apply_ledger_has_completed r.1.ledger plan_hash)
        (run1 ∙ run2 ∙ run3 ∙ run4)
      ∙ written-ledger planned plan_hash w3 written wrote h4

  -- An auto-apply that succeeds has the completion of its plan in the ledger.
  run_auto_apply-ledger :
      (patches : List RawPatch) (plan_hash : String) (w : World)
      → (run_auto_apply host root patches plan_hash w).0 ≡ ok true
      → apply_ledger_has_completed (run_auto_apply host root patches plan_hash w).1.ledger plan_hash
        ≡ true
  unfolding run_auto_apply pure
  run_auto_apply-ledger [] plan_hash w h = let bad : false ≡ true = ok-injective h in cc
  run_auto_apply-ledger (patch ∷ patches) plan_hash w h =
      let (o, targets, h1, run1) =
        bind-ok (auto_targets host root (patch ∷ patches) plan_hash) _ w true h in
      ap (λ (r : Outcome Error Bool × World). apply_ledger_has_completed r.1.ledger plan_hash) run1
      ∙ planned-ledger plan_hash o _ h1

  -- After an auto-apply that succeeded, an apply of a run whose diff plan has the same hash changes no
  -- file, whatever its arguments, whatever the host answers and whether it returns or throws: the plan is
  -- written once.
  pub apply_workflow-auto_applied :
      (patches : List RawPatch) (plan_hash : String) (w : World) (later : Host) (args : Args)
      (entry : Entry)
      → (run_auto_apply host root patches plan_hash w).0 ≡ ok true
      → ((plan : Plan) → entry.plan ≡ ok plan → entry.plan_hash plan ≡ plan_hash)
      → let w' = (run_auto_apply host root patches plan_hash w).1 in
        (apply_workflow later root args entry w').1.files ≡ w'.files
  apply_workflow-auto_applied patches plan_hash w later args entry h same =
      let w' = (run_auto_apply host root patches plan_hash w).1 in
      elim (apply_workflow-IsReleased later root args entry w') [
        | inl unchanged ↦ unchanged
        | inr (approved, outside, intent, given, released) ↦
            let hash : approved.plan_hash ≡ plan_hash =
              sym released.plan_approved ∙ same released.plan released.plan_read in
            let done = run_auto_apply-ledger patches plan_hash w h in
            let bad : true ≡ false =
              sym done
              ∙ ap (apply_ledger_has_completed w'.ledger) (sym hash)
              ∙ released.not_completed in
            cc
      ]
