-- ===== src/Apply/Auto.antt =====
-- The apply that a drain does by itself: runAutoApply of workflow-kernel/workflow-plugin.js, with
-- shouldAutoApplyDrain and the code of the run that calls it.
use opencode_workflows.Prelude.{
  String, Bool, true, false, ◌&&◌, ◌||◌, Option, none, some, List, [], ◌∷◌, any, if◌then◌else◌,
}
use opencode_workflows.Authority.Pattern.{Text}
use opencode_workflows.Paths.{FilePath, is_below}
use opencode_workflows.Apply.{
  Error, finalization_failed, Status, awaiting_diff_approval, apply_failed, apply_running,
  other_status, failed, started, completed, domain_finalized, Host, Io, ◌>>=◌, ◌>>◌, catching, pure,
  call, reading, append_apply_ledger, save_state, set_state, finalizes, asks_clean,
}
use opencode_workflows.Apply.Targets.{RawPatch, Planned, validate_patch_targets}
use opencode_workflows.Apply.Patches.{write_patches, rollback_patches}

-- What the gate reads of a run: whether its harness is the drain, whether the profile of its authority is
-- `drain-autonomous-local`, its source, and `supportsAutoApply` of the adapter that is registered for it.
pub record DrainRun : Type 0 where
  pub is_drain : Bool
  pub is_autonomous_local : Bool
  pub source_path : FilePath
  pub registration : Option Bool

-- `isTrustedAutoApplySource`, with the directory of the bundled workflows and those of the extensions.
unfoldable pub is_trusted_auto_apply_source : FilePath → List FilePath → FilePath → Bool
unfolding is_below
is_trusted_auto_apply_source bundled_dir extension_dirs source =
    is_below bundled_dir source || any (λ dir. is_below dir source) extension_dirs

abbrev pub may_apply : Option Bool → Bool
may_apply none = true
may_apply (some supports_auto_apply) = supports_auto_apply

unfoldable pub should_auto_apply_drain : FilePath → List FilePath → DrainRun → Bool
unfolding is_trusted_auto_apply_source
should_auto_apply_drain bundled_dir extension_dirs run =
    run.is_drain
    && run.is_autonomous_local
    && is_trusted_auto_apply_source bundled_dir extension_dirs run.source_path
    && may_apply run.registration

abbrev pub is_awaiting_diff : Status → Bool
is_awaiting_diff awaiting_diff_approval = true
is_awaiting_diff status = false

module _ (host : Host) (root : FilePath) where
  -- A `catch` of the apply, with the paths whose rollback failed.
  abbrev pub give_up_auto : {A : Type 0} → A → String → Error → List Text → Io A
  give_up_auto result plan_hash e failures = do
    set_state (λ s. record s { status = apply_failed; error = some e })
    append_apply_ledger host (failed plan_hash e failures)
    save_state host
    pure result

  -- The plan of the targets, `none` where it fails.
  unfoldable pub auto_targets : List RawPatch → String → Io (Option (List Planned))
  unfolding call validate_patch_targets set_state append_apply_ledger save_state pure
  auto_targets patches plan_hash =
      catching
        (do
          call asks_clean host.git_clean
          planned ← validate_patch_targets host root true patches
          pure (some planned))
        λ e. give_up_auto none plan_hash e []

  -- The writes, and whether they are all done.
  unfoldable pub auto_writes : List Planned → String → Io Bool
  unfolding write_patches rollback_patches append_apply_ledger set_state save_state pure
  auto_writes planned plan_hash =
      catching
        (do
          write_patches host root planned
          append_apply_ledger host (completed plan_hash)
          pure true)
        λ e. rollback_patches host root planned >>= give_up_auto false plan_hash e

  unfoldable pub auto_finalize : String → Io Bool
  unfolding call set_state append_apply_ledger save_state pure
  auto_finalize plan_hash =
      catching
        (do
          finalized ← call finalizes host.finalize
          set_state (λ s. record s { finalized = some finalized; error = none })
          append_apply_ledger host (domain_finalized finalized)
          pure true)
        λ e. give_up_auto false plan_hash finalization_failed []

  -- From the plan of the targets on.
  abbrev pub auto_planned : String → Option (List Planned) → Io Bool
  auto_planned plan_hash none = pure false
  auto_planned plan_hash (some planned) = do
    set_state (λ s. record s { status = apply_running })
    save_state host
    append_apply_ledger host (started plan_hash)
    written ← auto_writes planned plan_hash
    if written then auto_finalize plan_hash else pure false

  -- `runAutoApply` on the patches of `run.editPlan`, which are none without a plan.
  unfoldable pub run_auto_apply : List RawPatch → String → Io Bool
  unfolding auto_targets auto_writes auto_finalize set_state save_state append_apply_ledger pure
  run_auto_apply [] plan_hash = pure false
  run_auto_apply (patch ∷ patches) plan_hash =
      auto_targets (patch ∷ patches) plan_hash >>= auto_planned plan_hash

  abbrev pub complete_if : Bool → Io (Unit {0})
  complete_if true = set_state (λ s. record s { status = other_status })
  complete_if false = pure tt

  -- What the run does once its status is known; `completed` is a status that an apply does not tell apart.
  unfoldable pub auto_apply_drain :
      FilePath → List FilePath → DrainRun → List RawPatch → String → Io (Unit {0})
  unfolding should_auto_apply_drain run_auto_apply reading set_state pure
  auto_apply_drain bundled_dir extension_dirs run patches plan_hash = do
    state ← reading (λ w. w.state)
    let goes =
        is_awaiting_diff state.status && should_auto_apply_drain bundled_dir extension_dirs run
    if goes then run_auto_apply patches plan_hash >>= complete_if else pure tt
