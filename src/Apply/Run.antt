-- ===== src/Apply/Run.antt =====
-- applyWorkflow of workflow-kernel/workflow-plugin.js. The toasts of an apply, which are best effort, and
-- the release of the apply lock are left out; the hashes of the plan and of the staged mutations are
-- given.
use opencode_workflows.Prelude.{
  ℕ, String, true, false, not, none, some, List, str_eq, length, if◌then◌else◌,
}
use opencode_workflows.Paths.{FilePath}
use opencode_workflows.Apply.{
  Error, refused, overlapping_patch, finalization_failed, Status, apply_failed, applied,
  apply_running, review_required, ApplyRecord, started, completed, failed, RunState, Host, Io,
  ◌>>=◌, ◌>>◌, catching, pure, throwing, call, reading, require, append_apply_ledger, save_state,
  set_state, finalizes, takes_lock, asks_clean, measures, closes_out, not_in_plan_mode,
  wrong_intent, invalid_run, active_run_lock, not_awaiting_approval, hash_mismatch,
}
use opencode_workflows.Apply.Targets.{
  RawPatch, Planned, validate_patch_targets, verify_applied_patch_contents,
}
use opencode_workflows.Apply.Patches.{write_patches, rollback_patches}
use opencode_workflows.Apply.Approval.{
  Args, Entry, Approved, lift, approved_hashes, mismatches, none_of, is_interrupted_recovery,
  is_applied, is_awaiting, is_admitted, apply_ledger_has_completed, run_lock_active,
}

-- The status after an error: overlapping patches are for a review.
abbrev pub status_after : Error → Status
status_after overlapping_patch = review_required
status_after e = apply_failed

-- What an apply comes to, with the number of domain mutations that it finalized.
pub data Applied : Type 0 where
  already_applied : ℕ → Applied
  patches_applied : ℕ → ℕ → Applied

module _ (host : Host) (root : FilePath) where
  -- `finalizeAfterApply`.
  unfoldable pub finalize_after_apply : Io ℕ
  unfolding call set_state save_state
  finalize_after_apply =
      catching
        (do
          finalized ← call finalizes host.finalize
          set_state (λ s. record s { finalized = some finalized; status = applied; error = none })
          call measures host.measure
          save_state host
          call closes_out host.close_out
          pure finalized)
        λ e. do
          set_state (λ s. record s { status = apply_failed; error = some finalization_failed })
          save_state host
          throwing e

  abbrev pub fail_with : {A : Type 0} → Status → Error → Io A
  fail_with status e = do
    set_state (λ s. record s { status = status; error = some e })
    save_state host
    throwing e

  -- `verifyRecoveryAppliedContents`.
  unfoldable pub verify_recovery_applied_contents : List RawPatch → Io (Unit {0})
  unfolding validate_patch_targets verify_applied_patch_contents set_state save_state
  verify_recovery_applied_contents patches =
      catching (validate_patch_targets host root false patches >>= verify_applied_patch_contents)
        (fail_with apply_failed)

  -- A run whose patches are on disk: only its mutations are left.
  unfoldable pub finish_applied : List RawPatch → Io Applied
  unfolding verify_recovery_applied_contents finalize_after_apply
  finish_applied patches = do
    verify_recovery_applied_contents patches
    finalized ← finalize_after_apply
    pure (already_applied finalized)

  -- The `catch` of the writes.
  unfoldable pub roll_back : {A : Type 0} → List Planned → String → Error → Io A
  unfolding rollback_patches set_state append_apply_ledger save_state
  roll_back planned plan_hash e = do
    failures ← rollback_patches host root planned
    set_state (λ s. record s { status = status_after e; error = some e })
    append_apply_ledger host (failed plan_hash e failures)
    save_state host
    throwing e

  unfoldable pub write_planned : List Planned → String → Io (Unit {0})
  unfolding write_patches append_apply_ledger roll_back
  write_planned planned plan_hash =
      catching (write_patches host root planned >> append_apply_ledger host (completed plan_hash))
        (roll_back planned plan_hash)

  unfoldable pub plan_targets : List RawPatch → Io (List Planned)
  unfolding validate_patch_targets call set_state save_state
  plan_targets patches =
      catching (call asks_clean host.git_clean >> validate_patch_targets host root true patches)
        λ e. fail_with (status_after e) e

  -- From the plan of a fresh apply on.
  unfoldable pub apply_fresh : List RawPatch → String → Io Applied
  unfolding plan_targets write_planned finalize_after_apply append_apply_ledger set_state save_state
  apply_fresh patches plan_hash = do
    planned ← plan_targets patches
    set_state (λ s. record s { status = apply_running })
    save_state host
    append_apply_ledger host (started plan_hash)
    write_planned planned plan_hash
    finalized ← finalize_after_apply
    pure (patches_applied (length planned) finalized)

  -- The three ways of an approved plan.
  unfoldable pub apply_plan : RunState → List ApplyRecord → List RawPatch → String → Io Applied
  unfolding is_applied apply_ledger_has_completed is_interrupted_recovery finish_applied apply_fresh
  apply_plan state ledger patches plan_hash =
      if is_applied state.status
      then finish_applied patches
      else if apply_ledger_has_completed ledger plan_hash
      then finish_applied patches
      else if is_interrupted_recovery state.status
      then throwing (refused not_awaiting_approval)
      else apply_fresh patches plan_hash

  -- What runs under the apply lock.
  unfoldable pub apply_locked : Approved → Entry → Io Applied
  unfolding is_applied is_awaiting is_interrupted_recovery lift mismatches require apply_plan
  apply_locked approved entry = do
    require (not (run_lock_active entry.run_lock)) active_run_lock
    state ← reading (λ w. w.state)
    require (is_admitted state.status) not_awaiting_approval
    plan ← lift entry.plan
    require (none_of (mismatches approved state entry plan)) hash_mismatch
    ledger ← reading (λ w. w.ledger)
    apply_plan state ledger plan.patches (entry.plan_hash plan)

  unfoldable pub apply_workflow : Args → Entry → Io Applied
  unfolding approved_hashes apply_locked call require lift
  apply_workflow args entry = do
    require (not args.in_plan_mode) not_in_plan_mode
    require (str_eq args.approval_intent "apply") wrong_intent
    approved ← lift (approved_hashes args)
    require entry.valid invalid_run
    call takes_lock host.lock
    apply_locked approved entry
