-- ===== src/Tests/Drain.antt =====
-- An adapter with one item that is found until it is claimed, whose lane succeeds at once.
use opencode_workflows.Prelude.{
  ◌≡◌, refl, ◌⊎◌, true, false, some, [], ◌∷◌, ok, throw, any, Bool, if◌then◌else◌,
}
use opencode_workflows.Drain.{
  Call, Adapter, RawLaneReport, RawValidationReport, World, ◌>>=◌, pure, lift, call, modify,
  reading, catching, failure,
}
use opencode_workflows.Drain.Reports.{
  validate_lane_report, validate_validation_report, normalize_classification, item_id, required_id,
  lane_outcome, classification,
}
use opencode_workflows.Drain.Attempt.{
  lifecycle_point, enter_phase, launch_allowed, create_followups, release_claimed_item,
  apply_repair_backoff, lane_phase, validation_phase, give_up, repair, close_item, after_validation,
  after_lane, stop_for_budget, run_lane_attempt,
}
use opencode_workflows.Drain.Item.{
  attempts_loop, give_up_unclosed, release_unless, on_exception, work_on, claim_and_work,
  refuse_claim, process_ready_item,
}
use opencode_workflows.Drain.Loop.{
  FinalStatus, complete, dry_run_complete, failed_drain, final_status, plan_items, process_items,
  classify_items, discover_ready, start_plan, plan_wave, work_wave, end_wave, handle_wave, run_wave,
  run_waves, keep_error, waves_or_error, final_audit, finish, drain, empty_world,
}
use opencode_workflows.Drain.Frames.{view}
use opencode_workflows.Drain.Claims.{IsCovered}
use opencode_workflows.Drain.Complete.{IsFinished, drain-IsCovered, drain-IsFinished}
use opencode_workflows.Drain.DryRun.{IsQuiet, drain_dry_run}

abbrev is_claim : Call → Bool
is_claim (Call.claim id) = true
is_claim _ = false

abbrev lane_report : RawLaneReport
lane_report = record {
  item_id = some "a";
  outcome = "implemented";
  summary = some "done";
  ready_for_integration = some true;
  files_changed = true;
  commands_run = true;
  acceptance_evidence = true;
  residual_risks = true;
  followups = some ("b" ∷ []);
  salvage_dirty = false;
}

abbrev validation_report : RawValidationReport
validation_report = record {
  item_id = some "a";
  accepted = some true;
  reason = some "fine";
  diff_scope_ok = some true;
  followups_handled = some true;
  acceptance_checklist = true;
  validation_commands = true;
  followups = [];
}

abbrev one_item : Adapter
one_item = record {
  lifecycle = λ _. ok tt;
  can_launch = λ _. ok true;
  discover = λ calls. ok (some (if any is_claim calls then [] else some "a" ∷ []));
  classify = λ _. ok (some "ready");
  claim = λ _. ok tt;
  packet = λ _. ok tt;
  lane = λ _. ok (some lane_report);
  integrate = λ _. ok tt;
  validate = λ _. ok (some validation_report);
  close = λ _. ok tt;
  followup = λ _. ok "b";
  release = some (λ _. ok tt);
  sleep = λ _. ok tt;
  dry = λ _. ok true;
}

-- The same, but the call that closes an item throws.
abbrev cannot_close : Adapter
cannot_close = record one_item { close = λ _. throw (failure "conflict") }

abbrev after_drain : World
after_drain = (drain one_item 0 2 false 10 empty_world).1

drained_once : drain one_item 0 2 false 10 empty_world ≡ (ok complete, after_drain)
unfolding drain finish final_audit waves_or_error keep_error run_waves run_wave handle_wave end_wave
    work_wave plan_wave start_plan discover_ready classify_items process_items plan_items
    final_status process_ready_item refuse_claim claim_and_work work_on on_exception release_unless
    give_up_unclosed attempts_loop run_lane_attempt stop_for_budget after_lane after_validation
    close_item repair give_up validation_phase lane_phase apply_repair_backoff release_claimed_item
    create_followups launch_allowed enter_phase lifecycle_point validate_lane_report
    validate_validation_report normalize_classification item_id required_id lane_outcome
    classification ◌>>=◌ pure lift call modify reading catching
drained_once = refl

drain-IsFinished_example : IsFinished (view after_drain)
drain-IsFinished_example =
    drain-IsFinished one_item 0 1 (λ _. ok tt) refl false 10 after_drain drained_once

drain-IsCovered_example : IsCovered (view (drain cannot_close 0 2 false 10 empty_world).1)
drain-IsCovered_example = drain-IsCovered cannot_close 0 1 (λ _. ok tt) refl false 10

drain_dry_run_example :
    let (result, w) = drain one_item 0 2 true 10 empty_world in
    IsQuiet w
    × ((status : FinalStatus)
        → result ≡ ok status
        → (status ≡ dry_run_complete) ⊎ (status ≡ failed_drain))
drain_dry_run_example = drain_dry_run one_item 0 2 10
