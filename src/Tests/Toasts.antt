-- ===== src/Tests/Toasts.antt =====
-- Failures of lanes that come too fast for a toast each.
use opencode_workflows.Prelude.{◌≡◌, refl, ◌+◌, false, none, some, List, [], ◌∷◌, String}
use opencode_workflows.Prelude.Dict
use opencode_workflows.Toasts.{
  Event, Snapshot, Options, create_workflow_toast_policy_state, evaluate_budget_policy,
  evaluate_stall_policy, evaluate_failure_policy, failure_category, problem_ready, mark_problem,
  pending_failure, add_pending_failure, lane_failure_problem, flush_entries,
  flush_workflow_toast_policy, evaluate_workflow_heartbeat_policy,
  evaluate_workflow_toast_event_policy, evaluate_workflow_toast_tick_policy,
}
use opencode_workflows.Toasts.Waiting.{reported, waiting}
use opencode_workflows.Toasts.Failures.{Call, event, tick, run, lane_failures, run-reported}

abbrev failing : String → Event
failing id = record {
  type_ = "agent.failure";
  call_id = id;
  error = "boom";
  failure_class = "";
  attempt = some 1;
  max_attempts = some 3;
  delay_ms = none;
}

abbrev quiet : Snapshot
quiet = record { budget_percent = some 10; staleness = none; active_lanes = []; phase_name = "" }

abbrev usual : Options
usual = record { force_ms = none; problem_cooldown_ms = none; signature = "s"; force = false }

abbrev burst : List Call
burst =
    event (failing "a") quiet usual 1000
    ∷ event (failing "b") quiet usual 2000
    ∷ event (failing "c") quiet usual 3000
    ∷ tick quiet usual 40000
    ∷ event (failing "d") quiet usual 41000
    ∷ []

run-reported_example :
    let r = run create_workflow_toast_policy_state burst in
    reported r.1 + waiting r.0.pending_failures ≡ lane_failures burst
run-reported_example = run-reported burst

shown :
    let r = run create_workflow_toast_policy_state burst in
    (reported r.1 ≡ 3) × (waiting r.0.pending_failures ≡ 1)
unfolding run create_workflow_toast_policy_state evaluate_workflow_toast_event_policy
    evaluate_workflow_toast_tick_policy evaluate_budget_policy evaluate_stall_policy
    evaluate_failure_policy failure_category problem_ready mark_problem pending_failure
    add_pending_failure lane_failure_problem flush_entries flush_workflow_toast_policy
    evaluate_workflow_heartbeat_policy Dict.get Dict.put Dict.remove
shown = (refl, refl)
