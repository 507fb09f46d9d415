-- ===== src/Toasts/Failures.antt =====
-- Where the failures of lanes go: every one is in a toast that was shown or waits in the state.
use opencode_workflows.Prelude.{
  ◌≡◌, inl, inr, ℕ, ◌+◌, true, List, [], ◌∷◌, ◌++◌, str_eq, arith, if◌then◌else◌, Bool-cases,
}
use opencode_workflows.Prelude.Dict
use opencode_workflows.Prelude.Dict.{Dict, get-remove, IsMap-remove, IsMap-put}
use opencode_workflows.Toasts.{
  create_workflow_toast_policy_state, Event, Snapshot, State, Options, Decision, is_lane_failure,
  and_then, evaluate_workflow_heartbeat_policy, evaluate_budget_policy, evaluate_stall_policy,
  evaluate_failure_policy, flush_workflow_toast_policy, evaluate_workflow_toast_event_policy,
  evaluate_workflow_toast_tick_policy,
}
use opencode_workflows.Toasts.Waiting.{reported, waiting}
use opencode_workflows.Toasts.Policies.{
  Conserves, Conserves-and_then, budget-Conserves, stall-Conserves, heartbeat-Conserves,
  failure-Conserves, flush-Conserves,
}

module _ (s : State) (snapshot : Snapshot) (options : Options) (now : ℕ) where
  abbrev warned : State × List Decision
  warned =
      and_then (evaluate_budget_policy s snapshot) λ t. evaluate_stall_policy t snapshot options now

  warned-Conserves : Dict.IsMap s.pending_failures → Conserves 0 s warned
  unfolding evaluate_stall_policy
  warned-Conserves m =
      Conserves-and_then 0 0 s (evaluate_budget_policy s snapshot)
        (λ t. evaluate_stall_policy t snapshot options now) (budget-Conserves s snapshot m)
        λ t n. stall-Conserves t snapshot options now snapshot.staleness n

  announced-Conserves :
      (event : Event) (t : State)
      → Dict.IsMap t.pending_failures
      → Conserves 0 t (
          if str_eq event.type_ "phase"
          then evaluate_workflow_heartbeat_policy t (record options { force = true }) now
          else (t, []))
  announced-Conserves event t n = elim (Bool-cases (str_eq event.type_ "phase")) [
    | inl e ↦ rw e (heartbeat-Conserves t (record options { force = true }) now n)
    | inr e ↦ rw e (n, omega arith)
  ]

  event_policy-Conserves :
      (event : Event)
      → Dict.IsMap s.pending_failures
      → Conserves
          (if is_lane_failure event then 1 else 0)
          s
          (evaluate_workflow_toast_event_policy s event snapshot options now)
  unfolding evaluate_workflow_toast_event_policy
  event_policy-Conserves event m =
      let one = if is_lane_failure event then 1 else 0 in
      let failed = λ (t : State). evaluate_failure_policy t event snapshot options now in
      let all =
        Conserves-and_then (0 + one) 0 s (and_then warned failed)
          (λ t.
            if str_eq event.type_ "phase"
            then evaluate_workflow_heartbeat_policy t (record options { force = true }) now
            else (t, []))
          (Conserves-and_then 0 one s warned failed (warned-Conserves m)
            λ t n. failure-Conserves t event snapshot options now n)
          (announced-Conserves event) in
      (all.0, omega (arith, all.1))

  tick_policy-Conserves :
      Dict.IsMap s.pending_failures
      → Conserves 0 s (evaluate_workflow_toast_tick_policy s snapshot options now)
  unfolding evaluate_workflow_toast_tick_policy
  tick_policy-Conserves m =
      let flushed = λ (t : State). flush_workflow_toast_policy t snapshot options now in
      Conserves-and_then 0 0 s (and_then warned flushed)
        (λ t. evaluate_workflow_heartbeat_policy t options now)
        (Conserves-and_then 0 0 s warned flushed (warned-Conserves m)
          λ t n. flush-Conserves t snapshot options now n)
        λ t n. heartbeat-Conserves t options now n

-- A call of the policy: for an event of the journal, or for a tick of the monitor.
pub data Call : Type 0 where
  event : Event → Snapshot → Options → ℕ → Call
  tick : Snapshot → Options → ℕ → Call

abbrev evaluate : State → Call → State × List Decision
evaluate s (event e snapshot options now) =
    evaluate_workflow_toast_event_policy s e snapshot options now
evaluate s (tick snapshot options now) = evaluate_workflow_toast_tick_policy s snapshot options now

-- The calls of a run, one after the other.
unfoldable pub run : State → List Call → State × List Decision
run s [] = (s, [])
run s (call ∷ calls) =
    let (t, decisions) = evaluate s call in let (u, more) = run t calls in (u, decisions ++ more)

abbrev pub lane_failures : List Call → ℕ
lane_failures [] = 0
lane_failures (event e snapshot options now ∷ calls) =
    (if is_lane_failure e then 1 else 0) + lane_failures calls
lane_failures (tick snapshot options now ∷ calls) = lane_failures calls

run-Conserves :
    (s : State) (calls : List Call)
    → Dict.IsMap s.pending_failures
    → Conserves (lane_failures calls) s (run s calls)
unfolding run
run-Conserves s [] m = (m, omega arith)
run-Conserves s (event e snapshot options now ∷ calls) m =
    Conserves-and_then (if is_lane_failure e then 1 else 0) (lane_failures calls) s
      (evaluate_workflow_toast_event_policy s e snapshot options now) (λ t. run t calls)
      (event_policy-Conserves s snapshot options now e m) λ t n. run-Conserves t calls n
run-Conserves s (tick snapshot options now ∷ calls) m =
    let rest =
      Conserves-and_then 0 (lane_failures calls) s
        (evaluate_workflow_toast_tick_policy s snapshot options now) (λ t. run t calls)
        (tick_policy-Conserves s snapshot options now m) λ t n. run-Conserves t calls n in
    (rest.0, omega (arith, rest.1))

-- No failure of a lane is lost and none is told of twice: over any sequence of events and ticks from
-- a fresh state, at any times and under any cooldowns, the counts in the toasts that were shown and
-- the counts that still wait in the state add up to the failure events of lanes that came in.
pub run-reported :
    (calls : List Call)
    → let r = run create_workflow_toast_policy_state calls in
      reported r.1 + waiting r.0.pending_failures ≡ lane_failures calls
unfolding create_workflow_toast_policy_state
run-reported calls = omega (arith, (run-Conserves create_workflow_toast_policy_state calls tt).1)
