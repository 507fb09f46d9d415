-- ===== src/Drain/Attempt.antt =====
-- One attempt at a claimed item: runLaneAttempt of workflow-kernel/drain-runtime.js with the
-- functions that it calls, and computeLaneBackoffMs of errors.js as the drain calls it.
use opencode_workflows.Prelude.{
  ℕ, ◌-◌, ◌*◌, ◌^◌, min, String, Bool, true, false, ◌&&◌, ◌||◌, not, none, some, List, [], ◌∷◌,
  ◌++◌, ok, throw, str_eq, ltb, if◌then◌else◌,
}
use opencode_workflows.Drain.{
  Kind, budget_stop, failure, Point, before, after, start, transition, Call, Adapter, LaneReport,
  ValidationReport, LaneOutcome, failed, Closed, World, Drain, ◌>>=◌, ◌>>◌, catching, pure, lift,
  call, modify,
}
use opencode_workflows.Drain.Reports.{validate_lane_report, validate_validation_report}

pub data Control : Type 0 where
  retry : Control
  done : Bool → Control

abbrev is_budget_stop : Kind → Bool
is_budget_stop budget_stop = true
is_budget_stop _ = false

abbrev pub is_failed : LaneOutcome → Bool
is_failed failed = true
is_failed _ = false

-- The updates of the world that are made between two calls.
abbrev pub note_phase : String → World → World
note_phase name w = record w { report = record w.report { phases = name ∷ w.report.phases } }

abbrev pub note_followups : List String → World → World
note_followups created w = record w {
  report = record w.report { followups = created ++ w.report.followups };
}

abbrev pub note_released : String → String → World → World
note_released id reason w = record w {
  report = record w.report { released = (id, reason) ∷ w.report.released };
}

abbrev pub note_salvage : Bool → String → ℕ → World → World
note_salvage dirty id attempt w =
    if dirty
    then record w { report = record w.report { salvaged = (id, attempt) ∷ w.report.salvaged } }
    else w

abbrev pub note_attempt : String → ℕ → Bool → World → World
note_attempt id attempt stopped w = record w {
  wave = record w.wave {
    attempts = record { id = id; number = attempt; budget_exhausted = stopped } ∷ w.wave.attempts;
  };
}

abbrev pub note_exhausted : World → World
note_exhausted w = record w { report = record w.report { budget_exhausted = true } }

abbrev pub note_failed : String → String → World → World
note_failed id reason w = record w {
  report = record w.report { failed = (id, reason) ∷ w.report.failed };
  release_attempted = true;
}

abbrev pub note_closed : Closed → World → World
note_closed entry w = record w { report = record w.report { closed = entry ∷ w.report.closed } }

-- `computeLaneBackoffMs(attempt, { baseMs, jitter: () => 1 })`: half and half make the whole.
abbrev pub backoff_ms : ℕ → ℕ → ℕ
backoff_ms base attempt = min (base * 2 ^ (attempt - 1)) 30000

abbrev pub when : Bool → Drain (Unit {0}) → Drain (Unit {0})
when test m = if test then m else pure tt

module _ (adapter : Adapter) (base_ms max_attempts : ℕ) where
  unfoldable pub lifecycle_point : String → Point → Drain (Unit {0})
  lifecycle_point phase point = call (Call.check_lifecycle phase point) adapter.lifecycle

  unfoldable pub enter_phase : String → Drain (Unit {0})
  enter_phase name = do lifecycle_point name transition; modify (note_phase name)

  -- `canLaunchLane`.
  unfoldable pub launch_allowed : String → String → Drain Bool
  launch_allowed phase id =
      catching (call (Call.can_launch_lane phase id) adapter.can_launch)
        λ e. if is_budget_stop e.kind then pure false else lift (throw e)

  unfoldable pub create_followups : List String → Drain (List String)
  create_followups [] = pure []
  create_followups (f ∷ fs) = do
    created ← call (Call.create_followup f) adapter.followup
    rest ← create_followups fs
    pure (created ∷ rest)

  unfoldable pub release_claimed_item : String → String → Drain (Unit {0})
  release_claimed_item id reason = elim adapter.release [
    | none ↦ pure tt
    | some answer ↦ call (Call.release_claim id reason) answer >> modify (note_released id reason)
  ]

  unfoldable pub apply_repair_backoff : ℕ → Drain (Unit {0})
  apply_repair_backoff attempt = do
    lifecycle_point "repair-backoff" before
    when (ltb 0 base_ms) (do
      when (ltb 0 (backoff_ms base_ms attempt))
          (call (Call.sleep (backoff_ms base_ms attempt)) adapter.sleep)
      lifecycle_point "repair-backoff" after)

  -- From `buildLanePacket` to the record of the attempt.
  unfoldable pub lane_phase : String → ℕ → Drain LaneReport
  lane_phase id attempt = do
    lifecycle_point "buildLanePacket" before
    call (Call.build_lane_packet id attempt) adapter.packet
    lifecycle_point "buildLanePacket" after
    enter_phase "spawn_lanes"
    enter_phase "monitor"
    lifecycle_point "runLane" before
    raw ← call (Call.run_lane id attempt) adapter.lane
    lane ← lift (validate_lane_report raw)
    lifecycle_point "runLane" after
    lift (if str_eq lane.item_id id then ok tt else throw (failure "Lane report itemId mismatch"))
    modify (note_salvage lane.salvage_dirty id attempt)
    enter_phase "collect_reports"
    lifecycle_point "lane-followups" before
    created ← create_followups lane.followups
    lifecycle_point "lane-followups" after
    modify (λ w. note_attempt id attempt false (note_followups created w))
    pure lane

  -- From `integrate` to the follow-ups of the validation.
  unfoldable pub validation_phase : String → ℕ → Drain ValidationReport
  validation_phase id attempt = do
    enter_phase "integrate"
    lifecycle_point "integrate" before
    call (Call.integrate id attempt) adapter.integrate
    lifecycle_point "integrate" after
    enter_phase "validate"
    lifecycle_point "validate" before
    raw ← call (Call.validate id attempt) adapter.validate
    validation ← lift (validate_validation_report raw)
    lifecycle_point "validate" after
    lift (
        if str_eq validation.item_id id
        then ok tt
        else throw (failure "Validation report itemId mismatch"))
    lifecycle_point "validation-followups" before
    created ← create_followups validation.followups
    lifecycle_point "validation-followups" after
    modify (note_followups created)
    pure validation

  -- A failure is reported, and then the claim is released.
  unfoldable pub give_up : String → String → Drain Control
  give_up id reason = do
    modify (note_failed id reason)
    release_claimed_item id reason
    pure (done false)

  unfoldable pub repair : ℕ → Drain Control
  repair attempt = do enter_phase "repair"; apply_repair_backoff attempt; pure retry

  unfoldable pub close_item : String → LaneReport → ValidationReport → Drain Control
  close_item id lane validation = do
    enter_phase "close"
    lifecycle_point "close" before
    call (Call.close id) adapter.close
    lifecycle_point "close" after
    modify (note_closed (record { id = id; lane = lane; validation = validation }))
    pure (done true)

  abbrev pub repair_or_give_up : String → ℕ → String → Drain Control
  repair_or_give_up id attempt reason =
      if ltb attempt max_attempts then repair attempt else give_up id reason

  abbrev pub is_accepted : ValidationReport → Bool
  is_accepted validation =
      validation.accepted && (validation.diff_scope_ok && validation.followups_handled)

  unfoldable pub after_validation : String → ℕ → LaneReport → ValidationReport → Drain Control
  after_validation id attempt lane validation =
      if is_accepted validation
      then close_item id lane validation
      else repair_or_give_up id attempt validation.reason

  unfoldable pub after_lane : String → ℕ → LaneReport → Drain Control
  after_lane id attempt lane =
      if not lane.ready_for_integration || is_failed lane.outcome
      then repair_or_give_up id attempt lane.summary
      else (do
        validation ← validation_phase id attempt
        after_validation id attempt lane validation)

  unfoldable pub stop_for_budget : String → ℕ → Drain Control
  stop_for_budget id attempt = do
    modify (λ w. note_attempt id attempt true (note_exhausted w))
    give_up id "lane launch budget exhausted"

  abbrev pub launch : Bool → String → ℕ → Drain Control
  launch allowed id attempt =
      if allowed
      then lane_phase id attempt >>= after_lane id attempt
      else stop_for_budget id attempt

  -- `runLaneAttempt`.
  unfoldable pub run_lane_attempt : String → ℕ → Drain Control
  run_lane_attempt id attempt = do
    lifecycle_point "attempt" start
    allowed ← launch_allowed "preattempt" id
    launch allowed id attempt
