-- ===== src/Toasts.antt =====
-- When the toasts of a run are shown: workflow-kernel/notification-toast-policy.js. Times and cooldowns
-- are whole and not negative; the keys of the two maps start with a prefix of the policy's own.
pub mod Waiting
pub mod Policies
pub mod Failures
use opencode_workflows.Prelude.{
  ℕ, ◌+◌, String, Bool, true, false, Option, none, some, List, [], ◌∷◌, ◌++◌, ◌||◌, ◌&&◌, not,
  str_eq, length, leb, ltb, if◌then◌else◌, any, keep,
}
use opencode_workflows.Prelude.Dict
use opencode_workflows.Prelude.Dict.{Dict}
use Prim.Native.String.{◌++◌ as concat}

abbrev pub default_force_ms : ℕ
default_force_ms = 75000

abbrev pub default_problem_cooldown_ms : ℕ
default_problem_cooldown_ms = 30000

abbrev pub lane_failure_events : List String
lane_failure_events =
    "agent.failure" ∷ "agent.timeout" ∷ "agent.cancelled" ∷ "agent.budget_stopped" ∷ "agent.retry"
    ∷ "agent.salvageable_dirty_failure" ∷ []

-- A text that is absent is the empty one, which the source treats alike.
pub record Event : Type 0 where
  pub type_ : String
  pub call_id : String
  pub error : String
  pub failure_class : String
  pub attempt : Option ℕ
  pub max_attempts : Option ℕ
  pub delay_ms : Option ℕ

pub record Staleness : Type 0 where
  pub stale : Bool
  pub age_ms : ℕ

-- What the policy reads of a snapshot: `active_lanes` says of each lane whether it is idle.
pub record Snapshot : Type 0 where
  pub budget_percent : Option ℕ
  pub staleness : Option Staleness
  pub active_lanes : List Bool
  pub phase_name : String

pub record Pending : Type 0 where
  pub count : ℕ
  pub sample : Event

pub record State : Type 0 where
  pub last_heartbeat_signature : Option String
  pub last_heartbeat_at : Option ℕ
  pub last_problem_at : Dict ℕ
  pub pending_failures : Dict Pending
  pub budget_100 : Bool
  pub budget_80 : Bool

pub record Options : Type 0 where
  pub force_ms : Option ℕ
  pub problem_cooldown_ms : Option ℕ
  pub signature : String
  pub force : Bool

-- The label of a failure: the phase in which so many lanes failed, or the call.
pub data Label : Type 0 where
  lanes_failed : ℕ → String → Label
  call : String → Label

pub record LaneFailure : Type 0 where
  pub count : ℕ
  pub label : Label
  pub call_id : String
  pub reason : String
  pub attempt : Option ℕ
  pub max_attempts : Option ℕ
  pub retry_in_ms : Option ℕ
  pub ordinal : Option ℕ

pub data Decision : Type 0 where
  heartbeat : Decision
  budget_exhausted : Decision
  budget_warning : Decision
  stalled : (idle_ms : ℕ) (idle_lane_count : ℕ) → Decision
  lane_failure : LaneFailure → Decision

unfoldable pub create_workflow_toast_policy_state : State
create_workflow_toast_policy_state = record {
  last_heartbeat_signature = none;
  last_heartbeat_at = none;
  last_problem_at = [];
  pending_failures = [];
  budget_100 = false;
  budget_80 = false;
}

abbrev pub or_default : Option ℕ → ℕ → ℕ
or_default none d = d
or_default (some n) d = n

abbrev pub cooldown_of : Options → ℕ
cooldown_of options = or_default options.problem_cooldown_ms default_problem_cooldown_ms

abbrev pub elapsed : Option ℕ → ℕ → ℕ → Bool
elapsed none now wait = true
elapsed (some last) now wait = leb (last + wait) now

unfoldable pub problem_ready : State → String → ℕ → ℕ → Bool
problem_ready s key now cooldown = elapsed (Dict.get s.last_problem_at key) now cooldown

unfoldable pub mark_problem : State → String → ℕ → State
mark_problem s key now = record s { last_problem_at = Dict.put s.last_problem_at key now }

-- `options.forceMs` where it is positive.
abbrev pub force_ms_of : Options → ℕ
force_ms_of options =
    let given = or_default options.force_ms 0 in if ltb 0 given then given else default_force_ms

abbrev pub is_signature : Option String → String → Bool
is_signature none signature = false
is_signature (some last) signature = str_eq last signature

abbrev pub is_overdue : Option ℕ → ℕ → ℕ → Bool
is_overdue none now wait = false
is_overdue (some last) now wait = leb (last + wait) now

unfoldable pub evaluate_workflow_heartbeat_policy : State → Options → ℕ → State × List Decision
evaluate_workflow_heartbeat_policy s options now =
    let changed = not (is_signature s.last_heartbeat_signature options.signature) in
    let forced = options.force || is_overdue s.last_heartbeat_at now (force_ms_of options) in
    if changed || forced
    then (
      record s { last_heartbeat_signature = some options.signature; last_heartbeat_at = some now },
      heartbeat ∷ [],
    )
    else (s, [])

abbrev pub reached : Option ℕ → ℕ → Bool
reached none threshold = false
reached (some percent) threshold = leb threshold percent

unfoldable pub evaluate_budget_policy : State → Snapshot → State × List Decision
evaluate_budget_policy s snapshot =
    if reached snapshot.budget_percent 100 && not s.budget_100
    then (record s { budget_100 = true; budget_80 = true }, budget_exhausted ∷ [])
    else if reached snapshot.budget_percent 80 && not s.budget_80
    then (record s { budget_80 = true }, budget_warning ∷ [])
    else (s, [])

abbrev pub stall_of : State → Snapshot → Options → ℕ → Option Staleness → State × List Decision
stall_of s snapshot options now none = (s, [])
stall_of s snapshot options now (some st) =
    if st.stale && problem_ready s "stall" now (cooldown_of options)
    then (
      mark_problem s "stall" now,
      stalled st.age_ms (length (keep (λ idle. idle) snapshot.active_lanes)) ∷ [],
    )
    else (s, [])

unfoldable pub evaluate_stall_policy : State → Snapshot → Options → ℕ → State × List Decision
evaluate_stall_policy s snapshot options now = stall_of s snapshot options now snapshot.staleness

abbrev pub or_text : String → String → String
or_text a b = if str_eq a "" then b else a

unfoldable pub failure_category : Snapshot → String
failure_category snapshot = concat "lane-failure:" (or_text snapshot.phase_name "phase")

abbrev pub count_of : Option Pending → ℕ
count_of none = 0
count_of (some p) = p.count

abbrev pub one_more : Option Pending → Event → Pending
one_more none event = record { count = 1; sample = event }
one_more (some p) event = record { count = p.count + 1; sample = p.sample }

unfoldable pub add_pending_failure : State → String → Event → State
add_pending_failure s key event = record s {
  pending_failures =
      Dict.put s.pending_failures key (one_more (Dict.get s.pending_failures key) event);
}

-- `pendingFailure`: what was pending, which is not pending any more.
unfoldable pub pending_failure : State → String → State × Option Pending
pending_failure s key = (
  record s { pending_failures = Dict.remove s.pending_failures key },
  Dict.get s.pending_failures key,
)

unfoldable pub lane_failure_problem : Event → Snapshot → ℕ → LaneFailure
lane_failure_problem event snapshot count = record {
  count = count;
  label =
      if ltb 1 count
      then lanes_failed count (or_text snapshot.phase_name "phase")
      else call event.call_id;
  call_id = event.call_id;
  reason = or_text event.error (or_text event.failure_class event.type_);
  attempt = event.attempt;
  max_attempts = event.max_attempts;
  retry_in_ms = event.delay_ms;
  ordinal = if ltb 1 count then some count else none;
}

abbrev pub is_lane_failure : Event → Bool
is_lane_failure event = any (λ type_. str_eq type_ event.type_) lane_failure_events

unfoldable pub evaluate_failure_policy :
    State → Event → Snapshot → Options → ℕ → State × List Decision
evaluate_failure_policy s event snapshot options now =
    let key = failure_category snapshot in
    let taken = pending_failure s key in
    if not (is_lane_failure event)
    then (s, [])
    else if problem_ready s key now (cooldown_of options)
    then (
      mark_problem taken.0 key now,
      lane_failure (lane_failure_problem event snapshot (1 + count_of taken.1)) ∷ [],
    )
    else (add_pending_failure s key event, [])

-- The loop of `flushWorkflowToastPolicy` over the entries that it read.
unfoldable pub flush_entries : Dict Pending → State → Snapshot → Options → ℕ → State × List Decision
flush_entries [] s snapshot options now = (s, [])
flush_entries ((key, pending) ∷ entries) s snapshot options now =
    let skipped = flush_entries entries s snapshot options now in
    let flushed =
      flush_entries entries
        (mark_problem (record s { pending_failures = Dict.remove s.pending_failures key }) key now)
        snapshot options now in
    if problem_ready s key now (cooldown_of options)
    then (
      flushed.0,
      lane_failure (lane_failure_problem pending.sample snapshot pending.count) ∷ flushed.1,
    )
    else skipped

unfoldable pub flush_workflow_toast_policy : State → Snapshot → Options → ℕ → State × List Decision
flush_workflow_toast_policy s snapshot options now =
    flush_entries s.pending_failures s snapshot options now

abbrev pub and_then :
    State × List Decision → (State → State × List Decision) → State × List Decision
and_then (s, decisions) next = let (t, more) = next s in (t, decisions ++ more)

unfoldable pub evaluate_workflow_toast_event_policy :
    State → Event → Snapshot → Options → ℕ → State × List Decision
evaluate_workflow_toast_event_policy s event snapshot options now =
    and_then
      (and_then
        (and_then (evaluate_budget_policy s snapshot)
          λ t. evaluate_stall_policy t snapshot options now)
        λ t. evaluate_failure_policy t event snapshot options now)
      λ t.
        if str_eq event.type_ "phase"
        then evaluate_workflow_heartbeat_policy t (record options { force = true }) now
        else (t, [])

unfoldable pub evaluate_workflow_toast_tick_policy :
    State → Snapshot → Options → ℕ → State × List Decision
evaluate_workflow_toast_tick_policy s snapshot options now =
    and_then
      (and_then
        (and_then (evaluate_budget_policy s snapshot)
          λ t. evaluate_stall_policy t snapshot options now)
        λ t. flush_workflow_toast_policy t snapshot options now)
      λ t. evaluate_workflow_heartbeat_policy t options now
