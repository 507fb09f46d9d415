-- ===== src/Agents.antt =====
-- The concurrency slots of a run: acquireAgentSlot, releaseAgentSlot and the fan-out tests of
-- workflow-kernel/workflow-plugin.js, rejectWaitingAgents of lifecycle-control.js and
-- cancelFanoutSiblings of sandbox-executor.js.
pub mod Schedule
pub mod Invariant
pub mod Progress
use Prim.Native.String
use text.Mathlib.Text.{starts_with}
use opencode_workflows.Prelude.{
  ℕ, ◌+◌, ◌-◌, String, Bool, true, not, ◌||◌, Option, none, some, List, [], ◌∷◌, ◌++◌, any, keep,
  ltb, str_eq, if◌then◌else◌,
}

-- A waiting promise is known by its call id.
pub record Slots : Type 0 where
  pub concurrency : ℕ
  pub active_agents : ℕ
  pub waiting_agents : List String
  pub aborted : Bool
  pub cancelled_scopes : List String

-- `callId === scope || callId.startsWith(scope + "/")`.
abbrev pub in_scope : String → String → Bool
in_scope call_id scope = str_eq call_id scope || starts_with call_id (String.◌++◌ scope "/")

unfoldable pub lane_cancelled_by_fanout : Slots → String → Bool
lane_cancelled_by_fanout run call_id = any (in_scope call_id) run.cancelled_scopes

-- `run.waitingAgents.shift()` and what follows it. Subtraction on ℕ stops at 0.
release_to : List String → Slots → Slots × Option String
release_to [] run = (record run { active_agents = run.active_agents - 1 }, none)
release_to (next ∷ rest) run = (record run { waiting_agents = rest }, some next)

-- `releaseAgentSlot`: the waiter whose promise it resolves, if there is one.
unfoldable pub release_agent_slot : Slots → Slots × Option String
unfolding release_to
release_agent_slot run = release_to run.waiting_agents run

-- What the call comes to before its first suspension, or after it: a slot, a place in the queue,
-- or WorkflowCancelledError.
pub data Ticket : Type 0 where
  granted queued cancelled : Ticket

-- `acquireAgentSlot` up to `await promise`.
unfoldable pub acquire_agent_slot : Slots → String → Slots × Ticket
unfolding lane_cancelled_by_fanout
acquire_agent_slot run call_id =
    if run.aborted
    then (run, cancelled)
    else if lane_cancelled_by_fanout run call_id
    then (run, cancelled)
    else if ltb run.active_agents run.concurrency
    then (record run { active_agents = run.active_agents + 1 }, granted)
    else (record run { waiting_agents = run.waiting_agents ++ call_id ∷ [] }, queued)

-- `acquireAgentSlot` from the resolution of `promise` on: what it releases goes to the next waiter.
unfoldable pub resume_agent : Slots → String → Slots × Ticket × Option String
resume_agent run call_id =
    if run.aborted || lane_cancelled_by_fanout run call_id
    then (let (run', next) = release_agent_slot run in (run', cancelled, next))
    else (run, granted, none)

-- `rejectWaitingAgents`: the waiters that the predicate picks are rejected, the others stay.
unfoldable pub reject_waiting_agents : (String → Bool) → Slots → Slots
reject_waiting_agents picks run = record run {
  waiting_agents = keep (λ waiter. not (picks waiter)) run.waiting_agents;
}

-- The abort of interruptRun and killRun: the signal, then every waiter.
unfoldable pub abort_run : Slots → Slots
unfolding reject_waiting_agents
abort_run run = reject_waiting_agents (λ _. true) (record run { aborted = true })

-- `cancelFanoutSiblings`, as far as the slots go.
unfoldable pub cancel_fanout_siblings : String → Slots → Slots
unfolding reject_waiting_agents
cancel_fanout_siblings scope run =
    reject_waiting_agents (λ waiter. in_scope waiter scope)
      (record run { cancelled_scopes = run.cancelled_scopes ++ scope ∷ [] })
