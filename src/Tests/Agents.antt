-- ===== src/Tests/Agents.antt =====
-- A run with two slots: two lanes hold them and two more wait.
use opencode_workflows.Prelude.{◌≡◌, refl, inr, false, List, [], ◌∷◌, arith}
use opencode_workflows.Agents.{
  acquire_agent_slot, release_agent_slot, resume_agent, abort_run, cancel_fanout_siblings,
  lane_cancelled_by_fanout, reject_waiting_agents,
}
use opencode_workflows.Agents.Schedule.{
  World, Event, acquire, resume, release, abort, cancel_scope, step, run,
}
use opencode_workflows.Agents.Invariant.{IsAccounted, run-IsAccounted}
use opencode_workflows.Agents.Progress.{releases_in_order, abort_returns_slots}

abbrev busy : World
busy = record {
  slots = record {
    concurrency = 2;
    active_agents = 2;
    waiting_agents = "agent:3" ∷ "parallel:1/agent:4" ∷ [];
    aborted = false;
    cancelled_scopes = [];
  };
  resumed = [];
  holders = "agent:1" ∷ "agent:2" ∷ [];
}

busy-IsAccounted : IsAccounted busy
busy-IsAccounted = record {
  owned = refl;
  bounded = omega arith;
  full_if_waiting = inr refl;
  none_after_abort = λ h. cc;
}

abbrev events : List Event
events =
    acquire "agent:5"
    ∷ cancel_scope "parallel:1"
    ∷ release 1
    ∷ acquire "parallel:1/agent:6"
    ∷ resume
    ∷ abort
    ∷ release 0
    ∷ []

run-events :
    ((run busy (acquire "agent:5" ∷ cancel_scope "parallel:1" ∷ [])).waiting_agents
      ≡ "agent:3" ∷ "agent:5" ∷ [])
    × ((run busy events).active_agents ≡ 1)
    × ((run busy events).holders ≡ "agent:1" ∷ [])
unfolding run step acquire_agent_slot release_agent_slot resume_agent abort_run
    cancel_fanout_siblings lane_cancelled_by_fanout reject_waiting_agents
run-events = (refl, refl, refl)

run-IsAccounted_example : IsAccounted (run busy events)
run-IsAccounted_example = run-IsAccounted busy events busy-IsAccounted

releases_in_order_example :
    ((run busy (release 0 ∷ release 0 ∷ [])).resumed ≡ "agent:3" ∷ "parallel:1/agent:4" ∷ [])
    × ((run busy (release 0 ∷ release 0 ∷ [])).waiting_agents ≡ [])
releases_in_order_example =
    releases_in_order ("agent:3" ∷ "parallel:1/agent:4" ∷ []) ("agent:1" ∷ "agent:2" ∷ []) busy refl
      refl (omega arith)

abbrev handed_over : World
handed_over = record busy {
  slots = record busy.slots { waiting_agents = "parallel:1/agent:4" ∷ [] };
  resumed = "agent:3" ∷ [];
  holders = "agent:2" ∷ [];
}

handed_over-IsAccounted : IsAccounted handed_over
handed_over-IsAccounted = record {
  owned = refl;
  bounded = omega arith;
  full_if_waiting = inr refl;
  none_after_abort = λ h. cc;
}

abort_returns_slots_example : (run handed_over (abort ∷ resume ∷ release 0 ∷ [])).active_agents ≡ 0
abort_returns_slots_example = abort_returns_slots handed_over handed_over-IsAccounted
