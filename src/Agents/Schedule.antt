-- ===== src/Agents/Schedule.antt =====
-- Interleavings of the lanes of a run: each event is one stretch of code between two suspensions.
use opencode_workflows.Prelude.{String, Option, none, some, List, [], ◌∷◌, ◌++◌, ℕ, zero, suc}
use opencode_workflows.Agents.{
  Slots, Ticket, granted, acquire_agent_slot, release_agent_slot, resume_agent, abort_run,
  cancel_fanout_siblings,
}

-- `resumed` are the lanes whose promise is resolved and whose code after `await` has not run yet;
-- `holders` are those for which acquireAgentSlot has returned and which have not released.
pub record World : Type 0 where
  pub slots : Slots
  pub open slots use *
  pub resumed : List String
  pub holders : List String

pub data Event : Type 0 where
  acquire : String → Event
  resume : Event
  release : ℕ → Event
  abort : Event
  cancel_scope : String → Event

abbrev pub resolved : Option String → List String
resolved none = []
resolved (some call_id) = call_id ∷ []

abbrev pub admit : String → Ticket → List String → List String
admit call_id granted holders = call_id ∷ holders
admit call_id _ holders = holders

-- The `finally` of runChildAgent, by the lane at a position among the holders.
abbrev pub drop_at : ℕ → List String → List String
drop_at n [] = []
drop_at zero (x ∷ xs) = xs
drop_at (suc n) (x ∷ xs) = x ∷ drop_at n xs

abbrev pub get_elem? : List String → ℕ → Option String
get_elem? [] n = none
get_elem? (x ∷ xs) zero = some x
get_elem? (x ∷ xs) (suc n) = get_elem? xs n

on_acquire : String → World → World
unfolding acquire_agent_slot
on_acquire call_id w =
    let (slots, ticket) = acquire_agent_slot w.slots call_id in
    record w { slots = slots; holders = admit call_id ticket w.holders }

-- The microtask queue is served in order.
on_resume : List String → World → World
unfolding resume_agent release_agent_slot
on_resume [] w = w
on_resume (call_id ∷ rest) w =
    let (slots, ticket, next) = resume_agent w.slots call_id in
    record {
      slots = slots;
      resumed = rest ++ resolved next;
      holders = admit call_id ticket w.holders;
    }

on_release : ℕ → Option String → World → World
unfolding release_agent_slot
on_release n none w = w
on_release n (some holder) w =
    let (slots, next) = release_agent_slot w.slots in
    record { slots = slots; resumed = w.resumed ++ resolved next; holders = drop_at n w.holders }

unfoldable pub step : World → Event → World
unfolding on_acquire on_resume on_release abort_run cancel_fanout_siblings
step w (acquire call_id) = on_acquire call_id w
step w resume = on_resume w.resumed w
step w (release n) = on_release n (get_elem? w.holders n) w
step w abort = record w { slots = abort_run w.slots }
step w (cancel_scope scope) = record w { slots = cancel_fanout_siblings scope w.slots }

unfoldable pub run : World → List Event → World
run w [] = w
run w (e ∷ es) = run (step w e) es
