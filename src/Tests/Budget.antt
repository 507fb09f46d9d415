-- ===== src/Tests/Budget.antt =====
-- Runs with four slots and whole units of cost and tokens.
use opencode_workflows.Prelude.{ℕ, ◌+◌, ◌-◌, ◌/◌, ◌≡◌, refl, some, none, leb, arith}
use opencode_workflows.Budget.{Num, Run, Tokens, reserve_lane_budget, remaining_slots, slice}

-- Whole units: counts of cost and of tokens, subtraction stops at zero.
pub leb-minus : (a b : ℕ) → leb (a - b) 0 ≡ leb a b
leb-minus a b = ground arith

abbrev pub whole : Num
whole = record {
  N = ℕ;
  nought = 0;
  plus = λ a b. a + b;
  minus = λ a b. a - b;
  divide = λ a n. a / n;
  le = leb;
  le_minus = leb-minus;
}

abbrev pub no_tokens : Tokens whole
no_tokens = record { input = 0; output = 0; reasoning = 0 }

-- Four slots, 100 units of cost of which 20 are spent, 2 of them in replayed lanes.
abbrev pub start : Run whole
start = record {
  cost = 18;
  replayed_cost = 2;
  tokens = record { input = 30; output = 8; reasoning = 2 };
  replayed_tokens = no_tokens;
  reserved_cost = none;
  reserved_tokens = none;
  reserved_lanes = none;
  ceilings = record { max_cost = some 100; max_tokens = none };
  concurrency = 4;
  max_agents = 16;
  agents_started = 3;
}

slots-start : (remaining_slots whole start ≡ 4) × ((reserve_lane_budget whole start).1.cost ≡ 20)
unfolding remaining_slots reserve_lane_budget slice
slots-start = (refl, refl)
