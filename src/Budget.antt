-- ===== src/Budget.antt =====
-- workflow-kernel/budget-accounting.js: the spend of a run, its ceilings, and the reservations of
-- lanes in flight. JavaScript's finite numbers are the parameter `Num`.
pub mod Ceiling
use opencode_workflows.Prelude.{
  ℕ, zero, suc, ◌-◌, ◌+◌, ◌≡◌, Bool, true, false, Option, none, some, max, Outcome, ok, throw, ltb,
  if◌then◌else◌,
}

-- Finite numbers, with the operations that the module uses, which may round. Of their laws one is relied
-- on: a difference is at most zero exactly where the first number is at most the second, which holds of
-- doubles, since the difference of two different ones is never rounded to zero.
pub record Num : Type 1 where
  pub N : Type 0
  pub nought : N
  pub plus : N → N → N
  pub minus : N → N → N
  pub divide : N → ℕ → N
  pub le : N → N → Bool
  pub le_minus : (a b : N) → le (minus a b) nought ≡ le a b

module _ (num : Num) where
  open num use {N, nought, plus, minus, divide, le}

  pub record Tokens : Type 0 where
    pub input : N
    pub output : N
    pub reasoning : N

  unfoldable pub zero_tokens : Tokens
  zero_tokens = record { input = nought; output = nought; reasoning = nought }

  unfoldable pub add_tokens : Tokens → Tokens → Tokens
  add_tokens l r = record {
    input = plus l.input r.input;
    output = plus l.output r.output;
    reasoning = plus l.reasoning r.reasoning;
  }

  unfoldable pub token_count : Tokens → N
  token_count t = plus (plus t.input t.output) t.reasoning

  -- A ceiling that is not a finite number is `none`.
  pub record Ceilings : Type 0 where
    pub max_cost : Option N
    pub max_tokens : Option N

  -- The fields of the run that this module reads and writes; a counter that is absent or not
  -- finite is `none`.
  pub record Run : Type 0 where
    pub cost : N
    pub replayed_cost : N
    pub tokens : Tokens
    pub replayed_tokens : Tokens
    pub reserved_cost : Option N
    pub reserved_tokens : Option N
    pub reserved_lanes : Option ℕ
    pub ceilings : Ceilings
    pub concurrency : ℕ
    pub max_agents : ℕ
    pub agents_started : ℕ

  -- `Number.isFinite(x) ? x : 0`.
  abbrev pub finite : Option N → N
  finite none = nought
  finite (some x) = x

  unfoldable pub reserved_cost_of : Run → N
  reserved_cost_of run = finite run.reserved_cost

  unfoldable pub reserved_tokens_of : Run → N
  reserved_tokens_of run = finite run.reserved_tokens

  unfoldable pub reserved_lanes_of : Run → ℕ
  reserved_lanes_of run = elim run.reserved_lanes [ none ↦ 0 | some n ↦ n ]

  unfoldable pub total_cost : Run → N
  unfolding reserved_cost_of
  total_cost run = plus (plus run.cost run.replayed_cost) (reserved_cost_of run)

  unfoldable pub total_tokens : Run → N
  unfolding reserved_tokens_of add_tokens token_count
  total_tokens run =
      plus (token_count (add_tokens run.tokens run.replayed_tokens)) (reserved_tokens_of run)

  -- What is left under a ceiling; `none` is `null`.
  abbrev pub below : Option N → N → Option N
  below none total = none
  below (some ceiling) total = some (minus ceiling total)

  unfoldable pub remaining_cost : Run → Option N
  unfolding total_cost
  remaining_cost run = below run.ceilings.max_cost (total_cost run)

  unfoldable pub remaining_tokens : Run → Option N
  unfolding total_tokens
  remaining_tokens run = below run.ceilings.max_tokens (total_tokens run)

  pub record Remaining : Type 0 where
    pub cost : Option N
    pub tokens : Option N

  unfoldable pub remaining_budget : Run → Remaining
  unfolding remaining_cost remaining_tokens
  remaining_budget run = record { cost = remaining_cost run; tokens = remaining_tokens run }

  -- `Math.max(0, run.maxAgents - run.agentsStarted)`: subtraction on ℕ stops at 0.
  unfoldable pub remaining_agents : Run → ℕ
  remaining_agents run = run.max_agents - run.agents_started

-- The two messages of `WorkflowBudgetStoppedError`.
pub data BudgetStopped : Type 0 where
  cost_ceiling token_ceiling : BudgetStopped

module _ (num : Num) where
  open num use {N, nought, plus, minus, divide, le}

  abbrev pub exhausted : Option N → Bool
  exhausted none = false
  exhausted (some left) = le left nought

  unfoldable pub check_budget_before_launch : Run num → Outcome BudgetStopped (Unit {0})
  unfolding remaining_budget
  check_budget_before_launch run =
      let remaining = remaining_budget num run in
      if exhausted remaining.cost
      then throw cost_ceiling
      else if exhausted remaining.tokens
      then throw token_ceiling
      else ok tt

  pub record Reservation : Type 0 where
    pub cost : N
    pub tokens : N

  -- `Math.max(0, x)`.
  abbrev pub at_least_zero : N → N
  at_least_zero x = if le x nought then nought else x

  unfoldable pub remaining_slots : Run num → ℕ
  unfolding reserved_lanes_of
  remaining_slots run =
      let concurrency = (if ltb 0 run.concurrency then run.concurrency else 1) in
      max 1 (concurrency - reserved_lanes_of num run)

  -- The slice of one ceiling: nothing where the ceiling is unset.
  unfoldable pub slice : Option N → N → ℕ → N
  slice none total slots = nought
  slice (some ceiling) total slots = at_least_zero (divide (minus ceiling total) slots)

  unfoldable pub reserve_lane_budget : Run num → Run num × Reservation
  unfolding remaining_slots slice total_cost total_tokens reserved_lanes_of
  reserve_lane_budget run =
      let slots = remaining_slots run in
      let cost = slice run.ceilings.max_cost (total_cost num run) slots in
      let tokens = slice run.ceilings.max_tokens (total_tokens num run) slots in
      (
        record run {
          reserved_cost = some (plus (reserved_cost_of num run) cost);
          reserved_tokens = some (plus (reserved_tokens_of num run) tokens);
          reserved_lanes = some (reserved_lanes_of num run + 1);
        },
        record { cost = cost; tokens = tokens },
      )

  unfoldable pub release_lane_budget : Run num → Option Reservation → Run num
  unfolding reserved_cost_of reserved_tokens_of reserved_lanes_of
  release_lane_budget run none = run
  release_lane_budget run (some reservation) = record run {
    reserved_cost = some (at_least_zero (minus (reserved_cost_of num run) reservation.cost));
    reserved_tokens = some (at_least_zero (minus (reserved_tokens_of num run) reservation.tokens));
    reserved_lanes = some (reserved_lanes_of num run - 1);
  }
