-- ===== src/Retries/Ends.antt =====
-- The rounds of the retry loop of runChildAgent in workflow-kernel/child-agent-runner.js: how many they
-- are, and how often they prompt.
use opencode_workflows.Prelude.{ℕ, zero, suc, ◌+◌, ◌≤◌, ◌≡◌, refl, some, Outcome, ok, throw, arith}
use opencode_workflows.Authority.Pattern.{Text}
use opencode_workflows.Budget.{Num, check_budget_before_launch, reserve_lane_budget, BudgetStopped}
use opencode_workflows.Retries.{LaneError}
use opencode_workflows.Retries.Loop.{
  checks, SessionHost, LaneWorld, LaneLimits, max_attempts, Attempt, first_attempt, Next, again,
  left_with, LaneIo, followed, ◌>>=◌,
}
use opencode_workflows.Retries.Lane.{
  reserving, gated, gate, round, lane_attempts, resumed, run_lane, is_corrective,
}
use opencode_workflows.Retries.Effects.{
  prompts_of, Takes, Takes-asking, Takes-failing, Takes-returning,
}
use opencode_workflows.Retries.Bounded.{rounds_left, IsSmaller, guarded-Takes, round-IsSmaller}

fits : (x y fuel : ℕ) → x + 1 ≤ y → y + 1 ≤ fuel + 1 → x + 1 ≤ fuel
fits x y fuel h k = omega arith

no_less : (x : ℕ) → ¬ (x + 1 ≤ 0)
no_less x h = omega arith

same_suc : (x fuel : ℕ) → x + 1 ≤ suc fuel → x + 1 ≤ fuel + 1
same_suc x fuel h = omega arith

one_suc : (fuel : ℕ) → 1 + fuel ≤ suc fuel
one_suc fuel = omega arith

enough_rounds :
    (limits : LaneLimits)
    → rounds_left limits first_attempt + 1 ≤ max_attempts limits + limits.corrective_retries
unfolding max_attempts
enough_rounds limits = omega arith

module _ (num : Num) where
  -- At most n prompts more.
  abbrev pub IsFew : ℕ → LaneWorld num → LaneWorld num → Type 0
  IsFew n w w' = prompts_of w'.calls ≤ prompts_of w.calls + n

  IsFew-trans :
      (n k : ℕ) (w w' w'' : LaneWorld num) → IsFew n w w' → IsFew k w' w'' → IsFew (n + k) w w''
  IsFew-trans n k w w' w'' few more = omega arith

  IsFew-more : (n k : ℕ) (w w' : LaneWorld num) → IsFew n w w' → IsFew (n + k) w w'
  IsFew-more n k w w' few = omega arith

  IsFew-weaken : (n k : ℕ) (w w' : LaneWorld num) → n ≤ k → IsFew n w w' → IsFew k w w'
  IsFew-weaken n k w w' le few = omega arith

  record Prompts {A : Type 0} (n : ℕ) (m : LaneIo num A) : Type 0 where
    prompts : (w : LaneWorld num) → IsFew n w (m w).1

  Prompts-after :
      {A B : Type 0} {m : LaneIo num A} {f : A → LaneIo num B}
      → Takes 0 m
      → ((a : A) → Prompts 1 (f a))
      → Prompts 1 (m >>= f)
  unfolding ◌>>=◌
  Prompts-after {A} {B} {m} {f} h g = record { prompts = λ w. settle w (m w) (h.takes w).few }
    where
      settle :
          (w : LaneWorld num) (o : Outcome LaneError A × LaneWorld num)
          → IsFew 0 w o.1
          → IsFew 1 w (followed o.0 f o.1).1
      settle w (ok a, w') few = IsFew-trans 0 1 w w' (f a w').1 few ((g a).prompts w')
      settle w (throw e, w') few = IsFew-more 0 1 w w' few

module _ (num : Num) (host : SessionHost num) {V : Type 0} (result_of : Text → Outcome LaneError V)
    (limits : LaneLimits) where
  reserving-Prompts :
      {A : Type 0} (n : ℕ) {m : LaneIo num A}
      → Takes n m
      → Prompts num n (reserving num host result_of limits m)
  unfolding reserving
  reserving-Prompts n h = record {
    prompts = λ w. (h.takes (record w { run = (reserve_lane_budget num w.run).0 })).few;
  }

  gate-Takes : Takes 0 (gate num host result_of limits)
  gate-Takes = record { takes = λ w. (settle (check_budget_before_launch num w.run)).takes w }
    where
      settle : (o : Outcome BudgetStopped (Unit {0})) → Takes 0 (gated num host result_of limits o)
      settle (ok done) = Takes-returning tt
      settle (throw stopped) = Takes-failing _

  round-Prompts : (a : Attempt) → Prompts num 1 (round num host result_of limits a)
  unfolding round
  round-Prompts a = record {
    prompts = λ w.
        (Prompts-after num gate-Takes λ x.
            Prompts-after num (Takes-asking checks host.check λ calls. refl) λ x.
              reserving-Prompts 1 (
                guarded-Takes num host result_of limits a
                  (is_corrective num host result_of limits a w))).prompts
          w;
  }

  -- The loop from these counters on ends, with few prompts.
  abbrev Ends : ℕ → Attempt → LaneWorld num → Type 0
  Ends fuel a w =
      (r : Outcome LaneError V) × (w' : LaneWorld num) × (lane_attempts num host result_of limits
          fuel a w
        ≡ some (r, w'))
      × IsFew num fuel w w'

  resumed-Ends :
      (fuel : ℕ) (a : Attempt) (w : LaneWorld num) (o : Outcome LaneError (Next V))
      (w1 : LaneWorld num)
      → ((n : Next V) → o ≡ ok n → IsSmaller limits a n)
      → rounds_left limits a + 1 ≤ fuel + 1
      → IsFew num 1 w w1
      → ((a' : Attempt) → rounds_left limits a' + 1 ≤ fuel → Ends fuel a' w1)
      → (r : Outcome LaneError V) × (w' : LaneWorld num) × (resumed num host result_of limits
            (lane_attempts num host result_of limits fuel)
            o
            w1
          ≡ some (r, w'))
        × IsFew num (1 + fuel) w w'
  resumed-Ends fuel a w (throw e) w1 smaller enough s rest =
      (throw e, w1, refl, IsFew-more num 1 fuel w w1 s)
  resumed-Ends fuel a w (ok (left_with v)) w1 smaller enough s rest =
      (ok v, w1, refl, IsFew-more num 1 fuel w w1 s)
  resumed-Ends fuel a w (ok (again a')) w1 smaller enough s rest =
      let less : rounds_left limits a' + 1 ≤ rounds_left limits a = smaller (again a') refl in
      let (o, w', run, few) =
        rest a' (fits (rounds_left limits a') (rounds_left limits a) fuel less enough) in
      (o, w', run, IsFew-trans num 1 fuel w w1 w' s few)

  lane_attempts-Ends :
      (fuel : ℕ) (a : Attempt) (w : LaneWorld num) → rounds_left limits a + 1 ≤ fuel → Ends fuel a w
  unfolding lane_attempts
  lane_attempts-Ends zero a w enough = absurd (no_less (rounds_left limits a) enough)
  lane_attempts-Ends (suc fuel) a w enough =
      let next = round num host result_of limits a w in
      let (o, w', run, few) =
        resumed-Ends fuel a w next.0 next.1
          (λ n e. (round-IsSmaller num host result_of limits a).gives w n e)
          (same_suc (rounds_left limits a) fuel enough) ((round-Prompts a).prompts w)
          λ a' h. lane_attempts-Ends fuel a' next.1 h in
      (o, w', run, IsFew-weaken num (1 + fuel) (suc fuel) w w' (one_suc fuel) few)

  -- Whatever the host answers, and whichever errors it throws, the loop of a lane ends: with a result or an
  -- error, after at most one prompt for the first attempt, each transient retry and each corrective retry.
  pub run_lane-Ends :
      (w : LaneWorld num)
      → (r : Outcome LaneError V) × (w' : LaneWorld num) × (run_lane num host result_of limits w
          ≡ some (r, w'))
        × IsFew num (max_attempts limits + limits.corrective_retries) w w'
  unfolding run_lane
  run_lane-Ends w =
      lane_attempts-Ends (max_attempts limits + limits.corrective_retries) first_attempt w
        (enough_rounds limits)
