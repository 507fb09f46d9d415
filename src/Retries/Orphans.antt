-- ===== src/Retries/Orphans.antt =====
-- The children of the run after the retry loop of runChildAgent in
-- workflow-kernel/child-agent-runner.js.
use opencode_workflows.Prelude.{
  ℕ, zero, suc, ◌≡◌, ◌≢◌, refl, sym, ap, subst, ◌∙◌, ◌⊎◌, inl, inr, Bool, true, false, ◌&&◌, Option,
  none, some, List, Outcome, ok, throw, ltb, leb,
}
use opencode_workflows.Authority.Pattern.{Text}
use opencode_workflows.Budget.{
  Num, Run, check_budget_before_launch, BudgetStopped, reserve_lane_budget, release_lane_budget,
  Reservation,
}
use opencode_workflows.Retries.{LaneError, LaneClass, transient, terminal, classify_lane_error}
use opencode_workflows.Retries.Loop.{
  LaneCall, checks, notes, sleeps, SessionHost, LaneWorld, LaneLimits, max_attempts, Attempt,
  first_attempt, Next, again, left_with, LaneIo, returning, asking, attempting, ◌>>=◌, ◌>>◌,
}
use opencode_workflows.Retries.Lane.{
  without, has_child, lane_attempt, retired, retry_transient, after_error_with, after_error,
  reserving, gated, gate, is_corrective, round, resumed, lane_attempts, run_lane,
}
use opencode_workflows.Retries.Meets.{
  Lands, Meets, Meets-returning, Meets-failing, Meets-bind, Meets-attempting, Meets-if,
  Meets-asking,
}
use opencode_workflows.Retries.Children.{
  is_live, IsTidy, IsFresh, live-without, noting-Tidies, asking-Fresh, corrective-Tidies,
  lane_attempt-Tidy,
}

abbrev world_of : {A W : Type 0} → W → Option (A × W) → W
world_of d none = d
world_of d (some (a, w)) = w

left_at :
    {A W : Type 0} {a b : A} {w w' : W}
    → ◌≡◌ {A = Option (A × W)} (some (a, w)) (some (b, w'))
    → w ≡ w'
left_at {w = w} h = ap (world_of w) h

module _ (num : Num) (host : SessionHost num) (base : List ℕ) {V : Type 0}
    (result_of : Text → Outcome LaneError V) (limits : LaneLimits) where
  -- From here an attempt starts: one that is not corrective has no child.
  abbrev Starts : Attempt → LaneWorld num → Type 0
  Starts a w = IsTidy base w × (a.pending ≡ false → w.child ≡ none)

  abbrev GoesOn : Next V → LaneWorld num → Type 0
  GoesOn (again a) w = Starts a w
  GoesOn (left_with v) w = IsTidy base w

  retired-Fresh :
      (child : Option ℕ) (w : LaneWorld num)
      → w.child ≡ child
      → IsTidy base w
      → Lands (λ a. IsFresh base) (IsTidy base) (retired num host result_of limits child w)
  retired-Fresh none w at tidy = (tidy, at)
  retired-Fresh (some id) w at tidy = (gone, refl)
    where
      gone :
          (x : ℕ)
          → is_live x (without id w.children) ≡ true
          → (is_live x base ≡ true) ⊎ (◌≡◌ {A = Option ℕ} none (some x))
      gone x found =
          let (before, other) = live-without id x w.children found in
          elim (tidy x before) [
            | inl was ↦ inl was
            | inr child ↦
                let same : ◌≡◌ {A = Option ℕ} (some id) (some x) = sym at ∙ child in
                absurd (other cc)
          ]

  retry_transient-GoesOn :
      (a : Attempt) (e : LaneError) (c : LaneClass)
      → Meets (IsTidy base) (retry_transient num host result_of limits a e c) GoesOn (IsTidy base)
  retry_transient-GoesOn a e terminal = Meets-failing _ e λ w h. h
  retry_transient-GoesOn a e transient =
      Meets-if _ (leb (max_attempts limits) a.transient_attempt) (Meets-failing _ _ λ w h. h) (
        Meets-bind (λ x. IsFresh base) _ (record { meets = λ w h. retired-Fresh w.child w refl h })
          λ x.
            Meets-bind (λ x. IsFresh base) _ (asking-Fresh num host base notes host.note)
              λ x.
                Meets-bind (λ x. IsFresh base) _ (asking-Fresh num host base sleeps host.sleep)
                  λ x. Meets-returning _ _ λ w (tidy, childless). (tidy, λ p. childless))

  after_error-GoesOn :
      (a : Attempt) (e : LaneError)
      → Meets (IsTidy base) (after_error num host result_of limits a e) GoesOn (IsTidy base)
  unfolding after_error
  after_error-GoesOn a e = record { meets = λ w h. (settle (has_child w.child)).meets w h }
    where
      settle :
          (child : Bool)
          → Meets
              (IsTidy base)
              (after_error_with num host result_of limits a e child)
              GoesOn
              (IsTidy base)
      settle child =
          Meets-if _
            (e.is_correctable && ltb a.corrective_attempts limits.corrective_retries && child)
            (Meets-bind (λ x. IsTidy base) _ (noting-Tidies num host base)
              λ x. Meets-returning _ _ λ w h. (h, λ p. absurd (true_is p)))
            (retry_transient-GoesOn a e (classify_lane_error e))
        where
          true_is : ◌≢◌ true false
          true_is h = cc

  -- What an attempt and its `catch` leave, in a state from which the attempt runs.
  guarded-GoesOn :
      (a : Attempt) (corrective : Bool) (P : LaneWorld num → Type 0)
      → Meets P
          (lane_attempt num host result_of limits a corrective)
          (λ v. IsTidy base)
          (IsTidy base)
      → Meets P
          (attempting
            (lane_attempt num host result_of limits a corrective >>= λ v. returning (left_with v))
            (after_error num host result_of limits a))
          GoesOn
          (IsTidy base)
  guarded-GoesOn a corrective P h =
      Meets-attempting (IsTidy base) _
        (Meets-bind (λ v. IsTidy base) _ h λ v. Meets-returning _ _ λ w t. t) (after_error-GoesOn a)

  gate-Meets :
      (P : LaneWorld num → Type 0)
      → ((w : LaneWorld num) → P w → IsTidy base w)
      → Meets P (gate num host result_of limits) (λ x. P) (IsTidy base)
  gate-Meets P h = record {
    meets = λ w p. (settle (check_budget_before_launch num w.run)).meets w p;
  }
    where
      settle :
          (o : Outcome BudgetStopped (Unit {0}))
          → Meets P (gated num host result_of limits o) (λ x. P) (IsTidy base)
      settle (ok done) = Meets-returning _ tt λ w p. p
      settle (throw stopped) = Meets-failing _ _ h

  reserving-Meets :
      (P : LaneWorld num → Type 0) {m : LaneIo num (Next V)}
      → ((w : LaneWorld num) (run : Run num) → P w → P (record w { run = run }))
      → Meets P m GoesOn (IsTidy base)
      → Meets P (reserving num host result_of limits m) GoesOn (IsTidy base)
  unfolding reserving
  reserving-Meets P {m} closed h = record {
    meets = λ w p.
        let run = (reserve_lane_budget num w.run).0 in
        settle (reserve_lane_budget num w.run).1 (m (record w { run = run }))
          (h.meets (record w { run = run }) (closed w run p));
  }
    where
      settle :
          (reservation : Reservation num) (o : Outcome LaneError (Next V) × LaneWorld num)
          → Lands GoesOn (IsTidy base) o
          → Lands GoesOn
              (IsTidy base)
              (o.0, record o.1 { run = release_lane_budget num o.1.run (some reservation) })
      settle reservation (ok (again a), w) h = h
      settle reservation (ok (left_with v), w) h = h
      settle reservation (throw e, w) h = h

  -- The round, once it is known which kind of attempt it makes.
  chosen-Meets :
      (a : Attempt) (corrective : Bool) (P : LaneWorld num → Type 0)
      → ((w : LaneWorld num) (run : Run num) → P w → P (record w { run = run }))
      → ((w : LaneWorld num) (calls : List LaneCall) → P w → P (record w { calls = calls }))
      → ((w : LaneWorld num) → P w → IsTidy base w)
      → Meets P
          (lane_attempt num host result_of limits a corrective)
          (λ v. IsTidy base)
          (IsTidy base)
      → Meets P
          (gate num host result_of limits
            >> (asking num checks host.check
                >> reserving num host result_of limits (
                    attempting
                      (lane_attempt num host result_of limits a corrective >>= λ v.
                        returning (left_with v))
                      (after_error num host result_of limits a))))
          GoesOn
          (IsTidy base)
  chosen-Meets a corrective P by_run by_calls tidy h =
      Meets-bind (λ x. P) _ (gate-Meets P tidy)
        λ x.
          Meets-bind (λ x. P) _
            (Meets-asking checks host.check by_calls λ w calls p. tidy _ (by_calls w calls p))
            λ x. reserving-Meets P by_run (guarded-GoesOn a corrective P h)

  round-GoesOn :
      (a : Attempt) (w : LaneWorld num)
      → Starts a w
      → Lands GoesOn (IsTidy base) (round num host result_of limits a w)
  unfolding round
  round-GoesOn a w (tidy, childless) = settle (is_corrective num host result_of limits a w) refl
    where
      no_child :
          (p : Bool) (c : Option ℕ) → (p && has_child c) ≡ false → (p ≡ false → c ≡ none) → c ≡ none
      no_child false c h k = k refl
      no_child true none h k = refl
      no_child true (some id) h k = let bad : true ≡ false = h in cc

      settle :
          (corrective : Bool)
          → is_corrective num host result_of limits a w ≡ corrective
          → Lands GoesOn (IsTidy base) (
              (gate num host result_of limits
                  >> (asking num checks host.check
                      >> reserving num host result_of limits (
                          attempting
                            (lane_attempt num host result_of limits a corrective >>= λ v.
                              returning (left_with v))
                            (after_error num host result_of limits a))))
                w)
      settle true h =
          (chosen-Meets a true (λ w. IsTidy base w) (λ w run t. t) (λ w calls t. t) (λ w t. t)
              (corrective-Tidies num host base result_of limits a)).meets
            w tidy
      settle false h =
          (chosen-Meets a false (λ w. IsFresh base w) (λ w run t. t) (λ w calls t. t) (λ w t. t.0)
              (lane_attempt-Tidy num host base result_of limits a)).meets
            w (tidy, no_child a.pending w.child h childless)

  lane_attempts-IsTidy :
      (fuel : ℕ) (a : Attempt) (w : LaneWorld num) (r : Outcome LaneError V) (w' : LaneWorld num)
      → Starts a w
      → lane_attempts num host result_of limits fuel a w ≡ some (r, w')
      → IsTidy base w'
  unfolding lane_attempts
  lane_attempts-IsTidy zero a w r w' starts h = cc
  lane_attempts-IsTidy (suc fuel) a w r w' starts h =
      settle (lane_attempts-IsTidy fuel) (round num host result_of limits a w)
        (round-GoesOn a w starts) h
    where
      settle :
          ((a : Attempt) (w : LaneWorld num) (r : Outcome LaneError V) (w' : LaneWorld num)
            → Starts a w
            → lane_attempts num host result_of limits fuel a w ≡ some (r, w')
            → IsTidy base w')
          → (o : Outcome LaneError (Next V) × LaneWorld num) → Lands GoesOn (IsTidy base) o
          → resumed num host result_of limits (lane_attempts num host result_of limits fuel) o.0 o.1
            ≡ some (r, w')
          → IsTidy base w'
      settle rest (ok (again a), w1) on h = rest a w1 r w' on h
      settle rest (ok (left_with v), w1) on h = subst (IsTidy base) (left_at h) on
      settle rest (throw e, w1) on h = subst (IsTidy base) (left_at h) on

-- A lane that starts without a child leaves no session of an attempt that it gave up among the children
-- of the run: when the loop is over, with a result or an error, every session in `run.children` was there
-- before or is the lane's own last child. Whether the host closes the others is not claimed.
pub run_lane-IsTidy :
    (num : Num) (host : SessionHost num) {V : Type 0} (result_of : Text → Outcome LaneError V)
    (limits : LaneLimits) (w : LaneWorld num) (r : Outcome LaneError V) (w' : LaneWorld num)
    → w.child ≡ none
    → run_lane num host result_of limits w ≡ some (r, w')
    → IsTidy w.children w'
unfolding run_lane
run_lane-IsTidy num host result_of limits w r w' childless h =
    lane_attempts-IsTidy num host w.children result_of limits _ first_attempt w r w'
      (λ id found. inl found, λ p. childless) h
