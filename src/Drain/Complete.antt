-- ===== src/Drain/Complete.antt =====
-- What a whole drain does to its claims, and what the status `complete` means.
use opencode_workflows.Prelude.{
  ◌≡◌, refl, subst, sym, ap, ◌∙◌, ℕ, zero, suc, String, Bool, true, false, List, [], ◌∷◌, Option,
  some, none, Outcome, ok, throw, arith, length, All,
}
use opencode_workflows.Drain.{Error, Answer, Adapter, World, pure}
use opencode_workflows.Drain.Triple.{
  Ends, Triple-pure, Triple-reading, Triple-throw, Triple-catching, Triple-if, Triple-modify,
  Triple-bind,
}
use opencode_workflows.Drain.Frames.{
  View, view, Frames-modify, Frames-lifecycle_point, Frames-enter_phase,
}
use opencode_workflows.Drain.Item.{is_abort}
use opencode_workflows.Drain.Loop.{
  Signal, drained, stop, continues, FinalStatus, complete, process_items, work_wave, handle_wave,
  run_wave, run_waves, keep_error, waves_or_error, finish, drain, final_status, empty_world, is_nil,
}
use opencode_workflows.Drain.Claims.{
  IsAccepted, IsBalanced, IsCovered, IsCovered-Balanced, ViewTriple, framed,
}
use opencode_workflows.Drain.Claims.Items.{Triple-process_ready_item}
use opencode_workflows.Drain.WaveFrames.{
  Frames-discover_ready, Frames-plan_wave, Frames-end_wave, Frames-start_plan, Frames-final_audit,
}

-- An error that was kept leaves the claims covered only.
abbrev AfterWaves : Option Error → View → Type 0
AfterWaves none v = IsBalanced v
AfterWaves (some e) v = IsCovered v

IsCovered-AfterWaves : (error : Option Error) (v : View) → AfterWaves error v → IsCovered v
IsCovered-AfterWaves none v h = IsCovered-Balanced v h
IsCovered-AfterWaves (some e) v h = h

-- Every item that was claimed was closed, and no failure was reported.
pub record IsFinished (v : View) : Type 0 where
  pub claims : v.claimed ≡ length v.closed
  pub released : v.released ≡ 0
  pub failed : v.failed ≡ []
  pub accepted : All IsAccepted v.closed

nil-is_nil : {A : Type 0} (xs : List A) → is_nil xs ≡ true → xs ≡ []
nil-is_nil [] h = refl
nil-is_nil (x ∷ xs) h = cc

finished :
    (dry_run dry exhausted : Bool) (error : Option Error) (w : World)
    → AfterWaves error (view w)
    → final_status error dry_run w.report dry exhausted ≡ complete
    → IsFinished (view w)
unfolding final_status
finished dry_run dry exhausted (some e) w h c = cc
finished dry_run dry exhausted none w h c =
    let none_failed = nil-is_nil w.report.failed (ground (arith, c)) in
    let none_released : (view w).released ≡ 0 = sym h.failures ∙ ap length none_failed in
    record {
      claims = omega (arith, h.claims, none_released);
      released = none_released;
      failed = none_failed;
      accepted = h.accepted;
    }

module _ (adapter : Adapter) (base_ms n : ℕ) (answer : Answer (Unit {0}))
    (releases : adapter.release ≡ some answer) where
  abbrev attempts : ℕ
  attempts = suc n

  go_on :
      (ids : List String)
      → ViewTriple IsBalanced
          (process_items adapter base_ms attempts ids)
          (λ _. IsBalanced)
          IsCovered
      → (breaks : Bool)
      → ViewTriple IsBalanced
          (elim breaks [ true ↦ pure tt | false ↦ process_items adapter base_ms attempts ids ])
          (λ _. IsBalanced)
          IsCovered
  go_on ids rest true = Triple-pure {Q = λ _ w. IsBalanced (view w)} tt
  go_on ids rest false = rest

  Triple-process_items :
      (ids : List String)
      → ViewTriple IsBalanced
          (process_items adapter base_ms attempts ids)
          (λ _. IsBalanced)
          IsCovered
  unfolding process_items
  Triple-process_items [] = Triple-pure {Q = λ _ w. IsBalanced (view w)} tt
  Triple-process_items (id ∷ ids) =
      Triple-bind (framed (Frames-lifecycle_point adapter base_ms attempts _ _) IsCovered-Balanced)
        λ _.
          Triple-bind
            (Triple-process_ready_item adapter base_ms attempts answer releases id (n, refl))
            λ breaks.
              Triple-bind
                (framed (Frames-lifecycle_point adapter base_ms attempts _ _) IsCovered-Balanced)
                λ _. go_on ids (Triple-process_items ids) breaks

  Triple-run_wave :
      (dry_run : Bool) (number : ℕ)
      → ViewTriple IsBalanced
          (run_wave adapter base_ms attempts dry_run number)
          (λ _. IsBalanced)
          IsCovered
  unfolding run_wave handle_wave work_wave
  Triple-run_wave dry_run number =
      Triple-bind
        (framed (Frames-discover_ready adapter base_ms attempts number) IsCovered-Balanced)
        λ ids.
          Triple-if (is_nil ids)
            (λ _. framed (Frames-end_wave adapter base_ms attempts) IsCovered-Balanced)
            (λ _.
              Triple-bind (framed (Frames-start_plan adapter base_ms attempts) IsCovered-Balanced)
                λ _.
                  Triple-if dry_run
                    (λ _. framed (Frames-plan_wave adapter base_ms attempts ids) IsCovered-Balanced)
                    (λ _. Triple-bind (Triple-process_items ids) λ _.
                      Triple-bind (framed (Frames-modify _ (λ w. refl)) IsCovered-Balanced)
                        λ _. Triple-reading _ (λ w h. h)))

  next_wave :
      (dry_run : Bool) (left number : ℕ)
      → ViewTriple IsBalanced
          (run_waves adapter base_ms attempts dry_run left (suc number))
          (λ _. IsBalanced)
          IsCovered
      → (signal : Signal)
      → ViewTriple IsBalanced
          (elim signal [
            | drained ↦ pure false
            | stop ↦ pure true
            | continues ↦ run_waves adapter base_ms attempts dry_run left (suc number)
          ])
          (λ _. IsBalanced)
          IsCovered
  next_wave dry_run left number rest drained = Triple-pure {Q = λ _ w. IsBalanced (view w)} false
  next_wave dry_run left number rest stop = Triple-pure {Q = λ _ w. IsBalanced (view w)} true
  next_wave dry_run left number rest continues = rest

  Triple-run_waves :
      (dry_run : Bool) (left number : ℕ)
      → ViewTriple IsBalanced
          (run_waves adapter base_ms attempts dry_run left number)
          (λ _. IsBalanced)
          IsCovered
  unfolding run_waves
  Triple-run_waves dry_run zero number = Triple-pure {Q = λ _ w. IsBalanced (view w)} true
  Triple-run_waves dry_run (suc left) number =
      Triple-bind (Triple-run_wave dry_run number)
        (next_wave dry_run left number (Triple-run_waves dry_run left (suc number)))

  Triple-waves_or_error :
      (dry_run : Bool) (max_waves : ℕ)
      → ViewTriple IsBalanced
          (waves_or_error adapter base_ms attempts dry_run max_waves)
          (λ r v. AfterWaves r.1 v)
          IsCovered
  unfolding waves_or_error keep_error
  Triple-waves_or_error dry_run max_waves =
      Triple-catching
        (Triple-bind (Triple-run_waves dry_run max_waves 1)
          λ exhausted. Triple-pure {Q = λ r w. AfterWaves r.1 (view w)} (exhausted, none))
        λ e.
          Triple-if (is_abort e.kind) (λ _. Triple-throw e (λ w h. h))
            (λ _.
              Triple-bind (Triple-modify {Q = λ w. IsCovered (view w)} _ (λ w h. h))
                λ _. Triple-pure {Q = λ r w. AfterWaves r.1 (view w)} (true, some e))

  Triple-drain :
      (dry_run : Bool) (max_waves : ℕ)
      → ViewTriple IsBalanced
          (drain adapter base_ms attempts dry_run max_waves)
          (λ status v. (status ≡ complete → IsFinished v) × IsCovered v)
          IsCovered
  unfolding drain finish
  Triple-drain dry_run max_waves =
      Triple-bind (framed (Frames-enter_phase adapter base_ms attempts _) IsCovered-Balanced) λ _.
        Triple-bind (Triple-waves_or_error dry_run max_waves) λ outcome.
          Triple-bind
            (framed (Frames-final_audit adapter base_ms attempts) (IsCovered-AfterWaves outcome.1))
            λ dry.
              Triple-bind
                (Triple-reading
                  {Q = λ status w. (status ≡ complete → IsFinished (view w)) × IsCovered (view w)} _
                  (λ w h. (
                    finished dry_run dry outcome.0 outcome.1 w h,
                    IsCovered-AfterWaves outcome.1 (view w) h,
                  )))
                λ status.
                  Triple-bind
                    (framed {P = λ v. (status ≡ complete → IsFinished v) × IsCovered v}
                      (Frames-enter_phase adapter base_ms attempts _) (λ v h. h.1))
                    λ _.
                      Triple-pure
                        {Q = λ status w.
                          (status ≡ complete → IsFinished (view w)) × IsCovered (view w)}
                        status

  drain-Ends :
      (dry_run : Bool) (max_waves : ℕ)
      → Ends
          (λ status w. (status ≡ complete → IsFinished (view w)) × IsCovered (view w))
          (λ w. IsCovered (view w))
          (drain adapter base_ms attempts dry_run max_waves empty_world)
  drain-Ends dry_run max_waves =
      (Triple-drain dry_run max_waves).holds empty_world
        (record { claims = refl; failures = refl; accepted = tt })

  Ends-Covered :
      (r : Outcome Error FinalStatus × World)
      → Ends
          (λ status w. (status ≡ complete → IsFinished (view w)) × IsCovered (view w))
          (λ w. IsCovered (view w))
          r
      → IsCovered (view r.1)
  Ends-Covered (ok status, w) h = h.1
  Ends-Covered (throw e, w) h = h

  -- However a drain ends, by a status, an error of the adapter or an abort, no claim is ended twice:
  -- the items that it reports as closed and the releases that it asks for are together at most the
  -- claims that it asked for, and every item that it reports as closed had a lane that was ready and
  -- did not fail, and a validation that accepted it in scope with its follow-ups handled. The adapter
  -- has releaseClaim, and at least one attempt is allowed.
  pub drain-IsCovered :
      (dry_run : Bool) (max_waves : ℕ)
      → IsCovered (view (drain adapter base_ms (suc n) dry_run max_waves empty_world).1)
  drain-IsCovered dry_run max_waves = Ends-Covered _ (drain-Ends dry_run max_waves)

  -- A drain that ends with the status `complete` has no failure and no release, and has reported as
  -- closed as many items as it claimed, each after an accepted validation. The adapter has
  -- releaseClaim, and at least one attempt is allowed.
  pub drain-IsFinished :
      (dry_run : Bool) (max_waves : ℕ) (w : World)
      → drain adapter base_ms (suc n) dry_run max_waves empty_world ≡ (ok complete, w)
      → IsFinished (view w)
  drain-IsFinished dry_run max_waves w e =
      (subst
          (Ends (λ status w. (status ≡ complete → IsFinished (view w)) × IsCovered (view w))
            (λ w. IsCovered (view w)))
          e (drain-Ends dry_run max_waves)).0
        refl
