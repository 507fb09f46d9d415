-- ===== src/Drain/Claims/Attempts.antt =====
-- Triples for one attempt at a claimed item.
use opencode_workflows.Prelude.{◌≡◌, refl, ℕ, suc, String, true, false, not, ◌||◌, some, ltb, arith}
use opencode_workflows.Drain.{
  Call, Answer, Adapter, before, after, start, LaneReport, ValidationReport,
}
use opencode_workflows.Drain.Triple.{
  Triple-pure, Triple-call, Triple-if, Triple-modify, Triple-bind, Triple-weaken,
}
use opencode_workflows.Drain.Frames.{
  View, view, Frames-modify, Frames-call, Frames-lifecycle_point, Frames-enter_phase,
  Frames-launch_allowed, Frames-apply_repair_backoff, Frames-lane_phase, Frames-validation_phase,
}
use opencode_workflows.Drain.Attempt.{
  retry, done, is_failed, repair_or_give_up, is_accepted, give_up, release_claimed_item, repair,
  close_item, after_validation, after_lane, stop_for_budget, run_lane_attempt,
}
use opencode_workflows.Drain.Claims.{
  IsAccepted, IsInFlight, IsGivenUp, IsFailing, IsThrown, IsThrown-InFlight, IsThrown-GivenUp,
  InFlight-failed, InFlight-closed, Failing-released, ViewTriple, framed, AfterAttempt,
}

module _ (adapter : Adapter) (base_ms max_attempts : ℕ) (answer : Answer (Unit {0}))
    (releases : adapter.release ≡ some answer) where
  pub Triple-release :
      (P Q : View → Type 0) (id reason : String)
      → ((v : View) → P v → Q (record v { released = suc v.released }))
      → ViewTriple P (release_claimed_item adapter base_ms max_attempts id reason) (λ _. Q) Q
  unfolding release_claimed_item
  Triple-release P Q id reason step = rw releases (
      Triple-bind
        (Triple-call (Call.release_claim id reason) answer (λ w p. step (view w) p) (λ w q. q))
        λ _. Triple-modify _ (λ w q. q))

  pub Triple-give_up :
      (id reason : String) (attempt : ℕ)
      → ViewTriple IsInFlight
          (give_up adapter base_ms max_attempts id reason)
          (AfterAttempt attempt max_attempts id)
          IsThrown
  unfolding give_up
  Triple-give_up id reason attempt =
      Triple-bind (Triple-modify _ (λ w h. InFlight-failed id reason (view w) h)) λ _.
        Triple-bind
          (Triple-weaken
            (Triple-release (IsFailing id) (IsGivenUp id) id reason (Failing-released id))
            (λ w p. p) (λ a w q. q) (λ w q. IsThrown-GivenUp id (view w) q))
          λ _. Triple-pure {Q = λ c w. AfterAttempt attempt max_attempts id c (view w)} (done false)

  Triple-repair :
      (id : String) (attempt : ℕ)
      → ltb attempt max_attempts ≡ true
      → ViewTriple IsInFlight
          (repair adapter base_ms max_attempts attempt)
          (AfterAttempt attempt max_attempts id)
          IsThrown
  unfolding repair
  Triple-repair id attempt more =
      Triple-bind
        (framed (Frames-enter_phase adapter base_ms max_attempts "repair") IsThrown-InFlight)
        λ _.
          Triple-bind
            (framed (Frames-apply_repair_backoff adapter base_ms max_attempts attempt)
              IsThrown-InFlight)
            λ _.
              Triple-weaken
                (Triple-pure {Q = λ c w. AfterAttempt attempt max_attempts id c (view w)} retry)
                (λ w h. (h, more)) (λ c w q. q) (λ w e. e)

  Triple-repair_or_give_up :
      (id : String) (attempt : ℕ) (reason : String)
      → ViewTriple IsInFlight
          (repair_or_give_up adapter base_ms max_attempts id attempt reason)
          (AfterAttempt attempt max_attempts id)
          IsThrown
  Triple-repair_or_give_up id attempt reason =
      Triple-if (ltb attempt max_attempts) (λ more. Triple-repair id attempt more)
        (λ _. Triple-give_up id reason attempt)

  Triple-close_item :
      (id : String) (attempt : ℕ) (lane : LaneReport) (validation : ValidationReport)
      → IsAccepted (record { id = id; lane = lane; validation = validation })
      → ViewTriple IsInFlight
          (close_item adapter base_ms max_attempts id lane validation)
          (AfterAttempt attempt max_attempts id)
          IsThrown
  unfolding close_item
  Triple-close_item id attempt lane validation good =
      Triple-bind
        (framed (Frames-enter_phase adapter base_ms max_attempts "close") IsThrown-InFlight)
        λ _.
          Triple-bind
            (framed (Frames-lifecycle_point adapter base_ms max_attempts "close" before)
              IsThrown-InFlight)
            λ _. Triple-bind (framed (Frames-call _ _ (λ w. refl)) IsThrown-InFlight) λ _.
              Triple-bind
                (framed (Frames-lifecycle_point adapter base_ms max_attempts "close" after)
                  IsThrown-InFlight)
                λ _. Triple-bind (Triple-modify _ (λ w h. InFlight-closed _ good (view w) h)) λ _.
                  Triple-pure {Q = λ c w. AfterAttempt attempt max_attempts id c (view w)}
                    (done true)

  Triple-after_validation :
      (id : String) (attempt : ℕ) (lane : LaneReport) (validation : ValidationReport)
      → lane.ready_for_integration ≡ true
      → is_failed lane.outcome ≡ false
      → ViewTriple IsInFlight
          (after_validation adapter base_ms max_attempts id attempt lane validation)
          (AfterAttempt attempt max_attempts id)
          IsThrown
  unfolding after_validation
  Triple-after_validation id attempt lane validation ready succeeded =
      Triple-if (is_accepted adapter base_ms max_attempts validation)
        (λ good. Triple-close_item id attempt lane validation (record {
          ready = ready;
          succeeded = succeeded;
          accepted = ground (arith, good);
          in_scope = ground (arith, good);
          handled = ground (arith, good);
        }))
        (λ _. Triple-repair_or_give_up id attempt validation.reason)

  Triple-after_lane :
      (id : String) (attempt : ℕ) (lane : LaneReport)
      → ViewTriple IsInFlight
          (after_lane adapter base_ms max_attempts id attempt lane)
          (AfterAttempt attempt max_attempts id)
          IsThrown
  unfolding after_lane
  Triple-after_lane id attempt lane =
      Triple-if (not lane.ready_for_integration || is_failed lane.outcome)
        (λ _. Triple-repair_or_give_up id attempt lane.summary)
        (λ fine.
          Triple-bind
            (framed (Frames-validation_phase adapter base_ms max_attempts id attempt)
              IsThrown-InFlight)
            λ validation.
              Triple-after_validation id attempt lane validation (ground (arith, fine))
                (ground (arith, fine)))

  pub Triple-run_lane_attempt :
      (id : String) (attempt : ℕ)
      → ViewTriple IsInFlight
          (run_lane_attempt adapter base_ms max_attempts id attempt)
          (AfterAttempt attempt max_attempts id)
          IsThrown
  unfolding run_lane_attempt stop_for_budget
  Triple-run_lane_attempt id attempt =
      Triple-bind
        (framed (Frames-lifecycle_point adapter base_ms max_attempts "attempt" start)
          IsThrown-InFlight)
        λ _.
          Triple-bind
            (framed (Frames-launch_allowed adapter base_ms max_attempts "preattempt" id)
              IsThrown-InFlight)
            λ allowed.
              Triple-if allowed
                (λ _.
                  Triple-bind
                    (framed (Frames-lane_phase adapter base_ms max_attempts id attempt)
                      IsThrown-InFlight)
                    (Triple-after_lane id attempt))
                (λ _.
                  Triple-bind (framed (Frames-modify _ (λ w. refl)) IsThrown-InFlight)
                    λ _. Triple-give_up id "lane launch budget exhausted" attempt)
