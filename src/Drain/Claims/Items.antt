-- ===== src/Drain/Claims/Items.antt =====
-- Triples for a claimed item, from its claim to its end.
use opencode_workflows.Prelude.{
  ◌≡◌, refl, ap, ℕ, zero, suc, ◌+◌, String, Bool, true, false, not, some, Bool-cases, inl, inr,
  arith,
}
use opencode_workflows.Drain.{Error, Call, Answer, Adapter, before, after, World, pure}
use opencode_workflows.Drain.Triple.{
  Triple-pure, Triple-reading, Triple-throw, Triple-call, Triple-catching, Triple-if, Triple-modify,
  Triple-bind, Triple-weaken,
}
use opencode_workflows.Drain.Frames.{
  View, view, Frames-modify, Frames-lifecycle_point, Frames-enter_phase, Frames-launch_allowed,
}
use opencode_workflows.Drain.Attempt.{Control, retry, done}
use opencode_workflows.Drain.Item.{
  is_abort, has_failed, note_exception, attempts_loop, give_up_unclosed, release_unless,
  on_exception, work_on, claim_and_work, refuse_claim, process_ready_item,
}
use opencode_workflows.Drain.Claims.{
  IsBalanced, IsClaimed, IsInFlight, IsGivenUp, IsCovered, IsThrown, IsCovered-Balanced, ViewTriple,
  framed, AfterAttempt,
}
use opencode_workflows.Drain.Claims.Attempts.{Triple-release, Triple-run_lane_attempt}

abbrev AfterLoop : String → Bool → View → Type 0
AfterLoop id true v = IsBalanced v
AfterLoop id false v = IsGivenUp id v

Thrown-note_exception :
    (id reason : String) (w : World)
    → IsThrown (view w)
    → IsThrown (view (note_exception id reason w))
Thrown-note_exception id reason w h = elim (Bool-cases (has_failed id w)) [
  | inl e ↦ rw e h
  | inr e ↦ rw e (record {
    covered = record { claims = h.covered.claims; accepted = h.covered.accepted };
    spare = h.spare;
  })
]

Thrown-released :
    (v : View)
    → IsThrown v × (v.attempted ≡ false)
    → IsCovered (record v { released = suc v.released })
Thrown-released v (h, e) = record {
  claims = omega (arith, h.spare e);
  accepted = h.covered.accepted;
}

Balanced-claimed : (v : View) → IsBalanced v → IsClaimed (record v { claimed = suc v.claimed })
Balanced-claimed v h = record {
  claims = omega (arith, h.claims);
  failures = h.failures;
  accepted = h.accepted;
}

IsCovered-Claimed : (v : View) → IsClaimed v → IsCovered v
IsCovered-Claimed v h = record { claims = omega (arith, h.claims); accepted = h.accepted }

module _ (adapter : Adapter) (base_ms max_attempts : ℕ) (answer : Answer (Unit {0}))
    (releases : adapter.release ≡ some answer) where
  after_control :
      (left attempt : ℕ) (id : String)
      → ViewTriple
          (AfterAttempt attempt max_attempts id retry)
          (attempts_loop adapter base_ms max_attempts left (suc attempt) id)
          (AfterLoop id)
          IsThrown
      → (c : Control)
      → ViewTriple
          (AfterAttempt attempt max_attempts id c)
          (elim c [
            | retry ↦ attempts_loop adapter base_ms max_attempts left (suc attempt) id
            | done closed ↦ pure closed
          ])
          (AfterLoop id)
          IsThrown
  after_control left attempt id next retry = next
  after_control left attempt id next (done true) =
      Triple-pure {Q = λ c w. AfterLoop id c (view w)} true
  after_control left attempt id next (done false) =
      Triple-pure {Q = λ c w. AfterLoop id c (view w)} false

  -- The last attempt does not ask for another one.
  Triple-attempts_loop :
      (left attempt : ℕ) (id : String)
      → left + attempt ≡ max_attempts
      → ViewTriple IsInFlight
          (attempts_loop adapter base_ms max_attempts (suc left) attempt id)
          (AfterLoop id)
          IsThrown
  unfolding attempts_loop
  Triple-attempts_loop zero attempt id last =
      Triple-bind (Triple-run_lane_attempt adapter base_ms max_attempts answer releases id attempt)
        (after_control zero attempt id
          (record { holds = λ w h. absurd (ground (arith, last, h.1)) }))
  Triple-attempts_loop (suc left) attempt id more =
      Triple-bind (Triple-run_lane_attempt adapter base_ms max_attempts answer releases id attempt)
        (after_control (suc left) attempt id (
          Triple-weaken (Triple-attempts_loop left (suc attempt) id (omega (arith, more)))
            (λ w h. h.0) (λ c w q. q) (λ w e. e)))

  Triple-give_up_unclosed :
      (id : String) (closed : Bool)
      → ViewTriple
          (AfterLoop id closed)
          (give_up_unclosed adapter base_ms max_attempts id closed)
          (λ _. IsBalanced)
          IsThrown
  unfolding give_up_unclosed
  Triple-give_up_unclosed id true =
      Triple-bind (Triple-reading {Q = λ k w. IsBalanced (view w)} _ (λ w h. h))
        λ known. Triple-pure {Q = λ _ w. IsBalanced (view w)} tt
  Triple-give_up_unclosed id false =
      Triple-bind
        (Triple-reading {Q = λ k w. IsBalanced (view w) × (k ≡ true)} _
          (λ w h. (h.balanced, h.failed)))
        λ known.
          Triple-if (not known) (λ n. record { holds = λ w h. absurd (ground (arith, n, h.1)) })
            (λ _.
              Triple-weaken (Triple-pure {Q = λ _ w. IsBalanced (view w)} tt) (λ w h. h.0)
                (λ a w q. q) (λ w e. e))

  Triple-work_on :
      (id : String)
      → (n : ℕ) × (max_attempts ≡ suc n)
      → ViewTriple IsInFlight (work_on adapter base_ms max_attempts id) (λ _. IsBalanced) IsThrown
  unfolding work_on
  Triple-work_on id (n, e) =
      Triple-bind
        (rw (ap (λ k. attempts_loop adapter base_ms max_attempts k 1 id) e)
          (Triple-attempts_loop n 1 id (omega (arith, e))))
        (Triple-give_up_unclosed id)

  release_or_not :
      (id reason : String) (attempted : Bool)
      → ViewTriple
          (λ v. IsThrown v × (v.attempted ≡ attempted))
          (release_unless adapter base_ms max_attempts id reason attempted)
          (λ _. IsCovered)
          IsCovered
  unfolding release_unless
  release_or_not id reason true =
      Triple-weaken (Triple-pure {Q = λ _ w. IsCovered (view w)} tt) (λ w h. h.0.covered)
        (λ a w q. q) (λ w e. e)
  release_or_not id reason false =
      Triple-release adapter base_ms max_attempts answer releases
        (λ v. IsThrown v × (v.attempted ≡ false)) IsCovered id reason Thrown-released

  Triple-on_exception :
      (id : String) (e : Error)
      → ViewTriple IsThrown
          (on_exception adapter base_ms max_attempts id e)
          (λ _. IsBalanced)
          IsCovered
  unfolding on_exception
  Triple-on_exception id e =
      Triple-if (is_abort e.kind) (λ _. Triple-throw e (λ w h. h.covered))
        (λ _. Triple-bind (Triple-modify _ (λ w h. Thrown-note_exception id _ w h)) λ _.
          Triple-bind
            (Triple-reading {Q = λ a w. IsThrown (view w) × ((view w).attempted ≡ a)} _
              (λ w h. (h, refl)))
            λ attempted. Triple-bind (release_or_not id _ attempted) λ _. Triple-throw e (λ w h. h))

  Triple-claim_and_work :
      (id : String)
      → (n : ℕ) × (max_attempts ≡ suc n)
      → ViewTriple IsBalanced
          (claim_and_work adapter base_ms max_attempts id)
          (λ _. IsBalanced)
          IsCovered
  unfolding claim_and_work
  Triple-claim_and_work id positive =
      Triple-bind
        (framed (Frames-enter_phase adapter base_ms max_attempts "claim") IsCovered-Balanced)
        λ _.
          Triple-bind
            (framed (Frames-lifecycle_point adapter base_ms max_attempts "claim" before)
              IsCovered-Balanced)
            λ _.
              Triple-bind
                (Triple-call (Call.claim id) adapter.claim (λ w h. Balanced-claimed (view w) h)
                  (λ w h. IsCovered-Claimed (view w) h))
                λ _.
                  Triple-bind
                    (framed (Frames-lifecycle_point adapter base_ms max_attempts "claim" after)
                      IsCovered-Claimed)
                    λ _.
                      Triple-bind
                        (Triple-modify {Q = λ w. IsInFlight (view w)} _ (λ w h. record {
                          claimed = record {
                            claims = h.claims;
                            failures = h.failures;
                            accepted = h.accepted;
                          };
                          unreleased = refl;
                        }))
                        λ _.
                          Triple-bind
                            (Triple-catching (Triple-work_on id positive) (Triple-on_exception id))
                            λ _. Triple-reading _ (λ w h. h)

  pub Triple-process_ready_item :
      (id : String)
      → (n : ℕ) × (max_attempts ≡ suc n)
      → ViewTriple IsBalanced
          (process_ready_item adapter base_ms max_attempts id)
          (λ _. IsBalanced)
          IsCovered
  unfolding process_ready_item refuse_claim
  Triple-process_ready_item id positive =
      Triple-bind
        (framed (Frames-lifecycle_point adapter base_ms max_attempts "preclaim" before)
          IsCovered-Balanced)
        λ _.
          Triple-bind
            (framed (Frames-launch_allowed adapter base_ms max_attempts "preclaim" id)
              IsCovered-Balanced)
            λ allowed.
              Triple-if allowed (λ _. Triple-claim_and_work id positive)
                (λ _.
                  Triple-bind (framed (Frames-modify _ (λ w. refl)) IsCovered-Balanced)
                    λ _. Triple-pure {Q = λ _ w. IsBalanced (view w)} true)
