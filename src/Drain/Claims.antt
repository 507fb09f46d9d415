-- ===== src/Drain/Claims.antt =====
-- A claim ends once: it is closed after an accepted validation, or it is released.
pub mod Attempts
pub mod Items
use opencode_workflows.Prelude.{
  ◌≡◌, refl, ◌∙◌, ap, ◌⊎◌, ℕ, zero, suc, ◌+◌, ◌≤◌, String, Bool, true, false, not, ◌&&◌, ◌||◌, List,
  [], ◌∷◌, some, Outcome, throw, if◌then◌else◌, Bool-cases, inl, inr, ltb, str_eq, eq_refl, arith,
  length, any, All,
}
use opencode_workflows.Drain.{
  Error, Call, Answer, Adapter, Point, before, after, start, Closed, World, Drain, LaneReport,
  ValidationReport, ◌>>=◌, ◌>>◌, pure, lift, call, modify, reading, catching,
}
use opencode_workflows.Drain.Triple.{
  Triple, Triple-pure, Triple-reading, Triple-lift, Triple-throw, Triple-call, Triple-catching,
  Triple-if, Triple-modify, Triple-bind, Triple-weaken,
}
use opencode_workflows.Drain.Frames.{
  View, view, Frames, frame-Triple, Frames-modify, Frames-bind, Frames-call, Frames-lifecycle_point,
  Frames-enter_phase, Frames-launch_allowed, Frames-apply_repair_backoff, Frames-lane_phase,
  Frames-validation_phase,
}
use opencode_workflows.Drain.Attempt.{
  Control, retry, done, is_failed, repair_or_give_up, is_accepted, give_up, release_claimed_item,
  repair, close_item, after_validation, after_lane, stop_for_budget, run_lane_attempt, note_failed,
  note_released,
}

-- The lane was ready and did not fail, and its validation accepted it in scope with its follow-ups.
pub record IsAccepted (c : Closed) : Type 0 where
  pub ready : c.lane.ready_for_integration ≡ true
  pub succeeded : is_failed c.lane.outcome ≡ false
  pub accepted : c.validation.accepted ≡ true
  pub in_scope : c.validation.diff_scope_ok ≡ true
  pub handled : c.validation.followups_handled ≡ true

-- Every claim has ended, in a close or in a release with a failure.
pub record IsBalanced (v : View) : Type 0 where
  pub claims : v.claimed ≡ length v.closed + v.released
  pub failures : length v.failed ≡ v.released
  pub accepted : All IsAccepted v.closed

-- One claim has not ended.
pub record IsClaimed (v : View) : Type 0 where
  pub claims : v.claimed ≡ suc (length v.closed + v.released)
  pub failures : length v.failed ≡ v.released
  pub accepted : All IsAccepted v.closed

pub record IsInFlight (v : View) : Type 0 where
  pub claimed : IsClaimed v
  pub unreleased : v.attempted ≡ false

pub record IsGivenUp (id : String) (v : View) : Type 0 where
  pub balanced : IsBalanced v
  pub attempted : v.attempted ≡ true
  pub failed : any (λ f. str_eq f.0 id) v.failed ≡ true

-- The failure is reported and the claim not released yet.
pub record IsFailing (id : String) (v : View) : Type 0 where
  pub claims : v.claimed ≡ suc (length v.closed + v.released)
  pub failures : length v.failed ≡ suc v.released
  pub accepted : All IsAccepted v.closed
  pub attempted : v.attempted ≡ true
  pub failed : any (λ f. str_eq f.0 id) v.failed ≡ true

-- No claim has ended twice.
pub record IsCovered (v : View) : Type 0 where
  pub claims : length v.closed + v.released ≤ v.claimed
  pub accepted : All IsAccepted v.closed

-- And where no release was attempted, there is a claim left to release.
pub record IsThrown (v : View) : Type 0 where
  pub covered : IsCovered v
  pub spare : v.attempted ≡ false → suc (length v.closed + v.released) ≤ v.claimed

pub IsThrown-InFlight : (v : View) → IsInFlight v → IsThrown v
IsThrown-InFlight v h = record {
  covered = record { claims = omega (arith, h.claimed.claims); accepted = h.claimed.accepted };
  spare = λ _. omega (arith, h.claimed.claims);
}

pub IsThrown-GivenUp : (id : String) (v : View) → IsGivenUp id v → IsThrown v
IsThrown-GivenUp id v h = record {
  covered = record { claims = omega (arith, h.balanced.claims); accepted = h.balanced.accepted };
  spare = λ e. let a = h.attempted in cc;
}

pub IsCovered-Balanced : (v : View) → IsBalanced v → IsCovered v
IsCovered-Balanced v h = record { claims = omega (arith, h.claims); accepted = h.accepted }

pub InFlight-failed :
    (id reason : String) (v : View)
    → IsInFlight v
    → IsFailing id (record v { failed = (id, reason) ∷ v.failed; attempted = true })
InFlight-failed id reason v h = record {
  claims = h.claimed.claims;
  failures = ap suc h.claimed.failures;
  accepted = h.claimed.accepted;
  attempted = refl;
  failed = rw (eq_refl id) refl;
}

pub InFlight-closed :
    (entry : Closed)
    → IsAccepted entry
    → (v : View) → IsInFlight v
    → IsBalanced (record v { closed = entry ∷ v.closed })
InFlight-closed entry good v h = record {
  claims = omega (arith, h.claimed.claims);
  failures = h.claimed.failures;
  accepted = (good, h.claimed.accepted);
}

pub Failing-released :
    (id : String) (v : View)
    → IsFailing id v
    → IsGivenUp id (record v { released = suc v.released })
Failing-released id v h = record {
  balanced = record {
    claims = omega (arith, h.claims);
    failures = h.failures;
    accepted = h.accepted;
  };
  attempted = h.attempted;
  failed = h.failed;
}

-- A triple on views.
abbrev pub ViewTriple :
    {A : Type 0} → (View → Type 0) → Drain A → (A → View → Type 0) → (View → Type 0) → Type 0
ViewTriple P m Q E = Triple (λ w. P (view w)) m (λ a w. Q a (view w)) (λ w. E (view w))

module _ {A : Type 0} {P E : View → Type 0} where
  pub framed : {m : Drain A} → Frames m → ((v : View) → P v → E v) → ViewTriple P m (λ _. P) E
  framed h fail = Triple-weaken (frame-Triple P h) (λ w p. p) (λ a w p. p) (λ w p. fail (view w) p)

-- What one attempt comes to.
abbrev pub AfterAttempt : ℕ → ℕ → String → Control → View → Type 0
AfterAttempt attempt max id retry v = IsInFlight v × (ltb attempt max ≡ true)
AfterAttempt attempt max id (done true) v = IsBalanced v
AfterAttempt attempt max id (done false) v = IsGivenUp id v
