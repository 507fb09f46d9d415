-- ===== src/Drain/Frames.antt =====
-- Code of the drain that neither claims, releases, closes nor fails an item.
use opencode_workflows.Prelude.{
  ◌≡◌, refl, ◌∙◌, subst, sym, ℕ, suc, String, Bool, true, false, List, [], ◌∷◌, Outcome, throw,
  if◌then◌else◌,
}
use opencode_workflows.Drain.{
  Error, Call, Answer, Adapter, Point, transition, Closed, World, Drain, ◌>>=◌, pure, lift, call,
  modify,
}
use opencode_workflows.Drain.Triple.{
  Triple, Triple-pure, Triple-lift, Triple-call, Triple-catching, Triple-modify, Triple-bind,
  Triple-weaken,
}
use opencode_workflows.Drain.Attempt.{
  lifecycle_point, enter_phase, launch_allowed, create_followups, apply_repair_backoff, lane_phase,
  validation_phase, note_salvage,
}

-- How often the adapter was asked to claim an item, and to release one.
abbrev pub claims_in : List Call → ℕ
claims_in [] = 0
claims_in (Call.claim id ∷ calls) = suc (claims_in calls)
claims_in (_ ∷ calls) = claims_in calls

abbrev pub releases_in : List Call → ℕ
releases_in [] = 0
releases_in (Call.release_claim id reason ∷ calls) = suc (releases_in calls)
releases_in (_ ∷ calls) = releases_in calls

-- What the properties read of a world.
pub record View : Type 0 where
  pub claimed : ℕ
  pub released : ℕ
  pub closed : List Closed
  pub failed : List (String × String)
  pub attempted : Bool

abbrev pub view : World → View
view w = record {
  claimed = claims_in w.calls;
  released = releases_in w.calls;
  closed = w.report.closed;
  failed = w.report.failed;
  attempted = w.release_attempted;
}

-- Code that changes nothing of the view, whether it returns or throws.
pub record Frames {A : Type 0} (m : Drain A) : Type 0 where
  pub frame : (v : View) → Triple (λ w. view w ≡ v) m (λ _ w. view w ≡ v) (λ w. view w ≡ v)

module _ {A : Type 0} where
  pub frame-Triple :
      {m : Drain A} (P : View → Type 0)
      → Frames m
      → Triple (λ w. P (view w)) m (λ _ w. P (view w)) (λ w. P (view w))
  frame-Triple P h = record {
    holds = λ w p.
        (Triple-weaken (h.frame (view w)) (λ _ q. q) (λ a w' e. subst P (sym e) p)
            (λ w' e. subst P (sym e) p)).holds
          w refl;
  }

  pub Frames-call :
      (c : Call) (answer : Answer A)
      → ((w : World) → view (record w { calls = c ∷ w.calls }) ≡ view w)
      → Frames (call c answer)
  Frames-call c answer same = record {
    frame = λ v. Triple-call c answer (λ w e. same w ∙ e) (λ w e. e);
  }

  pub Frames-lift : (r : Outcome Error A) → Frames (lift r)
  Frames-lift r = record { frame = λ v. Triple-lift r (λ w e. e) }

  pub Frames-pure : (a : A) → Frames (pure a)
  Frames-pure a = record { frame = λ v. Triple-pure a }

  pub Frames-if : {m n : Drain A} (b : Bool) → Frames m → Frames n → Frames (if b then m else n)
  Frames-if true h k = h
  Frames-if false h k = k

module _ {A B : Type 0} where
  pub Frames-bind :
      {m : Drain A} {f : A → Drain B} → Frames m → ((a : A) → Frames (f a)) → Frames (m >>= f)
  Frames-bind h k = record { frame = λ v. Triple-bind (h.frame v) (λ a. (k a).frame v) }

pub Frames-modify : (f : World → World) → ((w : World) → view (f w) ≡ view w) → Frames (modify f)
Frames-modify f same = record { frame = λ v. Triple-modify f (λ w e. same w ∙ e) }

view-note_salvage :
    (dirty : Bool) (id : String) (attempt : ℕ) (w : World)
    → view (note_salvage dirty id attempt w) ≡ view w
view-note_salvage true id attempt w = refl
view-note_salvage false id attempt w = refl

module _ (adapter : Adapter) (base_ms max_attempts : ℕ) where
  pub Frames-lifecycle_point :
      (phase : String) (point : Point)
      → Frames (lifecycle_point adapter base_ms max_attempts phase point)
  unfolding lifecycle_point
  Frames-lifecycle_point phase point = Frames-call _ _ (λ w. refl)

  pub Frames-enter_phase : (name : String) → Frames (enter_phase adapter base_ms max_attempts name)
  unfolding enter_phase
  Frames-enter_phase name =
      Frames-bind (Frames-lifecycle_point name transition) λ _. Frames-modify _ (λ w. refl)

  pub Frames-launch_allowed :
      (phase id : String) → Frames (launch_allowed adapter base_ms max_attempts phase id)
  unfolding launch_allowed
  Frames-launch_allowed phase id = record {
    frame = λ v.
        Triple-catching
          ((Frames-call (Call.can_launch_lane phase id) adapter.can_launch (λ w. refl)).frame v)
          (λ e. (Frames-if _ (Frames-pure false) (Frames-lift (throw e))).frame v);
  }

  Frames-create_followups :
      (fs : List String) → Frames (create_followups adapter base_ms max_attempts fs)
  unfolding create_followups
  Frames-create_followups [] = Frames-pure []
  Frames-create_followups (f ∷ fs) =
      Frames-bind (Frames-call _ _ (λ w. refl))
        λ created. Frames-bind (Frames-create_followups fs) λ rest. Frames-pure (created ∷ rest)

  pub Frames-apply_repair_backoff :
      (attempt : ℕ) → Frames (apply_repair_backoff adapter base_ms max_attempts attempt)
  unfolding apply_repair_backoff
  Frames-apply_repair_backoff attempt = Frames-bind (Frames-lifecycle_point _ _) λ _.
      Frames-if _
        (Frames-bind (Frames-if _ (Frames-call _ _ (λ w. refl)) (Frames-pure tt))
          λ _. Frames-lifecycle_point _ _)
        (Frames-pure tt)

  pub Frames-lane_phase :
      (id : String) (attempt : ℕ) → Frames (lane_phase adapter base_ms max_attempts id attempt)
  unfolding lane_phase
  Frames-lane_phase id attempt = Frames-bind (Frames-lifecycle_point _ _) λ _.
      Frames-bind (Frames-call _ _ (λ w. refl)) λ _. Frames-bind (Frames-lifecycle_point _ _) λ _.
        Frames-bind (Frames-enter_phase _) λ _. Frames-bind (Frames-enter_phase _) λ _.
          Frames-bind (Frames-lifecycle_point _ _) λ _.
            Frames-bind (Frames-call _ _ (λ w. refl)) λ _. Frames-bind (Frames-lift _) λ lane.
              Frames-bind (Frames-lifecycle_point _ _) λ _. Frames-bind (Frames-lift _) λ _.
                Frames-bind (Frames-modify _ (view-note_salvage lane.salvage_dirty id attempt)) λ _.
                  Frames-bind (Frames-enter_phase _) λ _.
                    Frames-bind (Frames-lifecycle_point _ _) λ _.
                      Frames-bind (Frames-create_followups _) λ _.
                        Frames-bind (Frames-lifecycle_point _ _)
                          λ _. Frames-bind (Frames-modify _ (λ w. refl)) λ _. Frames-pure lane

  pub Frames-validation_phase :
      (id : String) (attempt : ℕ)
      → Frames (validation_phase adapter base_ms max_attempts id attempt)
  unfolding validation_phase
  Frames-validation_phase id attempt = Frames-bind (Frames-enter_phase _) λ _.
      Frames-bind (Frames-lifecycle_point _ _) λ _. Frames-bind (Frames-call _ _ (λ w. refl)) λ _.
        Frames-bind (Frames-lifecycle_point _ _) λ _. Frames-bind (Frames-enter_phase _) λ _.
          Frames-bind (Frames-lifecycle_point _ _) λ _.
            Frames-bind (Frames-call _ _ (λ w. refl)) λ _. Frames-bind (Frames-lift _) λ validation.
              Frames-bind (Frames-lifecycle_point _ _) λ _. Frames-bind (Frames-lift _) λ _.
                Frames-bind (Frames-lifecycle_point _ _) λ _.
                  Frames-bind (Frames-create_followups _) λ _.
                    Frames-bind (Frames-lifecycle_point _ _)
                      λ _. Frames-bind (Frames-modify _ (λ w. refl)) λ _. Frames-pure validation
