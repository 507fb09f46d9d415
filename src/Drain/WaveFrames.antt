-- ===== src/Drain/WaveFrames.antt =====
-- The code of a wave that touches no claim: discovery, classification, plans and the final audit.
use opencode_workflows.Prelude.{
  ◌≡◌, refl, ℕ, String, Bool, true, false, List, [], ◌∷◌, Option, if◌then◌else◌,
}
use opencode_workflows.Drain.{Adapter, World}
use opencode_workflows.Drain.Frames.{
  view, Frames, Frames-bind, Frames-pure, Frames-lift, Frames-call, Frames-modify,
  Frames-lifecycle_point, Frames-enter_phase,
}
use opencode_workflows.Drain.Reports.{item_id, normalize_classification}
use opencode_workflows.Drain.Loop.{
  drained, plan_items, classify_items, discover_ready, start_plan, plan_wave, end_wave, final_audit,
  is_ready, note_ready, note_skipped,
}

view-note_status :
    (id : String) (is_ready : Bool) (w : World)
    → view ((if is_ready then note_ready id else note_skipped id) w) ≡ view w
view-note_status id true w = refl
view-note_status id false w = refl

module _ (adapter : Adapter) (base_ms max_attempts : ℕ) where
  pub Frames-classify_items :
      (items : List (Option String)) → Frames (classify_items adapter base_ms max_attempts items)
  unfolding classify_items
  Frames-classify_items [] = Frames-pure []
  Frames-classify_items (item ∷ items) = Frames-bind (Frames-lift (item_id item)) λ id.
      Frames-bind (Frames-lifecycle_point adapter base_ms max_attempts _ _) λ _.
        Frames-bind (Frames-call _ _ (λ w. refl)) λ value.
          Frames-bind (Frames-lift (normalize_classification value)) λ status.
            Frames-bind (Frames-lifecycle_point adapter base_ms max_attempts _ _) λ _.
              Frames-bind (Frames-modify _ (view-note_status id (is_ready status)))
                λ _. Frames-bind (Frames-classify_items items) λ rest. Frames-pure _

  pub Frames-discover_ready :
      (number : ℕ) → Frames (discover_ready adapter base_ms max_attempts number)
  unfolding discover_ready
  Frames-discover_ready number =
      Frames-bind (Frames-enter_phase adapter base_ms max_attempts _) λ _.
        Frames-bind (Frames-lifecycle_point adapter base_ms max_attempts _ _) λ _.
          Frames-bind (Frames-call _ _ (λ w. refl)) λ _.
            Frames-bind (Frames-lifecycle_point adapter base_ms max_attempts _ _) λ _.
              Frames-bind (Frames-lift _) λ items.
                Frames-bind (Frames-enter_phase adapter base_ms max_attempts _)
                  λ _. Frames-bind (Frames-modify _ (λ w. refl)) λ _. Frames-classify_items items

  pub Frames-plan_items : (ids : List String) → Frames (plan_items adapter base_ms max_attempts ids)
  unfolding plan_items
  Frames-plan_items [] = Frames-pure tt
  Frames-plan_items (id ∷ ids) =
      Frames-bind (Frames-modify _ (λ w. refl)) λ _. Frames-plan_items ids

  pub Frames-plan_wave : (ids : List String) → Frames (plan_wave adapter base_ms max_attempts ids)
  unfolding plan_wave
  Frames-plan_wave ids = Frames-bind (Frames-plan_items ids) λ _.
      Frames-bind (Frames-modify _ (λ w. refl)) λ _.
        Frames-bind (Frames-lifecycle_point adapter base_ms max_attempts _ _)
          λ _. Frames-pure drained

  pub Frames-end_wave : Frames (end_wave adapter base_ms max_attempts)
  unfolding end_wave
  Frames-end_wave = Frames-bind (Frames-modify _ (λ w. refl)) λ _. Frames-pure drained

  pub Frames-start_plan : Frames (start_plan adapter base_ms max_attempts)
  unfolding start_plan
  Frames-start_plan =
      Frames-bind (Frames-enter_phase adapter base_ms max_attempts _)
        λ _. Frames-lifecycle_point adapter base_ms max_attempts _ _

  pub Frames-final_audit : Frames (final_audit adapter base_ms max_attempts)
  unfolding final_audit
  Frames-final_audit = Frames-bind (Frames-enter_phase adapter base_ms max_attempts _) λ _.
      Frames-bind (Frames-lifecycle_point adapter base_ms max_attempts _ _) λ _.
        Frames-bind (Frames-call _ _ (λ w. refl)) λ dry.
          Frames-bind (Frames-lifecycle_point adapter base_ms max_attempts _ _) λ _. Frames-pure dry
