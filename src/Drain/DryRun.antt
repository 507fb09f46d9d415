-- ===== src/Drain/DryRun.antt =====
-- A dry run of the drain.
use opencode_workflows.Prelude.{
  ◌≡◌, refl, ◌⊎◌, inl, inr, ℕ, zero, suc, String, Bool, true, false, List, [], ◌∷◌, Option, some,
  none, Outcome, ok, throw, all, if◌then◌else◌, arith,
}
use opencode_workflows.Drain.{Error, Call, Answer, Adapter, Point, World, Drain, pure, call, modify}
use opencode_workflows.Drain.Triple.{
  Ends, Triple, Triple-pure, Triple-reading, Triple-lift, Triple-throw, Triple-call,
  Triple-catching, Triple-if, Triple-modify, Triple-bind, Triple-weaken,
}
use opencode_workflows.Drain.Attempt.{lifecycle_point, enter_phase}
use opencode_workflows.Drain.Reports.{item_id, normalize_classification}
use opencode_workflows.Drain.Item.{is_abort}
use opencode_workflows.Drain.Loop.{
  Signal, drained, stop, continues, FinalStatus, dry_run_complete, failed_drain, plan_items,
  classify_items, discover_ready, start_plan, plan_wave, end_wave, handle_wave, run_wave, run_waves,
  keep_error, waves_or_error, final_audit, finish, drain, final_status, empty_world, is_nil,
  is_ready, note_ready, note_skipped,
}

-- The calls that neither change an item nor start a lane.
abbrev pub is_reading : Call → Bool
is_reading (Call.claim id) = false
is_reading (Call.build_lane_packet id attempt) = false
is_reading (Call.run_lane id attempt) = false
is_reading (Call.integrate id attempt) = false
is_reading (Call.validate id attempt) = false
is_reading (Call.close id) = false
is_reading (Call.create_followup f) = false
is_reading (Call.release_claim id reason) = false
is_reading _ = true

abbrev pub IsQuiet : World → Type 0
IsQuiet w = all is_reading w.calls ≡ true

abbrev Quiet : {A : Type 0} → Drain A → Type 0
Quiet m = Triple IsQuiet m (λ _. IsQuiet) IsQuiet

module _ {A : Type 0} where
  Quiet-pure : (a : A) → Quiet (pure a)
  Quiet-pure a = Triple-pure {Q = λ _. IsQuiet} a

  Quiet-call : (c : Call) (answer : Answer A) → is_reading c ≡ true → Quiet (call c answer)
  Quiet-call c answer r = Triple-call c answer (λ w q. ground (arith, r, q)) (λ w q. q)

Quiet-modify : (f : World → World) → ((w : World) → (f w).calls ≡ w.calls) → Quiet (modify f)
Quiet-modify f same = Triple-modify f (λ w q. rw (same w) q)

calls-note_status :
    (id : String) (is_ready : Bool) (w : World)
    → ((if is_ready then note_ready id else note_skipped id) w).calls ≡ w.calls
calls-note_status id true w = refl
calls-note_status id false w = refl

module _ (adapter : Adapter) (base_ms max_attempts : ℕ) where
  Quiet-point :
      (phase : String) (point : Point)
      → Quiet (lifecycle_point adapter base_ms max_attempts phase point)
  unfolding lifecycle_point
  Quiet-point phase point = Quiet-call _ _ refl

  Quiet-phase : (name : String) → Quiet (enter_phase adapter base_ms max_attempts name)
  unfolding enter_phase
  Quiet-phase name = Triple-bind (Quiet-point _ _) λ _. Quiet-modify _ (λ w. refl)

  Quiet-classify :
      (items : List (Option String)) → Quiet (classify_items adapter base_ms max_attempts items)
  unfolding classify_items
  Quiet-classify [] = Quiet-pure []
  Quiet-classify (item ∷ items) = Triple-bind (Triple-lift (item_id item) (λ w q. q)) λ id.
      Triple-bind (Quiet-point _ _) λ _. Triple-bind (Quiet-call _ _ refl) λ value.
        Triple-bind (Triple-lift (normalize_classification value) (λ w q. q)) λ status.
          Triple-bind (Quiet-point _ _) λ _.
            Triple-bind (Quiet-modify _ (calls-note_status id (is_ready status)))
              λ _. Triple-bind (Quiet-classify items) λ rest. Quiet-pure _

  Quiet-discover : (number : ℕ) → Quiet (discover_ready adapter base_ms max_attempts number)
  unfolding discover_ready
  Quiet-discover number = Triple-bind (Quiet-phase _) λ _. Triple-bind (Quiet-point _ _) λ _.
      Triple-bind (Quiet-call _ _ refl) λ _. Triple-bind (Quiet-point _ _) λ _.
        Triple-bind (Triple-lift _ (λ w q. q)) λ items.
          Triple-bind (Quiet-phase _)
            λ _. Triple-bind (Quiet-modify _ (λ w. refl)) λ _. Quiet-classify items

  Quiet-items : (ids : List String) → Quiet (plan_items adapter base_ms max_attempts ids)
  unfolding plan_items
  Quiet-items [] = Quiet-pure tt
  Quiet-items (id ∷ ids) = Triple-bind (Quiet-modify _ (λ w. refl)) λ _. Quiet-items ids

  last_signal : Triple IsQuiet (pure drained) (λ signal w. (signal ≡ drained) × IsQuiet w) IsQuiet
  last_signal =
      Triple-weaken (Triple-pure {Q = λ signal w. (signal ≡ drained) × IsQuiet w} drained)
        (λ w q. (refl, q)) (λ a w q. q) (λ w q. q)

  -- A wave of a dry run is the last one.
  IsQuiet-wave :
      (number : ℕ)
      → Triple IsQuiet
          (run_wave adapter base_ms max_attempts true number)
          (λ signal w. (signal ≡ drained) × IsQuiet w)
          IsQuiet
  unfolding run_wave handle_wave end_wave plan_wave start_plan
  IsQuiet-wave number = Triple-bind (Quiet-discover number) λ ids.
      Triple-if (is_nil ids) (λ _. Triple-bind (Quiet-modify _ (λ w. refl)) λ _. last_signal)
        (λ _. Triple-bind (Triple-bind (Quiet-phase _) (λ _. Quiet-point _ _)) λ _.
          Triple-bind (Quiet-items ids) λ _.
            Triple-bind (Quiet-modify _ (λ w. refl))
              λ _. Triple-bind (Quiet-point _ _) λ _. last_signal)

  IsQuiet-signal :
      (left number : ℕ) (signal : Signal)
      → Triple
          (λ w. (signal ≡ drained) × IsQuiet w)
          (elim signal [
            | drained ↦ pure false
            | stop ↦ pure true
            | continues ↦ run_waves adapter base_ms max_attempts true left (suc number)
          ])
          (λ _. IsQuiet)
          IsQuiet
  IsQuiet-signal left number drained =
      Triple-weaken (Quiet-pure false) (λ w q. q.1) (λ a w q. q) (λ w q. q)
  IsQuiet-signal left number stop = record { holds = λ w q. absurd (ground (arith, q.0)) }
  IsQuiet-signal left number continues = record { holds = λ w q. absurd (ground (arith, q.0)) }

  Quiet-waves : (left number : ℕ) → Quiet (run_waves adapter base_ms max_attempts true left number)
  unfolding run_waves
  Quiet-waves zero number = Quiet-pure true
  Quiet-waves (suc left) number = Triple-bind (IsQuiet-wave number) (IsQuiet-signal left number)

  Quiet-waves_or_error :
      (max_waves : ℕ) → Quiet (waves_or_error adapter base_ms max_attempts true max_waves)
  unfolding waves_or_error keep_error
  Quiet-waves_or_error max_waves =
      Triple-catching
        (Triple-bind (Quiet-waves max_waves 1) λ exhausted. Quiet-pure (exhausted, none))
        λ e.
          Triple-if (is_abort e.kind) (λ _. Triple-throw e (λ w q. q))
            (λ _. Triple-bind (Quiet-modify _ (λ w. refl)) λ _. Quiet-pure (true, some e))

  abbrev AfterDryRun : FinalStatus → World → Type 0
  AfterDryRun status w = ((status ≡ dry_run_complete) ⊎ (status ≡ failed_drain)) × IsQuiet w

  dry_status :
      (error : Option Error) (w : World) (dry exhausted : Bool)
      → (final_status error true w.report dry exhausted ≡ dry_run_complete)
        ⊎ (final_status error true w.report dry exhausted ≡ failed_drain)
  unfolding final_status
  dry_status none w dry exhausted = inl refl
  dry_status (some e) w dry exhausted = inr refl

  keep_status :
      (status : FinalStatus)
      → Triple
          (AfterDryRun status)
          (enter_phase adapter base_ms max_attempts "complete")
          (λ _. AfterDryRun status)
          IsQuiet
  unfolding enter_phase lifecycle_point
  keep_status status =
      Triple-bind (Triple-call _ _ (λ w q. q) (λ w q. q.1)) λ _. Triple-modify _ (λ w q. q)

  IsQuiet-drain :
      (max_waves : ℕ)
      → Triple IsQuiet (drain adapter base_ms max_attempts true max_waves) AfterDryRun IsQuiet
  unfolding drain finish final_audit
  IsQuiet-drain max_waves = Triple-bind (Quiet-phase _) λ _.
      Triple-bind (Quiet-waves_or_error max_waves) λ outcome.
        Triple-bind
          (Triple-bind (Quiet-phase _) λ _. Triple-bind (Quiet-point _ _) λ _.
            Triple-bind (Quiet-call _ _ refl)
              λ dry. Triple-bind (Quiet-point _ _) λ _. Quiet-pure dry)
          λ dry.
            Triple-bind
              (Triple-reading {Q = AfterDryRun} _
                (λ w q. (dry_status outcome.1 w dry outcome.0, q)))
              λ status. Triple-bind (keep_status status) λ _. Triple-pure {Q = AfterDryRun} status

  Ends-IsQuiet :
      (r : Outcome Error FinalStatus × World)
      → Ends AfterDryRun IsQuiet r
      → IsQuiet r.1
        × ((status : FinalStatus)
            → r.0 ≡ ok status
            → (status ≡ dry_run_complete) ⊎ (status ≡ failed_drain))
  Ends-IsQuiet (ok status, w) h = (h.1, (λ s e. ground (arith, e, h.0)))
  Ends-IsQuiet (throw e, w) h = (h, (λ s e. cc))

  -- However a dry run ends, it has claimed, released and closed nothing, made no follow-up, started no
  -- lane, and integrated and validated nothing; if it returns, its status is `dry_run_complete` or
  -- `failed`.
  pub drain_dry_run :
      (max_waves : ℕ)
      → let (result, w) = drain adapter base_ms max_attempts true max_waves empty_world in
        IsQuiet w
        × ((status : FinalStatus)
            → result ≡ ok status
            → (status ≡ dry_run_complete) ⊎ (status ≡ failed_drain))
  drain_dry_run max_waves = Ends-IsQuiet _ ((IsQuiet-drain max_waves).holds empty_world refl)
