-- ===== src/Drain/Loop.antt =====
-- The waves of a drain and its end: runWave and drain of workflow-kernel/drain-runtime.js.
use opencode_workflows.Prelude.{
  ℕ, zero, suc, String, Bool, true, false, ◌||◌, not, Option, none, some, List, [], ◌∷◌, Outcome,
  ok, throw, any, str_eq, length, if◌then◌else◌, ◌==◌,
}
use opencode_workflows.Drain.{
  Error, failure, before, after, Call, Adapter, Report, World, Drain, ◌>>=◌, ◌>>◌, catching, pure,
  lift, call, modify, reading,
}
use opencode_workflows.Drain.Reports.{item_id, normalize_classification, Status, ready}
use opencode_workflows.Drain.Attempt.{lifecycle_point, enter_phase}
use opencode_workflows.Drain.Item.{process_ready_item, is_abort}

pub data Signal : Type 0 where
  drained stop continues : Signal

pub data FinalStatus : Type 0 where
  failed_drain dry_run_complete budget_exhausted_drain complete max_waves_exceeded not_dry :
      FinalStatus

abbrev new_wave : ℕ → ℕ → World → World
new_wave number discovered w = record w {
  wave = record {
    number = number;
    discovered = discovered;
    ready = [];
    skipped = [];
    attempts = [];
  };
}

abbrev pub note_ready : String → World → World
note_ready id w = record w { wave = record w.wave { ready = id ∷ w.wave.ready } }

-- `skippedIds` has the ids that stand in `report.skipped`.
abbrev pub note_skipped : String → World → World
note_skipped id w = record w {
  wave = record w.wave { skipped = id ∷ w.wave.skipped };
  report = record w.report {
    skipped = if any (str_eq id) w.report.skipped then w.report.skipped else id ∷ w.report.skipped;
  };
}

abbrev pub note_wave : World → World
note_wave w = record w { report = record w.report { waves = w.wave ∷ w.report.waves } }

abbrev pub note_planned : String → World → World
note_planned id w = record w { report = record w.report { planned = id ∷ w.report.planned } }

abbrev pub note_error : Error → World → World
note_error e w = record w { report = record w.report { error = some e.message } }

abbrev pub is_ready : Status → Bool
is_ready ready = true
is_ready _ = false

abbrev pub is_nil {ℓ} : {A : Type ℓ} → List A → Bool
is_nil [] = true
is_nil (x ∷ xs) = false

abbrev as_array {ℓ} : {A : Type ℓ} → Option A → String → Outcome Error A
as_array none message = throw (failure message)
as_array (some a) message = ok a

-- The table at the end of `drain`.
unfoldable pub final_status : Option Error → Bool → Report → Bool → Bool → FinalStatus
final_status error dry_run report dry exhausted_waves = elim error [
  | some e ↦ failed_drain
  | none ↦
      if dry_run
      then dry_run_complete
      else if report.budget_exhausted
      then budget_exhausted_drain
      else if not (is_nil report.failed)
      then failed_drain
      else if dry
      then complete
      else if exhausted_waves
      then max_waves_exceeded
      else not_dry
]

abbrev pub wave_signal : World → Signal
wave_signal w =
    if w.report.budget_exhausted || not (is_nil w.report.failed) then stop else continues

module _ (adapter : Adapter) (base_ms max_attempts : ℕ) where
  unfoldable pub plan_items : List String → Drain (Unit {0})
  plan_items [] = pure tt
  plan_items (id ∷ ids) = do modify (note_planned id); plan_items ids

  unfoldable pub process_items : List String → Drain (Unit {0})
  process_items [] = pure tt
  process_items (id ∷ ids) = do
    lifecycle_point adapter base_ms max_attempts "process" before
    break_items ← process_ready_item adapter base_ms max_attempts id
    lifecycle_point adapter base_ms max_attempts "process" after
    elim break_items [ true ↦ pure tt | false ↦ process_items ids ]

  -- The ids of the ready items.
  unfoldable pub classify_items : List (Option String) → Drain (List String)
  classify_items [] = pure []
  classify_items (item ∷ items) = do
    id ← lift (item_id item)
    lifecycle_point adapter base_ms max_attempts "classify" before
    value ← call (Call.classify id) adapter.classify
    status ← lift (normalize_classification value)
    lifecycle_point adapter base_ms max_attempts "classify" after
    modify (if is_ready status then note_ready id else note_skipped id)
    rest ← classify_items items
    pure (if is_ready status then id ∷ rest else rest)

  unfoldable pub discover_ready : ℕ → Drain (List String)
  discover_ready number = do
    enter_phase adapter base_ms max_attempts (if number == 1 then "snapshot" else "resnapshot")
    lifecycle_point adapter base_ms max_attempts "discover" before
    value ← call (Call.discover number) adapter.discover
    lifecycle_point adapter base_ms max_attempts "discover" after
    items ← lift (as_array value "adapter.discover result must be an array")
    enter_phase adapter base_ms max_attempts "classify"
    modify (new_wave number (length items))
    classify_items items

  unfoldable pub start_plan : Drain (Unit {0})
  start_plan = do
    enter_phase adapter base_ms max_attempts "plan_wave"
    lifecycle_point adapter base_ms max_attempts "plan_wave" before

  unfoldable pub plan_wave : List String → Drain Signal
  plan_wave ids = do
    plan_items ids
    modify note_wave
    lifecycle_point adapter base_ms max_attempts "plan_wave" after
    pure drained

  unfoldable pub work_wave : List String → Drain Signal
  work_wave ids = do process_items ids; modify note_wave; reading wave_signal

  unfoldable pub end_wave : Drain Signal
  end_wave = do modify note_wave; pure drained

  unfoldable pub handle_wave : Bool → List String → Drain Signal
  handle_wave dry_run ids =
      if is_nil ids
      then end_wave
      else (do start_plan; (if dry_run then plan_wave ids else work_wave ids))

  -- `runWave`.
  unfoldable pub run_wave : Bool → ℕ → Drain Signal
  run_wave dry_run number = do ids ← discover_ready number; handle_wave dry_run ids

  -- The loop over waves, of which so many are left; the answer is `exhaustedWaves`.
  unfoldable pub run_waves : Bool → ℕ → ℕ → Drain Bool
  run_waves dry_run zero number = pure true
  run_waves dry_run (suc left) number = do
    signal ← run_wave dry_run number
    elim signal [
      | drained ↦ pure false
      | stop ↦ pure true
      | continues ↦ run_waves dry_run left (suc number)
    ]

  -- The `catch` around the loop: an abort goes on, and another error is kept for the end.
  unfoldable pub keep_error : Error → Drain (Bool × Option Error)
  keep_error e =
      if is_abort e.kind then lift (throw e) else (do modify (note_error e); pure (true, some e))

  unfoldable pub waves_or_error : Bool → ℕ → Drain (Bool × Option Error)
  waves_or_error dry_run max_waves =
      catching (run_waves dry_run max_waves 1 >>= λ exhausted. pure (exhausted, none)) keep_error

  unfoldable pub final_audit : Drain Bool
  final_audit = do
    enter_phase adapter base_ms max_attempts "final_audit"
    lifecycle_point adapter base_ms max_attempts "proveDry" before
    dry ← call Call.prove_dry adapter.dry
    lifecycle_point adapter base_ms max_attempts "proveDry" after
    pure dry

  unfoldable pub finish : Bool → Bool × Option Error → Bool → Drain FinalStatus
  finish dry_run (exhausted, error) dry = do
    status ← reading (λ w. final_status error dry_run w.report dry exhausted)
    enter_phase adapter base_ms max_attempts "complete"
    pure status

  -- `drain`, with the bounds that its options set.
  unfoldable pub drain : Bool → ℕ → Drain FinalStatus
  drain dry_run max_waves = do
    enter_phase adapter base_ms max_attempts "preflight"
    outcome ← waves_or_error dry_run max_waves
    dry ← final_audit
    finish dry_run outcome dry

-- The report that `drain` starts with.
abbrev pub empty_world : World
empty_world = record {
  calls = [];
  report = record {
    phases = [];
    waves = [];
    planned = [];
    closed = [];
    failed = [];
    released = [];
    salvaged = [];
    skipped = [];
    followups = [];
    budget_exhausted = false;
    error = none;
  };
  wave = record { number = 0; discovered = 0; ready = []; skipped = []; attempts = [] };
  release_attempted = false;
}

-- `Number.isInteger(n) && n > 0 ? n : fallback`.
abbrev pub positive_or : ℕ → Option ℕ → ℕ
positive_or fallback none = fallback
positive_or fallback (some zero) = fallback
positive_or fallback (some (suc n)) = suc n
