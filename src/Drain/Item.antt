-- ===== src/Drain/Item.antt =====
-- A claimed item, from its claim to its end: processReadyItem of workflow-kernel/drain-runtime.js.
use Prim.Native.String
use opencode_workflows.Prelude.{
  ℕ, zero, suc, String, Bool, true, false, ◌&&◌, not, ◌∷◌, throw, any, str_eq, if◌then◌else◌,
}
use opencode_workflows.Drain.{
  Error, Kind, lifecycle_abort, before, after, Call, Adapter, World, Drain, ◌>>=◌, ◌>>◌, catching,
  pure, lift, call, modify, reading,
}
use opencode_workflows.Drain.Attempt.{
  retry, done, lifecycle_point, enter_phase, launch_allowed, note_exhausted, when,
  release_claimed_item, give_up, run_lane_attempt,
}

abbrev pub is_abort : Kind → Bool
is_abort lifecycle_abort = true
is_abort _ = false

-- `report.failed.some((failure) => failure.itemId === id)`.
abbrev pub has_failed : String → World → Bool
has_failed id w = any (λ f. str_eq f.0 id) w.report.failed

abbrev pub reset_release : World → World
reset_release w = record w { release_attempted = false }

-- `report.failed.push`, without a word on the release.
abbrev pub note_exception : String → String → World → World
note_exception id reason w =
    if has_failed id w
    then w
    else record w { report = record w.report { failed = (id, reason) ∷ w.report.failed } }

module _ (adapter : Adapter) (base_ms max_attempts : ℕ) where
  -- The loop over attempts, of which so many are left; whether the item was closed.
  unfoldable pub attempts_loop : ℕ → ℕ → String → Drain Bool
  attempts_loop zero attempt id = pure false
  attempts_loop (suc left) attempt id = do
    control ← run_lane_attempt adapter base_ms max_attempts id attempt
    elim control [ retry ↦ attempts_loop left (suc attempt) id | done closed ↦ pure closed ]

  unfoldable pub give_up_unclosed : String → Bool → Drain (Unit {0})
  give_up_unclosed id closed = do
    known ← reading (has_failed id)
    when (not closed && not known)
        (do give_up adapter base_ms max_attempts id "attempts exhausted without close"; pure tt)

  unfoldable pub release_unless : String → String → Bool → Drain (Unit {0})
  release_unless id reason attempted =
      if attempted then pure tt else release_claimed_item adapter base_ms max_attempts id reason

  -- The `catch` block.
  unfoldable pub on_exception : String → Error → Drain (Unit {0})
  on_exception id e = if is_abort e.kind then lift (throw e) else (do
    let reason = String.◌++◌ "drain exception: " e.message
    modify (note_exception id reason)
    attempted ← reading (λ w. w.release_attempted)
    release_unless id reason attempted
    lift (throw e))

  unfoldable pub work_on : String → Drain (Unit {0})
  work_on id = attempts_loop max_attempts 1 id >>= give_up_unclosed id

  unfoldable pub claim_and_work : String → Drain Bool
  claim_and_work id = do
    enter_phase adapter base_ms max_attempts "claim"
    lifecycle_point adapter base_ms max_attempts "claim" before
    call (Call.claim id) adapter.claim
    lifecycle_point adapter base_ms max_attempts "claim" after
    modify reset_release
    catching (work_on id) (on_exception id)
    reading (λ w. w.report.budget_exhausted)

  unfoldable pub refuse_claim : Drain Bool
  refuse_claim = do modify note_exhausted; pure true

  -- `processReadyItem`: whether the wave stops.
  unfoldable pub process_ready_item : String → Drain Bool
  process_ready_item id = do
    lifecycle_point adapter base_ms max_attempts "preclaim" before
    allowed ← launch_allowed adapter base_ms max_attempts "preclaim" id
    (if allowed then claim_and_work id else refuse_claim)
