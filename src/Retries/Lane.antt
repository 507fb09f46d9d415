-- ===== src/Retries/Lane.antt =====
-- One attempt of a lane and the loop over the attempts: runChildAgent of
-- workflow-kernel/child-agent-runner.js. The late abort of a session that is created after its time limit
-- and the sticky mark of an unpriced spend are left out.
use opencode_workflows.Prelude.{
  ℕ, ◌+◌, zero, suc, Bool, true, false, not, ◌&&◌, Option, none, some, List, ◌∷◌, Outcome, ok,
  throw, ltb, leb, ◌==◌, keep, if◌then◌else◌,
}
use opencode_workflows.Authority.Pattern.{Text}
use opencode_workflows.Budget.{
  Num, add_tokens, check_budget_before_launch, reserve_lane_budget, release_lane_budget,
  BudgetStopped,
}
use opencode_workflows.Retries.{
  LaneError, LaneClass, transient, terminal, other_code, workflow_budget_stopped,
  workflow_authority_violation, classify_lane_error,
}
use opencode_workflows.Retries.Loop.{
  checks, creates, notes, journals, sleeps, prompts, aborts, DirectoryEcho, verified, mismatched,
  not_echoed, Reply, SessionHost, LaneWorld, LaneLimits, max_attempts, Attempt, first_attempt,
  plain_error, Next, again, left_with, LaneIo, returning, failing, asking, attempting, ◌>>=◌, ◌>>◌,
}

abbrev pub without : ℕ → List ℕ → List ℕ
without id ids = keep (λ x. not (x == id)) ids

abbrev pub is_unverified : DirectoryEcho → Bool
is_unverified verified = false
is_unverified mismatched = true
is_unverified not_echoed = true

abbrev pub is_mismatch : DirectoryEcho → Bool
is_mismatch mismatched = true
is_mismatch verified = false
is_mismatch not_echoed = false

abbrev pub has_child : Option ℕ → Bool
has_child none = false
has_child (some id) = true

module _ (num : Num) (host : SessionHost num) where
  abbrev pub noting : LaneIo num (Unit {0})
  noting = asking num notes host.note

  -- A mismatch is recorded, and the lane stops.
  unfoldable pub refuse_echo : LaneIo num (Unit {0})
  unfolding asking failing
  refuse_echo = do noting; noting; failing (plain_error workflow_authority_violation)

  abbrev pub refuse_if : Bool → LaneIo num (Unit {0})
  refuse_if true = refuse_echo
  refuse_if false = returning tt

  abbrev pub enter_child : ℕ → LaneIo num (Unit {0})
  enter_child id w = (ok tt, record w { children = id ∷ without id w.children; child = some id })

  abbrev pub with_id : Option ℕ → (ℕ → LaneIo num (Unit {0})) → LaneIo num (Unit {0})
  with_id none f = failing (plain_error other_code)
  with_id (some id) f = f id

  -- The child session of a fresh attempt.
  unfoldable pub open_child : LaneLimits → LaneIo num (Unit {0})
  unfolding asking failing refuse_echo returning
  open_child limits = do
    created ← asking num creates host.create
    with_id created.id λ id. do
      enter_child id
      asking num checks host.check
      refuse_if created.permission_mismatch
      refuse_if (is_mismatch created.directory)
      refuse_if (is_unverified created.directory && limits.directory_sensitive)
      noting
      noting
      noting

  -- The checkpoint before the prompt; where it fails, that is noted.
  unfoldable pub checkpoint : LaneIo num (Unit {0})
  unfolding asking attempting
  checkpoint = attempting noting λ e. noting

  abbrev pub spend : Reply num → LaneIo num (Unit {0})
  spend reply w = (
    ok tt,
    record w {
      run = record w.run {
        cost = num.plus w.run.cost reply.cost;
        tokens = add_tokens num w.run.tokens reply.tokens;
      };
    },
  )

  abbrev pub prompt_child : LaneIo num (Reply num)
  prompt_child w = asking num (prompts w.child) host.prompt w

  module _ {V : Type 0} (result_of : Text → Outcome LaneError V) (limits : LaneLimits) where
    -- What comes of the text: an error is marked for a corrective turn while one is left, and journaled
    -- where none is.
    abbrev pub judged : Attempt → Outcome LaneError V → LaneIo num V
    judged a (ok v) = returning v
    judged a (throw e) =
        if ltb a.corrective_attempts limits.corrective_retries
        then failing (record e { is_correctable = true })
        else asking num journals host.journal >> failing e

    unfoldable pub lane_attempt : Attempt → Bool → LaneIo num V
    unfolding open_child checkpoint asking failing returning
    lane_attempt a corrective = do
      if corrective then returning tt else open_child limits
      checkpoint
      reply ← prompt_child
      spend reply
      judged a (result_of reply.text)

    -- The child of an attempt that is given up: `abortChild` swallows its errors, so the session may stay
    -- open; the run forgets the child either way.
    abbrev pub retired : Option ℕ → LaneIo num (Unit {0})
    retired none w = (ok tt, w)
    retired (some id) w = (
      ok tt,
      record w { children = without id w.children; child = none; calls = aborts id ∷ w.calls },
    )

    abbrev pub retire_child : LaneIo num (Unit {0})
    retire_child w = retired w.child w

    abbrev pub retry_transient : Attempt → LaneError → LaneClass → LaneIo num (Next V)
    retry_transient a e terminal = failing e
    retry_transient a e transient =
        if leb (max_attempts limits) a.transient_attempt
        then failing (record e { is_exhausted = true })
        else do
          retire_child
          noting
          asking num sleeps host.sleep
          returning (
              again (record a {
                transient_attempt = a.transient_attempt + 1;
                prompt_attempt = a.prompt_attempt + 1;
                pending = false;
              }))

    abbrev pub after_error_with : Attempt → LaneError → Bool → LaneIo num (Next V)
    after_error_with a e child =
        if e.is_correctable && ltb a.corrective_attempts limits.corrective_retries && child
        then noting
          >> returning (
              again (record a {
                corrective_attempts = a.corrective_attempts + 1;
                prompt_attempt = a.prompt_attempt + 1;
                pending = true;
              }))
        else retry_transient a e (classify_lane_error e)

    -- The `catch` of an attempt.
    unfoldable pub after_error : Attempt → LaneError → LaneIo num (Next V)
    unfolding max_attempts asking failing returning classify_lane_error
    after_error a e w = after_error_with a e (has_child w.child) w

    -- The reservation of an attempt, which is released however it ends.
    unfoldable pub reserving : {A : Type 0} → LaneIo num A → LaneIo num A
    unfolding reserve_lane_budget release_lane_budget
    reserving m w =
        let (run, reservation) = reserve_lane_budget num w.run in
        let (r, w') = m (record w { run = run }) in
        (r, record w' { run = release_lane_budget num w'.run (some reservation) })

    abbrev pub gated : Outcome BudgetStopped (Unit {0}) → LaneIo num (Unit {0})
    gated (ok done) = returning tt
    gated (throw stopped) = failing (plain_error workflow_budget_stopped)

    abbrev pub gate : LaneIo num (Unit {0})
    gate w = gated (check_budget_before_launch num w.run) w

    abbrev pub is_corrective : Attempt → LaneWorld num → Bool
    is_corrective a w = a.pending && has_child w.child

    -- One round of the loop.
    unfoldable pub round : Attempt → LaneIo num (Next V)
    unfolding lane_attempt after_error reserving check_budget_before_launch asking failing returning
        attempting
    round a w =
        let corrective = is_corrective a w in
        (do
          gate
          asking num checks host.check
          reserving (
              attempting (lane_attempt a corrective >>= λ v. returning (left_with v))
                (after_error a)))
          w

    abbrev pub resumed :
        (Attempt → LaneWorld num → Option (Outcome LaneError V × LaneWorld num))
        → Outcome LaneError (Next V)
        → LaneWorld num
        → Option (Outcome LaneError V × LaneWorld num)
    resumed go (throw e) w = some (throw e, w)
    resumed go (ok (left_with v)) w = some (ok v, w)
    resumed go (ok (again a)) w = go a w

    -- The loop, with a bound on its rounds.
    unfoldable pub lane_attempts :
        ℕ → Attempt → LaneWorld num → Option (Outcome LaneError V × LaneWorld num)
    unfolding round
    lane_attempts zero a w = none
    lane_attempts (suc fuel) a w = let (r, w') = round a w in resumed (lane_attempts fuel) r w'

    -- As many rounds as there are first attempts and retries of both kinds.
    unfoldable pub run_lane : LaneWorld num → Option (Outcome LaneError V × LaneWorld num)
    unfolding max_attempts lane_attempts
    run_lane = lane_attempts (max_attempts limits + limits.corrective_retries) first_attempt
