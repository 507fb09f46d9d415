-- ===== src/Retries/Effects.antt =====
-- What an attempt of a lane does to the prompts and to the reservations of the run, whether it returns or
-- throws: runChildAgent of workflow-kernel/child-agent-runner.js.
use opencode_workflows.Prelude.{
  ℕ, ◌+◌, ◌≤◌, ◌≡◌, refl, ◌∙◌, Bool, true, false, Option, none, some, List, [], ◌∷◌, Outcome, ok,
  throw, ltb, arith, if◌then◌else◌,
}
use opencode_workflows.Authority.Pattern.{Text}
use opencode_workflows.Budget.{Num}
use opencode_workflows.Retries.{LaneError}
use opencode_workflows.Retries.Loop.{
  LaneCall, checks, creates, notes, journals, sleeps, prompts, aborts, Reply, SessionHost,
  LaneWorld, LaneLimits, LaneAnswer, Attempt, LaneIo, returning, failing, asking, attempting,
  attended, followed, ◌>>=◌, ◌>>◌,
}
use opencode_workflows.Retries.Lane.{
  noting, refuse_echo, refuse_if, enter_child, with_id, open_child, checkpoint, spend, prompt_child,
  judged, lane_attempt, retired, retire_child,
}

-- The number of prompts among the calls.
abbrev pub prompts_of : List LaneCall → ℕ
prompts_of [] = 0
prompts_of (prompts child ∷ calls) = 1 + prompts_of calls
prompts_of (checks ∷ calls) = prompts_of calls
prompts_of (creates ∷ calls) = prompts_of calls
prompts_of (notes ∷ calls) = prompts_of calls
prompts_of (journals ∷ calls) = prompts_of calls
prompts_of (sleeps ∷ calls) = prompts_of calls
prompts_of (aborts id ∷ calls) = prompts_of calls

-- At most n prompts, and the same reservations.
pub record Within {num : Num} (n : ℕ) (w w' : LaneWorld num) : Type 0 where
  pub few : prompts_of w'.calls ≤ prompts_of w.calls + n
  pub cost : w'.run.reserved_cost ≡ w.run.reserved_cost
  pub tokens : w'.run.reserved_tokens ≡ w.run.reserved_tokens
  pub lanes : w'.run.reserved_lanes ≡ w.run.reserved_lanes

pub record Takes {num : Num} {A : Type 0} (n : ℕ) (m : LaneIo num A) : Type 0 where
  pub takes : (w : LaneWorld num) → Within n w (m w).1

module _ {num : Num} where
  Within-trans :
      (n k : ℕ) (w w' w'' : LaneWorld num) → Within n w w' → Within k w' w'' → Within (n + k) w w''
  Within-trans n k w w' w'' h g =
      let few = h.few in
      let more = g.few in
      record {
        few = omega arith;
        cost = g.cost ∙ h.cost;
        tokens = g.tokens ∙ h.tokens;
        lanes = g.lanes ∙ h.lanes;
      }

  Within-more : (n k : ℕ) (w w' : LaneWorld num) → Within n w w' → Within (n + k) w w'
  Within-more n k w w' h =
      let few = h.few in
      record { few = omega arith; cost = h.cost; tokens = h.tokens; lanes = h.lanes }

  pub Within-same : (w : LaneWorld num) → Within 0 w w
  Within-same w = record { few = omega arith; cost = refl; tokens = refl; lanes = refl }

  module _ {A : Type 0} where
    pub Takes-returning : (a : A) → Takes {num = num} 0 (returning a)
    unfolding returning
    Takes-returning a = record { takes = Within-same }

    pub Takes-failing : (e : LaneError) → Takes {num = num} {A = A} 0 (failing e)
    unfolding failing
    Takes-failing e = record { takes = Within-same }

    pub Takes-asking :
        (c : LaneCall) (answer : LaneAnswer num A)
        → ((calls : List LaneCall) → prompts_of (c ∷ calls) ≡ prompts_of calls)
        → Takes 0 (asking num c answer)
    unfolding asking
    Takes-asking c answer h = record {
      takes = λ w.
          let same = h w.calls in
          record { few = omega arith; cost = refl; tokens = refl; lanes = refl };
    }

    pub Takes-attempting :
        (n k : ℕ) {m : LaneIo num A} {f : LaneError → LaneIo num A}
        → Takes n m
        → ((e : LaneError) → Takes k (f e))
        → Takes (n + k) (attempting m f)
    unfolding attempting
    Takes-attempting n k {m} {f} h g = record { takes = λ w. settle w (m w) (h.takes w) }
      where
        settle :
            (w : LaneWorld num) (r : Outcome LaneError A × LaneWorld num)
            → Within n w r.1
            → Within (n + k) w (attended r.0 f r.1).1
        settle w (ok a, w') s = Within-more n k w w' s
        settle w (throw e, w') s = Within-trans n k w w' _ s ((g e).takes w')

  pub Takes-bind :
      (n k : ℕ) {A B : Type 0} {m : LaneIo num A} {f : A → LaneIo num B}
      → Takes n m
      → ((a : A) → Takes k (f a))
      → Takes (n + k) (m >>= f)
  unfolding ◌>>=◌
  Takes-bind n k {A} {B} {m} {f} h g = record { takes = λ w. settle w (m w) (h.takes w) }
    where
      settle :
          (w : LaneWorld num) (r : Outcome LaneError A × LaneWorld num)
          → Within n w r.1
          → Within (n + k) w (followed r.0 f r.1).1
      settle w (ok a, w') s = Within-trans n k w w' _ s ((g a).takes w')
      settle w (throw e, w') s = Within-more n k w w' s

module _ (num : Num) (host : SessionHost num) where
  pub noting-Takes : Takes 0 (noting num host)
  noting-Takes = Takes-asking notes host.note λ calls. refl

  refuse_if-Takes : (b : Bool) → Takes 0 (refuse_if num host b)
  unfolding refuse_echo
  refuse_if-Takes true =
      Takes-bind 0 0 noting-Takes λ a. Takes-bind 0 0 noting-Takes λ b. Takes-failing _
  refuse_if-Takes false = Takes-returning tt

  enter_child-Takes : (id : ℕ) → Takes 0 (enter_child num host id)
  enter_child-Takes id = record {
    takes = λ w. record { few = omega arith; cost = refl; tokens = refl; lanes = refl };
  }

  with_id-Takes :
      (id : Option ℕ) (f : ℕ → LaneIo num (Unit {0}))
      → ((n : ℕ) → Takes 0 (f n))
      → Takes 0 (with_id num host id f)
  with_id-Takes none f h = Takes-failing _
  with_id-Takes (some id) f h = h id

  open_child-Takes : (limits : LaneLimits) → Takes 0 (open_child num host limits)
  unfolding open_child
  open_child-Takes limits =
      Takes-bind 0 0 (Takes-asking creates host.create λ calls. refl) λ created.
        with_id-Takes created.id _ λ id. Takes-bind 0 0 (enter_child-Takes id) λ a.
          Takes-bind 0 0 (Takes-asking checks host.check λ calls. refl) λ a.
            Takes-bind 0 0 (refuse_if-Takes _) λ a. Takes-bind 0 0 (refuse_if-Takes _) λ a.
              Takes-bind 0 0 (refuse_if-Takes _)
                λ a. Takes-bind 0 0 noting-Takes λ a. Takes-bind 0 0 noting-Takes λ a. noting-Takes

  checkpoint-Takes : Takes 0 (checkpoint num host)
  unfolding checkpoint
  checkpoint-Takes = Takes-attempting 0 0 noting-Takes λ e. noting-Takes

  prompt_child-Takes : Takes 1 (prompt_child num host)
  unfolding asking
  prompt_child-Takes = record {
    takes = λ w. record { few = omega arith; cost = refl; tokens = refl; lanes = refl };
  }

  spend-Takes : (reply : Reply num) → Takes 0 (spend num host reply)
  spend-Takes reply = record {
    takes = λ w. record { few = omega arith; cost = refl; tokens = refl; lanes = refl };
  }

  module _ {V : Type 0} (result_of : Text → Outcome LaneError V) (limits : LaneLimits) where
    judged-Takes :
        (a : Attempt) (r : Outcome LaneError V) → Takes 0 (judged num host result_of limits a r)
    judged-Takes a (ok v) = Takes-returning v
    judged-Takes a (throw e) = if_Takes (ltb a.corrective_attempts limits.corrective_retries)
      where
        if_Takes :
            (b : Bool)
            → Takes 0 (
                if b
                then failing (record e { is_correctable = true })
                else asking num journals host.journal >> failing {A = V} e)
        if_Takes true = Takes-failing _
        if_Takes false =
            Takes-bind 0 0 (Takes-asking journals host.journal λ calls. refl) λ a. Takes-failing e

    -- An attempt prompts once at most.
    pub lane_attempt-Takes :
        (a : Attempt) (corrective : Bool)
        → Takes 1 (lane_attempt num host result_of limits a corrective)
    unfolding lane_attempt
    lane_attempt-Takes a corrective = Takes-bind 0 1 (opened corrective) λ x.
        Takes-bind 0 1 checkpoint-Takes λ y.
          Takes-bind 1 0 prompt_child-Takes
            λ reply. Takes-bind 0 0 (spend-Takes reply) λ z. judged-Takes a (result_of reply.text)
      where
        opened : (b : Bool) → Takes 0 (if b then returning tt else open_child num host limits)
        opened true = Takes-returning tt
        opened false = open_child-Takes limits

    pub retire_child-Takes : Takes 0 (retire_child num host result_of limits)
    retire_child-Takes = record { takes = λ w. settle w.child w }
      where
        settle :
            (child : Option ℕ) (w : LaneWorld num)
            → Within 0 w (retired num host result_of limits child w).1
        settle none w = Within-same w
        settle (some id) w = record { few = omega arith; cost = refl; tokens = refl; lanes = refl }
