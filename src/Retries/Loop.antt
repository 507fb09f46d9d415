-- ===== src/Retries/Loop.antt =====
-- The attempts of a lane: the retry loop of runChildAgent in workflow-kernel/child-agent-runner.js, with
-- its budget gate, its reservation, the child session of an attempt and the two kinds of retry.
-- The child session's host, the run store and the time limits are a parameter: an answer may depend on
-- all the calls before it. `check_result` is what parseStructuredTextResult and validateStructuredResult
-- make of the text of a reply.
use opencode_workflows.Prelude.{
  ℕ, ◌+◌, Bool, false, Option, none, some, List, [], ◌∷◌, Outcome, ok, throw,
}
use opencode_workflows.Authority.Pattern.{Text}
use opencode_workflows.Budget.{Num, Tokens, Run}
use opencode_workflows.Retries.{LaneError, ErrorCode}

-- The calls of an attempt: the checks for an abort, the child session, the records of the run store, the
-- failure that is journaled, the wait before a retry.
pub data LaneCall : Type 0 where
  checks creates notes journals sleeps : LaneCall
  -- A prompt of the child of the lane, `none` where it has none, and the abort of a child.
  prompts : Option ℕ → LaneCall
  aborts : ℕ → LaneCall

-- What the echo of the session's directory says.
pub data DirectoryEcho : Type 0 where
  verified mismatched not_echoed : DirectoryEcho

-- What a session that was created says.
pub record Created : Type 0 where
  pub id : Option ℕ
  pub permission_mismatch : Bool
  pub directory : DirectoryEcho

module _ (num : Num) where
  -- The reply to a prompt: its text, and the spend that it reports.
  pub record Reply : Type 0 where
    pub text : Text
    pub tokens : Tokens num
    pub cost : num.N

  abbrev pub LaneAnswer : Type 0 → Type 0
  LaneAnswer A = List LaneCall → Outcome LaneError A

  pub record SessionHost : Type 0 where
    pub check : LaneAnswer (Unit {0})
    pub create : LaneAnswer Created
    pub note : LaneAnswer (Unit {0})
    pub prompt : LaneAnswer Reply
    pub journal : LaneAnswer (Unit {0})
    pub sleep : LaneAnswer (Unit {0})

  -- The run, `run.children`, the lane's own child, and the calls so far, the latest first.
  pub record LaneWorld : Type 0 where
    pub run : Run num
    pub children : List ℕ
    pub child : Option ℕ
    pub calls : List LaneCall

-- The options of the lane that the loop reads.
pub record LaneLimits : Type 0 where
  pub retry_count : Option ℕ
  pub corrective_retries : ℕ
  pub directory_sensitive : Bool

-- `DEFAULT_RETRY_COUNT`.
abbrev pub default_retry_count : ℕ
default_retry_count = 1

abbrev pub retries_of : Option ℕ → ℕ
retries_of none = default_retry_count
retries_of (some n) = n

unfoldable pub max_attempts : LaneLimits → ℕ
max_attempts limits = 1 + retries_of limits.retry_count

-- The counters of the loop. `pending` says that a corrective message waits; `attempt` numbers the prompts.
pub record Attempt : Type 0 where
  pub transient_attempt : ℕ
  pub prompt_attempt : ℕ
  pub corrective_attempts : ℕ
  pub pending : Bool

abbrev pub first_attempt : Attempt
first_attempt = record {
  transient_attempt = 1;
  prompt_attempt = 1;
  corrective_attempts = 0;
  pending = false;
}

abbrev pub plain_error : ErrorCode → LaneError
plain_error code = record {
  code = code;
  statuses = [];
  parts = [];
  is_correctable = false;
  is_exhausted = false;
}

-- The loop goes on with these counters, or is left with a result.
pub data Next (V : Type 0) : Type 0 where
  again : Attempt → Next V
  left_with : V → Next V

-- Code on a state that may throw; the state stays changed where it throws.
abbrev pub Stateful : Type 0 → Type 0 → Type 0
Stateful S A = S → Outcome LaneError A × S

module _ {S : Type 0} where
  module _ {A : Type 0} where
    unfoldable pub returning : A → Stateful S A
    returning a w = (ok a, w)

    unfoldable pub failing : LaneError → Stateful S A
    failing e w = (throw e, w)

    abbrev pub attended : Outcome LaneError A → (LaneError → Stateful S A) → Stateful S A
    attended (ok a) f w = (ok a, w)
    attended (throw e) f w = f e w

    -- `try` with a `catch`.
    unfoldable pub attempting : Stateful S A → (LaneError → Stateful S A) → Stateful S A
    attempting m f w = let (r, w') = m w in attended r f w'

  module _ {A B : Type 0} where
    abbrev pub followed : Outcome LaneError A → (A → Stateful S B) → Stateful S B
    followed (ok a) f w = f a w
    followed (throw e) f w = (throw e, w)

    infixl 10 ◌>>=◌
    unfoldable pub ◌>>=◌ : Stateful S A → (A → Stateful S B) → Stateful S B
    ◌>>=◌ m f w = let (r, w') = m w in followed r f w'

    infixl 10 ◌>>◌
    abbrev pub ◌>>◌ : Stateful S A → Stateful S B → Stateful S B
    m >> n = m >>= λ _. n

module _ (num : Num) where
  abbrev pub LaneIo : Type 0 → Type 0
  LaneIo A = Stateful (LaneWorld num) A

  unfoldable pub asking : {A : Type 0} → LaneCall → LaneAnswer num A → LaneIo A
  asking c answer w = let calls = c ∷ w.calls in (answer calls, record w { calls = calls })
