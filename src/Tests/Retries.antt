-- ===== src/Tests/Retries.antt =====
-- A lane whose first prompt meets a rate limit, and whose second reply is malformed.
use opencode_workflows.Prelude.{
  ℕ, zero, suc, ◌+◌, ◌≡◌, refl, true, false, Option, none, some, List, [], ◌∷◌, String, Outcome, ok,
  throw, codes, map, if◌then◌else◌,
}
use opencode_workflows.Authority.Pattern.{Text, text_eq}
use opencode_workflows.Tests.Budget.{whole, start, no_tokens}
use opencode_workflows.Retries.{
  LaneError, transient, terminal, other_code, workflow_timeout, classify_lane_error,
  compute_lane_backoff_ms,
}
use opencode_workflows.Retries.Loop.{
  verified, Reply, SessionHost, LaneWorld, LaneLimits, plain_error, max_attempts, ◌>>=◌, attempting,
}
use opencode_workflows.Retries.Lane.{run_lane}
use opencode_workflows.Retries.Effects.{prompts_of}
use opencode_workflows.Retries.Children.{IsTidy}
use opencode_workflows.Retries.Orphans.{run_lane-IsTidy}
use opencode_workflows.Retries.Ends.{IsFew, run_lane-Ends}

abbrev said : List String → LaneError
said texts = record (plain_error other_code) { parts = map codes texts }

rate_limited : classify_lane_error (said ("Rate-limit reached" ∷ [])) ≡ transient
unfolding classify_lane_error
rate_limited = refl

model_missing : classify_lane_error (said ("503" ∷ "model gpt-9 does not exist" ∷ [])) ≡ terminal
unfolding classify_lane_error
model_missing = refl

not_a_word : classify_lane_error (said ("request 14290" ∷ [])) ≡ terminal
unfolding classify_lane_error
not_a_word = refl

unavailable : classify_lane_error (said ("Temporarily unavailable" ∷ [])) ≡ transient
unfolding classify_lane_error
unavailable = refl

status_first :
    classify_lane_error
      (record (said ("unauthorized" ∷ [])) { statuses = none ∷ some 503 ∷ some 401 ∷ [] })
    ≡ transient
unfolding classify_lane_error
status_first = refl

deadline :
    classify_lane_error (record (plain_error workflow_timeout) { statuses = some 503 ∷ [] })
    ≡ terminal
unfolding classify_lane_error
deadline = refl

backoff : compute_lane_backoff_ms 250 30000 3 none 1 2 ≡ 750
unfolding compute_lane_backoff_ms
backoff = refl

abbrev reply : String → Reply whole
reply text = record { text = codes text; tokens = no_tokens; cost = 3 }

abbrev answer_of : ℕ → Outcome LaneError (Reply whole)
answer_of zero = ok (reply "good")
answer_of (suc zero) = throw (said ("429" ∷ []))
answer_of (suc (suc zero)) = ok (reply "bad")
answer_of (suc (suc (suc n))) = ok (reply "good")

abbrev flaky : SessionHost whole
flaky = record {
  check = λ calls. ok tt;
  create = λ calls. ok (record {
    id = some (prompts_of calls + 1);
    permission_mismatch = false;
    directory = verified;
  });
  note = λ calls. ok tt;
  prompt = λ calls. answer_of (prompts_of calls);
  journal = λ calls. ok tt;
  sleep = λ calls. ok tt;
}

abbrev result_of : Text → Outcome LaneError Text
result_of text = if text_eq text (codes "good") then ok text else throw (said ("no JSON" ∷ []))

abbrev limits : LaneLimits
limits = record { retry_count = none; corrective_retries = 1; directory_sensitive = true }

abbrev lane : LaneWorld whole
lane = record { run = start; children = []; child = none; calls = [] }

abbrev result : Option (Outcome LaneError Text × LaneWorld whole) → Option (Outcome LaneError Text)
result none = none
result (some (r, w)) = some r

abbrev prompted : Option (Outcome LaneError Text × LaneWorld whole) → ℕ
prompted none = 0
prompted (some (r, w)) = prompts_of w.calls

abbrev open_children : Option (Outcome LaneError Text × LaneWorld whole) → List ℕ
open_children none = []
open_children (some (r, w)) = w.children

succeeds : result (run_lane whole flaky result_of limits lane) ≡ some (ok (codes "good"))
unfolding run_lane ◌>>=◌ attempting text_eq
succeeds = refl

three_prompts : prompted (run_lane whole flaky result_of limits lane) ≡ 3
unfolding run_lane ◌>>=◌ attempting text_eq
three_prompts = refl

one_child : open_children (run_lane whole flaky result_of limits lane) ≡ 2 ∷ []
unfolding run_lane ◌>>=◌ attempting text_eq
one_child = refl

-- The second malformed reply is one too many.
one_too_many :
    result (run_lane whole flaky result_of (record limits { corrective_retries = 0 }) lane)
    ≡ some (throw (said ("no JSON" ∷ [])))
unfolding run_lane ◌>>=◌ attempting text_eq
one_too_many = refl

run_lane-Ends_example :
    (r : Outcome LaneError Text) × (w : LaneWorld whole) × (run_lane whole flaky result_of limits
        lane
      ≡ some (r, w))
    × IsFew whole (max_attempts limits + 1) lane w
run_lane-Ends_example = run_lane-Ends whole flaky result_of limits lane

abbrev world_after : Option (Outcome LaneError Text × LaneWorld whole) → LaneWorld whole
world_after none = lane
world_after (some (r, w)) = w

finished :
    run_lane whole flaky result_of limits lane
    ≡ some (ok (codes "good"), world_after (run_lane whole flaky result_of limits lane))
unfolding run_lane ◌>>=◌ attempting text_eq
finished = refl

run_lane-IsTidy_example : IsTidy [] (world_after (run_lane whole flaky result_of limits lane))
run_lane-IsTidy_example =
    run_lane-IsTidy whole flaky result_of limits lane (ok (codes "good"))
      (world_after (run_lane whole flaky result_of limits lane)) refl finished
