-- ===== src/Retries.antt =====
-- The errors of a lane: workflow-kernel/errors.js. A code unit of a text is a number, and of the flag
-- `i` the case of the ASCII letters is read.
pub mod Loop
pub mod Lane
pub mod Effects
pub mod Bounded
pub mod Ends
pub mod Meets
pub mod Children
pub mod Orphans
use opencode_workflows.Prelude.{
  ℕ, ◌+◌, ◌-◌, ◌*◌, ◌/◌, ◌^◌, min, Bool, true, false, not, ◌&&◌, ◌||◌, Option, none, some, List, [],
  ◌∷◌, ◌++◌, String, codes, map, any, leb, ◌==◌, if◌then◌else◌,
}
use opencode_workflows.Authority.Pattern.{Text, is_line_end}
use opencode_workflows.Paths.Glob.{fold_case}

-- `error.code`, as far as the code tells it apart.
pub data ErrorCode : Type 0 where
  workflow_cancelled workflow_timeout workflow_budget_stopped workflow_authority_violation :
      ErrorCode
  other_code : ErrorCode

-- An error: what `Number` makes of the four fields that may hold a status, in order, `none` where it is no
-- whole number, and the texts of its message, its error and its cause, as far as they are there.
-- `is_correctable` is the tag that `laneRetryKind` puts on it, `is_exhausted` that of `laneFailureClass`.
pub record LaneError : Type 0 where
  pub code : ErrorCode
  pub statuses : List (Option ℕ)
  pub parts : List Text
  pub is_correctable : Bool
  pub is_exhausted : Bool

abbrev pub is_non_retryable : ErrorCode → Bool
is_non_retryable other_code = false
is_non_retryable workflow_cancelled = true
is_non_retryable workflow_timeout = true
is_non_retryable workflow_budget_stopped = true
is_non_retryable workflow_authority_violation = true

abbrev pub transient_http_statuses : List ℕ
transient_http_statuses = 408 ∷ 425 ∷ 429 ∷ 500 ∷ 502 ∷ 503 ∷ 504 ∷ 529 ∷ []

abbrev pub terminal_http_statuses : List ℕ
terminal_http_statuses = 400 ∷ 401 ∷ 403 ∷ 404 ∷ 405 ∷ 422 ∷ []

-- The parts of the patterns: `\b`, a text or one of some, `.?`, `[^.]*`, and a digit up to a bound.
pub data Piece : Type 0 where
  edge any_optional not_dots : Piece
  one_of : List Text → Piece
  digit_to : ℕ → Piece

abbrev says : String → Piece
says s = one_of (codes s ∷ [])

abbrev maybe : List String → Piece
maybe options = one_of ([] ∷ map codes options)

abbrev either_of : List String → Piece
either_of options = one_of (map codes options)

abbrev pub terminal_error_patterns : List (List Piece)
terminal_error_patterns =
    (edge ∷ says "40" ∷ digit_to b'5' ∷ edge ∷ [])
    ∷ (edge ∷ says "422" ∷ edge ∷ [])
    ∷ (says "unauthorized" ∷ [])
    ∷ (says "forbidden" ∷ [])
    ∷ (says "authentication" ∷ [])
    ∷ (says "invalid api" ∷ maybe ("_" ∷ " " ∷ "-" ∷ []) ∷ says "key" ∷ [])
    ∷ (either_of ("unknown" ∷ "invalid" ∷ "unsupported" ∷ "unrecognized" ∷ "bad" ∷ [])
        ∷ says " model"
        ∷ [])
    ∷ (says "model"
        ∷ not_dots
        ∷ either_of ("not found" ∷ "does not exist" ∷ "is not valid" ∷ "is invalid" ∷ [])
        ∷ [])
    ∷ (says "no such model" ∷ [])
    ∷ (says "provider"
        ∷ not_dots
        ∷ says "not "
        ∷ either_of ("found" ∷ "configured" ∷ "supported" ∷ [])
        ∷ [])
    ∷ []

abbrev pub transient_error_patterns : List (List Piece)
transient_error_patterns =
    (edge ∷ says "429" ∷ edge ∷ [])
    ∷ (edge ∷ says "503" ∷ edge ∷ [])
    ∷ (edge ∷ says "529" ∷ edge ∷ [])
    ∷ (says "rate" ∷ any_optional ∷ says "limit" ∷ [])
    ∷ (says "overloaded" ∷ [])
    ∷ (says "too many requests" ∷ [])
    ∷ (says "temporar" ∷ maybe ("il" ∷ []) ∷ says "y unavailable" ∷ [])
    ∷ (says "service unavailable" ∷ [])
    ∷ (says "econnreset" ∷ [])
    ∷ (says "econnrefused" ∷ [])
    ∷ (says "etimedout" ∷ [])
    ∷ (edge ∷ says "epipe" ∷ edge ∷ [])
    ∷ (says "eai_again" ∷ [])
    ∷ (says "socket hang" ∷ maybe (" " ∷ []) ∷ says "up" ∷ [])
    ∷ (says "connection " ∷ either_of ("reset" ∷ "closed" ∷ "refused" ∷ "aborted" ∷ []) ∷ [])
    ∷ (says "network " ∷ either_of ("error" ∷ "timeout" ∷ []) ∷ [])
    ∷ []

abbrev in_range : ℕ → ℕ → ℕ → Bool
in_range low high c = leb low c && leb c high

-- `\w`.
abbrev pub is_word : ℕ → Bool
is_word c = in_range b'a' b'z' c || in_range b'A' b'Z' c || in_range b'0' b'9' c || c == b'_'

abbrev pub starts_word : Text → Bool
starts_word [] = false
starts_word (c ∷ t) = is_word c

abbrev pub ends_word : Option ℕ → Bool
ends_word none = false
ends_word (some c) = is_word c

abbrev differ : Bool → Bool → Bool
differ true b = not b
differ false b = b

-- What follows a text in a text, case folded, before what the test `k` says of the last code unit and
-- of the rest.
unfoldable pub after_text : (Option ℕ → Text → Bool) → Text → Option ℕ → Text → Bool
unfolding fold_case
after_text k [] last t = k last t
after_text k (x ∷ xs) last [] = false
after_text k (x ∷ xs) last (c ∷ t) =
    let rest = after_text k xs (some c) t in fold_case c == fold_case x && rest

unfoldable pub after_not_dots : (Option ℕ → Text → Bool) → Option ℕ → Text → Bool
after_not_dots k last [] = k last []
after_not_dots k last (c ∷ t) = k last (c ∷ t) || (not (c == b'.') && after_not_dots k (some c) t)

abbrev pub after_any : (ℕ → Bool) → (Option ℕ → Text → Bool) → Text → Bool
after_any p k [] = false
after_any p k (c ∷ t) = p c && k (some c) t

-- The pattern matches a front of the text, which `last` stands before.
unfoldable pub matches_here : List Piece → Option ℕ → Text → Bool
unfolding after_text after_not_dots is_line_end
matches_here [] last t = true
matches_here (edge ∷ p) last t = differ (ends_word last) (starts_word t) && matches_here p last t
matches_here (any_optional ∷ p) last t =
    matches_here p last t || after_any (λ c. not (is_line_end c)) (matches_here p) t
matches_here (not_dots ∷ p) last t = after_not_dots (matches_here p) last t
matches_here (one_of texts ∷ p) last t = any (λ x. after_text (matches_here p) x last t) texts
matches_here (digit_to high ∷ p) last t = after_any (in_range b'0' high) (matches_here p) t

-- `pattern.test(text)`.
unfoldable pub found_from : List Piece → Option ℕ → Text → Bool
unfolding matches_here
found_from p last [] = matches_here p last []
found_from p last (c ∷ t) = matches_here p last (c ∷ t) || found_from p (some c) t

-- `laneErrorStatus`: the first that is a whole number.
unfoldable pub lane_error_status : List (Option ℕ) → Option ℕ
lane_error_status [] = none
lane_error_status (none ∷ candidates) = lane_error_status candidates
lane_error_status (some n ∷ candidates) = some n

-- `laneErrorText`: the parts, joined by a space.
unfoldable pub lane_error_text : List Text → Text
lane_error_text [] = []
lane_error_text (part ∷ []) = part
lane_error_text (part ∷ next ∷ parts) = part ++ b' ' ∷ lane_error_text (next ∷ parts)

-- "transient" or "terminal".
pub data LaneClass : Type 0 where
  transient terminal : LaneClass

abbrev pub class_of_text : Text → LaneClass
class_of_text text =
    if any (λ p. found_from p none text) terminal_error_patterns
    then terminal
    else if any (λ p. found_from p none text) transient_error_patterns
    then transient
    else terminal

abbrev pub class_of_status : Option ℕ → LaneClass → LaneClass
class_of_status none otherwise = otherwise
class_of_status (some status) otherwise =
    if any (λ s. status == s) terminal_http_statuses
    then terminal
    else if any (λ s. status == s) transient_http_statuses
    then transient
    else otherwise

unfoldable pub classify_lane_error : LaneError → LaneClass
unfolding found_from lane_error_status lane_error_text
classify_lane_error error =
    if is_non_retryable error.code
    then terminal
    else class_of_status (lane_error_status error.statuses)
        (class_of_text (lane_error_text error.parts))

abbrev pub max_lane_retry_delay_ms : ℕ
max_lane_retry_delay_ms = 30000

-- `computeLaneBackoffMs`, where a jitter below 1 is the fraction `part / whole`, in exact arithmetic. The
-- half of the delay and its share of the jitter are rounded together, as `Math.round` does.
unfoldable pub compute_lane_backoff_ms : ℕ → ℕ → ℕ → Option ℕ → ℕ → ℕ → ℕ
compute_lane_backoff_ms base_ms max_ms attempt (some retry_after_ms) part whole =
    min retry_after_ms max_ms
compute_lane_backoff_ms base_ms max_ms attempt none part whole =
    let capped = min (base_ms * 2 ^ (attempt - 1)) max_ms in
    min max_ms ((capped * (whole + part) + whole) / (2 * whole))
