-- ===== src/Paths/Glob.antt =====
-- globToRegExp, matchesPolicyGlob and protectedPathReason of workflow-kernel/path-policy.js. Of the flag
-- `i` the case of the ASCII letters is read; other letters match themselves only.
use opencode_workflows.Prelude.{
  ℕ, ◌+◌, Bool, true, false, not, ◌&&◌, ◌||◌, Option, none, some, List, [], ◌∷◌, codes, map, any,
  leb, ◌==◌, if◌then◌else◌,
}
use opencode_workflows.Authority.Pattern.{Text, text_eq, includes, is_line_end}
use opencode_workflows.Authority.Rules.{default_secret_globs}
use opencode_workflows.Paths.{slash, backslash, split_at, is_slash}

unfoldable pub drop_slashes : Text → Text
drop_slashes [] = []
drop_slashes (c ∷ t) = let rest = drop_slashes t in if c == slash then rest else c ∷ t

-- `replace(/^\.\/+/, "")`.
unfoldable pub drop_here : Text → Text
unfolding drop_slashes
drop_here [] = []
drop_here (c ∷ []) = c ∷ []
drop_here (c ∷ d ∷ t) = if c == b'.' && d == slash then drop_slashes t else c ∷ d ∷ t

abbrev pub forward : ℕ → ℕ
forward c = if c == backslash then slash else c

unfoldable pub normalize_policy_path : Text → Text
unfolding drop_here
normalize_policy_path path = drop_here (map forward path)

-- The parts of the regular expression: `(?:.*/)?`, `.*`, `[^/]*`, `[^/]` and a character.
pub data Atom : Type 0 where
  any_dirs any_run segment_run segment_char : Atom
  literal : ℕ → Atom

abbrev pub star : ℕ
star = b'*'

abbrev pub one_atom : ℕ → Atom
one_atom c = if c == star then segment_run else if c == b'?' then segment_char else literal c

-- The loop of `globToRegExp`.
unfoldable pub compile : Text → List Atom
compile [] = []
compile (c ∷ []) = one_atom c ∷ []
compile (c ∷ d ∷ []) =
    let one = one_atom c ∷ compile (d ∷ []) in if c == star && d == star then any_run ∷ [] else one
compile (c ∷ d ∷ e ∷ t) =
    let dirs = any_dirs ∷ compile t in
    let run = any_run ∷ compile (e ∷ t) in
    let one = one_atom c ∷ compile (d ∷ e ∷ t) in
    if c == star && d == star then (if e == slash then dirs else run) else one

-- A letter of ASCII in lower case.
unfoldable pub fold_case : ℕ → ℕ
fold_case c = if leb b'A' c && leb c b'Z' then c + 32 else c

-- `.*` and `[^/]*`, before what the test `k` says of the rest.
unfoldable pub after_run : (Text → Bool) → Text → Bool
unfolding is_line_end
after_run k [] = k []
after_run k (c ∷ t) = k (c ∷ t) || (not (is_line_end c) && after_run k t)

unfoldable pub after_segment_run : (Text → Bool) → Text → Bool
after_segment_run k [] = k []
after_segment_run k (c ∷ t) = k (c ∷ t) || (not (c == slash) && after_segment_run k t)

-- `.*/`.
unfoldable pub after_dirs : (Text → Bool) → Text → Bool
unfolding is_line_end
after_dirs k [] = false
after_dirs k (c ∷ t) = (c == slash && k t) || (not (is_line_end c) && after_dirs k t)

abbrev pub after_char : (ℕ → Bool) → (Text → Bool) → Text → Bool
after_char p k [] = false
after_char p k (c ∷ t) = p c && k t

abbrev pub is_empty : Text → Bool
is_empty [] = true
is_empty (c ∷ t) = false

-- The test of the regular expression, from `^` to `$`.
unfoldable pub test : List Atom → Text → Bool
unfolding after_run after_segment_run after_dirs fold_case
test [] t = is_empty t
test (any_dirs ∷ p) t = test p t || after_dirs (test p) t
test (any_run ∷ p) t = after_run (test p) t
test (segment_run ∷ p) t = after_segment_run (test p) t
test (segment_char ∷ p) t = after_char (λ c. not (c == slash)) (test p) t
test (literal x ∷ p) t = after_char (λ c. fold_case c == fold_case x) (test p) t

unfoldable pub matches_policy_glob : Text → Text → Bool
unfolding compile test normalize_policy_path
matches_policy_glob path glob =
    test (compile (normalize_policy_path glob)) (normalize_policy_path path)

pub data Reason : Type 0 where
  control_path secret_path : Reason

abbrev pub control_path_segments : List Text
control_path_segments = map codes (".git" ∷ ".opencode" ∷ [])

-- `segment.toLowerCase()` is one of the control segments; no letter outside ASCII becomes one of theirs.
unfoldable pub is_control_segment : Text → Bool
unfolding fold_case text_eq includes
is_control_segment segment = includes control_path_segments (map fold_case segment)

unfoldable pub protected_path_reason : List Text → Text → Option Reason
unfolding is_control_segment matches_policy_glob normalize_policy_path split_at
protected_path_reason secret_globs path =
    let normalized = normalize_policy_path path in
    if any is_control_segment (split_at is_slash normalized)
    then some control_path
    else if any (matches_policy_glob normalized) secret_globs
    then some secret_path
    else none

-- `assertWritableWorkflowPath`, with the default globs.
unfoldable pub is_writable_workflow_path : Text → Bool
unfolding protected_path_reason
is_writable_workflow_path path = elim (protected_path_reason default_secret_globs path) [
  | none ↦ true
  | some reason ↦ false
]
