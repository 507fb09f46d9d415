-- ===== src/Authority/Pattern.antt =====
-- Permission patterns: normalizePatternList, wildcardPatternToRegExp and policyAllowsPattern of
-- workflow-kernel/authority-policy.js. A text is the list of its character codes.
use opencode_workflows.Prelude.{
  ℕ, Bool, true, false, not, ◌&&◌, ◌||◌, List, [], ◌∷◌, Outcome, ok, throw, ◌>>=◌, any, leb, ◌==◌,
  if◌then◌else◌,
}

abbrev pub Text : Type 0
Text = List ℕ

-- `===` on texts.
unfoldable pub text_eq : Text → Text → Bool
text_eq [] [] = true
text_eq [] (y ∷ ys) = false
text_eq (x ∷ xs) [] = false
text_eq (x ∷ xs) (y ∷ ys) = x == y && text_eq xs ys

-- `Array.prototype.includes` on an array of texts.
unfoldable pub includes : List Text → Text → Bool
unfolding text_eq
includes xs x = any (text_eq x) xs

-- The white space and line terminators that `String.prototype.trim` removes.
unfoldable pub is_space : ℕ → Bool
is_space c =
    (leb 9 c && leb c 13)
    || c == 32
    || c == 160
    || c == 0x1680
    || (leb 0x2000 c && leb c 0x200a)
    || c == 0x2028
    || c == 0x2029
    || c == 0x202f
    || c == 0x205f
    || c == 0x3000
    || c == 0xfeff

unfoldable pub trim_start : Text → Text
unfolding is_space
trim_start [] = []
trim_start (c ∷ t) = let rest = trim_start t in if is_space c then rest else c ∷ t

unfoldable pub is_blank : Text → Bool
unfolding is_space
is_blank [] = true
is_blank (c ∷ t) = is_space c && is_blank t

unfoldable pub trim_end : Text → Text
unfolding is_blank
trim_end [] = []
trim_end (c ∷ t) = let rest = c ∷ trim_end t in if is_blank (c ∷ t) then [] else rest

unfoldable pub trim : Text → Text
unfolding trim_start trim_end
trim t = trim_end (trim_start t)

-- An entry of a pattern list that a caller supplies.
pub data Entry : Type 0 where
  text : Text → Entry
  other : Entry

pub data Declared : Type 0 where
  absent : Declared
  single : Entry → Declared
  many : List Entry → Declared

-- WorkflowAuthorityError, by its message.
pub data AuthorityError : Type 0 where
  empty_pattern : AuthorityError
  exceeds_mcp_policy : Text → AuthorityError
  bad_mcp_policy : AuthorityError
  unapproved_tool_authority : AuthorityError
  beyond_approved_authority : AuthorityError
  mcp_beyond_approved : AuthorityError
  tool_denied : AuthorityError
  tool_not_approved : AuthorityError

-- `[...new Set(xs)]`: the first of equal entries stays.
unfoldable pub unique_from : List Text → List Text → List Text
unfolding includes
unique_from seen [] = []
unique_from seen (x ∷ xs) = elim (includes seen x) [
  | true ↦ unique_from seen xs
  | false ↦ x ∷ unique_from (x ∷ seen) xs
]

unfoldable pub unique : List Text → List Text
unfolding unique_from
unique = unique_from []

unfoldable pub normalize_entries : List Entry → Outcome AuthorityError (List Text)
unfolding trim is_blank
normalize_entries [] = ok []
normalize_entries (other ∷ es) = throw empty_pattern
normalize_entries (text t ∷ es) =
    if is_blank t then throw empty_pattern else (do rest ← normalize_entries es; ok (trim t ∷ rest))

abbrev pub entries : Declared → List Entry
entries absent = []
entries (single e) = e ∷ []
entries (many es) = es

unfoldable pub normalize_pattern_list : Declared → Outcome AuthorityError (List Text)
unfolding normalize_entries unique
normalize_pattern_list value = do
  normalized ← normalize_entries (entries value)
  ok (unique normalized)

abbrev pub star : ℕ
star = b'*'

abbrev pub question : ℕ
question = b'?'

-- What `.` of a regular expression does not match.
unfoldable pub is_line_end : ℕ → Bool
is_line_end c = c == 10 || c == 13 || c == 0x2028 || c == 0x2029

-- `wildcardPatternToRegExp(pattern).test(value)`.
unfoldable pub wildcard_test : Text → Text → Bool
unfolding is_line_end
wildcard_test [] [] = true
wildcard_test [] (x ∷ xs) = false
wildcard_test (c ∷ p) [] = elim (c == star) [ true ↦ wildcard_test p [] | false ↦ false ]
wildcard_test (c ∷ p) (x ∷ xs) = elim (c == star) [
  | true ↦ wildcard_test p (x ∷ xs) || (not (is_line_end x) && wildcard_test (c ∷ p) xs)
  | false ↦ elim (c == question) [
    | true ↦ not (is_line_end x) && wildcard_test p xs
    | false ↦ c == x && wildcard_test p xs
  ]
]

unfoldable pub is_wildcard : ℕ → Bool
is_wildcard c = c == star || c == question

-- `!pattern.includes("*") && !pattern.includes("?")`.
unfoldable pub is_literal : Text → Bool
unfolding is_wildcard
is_literal p = not (any is_wildcard p)

-- From `parentPattern.search(/[*?]/)` on: there is a first wildcard, nothing follows it, and the
-- pattern starts with what stands before it.
unfoldable pub covers_prefix : Text → Text → Bool
unfolding is_wildcard
covers_prefix [] pattern = false
covers_prefix (c ∷ []) pattern = is_wildcard c
covers_prefix (c ∷ d ∷ parent) [] = false
covers_prefix (c ∷ d ∷ parent) (x ∷ pattern) =
    not (is_wildcard c) && c == x && covers_prefix (d ∷ parent) pattern

-- One parent pattern against a lane's pattern.
abbrev pub parent_allows : Text → Text → Bool
parent_allows pattern parent =
    text_eq parent (star ∷ [])
    || text_eq parent pattern
    || (if is_literal pattern then wildcard_test parent pattern else covers_prefix parent pattern)

-- A pattern policy: what it allows and what it denies.
pub record Policy : Type 0 where
  pub allow : List Text
  pub deny : List Text

unfoldable pub policy_allows_pattern : Policy → Text → Bool
unfolding text_eq is_literal wildcard_test covers_prefix
policy_allows_pattern parent pattern = any (parent_allows pattern) parent.allow
