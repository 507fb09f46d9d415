-- ===== src/Resume/Scope.antt =====
-- signatureFallbackScope of workflow-kernel/event-journal.js.
use Prim.Native.Char.{code}
use Prim.Native.String
use text.Mathlib.Text.{starts_with}
use opencode_workflows.Prelude.{
  String, Bool, true, false, not, ◌&&◌, Option, none, some, List, [], ◌∷◌, keep, str_eq, leb, ◌==◌,
  if◌then◌else◌,
}

-- The text before the last place where `part` begins: `slice(0, lastIndexOf(part))`.
unfoldable pub before_last : String → String → Option String
before_last part String.[] = none
before_last part (String.◌∷◌ c s) = elim (before_last part s) [
  | some front ↦ some (String.◌∷◌ c front)
  | none ↦ if starts_with (String.◌∷◌ c s) part then some "" else none
]

abbrev with_head : (String → String) → List String → List String
with_head f [] = []
with_head f (x ∷ xs) = f x ∷ xs

-- `split("/")`.
unfoldable pub split_slash : String → List String
split_slash String.[] = "" ∷ []
split_slash (String.◌∷◌ c s) =
    let rest = split_slash s in if code c == b'/' then "" ∷ rest else with_head (String.◌∷◌ c) rest

abbrev join_slash : List String → String
join_slash [] = ""
join_slash (x ∷ []) = x
join_slash (x ∷ y ∷ xs) = String.◌++◌ x (String.◌++◌ "/" (join_slash (y ∷ xs)))

unfoldable pub all_digits : String → Bool
all_digits String.[] = true
all_digits (String.◌∷◌ c s) = leb b'0' (code c) && (leb (code c) b'9' && all_digits s)

abbrev is_digits : String → Bool
is_digits String.[] = false
is_digits (String.◌∷◌ c s) = all_digits (String.◌∷◌ c s)

-- What follows a text that starts with `part`.
unfoldable pub after_prefix : String → String → Option String
after_prefix String.[] s = some s
after_prefix (String.◌∷◌ p part) String.[] = none
after_prefix (String.◌∷◌ p part) (String.◌∷◌ c s) =
    let rest = after_prefix part s in if code p == code c then rest else none

-- `/^item:\d+$/.test(segment)`.
unfoldable pub is_item : String → Bool
unfolding after_prefix all_digits
is_item segment = elim (after_prefix "item:" segment) [ none ↦ false | some rest ↦ is_digits rest ]

-- The segments before the last item segment.
unfoldable pub before_last_item : List String → Option (List String)
unfolding is_item
before_last_item [] = none
before_last_item (x ∷ xs) = elim (before_last_item xs) [
  | some front ↦ some (x ∷ front)
  | none ↦ if is_item x then some [] else none
]

abbrev scope_of : String → Option (List String) → String
scope_of lane_scope (some (x ∷ xs)) = join_slash (x ∷ xs)
scope_of lane_scope _ = lane_scope

abbrev lane_scope_of : String → Option String → String
lane_scope_of value none = value
lane_scope_of value (some front) = front

unfoldable pub signature_fallback_scope : String → String
unfolding before_last split_slash before_last_item
signature_fallback_scope value =
    let lane_scope = lane_scope_of value (before_last "/agent:" value) in
    scope_of lane_scope
      (before_last_item (keep (λ segment. not (str_eq segment "")) (split_slash lane_scope)))
