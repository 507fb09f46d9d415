-- ===== src/Truncation.antt =====
-- truncateText of workflow-kernel/text-json.js. A text is the list of its code units, a bound on its length
-- is a number, and how a number is printed is a parameter.
pub mod Length
use opencode_workflows.Prelude.{
  ℕ, zero, suc, ◌+◌, ◌-◌, Bool, true, false, ◌&&◌, List, [], ◌∷◌, ◌++◌, codes, length, leb, ◌==◌,
  if◌then◌else◌,
}
use opencode_workflows.Authority.Pattern.{Text}

-- `slice(0, n)`.
unfoldable pub slice_to : ℕ → Text → Text
slice_to zero s = []
slice_to (suc n) [] = []
slice_to (suc n) (c ∷ s) = c ∷ slice_to n s

unfoldable pub trim_trailing_high_surrogate : Text → Text
trim_trailing_high_surrogate [] = []
trim_trailing_high_surrogate (c ∷ []) = if leb 0xd800 c && leb c 0xdbff then [] else c ∷ []
trim_trailing_high_surrogate (c ∷ d ∷ s) = c ∷ trim_trailing_high_surrogate (d ∷ s)

abbrev pub head_of : ℕ → Text → Text
head_of n s = trim_trailing_high_surrogate (slice_to n s)

unfoldable pub hard_truncate : Text → ℕ → Text
unfolding slice_to trim_trailing_high_surrogate
hard_truncate s max =
    if leb max 0
    then []
    else if leb max 3
    then head_of max s
    else head_of (max - 3) s ++ codes "..."

module _ (decimal : ℕ → Text) where
  abbrev pub truncation_suffix : ℕ → Text
  truncation_suffix n = codes "...[truncated " ++ decimal n ++ codes " chars]"

  -- The passes that are left of the loop, with `n`, `head` and `suffix` as they stand.
  unfoldable pub truncation_passes : ℕ → Text → ℕ → ℕ → Text → Text → Text
  unfolding slice_to trim_trailing_high_surrogate hard_truncate
  truncation_passes zero s max n head suffix = head ++ suffix
  truncation_passes (suc i) s max n head suffix =
      let suffix' = truncation_suffix n in
      let head' = head_of (max - length suffix') s in
      let dropped = length s - length head' in
      let rest = truncation_passes i s max dropped head' suffix' in
      if leb max (length suffix')
      then hard_truncate s max
      else if dropped == n
      then head' ++ suffix'
      else rest

  unfoldable pub truncate_text : Text → ℕ → Text
  unfolding truncation_passes
  truncate_text s max =
      let cut = truncation_passes 5 s max (length s - max) [] [] in
      if leb (length s) max then s else cut
