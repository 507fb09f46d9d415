-- ===== src/Truncation/Length.antt =====
-- The length of what truncateText of workflow-kernel/text-json.js returns.
use opencode_workflows.Prelude.{
  ℕ, zero, suc, ◌+◌, ◌-◌, ◌≤◌, Bool-cases, inl, inr, [], ◌∷◌, codes, length, leb, ◌==◌,
  length-append, arith,
}
use opencode_workflows.Authority.Pattern.{Text}
use opencode_workflows.Truncation.{
  slice_to, trim_trailing_high_surrogate, head_of, hard_truncate, truncation_suffix,
  truncation_passes, truncate_text,
}

length-slice_to : (n : ℕ) (s : Text) → length (slice_to n s) ≤ n
unfolding slice_to
length-slice_to zero s = omega arith
length-slice_to (suc n) [] = omega arith
length-slice_to (suc n) (c ∷ s) = omega (arith, length-slice_to n s)

length-trim : (s : Text) → length (trim_trailing_high_surrogate s) ≤ length s
unfolding trim_trailing_high_surrogate
length-trim [] = omega arith
length-trim (c ∷ []) = ground arith
length-trim (c ∷ d ∷ s) = omega (arith, length-trim (d ∷ s))

length-head_of : (n : ℕ) (s : Text) → length (head_of n s) ≤ n
length-head_of n s = omega (arith, length-trim (slice_to n s), length-slice_to n s)

length-hard_truncate : (s : Text) (max : ℕ) → length (hard_truncate s max) ≤ max
unfolding hard_truncate
length-hard_truncate s max = ground (
  arith,
  length-head_of max s,
  length-head_of (max - 3) s,
  length-append (head_of (max - 3) s) (codes "..."),
)

module _ (decimal : ℕ → Text) where
  length-truncation_passes :
      (i : ℕ) (s : Text) (max n : ℕ) (head suffix : Text)
      → length head + length suffix ≤ max
      → length (truncation_passes decimal i s max n head suffix) ≤ max
  unfolding truncation_passes
  length-truncation_passes zero s max n head suffix h = omega (arith, h, length-append head suffix)
  length-truncation_passes (suc i) s max n head suffix h =
      let suffix' = truncation_suffix decimal n in
      let head' = head_of (max - length suffix') s in
      let room = length-head_of (max - length suffix') s in
      elim (Bool-cases (leb max (length suffix'))) [
        | inl full ↦ rw full (length-hard_truncate s max)
        | inr free ↦
            let fits : length head' + length suffix' ≤ max = ground (arith, room, free) in
            elim (Bool-cases (length s - length head' == n)) [
              | inl told ↦ rw (free, told) (omega (arith, fits, length-append head' suffix'))
              | inr other ↦
                  rw (free, other)
                    (length-truncation_passes i s max (length s - length head') head' suffix' fits)
            ]
      ]

  -- Whatever the bound is, and however a number is printed, the text that truncateText returns has at most
  -- as many code units as the bound.
  pub length-truncate_text : (s : Text) (max : ℕ) → length (truncate_text decimal s max) ≤ max
  unfolding truncate_text
  length-truncate_text s max =
      ground (arith, length-truncation_passes 5 s max (length s - max) [] [] (omega arith))
