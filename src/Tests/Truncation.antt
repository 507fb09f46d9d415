-- ===== src/Tests/Truncation.antt =====
-- Texts that are cut.
use opencode_workflows.Prelude.{ℕ, ◌≡◌, refl, ◌≤◌, ◌+◌, [], ◌∷◌, codes, length, ◌/◌, ◌%◌}
use opencode_workflows.Authority.Pattern.{Text}
use opencode_workflows.Truncation.{truncate_text}
use opencode_workflows.Truncation.Length.{length-truncate_text}

abbrev two_digits : ℕ → Text
two_digits n = (48 + n / 10) ∷ (48 + n % 10) ∷ []

abbrev long : Text
long = codes "a text of forty code units, or about that"

cut : truncate_text two_digits long 30 ≡ codes "a text ...[truncated 34 chars]"
unfolding truncate_text
cut = refl

cut_hard : truncate_text two_digits long 8 ≡ codes "a tex..."
unfolding truncate_text
cut_hard = refl

-- 41 code units in a bound of 30.
length-truncate_text_example : length (truncate_text two_digits long 30) ≤ 30
length-truncate_text_example = length-truncate_text two_digits long 30
