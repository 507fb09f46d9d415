-- ===== src/Paths/Written.antt =====
-- Globs by the text in which they are written: globToRegExp and matchesPolicyGlob of
-- workflow-kernel/path-policy.js.
use opencode_workflows.Prelude.{ℕ, ◌≡◌, Bool, false, List, [], ◌∷◌, ◌==◌}
use opencode_workflows.Authority.Pattern.{Text}
use opencode_workflows.Paths.{slash}
use opencode_workflows.Paths.Glob.{
  Atom, any_dirs, any_run, segment_run, segment_char, literal, star,
}

-- The text of a glob: `**/`, `**`, `*`, `?` and a character.
abbrev pub written : List Atom → Text
written [] = []
written (any_dirs ∷ p) = star ∷ star ∷ slash ∷ written p
written (any_run ∷ p) = star ∷ star ∷ written p
written (segment_run ∷ p) = star ∷ written p
written (segment_char ∷ p) = b'?' ∷ written p
written (literal x ∷ p) = x ∷ written p

abbrev pub begins : ℕ → Text → Bool
begins c [] = false
begins c (d ∷ t) = d == c

-- The parts of a glob are read from the left, each as long as it can be.
abbrev pub IsGlob : List Atom → Type 0
IsGlob [] = Unit
IsGlob (any_dirs ∷ p) = IsGlob p
IsGlob (any_run ∷ p) = (begins slash (written p) ≡ false) × IsGlob p
IsGlob (segment_run ∷ p) = (begins star (written p) ≡ false) × IsGlob p
IsGlob (segment_char ∷ p) = IsGlob p
IsGlob (literal x ∷ p) = (x == star ≡ false) × (x == b'?' ≡ false) × IsGlob p

-- The parts of a text, read as they are in a glob.
abbrev Reads : Text → List Atom → Type 0
Reads t p = IsGlob p × (written p ≡ t)
