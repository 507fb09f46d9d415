-- ===== src/Paths.antt =====
-- Paths of the POSIX file system and of workflow-kernel/path-policy.js. A text is the list of its
-- UTF-16 code units; an absolute path that has no `.`, `..` or empty segment is the list of its segments.
pub mod Segments
pub mod Glob
pub mod Matching
pub mod Written
use opencode_workflows.Prelude.{
  ℕ, ◌+◌, ◌≡◌, refl, ◌↔◌, Bool, true, false, not, ◌&&◌, ◌||◌, Option, none, some, List, [], ◌∷◌,
  ◌++◌, codes, any, keep, leb, ◌==◌, ==_iff, if◌then◌else◌, arith,
}
use opencode_workflows.Authority.Pattern.{Text, text_eq}

abbrev pub FilePath : Type 0
FilePath = List Text

abbrev pub slash : ℕ
slash = b'/'

abbrev pub backslash : ℕ
backslash = 92

abbrev pub dot : Text
dot = codes "."

abbrev pub dot_dot : Text
dot_dot = codes ".."

abbrev with_head : ℕ → List Text → List Text
with_head c [] = (c ∷ []) ∷ []
with_head c (s ∷ segments) = (c ∷ s) ∷ segments

-- `split` at every code unit that is a separator.
unfoldable pub split_at : (ℕ → Bool) → Text → List Text
split_at is_separator [] = [] ∷ []
split_at is_separator (c ∷ t) =
    let rest = split_at is_separator t in if is_separator c then [] ∷ rest else with_head c rest

abbrev pub is_slash : ℕ → Bool
is_slash c = c == slash

abbrev pub is_either_slash : ℕ → Bool
is_either_slash c = c == slash || c == backslash

-- `Boolean` on a text.
abbrev pub is_named : Text → Bool
is_named [] = false
is_named (c ∷ t) = true

-- `patch.path.split(/[\\/]+/).filter(Boolean)`: an empty part is dropped, so that it does not matter
-- whether a run of separators counts as one.
unfoldable pub parts_of : Text → List Text
unfolding split_at
parts_of t = keep is_named (split_at is_either_slash t)

unfoldable pub starts_with : Text → Text → Bool
starts_with t [] = true
starts_with [] (p ∷ ps) = false
starts_with (c ∷ t) (p ∷ ps) = c == p && starts_with t ps

-- `path.isAbsolute`.
unfoldable pub is_absolute : Text → Bool
is_absolute [] = false
is_absolute (c ∷ t) = c == slash

unfoldable pub drop_last : FilePath → FilePath
drop_last [] = []
drop_last (s ∷ []) = []
drop_last (s ∷ t ∷ path) = s ∷ drop_last (t ∷ path)

-- One segment after an absolute path, as `path.resolve` reads it.
abbrev pub enter : FilePath → Text → FilePath
enter path s =
    if not (is_named s) || text_eq s dot
    then path
    else if text_eq s dot_dot
    then drop_last path
    else path ++ s ∷ []

unfoldable pub enter_all : FilePath → List Text → FilePath
unfolding text_eq drop_last
enter_all path [] = path
enter_all path (s ∷ segments) = enter_all (enter path s) segments

-- `path.resolve(root, target)`, with an absolute root.
unfoldable pub resolve : FilePath → Text → FilePath
unfolding enter_all split_at is_absolute
resolve root target = enter_all (if is_absolute target then [] else root) (split_at is_slash target)

abbrev pub ups : FilePath → List Text
ups [] = []
ups (s ∷ path) = dot_dot ∷ ups path

-- `path.relative(from, to)` as segments: the common front is dropped, and each segment of `from` that
-- is left is a step up.
unfoldable pub relative : FilePath → FilePath → List Text
unfolding text_eq
relative [] to = to
relative (s ∷ from) [] = ups (s ∷ from)
relative (s ∷ from) (t ∷ to) =
    let rest = relative from to in if text_eq s t then rest else ups (s ∷ from) ++ t ∷ to

-- Whether the text of a relative path does not start with `..`, which its first segment decides.
abbrev pub stays_down : List Text → Bool
stays_down [] = true
stays_down (s ∷ segments) = not (starts_with s dot_dot)

-- `pathContains(root, candidate)`: the relative path of two absolute ones is never absolute.
unfoldable pub path_contains : FilePath → FilePath → Bool
unfolding relative starts_with
path_contains root candidate = stays_down (relative root candidate)

unfoldable pub has_front : FilePath → FilePath → Bool
unfolding text_eq
has_front [] target = true
has_front (s ∷ root) [] = false
has_front (s ∷ root) (t ∷ target) = text_eq s t && has_front root target

-- `target.startsWith(root + "/") || target === root`; no text of a path starts with `//`.
unfoldable pub is_below : FilePath → FilePath → Bool
unfolding has_front
is_below [] [] = true
is_below [] (t ∷ target) = false
is_below (s ∷ root) target = has_front (s ∷ root) target

unfoldable pub path_eq : FilePath → FilePath → Bool
unfolding text_eq
path_eq [] [] = true
path_eq [] (t ∷ q) = false
path_eq (s ∷ p) [] = false
path_eq (s ∷ p) (t ∷ q) = text_eq s t && path_eq p q

pub text_eq_iff : (s t : Text) → (text_eq s t ≡ true) ↔ (s ≡ t)
unfolding text_eq
text_eq_iff [] [] = ground arith
text_eq_iff [] (y ∷ t) = ground arith
text_eq_iff (x ∷ s) [] = ground arith
text_eq_iff (x ∷ s) (y ∷ t) = ground (arith, text_eq_iff s t, ==_iff x y)

pub path_eq_iff : (p q : FilePath) → (path_eq p q ≡ true) ↔ (p ≡ q)
unfolding path_eq
path_eq_iff [] [] = ground arith
path_eq_iff [] (t ∷ q) = ground arith
path_eq_iff (s ∷ p) [] = ground arith
path_eq_iff (s ∷ p) (t ∷ q) = ground (arith, path_eq_iff p q, text_eq_iff s t)

pub path_eq_refl : (p : FilePath) → path_eq p p ≡ true
path_eq_refl p = (path_eq_iff p p).1 refl
