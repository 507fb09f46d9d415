-- ===== src/Paths/Segments.antt =====
-- The arithmetic of segments behind path.resolve, path.relative and pathContains.
use opencode_workflows.Prelude.{
  ◌≡◌, refl, ap, ◌∙◌, sym, Bool, true, false, ◌&&◌, List, [], ◌∷◌, ◌++◌, all, keep, arith,
  Bool-cases, inl, inr, if◌then◌else◌,
}
use opencode_workflows.Authority.Pattern.{Text, text_eq}
use opencode_workflows.Paths.{
  FilePath, text_eq_iff, is_named, drop_last, enter, enter_all, resolve, relative, path_contains,
  starts_with, split_at, is_slash, is_absolute,
}

-- A path that is contained is the root and the relative path.
pub contained-eq :
    (root path : FilePath) → path_contains root path ≡ true → path ≡ root ++ relative root path
unfolding path_contains relative starts_with
contained-eq [] path h = refl
contained-eq (s ∷ root) [] h = ground arith
contained-eq (s ∷ root) (t ∷ path) h = elim (Bool-cases (text_eq s t)) [
  | inl e ↦
      let same : s ≡ t = (text_eq_iff s t).0 e in
      rw (e) (ground (arith, contained-eq root path (rw e at h), same))
  | inr n ↦ let bad : false ≡ true = rw n at h in cc
]

all-append :
    {A : Type 0} (p : A → Bool) (xs ys : List A) → all p (xs ++ ys) ≡ (all p xs && all p ys)
all-append p [] ys = refl
all-append p (x ∷ xs) ys = ground (arith, all-append p xs ys)

pub keep-all : {A : Type 0} (p : A → Bool) (xs : List A) → all p xs ≡ true → keep p xs ≡ xs
keep-all p [] h = refl
keep-all p (x ∷ xs) h = ground (arith, keep-all p xs)

drop_last-named :
    (path : FilePath) → all is_named path ≡ true → all is_named (drop_last path) ≡ true
unfolding drop_last
drop_last-named [] h = refl
drop_last-named (s ∷ []) h = refl
drop_last-named (s ∷ t ∷ path) h = ground (arith, drop_last-named (t ∷ path))

enter-named :
    (path : FilePath) (s : Text) → all is_named path ≡ true → all is_named (enter path s) ≡ true
enter-named path s h = ground (arith, drop_last-named path h, all-append is_named path (s ∷ []))

enter_all-named :
    (path : FilePath) (segments : List Text)
    → all is_named path ≡ true
    → all is_named (enter_all path segments) ≡ true
unfolding enter_all
enter_all-named path [] h = h
enter_all-named path (s ∷ segments) h =
    enter_all-named (enter path s) segments (enter-named path s h)

pub resolve-named :
    (root : FilePath) (target : Text)
    → all is_named root ≡ true
    → all is_named (resolve root target) ≡ true
unfolding resolve
resolve-named root target h =
    enter_all-named (if is_absolute target then [] else root) (split_at is_slash target)
      (ground arith)

-- The relative path of a named one has no empty segment.
pub relative-named :
    (root path : FilePath)
    → path_contains root path ≡ true
    → all is_named path ≡ true
    → keep is_named (relative root path) ≡ relative root path
relative-named root path inside h =
    let split = all-append is_named root (relative root path) in
    let named : all is_named (root ++ relative root path) ≡ true =
      ap (all is_named) (sym (contained-eq root path inside)) ∙ h in
    keep-all is_named (relative root path) (ground (arith, split, named))
