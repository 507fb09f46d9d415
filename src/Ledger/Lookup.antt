-- ===== src/Ledger/Lookup.antt =====
-- Searching the ledger from its end.
use mathlib.Core.List.{reverse, reverse-append}
use opencode_workflows.Prelude.{
  ◌≡◌, refl, Bool, true, false, ◌||◌, none, some, List, [], ◌∷◌, ◌++◌, arith, find_first, any, ap,
  ◌∙◌, if◌then◌else◌,
}

module _ {ℓ} {A : Type ℓ} (p : A → Bool) where
  pub find_first-reverse :
      (xs : List A) (x : A)
      → find_first p (reverse (xs ++ x ∷ [])) ≡ (if p x then some x else find_first p (reverse xs))
  find_first-reverse xs x = rw (reverse-append xs (x ∷ []))

  pub any-append_lem : (xs ys : List A) → any p (xs ++ ys) ≡ (any p xs || any p ys)
  any-append_lem [] ys = refl
  any-append_lem (x ∷ xs) ys = ground (arith, any-append_lem xs ys)

  any-none : (xs : List A) → find_first p xs ≡ none → any p xs ≡ false
  any-none [] h = refl
  any-none (x ∷ xs) h = ground (arith, any-none xs)

  any-reverse : (xs : List A) → any p (reverse xs) ≡ any p xs
  any-reverse [] = refl
  any-reverse (x ∷ xs) =
      ap (any p) (reverse-append (x ∷ []) xs)
      ∙ any-append_lem (reverse xs) (x ∷ [])
      ∙ ground (arith, any-reverse xs)

  pub any_of_find : (xs : List A) → find_first p (reverse xs) ≡ none → any p xs ≡ false
  any_of_find xs h = rw (← any-reverse xs) (any-none (reverse xs) h)

  find-some : (xs : List A) {x : A} → find_first p xs ≡ some x → (any p xs ≡ true) × (p x ≡ true)
  find-some [] h = cc
  find-some (y ∷ xs) {x} h = ground (arith, find-some xs {x = x})

  pub found-any :
      (xs : List A) {x : A} → find_first p (reverse xs) ≡ some x → (any p xs ≡ true) × (p x ≡ true)
  found-any xs h = let (a, b) = find-some (reverse xs) h in (rw (← any-reverse xs) a, b)
