-- ===== src/Json/Order.antt =====
-- The entries of an object in the order of their keys, with and without those that are not written.
use opencode_workflows.Prelude.{
  ◌≡◌, refl, sym, ap, ◌∙◌, inl, inr, true, false, Option, none, some, List, [], ◌∷◌, keep, ==_iff,
  arith, Bool-cases,
}
use opencode_workflows.Authority.Pattern.{Text}
use opencode_workflows.Json.{Entry, text_le, is_before, insert, sort, is_written}

pub text_le_trans : (a b c : Text) → text_le a b ≡ true → text_le b c ≡ true → text_le a c ≡ true
unfolding text_le
text_le_trans [] b c h k = refl
text_le_trans (x ∷ a) [] c h k = cc
text_le_trans (x ∷ a) (y ∷ b) [] h k = cc
text_le_trans (x ∷ a) (y ∷ b) (z ∷ c) h k =
    let rest = text_le_trans a b c in ground (arith, rest, h, k, ==_iff x y, ==_iff y z, ==_iff x z)

pub text_le_total : (a b : Text) → text_le a b ≡ false → text_le b a ≡ true
unfolding text_le
text_le_total [] b h = cc
text_le_total (x ∷ a) [] h = refl
text_le_total (x ∷ a) (y ∷ b) h =
    let rest = text_le_total a b in ground (arith, rest, h, ==_iff x y, ==_iff y x)

-- Every entry of the list is after e.
abbrev IsFirst : Entry → List Entry → Type 0
IsFirst e [] = Unit
IsFirst e (f ∷ entries) = (is_before e f ≡ true) × IsFirst e entries

abbrev IsSorted : List Entry → Type 0
IsSorted [] = Unit
IsSorted (e ∷ entries) = IsFirst e entries × IsSorted entries

IsFirst-trans :
    (e f : Entry) (entries : List Entry)
    → is_before e f ≡ true
    → IsFirst f entries
    → IsFirst e entries
IsFirst-trans e f [] h k = tt
IsFirst-trans e f (g ∷ entries) h (k, rest) =
    (text_le_trans e.0 f.0 g.0 h k, IsFirst-trans e f entries h rest)

IsFirst-keep :
    (e : Entry) (entries : List Entry) → IsFirst e entries → IsFirst e (keep is_written entries)
IsFirst-keep e [] h = tt
IsFirst-keep e ((k, none) ∷ entries) (h, rest) = IsFirst-keep e entries rest
IsFirst-keep e ((k, some t) ∷ entries) (h, rest) = (h, IsFirst-keep e entries rest)

IsFirst-insert :
    (f e : Entry) (entries : List Entry)
    → is_before f e ≡ true
    → IsFirst f entries
    → IsFirst f (insert e entries)
unfolding insert
IsFirst-insert f e [] h k = (h, tt)
IsFirst-insert f e (g ∷ entries) h (k, rest) = elim (Bool-cases (is_before e g)) [
  | inl before ↦ rw before (h, (k, rest))
  | inr after ↦ rw after (k, IsFirst-insert f e entries h rest)
]

insert-IsSorted :
    (e : Entry) (entries : List Entry) → IsSorted entries → IsSorted (insert e entries)
unfolding insert
insert-IsSorted e [] h = (tt, tt)
insert-IsSorted e (f ∷ entries) (first, rest) = elim (Bool-cases (is_before e f)) [
  | inl before ↦ rw before ((before, IsFirst-trans e f entries before first), (first, rest))
  | inr after ↦ rw after (
    IsFirst-insert f e entries (text_le_total e.0 f.0 after) first,
    insert-IsSorted e entries rest,
  )
]

sort-IsSorted : (entries : List Entry) → IsSorted (sort entries)
unfolding sort
sort-IsSorted [] = tt
sort-IsSorted (e ∷ entries) = insert-IsSorted e (sort entries) (sort-IsSorted entries)

-- An entry before all the others comes first.
insert-first :
    (e : Entry) (entries : List Entry) → IsFirst e entries → insert e entries ≡ e ∷ entries
unfolding insert
insert-first e [] h = refl
insert-first e (f ∷ entries) (h, rest) = rw h refl

keep-insert_unwritten :
    (key : Text) (entries : List Entry)
    → keep is_written (insert (key, none) entries) ≡ keep is_written entries
unfolding insert
keep-insert_unwritten key [] = refl
keep-insert_unwritten key ((k, t) ∷ entries) = elim (Bool-cases (is_before (key, none) (k, t))) [
  | inl before ↦ rw before refl
  | inr after ↦ rw after (later (keep-insert_unwritten key entries) t)
]
  where
    later :
        keep is_written (insert (key, none) entries) ≡ keep is_written entries
        → (t : Option Text)
        → keep is_written ((k, t) ∷ insert (key, none) entries) ≡ keep is_written ((k, t) ∷ entries)
    later same none = same
    later same (some t) = ap (λ (es : List Entry). (k, some t) ∷ es) same

keep-insert :
    (key text : Text) (entries : List Entry)
    → IsSorted entries
    → keep is_written (insert (key, some text) entries)
      ≡ insert (key, some text) (keep is_written entries)
unfolding insert
keep-insert key text [] s = refl
keep-insert key text ((k, t) ∷ entries) (first, rest) =
    elim (Bool-cases (is_before (key, some text) (k, t))) [
      | inl before ↦ rw before (
          sym (
            insert-first (key, some text) (keep is_written ((k, t) ∷ entries))
              (IsFirst-keep (key, some text) ((k, t) ∷ entries)
                (before, IsFirst-trans (key, some text) (k, t) entries before first))))
      | inr after ↦ rw after (later (keep-insert key text entries rest) t after)
    ]
  where
    later :
        keep is_written (insert (key, some text) entries)
          ≡ insert (key, some text) (keep is_written entries)
        → (t : Option Text) → is_before (key, some text) (k, t) ≡ false
        → keep is_written ((k, t) ∷ insert (key, some text) entries)
          ≡ insert (key, some text) (keep is_written ((k, t) ∷ entries))
    later same none h = same
    later same (some t) h = rw h (ap (λ (es : List Entry). (k, some t) ∷ es) same)

-- It does not matter whether the entries that are not written are left out before or after the sort.
pub keep-sort :
    (entries : List Entry) → keep is_written (sort entries) ≡ sort (keep is_written entries)
unfolding sort
keep-sort [] = refl
keep-sort ((key, none) ∷ entries) = keep-insert_unwritten key (sort entries) ∙ keep-sort entries
keep-sort ((key, some text) ∷ entries) =
    keep-insert key text (sort entries) (sort-IsSorted entries)
    ∙ ap (insert (key, some text)) (keep-sort entries)

pub keep-keep :
    (entries : List Entry) → keep is_written (keep is_written entries) ≡ keep is_written entries
keep-keep [] = refl
keep-keep ((key, none) ∷ entries) = keep-keep entries
keep-keep ((key, some text) ∷ entries) =
    ap (λ (es : List Entry). (key, some text) ∷ es) (keep-keep entries)
