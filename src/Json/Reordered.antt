-- ===== src/Json/Reordered.antt =====
-- The order of the properties of an object in stableStringify of workflow-kernel/text-json.js.
use opencode_workflows.Prelude.{
  ◌≡◌, ◌≢◌, refl, sym, ap, ◌∙◌, inl, inr, true, false, some, List, [], ◌∷◌, ==_iff, arith,
  Bool-cases, keep, map, ◌++◌,
}
use opencode_workflows.Authority.Pattern.{Text}
use opencode_workflows.Json.{
  Value, array, object, Values, no_values, value_and, Fields, no_fields, field_and, Entry, text_le,
  is_before, insert, sort, line_of, is_written, join, written_array, stable_stringify, items_of,
  entries_of,
}
use opencode_workflows.Json.Order.{text_le_trans, text_le_total}
use opencode_workflows.Json.Persisted.{both_eq}

text_le-antisym : (a b : Text) → text_le a b ≡ true → text_le b a ≡ true → a ≡ b
unfolding text_le
text_le-antisym [] [] h k = refl
text_le-antisym [] (y ∷ b) h k = cc
text_le-antisym (x ∷ a) [] h k = cc
text_le-antisym (x ∷ a) (y ∷ b) h k =
    let rest = text_le-antisym a b in ground (arith, rest, h, k, ==_iff x y, ==_iff y x)

-- One of two different keys comes before the other.
one_first : (e f : Entry) → e.0 ≢ f.0 → is_before e f ≡ true → is_before f e ≡ false
one_first e f apart h = elim (Bool-cases (is_before f e)) [
  | inl k ↦ absurd (apart (text_le-antisym e.0 f.0 h k))
  | inr k ↦ k
]

later : (e f g : Entry) → is_before e g ≡ true → is_before f g ≡ false → is_before f e ≡ false
later e f g eg fg = elim (Bool-cases (is_before f e)) [
  | inl fe ↦ let bad : true ≡ false = sym (text_le_trans f.0 e.0 g.0 fe eg) ∙ fg in cc
  | inr fe ↦ fe
]

insert_eq : {e f : Entry} {es fs : List Entry} → e ≡ f → es ≡ fs → insert e es ≡ insert f fs
insert_eq h k = rw (h, k) refl

insert-swap :
    (e f : Entry) (entries : List Entry)
    → e.0 ≢ f.0
    → insert e (insert f entries) ≡ insert f (insert e entries)
unfolding insert
insert-swap e f [] apart = elim (Bool-cases (is_before e f)) [
  | inl h ↦ rw (h, one_first e f apart h) refl
  | inr h ↦ rw (h, text_le_total e.0 f.0 h) refl
]
insert-swap e f (g ∷ entries) apart = elim (Bool-cases (is_before e g)) [
  | inl eg ↦ elim (Bool-cases (is_before f g)) [
    | inl fg ↦ elim (Bool-cases (is_before e f)) [
      | inl ef ↦ rw (eg, fg, ef, one_first e f apart ef) refl
      | inr ef ↦ rw (eg, fg, ef, text_le_total e.0 f.0 ef, eg) refl
    ]
    | inr fg ↦ rw (eg, fg, later e f g eg fg, eg) refl
  ]
  | inr eg ↦ elim (Bool-cases (is_before f g)) [
    | inl fg ↦ rw (eg, fg, later f e g fg eg, eg) refl
    | inr fg ↦ rw (eg, fg, eg) (ap (λ (es : List Entry). g ∷ es) (insert-swap e f entries apart))
  ]
]

mutual
  pub data SameValue : Value → Value → Type 0 where
    same_value : {v : Value} → SameValue v v
    same_array : {vs us : Values} → SameValues vs us → SameValue (array vs) (array us)
    same_object : {fs gs : Fields} → SameFields fs gs → SameValue (object fs) (object gs)

  pub data SameValues : Values → Values → Type 0 where
    no_items : SameValues no_values no_values
    items :
        {v u : Value} {vs us : Values}
        → SameValue v u
        → SameValues vs us
        → SameValues (value_and v vs) (value_and u us)

  pub data SameFields : Fields → Fields → Type 0 where
    no_properties : SameFields no_fields no_fields
    property :
        {key : Text} {v u : Value} {fs gs : Fields}
        → SameValue v u
        → SameFields fs gs
        → SameFields (field_and key v fs) (field_and key u gs)
    swap :
        {key name : Text} {v u : Value} {fs : Fields}
        → key ≢ name
        → SameFields (field_and key v (field_and name u fs)) (field_and name u (field_and key v fs))
    steps : {fs gs hs : Fields} → SameFields fs gs → SameFields gs hs → SameFields fs hs

module _ (quote : Text → Text) where
  mutual
    unfolding stable_stringify

    stringify-same :
        {v u : Value} → SameValue v u → stable_stringify quote v ≡ stable_stringify quote u
    stringify-same same_value = refl
    stringify-same (same_array h) = ap (written_array quote) (items-same h)
    stringify-same (same_object h) =
        ap
          (λ (es : List Entry). b'{' ∷ join (map (line_of quote) (keep is_written es)) ++ b'}' ∷ [])
          (entries-same h)

    items-same : {vs us : Values} → SameValues vs us → items_of quote vs ≡ items_of quote us
    items-same no_items = refl
    items-same (items same_value k) = both_eq refl (items-same k)
    items-same (items (same_array h) k) = both_eq (stringify-same (same_array h)) (items-same k)
    items-same (items (same_object h) k) = both_eq (stringify-same (same_object h)) (items-same k)

    entries-same :
        {fs gs : Fields}
        → SameFields fs gs
        → sort (entries_of quote fs) ≡ sort (entries_of quote gs)
    entries-same no_properties = refl
    entries-same (property same_value k) = insert_eq refl (entries-same k)
    entries-same (property {key = key} (same_array h) k) =
        insert_eq (ap (λ (t : Text). (key, some t)) (stringify-same (same_array h)))
          (entries-same k)
    entries-same (property {key = key} (same_object h) k) =
        insert_eq (ap (λ (t : Text). (key, some t)) (stringify-same (same_object h)))
          (entries-same k)
    entries-same (swap {fs = fs} apart) = insert-swap _ _ (sort (entries_of quote fs)) apart
    entries-same (steps h k) = entries-same h ∙ entries-same k

  -- Values that differ in the order of the properties of their objects only, at any depth, have one
  -- text; the properties that change places have different names.
  pub stable_stringify-SameValue :
      (v u : Value) → SameValue v u → stable_stringify quote v ≡ stable_stringify quote u
  stable_stringify-SameValue v u h = stringify-same h
