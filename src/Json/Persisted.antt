-- ===== src/Json/Persisted.antt =====
-- A value and what a file holds of it have the same text of stableStringify, workflow-kernel/text-json.js.
use opencode_workflows.Prelude.{◌≡◌, refl, sym, ap, ◌∙◌, some, List, [], ◌∷◌, ◌++◌, map, keep}
use opencode_workflows.Authority.Pattern.{Text}
use opencode_workflows.Json.{
  Value, undefined, null, boolean, number, big_int, string, array, object, Values, no_values,
  value_and, Fields, no_fields, field_and, Entry, is_written, line_of, sort, join, written_object,
  written_array, stable_stringify, items_of, entries_of, persisted, persisted_values,
  persisted_fields,
}
use opencode_workflows.Json.Order.{keep-sort, keep-keep}

pub both_eq : {A : Type 0} {a b : A} {xs ys : List A} → a ≡ b → xs ≡ ys → a ∷ xs ≡ b ∷ ys
both_eq h k = rw (h, k) refl

module _ (quote : Text → Text) where
  -- The entries that are not written do not matter.
  written_object-keep :
      (entries : List Entry)
      → written_object quote (keep is_written entries) ≡ written_object quote entries
  unfolding written_object
  written_object-keep entries =
      ap (λ (es : List Entry). b'{' ∷ join (map (line_of quote) es) ++ b'}' ∷ [])
        (ap (keep is_written) (sym (keep-sort entries)) ∙ keep-keep (sort entries))

  mutual
    unfolding persisted stable_stringify

    stable_stringify-persisted :
        (v : Value) → stable_stringify quote (persisted v) ≡ stable_stringify quote v
    stable_stringify-persisted undefined = refl
    stable_stringify-persisted null = refl
    stable_stringify-persisted (boolean b) = refl
    stable_stringify-persisted (number t) = refl
    stable_stringify-persisted (big_int t) = refl
    stable_stringify-persisted (string t) = refl
    stable_stringify-persisted (array vs) = ap (written_array quote) (items_of-persisted vs)
    stable_stringify-persisted (object fs) =
        ap (written_object quote) (entries_of-persisted fs)
        ∙ written_object-keep (entries_of quote fs)

    items_of-persisted : (vs : Values) → items_of quote (persisted_values vs) ≡ items_of quote vs
    items_of-persisted no_values = refl
    items_of-persisted (value_and undefined vs) = both_eq refl (items_of-persisted vs)
    items_of-persisted (value_and v vs) =
        both_eq (stable_stringify-persisted v) (items_of-persisted vs)

    entries_of-persisted :
        (fs : Fields)
        → entries_of quote (persisted_fields fs) ≡ keep is_written (entries_of quote fs)
    entries_of-persisted no_fields = refl
    entries_of-persisted (field_and key undefined fs) = entries_of-persisted fs
    entries_of-persisted (field_and key v fs) =
        both_eq (ap (λ (t : Text). (key, some t)) (stable_stringify-persisted v))
          (entries_of-persisted fs)

  -- The text that a value in memory is hashed from is that of the value which a file holds of it, with
  -- every property that is undefined gone and every item that is undefined null, at any depth.
  pub stable_stringify-persisted_eq :
      (v : Value) → stable_stringify quote (persisted v) ≡ stable_stringify quote v
  stable_stringify-persisted_eq v = stable_stringify-persisted v
