-- ===== src/Tests/Json.antt =====
-- The text of a value, in memory and in a file.
use opencode_workflows.Prelude.{◌≡◌, ◌≢◌, refl, ap, false, Bool, ◌++◌, true, [], ◌∷◌, codes}
use opencode_workflows.Authority.Pattern.{Text}
use opencode_workflows.Authority.Pattern.{text_eq}
use opencode_workflows.Json.{
  Value, undefined, null, boolean, number, string, array, object, no_values, value_and, no_fields,
  field_and, stable_stringify, persisted,
}
use opencode_workflows.Json.Reordered.{same_object, swap, stable_stringify-SameValue}
use opencode_workflows.Json.Persisted.{stable_stringify-persisted_eq}

abbrev quote : Text → Text
quote t = b'"' ∷ t ++ b'"' ∷ []

-- { path: "a", base: undefined, args: [true, undefined, 7] }
abbrev plan : Value
plan = object (
    field_and (codes "path") (string (codes "a")) (
      field_and (codes "base") undefined (
        field_and (codes "args")
          (array (
            value_and (boolean true)
              (value_and undefined (value_and (number (codes "7")) no_values))))
          no_fields)))

plan-text : stable_stringify quote plan ≡ codes "{\"args\":[true,null,7],\"path\":\"a\"}"
unfolding stable_stringify
plan-text = refl

plan-file :
    persisted plan
    ≡ object (
        field_and (codes "path") (string (codes "a")) (
          field_and
            (codes "args")
            (array (
              value_and (boolean true) (value_and null (value_and (number (codes "7")) no_values))))
            no_fields))
unfolding persisted
plan-file = refl

stable_stringify-persisted_eq_example :
    stable_stringify quote (persisted plan) ≡ stable_stringify quote plan
stable_stringify-persisted_eq_example = stable_stringify-persisted_eq quote plan

-- The same plan with its first two properties the other way round.
abbrev turned : Value
turned = object (
    field_and (codes "base") undefined (
      field_and (codes "path") (string (codes "a")) (
        field_and (codes "args")
          (array (
            value_and (boolean true)
              (value_and undefined (value_and (number (codes "7")) no_values))))
          no_fields)))

is_path : Text → Bool
is_path t = text_eq t (codes "path")

other_name : codes "path" ≢ codes "base"
unfolding is_path text_eq
other_name h = let told : true ≡ false = ap is_path h in cc

stable_stringify-SameValue_example : stable_stringify quote plan ≡ stable_stringify quote turned
stable_stringify-SameValue_example =
    stable_stringify-SameValue quote plan turned (same_object (swap other_name))
