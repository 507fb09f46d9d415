-- ===== src/Json.antt =====
-- stableStringify of workflow-kernel/text-json.js, which the approval hashes are made of.
pub mod Order
pub mod Persisted
pub mod Reordered
use opencode_workflows.Prelude.{
  ℕ, Bool, true, false, ◌&&◌, ◌||◌, Option, none, some, List, [], ◌∷◌, ◌++◌, codes, map, keep, ltb,
  ◌==◌, if◌then◌else◌,
}
use opencode_workflows.Authority.Pattern.{Text}

-- The values: a number is the text that JSON.stringify makes of it, and an object its own enumerable
-- properties, in their order.
mutual
  pub data Value : Type 0 where
    undefined null : Value
    boolean : Bool → Value
    number big_int string : Text → Value
    array : Values → Value
    object : Fields → Value

  pub data Values : Type 0 where
    no_values : Values
    value_and : Value → Values → Values

  pub data Fields : Type 0 where
    no_fields : Fields
    field_and : Text → Value → Fields → Fields

-- The order of `sort()` on texts: by their code units.
unfoldable pub text_le : Text → Text → Bool
text_le [] t = true
text_le (c ∷ s) [] = false
text_le (c ∷ s) (d ∷ t) = ltb c d || (c == d && text_le s t)

-- A property's key, and what it is written as, if its value is not undefined.
abbrev pub Entry : Type 0
Entry = Text × Option Text

abbrev pub is_before : Entry → Entry → Bool
is_before e f = text_le e.0 f.0

unfoldable pub insert : Entry → List Entry → List Entry
unfolding text_le
insert e [] = e ∷ []
insert e (f ∷ entries) =
    let rest = insert e entries in if is_before e f then e ∷ f ∷ entries else f ∷ rest

unfoldable pub sort : List Entry → List Entry
unfolding insert
sort [] = []
sort (e ∷ entries) = insert e (sort entries)

-- `join(",")`.
unfoldable pub join : List Text → Text
join [] = []
join (t ∷ []) = t
join (t ∷ s ∷ texts) = t ++ b',' ∷ join (s ∷ texts)

abbrev pub is_written : Entry → Bool
is_written (key, none) = false
is_written (key, some text) = true

module _ (quote : Text → Text) where
  abbrev pub line_of : Entry → Text
  line_of (key, none) = []
  line_of (key, some text) = quote key ++ b':' ∷ text

  unfoldable pub written_object : List Entry → Text
  unfolding sort join
  written_object entries = b'{' ∷ join (map line_of (keep is_written (sort entries))) ++ b'}' ∷ []

  unfoldable pub written_array : List Text → Text
  unfolding join
  written_array texts = b'[' ∷ join texts ++ b']' ∷ []

  abbrev pub item_text : Value → Text → Text
  item_text undefined text = codes "null"
  item_text v text = text

  abbrev pub entry_text : Value → Text → Option Text
  entry_text undefined text = none
  entry_text v text = some text

  -- `undefined` has a text of its own, which is seen at the top only.
  unfoldable mutual
    unfolding written_object written_array

    pub stable_stringify : Value → Text
    stable_stringify undefined = codes "undefined"
    stable_stringify null = codes "null"
    stable_stringify (boolean true) = codes "true"
    stable_stringify (boolean false) = codes "false"
    stable_stringify (number text) = text
    stable_stringify (big_int text) = quote text
    stable_stringify (string text) = quote text
    stable_stringify (array vs) = written_array (items_of vs)
    stable_stringify (object fs) = written_object (entries_of fs)

    pub items_of : Values → List Text
    items_of no_values = []
    items_of (value_and v vs) = item_text v (stable_stringify v) ∷ items_of vs

    pub entries_of : Fields → List Entry
    entries_of no_fields = []
    entries_of (field_and key v fs) = (key, entry_text v (stable_stringify v)) ∷ entries_of fs

-- What a file holds of a value that JSON.stringify writes and JSON.parse reads: the properties that are
-- undefined are gone, an undefined item is null. A big integer, which JSON.stringify refuses, is left as
-- it is.
unfoldable mutual
  pub persisted : Value → Value
  persisted (array vs) = array (persisted_values vs)
  persisted (object fs) = object (persisted_fields fs)
  persisted v = v

  pub persisted_values : Values → Values
  persisted_values no_values = no_values
  persisted_values (value_and undefined vs) = value_and null (persisted_values vs)
  persisted_values (value_and v vs) = value_and (persisted v) (persisted_values vs)

  pub persisted_fields : Fields → Fields
  persisted_fields no_fields = no_fields
  persisted_fields (field_and key undefined fs) = persisted_fields fs
  persisted_fields (field_and key v fs) = field_and key (persisted v) (persisted_fields fs)
