-- ===== src/Resume/Index.antt =====
-- The index of resume signatures against the journal entries themselves.
use mathlib.Core.List.{append-nil, append_assoc}
use opencode_workflows.Prelude.{
  ◌≡◌, refl, ap, sym, ◌∙◌, String, Bool, true, false, ◌&&◌, List, [], ◌∷◌, ◌++◌, keep, str_eq,
  eq_iff, Bool-cases, inl, inr, if◌then◌else◌,
}
use opencode_workflows.Prelude.Dict
use opencode_workflows.Prelude.Dict.{Dict, get-put}
use opencode_workflows.Resume.Scope.{signature_fallback_scope}
use opencode_workflows.Resume.{
  Entry, Index, candidates, index_entry, index_entries, is_indexed, or_nil, values,
  build_resume_signature_index,
}

-- A successful entry with this signature whose lane is in this scope.
abbrev pub matches : String → String → Entry → Bool
matches signature scope entry =
    is_indexed entry
    && (str_eq entry.signature_hash signature
        && str_eq (signature_fallback_scope entry.call_id) scope)

abbrev one_if : Bool → Entry → List Entry
one_if test entry = if test then entry ∷ [] else []

get_scope-put :
    (by_scope : Dict (List Entry)) (at scope : String) (entry : Entry)
    → or_nil (Dict.get (Dict.put by_scope at (or_nil (Dict.get by_scope at) ++ entry ∷ [])) scope)
      ≡ or_nil (Dict.get by_scope scope) ++ one_if (str_eq at scope) entry
get_scope-put by_scope at scope entry = elim (Bool-cases (str_eq at scope)) [
  | inl y ↦
      let same : at ≡ scope = (eq_iff at scope).0 y in
      ap or_nil (get-put by_scope at scope _)
      ∙ rw y (ap (λ k. or_nil (Dict.get by_scope k) ++ entry ∷ []) same)
  | inr n ↦ ap or_nil (get-put by_scope at scope _) ∙ rw n (sym (append-nil _))
]

candidates-put :
    (index : Index) (signature scope at by : String) (entry : Entry)
    → candidates
        (Dict.put index at (
          Dict.put
            (or_nil (Dict.get index at))
            by
            (or_nil (Dict.get (or_nil (Dict.get index at)) by) ++ entry ∷ [])))
        signature
        scope
      ≡ candidates index signature scope ++ one_if (str_eq at signature && str_eq by scope) entry
unfolding candidates
candidates-put index signature scope at by entry = elim (Bool-cases (str_eq at signature)) [
  | inl y ↦
      let same : at ≡ signature = (eq_iff at signature).0 y in
      ap (λ d. or_nil (Dict.get (or_nil d) scope)) (get-put index at signature _)
      ∙ rw y (
          get_scope-put (or_nil (Dict.get index at)) by scope entry
          ∙ ap
              (λ k.
                or_nil (Dict.get (or_nil (Dict.get index k)) scope)
                ++ one_if (str_eq by scope) entry)
              same)
  | inr n ↦
      ap (λ d. or_nil (Dict.get (or_nil d) scope)) (get-put index at signature _)
      ∙ rw n (sym (append-nil _))
]

candidates-index_entry :
    (index : Index) (entry : Entry) (signature scope : String)
    → candidates (index_entry index entry) signature scope
      ≡ candidates index signature scope ++ one_if (matches signature scope entry) entry
unfolding index_entry
candidates-index_entry index entry signature scope = elim (Bool-cases (is_indexed entry)) [
  | inr n ↦ rw n (sym (append-nil _))
  | inl y ↦ rw y (
      candidates-put index signature scope entry.signature_hash
        (signature_fallback_scope entry.call_id) entry)
]

append-one_if :
    (xs : List Entry) (b : Bool) (entry : Entry) (rest : List Entry)
    → (xs ++ one_if b entry) ++ rest ≡ xs ++ (if b then entry ∷ rest else rest)
append-one_if xs true entry rest = append_assoc xs (entry ∷ []) rest
append-one_if xs false entry rest = ap (λ l. l ++ rest) (append-nil xs)

candidates-index_entries :
    (index : Index) (entries : List Entry) (signature scope : String)
    → candidates (index_entries index entries) signature scope
      ≡ candidates index signature scope ++ keep (matches signature scope) entries
unfolding index_entries
candidates-index_entries index [] signature scope = sym (append-nil _)
candidates-index_entries index (entry ∷ entries) signature scope =
    candidates-index_entries (index_entry index entry) entries signature scope
    ∙ ap (λ l. l ++ keep (matches signature scope) entries)
        (candidates-index_entry index entry signature scope)
    ∙ append-one_if (candidates index signature scope) (matches signature scope entry) entry _

-- The candidates that the index of a journal has for a signature and a scope are the successful
-- entries of the journal that have this signature and whose call is in this scope, in the journal's
-- order.
pub candidates-build_resume_signature_index :
    (journal : Dict Entry) (signature scope : String)
    → candidates (build_resume_signature_index journal) signature scope
      ≡ keep (matches signature scope) (values journal)
unfolding build_resume_signature_index
candidates-build_resume_signature_index journal signature scope =
    let nothing : candidates [] signature scope ≡ [] =
      unfold candidates in unfold Dict.get in refl in
    candidates-index_entries [] (values journal) signature scope
    ∙ ap (λ l. l ++ keep (matches signature scope) (values journal)) nothing
