-- ===== src/Ledger/Staging.antt =====
-- Which mutations are staged: the loop of stagedDomainMutations against the last record of a key,
-- and the keys of incompleteLedgerKeys.
use mathlib.Core.List.{reverse, reverse-append, reverse-reverse}
use opencode_workflows.Prelude.{
  ◌≡◌, refl, ap, sym, ◌∙◌, String, Bool, ◌||◌, ◌&&◌, Option, none, some, List, [], ◌∷◌, ◌++◌, arith,
  find_first, Option-cases, inl, inr, if◌then◌else◌,
}
use opencode_workflows.Prelude.Dict
use opencode_workflows.Prelude.Dict.{Dict, get-put, get-remove}
use opencode_workflows.Ledger.{
  Record, phase_eq, has_key, staged, completed, stage_record, stage_records,
}

module _ {V : Type 0} where
  abbrev pub bears : String → Record V → Bool
  bears key r = has_key key r && (phase_eq r.phase staged || phase_eq r.phase completed)

  -- The staged record of a key, read off the last record that stages or completes it.
  abbrev pub staged_now : Option (Record V) → Option (Record V)
  staged_now none = none
  staged_now (some r) = if phase_eq r.phase staged then some r else none

  get-stage_record :
      (d : Dict (Record V)) (r : Record V) (key : String)
      → Dict.get (stage_record d r) key
        ≡ (if bears key r then staged_now (some r) else Dict.get d key)
  unfolding stage_record
  get-stage_record d r key = elim (Option-cases r.mutation_key) [
    | inl n ↦ rw n
    | inr (k, e) ↦ rw e (ground (arith, get-put d k key r, get-remove d k key))
  ]

  stage_records-append :
      (d : Dict (Record V)) (rs : List (Record V)) (r : Record V)
      → stage_records d (rs ++ r ∷ []) ≡ stage_record (stage_records d rs) r
  unfolding stage_records
  stage_records-append d [] r = refl
  stage_records-append d (x ∷ rs) r = stage_records-append (stage_record d x) rs r

  get-stage_reversed :
      (rs : List (Record V)) (key : String)
      → Dict.get (stage_records [] (reverse rs)) key ≡ staged_now (find_first (bears key) rs)
  unfolding stage_records
  get-stage_reversed [] key = unfold Dict.get in refl
  get-stage_reversed (r ∷ rs) key =
      ap (λ d. Dict.get (stage_records [] d) key) (reverse-append (r ∷ []) rs)
      ∙ ap (λ d. Dict.get d key) (stage_records-append [] (reverse rs) r)
      ∙ get-stage_record (stage_records [] (reverse rs)) r key
      ∙ rw (get-stage_reversed rs key) (ground arith)

  -- A mutation is staged exactly where the last record of its key that stages or completes it stages
  -- it, and then that record is the one that stagedDomainMutations holds for the key.
  pub get-stage_records :
      (rs : List (Record V)) (key : String)
      → Dict.get (stage_records [] rs) key ≡ staged_now (find_first (bears key) (reverse rs))
  get-stage_records rs key = rw (← reverse-reverse rs) (
      get-stage_reversed (reverse rs) key
      ∙ ap (λ l. staged_now (find_first (bears key) (reverse l))) (sym (reverse-reverse rs)))
