-- ===== src/Ledger/Incomplete.antt =====
-- The keys that incompleteLedgerKeys reports, against the records of each key.
use opencode_workflows.Prelude.{
  ◌≡◌, refl, subst, ◌∙◌, String, Bool, true, false, not, ◌||◌, ◌&&◌, Option, none, some, List, [],
  ◌∷◌, arith, any, str_eq, eq_iff, Option-cases, Bool-cases, inl, inr, if◌then◌else◌,
}
use opencode_workflows.Prelude.Dict
use opencode_workflows.Prelude.Dict.{Dict, get-put, IsMap, IsFresh, IsMap-put}
use opencode_workflows.Ledger.{
  Record, Phase, phase_eq, noted_phase, missing, has_key, completed, failed, note_phase,
  note_phases, is_open, keys_open, incomplete_ledger_keys,
}

abbrev pub is_end : Phase → Bool
is_end phase = phase_eq phase completed || phase_eq phase failed

abbrev opened : Option (List Phase) → Bool
opened none = false
opened (some seen) = is_open seen

abbrev known : Option (List Phase) → Bool
known none = false
known (some seen) = true

abbrev ended : Option (List Phase) → Bool
ended none = false
ended (some seen) = not (is_open seen)

get-IsFresh : (d : Dict (List Phase)) (key : String) → IsFresh key d → Dict.get d key ≡ none
unfolding Dict.get
get-IsFresh [] key f = refl
get-IsFresh ((k, seen) ∷ d) key f = rw f.0 (get-IsFresh d key f.1)

any-keys_open :
    (d : Dict (List Phase)) (key : String)
    → IsMap d
    → any (str_eq key) (keys_open d) ≡ opened (Dict.get d key)
unfolding Dict.get
any-keys_open [] key m = refl
any-keys_open ((k, seen) ∷ d) key m = elim (Bool-cases (str_eq k key)) [
  | inl y ↦
      let same : k ≡ key = (eq_iff k key).0 y in
      let gone : Dict.get d key ≡ none = get-IsFresh d key (subst (λ j. IsFresh j d) same m.0) in
      let rest = any-keys_open d key m.1 in ground (arith, eq_iff key k, gone, rest)
  | inr n ↦ let rest = any-keys_open d key m.1 in ground (arith, eq_iff key k, eq_iff k key, rest)
]

module _ {V : Type 0} where
  abbrev add_phase : String → Option (List Phase) → Record V → Option (List Phase)
  add_phase key seen r =
      if has_key key r
      then some (elim seen [ none ↦ noted_phase r ∷ [] | some phases ↦ noted_phase r ∷ phases ])
      else seen

  get-note_phase :
      (d : Dict (List Phase)) (r : Record V) (key : String)
      → Dict.get (note_phase d r) key ≡ add_phase key (Dict.get d key) r
  unfolding note_phase
  get-note_phase d r key = elim (Option-cases r.mutation_key) [
    | inl n ↦ rw n
    | inr (k, e) ↦ elim (Bool-cases (str_eq k key)) [
      | inl y ↦
          let same : k ≡ key = (eq_iff k key).0 y in rw (e, y) (get-put d k key _ ∙ rw (y, same))
      | inr n ↦ rw (e, n) (get-put d k key _ ∙ rw n)
    ]
  ]

  IsMap-note_phase : (d : Dict (List Phase)) (r : Record V) → IsMap d → IsMap (note_phase d r)
  unfolding note_phase
  IsMap-note_phase d r m = elim (Option-cases r.mutation_key) [
    | inl n ↦ rw n m
    | inr (k, e) ↦ rw e (IsMap-put d k _ m)
  ]

  IsMap-note_phases :
      (d : Dict (List Phase)) (rs : List (Record V)) → IsMap d → IsMap (note_phases d rs)
  unfolding note_phases
  IsMap-note_phases d [] m = m
  IsMap-note_phases d (r ∷ rs) m = IsMap-note_phases (note_phase d r) rs (IsMap-note_phase d r m)

  -- A record that ends a mutation: its phase does, or it has none and its status does.
  abbrev pub ends : String → Record V → Bool
  ends key r = has_key key r && (is_end r.phase || (phase_eq r.phase missing && is_end r.status))

  opened-note_phases :
      (d : Dict (List Phase)) (rs : List (Record V)) (key : String)
      → opened (Dict.get (note_phases d rs) key) ≡ (
          (known (Dict.get d key) || any (has_key key) rs)
          && not (ended (Dict.get d key) || any (ends key) rs))
  unfolding note_phases
  opened-note_phases d [] key = elim (Option-cases (Dict.get d key)) [
    | inl n ↦ rw n
    | inr (seen, e) ↦ rw e (ground arith)
  ]
  opened-note_phases d (r ∷ rs) key =
      let step = get-note_phase d r key in
      let rest = opened-note_phases (note_phase d r) rs key in ground (arith, step, rest)

  -- incompleteLedgerKeys reports a key exactly where a record has the key and no record of the key
  -- is completed or failed, by its phase or, where it has none, by its status.
  pub incomplete_ledger_keys_iff :
      (rs : List (Record V)) (key : String)
      → any (str_eq key) (incomplete_ledger_keys rs)
        ≡ (any (has_key key) rs && not (any (ends key) rs))
  unfolding incomplete_ledger_keys
  incomplete_ledger_keys_iff rs key =
      any-keys_open (note_phases [] rs) key (IsMap-note_phases [] rs tt)
      ∙ opened-note_phases [] rs key
      ∙ (unfold Dict.get in refl)
