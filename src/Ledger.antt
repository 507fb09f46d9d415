-- ===== src/Ledger.antt =====
-- The domain ledger of workflow-kernel/event-journal.js: an append-only list of records, and the
-- mutations that run against it. What a record holds as a result or a payload is the parameter V;
-- `redact` is what redactValue and redactDurableValue make of it.
pub mod Lookup
pub mod Mutation
pub mod Once
pub mod Staging
pub mod Incomplete
use opencode_workflows.Prelude.{
  ◌≡◌, String, Bool, true, false, not, ◌&&◌, Option, none, some, List, [], ◌∷◌, ◌++◌, map, str_eq,
  find_first, any, keep, if◌then◌else◌,
}
use mathlib.Core.List.{reverse}
use opencode_workflows.Prelude.Dict
use opencode_workflows.Prelude.Dict.{Dict}

pub data Phase : Type 0 where
  started executed completed failed staged : Phase
  -- Another phase, and one that is missing or empty.
  other missing : Phase

abbrev pub phase_eq : Phase → Phase → Bool
phase_eq started started = true
phase_eq executed executed = true
phase_eq completed completed = true
phase_eq failed failed = true
phase_eq staged staged = true
phase_eq other other = true
phase_eq missing missing = true
phase_eq _ _ = false

-- `mutation_key` is `none` where it is missing or empty; `status` is read where the phase is missing.
pub record Record {ℓ} (V : Type ℓ) : Type ℓ where
  pub phase : Phase
  pub status : Phase
  pub mutation_key : Option String
  pub operation : String
  pub idempotency_key : Option String
  pub result : Option V
  pub readback : Option V
  pub readback_error : Bool
  pub payload : Option V

-- `record.phase || record.status || "unknown"`.
abbrev pub noted_phase {ℓ} : {V : Type ℓ} → Record V → Phase
noted_phase r =
    if not (phase_eq r.phase missing)
    then r.phase
    else if not (phase_eq r.status missing)
    then r.status
    else other

abbrev pub has_key {ℓ} : {V : Type ℓ} → String → Record V → Bool
has_key key r = elim r.mutation_key [ none ↦ false | some k ↦ str_eq k key ]

-- `[...map.values()]`.
abbrev pub values {ℓ} : {A : Type ℓ} → Dict A → List A
values [] = []
values ((k, v) ∷ d) = v ∷ values d

abbrev pub is_open : List Phase → Bool
is_open seen = not (any (phase_eq completed) seen) && not (any (phase_eq failed) seen)

abbrev pub keys_open : Dict (List Phase) → List String
keys_open [] = []
keys_open ((key, seen) ∷ d) = let rest = keys_open d in if is_open seen then key ∷ rest else rest

module _ {ℓ} {V : Type ℓ} where
  -- `completedLedgerRecord(records, key)`: the last completed record of the key.
  unfoldable pub completed_ledger_record : List (Record V) → String → Option (Record V)
  completed_ledger_record records key =
      find_first (λ r. has_key key r && phase_eq r.phase completed) (reverse records)

  unfoldable pub latest_ledger_record : List (Record V) → String → Phase → Option (Record V)
  latest_ledger_record records key phase =
      find_first (λ r. has_key key r && phase_eq r.phase phase) (reverse records)

  -- One round of the loop of `stagedDomainMutations`.
  unfoldable pub stage_record : Dict (Record V) → Record V → Dict (Record V)
  stage_record staged_map r = elim r.mutation_key [
    | none ↦ staged_map
    | some key ↦
        let after = (if phase_eq r.phase staged then Dict.put staged_map key r else staged_map) in
        if phase_eq r.phase completed then Dict.remove after key else after
  ]

  unfoldable pub stage_records : Dict (Record V) → List (Record V) → Dict (Record V)
  unfolding stage_record
  stage_records staged_map [] = staged_map
  stage_records staged_map (r ∷ rs) = stage_records (stage_record staged_map r) rs

  -- `stagedDomainMutations`.
  unfoldable pub staged_domain_mutations : List (Record V) → List (Record V)
  unfolding stage_records
  staged_domain_mutations records = values (stage_records [] records)

  -- The phases that a key has been through, as `incompleteLedgerKeys` collects them.
  unfoldable pub note_phase : Dict (List Phase) → Record V → Dict (List Phase)
  note_phase phases r = elim r.mutation_key [
    | none ↦ phases
    | some key ↦ Dict.put phases key (elim (Dict.get phases key) [
      | none ↦ noted_phase r ∷ []
      | some seen ↦ noted_phase r ∷ seen
    ])
  ]

  unfoldable pub note_phases : Dict (List Phase) → List (Record V) → Dict (List Phase)
  unfolding note_phase
  note_phases phases [] = phases
  note_phases phases (r ∷ rs) = note_phases (note_phase phases r) rs

  -- `incompleteLedgerKeys(records, "mutationKey")`.
  unfoldable pub incomplete_ledger_keys : List (Record V) → List String
  unfolding note_phases
  incomplete_ledger_keys records = keys_open (note_phases [] records)
