-- ===== src/Ledger/Mutation.antt =====
-- runDomainMutation, completeDomainMutationReadback and stageDomainMutation of
-- workflow-kernel/event-journal.js. Each append to the ledger can succeed, throw, or be the point at
-- which the process dies; the schedule of these fates is part of the world.
use opencode_workflows.Prelude.{
  String, Bool, true, false, Option, none, some, List, [], ◌∷◌, ◌++◌, str_eq, if◌then◌else◌,
}
use opencode_workflows.Ledger.{
  Record, Phase, started, executed, completed, failed, staged, completed_ledger_record,
  latest_ledger_record, missing,
}

pub data Fate : Type 0 where
  written refused crash : Fate

-- The ledger file, the idempotency keys with which `execute` was called, and the fates of the
-- appends to come; when the schedule is used up every append is written.
pub record World (V : Type 0) : Type 0 where
  pub ledger : List (Record V)
  pub executions : List String
  pub fates : List Fate

-- What a call comes to: it returns, it throws, or its process dies.
pub data Result (A : Type 0) : Type 0 where
  ok : A → Result A
  throw crashed : Result A

abbrev pub Exec : Type 0 → Type 0 → Type 0
Exec V A = World V → Result A × World V

module _ {V A B : Type 0} where
  abbrev pub continue : Result A → (A → Exec V B) → Exec V B
  continue (ok a) f w = f a w
  continue throw f w = (throw, w)
  continue crashed f w = (crashed, w)

  infixl 10 ◌>>=◌
  abbrev pub ◌>>=◌ : Exec V A → (A → Exec V B) → Exec V B
  ◌>>=◌ m f w = let (r, w') = m w in continue r f w'

module _ {V : Type 0} where
  abbrev pub append_with : List Fate → Record V → Exec V (Record V)
  append_with [] r w = (ok r, record w { ledger = w.ledger ++ r ∷ [] })
  append_with (written ∷ fates) r w =
      (ok r, record w { ledger = w.ledger ++ r ∷ []; fates = fates })
  append_with (refused ∷ fates) r w = (throw, record w { fates = fates })
  append_with (crash ∷ fates) r w = (crashed, record w { fates = fates })

  -- `appendDomainLedger`.
  unfoldable pub append_domain_ledger : Record V → Exec V (Record V)
  append_domain_ledger r w = append_with w.fates r w

pub record Outcome (V : Type 0) : Type 0 where
  pub replayed : Bool
  pub result : Option V
  pub readback : Option V
  pub readback_error : Bool

-- `execute` returns a value or throws; so does `readback`, which may be missing. What `readback`
-- throws is recorded as `readbackError`, here that
-- it threw, and then it observes nothing.
pub record Options (V : Type 0) : Type 0 where
  pub mutation_key : String
  pub operation : String
  pub idempotency_key : Option String
  pub execute : String → Option V
  pub readback : Option (Option V → Option V)

-- `options.operation || "domain-mutation"`.
abbrev pub operation_of : {V : Type 0} → Options V → String
operation_of options = if str_eq options.operation "" then "domain-mutation" else options.operation

-- Whether a mutation was staged before.
pub data Replay : Type 0 where
  already now : Replay

abbrev pub record_of : {V : Type 0} → Phase → Options V → String → Record V
record_of phase options operation = record {
  phase = phase;
  status = missing;
  mutation_key = some options.mutation_key;
  operation = operation;
  idempotency_key = none;
  result = none;
  readback = none;
  readback_error = false;
  payload = none;
}

module _ {V : Type 0} (redact : V → V) (key_of : String → String) where
  abbrev pub redacted : Option V → Option V
  redacted none = none
  redacted (some v) = some (redact v)

  -- A readback that throws.
  abbrev pub observe_fails : Option (Option V → Option V) → Option V → Bool
  observe_fails none result = false
  observe_fails (some readback) result = elim (readback result) [ none ↦ true | some v ↦ false ]

  abbrev pub observe : Option (Option V → Option V) → Option V → Option V
  observe none result = none
  observe (some readback) result = readback result

  unfoldable pub complete_domain_mutation_readback :
      Options V → String → Option V → Bool → Exec V (Outcome V)
  unfolding append_domain_ledger
  complete_domain_mutation_readback options operation result replayed =
      let observed = observe options.readback result in
      append_domain_ledger (record (record_of completed options operation) {
        result = redacted result;
        readback = redacted observed;
        readback_error = observe_fails options.readback result;
      })
      >>= λ _ w. (
        ok (record {
          replayed = replayed;
          result = result;
          readback = observed;
          readback_error = observe_fails options.readback result;
        }),
        w,
      )

  -- The call of `execute`, which the world remembers by its key.
  abbrev pub execute_now : Options V → String → Exec V (Option V)
  execute_now options key w =
      (ok (options.execute key), record w { executions = w.executions ++ key ∷ [] })

  -- The `catch` block: a record, and the error again.
  unfoldable pub fail_mutation : Options V → Exec V (Outcome V)
  unfolding append_domain_ledger
  fail_mutation options =
      append_domain_ledger (record_of failed options (operation_of options)) >>= λ _ w. (throw, w)

  -- `throw` inside `try`; a crash is not caught.
  abbrev pub or_fail :
      Options V → Result (Option V) → (Option V → Exec V (Outcome V)) → Exec V (Outcome V)
  or_fail options (ok v) f w = f v w
  or_fail options throw f w = fail_mutation options w
  or_fail options crashed f w = (crashed, w)

  abbrev pub append_executed : Options V → String → Option V → Exec V (Option V)
  append_executed options key none w = (throw, w)
  append_executed options key (some v) w =
      (append_domain_ledger (record (record_of executed options (operation_of options)) {
        idempotency_key = some key;
        result = redacted (some v);
      })
          >>= λ _ w. (ok (some v), w))
        w

  abbrev pub chosen_key : Options V → String
  chosen_key options = elim options.idempotency_key [
    | none ↦ key_of options.mutation_key
    | some key ↦ if str_eq key "" then key_of options.mutation_key else key
  ]

  -- From `started` on.
  unfoldable pub start_mutation : Options V → Exec V (Outcome V)
  unfolding complete_domain_mutation_readback fail_mutation append_domain_ledger
  start_mutation options =
      let key = chosen_key options in
      append_domain_ledger
        (record (record_of started options (operation_of options)) { idempotency_key = some key })
      >>= λ _ w.
          let (r, w') = (execute_now options key >>= append_executed options key) w in
          or_fail options r
            (λ v. complete_domain_mutation_readback options (operation_of options) v false) w'

  abbrev pub replay_or_start :
      Option (Record V) → Option (Record V) → Options V → Exec V (Outcome V)
  replay_or_start (some done) prior options w = (
    ok (record {
      replayed = true;
      result = done.result;
      readback = done.readback;
      readback_error = done.readback_error;
    }),
    w,
  )
  replay_or_start none (some run) options w =
      complete_domain_mutation_readback options run.operation run.result true w
  replay_or_start none none options w = start_mutation options w

  unfoldable pub run_domain_mutation : Options V → Exec V (Outcome V)
  unfolding start_mutation complete_domain_mutation_readback
  run_domain_mutation options w =
      if str_eq options.mutation_key ""
      then (throw, w)
      else replay_or_start (completed_ledger_record w.ledger options.mutation_key)
          (latest_ledger_record w.ledger options.mutation_key executed) options w

module _ {V : Type 0} where
  -- The staged record, unless the mutation is completed or staged already; the answer is whether it
  -- was.
  abbrev pub stage_with :
      Option (Record V) → Option (Record V) → Options V → Option V → Exec V Replay
  stage_with (some r) prior options payload w = (ok already, w)
  stage_with none (some r) options payload w = (ok already, w)
  stage_with none none options payload w =
      (append_domain_ledger
            (record (record_of staged options (operation_of options)) { payload = payload })
          >>= λ _ w. (ok now, w))
        w

  -- `stageDomainMutation`.
  unfoldable pub stage_domain_mutation : Options V → Option V → Exec V Replay
  unfolding append_domain_ledger
  stage_domain_mutation options payload w =
      if str_eq options.mutation_key ""
      then (throw, w)
      else stage_with (completed_ledger_record w.ledger options.mutation_key)
          (latest_ledger_record w.ledger options.mutation_key staged) options payload w
