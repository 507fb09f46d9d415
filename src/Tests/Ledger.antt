-- ===== src/Tests/Ledger.antt =====
-- A mutation of one key, with text payloads: its run dies before the record of its end.
use opencode_workflows.Prelude.{
  ◌≡◌, refl, ◌⊎◌, true, false, some, none, List, [], ◌∷◌, String, any, ◌&&◌, not, str_eq,
  find_first,
}
use mathlib.Core.List.{reverse}
use opencode_workflows.Prelude.Dict
use opencode_workflows.Ledger.{
  Record, started, executed, completed, staged, has_key, stage_records, completed_ledger_record,
  latest_ledger_record, incomplete_ledger_keys,
}
use opencode_workflows.Ledger.Mutation.{
  World, written, crash, Options, Outcome, ok, crashed, record_of, run_domain_mutation,
}
use opencode_workflows.Ledger.Once.{
  settles, announces, run_again, run_again-executions, run-executions,
}
use opencode_workflows.Ledger.Staging.{bears, staged_now, get-stage_records}
use opencode_workflows.Ledger.Incomplete.{ends, incomplete_ledger_keys_iff}

abbrev redact : String → String
redact text = text

abbrev derived : String → String
derived key = key

abbrev close_mutation : Options String
close_mutation = record {
  mutation_key = "item-7";
  operation = "";
  idempotency_key = none;
  execute = λ key. some "closed";
  readback = none;
}

abbrev fresh : World String
fresh = record { ledger = []; executions = []; fates = written ∷ written ∷ crash ∷ [] }

abbrev after_crash : World String
after_crash = record {
  ledger =
      record (record_of started close_mutation "domain-mutation") {
        idempotency_key = some "item-7";
      }
      ∷ record (record_of executed close_mutation "domain-mutation") {
        idempotency_key = some "item-7";
        result = some "closed";
      }
      ∷ [];
  executions = "item-7" ∷ [];
  fates = [];
}

first_run : run_domain_mutation redact derived close_mutation fresh ≡ (crashed, after_crash)
unfolding run_domain_mutation completed_ledger_record latest_ledger_record
first_run = refl

abbrev replayed_ok : Outcome String
replayed_ok = record {
  replayed = true;
  result = some "closed";
  readback = none;
  readback_error = false;
}

second_run : (run_domain_mutation redact derived close_mutation after_crash).0 ≡ ok replayed_ok
unfolding run_domain_mutation completed_ledger_record latest_ledger_record
second_run = refl

run_again-executions_example :
    (run_again redact derived
      ((close_mutation, crash ∷ []) ∷ (close_mutation, []) ∷ [])
      after_crash).executions
    ≡ "item-7" ∷ []
run_again-executions_example =
    run_again-executions redact derived "item-7"
      ((close_mutation, crash ∷ []) ∷ (close_mutation, []) ∷ []) after_crash refl (refl, (refl, tt))

run-executions_example :
    let w' = (run_domain_mutation redact derived close_mutation fresh).1 in
    (w'.executions ≡ [])
    ⊎ ((w'.executions ≡ "item-7" ∷ [])
        × (any (announces redact derived "item-7") w'.ledger ≡ true)
        × (any (settles "item-7") fresh.ledger ≡ false))
run-executions_example = run-executions redact derived close_mutation fresh

abbrev history : List (Record String)
history =
    record_of staged close_mutation "op"
    ∷ record_of completed close_mutation "op"
    ∷ record_of staged close_mutation "op"
    ∷ []

get-stage_records_example :
    Dict.get (stage_records [] history) "item-7"
    ≡ staged_now (find_first (bears "item-7") (reverse history))
get-stage_records_example = get-stage_records history "item-7"

incomplete_ledger_keys_iff_example :
    any (str_eq "item-7") (incomplete_ledger_keys after_crash.ledger)
    ≡ (any (has_key "item-7") after_crash.ledger && not (any (ends "item-7") after_crash.ledger))
incomplete_ledger_keys_iff_example = incomplete_ledger_keys_iff after_crash.ledger "item-7"
