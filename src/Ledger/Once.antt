-- ===== src/Ledger/Once.antt =====
-- A domain mutation is executed at most once after its execution has been recorded, whatever
-- appends are refused and wherever the process dies.
use opencode_workflows.Prelude.{
  ◌≡◌, refl, ◌⊎◌, inl, inr, subst, sym, ◌∙◌, String, Bool, true, false, ◌||◌, ◌&&◌, Option, none,
  some, List, [], ◌∷◌, ◌++◌, arith, any, All, str_eq, eq_refl, Option-cases,
}
use opencode_workflows.Ledger.{
  Record, phase_eq, has_key, started, executed, completed, completed_ledger_record,
  latest_ledger_record,
}
use opencode_workflows.Ledger.Lookup.{any-append_lem, any_of_find, found-any}
use opencode_workflows.Ledger.Mutation.{
  World, Fate, Options, Outcome, ok, run_domain_mutation, start_mutation,
  complete_domain_mutation_readback, chosen_key,
}

-- The ledger says that the mutation of this key was executed.
abbrev pub settles : {V : Type 0} → String → Record V → Bool
settles key r = has_key key r && (phase_eq r.phase executed || phase_eq r.phase completed)

module _ {V : Type 0} (redact : V → V) (key_of : String → String) where
  abbrev pub IsSettled : String → World V → Type 0
  IsSettled key w = any (settles key) w.ledger ≡ true

  -- What a started record says.
  abbrev pub announces : String → Record V → Bool
  announces key r =
      phase_eq r.phase started && elim r.idempotency_key [ none ↦ false | some k ↦ str_eq k key ]

  start-executions :
      (options : Options V) (w : World V)
      → let w' = (start_mutation redact key_of options w).1 in
        let key = chosen_key redact key_of options in
        (w'.executions ≡ w.executions)
        ⊎ ((w'.executions ≡ w.executions ++ key ∷ []) × (any (announces key) w'.ledger ≡ true))
  unfolding start_mutation
  start-executions options w = grind (arith, any-append_lem, eq_refl)

  -- A readback only adds a completed record.
  readback-IsSettled :
      (options : Options V) (operation : String) (result : Option V) (replayed : Bool) (w : World V)
      → let w' =
          (complete_domain_mutation_readback redact key_of options operation result replayed w).1 in
        IsSettled options.mutation_key w
        → (w'.executions ≡ w.executions) × IsSettled options.mutation_key w'
  unfolding complete_domain_mutation_readback
  readback-IsSettled options operation result replayed w s = grind (arith, any-append_lem, eq_refl)

  not_settled :
      (key : String) (rs : List (Record V))
      → completed_ledger_record rs key ≡ none
      → latest_ledger_record rs key executed ≡ none
      → any (settles key) rs ≡ false
  unfolding completed_ledger_record latest_ledger_record
  not_settled key rs c e =
      any-or rs (any_of_find (λ r. has_key key r && phase_eq r.phase completed) rs c)
        (any_of_find (λ r. has_key key r && phase_eq r.phase executed) rs e)
    where
      any-or :
          (rs : List (Record V))
          → any (λ r. has_key key r && phase_eq r.phase completed) rs ≡ false
          → any (λ r. has_key key r && phase_eq r.phase executed) rs ≡ false
          → any (settles key) rs ≡ false
      any-or [] a b = refl
      any-or (r ∷ rs) a b = ground (arith, any-or rs)

  any-settles :
      (key : String) (p : Record V → Bool)
      → ((r : Record V) → p r ≡ true → settles key r ≡ true)
      → (rs : List (Record V)) → any p rs ≡ true
      → any (settles key) rs ≡ true
  any-settles key p h [] a = cc
  any-settles key p h (r ∷ rs) a = ground (arith, h r, any-settles key p h rs)

  completed-settles :
      (key : String) (rs : List (Record V)) {r : Record V}
      → completed_ledger_record rs key ≡ some r
      → any (settles key) rs ≡ true
  unfolding completed_ledger_record
  completed-settles key rs h = any-settles key _ (λ r k. ground arith) rs (found-any _ rs h).0

  executed-settles :
      (key : String) (rs : List (Record V)) {r : Record V}
      → latest_ledger_record rs key executed ≡ some r
      → any (settles key) rs ≡ true
  unfolding latest_ledger_record
  executed-settles key rs h = any-settles key _ (λ r k. ground arith) rs (found-any _ rs h).0

  start-ok :
      (options : Options V) (w : World V) (out : Outcome V)
      → (start_mutation redact key_of options w).0 ≡ ok out
      → IsSettled options.mutation_key (start_mutation redact key_of options w).1
  unfolding start_mutation
  start-ok options w out h = grind (arith, any-append_lem, eq_refl)

  readback-executions :
      (options : Options V) (operation : String) (result : Option V) (replayed : Bool) (w : World V)
      → (complete_domain_mutation_readback redact key_of options operation result replayed
          w).1.executions
        ≡ w.executions
  unfolding complete_domain_mutation_readback
  readback-executions options operation result replayed w = ground arith

  run-IsSettled :
      (options : Options V) (w : World V)
      → IsSettled options.mutation_key w
      → let w' = (run_domain_mutation redact key_of options w).1 in
        (w'.executions ≡ w.executions) × IsSettled options.mutation_key w'
  unfolding run_domain_mutation
  run-IsSettled options w s =
      elim (Option-cases (completed_ledger_record w.ledger options.mutation_key)) [
        | inr (r, c) ↦ ground arith
        | inl c ↦
            elim (Option-cases (latest_ledger_record w.ledger options.mutation_key executed)) [
              | inr (r, e) ↦
                  let k = readback-IsSettled options r.operation r.result true w s in
                  ground (arith, k)
              | inl e ↦ let n = not_settled options.mutation_key w.ledger c e in cc (n, s)
            ]
      ]

  -- Processes that run mutations one after the other, each with its own schedule of appends.
  unfoldable pub run_again : List (Options V × List Fate) → World V → World V
  run_again [] w = w
  run_again ((options, fates) ∷ rest) w =
      run_again rest (run_domain_mutation redact key_of options (record w { fates = fates })).1

  -- Once the ledger says that a mutation was executed or completed, no later run of its key executes
  -- it again, whatever the options of the runs, the appends that are refused and the crashes.
  pub run_again-executions :
      (key : String) (runs : List (Options V × List Fate)) (w : World V)
      → IsSettled key w
      → All (λ run. run.0.mutation_key ≡ key) runs
      → (run_again runs w).executions ≡ w.executions
  unfolding run_again
  run_again-executions key [] w s same = refl
  run_again-executions key ((options, fates) ∷ runs) w s same =
      let w1 = record w { fates = fates } in
      let (k, s') = run-IsSettled options w1 (subst (λ k. IsSettled k w) (sym same.0) s) in
      run_again-executions key runs (run_domain_mutation redact key_of options w1).1
        (subst (λ k. IsSettled k (run_domain_mutation redact key_of options w1).1) same.0 s') same.1
      ∙ k

  -- One run adds at most one execution. It uses the run's idempotency key, the one that is given if it is
  -- not empty and otherwise the one derived from the mutation key; a started record with that key is then
  -- in the ledger, and before the run the ledger had no executed and no completed record of the mutation.
  pub run-executions :
      (options : Options V) (w : World V)
      → let w' = (run_domain_mutation redact key_of options w).1 in
        let key = chosen_key redact key_of options in
        (w'.executions ≡ w.executions)
        ⊎ ((w'.executions ≡ w.executions ++ key ∷ [])
            × (any (announces key) w'.ledger ≡ true)
            × (any (settles options.mutation_key) w.ledger ≡ false))
  unfolding run_domain_mutation
  run-executions options w =
      elim (Option-cases (completed_ledger_record w.ledger options.mutation_key)) [
        | inr (r, c) ↦ ground arith
        | inl c ↦
            elim (Option-cases (latest_ledger_record w.ledger options.mutation_key executed)) [
              | inr (r, e) ↦
                  let k = readback-executions options r.operation r.result true w in ground arith
              | inl e ↦
                  let n = not_settled options.mutation_key w.ledger c e in
                  let k = start-executions options w in ground arith
            ]
      ]

  -- A run that returns has recorded the execution.
  returns-IsSettled :
      (options : Options V) (w : World V) (out : Outcome V)
      → (run_domain_mutation redact key_of options w).0 ≡ ok out
      → IsSettled options.mutation_key (run_domain_mutation redact key_of options w).1
  unfolding run_domain_mutation
  returns-IsSettled options w out h =
      elim (Option-cases (completed_ledger_record w.ledger options.mutation_key)) [
        | inr (r, c) ↦
            let k = completed-settles options.mutation_key w.ledger c in ground (arith, k)
        | inl c ↦
            elim (Option-cases (latest_ledger_record w.ledger options.mutation_key executed)) [
              | inr (r, e) ↦
                  let s = executed-settles options.mutation_key w.ledger e in
                  let k = (readback-IsSettled options r.operation r.result true w s).1 in
                  ground (arith, k)
              | inl e ↦ let k = start-ok options w out in ground (arith, k)
            ]
      ]
