-- ===== src/Apply/Approval.antt =====
-- What applyWorkflow of workflow-kernel/workflow-plugin.js is given and reads of the run, and the hashes and
-- statuses that it compares.
use opencode_workflows.Prelude.{
  String, Bool, true, false, ◌||◌, Option, none, some, List, [], ◌∷◌, ◌++◌, str_eq, any, Outcome,
  ok, throw,
}
use opencode_workflows.Apply.{
  Error, refused, Status, awaiting_diff_approval, apply_failed, failed_with_diff_plan, interrupted,
  stale_active, applied, ApplyRecord, completed, RunState, Io, missing_hashes,
}
use opencode_workflows.Apply.Targets.{RawPatch}
use opencode_workflows.Locks.{LockState, active}

-- The four hashes; one that is not a text is `none`.
pub record Hashes : Type 0 where
  pub approved_source_hash : Option String
  pub base_commit : Option String
  pub diff_plan_hash : Option String
  pub domain_mutation_hash : Option String

-- `applyBundle`, if it is not empty, is what decodeApplyBundle makes of it.
pub record Args : Type 0 where
  pub in_plan_mode : Bool
  pub approval_intent : String
  pub apply_bundle : Option (Outcome Error Hashes)
  pub hashes : Hashes

pub record Plan : Type 0 where
  pub patches : List RawPatch
  pub base_commit : Option String
  pub domain_mutation_hash : Option String

-- What the run store holds of the run: whether its entry is valid, how its run lock was read, if
-- there is one, diff-plan.json, the plan's hash, and the hash of the staged domain mutations.
pub record Entry : Type 0 where
  pub valid : Bool
  pub run_lock : Option LockState
  pub plan : Outcome Error Plan
  pub plan_hash : Plan → String
  pub domain_hash : String

-- `runLock?.active`: a lock that cannot be read is not active.
abbrev pub run_lock_active : Option LockState → Bool
run_lock_active (some active) = true
run_lock_active how = false

abbrev pub or_decoded : Option String → Option String → Option String
or_decoded none decoded = decoded
or_decoded (some given) decoded = some given

-- The fields that are given override those of the bundle.
unfoldable pub merge_hashes : Hashes → Hashes → Hashes
merge_hashes given decoded = record {
  approved_source_hash = or_decoded given.approved_source_hash decoded.approved_source_hash;
  base_commit = or_decoded given.base_commit decoded.base_commit;
  diff_plan_hash = or_decoded given.diff_plan_hash decoded.diff_plan_hash;
  domain_mutation_hash = or_decoded given.domain_mutation_hash decoded.domain_mutation_hash;
}

-- The hashes that are all texts.
pub record Approved : Type 0 where
  pub source_hash : String
  pub base_commit : String
  pub plan_hash : String
  pub domain_hash : String

abbrev pub all_four :
    Option String → Option String → Option String → Option String → Outcome Error Approved
all_four (some source) (some base) (some plan) (some domain) =
    ok (record { source_hash = source; base_commit = base; plan_hash = plan; domain_hash = domain })
all_four (some source) (some base) (some plan) none = throw (refused missing_hashes)
all_four (some source) (some base) none domain = throw (refused missing_hashes)
all_four (some source) none plan domain = throw (refused missing_hashes)
all_four none base plan domain = throw (refused missing_hashes)

unfoldable pub lift : {A : Type 0} → Outcome Error A → Io A
lift r w = (r, w)

abbrev pub decoded_hashes : Hashes → Option (Outcome Error Hashes) → Outcome Error Hashes
decoded_hashes given none = ok given
decoded_hashes given (some (ok decoded)) = ok (merge_hashes given decoded)
decoded_hashes given (some (throw e)) = throw e

abbrev pub required_hashes : Outcome Error Hashes → Outcome Error Approved
required_hashes (throw e) = throw e
required_hashes (ok hashes) =
    all_four hashes.approved_source_hash hashes.base_commit hashes.diff_plan_hash
      hashes.domain_mutation_hash

unfoldable pub approved_hashes : Args → Outcome Error Approved
unfolding merge_hashes
approved_hashes args = required_hashes (decoded_hashes args.hashes args.apply_bundle)

abbrev pub is_text : Option String → String → Bool
is_text none text = false
is_text (some value) text = str_eq value text

-- `allMismatches`, by their reasons.
pub data Mismatch : Type 0 where
  approved_source_hash_mismatch diff_plan_hash_mismatch base_commit_mismatch : Mismatch
  domain_mutation_hash_mismatch staged_domain_mutations_changed : Mismatch

abbrev pub unless : Bool → Mismatch → List Mismatch
unless true m = []
unless false m = m ∷ []

unfoldable pub mismatches : Approved → RunState → Entry → Plan → List Mismatch
mismatches approved state entry plan =
    unless (str_eq state.source_hash approved.source_hash) approved_source_hash_mismatch
    ++ unless (str_eq (entry.plan_hash plan) approved.plan_hash) diff_plan_hash_mismatch
    ++ unless (is_text plan.base_commit approved.base_commit) base_commit_mismatch
    ++ unless (is_text plan.domain_mutation_hash approved.domain_hash) domain_mutation_hash_mismatch
    ++ unless (is_text plan.domain_mutation_hash entry.domain_hash) staged_domain_mutations_changed

abbrev pub none_of : List Mismatch → Bool
none_of [] = true
none_of (m ∷ ms) = false

unfoldable pub is_interrupted_recovery : Status → Bool
is_interrupted_recovery interrupted = true
is_interrupted_recovery stale_active = true
is_interrupted_recovery status = false

unfoldable pub is_applied : Status → Bool
is_applied applied = true
is_applied status = false

-- The statuses from which a plan is written.
unfoldable pub is_awaiting : Status → Bool
is_awaiting awaiting_diff_approval = true
is_awaiting apply_failed = true
is_awaiting failed_with_diff_plan = true
is_awaiting status = false

abbrev pub is_admitted : Status → Bool
is_admitted status = is_applied status || is_awaiting status || is_interrupted_recovery status

abbrev pub completes : String → ApplyRecord → Bool
completes plan_hash (completed hash) = str_eq hash plan_hash
completes plan_hash record_ = false

-- `applyLedgerHasCompleted`.
unfoldable pub apply_ledger_has_completed : List ApplyRecord → String → Bool
apply_ledger_has_completed ledger plan_hash = any (completes plan_hash) ledger
