-- ===== src/Apply/Gate.antt =====
-- When applyWorkflow of workflow-kernel/workflow-plugin.js changes a file.
use opencode_workflows.Prelude.{
  ◌≡◌, ◌≢◌, refl, ap, sym, ◌∙◌, ◌⊎◌, inl, inr, Bool, true, false, not, Option, none, some, List,
  ◌∷◌, ◌++◌, String, str_eq, eq_iff, Outcome, ok, throw, if◌then◌else◌, arith,
}
use opencode_workflows.Paths.{FilePath}
use opencode_workflows.Apply.{
  Error, refused, not_awaiting_approval, Host, World, RunState, Status, Io, ◌>>=◌, ◌>>◌, call,
  reading, require, takes_lock, Refusal, Call, Answer, continue, pure, throwing, ApplyRecord,
}
use opencode_workflows.Apply.Frames.{same_files, Keeps, Keeps-throwing}
use opencode_workflows.Apply.Looking.{finish_applied-Keeps}
use opencode_workflows.Apply.Approval.{
  Args, Entry, Plan, Approved, approved_hashes, lift, is_text, unless, mismatches, none_of,
  Mismatch, is_admitted, is_awaiting, is_applied, is_interrupted_recovery,
  apply_ledger_has_completed, run_lock_active,
}
use opencode_workflows.Locks.{LockState, active}
use opencode_workflows.Apply.Run.{Applied, apply_plan, apply_locked, apply_workflow}

-- The run is one whose plan may be written: its run lock was not read as active, its status awaits the plan, no record
-- says that the plan was completed, and the source, the plan, the base commit and the staged
-- mutations are those of the hashes that were approved.
pub record IsReleased (approved : Approved) (entry : Entry) (state : RunState)
    (ledger : List ApplyRecord) : Type 0 where
  pub plan : Plan
  pub plan_read : entry.plan ≡ ok plan
  pub not_active : entry.run_lock ≢ some active
  pub awaiting : is_awaiting state.status ≡ true
  pub not_completed : apply_ledger_has_completed ledger approved.plan_hash ≡ false
  pub source : state.source_hash ≡ approved.source_hash
  pub plan_approved : entry.plan_hash plan ≡ approved.plan_hash
  pub base : plan.base_commit ≡ some approved.base_commit
  pub domain : plan.domain_mutation_hash ≡ some approved.domain_hash
  pub domain_current : entry.domain_hash ≡ approved.domain_hash

not_active_lock : (lock : Option LockState) → not (run_lock_active lock) ≡ true → lock ≢ some active
not_active_lock lock h e =
    let bad : false ≡ true = ap (λ l. not (run_lock_active l)) (sym e) ∙ h in cc

is_text-eq : (o : Option String) (t : String) → is_text o t ≡ true → o ≡ some t
is_text-eq none t h = cc
is_text-eq (some s) t h = ap some ((eq_iff s t).0 h)

all_hold :
    (a b c d e : Bool) (m n o p q : Mismatch)
    → none_of (unless a m ++ unless b n ++ unless c o ++ unless d p ++ unless e q) ≡ true
    → (a ≡ true) × (b ≡ true) × (c ≡ true) × (d ≡ true) × (e ≡ true)
all_hold true true true true true m n o p q h = (refl, refl, refl, refl, refl)
all_hold true true true true false m n o p q h = cc
all_hold true true true false e m n o p q h = cc
all_hold true true false d e m n o p q h = cc
all_hold true false c d e m n o p q h = cc
all_hold false b c d e m n o p q h = cc

mismatches-none :
    (approved : Approved) (state : RunState) (entry : Entry) (plan : Plan)
    → none_of (mismatches approved state entry plan) ≡ true
    → (state.source_hash ≡ approved.source_hash)
      × (entry.plan_hash plan ≡ approved.plan_hash)
      × (plan.base_commit ≡ some approved.base_commit)
      × (plan.domain_mutation_hash ≡ some approved.domain_hash)
      × (plan.domain_mutation_hash ≡ some entry.domain_hash)
unfolding mismatches
mismatches-none approved state entry plan h =
    let (source, planned, base, domain, current) = all_hold _ _ _ _ _ _ _ _ _ _ h in
    (
      (eq_iff _ _).0 source,
      (eq_iff _ _).0 planned,
      is_text-eq plan.base_commit _ base,
      is_text-eq plan.domain_mutation_hash _ domain,
      is_text-eq plan.domain_mutation_hash _ current,
    )

-- Where code is run at one world: no file changes, or Q.
module _ {A : Type 0} (Q : Type 0) (w : World) where
  abbrev AtMost : Io A → Type 0
  AtMost m = ((m w).1.files ≡ w.files) ⊎ Q

  AtMost-require :
      (test : Bool) (r : Refusal) (m : Io A)
      → (test ≡ true → AtMost m)
      → AtMost (require test r >> m)
  unfolding require ◌>>=◌ pure throwing
  AtMost-require true r m h = h refl
  AtMost-require false r m h = inl refl

  AtMost-lift :
      {B : Type 0} (o : Outcome Error B) (f : B → Io A)
      → ((b : B) → o ≡ ok b → AtMost (f b))
      → AtMost (lift o >>= f)
  unfolding lift ◌>>=◌
  AtMost-lift (ok b) f h = h b refl
  AtMost-lift (throw e) f h = inl refl

  AtMost-reading :
      {B : Type 0} (g : World → B) (f : B → Io A) → AtMost (f (g w)) → AtMost (reading g >>= f)
  unfolding reading ◌>>=◌
  AtMost-reading g f h = h

  AtMost-if :
      (m n : Io A) (b : Bool)
      → (b ≡ true → AtMost m)
      → (b ≡ false → AtMost n)
      → AtMost (if b then m else n)
  AtMost-if m n true h k = h refl
  AtMost-if m n false h k = k refl

  AtMost-call :
      {B : Type 0} (c : Call) (answer : Answer B) (f : B → Io A)
      → ((b : B) → ((f b (record w { calls = c ∷ w.calls })).1.files ≡ w.files) ⊎ Q)
      → AtMost (call c answer >>= f)
  unfolding call ◌>>=◌
  AtMost-call {B} c answer f h = settle (answer (c ∷ w.calls))
    where
      settle :
          (r : Outcome Error B)
          → ((continue r f (record w { calls = c ∷ w.calls })).1.files ≡ w.files) ⊎ Q
      settle (ok b) = h b
      settle (throw e) = inl refl

admitted-awaiting :
    (status : Status)
    → is_admitted status ≡ true
    → is_applied status ≡ false
    → is_interrupted_recovery status ≡ false
    → is_awaiting status ≡ true
admitted-awaiting status h k l = ground (arith, h, k, l)

module _ (host : Host) (root : FilePath) (approved : Approved) (entry : Entry) where
  apply_plan-IsReleased :
      (w : World) (plan : Plan)
      → not (run_lock_active entry.run_lock) ≡ true
      → is_admitted w.state.status ≡ true
      → entry.plan ≡ ok plan
      → none_of (mismatches approved w.state entry plan) ≡ true
      → AtMost
          (IsReleased approved entry w.state w.ledger)
          w
          (apply_plan host root w.state w.ledger plan.patches (entry.plan_hash plan))
  unfolding apply_plan
  apply_plan-IsReleased w plan gone admitted read agree =
      let Q = IsReleased approved entry w.state w.ledger in
      let refused-Keeps : Keeps same_files
          (throwing {A = Applied} (refused not_awaiting_approval)) =
        Keeps-throwing (refused not_awaiting_approval) in
      let finish = finish_applied-Keeps {frame = same_files} host root plan.patches in
      let (source, planned, base, domain, current) =
        mismatches-none approved w.state entry plan agree in
      AtMost-if Q w _ _ (is_applied w.state.status) (λ done. inl (finish.keeps w))
        λ fresh.
          AtMost-if Q w _ _ (apply_ledger_has_completed w.ledger (entry.plan_hash plan))
            (λ done. inl (finish.keeps w))
            λ incomplete.
              AtMost-if Q w _ _ (is_interrupted_recovery w.state.status)
                (λ interrupted. inl (refused-Keeps.keeps w))
                λ direct. inr (record {
                  plan = plan;
                  plan_read = read;
                  not_active = not_active_lock entry.run_lock gone;
                  awaiting = admitted-awaiting w.state.status admitted fresh direct;
                  not_completed =
                      ap (apply_ledger_has_completed w.ledger) (sym planned) ∙ incomplete;
                  source = source;
                  plan_approved = planned;
                  base = base;
                  domain = domain;
                  domain_current = cc (domain, current);
                })

  apply_locked-IsReleased :
      (w : World)
      → AtMost
          (IsReleased approved entry w.state w.ledger)
          w
          (apply_locked host root approved entry)
  unfolding apply_locked
  apply_locked-IsReleased w =
      let Q = IsReleased approved entry w.state w.ledger in
      AtMost-require Q w (not (run_lock_active entry.run_lock)) _ _ λ gone.
        AtMost-reading Q w (λ v. v.state) _
          (AtMost-require Q w (is_admitted w.state.status) _ _ λ admitted.
            AtMost-lift Q w entry.plan _ λ plan read.
              AtMost-require Q w (none_of (mismatches approved w.state entry plan)) _ _ λ agree.
                AtMost-reading Q w (λ v. v.ledger) _
                  (apply_plan-IsReleased w plan gone admitted read agree))

-- An apply, whatever the host answers and whether it returns or throws, changes no file, or it is not
-- in plan mode, its intent is `apply`, its arguments give all four hashes, and the run is released for
-- these hashes: the run lock, if there was one, was read as stale, corrupt or
-- unreadable, the status awaits the plan, no record says that the plan was
-- completed, and source, plan, base commit and staged mutations are what the hashes say.
pub apply_workflow-IsReleased :
    (host : Host) (root : FilePath) (args : Args) (entry : Entry) (w : World)
    → ((apply_workflow host root args entry w).1.files ≡ w.files)
      ⊎ ((approved : Approved) × (args.in_plan_mode ≡ false)
          × (args.approval_intent ≡ "apply")
          × (approved_hashes args ≡ ok approved)
          × IsReleased approved entry w.state w.ledger)
unfolding apply_workflow
apply_workflow-IsReleased host root args entry w =
    let Q =
      (approved : Approved) × (args.in_plan_mode ≡ false)
      × (args.approval_intent ≡ "apply")
      × (approved_hashes args ≡ ok approved)
      × IsReleased approved entry w.state w.ledger in
    AtMost-require Q w (not args.in_plan_mode) _ _ λ outside.
      AtMost-require Q w (str_eq args.approval_intent "apply") _ _ λ intent.
        AtMost-lift Q w (approved_hashes args) _ λ approved given.
          AtMost-require Q w entry.valid _ _ λ valid.
            AtMost-call Q w takes_lock host.lock _ λ locked.
              elim (apply_locked-IsReleased host root approved entry
                (record w { calls = takes_lock ∷ w.calls })) [
                  | inl unchanged ↦ inl unchanged
                  | inr released ↦ inr (
                    approved,
                    ground (arith, outside),
                    (eq_iff args.approval_intent "apply").0 intent,
                    given,
                    released,
                  )
                ]
