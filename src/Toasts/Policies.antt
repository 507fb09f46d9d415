-- ===== src/Toasts/Policies.antt =====
-- What each policy of workflow-kernel/notification-toast-policy.js does to the failures of lanes.
use opencode_workflows.Prelude.{
  ◌≡◌, refl, ◌∙◌, inl, inr, ℕ, ◌+◌, String, Option, none, some, List, [], ◌∷◌, eq_iff, arith,
  if◌then◌else◌, Bool-cases, not, ◌&&◌, ◌||◌,
}
use opencode_workflows.Prelude.Dict
use opencode_workflows.Prelude.Dict.{Dict, get-remove, IsMap-remove, IsMap-put}
use opencode_workflows.Toasts.{
  Event, Staleness, Snapshot, Pending, State, Options, Decision, count_of, one_more, reached,
  is_signature, is_overdue, force_ms_of, is_lane_failure, and_then, stall_of,
  evaluate_workflow_heartbeat_policy, evaluate_budget_policy, evaluate_failure_policy,
  flush_entries, flush_workflow_toast_policy, problem_ready, mark_problem, cooldown_of,
  failure_category, pending_failure, add_pending_failure, lane_failure_problem,
}
use opencode_workflows.Toasts.Waiting.{
  reported, waiting, reported-append, waiting-put, waiting-remove, one_more-count,
}

-- What a policy does to a state in which every key stands once, when so many failures arrive.
abbrev pub Conserves : ℕ → State → State × List Decision → Type 0
Conserves n s r =
    Dict.IsMap r.0.pending_failures
    × (reported r.1 + waiting r.0.pending_failures ≡ waiting s.pending_failures + n)

pub Conserves-and_then :
    (n m : ℕ) (s : State) (r : State × List Decision) (next : State → State × List Decision)
    → Conserves n s r
    → ((t : State) → Dict.IsMap t.pending_failures → Conserves m t (next t))
    → Conserves (n + m) s (and_then r next)
Conserves-and_then n m s r next h k =
    let (p, q) = k r.0 h.0 in (p, omega (arith, q, h.1, reported-append r.1 (next r.0).1))

pub budget-Conserves :
    (s : State) (snapshot : Snapshot)
    → Dict.IsMap s.pending_failures
    → Conserves 0 s (evaluate_budget_policy s snapshot)
unfolding evaluate_budget_policy
budget-Conserves s snapshot m =
    elim (Bool-cases (reached snapshot.budget_percent 100 && not s.budget_100)) [
      | inl e ↦ rw e (m, omega arith)
      | inr e ↦ elim (Bool-cases (reached snapshot.budget_percent 80 && not s.budget_80)) [
        | inl f ↦ rw (e, f) (m, omega arith)
        | inr f ↦ rw (e, f) (m, omega arith)
      ]
    ]

pub stall-Conserves :
    (s : State) (snapshot : Snapshot) (options : Options) (now : ℕ) (st : Option Staleness)
    → Dict.IsMap s.pending_failures
    → Conserves 0 s (stall_of s snapshot options now st)
unfolding mark_problem
stall-Conserves s snapshot options now none m = (m, omega arith)
stall-Conserves s snapshot options now (some st) m =
    elim (Bool-cases (st.stale && problem_ready s "stall" now (cooldown_of options))) [
      | inl e ↦ rw e (m, omega arith)
      | inr e ↦ rw e (m, omega arith)
    ]

pub heartbeat-Conserves :
    (s : State) (options : Options) (now : ℕ)
    → Dict.IsMap s.pending_failures
    → Conserves 0 s (evaluate_workflow_heartbeat_policy s options now)
unfolding evaluate_workflow_heartbeat_policy
heartbeat-Conserves s options now m =
    elim (Bool-cases (
      not (is_signature s.last_heartbeat_signature options.signature)
      || (options.force || is_overdue s.last_heartbeat_at now (force_ms_of options)))) [
        | inl e ↦ rw e (m, omega arith)
        | inr e ↦ rw e (m, omega arith)
      ]

pub failure-Conserves :
    (s : State) (event : Event) (snapshot : Snapshot) (options : Options) (now : ℕ)
    → Dict.IsMap s.pending_failures
    → Conserves
        (if is_lane_failure event then 1 else 0)
        s
        (evaluate_failure_policy s event snapshot options now)
unfolding evaluate_failure_policy pending_failure add_pending_failure mark_problem
    lane_failure_problem
failure-Conserves s event snapshot options now m =
    let key = failure_category snapshot in
    let taken = waiting-remove s.pending_failures key m in
    let kept = one_more-count (Dict.get s.pending_failures key) event in
    let put =
      waiting-put s.pending_failures key (one_more (Dict.get s.pending_failures key) event) in
    elim (Bool-cases (is_lane_failure event)) [
      | inr e ↦ rw e (m, omega arith)
      | inl e ↦ elim (Bool-cases (problem_ready s key now (cooldown_of options))) [
        | inl f ↦ rw (e, f) (IsMap-remove s.pending_failures key m, omega (arith, taken))
        | inr f ↦ rw (e, f) (IsMap-put s.pending_failures key _ m, omega (arith, put, kept))
      ]
    ]

-- The entries that a loop still has to visit are those of the state.
abbrev AreEntries : Dict Pending → State → Type 0
AreEntries [] s = Unit
AreEntries ((key, p) ∷ entries) s =
    (Dict.get s.pending_failures key ≡ some p) × AreEntries entries s

AreEntries-remove :
    (entries : Dict Pending) (s t : State) (key : String)
    → t.pending_failures ≡ Dict.remove s.pending_failures key
    → Dict.IsFresh key entries
    → AreEntries entries s
    → AreEntries entries t
AreEntries-remove [] s t key h f a = tt
AreEntries-remove ((j, p) ∷ entries) s t key h f a = (
  rw h (get-remove s.pending_failures key j ∙ ground (arith, f.0, a.0, eq_iff j key, eq_iff key j)),
  AreEntries-remove entries s t key h f.1 a.1,
)

AreEntries-cons :
    (entries : Dict Pending) (s : State) (t : State) (key : String) (p : Pending)
    → t.pending_failures ≡ (key, p) ∷ s.pending_failures
    → Dict.IsFresh key entries
    → AreEntries entries s
    → AreEntries entries t
unfolding Dict.get
AreEntries-cons [] s t key p h f a = tt
AreEntries-cons ((j, q) ∷ entries) s t key p h f a = (
  rw h (ground (arith, f.0, a.0, eq_iff j key, eq_iff key j)),
  AreEntries-cons entries s t key p h f.1 a.1,
)

AreEntries-self :
    (d : Dict Pending) (s : State) → s.pending_failures ≡ d → Dict.IsMap d → AreEntries d s
unfolding Dict.get
AreEntries-self [] s h m = tt
AreEntries-self ((key, p) ∷ d) s h m = (
  rw h (ground (arith, eq_iff key key)),
  AreEntries-cons d (record s { pending_failures = d }) s key p h m.0
      (AreEntries-self d (record s { pending_failures = d }) refl m.1),
)

flush_entries-Conserves :
    (entries : Dict Pending) (s : State) (snapshot : Snapshot) (options : Options) (now : ℕ)
    → Dict.IsMap entries
    → Dict.IsMap s.pending_failures
    → AreEntries entries s
    → Conserves 0 s (flush_entries entries s snapshot options now)
unfolding flush_entries mark_problem lane_failure_problem
flush_entries-Conserves [] s snapshot options now u m a = (m, omega arith)
flush_entries-Conserves ((key, p) ∷ entries) s snapshot options now u m a =
    let t : State =
      mark_problem (record s { pending_failures = Dict.remove s.pending_failures key }) key now in
    let taken = waiting-remove s.pending_failures key m in
    let flushed =
      flush_entries-Conserves entries t snapshot options now u.1
        (IsMap-remove s.pending_failures key m) (AreEntries-remove entries s t key refl u.0 a.1) in
    let skipped = flush_entries-Conserves entries s snapshot options now u.1 m a.1 in
    let count : count_of (Dict.get s.pending_failures key) ≡ p.count = rw a.0 refl in
    elim (Bool-cases (problem_ready s key now (cooldown_of options))) [
      | inl e ↦ rw e (flushed.0, omega (arith, flushed.1, taken, count))
      | inr e ↦ rw e skipped
    ]

pub flush-Conserves :
    (s : State) (snapshot : Snapshot) (options : Options) (now : ℕ)
    → Dict.IsMap s.pending_failures
    → Conserves 0 s (flush_workflow_toast_policy s snapshot options now)
unfolding flush_workflow_toast_policy
flush-Conserves s snapshot options now m =
    flush_entries-Conserves s.pending_failures s snapshot options now m m
      (AreEntries-self s.pending_failures s refl m)
