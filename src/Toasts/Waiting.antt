-- ===== src/Toasts/Waiting.antt =====
-- How many failures of lanes wait in the state of workflow-kernel/notification-toast-policy.js, and how
-- many its toasts tell of.
use opencode_workflows.Prelude.{
  ◌≡◌, refl, subst, inl, inr, ℕ, ◌+◌, String, Option, none, some, List, [], ◌∷◌, ◌++◌, str_eq,
  eq_iff, arith, Bool-cases,
}
use opencode_workflows.Prelude.Dict
use opencode_workflows.Prelude.Dict.{Dict, get-remove, IsMap-remove, IsMap-put}
use opencode_workflows.Toasts.{
  Event, Pending, Decision, heartbeat, budget_exhausted, budget_warning, stalled, lane_failure,
  count_of, one_more,
}

-- The failures that the toasts tell of.
abbrev pub reported : List Decision → ℕ
reported [] = 0
reported (lane_failure f ∷ ds) = f.count + reported ds
reported (heartbeat ∷ ds) = reported ds
reported (budget_exhausted ∷ ds) = reported ds
reported (budget_warning ∷ ds) = reported ds
reported (stalled idle_ms idle_lane_count ∷ ds) = reported ds

-- The failures that wait.
abbrev pub waiting : Dict Pending → ℕ
waiting [] = 0
waiting ((key, p) ∷ d) = p.count + waiting d

pub reported-append : (xs ys : List Decision) → reported (xs ++ ys) ≡ reported xs + reported ys
reported-append [] ys = omega arith
reported-append (lane_failure f ∷ xs) ys = omega (arith, reported-append xs ys)
reported-append (heartbeat ∷ xs) ys = reported-append xs ys
reported-append (budget_exhausted ∷ xs) ys = reported-append xs ys
reported-append (budget_warning ∷ xs) ys = reported-append xs ys
reported-append (stalled m n ∷ xs) ys = reported-append xs ys

pub waiting-put :
    (d : Dict Pending) (k : String) (p : Pending)
    → waiting (Dict.put d k p) + count_of (Dict.get d k) ≡ waiting d + p.count
unfolding Dict.put Dict.get
waiting-put [] k p = omega arith
waiting-put ((j, q) ∷ d) k p = elim (Bool-cases (str_eq j k)) [
  | inl e ↦ rw e (omega arith)
  | inr e ↦ rw e (omega (arith, waiting-put d k p))
]

get-fresh : (d : Dict Pending) (k : String) → Dict.IsFresh k d → Dict.get d k ≡ none
unfolding Dict.get
get-fresh [] k f = refl
get-fresh ((j, q) ∷ d) k f = rw f.0 (get-fresh d k f.1)

waiting-remove_fresh :
    (d : Dict Pending) (k : String) → Dict.IsFresh k d → waiting (Dict.remove d k) ≡ waiting d
unfolding Dict.remove
waiting-remove_fresh [] k f = refl
waiting-remove_fresh ((j, q) ∷ d) k f = rw f.0 (omega (arith, waiting-remove_fresh d k f.1))

pub waiting-remove :
    (d : Dict Pending) (k : String)
    → Dict.IsMap d
    → waiting (Dict.remove d k) + count_of (Dict.get d k) ≡ waiting d
unfolding Dict.remove Dict.get
waiting-remove [] k m = refl
waiting-remove ((j, q) ∷ d) k m = elim (Bool-cases (str_eq j k)) [
  | inl e ↦
      let same : j ≡ k = (eq_iff j k).0 e in
      let gone : waiting (Dict.remove d k) ≡ waiting d =
        waiting-remove_fresh d k (subst (λ i. Dict.IsFresh i d) same m.0) in
      rw e (omega (arith, gone))
  | inr e ↦ rw e (omega (arith, waiting-remove d k m.1))
]

pub one_more-count :
    (o : Option Pending) (event : Event) → (one_more o event).count ≡ count_of o + 1
one_more-count none event = refl
one_more-count (some p) event = refl
