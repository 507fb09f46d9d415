-- ===== src/Agents/Invariant.antt =====
-- No slot is lost and none is given twice, in whatever order the lanes run.
use opencode_workflows.Prelude.{
  ℕ, zero, suc, ◌+◌, ◌≤◌, ◌≡◌, refl, ◌⊎◌, true, false, List, [], ◌∷◌, length, length-append, arith,
  some, String, inl, inr, Option-cases, Bool, not, keep,
}
use opencode_workflows.Agents.{
  release_agent_slot, acquire_agent_slot, resume_agent, in_scope, abort_run, cancel_fanout_siblings,
}
use opencode_workflows.Agents.Schedule.{
  World, Event, acquire, resume, release, abort, cancel_scope, step, run, drop_at, get_elem?,
}

pub record IsAccounted (w : World) : Type 0 where
  pub owned : w.active_agents ≡ length w.resumed + length w.holders
  pub bounded : w.active_agents ≤ w.concurrency
  pub full_if_waiting : (w.waiting_agents ≡ []) ⊎ (w.active_agents ≡ w.concurrency)
  pub none_after_abort : w.aborted ≡ true → w.waiting_agents ≡ []

length-drop_at :
    (n : ℕ) (xs : List String) {x : String}
    → get_elem? xs n ≡ some x
    → suc (length (drop_at n xs)) ≡ length xs
length-drop_at n [] h = cc
length-drop_at zero (x ∷ xs) h = refl
length-drop_at (suc n) (x ∷ xs) h = omega (arith, length-drop_at n xs h)

keep-nil : (p : String → Bool) {xs : List String} → xs ≡ [] → keep p xs ≡ []
keep-nil p h = rw h

keep-none : (xs : List String) → keep (λ _. false) xs ≡ []
keep-none [] = refl
keep-none (x ∷ xs) = keep-none xs

acquire-IsAccounted : (w : World) (c : String) → IsAccounted w → IsAccounted (step w (acquire c))
unfolding step acquire_agent_slot
acquire-IsAccounted w c h = ground arith

resume-with :
    (w : World) (rs ws : List String)
    → w.resumed ≡ rs
    → w.waiting_agents ≡ ws
    → IsAccounted w
    → IsAccounted (step w resume)
unfolding step resume_agent release_agent_slot
resume-with w [] ws e f h = ground arith
resume-with w (c ∷ rest) [] e f h = ground (arith, length-append rest [])
resume-with w (c ∷ rest) (n ∷ more) e f h =
    ground (arith, length-append rest [], length-append rest (n ∷ []))

release-with :
    (w : World) (n : ℕ) (ws : List String)
    → w.waiting_agents ≡ ws
    → IsAccounted w
    → IsAccounted (step w (release n))
unfolding step release_agent_slot
release-with w n [] f h = elim (Option-cases (get_elem? w.holders n)) [
  | inl e ↦ rw e h
  | inr (x, e) ↦ ground (arith, length-append w.resumed [], length-drop_at n w.holders e)
]
release-with w n (next ∷ more) f h = elim (Option-cases (get_elem? w.holders n)) [
  | inl e ↦ rw e h
  | inr (x, e) ↦ ground (arith, length-append w.resumed (next ∷ []), length-drop_at n w.holders e)
]

pub step-IsAccounted : (w : World) (e : Event) → IsAccounted w → IsAccounted (step w e)
unfolding step abort_run cancel_fanout_siblings
step-IsAccounted w (acquire c) h = acquire-IsAccounted w c h
step-IsAccounted w resume h = resume-with w w.resumed w.waiting_agents refl refl h
step-IsAccounted w (release n) h = release-with w n w.waiting_agents refl h
step-IsAccounted w abort h = record {
  owned = h.owned;
  bounded = h.bounded;
  full_if_waiting = inl (keep-none w.waiting_agents);
  none_after_abort = λ _. keep-none w.waiting_agents;
}
step-IsAccounted w (cancel_scope s) h = record {
  owned = h.owned;
  bounded = h.bounded;
  full_if_waiting = ground (
    arith,
    h.full_if_waiting,
    keep-nil (λ waiter. not (in_scope waiter s)) {xs = w.waiting_agents},
  );
  none_after_abort = λ a. keep-nil _ (h.none_after_abort a);
}

-- Whatever the order of acquisitions, continuations, releases, aborts and fan-out cancellations, the
-- counter of active agents is the number of lanes that own a slot, resolved or running; it never
-- passes the concurrency limit; a lane waits only while every slot is owned; and an aborted run has
-- no waiter.
pub run-IsAccounted : (w : World) (es : List Event) → IsAccounted w → IsAccounted (run w es)
unfolding run
run-IsAccounted w [] h = h
run-IsAccounted w (e ∷ es) h = run-IsAccounted (step w e) es (step-IsAccounted w e h)
