-- ===== src/Agents/Progress.antt =====
-- Waiters are served in order, and an aborted run gives all its slots back.
use mathlib.Core.List.{append-nil, append_assoc}
use opencode_workflows.Prelude.{
  ℕ, zero, suc, ◌≤◌, ◌≡◌, refl, true, List, [], ◌∷◌, ◌++◌, length, arith, String, ◌∙◌, ap, sym,
}
use opencode_workflows.Agents.{release_agent_slot, resume_agent, abort_run}
use opencode_workflows.Agents.Schedule.{World, Event, resume, release, abort, step, run}
use opencode_workflows.Agents.Invariant.{IsAccounted, step-IsAccounted}

abbrev pub replicate : ℕ → Event → List Event
replicate zero e = []
replicate (suc n) e = e ∷ replicate n e

run-append : (w : World) (xs ys : List Event) → run w (xs ++ ys) ≡ run (run w xs) ys
unfolding run
run-append w [] ys = refl
run-append w (x ∷ xs) ys = run-append (step w x) xs ys

-- One release hands the slot to the first waiter.
release-first :
    (w : World) (hs : List String) (h next : String) (more : List String)
    → w.holders ≡ h ∷ hs
    → w.waiting_agents ≡ next ∷ more
    → ((step w (release 0)).waiting_agents ≡ more)
      × ((step w (release 0)).resumed ≡ w.resumed ++ next ∷ [])
      × ((step w (release 0)).holders ≡ hs)
unfolding step release_agent_slot
release-first w hs h next more e f = ground arith

-- As many releases as there are waiters hand the slots over in the order in which the lanes queued.
pub releases_in_order :
    (ws hs : List String) (w : World)
    → w.waiting_agents ≡ ws
    → w.holders ≡ hs
    → length ws ≤ length hs
    → ((run w (replicate (length ws) (release 0))).resumed ≡ w.resumed ++ ws)
      × ((run w (replicate (length ws) (release 0))).waiting_agents ≡ [])
unfolding run
releases_in_order [] hs w e f l = (sym (append-nil w.resumed), e)
releases_in_order (x ∷ ws) [] w e f l = absurd (omega arith)
releases_in_order (x ∷ ws) (h ∷ hs) w e f l =
    let (e', r, f') = release-first w hs h x ws f e in
    let (more, done) = releases_in_order ws hs (step w (release 0)) e' f' (omega arith) in
    (more ∙ ap (λ rs. rs ++ ws) r ∙ append_assoc w.resumed (x ∷ []) ws, done)

-- A lane that resumes in an aborted run gives its slot back and becomes no holder.
resume-aborted :
    (w : World) (c : String) (rest : List String)
    → w.resumed ≡ c ∷ rest
    → w.aborted ≡ true
    → w.waiting_agents ≡ []
    → ((step w resume).resumed ≡ rest)
      × ((step w resume).holders ≡ w.holders)
      × ((step w resume).aborted ≡ true)
unfolding step resume_agent release_agent_slot
resume-aborted w c rest e a n = ground (arith, append-nil rest)

release-aborted :
    (w : World) (h : String) (hs : List String)
    → w.holders ≡ h ∷ hs
    → w.aborted ≡ true
    → w.waiting_agents ≡ []
    → ((step w (release 0)).holders ≡ hs)
      × ((step w (release 0)).resumed ≡ w.resumed)
      × ((step w (release 0)).aborted ≡ true)
unfolding step release_agent_slot
release-aborted w h hs e a n = ground (arith, append-nil w.resumed)

resumes-aborted :
    (rs : List String) (w : World)
    → w.resumed ≡ rs
    → w.aborted ≡ true
    → IsAccounted w
    → let w' = run w (replicate (length rs) resume) in
      (w'.resumed ≡ []) × (w'.holders ≡ w.holders) × (w'.aborted ≡ true) × IsAccounted w'
unfolding run
resumes-aborted [] w e a h = (e, refl, a, h)
resumes-aborted (c ∷ rs) w e a h =
    let (e', f, a') = resume-aborted w c rs e a (h.none_after_abort a) in
    let (none_left, same, still, ok) =
      resumes-aborted rs (step w resume) e' a' (step-IsAccounted w resume h) in
    (none_left, same ∙ f, still, ok)

releases-aborted :
    (hs : List String) (w : World)
    → w.holders ≡ hs
    → w.resumed ≡ []
    → w.aborted ≡ true
    → IsAccounted w
    → let w' = run w (replicate (length hs) (release 0)) in w'.active_agents ≡ 0
unfolding run
releases-aborted [] w e r a h = ground (arith, h.owned)
releases-aborted (x ∷ hs) w e r a h =
    let (e', r', a') = release-aborted w x hs e a (h.none_after_abort a) in
    releases-aborted hs (step w (release 0)) e' (r' ∙ r) a' (step-IsAccounted w (release 0) h)

-- After an abort no slot is lost: once every lane whose promise was resolved has run on and every
-- holder has released, no agent is active.
pub abort_returns_slots :
    (w : World)
    → IsAccounted w
    → (run w (
        abort
        ∷ (replicate (length w.resumed) resume
            ++ replicate (length w.holders) (release 0)))).active_agents
      ≡ 0
unfolding run step abort_run
abort_returns_slots w h =
    let w1 = step w abort in
    let (none_left, same, still, ok) =
      resumes-aborted w.resumed w1 refl refl (step-IsAccounted w abort h) in
    rw (run-append w1 (replicate (length w.resumed) resume)) (
      releases-aborted w.holders (run w1 (replicate (length w.resumed) resume)) same none_left still
        ok)
