-- ===== src/Locks/Exclusive.antt =====
-- Whether two live processes hold the lock of a run of workflow-kernel/run-store-locks.js.
use opencode_workflows.Prelude.{◌≡◌, List, [], ◌∷◌}
use opencode_workflows.Locks.{World, Event, acquire, step}

-- No process acquires the lock while another one has yet to remove what it read as stale.
unfoldable pub IsUndisturbed : World → List Event → Type 0
IsUndisturbed w [] = Unit
IsUndisturbed w (acquire readable process ∷ es) =
    (w.clearing ≡ []) × IsUndisturbed (step w (acquire readable process)) es
IsUndisturbed w (e ∷ es) = IsUndisturbed (step w e) es
