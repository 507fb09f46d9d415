-- ===== src/Tests/Notified.antt =====
-- A set of values that have a time to live.
use opencode_workflows.Prelude.{
  ℕ, ◌+◌, ◌≤◌, ◌≡◌, refl, true, false, String, List, [], ◌∷◌, length, All, arith,
}
use opencode_workflows.Notified.{Use, adds, deletes, add, has, run}
use opencode_workflows.Notified.Fresh.{Clock}
use opencode_workflows.Notified.Remembered.{has-add}

-- Three sessions, of which one is delivered.
abbrev uses : List (ℕ × Use)
uses = (5, adds "a") ∷ (7, adds "b") ∷ (8, deletes "a") ∷ (9, adds "c") ∷ []

evicted : run 1 100 uses [] ≡ ("c", 9) ∷ []
unfolding run
evicted = refl

expired : has 5 100 "b" 109 (run 5 100 uses []) ≡ (("c", 9) ∷ [], false)
unfolding has run
expired = refl

has-add_example :
    let asked = has 5 100 "d" 110 (add 5 100 "d" 12 (run 5 100 uses [])) in
    (asked.1 ≡ true)
    × (length asked.0 ≤ 5)
    × All (λ (item : String × ℕ). (110 ≤ item.1 + 100)) asked.0
has-add_example =
    has-add 5 100 uses 12 110 "d"
      (unfold Clock in (omega arith, (omega arith, (omega arith, (omega arith, omega arith)))))
      (omega arith) (omega arith) (omega arith)
