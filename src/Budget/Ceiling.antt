-- ===== src/Budget/Ceiling.antt =====
-- The gate `checkBudgetBeforeLaunch`.
use opencode_workflows.Prelude.{◌≡◌, false, Option, none, some}
use opencode_workflows.Budget.{Num}

-- Strictly below a ceiling, where there is one.
abbrev pub Under : (num : Num) → Option num.N → num.N → Type 0
Under num none total = Unit
Under num (some ceiling) total = num.le ceiling total ≡ false
