-- ===== src/Drain.antt =====
-- workflow-kernel/drain-runtime.js: the loop that takes work items from an adapter, runs lanes on
-- them and closes them. The adapter and the other functions of the options are parameters: what a
-- call returns or throws may depend on all the calls before it.
pub mod Reports
pub mod Attempt
pub mod Item
pub mod Loop
pub mod Triple
pub mod Frames
pub mod Claims
pub mod WaveFrames
pub mod Complete
pub mod DryRun
use opencode_workflows.Prelude.{
  ◌≡◌, ℕ, String, Bool, true, false, Option, none, some, List, [], ◌∷◌, Outcome, ok, throw,
}

pub data Kind : Type 0 where
  lifecycle_abort budget_stop ordinary : Kind

pub record Error : Type 0 where
  pub kind : Kind
  pub message : String

abbrev pub failure : String → Error
failure message = record { kind = ordinary; message = message }

pub data Point : Type 0 where
  before after start transition : Point

-- The calls that leave the module, with the arguments that the properties speak of.
pub data Call : Type 0 where
  check_lifecycle : String → Point → Call
  can_launch_lane : String → String → Call
  discover : ℕ → Call
  classify claim create_followup close : String → Call
  build_lane_packet run_lane integrate validate : String → ℕ → Call
  release_claim : String → String → Call
  sleep : ℕ → Call
  prove_dry : Call

-- A lane report before it is validated: what does not have the type that is tested is `none` or
-- `false`.
pub record RawLaneReport : Type 0 where
  pub item_id : Option String
  pub outcome : String
  pub summary : Option String
  pub ready_for_integration : Option Bool
  pub files_changed : Bool
  pub commands_run : Bool
  pub acceptance_evidence : Bool
  pub residual_risks : Bool
  pub followups : Option (List String)
  pub salvage_dirty : Bool

pub record RawValidationReport : Type 0 where
  pub item_id : Option String
  pub accepted : Option Bool
  pub reason : Option String
  pub diff_scope_ok : Option Bool
  pub followups_handled : Option Bool
  pub acceptance_checklist : Bool
  pub validation_commands : Bool
  pub followups : List String

-- An answer of a call, given the calls so far, itself included, the latest first.
abbrev pub Answer : Type 0 → Type 0
Answer A = List Call → Outcome Error A

-- The adapter with the functions of the options. A missing checkLifecycle is one that returns, and a
-- missing canLaunchLane one that returns true; `none` is a value that is not an object, not an array,
-- or an id that is not a string.
pub record Adapter : Type 0 where
  pub lifecycle : Answer (Unit {0})
  pub can_launch : Answer Bool
  pub discover : Answer (Option (List (Option String)))
  pub classify : Answer (Option String)
  pub claim : Answer (Unit {0})
  pub packet : Answer (Unit {0})
  pub lane : Answer (Option RawLaneReport)
  pub integrate : Answer (Unit {0})
  pub validate : Answer (Option RawValidationReport)
  pub close : Answer (Unit {0})
  pub followup : Answer String
  pub release : Option (Answer (Unit {0}))
  pub sleep : Answer (Unit {0})
  pub dry : Answer Bool

pub data LaneOutcome : Type 0 where
  implemented blocked needs_research failed no_op : LaneOutcome

pub record LaneReport : Type 0 where
  pub item_id : String
  pub outcome : LaneOutcome
  pub summary : String
  pub ready_for_integration : Bool
  pub followups : List String
  pub salvage_dirty : Bool

pub record ValidationReport : Type 0 where
  pub item_id : String
  pub accepted : Bool
  pub reason : String
  pub diff_scope_ok : Bool
  pub followups_handled : Bool
  pub followups : List String

pub record Closed : Type 0 where
  pub id : String
  pub lane : LaneReport
  pub validation : ValidationReport

pub record AttemptRecord : Type 0 where
  pub id : String
  pub number : ℕ
  pub budget_exhausted : Bool

pub record Wave : Type 0 where
  pub number : ℕ
  pub discovered : ℕ
  pub ready : List String
  pub skipped : List String
  pub attempts : List AttemptRecord

-- What `report` collects; every list has its latest entry first.
pub record Report : Type 0 where
  pub phases : List String
  pub waves : List Wave
  pub planned : List String
  pub closed : List Closed
  pub failed : List (String × String)
  pub released : List (String × String)
  pub salvaged : List (String × ℕ)
  pub skipped : List String
  pub followups : List String
  pub budget_exhausted : Bool
  pub error : Option String

-- The report, the wave under way, `releaseState` of the item under way, and the calls so far.
pub record World : Type 0 where
  pub calls : List Call
  pub report : Report
  pub wave : Wave
  pub release_attempted : Bool

-- Code that reads and writes the world, and returns or throws.
abbrev pub Drain : Type 0 → Type 0
Drain A = World → Outcome Error A × World

module _ {A B : Type 0} where
  abbrev pub continue : Outcome Error A → (A → Drain B) → Drain B
  continue (ok a) f w = f a w
  continue (throw e) f w = (throw e, w)

  infixl 10 ◌>>=◌
  unfoldable pub ◌>>=◌ : Drain A → (A → Drain B) → Drain B
  ◌>>=◌ m f w = let (r, w') = m w in continue r f w'

  infixl 10 ◌>>◌
  abbrev pub ◌>>◌ : Drain A → Drain B → Drain B
  m >> n = m >>= λ _. n

module _ {A : Type 0} where
  -- `try`, with a `catch` that may throw again.
  abbrev pub handle : Outcome Error A → (Error → Drain A) → Drain A
  handle (ok a) f w = (ok a, w)
  handle (throw e) f w = f e w

  unfoldable pub catching : Drain A → (Error → Drain A) → Drain A
  catching m f w = let (r, w') = m w in handle r f w'

  unfoldable pub pure : A → Drain A
  pure a w = (ok a, w)

  unfoldable pub lift : Outcome Error A → Drain A
  lift r w = (r, w)

  unfoldable pub call : Call → Answer A → Drain A
  call c answer w = let calls = c ∷ w.calls in (answer calls, record w { calls = calls })

unfoldable pub modify : (World → World) → Drain (Unit {0})
modify f w = (ok tt, f w)

unfoldable pub reading : {A : Type 0} → (World → A) → Drain A
reading f w = (ok (f w), w)
