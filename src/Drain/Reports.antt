-- ===== src/Drain/Reports.antt =====
-- validateLaneReport, validateValidationReport, normalizeClassification and itemId of
-- workflow-kernel/drain-runtime.js.
use opencode_workflows.Prelude.{
  String, Option, none, some, Outcome, ok, throw, ◌>>=◌, ◌>>◌, require, str_eq, if◌then◌else◌,
}
use opencode_workflows.Drain.{
  Error, failure, RawLaneReport, RawValidationReport, LaneReport, ValidationReport, LaneOutcome,
  implemented, blocked, needs_research, failed, no_op,
}

abbrev present {ℓ} : {A : Type ℓ} → Option A → String → Outcome Error A
present none message = throw (failure message)
present (some a) message = ok a

-- `typeof id !== "string" || !id`.
unfoldable pub required_id : Option String → String → Outcome Error String
required_id none message = throw (failure message)
required_id (some id) message = if str_eq id "" then throw (failure message) else ok id

-- `itemId`.
unfoldable pub item_id : Option String → Outcome Error String
unfolding required_id
item_id id = required_id id "drain items require string id"

-- LANE_OUTCOMES.
unfoldable pub lane_outcome : String → Option LaneOutcome
lane_outcome name =
    if str_eq name "implemented"
    then some implemented
    else if str_eq name "blocked"
    then some blocked
    else if str_eq name "needs-research"
    then some needs_research
    else if str_eq name "failed"
    then some failed
    else if str_eq name "no-op"
    then some no_op
    else none

pub data Status : Type 0 where
  ready blocked_item human_gated external done : Status

-- CLASSIFICATIONS.
unfoldable pub classification : String → Option Status
classification name =
    if str_eq name "ready"
    then some ready
    else if str_eq name "blocked"
    then some blocked_item
    else if str_eq name "human-gated"
    then some human_gated
    else if str_eq name "external"
    then some external
    else if str_eq name "done"
    then some done
    else none

-- `normalizeClassification`: `none` is a value that is no classification.
unfoldable pub normalize_classification : Option String → Outcome Error Status
unfolding classification
normalize_classification value = do
  name ← present value "adapter.classify() must return a classification"
  present (classification name) "Invalid drain classification"

unfoldable pub validate_lane_report : Option RawLaneReport → Outcome Error LaneReport
unfolding required_id lane_outcome
validate_lane_report value = do
  report ← present value "Lane report must be an object"
  id ← required_id report.item_id "Lane report requires itemId"
  outcome ← present (lane_outcome report.outcome) "Invalid lane outcome"
  summary ← present report.summary "Lane report requires summary"
  is_ready ← present report.ready_for_integration "Lane report requires readyForIntegration boolean"
  require report.files_changed (failure "Lane report filesChanged must be an array")
  require report.commands_run (failure "Lane report commandsRun must be an array")
  require report.acceptance_evidence (failure "Lane report acceptanceEvidence must be an array")
  require report.residual_risks (failure "Lane report residualRisks must be an array")
  followups ← present report.followups "Lane report followups must be an array"
  ok (record {
    item_id = id;
    outcome = outcome;
    summary = summary;
    ready_for_integration = is_ready;
    followups = followups;
    salvage_dirty = report.salvage_dirty;
  })

unfoldable pub validate_validation_report :
    Option RawValidationReport → Outcome Error ValidationReport
unfolding required_id
validate_validation_report value = do
  report ← present value "Validation report must be an object"
  id ← required_id report.item_id "Validation report requires itemId"
  accepted ← present report.accepted "Validation report requires accepted boolean"
  reason ← present report.reason "Validation report requires reason"
  scope ← present report.diff_scope_ok "Validation report requires diffScopeOk boolean"
  handled ← present report.followups_handled "Validation report requires followupsHandled boolean"
  require report.acceptance_checklist
      (failure "Validation report acceptanceChecklist must be an array")
  require report.validation_commands
      (failure "Validation report validationCommands must be an array")
  ok (record {
    item_id = id;
    accepted = accepted;
    reason = reason;
    diff_scope_ok = scope;
    followups_handled = handled;
    followups = report.followups;
  })
