-- ===== src/Authority/Tools.antt =====
-- The model of a lane and the workflow tools of an agent: resolveLaneModel, allowTools, denyTools and
-- configureWorkflowPermissions of workflow-kernel/authority-policy.js.
use opencode_workflows.Prelude.{
  ◌≡◌, refl, ◌∙◌, ap, String, Option, none, some, List, [], ◌∷◌, ◌++◌, Outcome, ok, throw, any,
  str_eq, arith, if◌then◌else◌, eq_iff,
}
use opencode_workflows.Prelude.Dict
use opencode_workflows.Prelude.Dict.{Dict, get-put}

pub data Permission : Type 0 where
  allow deny other : Permission

abbrev workflow_inspect_tools : List String
workflow_inspect_tools =
    "workflow_status" ∷ "workflow_events" ∷ "workflow_list" ∷ "workflow_roles"
    ∷ "workflow_templates" ∷ "workflow_lint" ∷ []

abbrev workflow_mutating_tools : List String
workflow_mutating_tools =
    "workflow_run" ∷ "workflow_cancel" ∷ "workflow_pause" ∷ "workflow_reconcile" ∷ "workflow_save"
    ∷ "workflow_cleanup" ∷ "workflow_apply" ∷ "workflow_template_save" ∷ "workflow_salvage" ∷ []

abbrev workflow_tools : List String
workflow_tools = workflow_inspect_tools ++ workflow_mutating_tools

-- `allowTools` and `denyTools` on a permission object.
unfoldable pub set_tools : Permission → Dict Permission → List String → Dict Permission
set_tools value permission [] = permission
set_tools value permission (name ∷ names) = set_tools value (Dict.put permission name value) names

abbrev or_empty : Option (Dict Permission) → Dict Permission
or_empty none = []
or_empty (some permission) = permission

-- The body of the loop over agents: only the agents `build` and `plan` change.
unfoldable pub configure_agent : String → Option (Dict Permission) → Option (Dict Permission)
unfolding set_tools
configure_agent name permission =
    if str_eq name "build"
    then some (set_tools allow (or_empty permission) workflow_tools)
    else if str_eq name "plan"
    then some (
        set_tools deny (set_tools allow (or_empty permission) workflow_inspect_tools)
          workflow_mutating_tools)
    else permission

pub record Config : Type 0 where
  pub permission : Option (Dict Permission)
  pub agent : List (String × Option (Dict Permission))

unfoldable pub configure_agents :
    List (String × Option (Dict Permission)) → List (String × Option (Dict Permission))
unfolding configure_agent
configure_agents [] = []
configure_agents ((name, permission) ∷ agents) =
    (name, configure_agent name permission) ∷ configure_agents agents

-- `configureWorkflowPermissions`.
unfoldable pub configure_workflow_permissions : Config → Config
unfolding configure_agents set_tools
configure_workflow_permissions cfg = record {
  permission = some (set_tools allow (or_empty cfg.permission) workflow_tools);
  agent = configure_agents cfg.agent;
}

get-set_tools :
    (value : Permission) (permission : Dict Permission) (names : List String) (tool : String)
    → Dict.get (set_tools value permission names) tool
      ≡ (if any (str_eq tool) names then some value else Dict.get permission tool)
unfolding set_tools
get-set_tools value permission [] tool = refl
get-set_tools value permission (name ∷ names) tool =
    let put = get-put permission name tool value in
    let rest = get-set_tools value (Dict.put permission name value) names tool in
    ground (arith, put, rest, eq_iff name tool, eq_iff tool name)

-- What an agent may do with a tool.
abbrev pub tool_permission : Option (Dict Permission) → String → Option Permission
tool_permission permission tool = Dict.get (or_empty permission) tool

-- After the configuration the agent `plan` is denied every tool that changes a run and allowed every
-- tool that only looks, and its permission for any other tool is what it was.
configure_agent-plan :
    (permission : Option (Dict Permission)) (tool : String)
    → tool_permission (configure_agent "plan" permission) tool ≡ (
        if any (str_eq tool) workflow_mutating_tools
        then some deny
        else if any (str_eq tool) workflow_inspect_tools
        then some allow
        else tool_permission permission tool)
unfolding configure_agent
configure_agent-plan permission tool =
    get-set_tools deny (set_tools allow (or_empty permission) workflow_inspect_tools)
      workflow_mutating_tools tool
    ∙ ap (λ o. if any (str_eq tool) workflow_mutating_tools then some deny else o)
        (get-set_tools allow (or_empty permission) workflow_inspect_tools tool)

-- `run.modelTiers`, where it is set: a tier without a model, or with an empty one, is `none`.
pub record ModelTiers : Type 0 where
  pub fast : Option String
  pub deep : Option String

pub data TierOption : Type 0 where
  no_tier fast deep bad_tier : TierOption

abbrev non_empty : Option String → Option String
non_empty none = none
non_empty (some text) = if str_eq text "" then none else some text

abbrev model_or : Option String → Option String → Option String
model_or none fallback = fallback
model_or (some model) fallback = some model

abbrev mapped_model : Option ModelTiers → TierOption → Option String
mapped_model none tier = none
mapped_model (some tiers) fast = non_empty tiers.fast
mapped_model (some tiers) deep = non_empty tiers.deep
mapped_model (some tiers) _ = none

pub data ModelError : Type 0 where
  invalid_lane_tier : ModelError

-- `resolveLaneModel`; the answer is `none` where the run has no default model.
unfoldable pub resolve_lane_model :
    Option ModelTiers
    → Option String
    → Option String
    → TierOption
    → Outcome ModelError (Option String)
resolve_lane_model tiers default_model model tier = elim (non_empty model) [
  | some explicit ↦ ok (some explicit)
  | none ↦ elim tier [
    | bad_tier ↦ throw invalid_lane_tier
    | no_tier ↦ ok default_model
    | fast ↦ ok (model_or (mapped_model tiers fast) default_model)
    | deep ↦ ok (model_or (mapped_model tiers deep) default_model)
  ]
]
