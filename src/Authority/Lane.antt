-- ===== src/Authority/Lane.antt =====
-- toolAuthority, laneMcpPolicyOption and resolveLanePolicy of workflow-kernel/authority-policy.js:
-- the authority and the tools of one lane. Its permission rules are in Rules.
pub mod Bounds
pub mod ReadOnly
use text.Mathlib.Text.{starts_with}
use opencode_workflows.Prelude.{
  ◌≡◌, String, Bool, true, false, not, ◌&&◌, ◌||◌, Option, none, some, List, [], ◌∷◌, ◌++◌, map,
  Outcome, ok, throw, ◌>>=◌, ◌>>◌, require, any, str_eq, if◌then◌else◌,
}
use opencode_workflows.Authority.Pattern.{
  Text, AuthorityError, bad_mcp_policy, unapproved_tool_authority, beyond_approved_authority,
  mcp_beyond_approved, tool_denied, tool_not_approved, Policy,
}
use opencode_workflows.Authority.Narrow.{DeclaredPolicy, narrow_mcp_policy}
use opencode_workflows.Authority.Run.{
  Mode, read_only_mode, edit_mode, integration_mode, full_mode, Authority, any_text, no_text,
  is_empty, policy_for_authority,
}

pub data Dimension : Type 0 where
  shell network mcp edit worktree_edit delegation unknown read : Dimension

abbrev pub one_of : List String → String → Bool
one_of names name = any (str_eq name) names

abbrev pub opencode_child_tool_ids : List String
opencode_child_tool_ids =
    "oc_child_start" ∷ "oc_child_status" ∷ "oc_child_stop" ∷ "oc_child_restart"
    ∷ "oc_session_create" ∷ "oc_prompt" ∷ "oc_inspect" ∷ "oc_events" ∷ "oc_command" ∷ "oc_shell"
    ∷ "oc_permission" ∷ "oc_plugin_smoke_test" ∷ []

unfoldable pub tool_authority : String → Dimension
tool_authority name =
    if str_eq name "bash"
    then shell
    else if str_eq name "webfetch" || str_eq name "websearch"
    then network
    else if str_eq name "mcp" || starts_with name "mcp"
    then mcp
    else if str_eq name "edit"
    then edit
    else if str_eq name "apply_patch"
    then edit
    else if one_of opencode_child_tool_ids name
    then delegation
    else if one_of ("task" ∷ "skill" ∷ "question" ∷ "todowrite" ∷ "external_directory" ∷ []) name
    then delegation
    else if one_of ("read" ∷ "glob" ∷ "grep" ∷ "list" ∷ "lsp" ∷ []) name
    then read
    else unknown

-- `opts.mcpPolicy`: undefined, a value that is no object, or an object.
pub data McpOption : Type 0 where
  undefined not_object : McpOption
  object : DeclaredPolicy → McpOption

-- What an agent() call asks for. A Boolean field says that the option is exactly `true`; `mcp` may
-- be an object too. A tool whose value is not `true` is off.
pub record LaneOptions : Type 0 where
  pub read_only : Bool
  pub edit : Bool
  pub allow_edits : Bool
  pub worktree_edit : Bool
  pub shell : Bool
  pub allow_shell : Bool
  pub network : Bool
  pub allow_network : Bool
  pub mcp : Bool
  pub allow_mcp : Bool
  pub mcp_object : Option DeclaredPolicy
  pub mcp_policy : McpOption
  pub tools : List (String × Bool)

unfoldable pub lane_mcp_policy_option : LaneOptions → Outcome AuthorityError (Option DeclaredPolicy)
lane_mcp_policy_option opts = elim opts.mcp_policy [
  | undefined ↦ ok opts.mcp_object
  | not_object ↦ throw bad_mcp_policy
  | object policy ↦ ok (some policy)
]

abbrev pub is_some {ℓ} : {A : Type ℓ} → Option A → Bool
is_some none = false
is_some (some x) = true

abbrev pub when : Bool → Dimension → List Dimension
when test d = if test then d ∷ [] else []

abbrev pub is_read : Dimension → Bool
is_read read = true
is_read _ = false

unfoldable pub tool_requests : List (String × Bool) → List Dimension
unfolding tool_authority
tool_requests [] = []
tool_requests ((name, enabled) ∷ tools) =
    when (enabled && not (is_read (tool_authority name))) (tool_authority name)
    ++ tool_requests tools

unfoldable pub requested_dimensions : LaneOptions → Option DeclaredPolicy → List Dimension
unfolding tool_requests
requested_dimensions opts lane_mcp =
    when (opts.allow_edits || opts.edit) edit
    ++ (when opts.worktree_edit worktree_edit
        ++ (when (opts.shell || opts.allow_shell) shell
            ++ (when (opts.network || opts.allow_network) network
                ++ (when (opts.mcp || opts.allow_mcp || is_some lane_mcp) mcp
                    ++ tool_requests opts.tools))))

-- `authority[dimension]`; an authority has no key `delegation`, `unknown` or `read`.
abbrev pub has : Authority → Dimension → Bool
has a shell = a.shell
has a network = a.network
has a mcp = a.mcp
has a edit = a.edit
has a worktree_edit = a.worktree_edit
has a _ = false

-- `authority[dimension] = true`.
abbrev pub grant : Dimension → Authority → Authority
grant shell a = record a { shell = true }
grant network a = record a { network = true }
grant mcp a = record a { mcp = true }
grant edit a = record a { edit = true }
grant worktree_edit a = record a { worktree_edit = true }
grant _ a = a

abbrev pub is_unapproved : Dimension → Bool
is_unapproved delegation = true
is_unapproved unknown = true
is_unapproved _ = false

-- The dimensions that `opts.readOnly` keeps a lane from.
abbrev pub is_escalation : Dimension → Bool
is_escalation shell = true
is_escalation network = true
is_escalation mcp = true
is_escalation edit = true
is_escalation worktree_edit = true
is_escalation _ = false

abbrev pub is_worktree_edit : Dimension → Bool
is_worktree_edit worktree_edit = true
is_worktree_edit _ = false

-- One round of the loop over `requested`.
unfoldable pub grant_dimension :
    Authority → Bool → Dimension → Authority → Outcome AuthorityError Authority
grant_dimension run read_only d authority =
    if is_unapproved d
    then throw unapproved_tool_authority
    else if read_only && is_escalation d
    then ok authority
    else if not (has run d) && not (is_worktree_edit d && run.integration)
    then throw beyond_approved_authority
    else ok (grant d authority)

unfoldable pub grant_all :
    Authority → Bool → List Dimension → Authority → Outcome AuthorityError Authority
unfolding grant_dimension
grant_all run read_only [] authority = ok authority
grant_all run read_only (d ∷ ds) authority =
    grant_dimension run read_only d authority >>= grant_all run read_only ds

-- What a lane starts from, before it asks for anything.
unfoldable pub lane_base : Authority → Policy → Policy → Bool → Authority
lane_base run shell_policy mcp_policy read_only =
    let authority = record run {
      shell_policy = some shell_policy;
      mcp_policy = some mcp_policy;
      edit = false;
      worktree_edit = false;
      mode = if run.read_only then read_only_mode else full_mode;
    } in
    if read_only
    then record authority {
      read_only = true;
      shell = false;
      shell_policy = some no_text;
      network = false;
      mcp = false;
      mcp_policy = some no_text;
      edit = false;
      worktree_edit = false;
      integration = false;
      mode = read_only_mode;
    }
    else authority

-- The block under `if (laneMcpPolicy && opts.readOnly !== true)`.
unfoldable pub narrow_lane :
    Authority → Bool → Option DeclaredPolicy → Authority → Outcome AuthorityError Authority
narrow_lane run read_only none authority = ok authority
narrow_lane run true (some declared) authority = ok authority
narrow_lane run false (some declared) authority = do
  require run.mcp mcp_beyond_approved
  parent ← policy_for_authority run.mcp_policy run.mcp
  narrowed ← narrow_mcp_policy parent declared
  ok (record authority { mcp_policy = some narrowed; mcp = not (is_empty narrowed.allow) })

unfoldable pub edit_lane : Authority → Bool → Authority → Authority
edit_lane run read_only authority =
    if (authority.edit || authority.worktree_edit) && not read_only
    then record authority {
      mode = if run.integration then integration_mode else edit_mode;
      read_only = false;
    }
    else authority

unfoldable pub lane_authority : Authority → LaneOptions → Outcome AuthorityError Authority
unfolding lane_mcp_policy_option requested_dimensions grant_all lane_base narrow_lane edit_lane
lane_authority run opts = do
  shell_policy ← policy_for_authority run.shell_policy run.shell
  mcp_policy ← policy_for_authority run.mcp_policy run.mcp
  lane_mcp ← lane_mcp_policy_option opts
  approved ←
      grant_all run opts.read_only (requested_dimensions opts lane_mcp)
        (lane_base run shell_policy mcp_policy opts.read_only)
  narrowed ← narrow_lane run opts.read_only lane_mcp approved
  ok (edit_lane run opts.read_only narrowed)

-- `{ ...tools, [name]: enabled }`: a key that is there keeps its place.
unfoldable pub assign : List (String × Bool) → String × Bool → List (String × Bool)
assign [] (name, enabled) = (name, enabled) ∷ []
assign ((n, e) ∷ tools) (name, enabled) =
    if str_eq n name then (n, enabled) ∷ tools else (n, e) ∷ assign tools (name, enabled)

unfoldable pub assign_all : List (String × Bool) → List (String × Bool) → List (String × Bool)
unfolding assign
assign_all tools [] = tools
assign_all tools (t ∷ ts) = assign_all (assign tools t) ts

abbrev pub default_tools : Authority → List (String × Bool)
default_tools a =
    ("edit", a.edit || a.worktree_edit)
    ∷ ("apply_patch", a.edit || a.worktree_edit)
    ∷ ("bash", a.shell)
    ∷ ("webfetch", a.network)
    ∷ ("websearch", a.network)
    ∷ ("task", false)
    ∷ ("skill", false)
    ∷ ("todowrite", false)
    ∷ ("question", false)
    ∷ map (λ name. (name, false)) opencode_child_tool_ids

-- A read-only lane loses every tool that would take it beyond reading.
unfoldable pub strip_escalations : List (String × Bool) → List (String × Bool)
unfolding tool_authority
strip_escalations [] = []
strip_escalations ((name, enabled) ∷ tools) =
    (name, enabled && not (is_escalation (tool_authority name))) ∷ strip_escalations tools

-- One round of the loop that validates the tools.
unfoldable pub check_tool : Authority → String → Dimension → Outcome AuthorityError (Unit {0})
check_tool authority name dimension =
    if is_read dimension
    then ok tt
    else if is_unapproved dimension
    then throw tool_denied
    else if (str_eq name "edit" || str_eq name "apply_patch") && authority.worktree_edit
    then ok tt
    else require (has authority dimension) tool_not_approved

unfoldable pub check_tools : Authority → List (String × Bool) → Outcome AuthorityError (Unit {0})
unfolding check_tool tool_authority
check_tools authority [] = ok tt
check_tools authority ((name, enabled) ∷ tools) = do
  if enabled then check_tool authority name (tool_authority name) else ok tt
  check_tools authority tools

unfoldable pub lane_tools : Authority → LaneOptions → List (String × Bool)
unfolding assign_all strip_escalations
lane_tools authority opts =
    let tools = assign_all (default_tools authority) opts.tools in
    if opts.read_only then strip_escalations tools else tools

pub record LanePolicy : Type 0 where
  pub authority : Authority
  pub tools : List (String × Bool)

-- `resolveLanePolicy` up to the permission rules.
unfoldable pub resolve_lane_policy : Authority → LaneOptions → Outcome AuthorityError LanePolicy
unfolding lane_authority lane_tools check_tools
resolve_lane_policy run opts = do
  authority ← lane_authority run opts
  let tools = lane_tools authority opts
  check_tools authority tools
  ok (record { authority = authority; tools = tools })
