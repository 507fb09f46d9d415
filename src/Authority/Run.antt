-- ===== src/Authority/Run.antt =====
-- The authority of a run: profiles, resolveShellPolicy, resolveMcpPolicy, resolveRunAuthority and
-- the drain modes of workflow-kernel/authority-policy.js.
use opencode_workflows.Prelude.{
  Bool, true, false, not, ◌&&◌, ◌||◌, Option, none, some, List, [], ◌∷◌, Outcome, ok, ◌>>=◌,
  if◌then◌else◌,
}
use opencode_workflows.Authority.Pattern.{
  Text, star, Declared, AuthorityError, Policy, normalize_pattern_list,
}
use opencode_workflows.Authority.Narrow.{texts}

pub data Mode : Type 0 where
  read_only_mode edit_mode integration_mode full_mode : Mode

-- `shellPolicy` and `mcpPolicy` are `none` where the key is missing.
pub record Authority : Type 0 where
  pub read_only : Bool
  pub shell : Bool
  pub shell_policy : Option Policy
  pub network : Bool
  pub mcp : Bool
  pub mcp_policy : Option Policy
  pub edit : Bool
  pub worktree_edit : Bool
  pub integration : Bool
  pub mode : Mode

-- A declared value that is read as a Boolean: `true`, `false`, or anything else.
pub data Flag : Type 0 where
  on off other : Flag

-- A declared shell or MCP grant: null or undefined, `true`, another plain value, or an object.
pub data Grant : Type 0 where
  nullish granted plain : Grant
  patterns : Declared → Declared → Grant

-- An authority object: a key that is missing is `none`.
pub record Declaration : Type 0 where
  pub read_only : Option Flag
  pub shell : Option Grant
  pub network : Option Flag
  pub mcp : Option Grant
  pub mcp_policy : Option Grant
  pub edit : Option Flag
  pub worktree_edit : Option Flag
  pub integration : Option Flag
  pub full : Option Flag

abbrev pub no_declaration : Declaration
no_declaration = record {
  read_only = none;
  shell = none;
  network = none;
  mcp = none;
  mcp_policy = none;
  edit = none;
  worktree_edit = none;
  integration = none;
  full = none;
}

-- Spread: a key of the later object wins.
abbrev pub or_else {ℓ} : {A : Type ℓ} → Option A → Option A → Option A
or_else (some later) earlier = some later
or_else none earlier = earlier

-- `{ ...earlier, ...later }`.
unfoldable pub spread : Declaration → Declaration → Declaration
spread earlier later = record {
  read_only = or_else later.read_only earlier.read_only;
  shell = or_else later.shell earlier.shell;
  network = or_else later.network earlier.network;
  mcp = or_else later.mcp earlier.mcp;
  mcp_policy = or_else later.mcp_policy earlier.mcp_policy;
  edit = or_else later.edit earlier.edit;
  worktree_edit = or_else later.worktree_edit earlier.worktree_edit;
  integration = or_else later.integration earlier.integration;
  full = or_else later.full earlier.full;
}

pub data Profile : Type 0 where
  ad_hoc read_only_review inspect_with_shell drain_dry_run drain_autonomous_local edit_plan_only
        apply_approved_plan :
      Profile

-- WORKFLOW_AUTHORITY_PROFILES.
unfoldable pub profile_authority : Profile → Declaration
profile_authority ad_hoc = no_declaration
profile_authority read_only_review = record no_declaration { read_only = some on }
profile_authority inspect_with_shell = record no_declaration {
  read_only = some on;
  shell = some granted;
}
profile_authority drain_dry_run = record no_declaration { read_only = some on }
profile_authority drain_autonomous_local = record no_declaration {
  integration = some on;
  network = some off;
  mcp = some plain;
}
profile_authority edit_plan_only = record no_declaration { worktree_edit = some on }
profile_authority apply_approved_plan = record no_declaration { edit = some on }

-- `value === true`.
abbrev pub is_on : Option Flag → Bool
is_on (some on) = true
is_on _ = false

-- `value !== false`.
abbrev pub is_not_off : Option Flag → Bool
is_not_off (some off) = false
is_not_off _ = true

abbrev pub any_text : Policy
any_text = record { allow = (star ∷ []) ∷ []; deny = [] }

abbrev pub no_text : Policy
no_text = record { allow = []; deny = [] }

abbrev pub allow_or_full : Bool → List Text → List Text
allow_or_full full [] = if full then (star ∷ []) ∷ [] else []
allow_or_full full (p ∷ ps) = p ∷ ps

-- `resolveShellPolicy` and `resolveMcpPolicy`, which differ in the label of their error alone.
unfoldable pub resolve_policy : Option Grant → Bool → Outcome AuthorityError Policy
resolve_policy (some (patterns allow deny)) full = do
  allowed ← normalize_pattern_list allow
  denied ← normalize_pattern_list deny
  ok (record { allow = allow_or_full full allowed; deny = denied })
resolve_policy (some granted) full = ok any_text
resolve_policy _ full = ok (if full then any_text else no_text)

-- `declared.mcpPolicy ?? declared.mcp`.
abbrev pub unless_nullish : Option Grant → Option Grant → Option Grant
unless_nullish none fallback = fallback
unless_nullish (some nullish) fallback = fallback
unless_nullish (some g) fallback = some g

abbrev pub is_object : Option Grant → Bool
is_object (some (patterns allow deny)) = true
is_object _ = false

abbrev pub is_inspect : Profile → Bool
is_inspect inspect_with_shell = true
is_inspect _ = false

abbrev pub is_empty : List Text → Bool
is_empty [] = true
is_empty (x ∷ xs) = false

-- The declaration that resolveRunAuthority reads: profile, meta.authority, args.authority, and then
-- the keys that stand in meta itself, which have no `full` among them.
unfoldable pub declared_authority : Profile → Declaration → Declaration → Declaration → Declaration
unfolding spread profile_authority
declared_authority profile meta_authority args_authority meta =
    spread (spread (spread (profile_authority profile) meta_authority) args_authority)
      (record meta { full = none })

abbrev pub mode_of : Bool → Bool → Bool → Mode
mode_of integration edits read_only =
    if integration
    then integration_mode
    else if edits
    then edit_mode
    else if read_only
    then read_only_mode
    else full_mode

abbrev pub authority_of : Declaration → Policy → Policy → Authority
authority_of declared shell_policy mcp_policy =
    let full = is_on declared.full in
    let read_only = is_not_off declared.read_only && not full in
    let edit = is_on declared.edit in
    let worktree_edit = is_on declared.worktree_edit in
    let integration = is_on declared.integration in
    record {
      read_only = read_only;
      shell = not (is_empty shell_policy.allow);
      shell_policy = some shell_policy;
      network = is_on declared.network || full;
      mcp = not (is_empty mcp_policy.allow);
      mcp_policy = some mcp_policy;
      edit = edit;
      worktree_edit = worktree_edit;
      integration = integration;
      mode = mode_of integration (edit || worktree_edit) read_only;
    }

-- `resolveRunAuthority`, with the patterns of audited-shell-policy.js as an argument.
unfoldable pub resolve_run_authority :
    Policy → Profile → Declaration → Declaration → Declaration → Outcome AuthorityError Authority
unfolding declared_authority resolve_policy
resolve_run_authority audited profile meta_authority args_authority meta =
    let declared = declared_authority profile meta_authority args_authority meta in
    do
      shell_policy ←
          if is_inspect profile && not (is_object declared.shell)
          then ok audited
          else resolve_policy declared.shell (is_on declared.full)
      mcp_policy ←
          resolve_policy (unless_nullish declared.mcp_policy declared.mcp) (is_on declared.full)
      ok (authority_of declared shell_policy mcp_policy)

-- `shellPolicyForAuthority` and `mcpPolicyForAuthority`.
unfoldable pub policy_for_authority : Option Policy → Bool → Outcome AuthorityError Policy
policy_for_authority (some policy) flag = do
  allow ← normalize_pattern_list (texts policy.allow)
  deny ← normalize_pattern_list (texts policy.deny)
  ok (record { allow = allow; deny = deny })
policy_for_authority none flag = ok (if flag then any_text else no_text)
