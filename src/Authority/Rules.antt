-- ===== src/Authority/Rules.antt =====
-- permissionRulesForAuthority of workflow-kernel/authority-policy.js, with DEFAULT_SECRET_GLOBS of
-- path-policy.js, and the rules that resolveLanePolicy hands to the child session.
use opencode_workflows.Prelude.{
  String, Bool, false, ◌||◌, List, [], ◌∷◌, ◌++◌, map, codes, Outcome, ok, ◌>>=◌, if◌then◌else◌,
}
use opencode_workflows.Authority.Pattern.{Text, star, unique, AuthorityError, Policy}
use opencode_workflows.Authority.Run.{Authority, is_empty, policy_for_authority}
use opencode_workflows.Authority.Lane.{opencode_child_tool_ids}

pub data Action : Type 0 where
  allow deny : Action

pub record Rule : Type 0 where
  pub permission : String
  pub pattern : Text
  pub action : Action

abbrev pub default_secret_globs : List Text
default_secret_globs = map codes (
    "**/.env" ∷ "**/.env.*" ∷ ".env" ∷ ".env.*" ∷ "**/.aws/credentials" ∷ "**/.aws/config"
    ∷ "**/.kube/config" ∷ "**/.ssh/id_ecdsa" ∷ "**/.ssh/id_dsa" ∷ "**/.netrc" ∷ "**/.pgpass"
    ∷ "**/.config/gcloud/credentials.db" ∷ "**/.docker/config.json" ∷ "**/*.pem" ∷ "**/*.key"
    ∷ "**/*credentials*" ∷ "**/*secret*" ∷ "**/id_rsa" ∷ "**/id_ed25519" ∷ [])

abbrev pub opencode_child_permission_keys : List String
opencode_child_permission_keys =
    "opencode-child.start" ∷ "opencode-child.status" ∷ "opencode-child.stop"
    ∷ "opencode-child.stop.registry-pid-signal" ∷ "opencode-child.restart"
    ∷ "opencode-child.command" ∷ "opencode-child.shell" ∷ "opencode-child.permission" ∷ []

-- A rule for every target.
abbrev pub on_all : Action → String → Rule
on_all action permission = record { permission = permission; pattern = star ∷ []; action = action }

abbrev pub on_pattern : String → Action → Text → Rule
on_pattern permission action pattern = record {
  permission = permission;
  pattern = pattern;
  action = action;
}

abbrev pub allow_if : Bool → Action
allow_if test = if test then allow else deny

-- The rules before the secret globs.
abbrev pub head_rules : List Rule
head_rules =
    on_all deny "*"
    ∷ on_all allow "read"
    ∷ on_all allow "glob"
    ∷ on_all allow "grep"
    ∷ on_all allow "list"
    ∷ on_all allow "lsp"
    ∷ on_all allow "structured_output"
    ∷ []

unfoldable pub secret_rules : List Text → List Rule
secret_rules [] = []
secret_rules (glob ∷ globs) =
    on_pattern "read" deny glob
    ∷ on_pattern "grep" deny glob
    ∷ on_pattern "glob" deny glob
    ∷ on_pattern "list" deny glob
    ∷ on_pattern "lsp" deny glob
    ∷ secret_rules globs

abbrev pub edits : Authority → Bool
edits a = a.edit || a.worktree_edit || a.integration

abbrev pub edit_rules : Authority → List Rule
edit_rules a = on_all (allow_if (edits a)) "edit" ∷ on_all (allow_if (edits a)) "apply_patch" ∷ []

-- The rules of a pattern policy, for the shell and for MCP alike.
unfoldable pub policy_rules : String → Policy → List Rule
policy_rules permission policy =
    (if is_empty policy.allow then on_all deny permission ∷ [] else [])
    ++ (map (on_pattern permission allow) policy.allow
        ++ map (on_pattern permission deny) policy.deny)

abbrev pub network_rules : Authority → List Rule
network_rules a =
    on_all (allow_if a.network) "webfetch" ∷ on_all (allow_if a.network) "websearch" ∷ []

abbrev pub tail_rules : List Rule
tail_rules =
    map (on_all deny) ("task" ∷ "skill" ∷ "question" ∷ "todowrite" ∷ "external_directory" ∷ [])
    ++ (map (on_all deny) opencode_child_tool_ids
        ++ map (on_all deny) opencode_child_permission_keys)

-- The whole list, given the policies that shellPolicyForAuthority and mcpPolicyForAuthority return.
unfoldable pub rules_with : Authority → Policy → Policy → List Text → List Rule
unfolding secret_rules policy_rules unique
rules_with authority shell_policy mcp_policy extra_secret_globs =
    head_rules
    ++ (secret_rules (unique (default_secret_globs ++ extra_secret_globs))
        ++ (edit_rules authority
            ++ (policy_rules "bash" shell_policy
                ++ (network_rules authority ++ (policy_rules "mcp" mcp_policy ++ tail_rules)))))

unfoldable pub permission_rules_for_authority :
    Authority → List Text → Outcome AuthorityError (List Rule)
unfolding rules_with
permission_rules_for_authority authority extra_secret_globs = do
  shell_policy ← policy_for_authority authority.shell_policy authority.shell
  mcp_policy ← policy_for_authority authority.mcp_policy authority.mcp
  ok (rules_with authority shell_policy mcp_policy extra_secret_globs)

-- The end of `resolveLanePolicy`: an integration run does not make an ordinary lane edit.
unfoldable pub lane_permission_rules : Authority → List Text → Outcome AuthorityError (List Rule)
unfolding permission_rules_for_authority
lane_permission_rules authority extra_secret_globs =
    let edit_capable = authority.edit || authority.worktree_edit in
    permission_rules_for_authority
      (if edit_capable then authority else record authority { integration = false })
      extra_secret_globs
