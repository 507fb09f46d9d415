-- ===== src/Tests/Lane.antt =====
-- An integration run that may use the shell for npm, and lanes of it.
use opencode_workflows.Prelude.{
  ◌≡◌, refl, true, false, some, none, List, [], ◌∷◌, ok, throw, codes, All,
}
use opencode_workflows.Authority.Pattern.{
  Text, Policy, beyond_approved_authority, normalize_pattern_list,
}
use opencode_workflows.Authority.Narrowing.{permits, glob}
use opencode_workflows.Authority.Run.{
  Authority, integration_mode, read_only_mode, no_text, policy_for_authority,
}
use opencode_workflows.Authority.Lane.{
  LaneOptions, LanePolicy, undefined, lane_tools, resolve_lane_policy,
}
use opencode_workflows.Authority.Lane.Bounds.{IsWithin, resolve_lane_policy-IsWithin}
use opencode_workflows.Authority.Lane.ReadOnly.{
  IsCovered, IsClosed, IsRead, resolve_lane_policy-IsCovered, resolve_lane_policy_read_only,
}
use opencode_workflows.Authority.Rules.{
  allow, deny, Rule, allow_if, rules_with, lane_permission_rules,
}
use opencode_workflows.Authority.Decisions.{decide}
use opencode_workflows.Authority.LaneRules.{lane_rules-edit, lane_rules-bash, lane_rules-secret}

abbrev npm : Policy
npm = record { allow = codes "npm *" ∷ []; deny = codes "npm publish*" ∷ [] }

abbrev run_approved : Authority
run_approved = record {
  read_only = false;
  shell = true;
  shell_policy = some npm;
  network = false;
  mcp = false;
  mcp_policy = some no_text;
  edit = false;
  worktree_edit = false;
  integration = true;
  mode = integration_mode;
}

abbrev fixer : LaneOptions
fixer = record {
  read_only = false;
  edit = false;
  allow_edits = false;
  worktree_edit = true;
  shell = true;
  allow_shell = false;
  network = false;
  allow_network = false;
  mcp = false;
  allow_mcp = false;
  mcp_object = none;
  mcp_policy = undefined;
  tools = ("webfetch", false) ∷ [];
}

abbrev fixer_authority : Authority
fixer_authority = record run_approved { worktree_edit = true }

abbrev fixer_lane : LanePolicy
fixer_lane = record { authority = fixer_authority; tools = lane_tools fixer_authority fixer }

fixer_resolved : resolve_lane_policy run_approved fixer ≡ ok fixer_lane
unfolding resolve_lane_policy policy_for_authority normalize_pattern_list
fixer_resolved = refl

networked_refused :
    resolve_lane_policy run_approved (record fixer { network = true })
    ≡ throw beyond_approved_authority
unfolding resolve_lane_policy policy_for_authority normalize_pattern_list
networked_refused = refl

abbrev reader : LaneOptions
reader = record fixer { read_only = true }

abbrev reader_authority : Authority
reader_authority = record run_approved {
  read_only = true;
  shell = false;
  shell_policy = some no_text;
  integration = false;
  mode = read_only_mode;
}

abbrev reader_lane : LanePolicy
reader_lane = record { authority = reader_authority; tools = lane_tools reader_authority reader }

reader_resolved : resolve_lane_policy run_approved reader ≡ ok reader_lane
unfolding resolve_lane_policy policy_for_authority normalize_pattern_list
reader_resolved = refl

resolve_lane_policy-IsWithin_example : IsWithin run_approved fixer_authority
resolve_lane_policy-IsWithin_example =
    resolve_lane_policy-IsWithin run_approved fixer fixer_lane fixer_resolved

resolve_lane_policy-IsCovered_example :
    All (IsCovered fixer_authority) (lane_tools fixer_authority fixer)
resolve_lane_policy-IsCovered_example =
    resolve_lane_policy-IsCovered run_approved fixer fixer_lane fixer_resolved

resolve_lane_policy_read_only_example :
    IsClosed reader_authority × All IsRead (lane_tools reader_authority reader)
resolve_lane_policy_read_only_example =
    resolve_lane_policy_read_only run_approved reader reader_lane refl reader_resolved

-- The lane's rules, with one secret glob of its own.
abbrev vault : List Text
vault = codes "**/vault/*" ∷ []

abbrev fixer_rules : List Rule
fixer_rules = rules_with fixer_authority npm no_text vault

fixer_ruled : lane_permission_rules fixer_authority vault ≡ ok fixer_rules
unfolding lane_permission_rules policy_for_authority normalize_pattern_list
fixer_ruled = refl

lane_rules-edit_example : decide fixer_rules "edit" (codes "src/a.js") ≡ some allow
lane_rules-edit_example =
    lane_rules-edit fixer_authority vault fixer_rules (codes "src/a.js") fixer_ruled

lane_rules-bash_example :
    decide fixer_rules "bash" (codes "npm publish --dry-run")
    ≡ some (allow_if (permits npm (codes "npm publish --dry-run")))
unfolding normalize_pattern_list
lane_rules-bash_example =
    lane_rules-bash fixer_authority vault fixer_rules npm (codes "npm publish --dry-run")
      (unfold policy_for_authority in refl) fixer_ruled

lane_rules-secret_example : decide fixer_rules "grep" (codes "app/vault/key") ≡ some deny
lane_rules-secret_example =
    lane_rules-secret fixer_authority vault fixer_rules "grep" (codes "app/vault/key") refl
      (unfold glob in refl) fixer_ruled
