-- ===== src/Authority/LaneRules.antt =====
-- What the rules of a child session (lane_permission_rules) permit it, for every target.
use opencode_workflows.Prelude.{
  ◌≡◌, ◌∙◌, String, true, false, ◌||◌, some, List, ◌++◌, ok, arith, any, Ensures, Ensures-bind,
  ok-injective, subst, if◌then◌else◌,
}
use opencode_workflows.Authority.Pattern.{Text, Policy}
use opencode_workflows.Authority.Narrowing.{glob, permits}
use opencode_workflows.Authority.Run.{Authority, policy_for_authority}
use opencode_workflows.Authority.Rules.{
  deny, Rule, allow_if, rules_with, default_secret_globs, permission_rules_for_authority,
  lane_permission_rules,
}
use opencode_workflows.Authority.Decisions.{decide, reads}
use opencode_workflows.Authority.Enforcement.{decide-edit, decide-bash, decide-secret}

-- The authority that the rules are made from.
abbrev permission_authority : Authority → Authority
permission_authority a = if a.edit || a.worktree_edit then a else record a { integration = false }

rules-inversion :
    (P : List Rule → Type 0) (a : Authority) (extra : List Text)
    → ((sp mp : Policy)
        → policy_for_authority (permission_authority a).shell_policy (permission_authority a).shell
          ≡ ok sp
        → P (rules_with (permission_authority a) sp mp extra))
    → Ensures P (lane_permission_rules a extra)
unfolding lane_permission_rules permission_rules_for_authority
rules-inversion P a extra each =
    let b = permission_authority a in
    Ensures-bind P (policy_for_authority b.shell_policy b.shell) _ λ sp h.
      Ensures-bind P (policy_for_authority b.mcp_policy b.mcp) _
        λ mp _ rules e. subst P (ok-injective e) (each sp mp h)

-- A lane may edit exactly where it was granted an edit or a worktree edit: the integration
-- authority of its run alone does not let it.
pub lane_rules-edit :
    (a : Authority) (extra : List Text) (rules : List Rule) (target : Text)
    → lane_permission_rules a extra ≡ ok rules
    → decide rules "edit" target ≡ some (allow_if (a.edit || a.worktree_edit))
lane_rules-edit a extra rules target =
    rules-inversion (λ rs. decide rs "edit" target ≡ some (allow_if (a.edit || a.worktree_edit))) a
      extra (λ sp mp _. decide-edit (permission_authority a) sp mp extra target ∙ ground arith)
      rules

-- A lane may run a command exactly where its shell policy, as shellPolicyForAuthority reads it,
-- permits the command: an allow pattern matches and no deny pattern does.
pub lane_rules-bash :
    (a : Authority) (extra : List Text) (rules : List Rule) (sp : Policy) (command : Text)
    → policy_for_authority a.shell_policy a.shell ≡ ok sp
    → lane_permission_rules a extra ≡ ok rules
    → decide rules "bash" command ≡ some (allow_if (permits sp command))
lane_rules-bash a extra rules sp command e =
    rules-inversion (λ rs. decide rs "bash" command ≡ some (allow_if (permits sp command))) a extra
      (λ sp' mp h.
        let same : sp' ≡ sp = ground (arith, e, h) in
        rw (← same) (decide-bash (permission_authority a) sp' mp extra command))
      rules

-- No lane may read, grep, glob, list or query the language server for a target that a secret glob
-- matches, one of the defaults or one of the lane's own, whatever its authority.
pub lane_rules-secret :
    (a : Authority) (extra : List Text) (rules : List Rule) (permission : String) (target : Text)
    → reads permission ≡ true
    → any (λ g. glob g target) (default_secret_globs ++ extra) ≡ true
    → lane_permission_rules a extra ≡ ok rules
    → decide rules permission target ≡ some deny
lane_rules-secret a extra rules permission target r h =
    rules-inversion (λ rs. decide rs permission target ≡ some deny) a extra
      (λ sp mp _. decide-secret (permission_authority a) sp mp extra target permission r h) rules
