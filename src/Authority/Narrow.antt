-- ===== src/Authority/Narrow.antt =====
-- narrowMcpPolicy of workflow-kernel/authority-policy.js.
use opencode_workflows.Prelude.{
  Option, none, some, List, [], ◌∷◌, ◌++◌, map, Outcome, ok, ◌>>=◌, ◌>>◌, require,
}
use opencode_workflows.Authority.Pattern.{
  Text, text, Declared, many, AuthorityError, exceeds_mcp_policy, Policy, unique,
  normalize_pattern_list, policy_allows_pattern,
}

-- `declared`, with the key `allow` present or not.
pub record DeclaredPolicy : Type 0 where
  pub allow : Option Declared
  pub deny : Declared

abbrev pub texts : List Text → Declared
texts ts = many (map text ts)

unfoldable pub require_covered : Policy → List Text → Outcome AuthorityError (Unit {0})
unfolding policy_allows_pattern
require_covered parent [] = ok tt
require_covered parent (pattern ∷ ps) = do
  require (policy_allows_pattern parent pattern) (exceeds_mcp_policy pattern)
  require_covered parent ps

abbrev pub declared_allow : Option Declared → List Text → Outcome AuthorityError (List Text)
declared_allow none parent = ok parent
declared_allow (some declared) parent = normalize_pattern_list declared

unfoldable pub narrow_mcp_policy : Policy → DeclaredPolicy → Outcome AuthorityError Policy
unfolding normalize_pattern_list require_covered unique
narrow_mcp_policy parent_policy declared = do
  parent_allow ← normalize_pattern_list (texts parent_policy.allow)
  parent_deny ← normalize_pattern_list (texts parent_policy.deny)
  allow ← declared_allow declared.allow parent_allow
  require_covered (record { allow = parent_allow; deny = parent_deny }) allow
  deny ← normalize_pattern_list declared.deny
  ok (record { allow = allow; deny = unique (parent_deny ++ deny) })
