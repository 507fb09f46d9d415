-- ===== src/Tests/Authority.antt =====
-- Patterns of a run against those of its lanes.
use opencode_workflows.Prelude.{◌≡◌, refl, true, false, some, [], ◌∷◌, ok, throw, codes}
use opencode_workflows.Authority.Pattern.{
  Policy, many, single, absent, is_literal, text, normalize_pattern_list, exceeds_mcp_policy,
}
use opencode_workflows.Authority.Narrow.{DeclaredPolicy, require_covered, narrow_mcp_policy}
use opencode_workflows.Authority.Narrowing.{
  glob, permits, narrow_mcp_policy_sound, question-parent_escapes,
}

abbrev parent : Policy
parent = record {
  allow = codes "mcp__docs_*" ∷ codes "mcp__search" ∷ [];
  deny = codes "*_delete" ∷ [];
}

abbrev lane : Policy
lane = record {
  allow = codes "mcp__docs_read*" ∷ [];
  deny = codes "*_delete" ∷ codes "mcp__docs_read_all" ∷ [];
}

abbrev declared : DeclaredPolicy
declared = record {
  allow = some (single (text (codes " mcp__docs_read* ")));
  deny = many (text (codes "mcp__docs_read_all") ∷ []);
}

narrowed : narrow_mcp_policy parent declared ≡ ok lane
unfolding narrow_mcp_policy
narrowed = refl

refused :
    narrow_mcp_policy parent
      (record { allow = some (single (text (codes "mcp__*"))); deny = absent })
    ≡ throw (exceeds_mcp_policy (codes "mcp__*"))
unfolding narrow_mcp_policy
refused = refl

narrow_mcp_policy_sound_example : permits parent (codes "mcp__docs_read_one") ≡ true
unfolding glob
narrow_mcp_policy_sound_example =
    narrow_mcp_policy_sound parent declared parent.allow parent.deny lane
      (codes "mcp__docs_read_one") (unfold normalize_pattern_list in refl)
      (unfold normalize_pattern_list in refl) (refl, (refl, tt)) narrowed (unfold permits in refl)

question-parent_escapes_example :
    let parent : Policy = record { allow = codes "mcp__v?" ∷ []; deny = [] } in
    let lane : Policy = record { allow = codes "mcp__v*" ∷ []; deny = [] } in
    (require_covered parent lane.allow ≡ ok tt)
    × (permits lane (codes "mcp__v10") ≡ true)
    × (permits parent (codes "mcp__v10") ≡ false)
unfolding is_literal
question-parent_escapes_example = question-parent_escapes (codes "mcp__v") b'1' b'0' refl
