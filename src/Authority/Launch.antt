-- ===== src/Authority/Launch.antt =====
-- The tiers of automatic approval of workflow-kernel/authority-policy.js.
use opencode_workflows.Prelude.{
  ◌≡◌, refl, ℕ, min, Bool, true, ◌&&◌, ◌||◌, Option, none, some, ltb, leb, ◌==◌, arith,
  if◌then◌else◌,
}
use opencode_workflows.Authority.Run.{Authority}

pub data Tier : Type 0 where
  read_only worktree all_tiers : Tier

-- A value that is not a tier is `none`, as `normalizeAutoApproveTier` makes it `false`.
unfoldable pub auto_approve_tier_rank : Option Tier → ℕ
auto_approve_tier_rank none = 0
auto_approve_tier_rank (some read_only) = 1
auto_approve_tier_rank (some worktree) = 2
auto_approve_tier_rank (some all_tiers) = 3

-- AUTO_APPROVE_TIER_BY_RANK.
unfoldable pub tier_by_rank : ℕ → Option Tier
tier_by_rank rank =
    if rank == 1
    then some read_only
    else if rank == 2
    then some worktree
    else if rank == 3
    then some all_tiers
    else none

unfoldable pub authority_auto_approve_tier : Authority → Tier
authority_auto_approve_tier a =
    if a.integration || (a.network || a.mcp)
    then all_tiers
    else if a.edit || a.worktree_edit
    then worktree
    else read_only

-- The value that a call asks for: nothing, or a value that may be no tier.
pub data Requested : Type 0 where
  nothing : Requested
  asked : Option Tier → Requested

unfoldable pub effective_auto_approve_ceiling : Option Tier → Requested → Option Tier
unfolding auto_approve_tier_rank tier_by_rank
effective_auto_approve_ceiling configured requested =
    let configured_rank = auto_approve_tier_rank configured in
    if leb configured_rank 0 then none else elim requested [
      | nothing ↦ tier_by_rank configured_rank
      | asked value ↦
          let requested_rank = auto_approve_tier_rank value in
          if leb requested_rank 0 then none else tier_by_rank (min configured_rank requested_rank)
    ]

unfoldable pub auto_approve_covers : Option Tier → Option Tier → Bool
unfolding auto_approve_tier_rank
auto_approve_covers ceiling tier =
    let ceiling_rank = auto_approve_tier_rank ceiling in
    let tier_rank = auto_approve_tier_rank tier in
    ltb 0 ceiling_rank && (ltb 0 tier_rank && leb tier_rank ceiling_rank)

abbrev pub request_covers : Requested → Option Tier → Bool
request_covers nothing tier = true
request_covers (asked value) tier = auto_approve_covers value tier

-- A call can narrow the configured ceiling and never widen it: a tier is covered by the effective
-- ceiling exactly where the configured ceiling covers it and the ceiling that the call asks for, if
-- it asks for one, covers it too.
effective_auto_approve_ceiling-covers :
    (configured : Option Tier) (requested : Requested) (tier : Option Tier)
    → auto_approve_covers (effective_auto_approve_ceiling configured requested) tier
      ≡ (auto_approve_covers configured tier && request_covers requested tier)
unfolding auto_approve_covers effective_auto_approve_ceiling
effective_auto_approve_ceiling-covers none requested tier = refl
effective_auto_approve_ceiling-covers (some c) nothing tier = ground arith
effective_auto_approve_ceiling-covers (some c) (asked none) tier = ground arith
effective_auto_approve_ceiling-covers (some c) (asked (some r)) tier = ground arith
