-- ===== src/Maps.antt =====
-- The two maps of the process that forget their oldest entry: workflow-kernel/pending-approvals.js and
-- the policies of workflow-kernel/lane-effort-policy.js.
pub mod Bounded
use opencode_workflows.Prelude.{
  ℕ, String, Bool, true, false, Option, none, some, List, [], ◌∷◌, ◌++◌, str_eq, length, ltb,
  if◌then◌else◌,
}
use opencode_workflows.Prelude.Dict
use opencode_workflows.Prelude.Dict.{Dict}

abbrev pub max_pending_approvals : ℕ
max_pending_approvals = 16

abbrev pub lane_effort_policy_max : ℕ
lane_effort_policy_max = 1000

module _ {V : Type 0} where
  -- `while (map.size > max) map.delete(map.keys().next().value)`.
  unfoldable pub evict : ℕ → Dict V → Dict V
  evict max [] = []
  evict max (entry ∷ d) =
      let rest = evict max d in if ltb max (length (entry ∷ d)) then rest else entry ∷ d

  -- `delete` and `set`: the entry is the latest one.
  unfoldable pub renew : Dict V → String → V → Dict V
  renew d key value = Dict.remove d key ++ (key, value) ∷ []

  -- `recordPendingApproval`, with a text for a hash.
  unfoldable pub record_pending_approval : Dict V → String → V → Dict V
  unfolding evict renew
  record_pending_approval pending hash entry =
      if str_eq hash "" then pending else evict max_pending_approvals (renew pending hash entry)

  unfoldable pub peek_pending_approval : Dict V → String → Option V
  peek_pending_approval pending hash = Dict.get pending hash

  -- `BoundedLaneEffortMap.set`, through `registerLaneEffort`.
  unfoldable pub register_lane_effort : Dict V → String → V → Dict V
  unfolding evict renew
  register_lane_effort policies child_id policy =
      if str_eq child_id ""
      then policies
      else evict lane_effort_policy_max (renew policies child_id policy)

  unfoldable pub clear_lane_effort : Dict V → String → Dict V
  clear_lane_effort policies child_id =
      if str_eq child_id "" then policies else Dict.remove policies child_id

  abbrev renewed : Dict V → String → Option V → Option V × Dict V
  renewed policies child_id none = (none, policies)
  renewed policies child_id (some policy) =
      (some policy, evict lane_effort_policy_max (renew policies child_id policy))

  -- `BoundedLaneEffortMap.get`, through `laneEffortPolicyForChild`: what is read becomes the latest.
  unfoldable pub lane_effort_policy_for_child : Dict V → String → Option V × Dict V
  lane_effort_policy_for_child policies child_id =
      if str_eq child_id ""
      then (none, policies)
      else renewed policies child_id (Dict.get policies child_id)
