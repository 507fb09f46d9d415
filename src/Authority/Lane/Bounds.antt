-- ===== src/Authority/Lane/Bounds.antt =====
-- A lane never has an authority that its run was not approved for.
use opencode_workflows.Prelude.{
  ◌≡◌, ◌⊎◌, Bool, true, false, subst, Ensures, Ensures-bind, ok-injective, Option, none, some, List,
  [], ◌∷◌, ok, arith,
}
use opencode_workflows.Authority.Pattern.{Policy}
use opencode_workflows.Authority.Narrow.{DeclaredPolicy}
use opencode_workflows.Authority.Run.{Authority, policy_for_authority}
use opencode_workflows.Authority.Lane.{
  Dimension, shell, network, mcp, edit, worktree_edit, LaneOptions, LanePolicy, grant_dimension,
  grant_all, lane_base, narrow_lane, edit_lane, lane_authority, check_tools, resolve_lane_policy,
  lane_mcp_policy_option, requested_dimensions, lane_tools,
}

-- Every authority of the lane was approved for the run. Integration approves worktree edits too.
pub record IsWithin (run lane : Authority) : Type 0 where
  pub shell : lane.shell ≡ true → run.shell ≡ true
  pub network : lane.network ≡ true → run.network ≡ true
  pub mcp : lane.mcp ≡ true → run.mcp ≡ true
  pub edit : lane.edit ≡ true → run.edit ≡ true
  pub worktree_edit :
      lane.worktree_edit ≡ true → (run.worktree_edit ≡ true) ⊎ (run.integration ≡ true)
  pub integration : lane.integration ≡ true → run.integration ≡ true

grant_dimension-IsWithin :
    (run : Authority) (read_only : Bool) (d : Dimension) (a : Authority) {a' : Authority}
    → IsWithin run a
    → grant_dimension run read_only d a ≡ ok a'
    → IsWithin run a'
unfolding grant_dimension
grant_dimension-IsWithin run ro shell a w h = ground arith
grant_dimension-IsWithin run ro network a w h = ground arith
grant_dimension-IsWithin run ro mcp a w h = ground arith
grant_dimension-IsWithin run ro edit a w h = ground arith
grant_dimension-IsWithin run ro worktree_edit a w h = ground arith
grant_dimension-IsWithin run ro _ a w h = ground arith

grant_all-IsWithin :
    (run : Authority) (read_only : Bool) (ds : List Dimension) (a : Authority)
    → IsWithin run a
    → Ensures (IsWithin run) (grant_all run read_only ds a)
unfolding grant_all
grant_all-IsWithin run ro [] a w b h = ground arith
grant_all-IsWithin run ro (d ∷ ds) a w b' h' =
    (Ensures-bind (IsWithin run) (grant_dimension run ro d a) (grant_all run ro ds)
        (λ b h. grant_all-IsWithin run ro ds b (grant_dimension-IsWithin run ro d a w h)))
      b' h'

lane_base-IsWithin :
    (run : Authority) (sp mp : Policy) (read_only : Bool)
    → IsWithin run (lane_base run sp mp read_only)
unfolding lane_base
lane_base-IsWithin run sp mp ro = ground arith

narrow_lane-IsWithin :
    (run : Authority) (read_only : Bool) (declared : Option DeclaredPolicy) (a : Authority)
    {a' : Authority}
    → IsWithin run a
    → narrow_lane run read_only declared a ≡ ok a'
    → IsWithin run a'
unfolding narrow_lane
narrow_lane-IsWithin run ro none a w h = ground arith
narrow_lane-IsWithin run true (some declared) a w h = ground arith
narrow_lane-IsWithin run false (some declared) a w h = ground arith

edit_lane-IsWithin :
    (run : Authority) (read_only : Bool) (a : Authority)
    → IsWithin run a
    → IsWithin run (edit_lane run read_only a)
unfolding edit_lane
edit_lane-IsWithin run ro a w = ground arith

lane_authority-IsWithin :
    (run : Authority) (opts : LaneOptions) → Ensures (IsWithin run) (lane_authority run opts)
unfolding lane_authority
lane_authority-IsWithin run opts =
    Ensures-bind (IsWithin run) (policy_for_authority run.shell_policy run.shell) _ λ sp _.
      Ensures-bind (IsWithin run) (policy_for_authority run.mcp_policy run.mcp) _ λ mp _.
        Ensures-bind (IsWithin run) (lane_mcp_policy_option opts) _ λ declared _.
          Ensures-bind (IsWithin run)
            (grant_all run opts.read_only (requested_dimensions opts declared)
              (lane_base run sp mp opts.read_only))
            _
            λ approved h.
              Ensures-bind (IsWithin run) (narrow_lane run opts.read_only declared approved) _
                λ narrowed k. λ a e. subst (IsWithin run) (ok-injective e) (
                  edit_lane-IsWithin run opts.read_only narrowed (
                    narrow_lane-IsWithin run opts.read_only declared approved
                      (grant_all-IsWithin run opts.read_only (requested_dimensions opts declared) _
                        (lane_base-IsWithin run sp mp opts.read_only) approved h)
                      k))

-- Every authority of a lane that resolveLanePolicy returns was approved for its run, whatever the
-- options of the lane ask for; a worktree edit is approved by the run's worktree edit or integration.
pub resolve_lane_policy-IsWithin :
    (run : Authority) (opts : LaneOptions) (lane : LanePolicy)
    → resolve_lane_policy run opts ≡ ok lane
    → IsWithin run lane.authority
unfolding resolve_lane_policy
resolve_lane_policy-IsWithin run opts =
    Ensures-bind (λ lane. IsWithin run lane.authority) (lane_authority run opts) _
      λ a h.
        Ensures-bind (λ lane. IsWithin run lane.authority) (check_tools a (lane_tools a opts)) _
          λ _ _ lane e. let w = lane_authority-IsWithin run opts a h in ground (arith, w)
