-- ===== src/Authority/Lane/ReadOnly.antt =====
-- What `readOnly: true` takes from a lane, and the tools that a lane is left with.
use opencode_workflows.Prelude.{
  ◌≡◌, refl, ◌&&◌, ◌||◌, str_eq, ◌⊎◌, inl, String, Bool, true, false, subst, Ensures, Ensures-bind,
  then-ok, ok-injective, Option, none, some, List, [], ◌∷◌, ok, ◌>>=◌, arith, All,
}
use opencode_workflows.Authority.Pattern.{Policy}
use opencode_workflows.Authority.Narrow.{DeclaredPolicy}
use opencode_workflows.Authority.Run.{Authority, policy_for_authority}
use opencode_workflows.Authority.Lane.{
  Dimension, shell, read, LaneOptions, LanePolicy, tool_authority, grant_dimension, grant_all,
  lane_base, narrow_lane, edit_lane, lane_authority, check_tool, check_tools, resolve_lane_policy,
  lane_mcp_policy_option, requested_dimensions, lane_tools, has,
}

-- A tool that is switched on reads, or needs an authority that the lane has, or is an edit tool of a
-- lane with its own worktree.
abbrev pub IsCovered : Authority → String × Bool → Type 0
IsCovered a (name, enabled) =
    enabled ≡ true
    → (tool_authority name ≡ read)
      ⊎ (has a (tool_authority name) ≡ true)
      ⊎ (((str_eq name "edit" || str_eq name "apply_patch") && a.worktree_edit) ≡ true)

check_tool-IsCovered :
    (a : Authority) (name : String) (d : Dimension)
    → check_tool a name d ≡ ok tt
    → (d ≡ read)
      ⊎ (has a d ≡ true)
      ⊎ (((str_eq name "edit" || str_eq name "apply_patch") && a.worktree_edit) ≡ true)
unfolding check_tool
check_tool-IsCovered a name read h = inl refl
check_tool-IsCovered a name _ h = ground arith

check_tools-IsCovered :
    (a : Authority) (tools : List (String × Bool))
    → check_tools a tools ≡ ok tt
    → All (IsCovered a) tools
unfolding check_tools
check_tools-IsCovered a [] h = tt
check_tools-IsCovered a ((name, true) ∷ tools) h =
    let (one, rest) = then-ok (check_tool a name (tool_authority name)) (check_tools a tools) h in
    (
      (λ _. check_tool-IsCovered a name (tool_authority name) one),
      check_tools-IsCovered a tools rest,
    )
check_tools-IsCovered a ((name, false) ∷ tools) h = ((λ e. cc), check_tools-IsCovered a tools h)

-- Every tool that is on in a lane that resolveLanePolicy returns reads, or needs an authority that
-- the lane has, or is edit or apply_patch in a lane that edits its own worktree.
pub resolve_lane_policy-IsCovered :
    (run : Authority) (opts : LaneOptions) (lane : LanePolicy)
    → resolve_lane_policy run opts ≡ ok lane
    → All (IsCovered lane.authority) lane.tools
unfolding resolve_lane_policy
resolve_lane_policy-IsCovered run opts =
    let P = λ (lane : LanePolicy). All (IsCovered lane.authority) lane.tools in
    Ensures-bind P (lane_authority run opts) _ λ a h.
      Ensures-bind P (check_tools a (lane_tools a opts)) _ λ t c lane e.
        subst P (ok-injective e) (check_tools-IsCovered a (lane_tools a opts) (ground (arith, c)))

pub record IsClosed (a : Authority) : Type 0 where
  pub shell : a.shell ≡ false
  pub network : a.network ≡ false
  pub mcp : a.mcp ≡ false
  pub edit : a.edit ≡ false
  pub worktree_edit : a.worktree_edit ≡ false
  pub integration : a.integration ≡ false

grant_dimension-IsClosed :
    (run : Authority) (d : Dimension) (a : Authority)
    → IsClosed a
    → Ensures IsClosed (grant_dimension run true d a)
unfolding grant_dimension
grant_dimension-IsClosed run shell a w b h = ground arith
grant_dimension-IsClosed run _ a w b h = ground arith

grant_all-IsClosed :
    (run : Authority) (ds : List Dimension) (a : Authority)
    → IsClosed a
    → Ensures IsClosed (grant_all run true ds a)
unfolding grant_all
grant_all-IsClosed run [] a w b h = ground arith
grant_all-IsClosed run (d ∷ ds) a w b h =
    Ensures-bind IsClosed (grant_dimension run true d a) (grant_all run true ds)
      (λ c k. grant_all-IsClosed run ds c (grant_dimension-IsClosed run d a w c k)) b h

narrow-edit-IsClosed :
    (run : Authority) (declared : Option DeclaredPolicy) (a : Authority)
    → IsClosed a
    → Ensures IsClosed (narrow_lane run true declared a >>= λ n. ok (edit_lane run true n))
unfolding narrow_lane edit_lane
narrow-edit-IsClosed run none a w b h = ground arith
narrow-edit-IsClosed run (some d) a w b h = ground arith

lane_base-IsClosed : (run : Authority) (sp mp : Policy) → IsClosed (lane_base run sp mp true)
unfolding lane_base
lane_base-IsClosed run sp mp = ground arith

lane_authority-IsClosed :
    (run : Authority) (opts : LaneOptions)
    → opts.read_only ≡ true
    → Ensures IsClosed (lane_authority run opts)
unfolding lane_authority
lane_authority-IsClosed run opts r = rw r (
    Ensures-bind IsClosed (policy_for_authority run.shell_policy run.shell) _ λ sp _.
      Ensures-bind IsClosed (policy_for_authority run.mcp_policy run.mcp) _ λ mp _.
        Ensures-bind IsClosed (lane_mcp_policy_option opts) _ λ declared _.
          Ensures-bind IsClosed
            (grant_all run true (requested_dimensions opts declared) (lane_base run sp mp true)) _
            λ approved h. narrow-edit-IsClosed run declared approved (
              grant_all-IsClosed run (requested_dimensions opts declared) _
                (lane_base-IsClosed run sp mp) approved h))

-- A tool that is on only reads.
abbrev pub IsRead : String × Bool → Type 0
IsRead (name, enabled) = enabled ≡ true → tool_authority name ≡ read

check_tool-strip :
    (a : Authority) (name : String) (d : Dimension)
    → IsClosed a
    → check_tool a name d ≡ ok tt
    → d ≡ read
unfolding check_tool
check_tool-strip a name read w h = refl
check_tool-strip a name _ w h = ground arith

check_tools-IsRead :
    (a : Authority) (tools : List (String × Bool))
    → IsClosed a
    → check_tools a tools ≡ ok tt
    → All IsRead tools
unfolding check_tools
check_tools-IsRead a [] w h = tt
check_tools-IsRead a ((name, true) ∷ tools) w h =
    let (one, rest) = then-ok (check_tool a name (tool_authority name)) (check_tools a tools) h in
    ((λ _. check_tool-strip a name (tool_authority name) w one), check_tools-IsRead a tools w rest)
check_tools-IsRead a ((name, false) ∷ tools) w h = ((λ e. cc), check_tools-IsRead a tools w h)

-- A lane that asks for `readOnly: true` has no shell, network, MCP, edit, worktree or integration
-- authority whatever else it asks for and whatever its run may do, and only tools that read are on.
pub resolve_lane_policy_read_only :
    (run : Authority) (opts : LaneOptions) (lane : LanePolicy)
    → opts.read_only ≡ true
    → resolve_lane_policy run opts ≡ ok lane
    → IsClosed lane.authority × All IsRead lane.tools
unfolding resolve_lane_policy
resolve_lane_policy_read_only run opts lane r h =
    let P = λ (lane : LanePolicy). IsClosed lane.authority × All IsRead lane.tools in
    Ensures-bind P (lane_authority run opts) _
      (λ a k. Ensures-bind P (check_tools a (lane_tools a opts)) _ λ t c lane e.
        let w = lane_authority-IsClosed run opts r a k in
        subst P (ok-injective e)
          (w, check_tools-IsRead a (lane_tools a opts) w (ground (arith, c))))
      lane h
