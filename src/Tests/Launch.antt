-- ===== src/Tests/Launch.antt =====
-- Ceilings, drain modes and tools at a few inputs.
use opencode_workflows.Prelude.{◌≡◌, refl, some, none, ok, throw}
use opencode_workflows.Authority.Launch.{worktree, all_tiers, asked, effective_auto_approve_ceiling}
use opencode_workflows.Authority.DrainMode.{
  autonomous_local, no_mode, dry_run_off, RuntimeArgs, object, conflict, drain_mode_of_launch,
}
use opencode_workflows.Authority.Tools.{resolve_lane_model, deep}

narrowed_ceiling :
    effective_auto_approve_ceiling (some worktree) (asked (some all_tiers)) ≡ some worktree
unfolding effective_auto_approve_ceiling
narrowed_ceiling = refl

abbrev autonomous_args : RuntimeArgs
autonomous_args = record { mode = no_mode; dry_run = dry_run_off }

launched : drain_mode_of_launch none (object autonomous_args) ≡ ok autonomous_local
unfolding drain_mode_of_launch
launched = refl

conflicting : drain_mode_of_launch (some "drain-dry-run") (object autonomous_args) ≡ throw conflict
unfolding drain_mode_of_launch
conflicting = refl

explicit_model : resolve_lane_model none (some "p/m") (some "") deep ≡ ok (some "p/m")
unfolding resolve_lane_model
explicit_model = refl
