-- ===== src/Tests/Integration.antt =====
-- Two lanes, of which one has a Windows path, merged into one worktree.
use opencode_workflows.Prelude.{
  ◌≡◌, refl, ◌↔◌, true, some, Option, List, [], ◌∷◌, ok, String, str_eq,
}
use opencode_workflows.Prelude.Dict
use opencode_workflows.Integration.{
  Change, Lane, Adapter, Patch, passed, awaiting_diff_approval, detect_path_conflicts, scan_lanes,
  scan_changes, normalize_relative_path, normalize_integration_validation_result, merge_lanes,
  build_patches, integrate_lane_commits,
}
use opencode_workflows.Integration.Conflicts.{OwnsAll, detect_path_conflicts-nil_iff}
use opencode_workflows.Integration.Approval.{IsApprovable, integrate_lane_commits-IsApprovable}

abbrev modified : String → Change
modified path = record { path = path; status = "M"; supported = true }

abbrev first_lane : Lane
first_lane = record { call_id = "agent:1"; paths = modified "src/a.js" ∷ modified "src\\b.js" ∷ [] }

abbrev second_lane : Lane
second_lane = record { call_id = "agent:2"; paths = modified "src/c.js" ∷ [] }

abbrev both : List Lane
both = first_lane ∷ second_lane ∷ []

overlap :
    detect_path_conflicts
      (first_lane ∷ record second_lane { paths = modified "src/b.js" ∷ [] } ∷ [])
    ≡ ok (record { path = "src/b.js"; first = "agent:1"; second = "agent:2" } ∷ [])
unfolding detect_path_conflicts scan_lanes scan_changes normalize_relative_path Dict.get Dict.put
overlap = refl

detect_path_conflicts-nil_iff_example :
    (detect_path_conflicts both ≡ ok []) ↔ ((owner : String → Option String) × OwnsAll owner both)
detect_path_conflicts-nil_iff_example = detect_path_conflicts-nil_iff both

abbrev tree : Adapter
tree = record {
  protected = λ path. str_eq path ".env";
  sort = λ lanes. lanes;
  create_worktree = ok tt;
  merge = λ merged lane. ok tt;
  validate = some (λ merged. ok passed);
  changed_paths = λ merged. ok (modified "src/a.js" ∷ modified "src/c.js" ∷ []);
  read_file = λ path. some "text";
}

abbrev patches : List Patch
patches =
    record { path = "src/a.js"; content = "text" }
    ∷ record { path = "src/c.js"; content = "text" }
    ∷ []

integrated :
    integrate_lane_commits tree both
    ≡ ok (awaiting_diff_approval ("agent:1" ∷ "agent:2" ∷ []) patches)
unfolding integrate_lane_commits detect_path_conflicts scan_lanes scan_changes
    normalize_relative_path Dict.get Dict.put merge_lanes build_patches
    normalize_integration_validation_result
integrated = refl

integrate_lane_commits-IsApprovable_example :
    IsApprovable tree both ("agent:1" ∷ "agent:2" ∷ []) patches
integrate_lane_commits-IsApprovable_example =
    integrate_lane_commits-IsApprovable tree both ("agent:1" ∷ "agent:2" ∷ []) patches integrated
