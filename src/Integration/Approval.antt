-- ===== src/Integration/Approval.antt =====
-- What an integration that awaits the approval of its diff has been through.
use opencode_workflows.Prelude.{
  ◌≡◌, ap, sym, ◌∙◌, String, Bool, true, false, not, ◌||◌, Option, none, some, List, [], ◌∷◌, ◌++◌,
  map, ok, All, any, Bool-cases, inl, inr, arith, ok-injective, Outcome-cases,
}
use mathlib.Core.List.{append-nil, append_assoc}
use opencode_workflows.Integration.{
  Change, Lane, Adapter, Patch, awaiting_diff_approval, is_unsupported, detect_path_conflicts,
  merge_lanes, validation_passes, as_result, after_merges, build_patch, build_patches,
  integrate_lane_commits, normalize_relative_path,
}

module _ (adapter : Adapter) where
  merge_lanes-all :
      (lanes : List Lane) (merged all : List String)
      → merge_lanes adapter lanes merged ≡ (true, all)
      → all ≡ merged ++ map (λ lane. lane.call_id) lanes
  unfolding merge_lanes
  merge_lanes-all [] merged all h = ap (λ r. r.1) (sym h) ∙ sym (append-nil merged)
  merge_lanes-all (lane ∷ lanes) merged all h = elim (Outcome-cases (adapter.merge merged lane)) [
    | inr (e, bad) ↦ absurd (ground (arith, h, bad))
    | inl (u, good) ↦
        let next : merge_lanes adapter lanes (merged ++ lane.call_id ∷ []) ≡ (true, all) =
          ground (arith, good, h) in
        merge_lanes-all lanes (merged ++ lane.call_id ∷ []) all next
        ∙ append_assoc merged (lane.call_id ∷ []) (map (λ lane. lane.call_id) lanes)
  ]

  abbrev Open : Patch → Type 0
  Open patch = adapter.protected patch.path ≡ false

  build_patch-Open :
      (change : Change) (path : String) (content : Option String) (patches : List Patch)
      (bad : List String)
      → All Open patches
      → All Open (build_patch adapter change path content (patches, bad)).0
  build_patch-Open change path none patches bad h = h
  build_patch-Open change path (some content) patches bad h =
      elim (Bool-cases (not change.supported || adapter.protected path)) [
        | inl y ↦ rw y h
        | inr n ↦ rw n (ground (arith, n), h)
      ]

  build_patches-Open :
      (changes : List Change) (patches : List Patch) (bad : List String)
      → build_patches adapter changes ≡ ok (patches, bad)
      → All Open patches
  unfolding build_patches
  build_patches-Open [] patches bad h = rw (ap (λ r. r.0) (sym (ok-injective h))) tt
  build_patches-Open (change ∷ changes) patches bad h =
      elim (Outcome-cases (normalize_relative_path change.path)) [
        | inr (e, wrong) ↦ absurd (ground (arith, h, wrong))
        | inl (path, safe) ↦ elim (Outcome-cases (build_patches adapter changes)) [
          | inr (e, wrong) ↦ absurd (ground (arith, h, safe, wrong))
          | inl (rest, built) ↦
              let h' = ok-injective (rw (safe, built) at h) in
              rw (ap (λ r. r.0) (sym h')) (
                build_patch-Open change path (adapter.read_file path) rest.0 rest.1
                  (build_patches-Open changes rest.0 rest.1 built))
        ]
      ]

  -- What holds of an integration that awaits approval.
  pub record IsApprovable (lanes : List Lane) (merged : List String) (patches : List Patch)
      : Type 0 where
    pub supported : any (is_unsupported adapter) lanes ≡ false
    pub apart : detect_path_conflicts lanes ≡ ok []
    pub complete : merged ≡ map (λ lane. lane.call_id) (adapter.sort lanes)
    pub validated : validation_passes adapter adapter.validate merged ≡ true
    pub open_paths : All (λ patch. adapter.protected patch.path ≡ false) patches

  as_result-Open :
      (merged all : List String) (patches : List Patch) (changes : List Change)
      → as_result adapter all (build_patches adapter changes)
        ≡ awaiting_diff_approval merged patches
      → (all ≡ merged) × All Open patches
  as_result-Open merged all patches changes h =
      elim (Outcome-cases (build_patches adapter changes)) [
        | inr (e, wrong) ↦ absurd (ground (arith, h, wrong))
        | inl ((found, []), built) ↦
            let same : found ≡ patches = ground (arith, h, built) in
            (ground (arith, h, built), rw (← same) (build_patches-Open changes found [] built))
        | inl ((found, x ∷ xs), built) ↦ absurd (ground (arith, h, built))
      ]

  after_merges-Approvable :
      (r : Bool × List String) (merged : List String) (patches : List Patch)
      → after_merges adapter r ≡ awaiting_diff_approval merged patches
      → (r ≡ (true, merged))
        × (validation_passes adapter adapter.validate merged ≡ true)
        × All Open patches
  after_merges-Approvable (false, all) merged patches h = cc
  after_merges-Approvable (true, all) merged patches h =
      elim (Bool-cases (validation_passes adapter adapter.validate all)) [
        | inr n ↦ absurd (ground (arith, h, n))
        | inl y ↦ elim (Outcome-cases (adapter.changed_paths all)) [
          | inr (e, wrong) ↦ absurd (ground (arith, h, y, wrong))
          | inl (changes, got) ↦
              let (same, open_paths) =
                as_result-Open merged all patches changes (rw (y, got) at h) in
              (ap (λ m. (true, m)) same, rw (← same) y, open_paths)
        ]
      ]

  -- An integration that awaits the approval of its diff has no lane with a change that is unsupported
  -- or protected, has no two calls that changed one path, has merged every lane in the sorted order,
  -- has passed its validation where there is one, and proposes patches of unprotected paths only.
  pub integrate_lane_commits-IsApprovable :
      (lanes : List Lane) (merged : List String) (patches : List Patch)
      → integrate_lane_commits adapter lanes ≡ ok (awaiting_diff_approval merged patches)
      → IsApprovable lanes merged patches
  unfolding integrate_lane_commits
  integrate_lane_commits-IsApprovable lanes merged patches h =
      elim (Bool-cases (any (is_unsupported adapter) lanes)) [
        | inl bad ↦ absurd (ground (arith, h, bad))
        | inr fine ↦ elim (Outcome-cases (detect_path_conflicts lanes)) [
          | inr (e, wrong) ↦ absurd (ground (arith, h, fine, wrong))
          | inl (x ∷ xs, found) ↦ absurd (ground (arith, h, fine, found))
          | inl ([], apart) ↦ elim (Outcome-cases adapter.create_worktree) [
            | inr (e, wrong) ↦ absurd (ground (arith, h, fine, apart, wrong))
            | inl (u, made) ↦
                let r = merge_lanes adapter (adapter.sort lanes) [] in
                let reached : after_merges adapter r ≡ awaiting_diff_approval merged patches =
                  ground (arith, h, fine, apart, made) in
                let (all, passes, open_paths) = after_merges-Approvable r merged patches reached in
                record {
                  supported = fine;
                  apart = apart;
                  complete = merge_lanes-all (adapter.sort lanes) [] merged all;
                  validated = passes;
                  open_paths = open_paths;
                }
          ]
        ]
      ]
