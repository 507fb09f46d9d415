-- ===== src/Integration.antt =====
-- workflow-kernel/integration-mode.js: which lanes conflict, and the merge of lanes into one worktree.
-- Git, the file system, protectedPathReason and the order of localeCompare are parameters.
pub mod Conflicts
pub mod Approval
use Prim.Native.Char.{code}
use Prim.Native.String
use text.Mathlib.Text.{starts_with}
use opencode_workflows.Prelude.{
  String, Bool, true, false, not, ◌&&◌, ◌||◌, Option, none, some, List, [], ◌∷◌, ◌++◌, Outcome, ok,
  throw, ◌>>=◌, any, find_first, str_eq, ◌==◌, if◌then◌else◌,
}
use opencode_workflows.Prelude.Dict
use opencode_workflows.Prelude.Dict.{Dict}
use opencode_workflows.Resume.Scope.{split_slash}

pub data IntegrationError : Type 0 where
  unsafe_path : String → IntegrationError
  failure : String → IntegrationError

-- `replace(/\\/g, "/")`.
unfoldable pub forward_slashes : String → String
forward_slashes String.[] = ""
forward_slashes (String.◌∷◌ c s) =
    let rest = forward_slashes s in
    if code c == b'\\' then String.◌++◌ "/" rest else String.◌∷◌ c rest

unfoldable pub normalize_relative_path : String → Outcome IntegrationError String
unfolding forward_slashes split_slash
normalize_relative_path path =
    let normalized = forward_slashes path in
    if str_eq normalized ""
      || (starts_with normalized "/" || any (str_eq "..") (split_slash normalized))
    then throw (unsafe_path path)
    else ok normalized

-- A changed path, with the letter of its git status.
pub record Change : Type 0 where
  pub path : String
  pub status : String
  pub supported : Bool

pub record Lane : Type 0 where
  pub call_id : String
  pub paths : List Change

pub record Conflict : Type 0 where
  pub path : String
  pub first : String
  pub second : String

-- `seen` and `conflicts`, the latest conflict first.
pub record Scan : Type 0 where
  pub seen : Dict String
  pub conflicts : List Conflict

abbrev pub meet : Option String → String → String → Scan → Scan
meet none path call_id scan = record scan { seen = Dict.put scan.seen path call_id }
meet (some previous) path call_id scan =
    if str_eq previous call_id
    then record scan { seen = Dict.put scan.seen path call_id }
    else record scan {
      conflicts = record { path = path; first = previous; second = call_id } ∷ scan.conflicts;
    }

unfoldable pub scan_changes : String → List Change → Scan → Outcome IntegrationError Scan
scan_changes call_id [] scan = ok scan
scan_changes call_id (change ∷ changes) scan = do
  path ← normalize_relative_path change.path
  scan_changes call_id changes (meet (Dict.get scan.seen path) path call_id scan)

unfoldable pub scan_lanes : List Lane → Scan → Outcome IntegrationError Scan
scan_lanes [] scan = ok scan
scan_lanes (lane ∷ lanes) scan = do
  scan' ← scan_changes lane.call_id lane.paths scan
  scan_lanes lanes scan'

unfoldable pub detect_path_conflicts : List Lane → Outcome IntegrationError (List Conflict)
detect_path_conflicts lanes = do
  scan ← scan_lanes lanes (record { seen = []; conflicts = [] })
  ok scan.conflicts

-- What validateIntegrationWorktree returns: `true`, `false`, no object, or an object by the fields
-- that are read.
pub record ValidationObject : Type 0 where
  pub accepted : Bool
  pub is_ok : Bool
  pub status : Option String

pub data RawValidation : Type 0 where
  passed rejected no_result : RawValidation
  object : ValidationObject → RawValidation

pub record Validation : Type 0 where
  pub accepted : Bool
  pub status : String

abbrev passing_status : Option String → Bool
passing_status none = false
passing_status (some status) =
    any (str_eq status) ("ok" ∷ "pass" ∷ "passed" ∷ "success" ∷ "validated" ∷ [])

abbrev status_or : Option String → Bool → String
status_or none accepted = if accepted then "passed" else "failed"
status_or (some status) accepted = status

unfoldable pub normalize_integration_validation_result : RawValidation → Validation
normalize_integration_validation_result passed = record { accepted = true; status = "passed" }
normalize_integration_validation_result rejected = record { accepted = false; status = "failed" }
normalize_integration_validation_result no_result = record { accepted = false; status = "failed" }
normalize_integration_validation_result (object result) =
    let accepted = result.accepted || (result.is_ok || passing_status result.status) in
    record { accepted = accepted; status = status_or result.status accepted }

-- The worktree adapter and git. What they answer may depend on the lanes merged so far.
pub record Adapter : Type 0 where
  pub protected : String → Bool
  pub sort : List Lane → List Lane
  pub create_worktree : Outcome String (Unit {0})
  pub merge : List String → Lane → Outcome String (Unit {0})
  pub validate : Option (List String → Outcome String RawValidation)
  pub changed_paths : List String → Outcome String (List Change)
  -- Whether a changed file is a regular file that can be read as UTF-8, and then what it holds.
  pub read_file : String → Option String

pub data Reason : Type 0 where
  unsupported_lane_change merge_failed integration_validation_failed unsupported_integration_change
        integration_failed :
      Reason
  path_conflict : List Conflict → Reason

pub record Patch : Type 0 where
  pub path : String
  pub content : String

pub data Integrated : Type 0 where
  review_required : Reason → List String → Integrated
  awaiting_diff_approval : List String → List Patch → Integrated

module _ (adapter : Adapter) where
  abbrev pub unsupported : Change → Bool
  unsupported change = not change.supported || adapter.protected change.path

  abbrev pub is_unsupported : Lane → Bool
  is_unsupported lane = any unsupported lane.paths

  -- `buildPatchesFromIntegration`: the patches, and the paths that cannot be patched.
  abbrev pub build_patch :
      Change → String → Option String → List Patch × List String → List Patch × List String
  build_patch change path none (patches, bad) = (patches, path ∷ bad)
  build_patch change path (some content) (patches, bad) =
      if not change.supported || adapter.protected path
      then (patches, path ∷ bad)
      else (record { path = path; content = content } ∷ patches, bad)

  unfoldable pub build_patches : List Change → Outcome IntegrationError (List Patch × List String)
  build_patches [] = ok ([], [])
  build_patches (change ∷ changes) = do
    path ← normalize_relative_path change.path
    rest ← build_patches changes
    ok (build_patch change path (adapter.read_file path) rest)

  -- The merges in order, until one fails; whether all went through, and the lanes merged.
  unfoldable pub merge_lanes : List Lane → List String → Bool × List String
  merge_lanes [] merged = (true, merged)
  merge_lanes (lane ∷ lanes) merged = elim (adapter.merge merged lane) [
    | throw e ↦ (false, merged)
    | ok _ ↦ merge_lanes lanes (merged ++ lane.call_id ∷ [])
  ]

  -- Whether the validation lets the integration go on; one that throws is a failed one.
  abbrev pub validated : Outcome String RawValidation → Bool
  validated (throw e) = false
  validated (ok raw) = (normalize_integration_validation_result raw).accepted

  abbrev pub validation_passes :
      Option (List String → Outcome String RawValidation) → List String → Bool
  validation_passes none merged = true
  validation_passes (some validate) merged = validated (validate merged)

  abbrev pub as_result :
      List String → Outcome IntegrationError (List Patch × List String) → Integrated
  as_result merged (throw e) = review_required integration_failed merged
  as_result merged (ok (patches, [])) = awaiting_diff_approval merged patches
  as_result merged (ok (patches, bad ∷ more)) =
      review_required unsupported_integration_change merged

  abbrev pub with_changes : List String → Outcome String (List Change) → Integrated
  with_changes merged (throw e) = review_required integration_failed merged
  with_changes merged (ok changes) = as_result merged (build_patches changes)

  abbrev pub after_merges : Bool × List String → Integrated
  after_merges (false, merged) = review_required merge_failed merged
  after_merges (true, merged) =
      if validation_passes adapter.validate merged
      then with_changes merged (adapter.changed_paths merged)
      else review_required integration_validation_failed merged

  abbrev pub after_conflicts : List Lane → List Conflict → Outcome IntegrationError Integrated
  after_conflicts lanes (conflict ∷ conflicts) =
      ok (review_required (path_conflict (conflict ∷ conflicts)) [])
  after_conflicts lanes [] = elim adapter.create_worktree [
    | throw message ↦ throw (failure message)
    | ok _ ↦ ok (after_merges (merge_lanes (adapter.sort lanes) []))
  ]

  -- `integrateLaneCommits`, from the lanes with their changed paths.
  unfoldable pub integrate_lane_commits : List Lane → Outcome IntegrationError Integrated
  integrate_lane_commits lanes =
      if any is_unsupported lanes
      then ok (review_required unsupported_lane_change [])
      else detect_path_conflicts lanes >>= after_conflicts lanes
