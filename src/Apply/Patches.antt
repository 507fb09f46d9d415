-- ===== src/Apply/Patches.antt =====
-- The writes of an apply and their rollback: rollbackPatches and the loop that applyWorkflow and
-- runAutoApply of workflow-kernel/workflow-plugin.js share.
use opencode_workflows.Prelude.{String, Option, none, some, List, [], ◌∷◌}
use mathlib.Core.List.{reverse}
use opencode_workflows.Authority.Pattern.{Text}
use opencode_workflows.Paths.{FilePath}
use opencode_workflows.Apply.{
  Host, Io, ◌>>=◌, ◌>>◌, catching, pure, remove_file, append_apply_ledger, before_write,
  after_write,
}
use opencode_workflows.Apply.Write.{safe_write_file_within_root}
use opencode_workflows.Apply.Targets.{Planned}

abbrev pub with_failure : Option Text → List Text → List Text
with_failure none paths = paths
with_failure (some path) paths = path ∷ paths

module _ (host : Host) (root : FilePath) where
  abbrev pub restore_to : Planned → Option String → Io (Unit {0})
  restore_to item (some previous) = safe_write_file_within_root host root item.path previous
  restore_to item none = remove_file host item.target

  -- One round of the loop of `rollbackPatches`: the path, if its restore failed.
  unfoldable pub restore : Planned → Io (Option Text)
  unfolding safe_write_file_within_root remove_file
  restore item = catching (restore_to item item.previous >> pure none) λ e. pure (some item.path)

  unfoldable pub restore_all : List Planned → Io (List Text)
  unfolding restore
  restore_all [] = pure []
  restore_all (item ∷ items) = do
    failure ← restore item
    failures ← restore_all items
    pure (with_failure failure failures)

  -- `rollbackPatches(planned, root)`: the paths of the failures.
  unfoldable pub rollback_patches : List Planned → Io (List Text)
  unfolding restore_all
  rollback_patches planned = restore_all (reverse planned)

  unfoldable pub write_patches : List Planned → Io (Unit {0})
  unfolding safe_write_file_within_root append_apply_ledger
  write_patches [] = pure tt
  write_patches (item ∷ items) = do
    append_apply_ledger host (before_write item.path)
    safe_write_file_within_root host root item.path item.content
    append_apply_ledger host (after_write item.path)
    write_patches items
