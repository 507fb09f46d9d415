-- ===== src/Tests/Auto.antt =====
-- Drains that apply their plans by themselves.
use opencode_workflows.Prelude.{◌≡◌, refl, true, false, some, [], ◌∷◌, ok, codes, ◌⊎◌}
use opencode_workflows.Paths.{FilePath, path_eq}
use opencode_workflows.Apply.{◌>>=◌, catching, reading}
use opencode_workflows.Apply.Run.{apply_workflow}
use opencode_workflows.Apply.Auto.{
  DrainRun, auto_apply_drain, run_auto_apply, should_auto_apply_drain,
}
use opencode_workflows.Apply.Unattended.{apply_workflow-auto_applied}
use opencode_workflows.Apply.Trusted.{MayApply, auto_apply_drain-MayApply}
use opencode_workflows.Tests.Apply.{
  root, quiet, patches, before, args, entry, waiting, two_files, a_txt,
}

abbrev bundled : FilePath
bundled = codes "pkg" ∷ codes "workflows" ∷ []

abbrev trusted_run : DrainRun
trusted_run = record {
  is_drain = true;
  is_autonomous_local = true;
  source_path = codes "pkg" ∷ codes "workflows" ∷ codes "drain.js" ∷ [];
  registration = some true;
}

-- A workflow of the project that has the name of a bundled one is not trusted.
shadow :
    should_auto_apply_drain bundled []
      (record trusted_run { source_path = codes "r" ∷ codes "workflows" ∷ codes "drain.js" ∷ [] })
    ≡ false
unfolding should_auto_apply_drain
shadow = refl

auto_applied : (run_auto_apply quiet root patches "p" before).0 ≡ ok true
unfolding run_auto_apply ◌>>=◌ catching path_eq
auto_applied = refl

auto_writes_a :
    (auto_apply_drain quiet root bundled [] trusted_run patches "p" before).1.files a_txt
    ≡ some "new a"
unfolding auto_apply_drain ◌>>=◌ catching reading path_eq
auto_writes_a = refl

apply_workflow-auto_applied_example :
    let w = (run_auto_apply quiet root patches "p" before).1 in
    (apply_workflow quiet root args entry w).1.files ≡ w.files
apply_workflow-auto_applied_example =
    apply_workflow-auto_applied quiet root patches "p" before quiet args entry auto_applied
      (λ plan e. refl)

auto_apply_drain-MayApply_example :
    ((auto_apply_drain quiet root bundled [] trusted_run patches "p" before).1.files ≡ two_files)
    ⊎ MayApply bundled [] trusted_run waiting
auto_apply_drain-MayApply_example =
    auto_apply_drain-MayApply quiet root bundled [] trusted_run patches "p" before
