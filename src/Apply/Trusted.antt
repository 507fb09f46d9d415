-- ===== src/Apply/Trusted.antt =====
-- When a drain of workflow-kernel/workflow-plugin.js applies its plan by itself.
use opencode_workflows.Prelude.{
  ◌≡◌, ◌≢◌, refl, sym, ap, ◌∙◌, ◌⊎◌, inl, inr, String, Bool, true, false, ◌&&◌, Option, none, some,
  List, [], ◌∷◌, ◌++◌, any, Bool-cases, arith,
}
use opencode_workflows.Authority.Pattern.{Text, text_eq}
use opencode_workflows.Paths.{FilePath, is_below, has_front, text_eq_iff, path_eq, path_eq_refl}
use opencode_workflows.Apply.{
  Status, awaiting_diff_approval, Host, World, RunState, ◌>>=◌, pure, reading,
}
use opencode_workflows.Apply.Auto.{
  DrainRun, is_awaiting_diff, is_trusted_auto_apply_source, may_apply, should_auto_apply_drain,
  auto_apply_drain,
}
use opencode_workflows.Apply.Targets.{RawPatch}

-- The run may apply its plan by itself.
pub record MayApply (bundled_dir : FilePath) (extension_dirs : List FilePath) (run : DrainRun)
    (state : RunState) : Type 0 where
  pub awaiting : state.status ≡ awaiting_diff_approval
  pub is_drain : run.is_drain ≡ true
  pub autonomous : run.is_autonomous_local ≡ true
  pub dir : FilePath
  pub listed : any (path_eq dir) (bundled_dir ∷ extension_dirs) ≡ true
  pub segments : List Text
  pub source : run.source_path ≡ dir ++ segments
  pub supported : run.registration ≢ some false

two_true : (a b : Bool) → (a && b) ≡ true → (a ≡ true) × (b ≡ true)
two_true a b h = (ground (arith, h), ground (arith, h))

-- A path below a directory is the directory with segments after it.
has_front-append :
    (dir path : FilePath) → has_front dir path ≡ true → (below : List Text) × (path ≡ dir ++ below)
unfolding has_front
has_front-append [] path h = (path, refl)
has_front-append (s ∷ dir) [] h = cc
has_front-append (s ∷ dir) (t ∷ path) h =
    let (same, rest) = two_true (text_eq s t) (has_front dir path) h in
    let (below, e) = has_front-append dir path rest in
    (below, ap (λ x. x ∷ path) (sym ((text_eq_iff s t).0 same)) ∙ ap (λ (p : FilePath). s ∷ p) e)

is_below-append :
    (dir path : FilePath) → is_below dir path ≡ true → (below : List Text) × (path ≡ dir ++ below)
unfolding is_below
is_below-append [] [] h = ([], refl)
is_below-append [] (t ∷ path) h = cc
is_below-append (s ∷ dir) path h = has_front-append (s ∷ dir) path h

any_dir :
    (dirs : List FilePath) (path : FilePath)
    → any (λ dir. is_below dir path) dirs ≡ true
    → (dir : FilePath) × (any (path_eq dir) dirs ≡ true) × (is_below dir path ≡ true)
any_dir [] path h = cc
any_dir (d ∷ dirs) path h = elim (Bool-cases (is_below d path)) [
  | inl here ↦ (d, rw (path_eq_refl d) refl, here)
  | inr away ↦
      let (dir, listed, below) = any_dir dirs path (rw away at h) in
      (dir, ground (arith, listed), below)
]

supported-eq : (o : Option Bool) → may_apply o ≡ true → o ≢ some false
supported-eq none h e = cc
supported-eq (some b) h e = let bad : false ≡ true = ap may_apply (sym e) ∙ h in cc

four_true :
    (a b c d : Bool) → (a && b && c && d) ≡ true → (a ≡ true) × (b ≡ true) × (c ≡ true) × (d ≡ true)
four_true a b c d h = (ground (arith, h), ground (arith, h), ground (arith, h), ground (arith, h))

awaiting-eq : (status : Status) → is_awaiting_diff status ≡ true → status ≡ awaiting_diff_approval
awaiting-eq status h = ground (arith, h)

-- Once the status of a drain is known, the drain changes no file, or its status awaits the approval of
-- the plan, the profile of its authority is drain-autonomous-local, the path of its source is that of the
-- directory of bundled workflows, or of one of the extensions, with segments after it, and its adapter is
-- not registered as one that does not support it.
pub auto_apply_drain-MayApply :
    (host : Host) (root bundled_dir : FilePath) (extension_dirs : List FilePath) (run : DrainRun)
    (patches : List RawPatch) (plan_hash : String) (w : World)
    → ((auto_apply_drain host root bundled_dir extension_dirs run patches plan_hash w).1.files
        ≡ w.files)
      ⊎ MayApply bundled_dir extension_dirs run w.state
unfolding auto_apply_drain should_auto_apply_drain ◌>>=◌ reading pure
auto_apply_drain-MayApply host root bundled_dir extension_dirs run patches plan_hash w =
    elim (Bool-cases
      (is_awaiting_diff w.state.status && should_auto_apply_drain bundled_dir extension_dirs run)) [
        | inl goes ↦
            let (awaits, should) = two_true (is_awaiting_diff w.state.status) _ goes in
            let (drain, autonomous, trusted, supported) =
              four_true run.is_drain run.is_autonomous_local
                (is_trusted_auto_apply_source bundled_dir extension_dirs run.source_path)
                (may_apply run.registration) should in
            let (dir, listed, down) =
              any_dir (bundled_dir ∷ extension_dirs) run.source_path
                (unfold is_trusted_auto_apply_source in trusted) in
            let (segments, source) = is_below-append dir run.source_path down in
            inr (record {
              awaiting = awaiting-eq w.state.status awaits;
              is_drain = drain;
              autonomous = autonomous;
              dir = dir;
              listed = listed;
              segments = segments;
              source = source;
              supported = supported-eq run.registration supported;
            })
        | inr stays ↦ inl (rw stays refl)
      ]
