-- ===== src/Authority/DrainMode.antt =====
-- The mode of a drain that is launched: authorityArgsForWorkflow and resolveDrainMode of
-- workflow-kernel/authority-policy.js.
use opencode_workflows.Prelude.{
  ◌≡◌, ◌⊎◌, refl, inl, inr, String, Bool, true, false, Option, none, some, Outcome, ok, throw,
  ◌>>=◌, str_eq, arith, if◌then◌else◌, Bool-cases, Outcome-cases, ok-injective, ap, eq_iff,
}

pub data DrainMode : Type 0 where
  dry_run autonomous_local : DrainMode

-- A value of `args.mode`: no such key, null or undefined, a text, or another value.
pub data ModeArg : Type 0 where
  no_mode nullish_mode other_mode : ModeArg
  mode_text : String → ModeArg

-- A value of `args.dryRun`: no such key, `false`, or another value.
pub data DryRunArg : Type 0 where
  no_dry_run dry_run_off dry_run_other : DryRunArg

pub record RuntimeArgs : Type 0 where
  pub mode : ModeArg
  pub dry_run : DryRunArg

-- `args.args`, a JSON text decoded: missing or null, an object, or another value.
pub data RawArgs : Type 0 where
  missing not_an_object : RawArgs
  object : RuntimeArgs → RawArgs

pub data DrainError : Type 0 where
  bad_args bad_mode bad_profile conflict : DrainError

abbrev mode_of_dry_run : DryRunArg → DrainMode
mode_of_dry_run dry_run_off = autonomous_local
mode_of_dry_run _ = dry_run

unfoldable pub mode_of_text : String → Outcome DrainError DrainMode
mode_of_text text =
    if str_eq text "dry-run"
    then ok dry_run
    else if str_eq text "autonomous-local"
    then ok autonomous_local
    else throw bad_mode

unfoldable pub resolve_drain_mode : RuntimeArgs → Outcome DrainError DrainMode
unfolding mode_of_text
resolve_drain_mode args = elim args.mode [
  | no_mode ↦ ok (mode_of_dry_run args.dry_run)
  | nullish_mode ↦ ok (mode_of_dry_run args.dry_run)
  | other_mode ↦ throw bad_mode
  | mode_text text ↦ mode_of_text text
]

-- DRAIN_PROFILE_FOR_MODE and DRAIN_MODE_FOR_PROFILE.
abbrev pub drain_profile : DrainMode → String
drain_profile dry_run = "drain-dry-run"
drain_profile autonomous_local = "drain-autonomous-local"

unfoldable pub drain_mode_for_profile : String → Outcome DrainError DrainMode
drain_mode_for_profile profile =
    if str_eq profile "drain-dry-run"
    then ok dry_run
    else if str_eq profile "drain-autonomous-local"
    then ok autonomous_local
    else throw bad_profile

abbrev mode_equal : DrainMode → DrainMode → Bool
mode_equal dry_run dry_run = true
mode_equal autonomous_local autonomous_local = true
mode_equal _ _ = false

-- Neither key stands in the arguments.
abbrev has_explicit_mode : RuntimeArgs → Bool
has_explicit_mode args = elim args.mode [
  | no_mode ↦ elim args.dry_run [ no_dry_run ↦ false | _ ↦ true ]
  | _ ↦ true
]

abbrev object_of : RawArgs → Outcome DrainError RuntimeArgs
object_of missing = ok (record { mode = no_mode; dry_run = no_dry_run })
object_of not_an_object = throw bad_args
object_of (object args) = ok args

abbrev mode_from_args : RuntimeArgs → Outcome DrainError (Option DrainMode)
mode_from_args args =
    if has_explicit_mode args then (resolve_drain_mode args >>= λ mode. ok (some mode)) else ok none

abbrev mode_from_profile : Option String → Outcome DrainError (Option DrainMode)
mode_from_profile none = ok none
mode_from_profile (some profile) = drain_mode_for_profile profile >>= λ mode. ok (some mode)

unfoldable pub agree_on_mode : Option DrainMode → Option DrainMode → Outcome DrainError DrainMode
agree_on_mode (some a) (some b) = if mode_equal a b then ok a else throw conflict
agree_on_mode (some a) none = ok a
agree_on_mode none (some b) = ok b
agree_on_mode none none = ok dry_run

-- `authorityArgsForWorkflow` for a workflow with the drain harness: the mode that the profile and the
-- arguments are rewritten to.
unfoldable pub drain_mode_of_launch : Option String → RawArgs → Outcome DrainError DrainMode
unfolding resolve_drain_mode drain_mode_for_profile agree_on_mode
drain_mode_of_launch profile raw = do
  args ← object_of raw
  from_args ← mode_from_args args
  from_profile ← mode_from_profile profile
  agree_on_mode from_args from_profile

text_autonomous :
    (text : String)
    → (mode_of_text text >>= λ mode. ok (some mode)) ≡ ok (some autonomous_local)
    → text ≡ "autonomous-local"
unfolding mode_of_text
text_autonomous text h = elim (Bool-cases (str_eq text "autonomous-local")) [
  | inl y ↦ (eq_iff text "autonomous-local").0 y
  | inr n ↦ absurd (ground (arith, h, n))
]

object_asked :
    (raw : RawArgs) (args : RuntimeArgs)
    → object_of raw ≡ ok args
    → (args.mode ≡ mode_text "autonomous-local") ⊎ (args.dry_run ≡ dry_run_off)
    → (args : RuntimeArgs) × (raw ≡ object args)
      × ((args.mode ≡ mode_text "autonomous-local") ⊎ (args.dry_run ≡ dry_run_off))
object_asked missing args e (inl h) = absurd (ground (arith, e, h))
object_asked missing args e (inr h) = absurd (ground (arith, e, h))
object_asked not_an_object args e h = cc
object_asked (object args') args e h = (args, ap object (ok-injective e), h)

from_mode :
    (mode : ModeArg) (dry : DryRunArg)
    → mode_from_args (record { mode = mode; dry_run = dry }) ≡ ok (some autonomous_local)
    → (mode ≡ mode_text "autonomous-local") ⊎ (dry ≡ dry_run_off)
unfolding resolve_drain_mode
from_mode no_mode no_dry_run h = absurd (ground (arith, h))
from_mode no_mode dry_run_off h = inr refl
from_mode no_mode dry_run_other h = absurd (ground (arith, h))
from_mode nullish_mode no_dry_run h = absurd (ground (arith, h))
from_mode nullish_mode dry_run_off h = inr refl
from_mode nullish_mode dry_run_other h = absurd (ground (arith, h))
from_mode other_mode dry h = absurd (ground (arith, h))
from_mode (mode_text text) dry h = inl (ap mode_text (text_autonomous text h))

from_args-autonomous :
    (args : RuntimeArgs)
    → mode_from_args args ≡ ok (some autonomous_local)
    → (args.mode ≡ mode_text "autonomous-local") ⊎ (args.dry_run ≡ dry_run_off)
from_args-autonomous args h = from_mode args.mode args.dry_run h

from_profile-autonomous :
    (profile : Option String)
    → mode_from_profile profile ≡ ok (some autonomous_local)
    → profile ≡ some "drain-autonomous-local"
unfolding drain_mode_for_profile
from_profile-autonomous none h = absurd (ground (arith, h))
from_profile-autonomous (some p) h = elim (Bool-cases (str_eq p "drain-autonomous-local")) [
  | inl y ↦ ap some ((eq_iff p "drain-autonomous-local").0 y)
  | inr n ↦ absurd (ground (arith, h, n))
]

agree_on_mode-autonomous :
    (a b : Option DrainMode)
    → agree_on_mode a b ≡ ok autonomous_local
    → (a ≡ some autonomous_local) ⊎ (b ≡ some autonomous_local)
unfolding agree_on_mode
agree_on_mode-autonomous (some autonomous_local) b h = inl refl
agree_on_mode-autonomous (some dry_run) (some b) h = absurd (ground (arith, h))
agree_on_mode-autonomous (some dry_run) none h = absurd (ground (arith, h))
agree_on_mode-autonomous none (some autonomous_local) h = inr refl
agree_on_mode-autonomous none (some dry_run) h = absurd (ground (arith, h))
agree_on_mode-autonomous none none h = absurd (ground (arith, h))

-- A drain is launched in the autonomous mode only if its profile is drain-autonomous-local, or its
-- arguments say so by the mode or, where the mode has no value, by `dryRun: false`.
drain_mode_of_launch-asked :
    (profile : Option String) (raw : RawArgs)
    → drain_mode_of_launch profile raw ≡ ok autonomous_local
    → (profile ≡ some "drain-autonomous-local")
      ⊎ ((args : RuntimeArgs) × (raw ≡ object args)
          × ((args.mode ≡ mode_text "autonomous-local") ⊎ (args.dry_run ≡ dry_run_off)))
unfolding drain_mode_of_launch
drain_mode_of_launch-asked profile raw h = elim (Outcome-cases (object_of raw)) [
  | inr (e, bad) ↦ absurd (ground (arith, h, bad))
  | inl (args, is_object) ↦ elim (Outcome-cases (mode_from_args args)) [
    | inr (e, bad) ↦ absurd (ground (arith, h, is_object, bad))
    | inl (a, from_args) ↦ elim (Outcome-cases (mode_from_profile profile)) [
      | inr (e, bad) ↦ absurd (ground (arith, h, is_object, from_args, bad))
      | inl (b, from_profile) ↦
          elim (agree_on_mode-autonomous a b
            (ground (arith, h, is_object, from_args, from_profile))) [
              | inl by_args ↦ inr (
                  object_asked raw args is_object
                    (from_args-autonomous args (rw (← by_args) from_args)))
              | inr by_profile ↦
                  inl (from_profile-autonomous profile (rw (← by_profile) from_profile))
            ]
    ]
  ]
]
