-- ===== src/Tests/Apply.antt =====
-- Applies of two patches on small hosts.
use opencode_workflows.Prelude.{
  ◌≡◌, refl, sym, String, true, false, Option, none, some, List, [], ◌∷◌, Outcome, ok, throw, codes,
  ok-injective, if◌then◌else◌, ◌⊎◌, str_eq,
}
use opencode_workflows.Paths.{FilePath, path_eq, resolve}
use opencode_workflows.Apply.{
  Error, system, other_code, Host, World, RunState, Call, resolves, opens_dir, opens, writes,
  catching, ◌>>=◌, reading, awaiting_diff_approval, update,
}
use opencode_workflows.Apply.Frames.{throw≢ok}
use opencode_workflows.Apply.Targets.{RawPatch, Planned}
use opencode_workflows.Apply.Calm.{IsCalm}
use opencode_workflows.Locks.{unreadable}
use opencode_workflows.Apply.Planning.{IsTruthful}
use opencode_workflows.Apply.Contained.{Spares, safe_write_file_within_root-Spares}
use opencode_workflows.Apply.Write.{safe_write_file_within_root}
use opencode_workflows.Apply.Atomic.{IsAllOrNothing, writes_all}
use opencode_workflows.Apply.Patches.{rollback_patches}
use opencode_workflows.Apply.Whole.{
  after_patches, as_restored, write_planned-IsAllOrNothing, apply_fresh-writes,
}
use opencode_workflows.Apply.Gate.{IsReleased, apply_workflow-IsReleased}
use opencode_workflows.Apply.Approval.{Hashes, Args, Entry, Approved, approved_hashes}
use opencode_workflows.Apply.Run.{
  patches_applied, plan_targets, write_planned, apply_fresh, apply_workflow,
}

abbrev pub root : FilePath
root = codes "r" ∷ []

abbrev pub a_txt : FilePath
a_txt = codes "r" ∷ codes "a.txt" ∷ []

abbrev pub b_txt : FilePath
b_txt = codes "r" ∷ codes "b.txt" ∷ []

abbrev pub where_asked : List Call → Outcome Error FilePath
where_asked (resolves p ∷ calls) = ok p
where_asked (opens_dir p ∷ calls) = ok p
where_asked (opens p ∷ calls) = ok p
where_asked calls = throw (system other_code)

-- Every call succeeds, and a descriptor lands where it was asked to.
abbrev pub quiet : Host
quiet = record {
  realpath = where_asked;
  open_dir = where_asked;
  make_dir = λ calls. ok tt;
  has_read_link = λ calls. true;
  open_file = where_asked;
  write = λ calls. none;
  special = λ calls. none;
  read = λ calls. ok tt;
  as_text = λ content. if str_eq content "bytes" then "text" else content;
  remove = λ calls. ok tt;
  is_tracked = λ calls. true;
  git_clean = λ calls. ok tt;
  finalize = λ calls. ok 2;
  lock = λ calls. ok tt;
  append = λ calls. ok tt;
  save = λ calls. ok tt;
  measure = λ calls. ok tt;
  close_out = λ calls. ok tt;
}

abbrev fails_at_b : List Call → Option (Error × String)
fails_at_b (writes p ∷ calls) = if path_eq p b_txt then some (system other_code, "ne") else none
fails_at_b calls = none

-- No write to b.txt succeeds.
abbrev full : Host
full = record quiet { write = fails_at_b }

quiet-IsCalm : IsCalm quiet root
quiet-IsCalm = record {
  root_real = λ calls p h. sym (ok-injective h);
  dirs_land = λ path p calls h. sym (ok-injective h);
  files_land = λ path p calls h. sym (ok-injective h);
  named = refl;
}

full-IsCalm : IsCalm full root
full-IsCalm = record {
  root_real = λ calls p h. sym (ok-injective h);
  dirs_land = λ path p calls h. sym (ok-injective h);
  files_land = λ path p calls h. sym (ok-injective h);
  named = refl;
}

quiet-IsTruthful : IsTruthful quiet
quiet-IsTruthful = record {
  special_truth = λ calls h. cc;
  read_truth = λ calls h. throw≢ok _ _ (sym h);
}

full-IsTruthful : IsTruthful full
full-IsTruthful = record {
  special_truth = λ calls h. cc;
  read_truth = λ calls h. throw≢ok _ _ (sym h);
}

abbrev pub waiting : RunState
waiting = record {
  status = awaiting_diff_approval;
  source_hash = "s";
  error = none;
  finalized = none;
}

abbrev pub two_files : FilePath → Option String
two_files p =
    if path_eq p a_txt then some "old a" else if path_eq p b_txt then some "old b" else none

abbrev pub before : World
before = record { files = two_files; ledger = []; state = waiting; saved = waiting; calls = [] }

abbrev pub patches : List RawPatch
patches =
    record { path = some (codes "a.txt"); content = some "new a" }
    ∷ record { path = some (codes "b.txt"); content = some "new b" }
    ∷ []

abbrev planned : List Planned
planned =
    record { path = codes "a.txt"; content = "new a"; target = a_txt; previous = some "old a" }
    ∷ record { path = codes "b.txt"; content = "new b"; target = b_txt; previous = some "old b" }
    ∷ []

full-plans : (plan_targets full root patches before).0 ≡ ok planned
unfolding plan_targets catching ◌>>=◌ path_eq
full-plans = refl

quiet-applies : (apply_fresh quiet root patches "p" before).0 ≡ ok (patches_applied 2 2)
unfolding apply_fresh catching ◌>>=◌ path_eq
quiet-applies = refl

-- The write to b.txt fails, and so does its restore; a.txt is restored.
full-failures :
    (rollback_patches full root planned (writes_all full root planned "p" before).1).0
    ≡ ok (codes "b.txt" ∷ [])
unfolding rollback_patches catching ◌>>=◌ path_eq
full-failures = refl

full-restores : (write_planned full root planned "p" before).1.files a_txt ≡ some "old a"
unfolding write_planned catching ◌>>=◌ path_eq
full-restores = refl

-- A tracked file that is not UTF-8 is not restored to its bytes.
abbrev not_text : World
not_text = record before { files = update two_files a_txt (some "bytes") }

abbrev planned_from_bytes : List Planned
planned_from_bytes =
    record { path = codes "a.txt"; content = "new a"; target = a_txt; previous = some "text" }
    ∷ record { path = codes "b.txt"; content = "new b"; target = b_txt; previous = some "old b" }
    ∷ []

bytes-plans : (plan_targets full root patches not_text).0 ≡ ok planned_from_bytes
unfolding plan_targets catching ◌>>=◌ path_eq
bytes-plans = refl

bytes_lost : (write_planned full root planned_from_bytes "p" not_text).1.files a_txt ≡ some "text"
unfolding write_planned catching ◌>>=◌ path_eq
bytes_lost = refl

write_planned-IsAllOrNothing_example :
    IsAllOrNothing full root planned "p" before
      (λ p. after_patches root patches p (two_files p))
      (as_restored full planned two_files)
write_planned-IsAllOrNothing_example =
    write_planned-IsAllOrNothing full root full-IsCalm full-IsTruthful patches planned "p" before
      before full-plans refl

apply_fresh-writes_example :
    (apply_fresh quiet root patches "p" before).1.files b_txt ≡ some "new b"
unfolding path_eq resolve
apply_fresh-writes_example =
    apply_fresh-writes quiet root quiet-IsCalm quiet-IsTruthful patches "p" before
      (patches_applied 2 2) quiet-applies b_txt

-- A host where the open of a file lands elsewhere, as where a directory was swapped for a link.
abbrev elsewhere : FilePath
elsewhere = codes "etc" ∷ codes "hosts" ∷ []

abbrev moved : Host
moved = record quiet { open_file = λ calls. ok elsewhere }

abbrev outside : World
outside = record before { files = λ p. some "kept" }

-- The write is refused, but the file where it landed is empty: O_TRUNC came first.
moved-empties :
    (safe_write_file_within_root moved root (codes "a.txt") "new a" outside).1.files elsewhere
    ≡ some ""
unfolding safe_write_file_within_root catching ◌>>=◌ path_eq
moved-empties = refl

safe_write_file_within_root-Spares_example :
    Spares root outside (safe_write_file_within_root moved root (codes "a.txt") "new a" outside).1
safe_write_file_within_root-Spares_example =
    safe_write_file_within_root-Spares moved root outside (codes "a.txt") "new a" root refl

abbrev pub hashes : Hashes
hashes = record {
  approved_source_hash = some "s";
  base_commit = some "c";
  diff_plan_hash = some "p";
  domain_mutation_hash = some "d";
}

abbrev pub args : Args
args = record {
  in_plan_mode = false;
  approval_intent = "apply";
  apply_bundle = none;
  hashes = hashes;
}

abbrev pub entry : Entry
entry = record {
  valid = true;
  run_lock = none;
  plan = ok (record { patches = patches; base_commit = some "c"; domain_mutation_hash = some "d" });
  plan_hash = λ plan. "p";
  domain_hash = "d";
}

approved-applies : (apply_workflow quiet root args entry before).1.files a_txt ≡ some "new a"
unfolding apply_workflow catching ◌>>=◌ path_eq reading
approved-applies = refl

unreadable-applies :
    (apply_workflow quiet root args (record entry { run_lock = some unreadable }) before).1.files
      a_txt
    ≡ some "new a"
unfolding apply_workflow catching ◌>>=◌ path_eq reading
unreadable-applies = refl

apply_workflow-IsReleased_example :
    ((apply_workflow quiet root args entry before).1.files ≡ two_files)
    ⊎ ((approved : Approved) × (args.in_plan_mode ≡ false)
        × (args.approval_intent ≡ "apply")
        × (approved_hashes args ≡ ok approved)
        × IsReleased approved entry waiting [])
apply_workflow-IsReleased_example = apply_workflow-IsReleased quiet root args entry before

-- Two spellings of one path are not seen to overlap.
abbrev twice : List RawPatch
twice =
    record { path = some (codes "a.txt"); content = some "first" }
    ∷ record { path = some (codes "./a.txt"); content = some "second" }
    ∷ []

abbrev planned_twice : List Planned
planned_twice =
    record { path = codes "a.txt"; content = "first"; target = a_txt; previous = some "old a" }
    ∷ record { path = codes "./a.txt"; content = "second"; target = a_txt; previous = some "old a" }
    ∷ []

overlap_planned : (plan_targets quiet root twice before).0 ≡ ok planned_twice
unfolding plan_targets catching ◌>>=◌ path_eq
overlap_planned = refl
