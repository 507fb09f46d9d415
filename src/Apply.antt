-- ===== src/Apply.antt =====
-- Applying an approved diff plan: workflow_apply of workflow-kernel/workflow-plugin.js, with the writes
-- of path-policy.js. What the file system, git and the run store answer is a parameter, the host: an
-- answer may depend on all the calls before it. A call that opens a file answers where the
-- descriptor landed, which is what /proc/self/fd says of it, and which another process may have
-- moved away from the path that was asked for.
pub mod Write
pub mod Targets
pub mod Patches
pub mod Approval
pub mod Run
pub mod Frames
pub mod Looking
pub mod Gate
pub mod Ancestors
pub mod Contained
pub mod Yields
pub mod Calm
pub mod Landing
pub mod Runs
pub mod Restoring
pub mod Writing
pub mod Whole
pub mod Auto
pub mod Unattended
pub mod Trusted
pub mod Finding
pub mod Planning
pub mod Atomic
use opencode_workflows.Prelude.{
  ℕ, String, Bool, true, false, Option, none, some, List, [], ◌∷◌, Outcome, ok, throw,
  if◌then◌else◌,
}
use opencode_workflows.Authority.Pattern.{Text}
use opencode_workflows.Paths.{FilePath, path_eq}

-- `error.code` of an error of the system.
pub data Code : Type 0 where
  enoent eloop enotdir other_code : Code

-- The errors that the code throws, by their messages.
pub data Refusal : Type 0 where
  not_in_plan_mode wrong_intent missing_hashes bad_bundle invalid_run active_run_lock : Refusal
  not_awaiting_approval hash_mismatch : Refusal
  no_fd_realpath root_escapes target_escapes names_no_file ancestor_is_symlink : Refusal
  ancestor_escapes target_is_symlink escapes_after_open : Refusal
  invalid_patch patch_escapes protected_path ancestor_not_directory : Refusal
  target_is_directory untracked_target content_changed git_not_clean : Refusal

pub data Error : Type 0 where
  system : Code → Error
  refused : Refusal → Error
  overlapping_patch : Error
  finalization_failed : Error

-- What stands at a path that is not a regular file; `fault` is an error of the call.
pub data Special : Type 0 where
  symlink directory : Special
  fault : Code → Special

pub data Status : Type 0 where
  awaiting_diff_approval apply_failed failed_with_diff_plan interrupted stale_active : Status
  applied apply_running review_required other_status : Status

-- The records of the apply ledger; a hash is a text.
pub data ApplyRecord : Type 0 where
  started completed : String → ApplyRecord
  before_write after_write : Text → ApplyRecord
  -- The hash, the error, and the paths whose rollback failed.
  failed : String → Error → List Text → ApplyRecord
  domain_finalized : ℕ → ApplyRecord

-- `state`, as far as the apply reads and writes it.
pub record RunState : Type 0 where
  pub status : Status
  pub source_hash : String
  pub error : Option Error
  pub finalized : Option ℕ

pub data Call : Type 0 where
  resolves opens_dir makes_dir reads_link opens writes : FilePath → Call
  looks_at reads removes : FilePath → Call
  asks_tracked : Text → Call
  asks_clean finalizes takes_lock appends saves measures closes_out : Call

abbrev pub Answer : Type 0 → Type 0
Answer A = List Call → Outcome Error A

-- The host. `landing` is where a descriptor that is opened lands; a write that fails leaves a text in
-- the file. `special` is what `lstat` finds where it does not find what `files` says.
pub record Host : Type 0 where
  pub realpath : Answer FilePath
  pub open_dir : Answer FilePath
  pub make_dir : Answer (Unit {0})
  pub has_read_link : List Call → Bool
  pub open_file : Answer FilePath
  pub write : List Call → Option (Error × String)
  pub special : List Call → Option Special
  pub read : Answer (Unit {0})
  -- The text that 'utf8' reads of the bytes of a file: bytes that are not UTF-8 are replaced.
  pub as_text : String → String
  pub remove : Answer (Unit {0})
  pub is_tracked : List Call → Bool
  pub git_clean : Answer (Unit {0})
  pub finalize : Answer ℕ
  pub lock : Answer (Unit {0})
  pub append : Answer (Unit {0})
  pub save : Answer (Unit {0})
  pub measure : Answer (Unit {0})
  pub close_out : Answer (Unit {0})

-- The regular files by their real paths, with their bytes; a text that is written stands for its bytes
-- in UTF-8. Then the apply ledger with its latest record first, `state` and
-- the state.json that was saved last, and the calls so far, the latest first.
pub record World : Type 0 where
  pub files : FilePath → Option String
  pub ledger : List ApplyRecord
  pub state : RunState
  pub saved : RunState
  pub calls : List Call

abbrev pub Io : Type 0 → Type 0
Io A = World → Outcome Error A × World

module _ {A B : Type 0} where
  abbrev pub continue : Outcome Error A → (A → Io B) → Io B
  continue (ok a) f w = f a w
  continue (throw e) f w = (throw e, w)

  infixl 10 ◌>>=◌
  unfoldable pub ◌>>=◌ : Io A → (A → Io B) → Io B
  ◌>>=◌ m f w = let (r, w') = m w in continue r f w'

  infixl 10 ◌>>◌
  abbrev pub ◌>>◌ : Io A → Io B → Io B
  m >> n = m >>= λ _. n

module _ {A : Type 0} where
  abbrev pub handle : Outcome Error A → (Error → Io A) → Io A
  handle (ok a) f w = (ok a, w)
  handle (throw e) f w = f e w

  -- `try` with a `catch` that may throw again.
  unfoldable pub catching : Io A → (Error → Io A) → Io A
  catching m f w = let (r, w') = m w in handle r f w'

  unfoldable pub pure : A → Io A
  pure a w = (ok a, w)

  unfoldable pub throwing : Error → Io A
  throwing e w = (throw e, w)

  -- A call of the host that changes no file.
  unfoldable pub call : Call → Answer A → Io A
  call c answer w = let calls = c ∷ w.calls in (answer calls, record w { calls = calls })

unfoldable pub reading : {A : Type 0} → (World → A) → Io A
reading f w = (ok (f w), w)

-- `if (!test) throw`.
unfoldable pub require : Bool → Refusal → Io (Unit {0})
unfolding pure throwing
require true r = pure tt
require false r = throwing (refused r)

abbrev pub update : (FilePath → Option String) → FilePath → Option String → FilePath → Option String
update files path content p = if path_eq path p then content else files p

module _ (host : Host) where
  abbrev pub opened : Outcome Error FilePath → Io FilePath
  opened (ok path) w = (ok path, record w { files = update w.files path (some "") })
  opened (throw e) w = (throw e, w)

  -- `fs.open(path, NOFOLLOW_WRITE_FLAGS)`: with O_CREAT and O_TRUNC the file is created or emptied.
  unfoldable pub open_file : FilePath → Io FilePath
  open_file path w =
      let calls = opens path ∷ w.calls in opened (host.open_file calls) (record w { calls = calls })

  abbrev pub written : FilePath → String → Option (Error × String) → Io (Unit {0})
  written path content none w = (ok tt, record w { files = update w.files path (some content) })
  written path content (some (e, left)) w =
      (throw e, record w { files = update w.files path (some left) })

  -- `handle.writeFile`: a write that fails leaves something of the content, or nothing.
  unfoldable pub write_file : FilePath → String → Io (Unit {0})
  write_file path content w =
      let calls = writes path ∷ w.calls in
      written path content (host.write calls) (record w { calls = calls })

  abbrev pub removed : FilePath → Outcome Error (Unit {0}) → Io (Unit {0})
  removed path (ok done) w = (ok tt, record w { files = update w.files path none })
  removed path (throw e) w = (throw e, w)

  -- `fs.rm(path, { force: true })`.
  unfoldable pub remove_file : FilePath → Io (Unit {0})
  remove_file path w =
      let calls = removes path ∷ w.calls in
      removed path (host.remove calls) (record w { calls = calls })

  abbrev pub linked : Bool → FilePath → Io FilePath
  linked true handle_path w = (ok handle_path, w)
  linked false handle_path w = (throw (refused no_fd_realpath), w)

  -- `requiredFdRealPath`, on a descriptor that landed at `handle_path`.
  unfoldable pub required_fd_real_path : FilePath → Io FilePath
  required_fd_real_path handle_path w =
      let calls = reads_link handle_path ∷ w.calls in
      linked (host.has_read_link calls) handle_path (record w { calls = calls })

  abbrev pub noted : ApplyRecord → Outcome Error (Unit {0}) → Io (Unit {0})
  noted r (ok done) w = (ok tt, record w { ledger = r ∷ w.ledger })
  noted r (throw e) w = (throw e, w)

  -- `appendApplyLedger`.
  unfoldable pub append_apply_ledger : ApplyRecord → Io (Unit {0})
  append_apply_ledger r w =
      let calls = appends ∷ w.calls in noted r (host.append calls) (record w { calls = calls })

  abbrev pub stored : Outcome Error (Unit {0}) → Io (Unit {0})
  stored (ok done) w = (ok tt, record w { saved = w.state })
  stored (throw e) w = (throw e, w)

  -- `writeJsonAtomic` of state.json.
  unfoldable pub save_state : Io (Unit {0})
  save_state w =
      let calls = saves ∷ w.calls in stored (host.save calls) (record w { calls = calls })

unfoldable pub set_state : (RunState → RunState) → Io (Unit {0})
set_state f w = (ok tt, record w { state = f w.state })
