-- ===== src/Locks.antt =====
-- workflow-kernel/run-store-locks.js: the lock file of a run, which processes acquire, release, read
-- and clear. A process is its id with its start time; whether it appears alive is a parameter.
pub mod Exclusive
pub mod Steps
use opencode_workflows.Prelude.{
  ◌≡◌, String, Bool, true, false, not, ◌||◌, Option, none, some, List, [], ◌∷◌, str_eq, keep, any,
  if◌then◌else◌,
}

-- What stands at the path: nothing, bytes that do not parse, or the record of a process.
pub data LockFile : Type 0 where
  absent malformed : LockFile
  held : String → LockFile

pub data LockState : Type 0 where
  active stale corrupt unreadable : LockState

-- `readLock`: `none` is no lock. The first argument says whether the file can be read at all.
unfoldable pub read_lock : Bool → (String → Bool) → LockFile → Option LockState
read_lock readable alive absent = none
read_lock false alive malformed = some unreadable
read_lock false alive (held owner) = some unreadable
read_lock true alive malformed = some corrupt
read_lock true alive (held owner) = some (if alive owner then active else stale)

pub data Acquired : Type 0 where
  acquired : Acquired
  already_held : LockState → Acquired

-- `fs.link` fails where the path exists; the error then says how the lock was read.
abbrev held_as : Option LockState → Acquired
held_as none = already_held unreadable
held_as (some how) = already_held how

unfoldable pub acquire_workflow_lock :
    Bool → (String → Bool) → String → LockFile → LockFile × Acquired
acquire_workflow_lock readable alive process absent = (held process, acquired)
acquire_workflow_lock readable alive process malformed =
    (malformed, held_as (read_lock readable alive malformed))
acquire_workflow_lock readable alive process (held owner) =
    (held owner, held_as (read_lock readable alive (held owner)))

-- The test of the function that acquireWorkflowLock returns; where it holds, the file is then removed.
unfoldable pub owns_lock : Bool → String → LockFile → Bool
owns_lock readable process absent = false
owns_lock readable process malformed = false
owns_lock false process (held owner) = false
owns_lock true process (held owner) = str_eq owner process

-- The test of the loop of `clearStaleRunLocks`; where it holds, the file is then removed.
unfoldable pub is_clearable : Bool → (String → Bool) → LockFile → Bool
unfolding read_lock
is_clearable readable alive file = elim (read_lock readable alive file) [
  | none ↦ false
  | some how ↦ elim how [ stale ↦ true | corrupt ↦ true | _ ↦ false ]
]

-- The file; the processes that acquired it and have not released it; those that have died; those that
-- have read their own record to release it; and those that have read a lock that they clear.
pub record World : Type 0 where
  pub file : LockFile
  pub holders : List String
  pub dead : List String
  pub releasing : List String
  pub clearing : List String

-- What a process does between two suspensions. A release and a clearing read the file, and remove it
-- later. Every read says whether the process can read the file.
pub data Event : Type 0 where
  acquire reads_own reads_stale : Bool → String → Event
  removes_own removes_stale die : String → Event

abbrev pub actor : Event → String
actor (acquire readable process) = process
actor (reads_own readable process) = process
actor (reads_stale readable process) = process
actor (removes_own process) = process
actor (removes_stale process) = process
actor (die process) = process

abbrev pub is_alive : World → String → Bool
is_alive w process = not (any (str_eq process) w.dead)

abbrev pub without : String → List String → List String
without process processes = keep (λ other. not (str_eq other process)) processes

abbrev pub note_acquired : String → LockFile × Acquired → World → World
note_acquired process (file, acquired) w = record w { file = file; holders = process ∷ w.holders }
note_acquired process (file, already_held how) w = record w { file = file }

unfoldable pub act : World → Event → World
unfolding acquire_workflow_lock owns_lock is_clearable
act w (acquire readable process) =
    note_acquired process (acquire_workflow_lock readable (is_alive w) process w.file) w
act w (reads_own readable process) =
    if owns_lock readable process w.file
    then record w { releasing = process ∷ w.releasing }
    else record w { holders = without process w.holders }
act w (removes_own process) =
    if any (str_eq process) w.releasing
    then record w {
      file = absent;
      holders = without process w.holders;
      releasing = without process w.releasing;
    }
    else w
act w (reads_stale readable process) =
    if is_clearable readable (is_alive w) w.file
    then record w { clearing = process ∷ w.clearing }
    else w
act w (removes_stale process) =
    if any (str_eq process) w.clearing
    then record w { file = absent; clearing = without process w.clearing }
    else w
act w (die process) = record w {
  dead = process ∷ w.dead;
  releasing = without process w.releasing;
  clearing = without process w.clearing;
}

-- A process that has died does nothing.
unfoldable pub step : World → Event → World
unfolding act
step w e = if is_alive w (actor e) then act w e else w

unfoldable pub run : World → List Event → World
unfolding step
run w [] = w
run w (e ∷ es) = run (step w e) es
