-- ===== src/Lib.antt =====
-- The workflow kernel of opencode-workflows: a plug-in that runs workflow scripts, whose agent()
-- calls become lanes, each a child session with its own authority, budget slice and slot.
--
-- Budget: workflow-kernel/budget-accounting.js, and the gate and reservation of runChildAgent in
-- workflow-kernel/child-agent-runner.js. The state is the record Run of the counters that
-- checkBudgetBeforeLaunch, reserveLaneBudget and releaseLaneBudget read and write. JavaScript's
-- finite numbers are the parameter Num, whose operations may round; NaN and infinities are not modelled.
-- Agents: acquireAgentSlot and releaseAgentSlot of workflow-kernel/workflow-plugin.js,
-- rejectWaitingAgents of lifecycle-control.js and cancelFanoutSiblings of sandbox-executor.js. An
-- event of Agents.Schedule is the code between two suspensions; a sequence of events is an
-- interleaving of lanes.
-- Authority: workflow-kernel/authority-policy.js. Pattern, Narrow and Narrowing are the permission
-- patterns; Launch has the tiers of automatic approval, DrainMode the drain modes, Tools the tools of the
-- agents and the model of a lane; Run is resolveRunAuthority; Lane is resolveLanePolicy; Rules is
-- permissionRulesForAuthority with DEFAULT_SECRET_GLOBS of path-policy.js. Decisions says how the
-- host reads a list of rules, the last one that applies decides, as audited-shell-policy.js states
-- it; that host is not part of the repository, and its matching of patterns is read as `*` for any
-- characters and `?` for one.
-- Ledger: the domain ledger of workflow-kernel/event-journal.js. An append is written, refused, or
-- the point at which the process dies, as the schedule of the world says; the file is read in
-- full, so its size caps and truncated lines are not modelled. Payloads are a parameter, and so are
-- redactValue and domainMutationIdempotencyKey.
-- Drain: workflow-kernel/drain-runtime.js. Every function of the module is a definition, over a world
-- that holds the report and the calls made so far, and an adapter whose answers, errors included, may
-- depend on those calls. Attempt is runLaneAttempt, Item is processReadyItem, Loop is runWave and
-- drain. Triple has the rules for what holds where code returns and where it throws. The base of the
-- repair backoff is a whole number of milliseconds; the records of a wave name its items and attempts
-- and do not repeat the reports.
-- Resume: the journal of a resumed run in event-journal.js, with classifyResumeCacheHit and the first
-- branches of runChildAgent in child-agent-runner.js. A line of the journal is an entry or does not
-- parse; signatures are texts, since the hash that makes them is a library's.
-- Integration: workflow-kernel/integration-mode.js. What git, the worktree adapter and the files
-- answer is a parameter, and so are protectedPathReason and the order of localeCompare.
-- Locks: workflow-kernel/run-store-locks.js. A lock file names a process by its id and start time; an
-- event is the code between two suspensions, so that a release or a clearing reads the lock and removes
-- the file later. It says whether the file could be read, and a process that died never appears alive.
-- Steps has the events one by one, Exclusive their sequences.
-- Maps: workflow-kernel/pending-approvals.js and the map of lane-effort-policy.js, as lists in
-- insertion order, with the bounds of the source, 16 and 1000.
-- Toasts: workflow-kernel/notification-toast-policy.js. Every policy is a definition, over the state and
-- the time it is given; Failures is what a sequence of events and ticks does to the failures of lanes.
-- Paths: workflow-kernel/path-policy.js, over the absolute paths of POSIX as lists of segments. Glob is
-- the compiled glob and its test, Matching the texts that it describes, Written how a glob is written.
-- Apply: applyWorkflow of workflow-kernel/workflow-plugin.js with validatePatchTargets, rollbackPatches and
-- finalizeAfterApply, and safeWriteFileWithinRoot of path-policy.js. The world holds the files by their
-- real paths, the apply ledger and the state of the run; what the file system and git answer is the host,
-- whose answers may depend on every call before. Write, Targets, Patches, Approval, Run and Auto, which
-- is runAutoApply and its gate, are the code; Trusted is about that gate, and Unattended composes the two
-- ways of an apply. A file holds bytes, a text stands for its UTF-8, and what a read makes of other bytes
-- is the host's. The other
-- modules are the rules for what it changes, on every path, and what it leaves where it returns.
-- Retries: workflow-kernel/errors.js, with its patterns as lists of pieces, and the retry loop of
-- runChildAgent in child-agent-runner.js: Loop has the state and the host of the child sessions, Lane one
-- attempt and the loop; Effects, Bounded and Ends follow the prompts of a round, Meets, Children and
-- Orphans the children of the run; abortChild is a call that may fail. What other lanes do to the counters
-- meanwhile is not modelled. The loop recurs on a bound on its rounds, the first attempt and
-- the retries of both kinds, and Ends says why that is enough.
-- Json: stableStringify of workflow-kernel/text-json.js, which the approval hashes are made of; a number is
-- the text that JSON.stringify makes of it, and its quoting of a text is a parameter. Order and
-- Reordered are about its sort. Truncation: truncateText of that file, whose five passes are the code's own
-- bound; a text is its code units, and the printing of a number is a parameter.
-- Notified: BoundedTimestampSet of workflow-kernel/lifecycle-control.js, whose clock is an argument of each call.
--
-- Budget and Agents meet in runChildAgent, which takes a slot, passes the gate and reserves before it
-- prompts. Authority decides what the child session of that lane may do. The bounds of the drain,
-- maxWaves and maxAttempts, are its own, and the loops recur on what is left of them. The retry loop
-- of a lane has fuel, as many rounds as its options allow. Every other loop is structural recursion over the
-- list that the code iterates.
--
-- Not modelled: sessions and prompts of the host, the QuickJS sandbox, what files and git do, display text.
pub mod Prelude
pub mod Budget
pub mod Agents
pub mod Authority
pub mod Ledger
pub mod Drain
pub mod Resume
pub mod Integration
pub mod Locks
pub mod Maps
pub mod Toasts
pub mod Paths
pub mod Apply
pub mod Retries
pub mod Json
pub mod Notified
pub mod Truncation
pub mod Tests
