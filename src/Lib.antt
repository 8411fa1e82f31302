-- ===== src/Lib.antt =====
-- The core of a local server for code operations, which lets a client run processes in workspaces:
-- the scheduler that grants processes their leases, the durable event stream that readers follow
-- with cursors, the plans that the workspaces' tasks keep, the keys of calls that may be retried, the
-- checks of patches, and the change sets, which collect edits of a workspace and commit them at once.
-- They do not call each other, but that staging a patch checks it: the process manager acquires a
-- lease, starts the process, and logs its start and its exit; the tools read and change the plans and
-- the change sets, and wrap the calls that apply patches.
--
-- Parts:
--   Prelude     names of the libraries, tests, integers, texts, association lists and results
--   Scheduler   app/services/process_scheduler.py. `Keys` has the concurrency keys, the resource
--               limits and the policy; `State` the fields of ProcessScheduler and the loop
--               _grant_waiters with _next_candidate and _eligible; `Operations` has acquire, release
--               and snapshot. acquire is `request`, which queues the waiter, and then a `poll` for
--               each time that its condition wakes it or its deadline passes, until it is granted or
--               times out. `Reach` is the relation of the states that these steps reach.
--   Events      app/services/event_store.py. `Cursor` has the cursors, `Payload` the search for keys
--               that must not be stored and the encoded size, `Store` append and the insertion,
--               `Process` transition_process and start_process, `Query` list_after, `Retention`
--               cleanup. A method of EventStore is a function of the tables, and what it changes in a
--               transaction is the tables that it returns; one that raises returns an error alone.
--   Plans       app/services/workspace_plan.py, with replace_plan, update_plan_step_with_revision,
--               update_plan_revision and delete_plan of app/storage/database.py. `Input` has
--               _validate_step and _validate_evidence, `Store` the transactions, `Service` update_plan
--               and update_step_status, `Freshness` _evidence_statuses. A plan's rows of plan_steps
--               stand with the plan. What the checks read of the other tables and of the files is a
--               parameter (`Lookups`, `MoreLookups`).
--   Idempotency app/storage/idempotency.py. `Keys` has the table with get_idempotent_result,
--               store_idempotent_result and expire_old_keys, `Call` with_idempotency, around a call that
--               changes a world of any type and may raise. The hash of the inputs is a
--               parameter, and so is what json.loads reads of what json.dumps wrote.
--   Patch       app/tools/patcher.py. `Lines` has the regular expressions of header lines, `Hunks`
--               _validate_unified_diff, `Paths` _validate_patch_paths and _extract_file_changes,
--               `Errors` _classify_patch_error. They take the lines that str.splitlines gives.
--               Path.is_absolute, str.lower and the values of decimal digits are parameters.
--   ChangeSets  app/services/change_set_store.py. `State` has the rows, the directory of a change set
--               and the checkout of its workspace; `Files` _manifest, _snapshot_rollback and _restore;
--               `Staging` _stage with _operation_replay; `Validation` validate; `Commit` commit with
--               the undoing in its except; `Lifecycle` _active, rollback and the rounds of
--               reconcile_incomplete and cleanup_expired; `World` the tables and the workspaces, begin,
--               the two loops, assert_workspace_discardable, delete_terminal_data, and the rows that
--               delete_workspace of app/storage/database.py removes. `Machine` is the
--               state machine of the status, and `World/Steps` the relation of the worlds that calls
--               lead to. An operation gives its result or the code of what it raises, and the state
--               then, since what is stored before an exception stays. What git, the hash functions and
--               the path guard do is a parameter (`Tools`), reading a worktree's tree may fail, and the
--               file system says what a restore can replace, change in mode and remove at a
--               path, where a directory or a symlink may stand. Parameters too are the edit that is staged and the
--               phases whose journal can be written. What a commit leaves is stated for every
--               such parameter; that files are given back, where git touches no others.
--
-- The lock of the scheduler, the event store and the plans makes their methods atomic, so that
-- concurrent calls are sequences of steps. with_idempotency has no lock: its theorems are about calls
-- that follow each other. So are those about change sets, whose calls hold two different locks.
--
-- Representation: a dict is an association list in the order of insertion, a deque a list, a clock a
-- natural number of ticks, an ISO time stamp its tick. Lease ids come from a function of the number
-- of leases issued so far, of which some theorems assume that it never repeats a value, as the random
-- tokens of the source do not. str.casefold and PurePath.is_absolute are parameters (`TextRules`).
--
-- Fuel: the loop of _grant_waiters has fuel for one more round than waiters are queued, since every
-- round but the last takes a waiter off a queue; the digits of a cursor have fuel above the number,
-- as have those of a number in a payload; the loop over a patch has fuel for its lines, as each round
-- goes over one.
--
-- Not modelled: ConcurrencyKey.file and the paths of the platform; the long poll wait_after; the
-- foreign key of the events on the workspaces, by which an event of an unknown workspace is
-- refused; floating-point numbers in payloads; of the change sets the edits of stage_patch and
-- stage_replace, the form of ids, the refusal of symlinks and submodules, error messages,
-- summaries, the exceptions of git and of the file system in `validate` other than ChangeSetError;
-- the other services and the tools, which run git, the operating system's processes and the file
-- system.
pub mod ChangeSets
pub mod Events
pub mod Idempotency
pub mod Patch
pub mod Plans
pub mod Prelude
pub mod Scheduler
