-- ===== src/Lib.antt =====
-- Omarchy-YOLO plans a coding job, runs its task graph with agents, and keeps all of its state in a
-- SQLite store. This library models the durable state machine, the store that enforces it, the
-- check of a planned graph, the scheduler's round, the run of a task up to its merge, the final audit,
-- the configuration and the sandbox.
--
-- Parts, each with its files and its source:
--   Model: the states and records of src/omarchy_yolo/model.py. A StrEnum is a data type, and times
--     are natural numbers, since the source only orders and stores them.
--   StateMachine: src/omarchy_yolo/state_machine.py, the transition tables and
--     `validate_job_snapshot`. Checks states its rules one by one, and Transitions follows a task
--     through validated steps.
--   Db: the store. Rows and Core are the tables of SCHEMA and `_snapshot_locked` of
--     src/omarchy_yolo/db_core.py, Mutations is src/omarchy_yolo/db.py, Records is db_records.py,
--     Recovery is db_recovery.py, and Provenance is db_provenance.py. A public method is the
--     function of its name. A table is the list of its rows in order of insertion; keys and foreign
--     keys are checked where the source inserts. An Action takes the database to a result or an
--     exception and the database after it, and `transaction` gives back the old database on an
--     exception, as ROLLBACK does. Each method holds the store's lock, so that a history of the
--     store is a list of calls (History). Ids of `new_id`, the time of `utc_ts` and the text of
--     `json_dumps` are arguments; the row of an event keeps the payload in place of its text.
--     SHA-256 is a parameter on which nothing is assumed. Views to Commits and Soundness carry the
--     proofs: which tables an action touches, which snapshots it changes, and that it ends with the
--     check of each of them. Moves is about the state that `update_job` leaves.
--   Planner: `Planner.validate` of src/omarchy_yolo/planner.py. The recursion of `visit` runs on
--     fuel, one more than the number of tasks. That is enough: the stack of `visiting` holds
--     distinct tasks only.
--   Scheduler: `_execute_dag` of src/omarchy_yolo/orchestrator.py, one round of its loop up to the
--     wait for a handle.
--   Runtime: `ResourceCoordinator.repo_lock` of src/omarchy_yolo/runtime.py, as steps of any number
--     of calls, each step a stretch of the coroutine between two awaits. Counts and Cleanup carry
--     the lemmas, Steps treats each step, and Exclusion puts them together.
--   ReviewSource: `_split_text` of src/omarchy_yolo/review_source.py, which cuts a diff into pieces
--     for review. Its input is the list of lines that `splitlines(keepends=True)` yields; these
--     join to the text.
--   Agents: src/omarchy_yolo/agents/registry.py, the choice of an agent, and the results of model.py.
--   Reviews: the reading of an answer in src/omarchy_yolo/reviewer.py, and `_review_failure`.
--   Execution: src/omarchy_yolo/orchestrator_task.py (Worktrees, Calls, Attempts), the merge of
--     a task and the final audit in orchestrator_integration.py (Integrate, Finalize), and the
--     parts of `run_job` in orchestrator.py (Jobs; Settled is about its handlers, Verified about the
--     resumption of accepted work). A Run is a coroutine over the store and the
--     log of its effects (Runs). What it awaits is the record World: an answer may be any function
--     of the effects so far, it may be an exception or a cancellation, and other coroutines may
--     call any public mutations meanwhile. The registry of agents stays as it is during a run.
--     Texts for people and agents are fields of World too. Discipline reads the order of a run off
--     its log, and the others carry the proofs. The loops run `max_attempts` and `max_final_cycles
--     + 1` times, and over lists of candidates, chunks and files.
--   Config: src/omarchy_yolo/config.py. `load_config` takes the parsed TOML document (Values), which
--     tomllib reads; Fields are the readers of single settings. Python's `str` and `int` of values
--     other than texts, integers and Booleans and `str.lower` are a parameter. An error is a value
--     of Fallible. Posture, Bounds and Limits state what a Config guarantees.
--   Sandbox: src/omarchy_yolo/sandbox.py, the arguments of bubblewrap and the environment. Paths are
--     lists of parts, resolved by a parameter; Confined, Network and Environment declare what a child
--     may write, reach and see. Directories and variables of the host are the record
--     Host.
--   Prelude and Tests: shared helpers, and runs on small inputs.
--
-- How they meet: the planner's accepted tasks become the rows of `add_tasks`, the scheduler reads
-- these rows and starts tasks, tasks report through `update_task` and the attempts' methods
-- (Execution), and the journal of Provenance closes the job. A mutation
-- of jobs, tasks or attempts ends with `validate_job_snapshot` on each job that it touches.
--
-- Not modelled: migrations and the schema contract (they work on SQLite's catalogue), reports that
-- change no state (attempt metrics, provenance snapshots), Git, gates, agents and
-- processes (the operating system's work), the reading of the planner's JSON, the daemon, the
-- worker slots, and the user interface. `update_job` and `update_task` take typed states: a text
-- that is no state raises ValueError before any write.
pub mod Prelude
pub mod Model
pub mod StateMachine
pub mod Db
pub mod Planner
pub mod Scheduler
pub mod ReviewSource
pub mod Agents
pub mod Execution
pub mod Reviews
pub mod Config
pub mod Sandbox
pub mod Runtime
pub mod Tests
