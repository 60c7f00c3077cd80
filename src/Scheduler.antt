-- ===== src/Scheduler.antt =====
-- src/omarchy_yolo/orchestrator.py: `_execute_dag`, one round of its loop up to the wait. A round
-- reads the stop request and the task rows, and knows the handles of the tasks that it started.
pub mod Launch
pub mod Progress
pub mod Planned
use omarchy_yolo.Prelude.{
  ℕ, ◌-◌, String, ◌≡◌, refl, Bool, true, false, not, ◌&&◌, ◌||◌, List, [], ◌∷◌, ◌++◌, map, Eq, ◌==◌,
  string_eq, elem, all, is_empty, length, take, if◌then◌else◌,
}
use omarchy_yolo.Prelude.Tables.{select}
use omarchy_yolo.Model.{TaskState, TaskRecord, task_state_eq}

-- An asyncio task: its name is the id of the task row that it runs.
pub record Handle : Type 0 where
  pub name : String
  pub done : Bool

-- How a round ends: by CancelledError, by TaskExecutionError for failed tasks, by return, by
-- blocking all open tasks with TaskExecutionError, or by waiting for the running handles.
pub data Round : Type 0 where
  cancelled finished : Round
  failed : List TaskRecord → Round
  stalled : List TaskRecord → Round
  waiting : (launched : List TaskRecord) (running : List Handle) → Round

abbrev pub is_state : TaskState → TaskRecord → Bool
is_state s t = t.state == s

-- `{task.logical_id for task in tasks if task.state == COMPLETED}`
unfoldable pub completed_ids : List TaskRecord → List String
completed_ids tasks = map (λ t. t.logical_id) (select (is_state TaskState.completed) tasks)

abbrev pub is_running : Handle → Bool
is_running h = not h.done

-- `active_ids`
unfoldable pub active_ids : List Handle → List String
active_ids active = map (λ h. h.name) (select (λ h. is_running h && not (h.name == "")) active)

-- The condition of `ready`
unfoldable pub is_ready : List TaskRecord → List Handle → TaskRecord → Bool
is_ready tasks active t =
    is_state TaskState.pending t
    && all (λ d. elem d (completed_ids tasks)) t.dependencies
    && not (elem t.id (active_ids active))

-- `ready[: max(0, capacity)]`; subtraction stops at 0.
unfoldable pub launched_tasks : ℕ → List TaskRecord → List Handle → List TaskRecord
launched_tasks max_parallel tasks active =
    take (max_parallel - length (select is_running active)) (select (is_ready tasks active) tasks)

abbrev pub start_handle : TaskRecord → Handle
start_handle t = record { name = t.id; done = false }

-- The round after the launch: wait, or block what is left.
unfoldable pub settle_round : List TaskRecord → List TaskRecord → List Handle → Round
settle_round tasks launched running =
    if not (is_empty running)
    then Round.waiting launched running
    else if not (is_empty (select (λ t. not (is_state TaskState.completed t)) tasks))
    then Round.stalled (select (λ t. not (is_state TaskState.completed t)) tasks)
    else Round.finished

unfoldable pub execute_round : Bool → ℕ → List TaskRecord → List Handle → Round
execute_round stop_requested max_parallel tasks active =
    let failures = select (is_state TaskState.failed) tasks in
    let launched = launched_tasks max_parallel tasks active in
    let running = select is_running active ++ map start_handle launched in
    if stop_requested
    then Round.cancelled
    else if not (is_empty failures)
    then Round.failed failures
    else if not (is_empty tasks) && all (is_state TaskState.completed) tasks
    then Round.finished
    else settle_round tasks launched running
