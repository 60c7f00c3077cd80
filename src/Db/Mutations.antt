-- ===== src/Db/Mutations.antt =====
-- src/omarchy_yolo/db.py: the public mutations of jobs, tasks and attempts. Keyword arguments that
-- may be absent are options; `unknown` holds the names of those that are no column.
use omarchy_yolo.Prelude.{
  ℕ, ℤ, String, Bool, true, false, not, ◌&&◌, ◌||◌, Option, none, some, List, [], ◌∷◌, ◌==◌, nat_eq,
  string_eq, elem, is_empty, if◌then◌else◌, Error, Reason,
}
use omarchy_yolo.Prelude.Tables.{fetchone}
use omarchy_yolo.Model.{
  JobState, TaskState, AttemptState, AcceptancePhase, JobRecord, TaskRecord, job_state_eq,
  task_state_eq, attempt_state_eq, phase_eq,
}
use omarchy_yolo.StateMachine.{
  is_inflight, validate_job_transition, validate_task_transition, validate_attempt_transition,
}
use omarchy_yolo.Db.Rows.{AttemptRow, Database}
use omarchy_yolo.Db.Actions.{
  Action, pure, raise, raise_when, when, gets, get_row, lift, transaction, ◌>>=◌, ◌>>◌,
}
use omarchy_yolo.Db.Core.{
  find_job, find_task, find_attempt, insert_attempt, update_jobs, update_tasks, update_attempts,
  validate_snapshot_locked,
}

abbrev pub get_or {ℓ} : {A : Type ℓ} → Option A → A → A
get_or none d = d
get_or (some a) d = a

abbrev pub is_given {ℓ} : {A : Type ℓ} → Option A → Bool
is_given none = false
is_given (some a) = true

-- The fields of `update_job`: _JOB_FIELDS.
pub record JobFields : Type 0 where
  pub unknown : List String
  pub state : Option JobState
  pub integration_path : Option String
  pub stop_requested : Option Bool
  pub final_summary : Option String
  pub error : Option String
  pub auto_apply : Option Bool

abbrev pub no_job_fields : JobFields
no_job_fields = record {
  unknown = [];
  state = none;
  integration_path = none;
  stop_requested = none;
  final_summary = none;
  error = none;
  auto_apply = none;
}

-- `set(values) - mutable_after_acceptance`, if not empty
unfoldable pub has_frozen_fields : JobFields → Bool
has_frozen_fields f =
    is_given f.integration_path
    || is_given f.final_summary
    || is_given f.error
    || is_given f.auto_apply

unfoldable pub has_job_fields : JobFields → Bool
has_job_fields f = is_given f.state || is_given f.stop_requested || has_frozen_fields f

unfoldable pub assign_job : JobFields → JobState → ℕ → JobRecord → JobRecord
assign_job f target now j = record j {
  state = target;
  integration_path = get_or f.integration_path j.integration_path;
  stop_requested = get_or f.stop_requested j.stop_requested;
  final_summary = get_or f.final_summary j.final_summary;
  error = get_or f.error j.error;
  auto_apply = get_or f.auto_apply j.auto_apply;
  updated_at = now;
}

-- WHERE id = ? AND state = ?
abbrev pub job_in : String → JobState → JobRecord → Bool
job_in job_id state j = j.id == job_id && j.state == state

-- The transaction of `update_job`, after its SELECT.
unfoldable pub update_job_row : String → JobFields → ℕ → JobRecord → Action (Unit {0})
update_job_row job_id f now row = do
  let current = row.state
  raise_when (not (row.acceptance_phase == AcceptancePhase.no_phase) && has_frozen_fields f)
      (Error.state_transition Reason.frozen_metadata)
  let target = get_or f.state current
  lift (validate_job_transition current target)
  raise_when (target == JobState.completed && not (current == JobState.completed))
      (Error.state_transition Reason.completion_not_published)
  update_jobs (job_in job_id current) (assign_job f target now)
      (Error.state_transition Reason.stale_job)
  validate_snapshot_locked job_id

unfoldable pub update_job : String → JobFields → ℕ → Action (Unit {0})
update_job job_id f now =
    if not (is_empty f.unknown)
    then raise Error.value_error
    else if not (has_job_fields f)
    then pure tt
    else transaction
        do row ← get_row (find_job job_id) Error.key_error; update_job_row job_id f now row

-- The fields of `update_task`: _TASK_FIELDS.
pub record TaskFields : Type 0 where
  pub unknown : List String
  pub state : Option TaskState
  pub attempts : Option ℕ
  pub branch : Option String
  pub worktree : Option String
  pub base_commit : Option String
  pub last_error : Option String
  pub result_summary : Option String
  pub preferred_agent : Option (Option String)

abbrev pub no_task_fields : TaskFields
no_task_fields = record {
  unknown = [];
  state = none;
  attempts = none;
  branch = none;
  worktree = none;
  base_commit = none;
  last_error = none;
  result_summary = none;
  preferred_agent = none;
}

unfoldable pub has_task_fields : TaskFields → Bool
has_task_fields f =
    is_given f.state
    || is_given f.attempts
    || is_given f.branch
    || is_given f.worktree
    || is_given f.base_commit
    || is_given f.last_error
    || is_given f.result_summary
    || is_given f.preferred_agent

unfoldable pub assign_task : TaskFields → ℕ → TaskRecord → TaskRecord
assign_task f now t = record t {
  state = get_or f.state t.state;
  attempts = get_or f.attempts t.attempts;
  branch = get_or f.branch t.branch;
  worktree = get_or f.worktree t.worktree;
  base_commit = get_or f.base_commit t.base_commit;
  last_error = get_or f.last_error t.last_error;
  result_summary = get_or f.result_summary t.result_summary;
  preferred_agent = get_or f.preferred_agent t.preferred_agent;
  updated_at = now;
}

abbrev pub task_in : String → TaskState → TaskRecord → Bool
task_in task_id state t = t.id == task_id && t.state == state

-- SELECT … FROM attempts WHERE task_id = ? AND state = 'running' LIMIT 1
unfoldable pub running_attempt : String → Database → Option AttemptRow
running_attempt task_id db =
    fetchone (λ a. a.task_id == task_id && a.state == AttemptState.running) db.attempts

-- The activation of a queued or planning job by the first task in flight.
unfoldable pub activate_job : String → TaskState → JobRecord → ℕ → Action (Unit {0})
activate_job job_id target job now =
    when (is_inflight target && elem job.state (JobState.queued ∷ JobState.planning ∷ [])) (do
      lift (validate_job_transition job.state JobState.running)
      update_jobs (job_in job_id job.state)
          (λ j. record j { state = JobState.running; updated_at = now })
          (Error.state_transition Reason.stale_job))

-- The transaction of `update_task`, after its SELECT of the task.
unfoldable pub update_task_row : String → TaskFields → ℕ → TaskRecord → Action (Unit {0})
update_task_row task_id f now row = do
  let current = row.state
  let target = get_or f.state current
  lift (validate_task_transition current target)
  job ← get_row (find_job row.job_id) Error.key_error
  raise_when (not (job.acceptance_phase == AcceptancePhase.no_phase))
      (Error.state_transition Reason.frozen_graph)
  activate_job row.job_id target job now
  busy ← gets (λ db. is_given (running_attempt task_id db))
  raise_when (target == TaskState.completed && not (current == TaskState.completed) && busy)
      (Error.state_transition Reason.running_attempt_left)
  update_tasks (task_in task_id current) (assign_task f now)
      (Error.state_transition Reason.stale_task)
  validate_snapshot_locked row.job_id

unfoldable pub update_task : String → TaskFields → ℕ → Action (Unit {0})
update_task task_id f now =
    if not (is_empty f.unknown)
    then raise Error.value_error
    else if not (has_task_fields f)
    then pure tt
    else transaction
        do row ← get_row (find_task task_id) Error.key_error; update_task_row task_id f now row

-- The arguments of `start_attempt`.
pub record NewAttempt : Type 0 where
  pub job_id : String
  pub task_id : String
  pub number : ℕ
  pub agent : String
  pub worktree : String
  pub branch : String
  pub log_path : String

abbrev pub attempt_row : NewAttempt → String → ℕ → AttemptRow
attempt_row a attempt_id now = record {
  id = attempt_id;
  job_id = a.job_id;
  task_id = a.task_id;
  number = a.number;
  agent = a.agent;
  state = AttemptState.running;
  worktree = a.worktree;
  branch = a.branch;
  log_path = a.log_path;
  started_at = now;
  finished_at = none;
  returncode = none;
  summary = "";
}

-- `attempt_id` is the value of `new_id("attempt")`. The SELECT joins the task with its job.
unfoldable pub start_attempt : NewAttempt → String → ℕ → Action String
start_attempt a attempt_id now = transaction do
  task ← get_row (find_task a.task_id) Error.key_error
  job ← get_row (find_job task.job_id) Error.key_error
  raise_when (not (task.job_id == a.job_id)) Error.yolo_error
  raise_when (not (job.state == JobState.running)) (Error.state_transition Reason.job_not_running)
  raise_when (not (task.state == TaskState.running))
      (Error.state_transition Reason.task_not_running)
  raise_when (not (job.acceptance_phase == AcceptancePhase.no_phase))
      (Error.state_transition Reason.attempt_after_acceptance)
  busy ← gets (λ db. is_given (running_attempt a.task_id db))
  raise_when busy (Error.state_transition Reason.attempt_already_running)
  insert_attempt (attempt_row a attempt_id now)
  validate_snapshot_locked a.job_id
  pure attempt_id

abbrev pub attempt_in : String → AttemptState → AttemptRow → Bool
attempt_in attempt_id state a = a.id == attempt_id && a.state == state

abbrev pub finished : AttemptState → Option ℤ → String → ℕ → AttemptRow → AttemptRow
finished target returncode summary now a = record a {
  state = target;
  returncode = returncode;
  summary = summary;
  finished_at = some now;
}

-- The transaction of `finish_attempt`, after its SELECT.
unfoldable pub finish_attempt_row :
    String → AttemptState → Option ℤ → String → ℕ → AttemptRow → Action (Unit {0})
finish_attempt_row attempt_id target returncode summary now row = do
  let current = row.state
  raise_when (not (current == AttemptState.running))
      (Error.state_transition Reason.attempt_finished)
  raise_when (target == AttemptState.running) (Error.state_transition Reason.attempt_not_terminal)
  lift (validate_attempt_transition current target)
  update_attempts (attempt_in attempt_id current) (finished target returncode summary now)
      (Error.state_transition Reason.stale_attempt)
  validate_snapshot_locked row.job_id

unfoldable pub finish_attempt : String → AttemptState → Option ℤ → String → ℕ → Action (Unit {0})
finish_attempt attempt_id target returncode summary now = transaction do
  row ← get_row (find_attempt attempt_id) Error.key_error
  finish_attempt_row attempt_id target returncode summary now row
