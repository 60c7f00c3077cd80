-- ===== src/Db/Records.antt =====
-- src/omarchy_yolo/db_records.py: creation and lookup of jobs, tasks and events, and the two
-- requests of an operator. The ids that `new_id` makes up are arguments.
use omarchy_yolo.Prelude.{
  ℕ, suc, ◌-◌, text_length, max, min, String, Bool, true, false, not, Option, none, some, List, [],
  ◌∷◌, ◌==◌, string_eq, elem, take, sort_by, leb, ltb, ◌&&◌, take_text, if◌then◌else◌, Error,
  Reason,
}
use omarchy_yolo.Prelude.Tables.{select, fetchone}
use omarchy_yolo.Model.{
  JobState, TaskState, AcceptancePhase, PlannedTask, JobRecord, TaskRecord, job_state_eq, phase_eq,
}
use omarchy_yolo.Db.Rows.{EventRow, PayloadValue}
use omarchy_yolo.Db.Actions.{
  Action, pure, raise_when, gets, get_row, for_each, transaction, ◌>>=◌, ◌>>◌,
}
use omarchy_yolo.Db.Core.{
  find_job, find_task, tasks_of, by_seq, insert_job, insert_task, insert_event,
  validate_snapshot_locked,
}
use omarchy_yolo.Db.Mutations.{no_job_fields, update_job}

-- The arguments of `create_job`.
pub record NewJob : Type 0 where
  pub repo : String
  pub goal : String
  pub base_branch : String
  pub base_commit : String
  pub integration_branch : String
  pub auto_apply : Bool

-- The columns that the INSERT leaves out take the defaults of the schema.
abbrev pub job_row : NewJob → String → ℕ → JobRecord
job_row n job_id now = record {
  id = job_id;
  repo = n.repo;
  goal = n.goal;
  state = JobState.queued;
  base_branch = n.base_branch;
  base_commit = n.base_commit;
  integration_branch = n.integration_branch;
  integration_path = "";
  auto_apply = n.auto_apply;
  stop_requested = false;
  created_at = now;
  updated_at = now;
  final_summary = "";
  error = "";
  accepted_commit = "";
  acceptance_phase = AcceptancePhase.no_phase;
  source_apply_intent = "not-requested";
  source_apply_outcome = "";
  source_apply_reason = "";
}

abbrev pub entry : String → String → record { key : String; value : PayloadValue }
entry key value = record { key = key; value = PayloadValue.text value }

unfoldable pub get_job : String → Action JobRecord
get_job job_id = get_row (find_job job_id) Error.key_error

unfoldable pub create_job : NewJob → String → ℕ → Action JobRecord
create_job n job_id now = do
  transaction do
    insert_job (job_row n job_id now)
    _ ← insert_event job_id none "job.created" (entry "goal" n.goal ∷ entry "repo" n.repo ∷ []) now
    validate_snapshot_locked job_id
  get_job job_id

-- SELECT COALESCE(MAX(seq), 0) FROM tasks WHERE job_id = ?
abbrev pub max_seq : List TaskRecord → ℕ
max_seq [] = 0
max_seq (t ∷ ts) = max t.seq (max_seq ts)

-- The rows of `add_tasks`: `ids` are the values of `new_id("task")`, one for each task.
unfoldable pub task_rows :
    String → ℕ → ℕ → List (record { id : String; task : PlannedTask }) → List TaskRecord
task_rows job_id seq now [] = []
task_rows job_id seq now (p ∷ ps) =
    record {
      id = p.id;
      job_id = job_id;
      seq = suc seq;
      logical_id = p.task.logical_id;
      title = p.task.title;
      description = p.task.description;
      state = TaskState.pending;
      dependencies = p.task.depends_on;
      acceptance = p.task.acceptance;
      preferred_agent = p.task.preferred_agent;
      attempts = 0;
      branch = "";
      worktree = "";
      base_commit = "";
      last_error = "";
      result_summary = "";
      created_at = now;
      updated_at = now;
    }
    ∷ task_rows job_id (suc seq) now ps

unfoldable pub list_tasks : String → Action (List TaskRecord)
list_tasks job_id = gets (λ db. sort_by by_seq (tasks_of job_id db.tasks))

unfoldable pub add_tasks :
    String → List (record { id : String; task : PlannedTask }) → ℕ → Action (List TaskRecord)
add_tasks job_id planned now = do
  transaction do
    job ← get_row (find_job job_id) Error.key_error
    raise_when (not (elem job.state (JobState.queued ∷ JobState.planning ∷ [])))
        (Error.state_transition Reason.tasks_outside_planning)
    raise_when (not (job.acceptance_phase == AcceptancePhase.no_phase))
        (Error.state_transition Reason.tasks_after_acceptance)
    start_seq ← gets (λ db. max_seq (tasks_of job_id db.tasks))
    for_each (task_rows job_id start_seq now planned) insert_task
    validate_snapshot_locked job_id
  list_tasks job_id

unfoldable pub get_task : String → Action TaskRecord
get_task task_id = get_row (find_task task_id) Error.key_error

abbrev pub max_event_payload_chars : ℕ
max_event_payload_chars = 8000

-- The payload that `event` stores: a preview of the JSON text `encoded`, where that is too long.
unfoldable pub stored_payload :
    List (record { key : String; value : PayloadValue })
    → String
    → List (record { key : String; value : PayloadValue })
stored_payload payload encoded =
    if ltb max_event_payload_chars (text_length encoded)
    then record { key = "truncated"; value = PayloadValue.boolean true }
      ∷ entry "preview" (take_text (max_event_payload_chars - 100) encoded)
      ∷ []
    else payload

-- `encoded` is the value of `json_dumps(payload or {})`.
unfoldable pub event :
    String
    → String
    → List (record { key : String; value : PayloadValue })
    → String
    → Option String
    → ℕ
    → Action ℕ
event job_id kind payload encoded task_id now =
    insert_event job_id task_id (take_text 128 kind) (stored_payload payload encoded) now

abbrev pub max_job_list_limit : ℕ
max_job_list_limit = 200

abbrev pub max_event_list_limit : ℕ
max_event_list_limit = 100

abbrev pub first_row : {A : Type 0} → List A → Option A
first_row [] = none
first_row (x ∷ xs) = some x

abbrev pub max_id : List EventRow → ℕ
max_id [] = 0
max_id (e ∷ es) = max e.id (max_id es)

-- ORDER BY created_at DESC
abbrev pub newest_first : JobRecord → JobRecord → Bool
newest_first i j = leb j.created_at i.created_at

-- ORDER BY created_at DESC LIMIT 1
unfoldable pub latest_job : Action (Option JobRecord)
latest_job = gets (λ db. first_row (sort_by newest_first db.jobs))

unfoldable pub get_task_by_logical_id : String → String → Action TaskRecord
get_task_by_logical_id job_id logical_id =
    get_row (λ db. fetchone (λ t. t.job_id == job_id && t.logical_id == logical_id) db.tasks)
      Error.key_error

-- SELECT COALESCE(MAX(id), 0) FROM events WHERE job_id = ?
unfoldable pub last_event_id : String → Action ℕ
last_event_id job_id = gets (λ db. max_id (select (λ e. e.job_id == job_id) db.events))

unfoldable pub list_jobs : ℕ → Action (List JobRecord)
list_jobs limit =
    gets (λ db. take (min max_job_list_limit (max 1 limit)) (sort_by newest_first db.jobs))

-- ORDER BY id
abbrev pub by_event_id : EventRow → EventRow → Bool
by_event_id a b = leb a.id b.id

unfoldable pub events : String → ℕ → ℕ → Action (List EventRow)
events job_id after_id limit = gets (λ db.
    take (min max_event_list_limit (max 1 limit))
      (sort_by by_event_id (select (λ e. e.job_id == job_id && ltb after_id e.id) db.events)))

unfoldable pub request_stop : String → ℕ → Action (Unit {0})
request_stop job_id now = do
  update_job job_id
      (record no_job_fields { stop_requested = some true; state = some JobState.stopping }) now
  _ ← event job_id "job.stop_requested" [] "{}" none now
  pure tt

unfoldable pub clear_stop : String → ℕ → Action (Unit {0})
clear_stop job_id now = do
  update_job job_id
      (record no_job_fields {
        stop_requested = some false;
        state = some JobState.queued;
        error = some "";
      })
      now
  _ ← event job_id "job.resumed" [] "{}" none now
  pure tt
