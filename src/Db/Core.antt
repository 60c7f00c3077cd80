-- ===== src/Db/Core.antt =====
-- src/omarchy_yolo/db_core.py: the snapshot of one job and its validation inside a transaction;
-- and the INSERT statements with the keys that the schema declares.
use Prim.Native.String
use Prim.Native.Nat.{Ordering}
use omarchy_yolo.Prelude.{
  ℕ, suc, String, Bool, true, false, not, ◌&&◌, ◌||◌, Option, none, some, List, [], ◌∷◌, ◌++◌, map,
  ◌==◌, nat_eq, string_eq, any, sort_by, leb, ltb, Error,
}
use omarchy_yolo.Prelude.Tables.{select, fetchone, update, rowcount}
use omarchy_yolo.Model.{
  JobRecord, TaskRecord, TaskState, AttemptState, attempt_state_eq, phase_value,
}
use omarchy_yolo.StateMachine.{Snapshot, validate_job_snapshot}
use omarchy_yolo.Db.Rows.{AttemptRow, EventRow, DossierRow, PayloadValue, Database}
use omarchy_yolo.Db.Actions.{Action, pure, raise_when, modify, gets, get_row, lift, ◌>>=◌, ◌>>◌}

-- SELECT … FROM jobs WHERE id = ?
unfoldable pub find_job : String → Database → Option JobRecord
find_job job_id db = fetchone (λ j. j.id == job_id) db.jobs

unfoldable pub find_task : String → Database → Option TaskRecord
find_task task_id db = fetchone (λ t. t.id == task_id) db.tasks

unfoldable pub find_attempt : String → Database → Option AttemptRow
find_attempt attempt_id db = fetchone (λ a. a.id == attempt_id) db.attempts

unfoldable pub find_dossier : String → Database → Option DossierRow
find_dossier job_id db = fetchone (λ d. d.job_id == job_id) db.dossiers

-- SELECT … FROM tasks WHERE job_id = ?, in order of insertion
unfoldable pub tasks_of : String → List TaskRecord → List TaskRecord
tasks_of job_id = select (λ t. t.job_id == job_id)

-- SELECT … FROM attempts WHERE job_id = ? AND state = 'running'
unfoldable pub running_attempts : String → List AttemptRow → List AttemptRow
running_attempts job_id = select (λ a. a.job_id == job_id && a.state == AttemptState.running)

-- ORDER BY seq
abbrev pub by_seq : TaskRecord → TaskRecord → Bool
by_seq s t = leb s.seq t.seq

abbrev pub text_leb : String → String → Bool
text_leb s t = elim (String.compare s t) [ Ordering.gt ↦ false | _ ↦ true ]

-- ORDER BY a.started_at, a.id
abbrev pub by_start : AttemptRow → AttemptRow → Bool
by_start a b = ltb a.started_at b.started_at || a.started_at == b.started_at && text_leb a.id b.id

-- JOIN tasks AS t ON t.job_id = a.job_id AND t.id = a.task_id, and SELECT t.state
unfoldable pub join_states : List TaskRecord → List AttemptRow → List TaskState
join_states tasks [] = []
join_states tasks (a ∷ rest) =
    map (λ t. t.state) (select (λ t. t.job_id == a.job_id && t.id == a.task_id) tasks)
    ++ join_states tasks rest

-- The tuple that `_snapshot_locked` returns.
abbrev pub snapshot_of : List TaskState → List TaskState → JobRecord → Snapshot
snapshot_of tasks owners job = record {
  state = job.state;
  tasks = tasks;
  running_owners = owners;
  stop_requested = job.stop_requested;
  phase = some (phase_value job.acceptance_phase);
}

-- `none` where there is no job, and it raises KeyError.
abbrev pub assemble : Option JobRecord → List TaskState → List TaskState → Option Snapshot
assemble none tasks owners = none
assemble (some job) tasks owners = some (snapshot_of tasks owners job)

-- The states of a job's tasks, in order of `seq`, and of the tasks that own its running attempts.
unfoldable pub task_states : String → Database → List TaskState
task_states job_id db = map (λ t. t.state) (sort_by by_seq (tasks_of job_id db.tasks))

unfoldable pub owner_states : String → Database → List TaskState
owner_states job_id db =
    join_states db.tasks (sort_by by_start (running_attempts job_id db.attempts))

-- `_snapshot_locked`
unfoldable pub snapshot_locked : String → Database → Option Snapshot
snapshot_locked job_id db =
    assemble (find_job job_id db) (task_states job_id db) (owner_states job_id db)

unfoldable pub validate_snapshot_locked : String → Action (Unit {0})
validate_snapshot_locked job_id = do
  s ← get_row (snapshot_locked job_id) Error.key_error
  lift (validate_job_snapshot s)

-- INSERT INTO jobs: the primary key is `id`.
unfoldable pub insert_job : JobRecord → Action (Unit {0})
insert_job row = do
  taken ← gets (λ db. any (λ j. j.id == row.id) db.jobs)
  raise_when taken Error.integrity_error
  modify (λ db. record db { jobs = db.jobs ++ row ∷ [] })

-- INSERT INTO tasks: the primary key is `id`, and (job_id, logical_id) is unique.
unfoldable pub insert_task : TaskRecord → Action (Unit {0})
insert_task row = do
  taken ← gets (λ db. any (λ t. t.id == row.id) db.tasks)
  named ← gets (λ db. any (λ t. t.job_id == row.job_id && t.logical_id == row.logical_id) db.tasks)
  raise_when (taken || named) Error.integrity_error
  modify (λ db. record db { tasks = db.tasks ++ row ∷ [] })

-- INSERT INTO attempts: the primary key is `id`, and (task_id, number) is unique.
unfoldable pub insert_attempt : AttemptRow → Action (Unit {0})
insert_attempt row = do
  taken ← gets (λ db. any (λ a. a.id == row.id) db.attempts)
  numbered ← gets (λ db. any (λ a. a.task_id == row.task_id && a.number == row.number) db.attempts)
  raise_when (taken || numbered) Error.integrity_error
  modify (λ db. record db { attempts = db.attempts ++ row ∷ [] })

-- A row of `events` takes the next id of the sequence.
unfoldable pub append_event : (ℕ → EventRow) → Action ℕ
append_event row = do
  event_id ← gets (λ db. suc db.event_sequence)
  modify (λ db. record db { events = db.events ++ row event_id ∷ []; event_sequence = event_id })
  pure event_id

-- INSERT INTO events: the job has to exist.
unfoldable pub insert_event :
    String
    → Option String
    → String
    → List (record { key : String; value : PayloadValue })
    → ℕ
    → Action ℕ
insert_event job_id task_id kind payload now = do
  _ ← get_row (find_job job_id) Error.integrity_error
  append_event (λ event_id. record {
    id = event_id;
    job_id = job_id;
    task_id = task_id;
    kind = kind;
    payload = payload;
    created_at = now;
  })

-- UPDATE jobs SET … WHERE …, where the count of rows does not matter
unfoldable pub rewrite_jobs : (JobRecord → Bool) → (JobRecord → JobRecord) → Action (Unit {0})
rewrite_jobs test f = modify (λ db. record db { jobs = update test f db.jobs })

unfoldable pub rewrite_tasks : (TaskRecord → Bool) → (TaskRecord → TaskRecord) → Action (Unit {0})
rewrite_tasks test f = modify (λ db. record db { tasks = update test f db.tasks })

unfoldable pub rewrite_attempts :
    (AttemptRow → Bool) → (AttemptRow → AttemptRow) → Action (Unit {0})
rewrite_attempts test f = modify (λ db. record db { attempts = update test f db.attempts })

-- UPDATE jobs SET … WHERE …, with `if cur.rowcount != 1: raise`
unfoldable pub update_jobs :
    (JobRecord → Bool) → (JobRecord → JobRecord) → Error → Action (Unit {0})
update_jobs test f stale = do
  n ← gets (λ db. rowcount test db.jobs)
  rewrite_jobs test f
  raise_when (not (n == 1)) stale

unfoldable pub update_tasks :
    (TaskRecord → Bool) → (TaskRecord → TaskRecord) → Error → Action (Unit {0})
update_tasks test f stale = do
  n ← gets (λ db. rowcount test db.tasks)
  rewrite_tasks test f
  raise_when (not (n == 1)) stale

unfoldable pub update_attempts :
    (AttemptRow → Bool) → (AttemptRow → AttemptRow) → Error → Action (Unit {0})
update_attempts test f stale = do
  n ← gets (λ db. rowcount test db.attempts)
  rewrite_attempts test f
  raise_when (not (n == 1)) stale

-- The UPDATE or INSERT of the one dossier of a job is written out where it is made.
unfoldable pub rewrite_dossiers : (List DossierRow → List DossierRow) → Action (Unit {0})
rewrite_dossiers f = modify (λ db. record db { dossiers = f db.dossiers })
