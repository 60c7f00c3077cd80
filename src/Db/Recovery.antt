-- ===== src/Db/Recovery.antt =====
-- src/omarchy_yolo/db_recovery.py: retry, settlement and resumption of a job, and the recovery of
-- all interrupted jobs when the daemon starts.
use omarchy_yolo.Prelude.{
  ℕ, String, Bool, true, false, not, ◌&&◌, none, some, List, [], ◌∷◌, ◌++◌, map, ◌==◌, string_eq,
  elem, is_empty, last_text, if◌then◌else◌, Error, Reason,
}
use omarchy_yolo.Prelude.Tables.{select}
use omarchy_yolo.Model.{
  JobState, TaskState, AttemptState, AcceptancePhase, JobRecord, TaskRecord, job_state_eq,
  task_state_eq, attempt_state_eq, phase_eq,
}
use omarchy_yolo.StateMachine.{is_inflight, is_accepting, validate_job_transition}
use omarchy_yolo.Db.Rows.{AttemptRow, Database}
use omarchy_yolo.Db.Actions.{
  Action, pure, raise_when, when, gets, get_row, lift, for_each, transaction, ◌>>=◌, ◌>>◌,
}
use omarchy_yolo.Db.Core.{
  find_job, rewrite_jobs, rewrite_tasks, rewrite_attempts, update_jobs, validate_snapshot_locked,
}
use omarchy_yolo.Db.Records.{event, get_job}

-- WHERE job_id IN (…) AND state != 'completed'
abbrev pub open_task_of : List String → TaskRecord → Bool
open_task_of ids t = elem t.job_id ids && not (t.state == TaskState.completed)

-- WHERE job_id IN (…) AND state IN ('running', 'reviewing', 'integrating')
abbrev pub inflight_task_of : List String → TaskRecord → Bool
inflight_task_of ids t = elem t.job_id ids && is_inflight t.state

-- WHERE job_id IN (…) AND state = 'running'
abbrev pub running_attempt_of : List String → AttemptRow → Bool
running_attempt_of ids a = elem a.job_id ids && a.state == AttemptState.running

-- CASE WHEN summary = '' THEN ? ELSE summary END
abbrev pub or_summary : String → String → String
or_summary summary fallback = if summary == "" then fallback else summary

abbrev pub move_task : TaskState → ℕ → TaskRecord → TaskRecord
move_task state now t = record t { state = state; updated_at = now }

abbrev pub close_attempt : AttemptState → String → ℕ → AttemptRow → AttemptRow
close_attempt state summary now a = record a {
  state = state;
  finished_at = some now;
  summary = or_summary a.summary summary;
}

unfoldable pub retry_failed_tasks : String → ℕ → Action (Unit {0})
retry_failed_tasks job_id now = do
  job ← get_job job_id
  raise_when (not (job.acceptance_phase == AcceptancePhase.no_phase))
      (Error.state_transition Reason.retry_after_acceptance)
  raise_when (not (elem job.state (JobState.failed ∷ JobState.stopped ∷ JobState.queued ∷ [])))
      (Error.state_transition Reason.retry_active_job)
  transaction do
    rewrite_tasks (open_task_of (job_id ∷ [])) (move_task TaskState.pending now)
    validate_snapshot_locked job_id

-- The UPDATE of the tasks that `settle_inflight` closes.
abbrev pub settle_task : TaskState → String → ℕ → TaskRecord → TaskRecord
settle_task state summary now t = record t {
  state = state;
  last_error = if summary == "" then t.last_error else summary;
  updated_at = now;
}

unfoldable pub settle_inflight : String → TaskState → AttemptState → String → ℕ → Action (Unit {0})
settle_inflight job_id task_state attempt_state summary now = do
  raise_when (not (elem task_state (TaskState.pending ∷ TaskState.failed ∷ TaskState.stopped ∷ [])))
      Error.value_error
  raise_when (not (elem attempt_state (AttemptState.cancelled ∷ AttemptState.failed ∷ [])))
      Error.value_error
  let bounded_summary = last_text 8000 summary
  transaction do
    job ← get_row (find_job job_id) Error.key_error
    raise_when (not (job.acceptance_phase == AcceptancePhase.no_phase))
        (Error.state_transition Reason.settle_after_acceptance)
    rewrite_attempts (running_attempt_of (job_id ∷ []))
        (close_attempt attempt_state bounded_summary now)
    rewrite_tasks (inflight_task_of (job_id ∷ [])) (settle_task task_state bounded_summary now)
    validate_snapshot_locked job_id

unfoldable pub prepare_resume : String → ℕ → Action (Unit {0})
prepare_resume job_id now = do
  transaction do
    row ← get_row (find_job job_id) Error.key_error
    let current = row.state
    raise_when (not (row.acceptance_phase == AcceptancePhase.no_phase))
        (Error.state_transition Reason.resume_after_acceptance)
    raise_when (not (elem current (JobState.stopped ∷ JobState.failed ∷ [])))
        (Error.state_transition Reason.resume_active_job)
    lift (validate_job_transition current JobState.queued)
    rewrite_attempts (running_attempt_of (job_id ∷ []))
        (close_attempt AttemptState.cancelled "cancelled before explicit resume" now)
    rewrite_tasks (open_task_of (job_id ∷ [])) (move_task TaskState.pending now)
    update_jobs
        (λ j.
          j.id == job_id && j.state == current && j.acceptance_phase == AcceptancePhase.no_phase)
        (λ j. record j {
          state = JobState.queued;
          stop_requested = false;
          error = "";
          updated_at = now;
        })
        (Error.state_transition Reason.stale_job)
    validate_snapshot_locked job_id
  _ ← event job_id "job.resumed" [] "{}" none now
  pure tt

-- SELECT … FROM jobs WHERE state NOT IN ('completed', 'failed', 'stopped')
unfoldable pub unfinished_jobs : Database → List JobRecord
unfinished_jobs db =
    select (λ j. not (elem j.state (JobState.completed ∷ JobState.failed ∷ JobState.stopped ∷ [])))
      db.jobs

abbrev pub is_accepted_row : JobRecord → Bool
is_accepted_row j = is_accepting j.acceptance_phase

abbrev pub is_active_row : JobRecord → Bool
is_active_row j = not j.stop_requested && not (j.state == JobState.stopping)

-- The checks of the rows, before the transaction.
unfoldable pub check_accepted_row : JobRecord → Action (Unit {0})
check_accepted_row j =
    raise_when (not (elem j.state (JobState.running ∷ JobState.stopping ∷ [])))
      (Error.state_transition Reason.invalid_recovery)

unfoldable pub check_active_row : JobRecord → Action (Unit {0})
check_active_row j = lift (validate_job_transition j.state JobState.queued)

unfoldable pub check_stopped_row : JobRecord → Action (Unit {0})
check_stopped_row j = do
  when (not (j.state == JobState.stopping))
      (lift (validate_job_transition j.state JobState.stopping))
  lift (validate_job_transition JobState.stopping JobState.stopped)

-- The UPDATEs of the jobs that go on, and of those that were asked to stop.
unfoldable pub interrupt_work : List String → TaskState → String → ℕ → Action (Unit {0})
interrupt_work ids state summary now = do
  rewrite_tasks (inflight_task_of ids) (move_task state now)
  rewrite_attempts (running_attempt_of ids) (close_attempt AttemptState.cancelled summary now)

-- What `recover_incomplete` writes, in one transaction.
unfoldable pub recover_rows : List String → List String → List String → ℕ → Action (Unit {0})
recover_rows accepted_ids active_ids stopped_ids now = do
  when (not (is_empty accepted_ids)) (
      rewrite_jobs (λ j. elem j.id accepted_ids)
        (λ j. record j { stop_requested = false; error = ""; updated_at = now }))
  when (not (is_empty active_ids)) (do
    interrupt_work active_ids TaskState.pending "interrupted by daemon restart" now
    rewrite_jobs (λ j. elem j.id active_ids)
        (λ j. record j { state = JobState.queued; stop_requested = false; updated_at = now }))
  when (not (is_empty stopped_ids)) (do
    interrupt_work stopped_ids TaskState.stopped "interrupted while stop was requested" now
    rewrite_jobs (λ j. elem j.id stopped_ids)
        (λ j. record j { state = JobState.stopped; stop_requested = true; updated_at = now }))
  for_each (accepted_ids ++ (active_ids ++ stopped_ids)) validate_snapshot_locked

abbrev pub job_ids : List JobRecord → List String
job_ids = map (λ j. j.id)

-- `for job_id in ids: self.event(job_id, kind)`
unfoldable pub announce : String → ℕ → List String → Action (Unit {0})
announce kind now ids = for_each ids (λ job_id. do _ ← event job_id kind [] "{}" none now; pure tt)

-- `recover_incomplete` after its SELECT, for at least one row.
unfoldable pub recover_from : List JobRecord → ℕ → Action (List String)
recover_from rows now = do
  let accepted_rows = select is_accepted_row rows
  let ordinary_rows = select (λ j. not (is_accepted_row j)) rows
  let active_rows = select is_active_row ordinary_rows
  let stopped_rows = select (λ j. not (is_active_row j)) ordinary_rows
  for_each accepted_rows check_accepted_row
  for_each active_rows check_active_row
  for_each stopped_rows check_stopped_row
  transaction
      (recover_rows (job_ids accepted_rows) (job_ids active_rows) (job_ids stopped_rows) now)
  announce "job.recovered_acceptance" now (job_ids accepted_rows)
  announce "job.recovered" now (job_ids active_rows)
  announce "job.recovered_stopped" now (job_ids stopped_rows)
  pure (job_ids accepted_rows ++ job_ids active_rows)

unfoldable pub recover_incomplete : ℕ → Action (List String)
recover_incomplete now = do
  rows ← gets unfinished_jobs
  if is_empty rows then pure [] else recover_from rows now
