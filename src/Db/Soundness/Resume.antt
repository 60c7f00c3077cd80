-- ===== src/Db/Soundness/Resume.antt =====
-- The mutations of src/omarchy_yolo/db_records.py and db_recovery.py keep the store consistent.
use omarchy_yolo.Prelude.{
  ℕ, suc, String, ◌≡◌, refl, Option, none, List, [], ◌∷◌, arith, string_eq, ==-refl, last_text,
  take_text,
}
use omarchy_yolo.Model.{
  TaskState, AttemptState, PlannedTask, TaskRecord, job_state_eq, task_state_eq, attempt_state_eq,
  phase_eq,
}
use omarchy_yolo.Db.Rows.{PayloadValue}
use omarchy_yolo.Db.Actions.{for_each}
use omarchy_yolo.Db.Core.{rewrite_tasks, rewrite_attempts, insert_task}
use omarchy_yolo.Db.Records.{
  NewJob, job_row, get_job, create_job, task_rows, list_tasks, add_tasks, event, stored_payload,
  request_stop, clear_stop,
}
use omarchy_yolo.Db.Recovery.{
  open_task_of, inflight_task_of, running_attempt_of, move_task, close_attempt, settle_task,
  retry_failed_tasks, settle_inflight, prepare_resume,
}
use omarchy_yolo.Db.Frames.{
  always, Touches, Touches-Reads, Touches-bind, Reads, Reads-pure, Reads-raise_when, Reads-lift,
  Reads-gets, Reads-get_row,
}
use omarchy_yolo.Db.Writes.{Touches-update_jobs, Touches-tasks_of_jobs, Touches-attempts_of_jobs}
use omarchy_yolo.Db.Inserts.{Touches-insert_job, Touches-insert_task, Touches-insert_event}
use omarchy_yolo.Db.Commits.{
  Checks-validate, Checks-bind, Checks-Reads, CommitsAt-Checks, Keeps, Keeps-transaction,
  Keeps-Reads, Keeps-Touches, Keeps-bind,
}
use omarchy_yolo.Db.Soundness.Jobs.{elem_self, update_job-Keeps}

pub event-Keeps :
    (job_id kind : String) (payload : List (record { key : String; value : PayloadValue }))
    (encoded : String) (task_id : Option String) (now : ℕ)
    → Keeps (event job_id kind payload encoded task_id now)
unfolding event
event-Keeps job_id kind payload encoded task_id now =
    Keeps-Touches _ (
      Touches-insert_event job_id task_id (take_text 128 kind) (stored_payload payload encoded) now)

Reads-get_job : (job_id : String) → Reads (get_job job_id)
unfolding get_job
Reads-get_job job_id = Reads-get_row _ _

-- create_job
pub create_job-Keeps : (n : NewJob) (job_id : String) (now : ℕ) → Keeps (create_job n job_id now)
unfolding create_job
create_job-Keeps n job_id now =
    Keeps-bind _ _
      (Keeps-transaction _ λ db.
        CommitsAt-Checks always _
          (Checks-bind _ _ (Touches-insert_job (job_row n job_id now) (rw (==-refl job_id))) λ _.
            Checks-bind _ _ (Touches-insert_event job_id none "job.created" _ now)
              λ _. Checks-validate job_id)
          (λ good. tt))
      λ _. Keeps-Reads _ (Reads-get_job job_id)

Touches-insert_rows :
    (job_id : String) (seq now : ℕ) (planned : List (record { id : String; task : PlannedTask }))
    → Touches (job_id ∷ []) always (for_each (task_rows job_id seq now planned) insert_task)
unfolding task_rows for_each
Touches-insert_rows job_id seq now [] = Touches-Reads _ (Reads-pure tt)
Touches-insert_rows job_id seq now (p ∷ ps) =
    Touches-bind _ _ (Touches-insert_task _ (rw (==-refl job_id)))
      λ _. Touches-insert_rows job_id (suc seq) now ps

-- add_tasks
pub add_tasks-Keeps :
    (job_id : String) (planned : List (record { id : String; task : PlannedTask })) (now : ℕ)
    → Keeps (add_tasks job_id planned now)
unfolding add_tasks list_tasks
add_tasks-Keeps job_id planned now =
    Keeps-bind _ _
      (Keeps-transaction _ λ db.
        CommitsAt-Checks {ks = job_id ∷ []} always _
          (Checks-Reads _ _ (Reads-get_row _ _) λ job. Checks-Reads _ _ (Reads-raise_when _ _) λ _.
            Checks-Reads _ _ (Reads-raise_when _ _) λ _. Checks-Reads _ _ (Reads-gets _) λ seq.
              Checks-bind _ _ (Touches-insert_rows job_id seq now planned)
                λ _. Checks-validate job_id)
          (λ good. tt))
      λ _. Keeps-Reads _ (Reads-gets _)

-- request_stop
pub request_stop-Keeps : (job_id : String) (now : ℕ) → Keeps (request_stop job_id now)
unfolding request_stop
request_stop-Keeps job_id now = Keeps-bind _ _ (update_job-Keeps job_id _ now) λ _.
    Keeps-bind _ _ (event-Keeps job_id "job.stop_requested" [] "{}" none now)
      λ _. Keeps-Reads _ (Reads-pure tt)

-- clear_stop
pub clear_stop-Keeps : (job_id : String) (now : ℕ) → Keeps (clear_stop job_id now)
unfolding clear_stop
clear_stop-Keeps job_id now = Keeps-bind _ _ (update_job-Keeps job_id _ now) λ _.
    Keeps-bind _ _ (event-Keeps job_id "job.resumed" [] "{}" none now)
      λ _. Keeps-Reads _ (Reads-pure tt)

module _ {ks : List String} where
  Touches-open_tasks :
      (state : TaskState) (now : ℕ)
      → Touches ks always (rewrite_tasks (open_task_of ks) (move_task state now))
  Touches-open_tasks state now =
      Touches-tasks_of_jobs (open_task_of ks) (move_task state now) (λ r h. ground arith)
        (λ r. (refl, refl))

  Touches-inflight_tasks :
      (f : TaskRecord → TaskRecord)
      → ((r : TaskRecord) → ((f r).job_id ≡ r.job_id) × ((f r).id ≡ r.id))
      → Touches ks always (rewrite_tasks (inflight_task_of ks) f)
  Touches-inflight_tasks f keep =
      Touches-tasks_of_jobs (inflight_task_of ks) f (λ r h. ground arith) keep

  Touches-running_attempts :
      (state : AttemptState) (summary : String) (now : ℕ)
      → Touches ks always
          (rewrite_attempts (running_attempt_of ks) (close_attempt state summary now))
  Touches-running_attempts state summary now =
      Touches-attempts_of_jobs (running_attempt_of ks) (close_attempt state summary now)
        (λ r h. ground arith) (λ r. (refl, refl))

-- retry_failed_tasks
pub retry_failed_tasks-Keeps : (job_id : String) (now : ℕ) → Keeps (retry_failed_tasks job_id now)
unfolding retry_failed_tasks
retry_failed_tasks-Keeps job_id now = Keeps-bind _ _ (Keeps-Reads _ (Reads-get_job job_id)) λ job.
    Keeps-bind _ _ (Keeps-Reads _ (Reads-raise_when _ _)) λ _.
      Keeps-bind _ _ (Keeps-Reads _ (Reads-raise_when _ _)) λ _. Keeps-transaction _ λ db.
        CommitsAt-Checks always _
          (Checks-bind _ _ (Touches-open_tasks TaskState.pending now) λ _. Checks-validate job_id)
          (λ good. tt)

-- settle_inflight
pub settle_inflight-Keeps :
    (job_id : String) (task_state : TaskState) (attempt_state : AttemptState) (summary : String)
    (now : ℕ)
    → Keeps (settle_inflight job_id task_state attempt_state summary now)
unfolding settle_inflight
settle_inflight-Keeps job_id task_state attempt_state summary now =
    Keeps-bind _ _ (Keeps-Reads _ (Reads-raise_when _ _)) λ _.
      Keeps-bind _ _ (Keeps-Reads _ (Reads-raise_when _ _)) λ _. Keeps-transaction _ λ db.
        CommitsAt-Checks {ks = job_id ∷ []} always _
          (Checks-Reads _ _ (Reads-get_row _ _) λ job. Checks-Reads _ _ (Reads-raise_when _ _) λ _.
            Checks-bind _ _ (Touches-running_attempts attempt_state _ now) λ _.
              Checks-bind _ _
                (Touches-inflight_tasks (settle_task task_state (last_text 8000 summary) now)
                  (λ r. (refl, refl)))
                λ _. Checks-validate job_id)
          (λ good. tt)

-- prepare_resume
pub prepare_resume-Keeps : (job_id : String) (now : ℕ) → Keeps (prepare_resume job_id now)
unfolding prepare_resume
prepare_resume-Keeps job_id now =
    Keeps-bind _ _
      (Keeps-transaction _ λ db.
        CommitsAt-Checks {ks = job_id ∷ []} always _
          (Checks-Reads _ _ (Reads-get_row _ _) λ row. Checks-Reads _ _ (Reads-raise_when _ _) λ _.
            Checks-Reads _ _ (Reads-raise_when _ _) λ _. Checks-Reads _ _ (Reads-lift _) λ _.
              Checks-bind _ _ (Touches-running_attempts AttemptState.cancelled _ now) λ _.
                Checks-bind _ _ (Touches-open_tasks TaskState.pending now) λ _.
                  Checks-bind _ _
                    (Touches-update_jobs _ _ _ (λ r h. elem_self r.id job_id (ground arith))
                      (λ r. refl))
                    λ _. Checks-validate job_id)
          (λ good. tt))
      λ _.
        Keeps-bind _ _ (event-Keeps job_id "job.resumed" [] "{}" none now)
          λ _. Keeps-Reads _ (Reads-pure tt)
