-- ===== src/Db/Soundness/Jobs.antt =====
-- The mutations of src/omarchy_yolo/db.py keep the store consistent.
use omarchy_yolo.Prelude.{
  ℕ, ℤ, String, ◌≡◌, refl, ap, Bool, true, Option, some, List, [], ◌∷◌, map, arith, ◌==◌, string_eq,
  ==-refl, eq_of_==, elem, distinct, All, All-map_of, Bool-cases, inl, inr,
}
use omarchy_yolo.Prelude.Tables.{fetchone, update}
use omarchy_yolo.Model.{
  TaskState, AttemptState, JobRecord, TaskRecord, job_state_eq, task_state_eq, attempt_state_eq,
  phase_eq,
}
use omarchy_yolo.Db.Rows.{AttemptRow, Database}
use omarchy_yolo.Db.Core.{find_task, find_attempt}
use omarchy_yolo.Db.Mutations.{
  get_or, JobFields, TaskFields, NewAttempt, attempt_row, task_in, attempt_in, assign_job,
  assign_task, activate_job, update_job_row, update_job, update_task_row, update_task,
  start_attempt, finish_attempt_row, finish_attempt, finished,
}
use omarchy_yolo.Db.Keys.{fetchone_only}
use omarchy_yolo.Db.Frames.{
  Fact, always, Touches, Touches-Reads, Touches-when, Touches-bind, Reads-pure, Reads-raise,
  Reads-raise_when, Reads-lift, Reads-gets, Reads-get_row,
}
use omarchy_yolo.Db.Writes.{Touches-update_jobs, Touches-update_tasks, Touches-update_attempts}
use omarchy_yolo.Db.Inserts.{Touches-insert_attempt}
use omarchy_yolo.Db.Commits.{
  IsConsistent, Checks, Checks-validate, Checks-bind, Checks-Reads, Checks-then, CommitsAt-Checks,
  CommitsAt-get_row, Keeps, Keeps-transaction, Keeps-Reads, Keeps-if,
}

-- `elem k (k ∷ [])` of a row that passes a test by its id.
pub elem_self : (a k : String) → (a == k) ≡ true → elem a (k ∷ []) ≡ true
elem_self a k e = rw (eq_of_== a k e, ==-refl k)

update_job_row-Checks :
    (job_id : String) (f : JobFields) (now : ℕ) (row : JobRecord)
    → Checks (job_id ∷ []) always (update_job_row job_id f now row)
unfolding update_job_row
update_job_row-Checks job_id f now row = Checks-Reads _ _ (Reads-raise_when _ _) λ _.
    Checks-Reads _ _ (Reads-lift _) λ _. Checks-Reads _ _ (Reads-raise_when _ _) λ _.
      Checks-bind _ _
        (Touches-update_jobs _ (assign_job f (get_or f.state row.state) now) _
          (λ r h. elem_self r.id job_id (ground arith)) (λ r. unfold assign_job in refl))
        λ _. Checks-validate job_id

-- update_job
pub update_job-Keeps : (job_id : String) (f : JobFields) (now : ℕ) → Keeps (update_job job_id f now)
unfolding update_job
update_job-Keeps job_id f now = Keeps-if _ _ _ (Keeps-Reads _ (Reads-raise _)) (
    Keeps-if _ _ _ (Keeps-Reads _ (Reads-pure _)) (
      Keeps-transaction _ λ db.
        CommitsAt-get_row _ _ _
          λ row e. CommitsAt-Checks always _ (update_job_row-Checks job_id f now row) (λ _. tt)))

-- The only task with this id is a task of that job.
abbrev task_owner : String → String → Fact
task_owner task_id job_id tasks runs = All (λ t. (t.id == task_id) ≡ true → t.job_id ≡ job_id) tasks

-- An UPDATE that keeps ids and jobs keeps the owner.
module _ {Row : Type 0} (key owner : Row → String) (x k : String) (test : Row → Bool)
    (f : Row → Row) where
  abbrev Owned : List Row → Type 0
  Owned rs = All (λ r. (key r == x) ≡ true → owner r ≡ k) rs

  Owned-update :
      ((r : Row) → (owner (f r) ≡ owner r) × (key (f r) ≡ key r))
      → (rs : List Row) → Owned rs
      → Owned (update test f rs)
  unfolding update
  Owned-update keep [] h = tt
  Owned-update keep (r ∷ rs) h = elim (Bool-cases (test r)) [
    | inl e ↦ rw (e, (keep r).0, (keep r).1) (h.0, Owned-update keep rs h.1)
    | inr e ↦ rw e (h.0, Owned-update keep rs h.1)
  ]

  -- The rows with this id are rows of job `k`.
  Owned-within :
      (rs : List Row)
      → Owned rs
      → ((r : Row) → test r ≡ true → (key r == x) ≡ true)
      → All (λ r. test r ≡ true → elem (owner r) (k ∷ []) ≡ true) rs
  Owned-within [] h sel = tt
  Owned-within (r ∷ rs) h sel = (λ hit. rw (h.0 (sel r hit), ==-refl k), Owned-within rs h.1 sel)

Touches-activate_job :
    {I : Fact} (job_id : String) (target : TaskState) (job : JobRecord) (now : ℕ)
    → Touches (job_id ∷ []) I (activate_job job_id target job now)
unfolding activate_job
Touches-activate_job job_id target job now = Touches-when _ _ (
    Touches-bind _ _ (Touches-Reads _ (Reads-lift _))
      λ _. Touches-update_jobs _ _ _ (λ r h. elem_self r.id job_id (ground arith)) (λ r. refl))

assign_task-keeps :
    (f : TaskFields) (now : ℕ) (r : TaskRecord)
    → ((assign_task f now r).job_id ≡ r.job_id) × ((assign_task f now r).id ≡ r.id)
unfolding assign_task
assign_task-keeps f now r = (refl, refl)

update_task_row-Checks :
    (task_id : String) (f : TaskFields) (now : ℕ) (row : TaskRecord)
    → Checks (row.job_id ∷ []) (task_owner task_id row.job_id) (update_task_row task_id f now row)
unfolding update_task_row
update_task_row-Checks task_id f now row = Checks-Reads _ _ (Reads-lift _) λ _.
    Checks-Reads _ _ (Reads-get_row _ _) λ job. Checks-Reads _ _ (Reads-raise_when _ _) λ _.
      Checks-bind _ _ (Touches-activate_job _ _ _ _) λ _. Checks-Reads _ _ (Reads-gets _) λ busy.
        Checks-Reads _ _ (Reads-raise_when _ _) λ _.
          Checks-bind _ _
            (Touches-update_tasks _ _ _
              (λ ts runs h. (
                Owned-within (λ r. r.id) (λ r. r.job_id) task_id row.job_id
                    (task_in task_id row.state) (assign_task f now) ts h (λ r hit. ground arith),
                Owned-update (λ r. r.id) (λ r. r.job_id) task_id row.job_id
                    (task_in task_id row.state) (assign_task f now) (assign_task-keeps f now) ts h,
              ))
              (assign_task-keeps f now))
            λ _. Checks-validate row.job_id

-- A row found by its id, in a table with unique ids, is the one row with this id.
Owned-find :
    {Row : Type 0} (key owner : Row → String) (x : String) (rs : List Row) (r0 : Row)
    → distinct (map key rs) ≡ true
    → fetchone (λ r. key r == x) rs ≡ some r0
    → All (λ r. (key r == x) ≡ true → owner r ≡ owner r0) rs
Owned-find key owner x rs r0 d e =
    All-map_of (λ r. (key r == x) ≡ true → r ≡ r0) (λ r. (key r == x) ≡ true → owner r ≡ owner r0)
      rs (λ r only hit. ap owner (only hit)) (fetchone_only key x rs r0 d e)

task_owner-find :
    (task_id : String) (row : TaskRecord) (db : Database)
    → find_task task_id db ≡ some row
    → IsConsistent db
    → task_owner task_id row.job_id db.tasks db.attempts
unfolding find_task
task_owner-find task_id row db e good =
    Owned-find (λ t. t.id) (λ t. t.job_id) task_id db.tasks row good.keyed.tasks_keyed e

-- update_task
pub update_task-Keeps :
    (task_id : String) (f : TaskFields) (now : ℕ) → Keeps (update_task task_id f now)
unfolding update_task
update_task-Keeps task_id f now = Keeps-if _ _ _ (Keeps-Reads _ (Reads-raise _)) (
    Keeps-if _ _ _ (Keeps-Reads _ (Reads-pure _)) (
      Keeps-transaction _ λ db. CommitsAt-get_row _ _ _ λ row e.
        CommitsAt-Checks (task_owner task_id row.job_id) _
          (update_task_row-Checks task_id f now row) (task_owner-find task_id row db e)))

-- start_attempt
pub start_attempt-Keeps :
    (a : NewAttempt) (attempt_id : String) (now : ℕ) → Keeps (start_attempt a attempt_id now)
unfolding start_attempt
start_attempt-Keeps a attempt_id now = Keeps-transaction _ λ db.
    CommitsAt-Checks {ks = a.job_id ∷ []} always _
      (Checks-Reads _ _ (Reads-get_row _ _) λ task. Checks-Reads _ _ (Reads-get_row _ _) λ job.
        Checks-Reads _ _ (Reads-raise_when _ _) λ _. Checks-Reads _ _ (Reads-raise_when _ _) λ _.
          Checks-Reads _ _ (Reads-raise_when _ _) λ _. Checks-Reads _ _ (Reads-raise_when _ _) λ _.
            Checks-Reads _ _ (Reads-gets _) λ busy. Checks-Reads _ _ (Reads-raise_when _ _) λ _.
              Checks-bind _ _
                (Touches-insert_attempt (attempt_row a attempt_id now) (rw (==-refl a.job_id)))
                λ _. Checks-then _ _ (Checks-validate a.job_id) λ _. Reads-pure attempt_id)
      (λ good. tt)

abbrev attempt_owner : String → String → Fact
attempt_owner attempt_id job_id tasks runs =
    All (λ a. (a.id == attempt_id) ≡ true → a.job_id ≡ job_id) runs

attempt_owner-find :
    (attempt_id : String) (row : AttemptRow) (db : Database)
    → find_attempt attempt_id db ≡ some row
    → IsConsistent db
    → attempt_owner attempt_id row.job_id db.tasks db.attempts
unfolding find_attempt
attempt_owner-find attempt_id row db e good =
    Owned-find (λ a. a.id) (λ a. a.job_id) attempt_id db.attempts row good.keyed.attempts_keyed e

finish_attempt_row-Checks :
    (attempt_id : String) (target : AttemptState) (returncode : Option ℤ) (summary : String)
    (now : ℕ) (row : AttemptRow)
    → Checks
        (row.job_id ∷ [])
        (attempt_owner attempt_id row.job_id)
        (finish_attempt_row attempt_id target returncode summary now row)
unfolding finish_attempt_row
finish_attempt_row-Checks attempt_id target returncode summary now row =
    Checks-Reads _ _ (Reads-raise_when _ _) λ _. Checks-Reads _ _ (Reads-raise_when _ _) λ _.
      Checks-Reads _ _ (Reads-lift _) λ _.
        Checks-bind _ _
          (Touches-update_attempts (attempt_in attempt_id row.state)
            (finished target returncode summary now) _
            (λ ts runs h. (
              Owned-within (λ a. a.id) (λ a. a.job_id) attempt_id row.job_id
                  (attempt_in attempt_id row.state) (finished target returncode summary now) runs h
                  (λ r hit. ground arith),
              Owned-update (λ a. a.id) (λ a. a.job_id) attempt_id row.job_id
                  (attempt_in attempt_id row.state) (finished target returncode summary now)
                  (λ r. (refl, refl)) runs h,
            ))
            (λ r. (refl, refl)))
          λ _. Checks-validate row.job_id

-- finish_attempt
pub finish_attempt-Keeps :
    (attempt_id : String) (target : AttemptState) (returncode : Option ℤ) (summary : String)
    (now : ℕ)
    → Keeps (finish_attempt attempt_id target returncode summary now)
unfolding finish_attempt
finish_attempt-Keeps attempt_id target returncode summary now = Keeps-transaction _ λ db.
    CommitsAt-get_row _ _ _ λ row e.
      CommitsAt-Checks (attempt_owner attempt_id row.job_id) _
        (finish_attempt_row-Checks attempt_id target returncode summary now row)
        (attempt_owner-find attempt_id row db e)
