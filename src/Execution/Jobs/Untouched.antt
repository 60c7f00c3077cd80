-- ===== src/Execution/Jobs/Untouched.antt =====
-- What the handlers of `run_job` change for accepted work: the events alone.
use omarchy_yolo.Prelude.{
  Result, ok, err, Error, take_text, ℕ, String, ◌≡◌, refl, true, Option, none, some, List, ◌==◌,
  suc, nat_eq, string_eq, Bool-cases, inl, inr,
}
use omarchy_yolo.Prelude.Fallible.{Fallible, returns, raises}
use omarchy_yolo.Model.{JobState, JobRecord, job_state_eq, phase_eq}
use omarchy_yolo.Db.Rows.{Database, EventRow, PayloadValue}
use omarchy_yolo.Db.Actions
use omarchy_yolo.Db.Actions.{Action}
use omarchy_yolo.Db.Core.{find_job, append_event, insert_event}
use omarchy_yolo.Db.Records.{stored_payload, event}
use omarchy_yolo.Execution.Runs.{
  Failure, cancelled, merge_conflict, git_error, other, State, World, pure, raise, store, emit,
  from_store, continue, ◌>>=◌,
}
use omarchy_yolo.Execution.Jobs.{is_accepted, settle_cancelled, settle_failed, settle_by}

-- The rows that carry the state of jobs: all but events.
abbrev pub SameRows : Database → Database → Type 0
SameRows new old =
    (new.jobs ≡ old.jobs)
    × ((new.tasks ≡ old.tasks) × ((new.attempts ≡ old.attempts) × (new.dossiers ≡ old.dossiers)))

event-SameRows :
    (job_id kind : String) (payload : List (record { key : String; value : PayloadValue }))
    (encoded : String) (task_id : Option String) (now : ℕ) (db : Database)
    → SameRows (event job_id kind payload encoded task_id now db).1 db
unfolding event insert_event append_event Actions.◌>>=◌ Actions.gets Actions.get_row Actions.modify
    Actions.pure
event-SameRows job_id kind payload encoded task_id now db = go (find_job job_id db) λ id. record {
  id = id;
  job_id = job_id;
  task_id = task_id;
  kind = take_text 128 kind;
  payload = stored_payload payload encoded;
  created_at = now;
}
  where
    go :
        (o : Option JobRecord) (row : ℕ → EventRow)
        → SameRows
            (Actions.continue
              (elim o [ none ↦ err Error.integrity_error | some job ↦ ok job ])
              (λ _. append_event row)
              db).1
            db
    go none row = (refl, (refl, (refl, refl)))
    go (some job) row = (refl, (refl, (refl, refl)))

emit-SameRows :
    (w : World) (job_id kind : String)
    (payload : List (record { key : String; value : PayloadValue })) (task_id : Option String)
    (s : State)
    → SameRows (emit w job_id kind payload task_id s).1.db s.db
unfolding emit store ◌>>=◌ pure
emit-SameRows w job_id kind payload task_id s =
    go _ _ (event-SameRows job_id kind payload _ task_id _ s.db)
  where
    go :
        (r : Result ℕ) (db : Database)
        → SameRows db s.db
        → SameRows
            (continue
              (from_store w r)
              (λ _ s'. (returns tt, s'))
              (record { db = db; log = s.log })).1.db
            s.db
    go (ok a) db h = h
    go (err e) db h = h

event-returns :
    (job_id kind : String) (payload : List (record { key : String; value : PayloadValue }))
    (encoded : String) (task_id : Option String) (now : ℕ) (db : Database) (job : JobRecord)
    → find_job job_id db ≡ some job
    → (n : ℕ) × ((event job_id kind payload encoded task_id now db).0 ≡ ok n)
unfolding event insert_event append_event Actions.◌>>=◌ Actions.gets Actions.get_row Actions.modify
    Actions.pure
event-returns job_id kind payload encoded task_id now db job found = (
  suc db.event_sequence,
  go (find_job job_id db) found λ id. record {
    id = id;
    job_id = job_id;
    task_id = task_id;
    kind = take_text 128 kind;
    payload = stored_payload payload encoded;
    created_at = now;
  },
)
  where
    go :
        (o : Option JobRecord)
        → o ≡ some job
        → (row : ℕ → EventRow)
        → (Actions.continue
            (elim o [ none ↦ err Error.integrity_error | some j ↦ ok j ])
            (λ _. append_event row)
            db).0
          ≡ ok (suc db.event_sequence)
    go none e row = cc
    go (some j) e row = refl

-- An event of a job that is there is recorded, and then the exception is raised again.
abbrev pub IsUntouched : Failure → Database → Fallible Failure (Unit {0}) × State → Type 0
IsUntouched e db r = (r.0 ≡ raises e) × SameRows r.1.db db

pub emit-IsUntouched :
    (w : World) (job_id kind : String)
    (payload : List (record { key : String; value : PayloadValue })) (task_id : Option String)
    (s : State) (e : Failure) (job : JobRecord)
    → find_job job_id s.db ≡ some job
    → IsUntouched e s.db ((emit w job_id kind payload task_id >>= λ _. raise e) s)
unfolding emit store ◌>>=◌ pure raise
emit-IsUntouched w job_id kind payload task_id s e job found =
    go _ _ (event-returns job_id kind payload _ task_id _ s.db job found)
      (event-SameRows job_id kind payload _ task_id _ s.db)
  where
    go :
        (r : Result ℕ) (db : Database)
        → (n : ℕ) × (r ≡ ok n)
        → SameRows db s.db
        → let m : Fallible Failure (Unit {0}) × State =
            continue {B = Unit {0}}
              (from_store w r)
              (λ _ s'. (returns tt, s'))
              (record { db = db; log = s.log }) in
          IsUntouched e s.db (continue m.0 (λ _ s'. (raises e, s')) m.1)
    go (ok a) db n h = (refl, h)
    go (err x) db n h = cc

-- The handlers on the job that they read.
module _ (w : World) (job_id : String) (s : State) (job : JobRecord)
    (found : find_job job_id s.db ≡ some job) (accepted : is_accepted job ≡ true) where
  settle_cancelled-IsUntouched :
      IsUntouched cancelled s.db ((settle_cancelled w job_id job >>= λ _. raise cancelled) s)
  unfolding settle_cancelled pure raise ◌>>=◌
  settle_cancelled-IsUntouched = elim (Bool-cases (job.state == JobState.completed)) [
    | inl e ↦ rw e (refl, (refl, (refl, (refl, refl))))
    | inr e ↦ rw e (rw accepted (emit-IsUntouched w job_id _ _ _ s cancelled job found))
  ]

  settle_failed-IsUntouched :
      (message : String) (e : Failure)
      → IsUntouched e s.db ((settle_failed w job_id message job >>= λ _. raise e) s)
  unfolding settle_failed raise ◌>>=◌
  settle_failed-IsUntouched message e = rw accepted (emit-IsUntouched w job_id _ _ _ s e job found)

  pub settle_by-IsUntouched :
      (e : Failure) → IsUntouched e s.db ((settle_by w job_id e job >>= λ _. raise e) s)
  settle_by-IsUntouched cancelled = settle_cancelled-IsUntouched
  settle_by-IsUntouched (merge_conflict e) = settle_failed-IsUntouched e _
  settle_by-IsUntouched (git_error e) = settle_failed-IsUntouched e _
  settle_by-IsUntouched (other e) = settle_failed-IsUntouched e _
