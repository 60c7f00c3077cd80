-- ===== src/Db/History.antt =====
-- The store over its whole life: any sequence of its public mutations, from an empty database.
use omarchy_yolo.Prelude.{ℕ, ℤ, String, refl, Option, List, [], ◌∷◌}
use omarchy_yolo.Model.{TaskState, AttemptState, PlannedTask}
use omarchy_yolo.Prelude.Tables.{fetchone}
use omarchy_yolo.Db.Rows.{PayloadValue, Database, empty_database}
use omarchy_yolo.Db.Core.{snapshot_locked, find_job}
use omarchy_yolo.Db.Mutations
use omarchy_yolo.Db.Records
use omarchy_yolo.Db.Recovery
use omarchy_yolo.Db.Provenance
use omarchy_yolo.Db.Mutations.{JobFields, TaskFields, NewAttempt}
use omarchy_yolo.Db.Records.{NewJob}
use omarchy_yolo.Db.Provenance.{Dossier, Acceptance, Publication}
use omarchy_yolo.Db.Commits.{IsConsistent}
use omarchy_yolo.Db.Soundness.{
  update_job-Keeps, update_task-Keeps, start_attempt-Keeps, finish_attempt-Keeps, create_job-Keeps,
  add_tasks-Keeps, event-Keeps, request_stop-Keeps, clear_stop-Keeps, retry_failed_tasks-Keeps,
  settle_inflight-Keeps, prepare_resume-Keeps, recover_incomplete-Keeps, stage_dossier-Keeps,
  prepare_accepted_job-Keeps, mark_apply_started-Keeps, publish_completed_job-Keeps,
}

-- A call of a public mutation, with its arguments.
pub data Mutation : Type 0 where
  create_job : NewJob → String → Mutation
  add_tasks : String → List (record { id : String; task : PlannedTask }) → Mutation
  event :
      String
      → String
      → List (record { key : String; value : PayloadValue })
      → String
      → Option String
      → Mutation
  request_stop clear_stop retry_failed_tasks prepare_resume : String → Mutation
  update_job : String → JobFields → Mutation
  update_task : String → TaskFields → Mutation
  start_attempt : NewAttempt → String → Mutation
  finish_attempt : String → AttemptState → Option ℤ → String → Mutation
  settle_inflight : String → TaskState → AttemptState → String → Mutation
  recover_incomplete : Mutation
  stage_dossier : String → Dossier → Mutation
  prepare_accepted_job : String → Acceptance → Dossier → Mutation
  mark_apply_started : String → String → Mutation
  publish_completed_job : String → Publication → Mutation

module _ (sha256_hex : String → String) where
  -- The database after the call, which raises or returns.
  unfoldable pub perform : ℕ → Mutation → Database → Database
  perform now (create_job n i) db = (Records.create_job n i now db).1
  perform now (add_tasks j ps) db = (Records.add_tasks j ps now db).1
  perform now (event j k p e t) db = (Records.event j k p e t now db).1
  perform now (request_stop j) db = (Records.request_stop j now db).1
  perform now (clear_stop j) db = (Records.clear_stop j now db).1
  perform now (retry_failed_tasks j) db = (Recovery.retry_failed_tasks j now db).1
  perform now (prepare_resume j) db = (Recovery.prepare_resume j now db).1
  perform now (update_job j f) db = (Mutations.update_job j f now db).1
  perform now (update_task t f) db = (Mutations.update_task t f now db).1
  perform now (start_attempt a i) db = (Mutations.start_attempt a i now db).1
  perform now (finish_attempt a s r m) db = (Mutations.finish_attempt a s r m now db).1
  perform now (settle_inflight j t a m) db = (Recovery.settle_inflight j t a m now db).1
  perform now recover_incomplete db = (Recovery.recover_incomplete now db).1
  perform now (stage_dossier j d) db = (Provenance.stage_dossier sha256_hex j d now db).1
  perform now (prepare_accepted_job j a d) db =
      (Provenance.prepare_accepted_job sha256_hex j a d now db).1
  perform now (mark_apply_started j c) db = (Provenance.mark_apply_started j c now db).1
  perform now (publish_completed_job j p) db =
      (Provenance.publish_completed_job sha256_hex j p now db).1

  -- Calls in turn, each at its time.
  unfoldable pub replay : List (record { time : ℕ; call : Mutation }) → Database → Database
  replay [] db = db
  replay (c ∷ cs) db = replay cs (perform c.time c.call db)

  perform-IsConsistent :
      (now : ℕ) (m : Mutation) (db : Database) → IsConsistent db → IsConsistent (perform now m db)
  unfolding perform
  perform-IsConsistent now (create_job n i) db h = (create_job-Keeps n i now).at db h
  perform-IsConsistent now (add_tasks j ps) db h = (add_tasks-Keeps j ps now).at db h
  perform-IsConsistent now (event j k p e t) db h = (event-Keeps j k p e t now).at db h
  perform-IsConsistent now (request_stop j) db h = (request_stop-Keeps j now).at db h
  perform-IsConsistent now (clear_stop j) db h = (clear_stop-Keeps j now).at db h
  perform-IsConsistent now (retry_failed_tasks j) db h = (retry_failed_tasks-Keeps j now).at db h
  perform-IsConsistent now (prepare_resume j) db h = (prepare_resume-Keeps j now).at db h
  perform-IsConsistent now (update_job j f) db h = (update_job-Keeps j f now).at db h
  perform-IsConsistent now (update_task t f) db h = (update_task-Keeps t f now).at db h
  perform-IsConsistent now (start_attempt a i) db h = (start_attempt-Keeps a i now).at db h
  perform-IsConsistent now (finish_attempt a s r m) db h =
      (finish_attempt-Keeps a s r m now).at db h
  perform-IsConsistent now (settle_inflight j t a m) db h =
      (settle_inflight-Keeps j t a m now).at db h
  perform-IsConsistent now recover_incomplete db h = (recover_incomplete-Keeps now).at db h
  perform-IsConsistent now (stage_dossier j d) db h =
      (stage_dossier-Keeps sha256_hex j d now).at db h
  perform-IsConsistent now (prepare_accepted_job j a d) db h =
      (prepare_accepted_job-Keeps sha256_hex j a d now).at db h
  perform-IsConsistent now (mark_apply_started j c) db h =
      (mark_apply_started-Keeps j c now).at db h
  perform-IsConsistent now (publish_completed_job j p) db h =
      (publish_completed_job-Keeps sha256_hex j p now).at db h

  -- Whatever public mutations are called on a consistent store, in any order, and whichever of them
  -- raise, the store stays consistent: ids stay unique, and the snapshot of every job passes
  -- `validate_job_snapshot`.
  pub replay-IsConsistent :
      (calls : List (record { time : ℕ; call : Mutation })) (db : Database)
      → IsConsistent db
      → IsConsistent (replay calls db)
  unfolding replay
  replay-IsConsistent [] db h = h
  replay-IsConsistent (c ∷ cs) db h =
      replay-IsConsistent cs (perform c.time c.call db) (perform-IsConsistent c.time c.call db h)

-- A new database has no job.
pub empty-IsConsistent : IsConsistent empty_database
unfolding snapshot_locked find_job fetchone
empty-IsConsistent = record {
  keyed = record { jobs_keyed = refl; tasks_keyed = refl; attempts_keyed = refl };
  valid = λ j s e. cc;
}
