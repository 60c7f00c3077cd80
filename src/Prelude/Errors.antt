-- ===== src/Prelude/Errors.antt =====
-- Exceptions as values.
use mathlib.Core.Bool.{Bool, true, false}

-- StateTransitionError, one constructor for each message of the source.
pub data Reason : Type 0 where
  illegal_job_transition illegal_task_transition illegal_attempt_transition : Reason
  completed_job_open_task idle_job_inflight_task stopped_without_request completed_stop_requested :
      Reason
  idle_job_running_attempt attempt_owner_not_inflight unknown_phase : Reason
  accepted_open_task accepted_running_attempt accepted_job_state published_job_state
        completed_unpublished :
      Reason
  frozen_metadata completion_not_published stale_job frozen_graph stale_task running_attempt_left :
      Reason
  job_not_running task_not_running attempt_after_acceptance attempt_already_running attempt_finished
        attempt_not_terminal stale_attempt :
      Reason
  tasks_outside_planning tasks_after_acceptance retry_after_acceptance retry_active_job
        settle_after_acceptance resume_after_acceptance resume_active_job invalid_recovery :
      Reason
  bad_digest dossier_after_acceptance acceptance_changed prepare_wrong_phase accept_inactive_job :
      Reason
  commit_changed apply_not_requested apply_wrong_phase dossier_missing dossier_version_changed
        dossier_digest_changed :
      Reason
  outcome_changed unpublished_acceptance not_requested_mismatch requested_mismatch invalid_intent
        missing_commit dossier_not_published :
      Reason

-- The exception classes: YoloError, KeyError, ValueError and sqlite3.IntegrityError.
pub data Error : Type 0 where
  state_transition : Reason → Error
  yolo_error key_error value_error integrity_error : Error

pub data Result {ℓ} (A : Type ℓ) : Type ℓ where
  ok : A → Result A
  err : Error → Result A

infixl 5 ◌>>?◌
-- Statements in sequence: the second runs if the first did not raise.
abbrev pub ◌>>?◌ {ℓ} : {B : Type ℓ} → Result (Unit {0}) → Result B → Result B
ok a >>? k = k
err e >>? k = err e

-- `if test: raise StateTransitionError(reason)`
abbrev pub raise_if : Bool → Reason → Result (Unit {0})
raise_if true reason = err (state_transition reason)
raise_if false reason = ok tt
