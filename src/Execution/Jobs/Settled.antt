-- ===== src/Execution/Jobs/Settled.antt =====
-- What the handlers of `run_job` in src/omarchy_yolo/orchestrator.py leave in the store.
use omarchy_yolo.Prelude.{
  ok, err, Error, String, ◌≡◌, ◌⊎◌, refl, eq_of_==, sym, subst, true, false, none, some, ◌==◌,
  nat_eq, string_eq, Bool-cases, inl, inr,
}
use omarchy_yolo.Prelude.Fallible.{Fallible, returns}
use omarchy_yolo.Model.{JobState, AcceptancePhase, JobRecord, job_state_eq, phase_eq}
use omarchy_yolo.Db.Rows.{Database}
use omarchy_yolo.Db.Actions
use omarchy_yolo.Db.Actions.{Action}
use omarchy_yolo.Db.Core.{find_job}
use omarchy_yolo.Db.Mutations.{no_job_fields}
use omarchy_yolo.Db.Records.{get_job}
use omarchy_yolo.Execution.Runs.{
  Failure, cancelled, merge_conflict, git_error, other, State, World, pure, raise, store, lock,
  from_store, continue, ◌>>=◌,
}
use omarchy_yolo.Execution.Jobs.{
  is_accepted, settle_cancelled, settle_failed, settle_by, settle_job,
}
use omarchy_yolo.Execution.Jobs.Untouched.{IsUntouched, settle_by-IsUntouched}
use omarchy_yolo.Execution.Jobs.Moved.{IsSettled, settled}

-- How the handlers leave work that is not accepted.
abbrev pub Finishes :
    World → String → JobRecord → Database → Failure → Fallible Failure (Unit {0}) × State → Type 0
Finishes w job_id job db cancelled r =
    ((job.state ≡ JobState.completed) × IsUntouched cancelled db r)
    ⊎ (((job.state == JobState.completed) ≡ false)
        × (((job.stop_requested ≡ true) × IsSettled w job_id JobState.stopped cancelled r)
            ⊎ ((job.stop_requested ≡ false) × IsSettled w job_id JobState.queued cancelled r)))
Finishes w job_id job db (merge_conflict m) r =
    IsSettled w job_id JobState.failed (merge_conflict m) r
Finishes w job_id job db (git_error m) r = IsSettled w job_id JobState.failed (git_error m) r
Finishes w job_id job db (other m) r = IsSettled w job_id JobState.failed (other m) r

abbrev pub LeavesBy :
    AcceptancePhase
    → World
    → String
    → JobRecord
    → Database
    → Failure
    → Fallible Failure (Unit {0}) × State
    → Type 0
LeavesBy AcceptancePhase.no_phase w job_id job db e r = Finishes w job_id job db e r
LeavesBy AcceptancePhase.accepted w job_id job db e r = IsUntouched e db r
LeavesBy AcceptancePhase.applying w job_id job db e r = IsUntouched e db r
LeavesBy AcceptancePhase.published w job_id job db e r = Finishes w job_id job db e r

module _ (w : World) (job_id : String) (s : State) (job : JobRecord)
    (ordinary : is_accepted job ≡ false) where
  settle_cancelled-Finishes :
      Finishes w job_id job s.db cancelled
        ((settle_cancelled w job_id job >>= λ _. raise cancelled) s)
  unfolding settle_cancelled pure raise ◌>>=◌
  settle_cancelled-Finishes = elim (Bool-cases (job.state == JobState.completed)) [
    | inl e ↦
        rw e (inl (eq_of_== job.state JobState.completed e, (refl, (refl, (refl, (refl, refl))))))
    | inr e ↦ rw e (
        rw ordinary (elim (Bool-cases job.stop_requested) [
          | inl t ↦
              rw t
                (inr (refl, inl (refl, settled w job_id _ no_job_fields JobState.stopped _ _ _ s)))
          | inr t ↦
              rw t
                (inr (refl, inr (refl, settled w job_id _ no_job_fields JobState.queued _ _ _ s)))
        ]))
  ]

  settle_failed-Finishes :
      (message : String) (e : Failure)
      → IsSettled w job_id JobState.failed e
          ((settle_failed w job_id message job >>= λ _. raise e) s)
  unfolding settle_failed ◌>>=◌
  settle_failed-Finishes message e =
      rw ordinary
        (settled w job_id _ (record no_job_fields { error = some message }) JobState.failed _ _ e s)

  settle_by-Finishes :
      (e : Failure) → Finishes w job_id job s.db e ((settle_by w job_id e job >>= λ _. raise e) s)
  settle_by-Finishes cancelled = settle_cancelled-Finishes
  settle_by-Finishes (merge_conflict m) = settle_failed-Finishes m (merge_conflict m)
  settle_by-Finishes (git_error m) = settle_failed-Finishes m (git_error m)
  settle_by-Finishes (other m) = settle_failed-Finishes m (other m)

settle_by-LeavesBy :
    (w : World) (job_id : String) (s : State) (e : Failure) (job : JobRecord)
    (phase : AcceptancePhase)
    → job.acceptance_phase ≡ phase
    → find_job job_id s.db ≡ some job
    → LeavesBy phase w job_id job s.db e ((settle_by w job_id e job >>= λ _. raise e) s)
settle_by-LeavesBy w job_id s e job AcceptancePhase.no_phase p found =
    settle_by-Finishes w job_id s job (rw p refl) e
settle_by-LeavesBy w job_id s e job AcceptancePhase.accepted p found =
    settle_by-IsUntouched w job_id s job found (rw p refl) e
settle_by-LeavesBy w job_id s e job AcceptancePhase.applying p found =
    settle_by-IsUntouched w job_id s job found (rw p refl) e
settle_by-LeavesBy w job_id s e job AcceptancePhase.published p found =
    settle_by-Finishes w job_id s job (rw p refl) e

settle_job-waited :
    (w : World) (job_id : String) (e : Failure) (s : State) (job : JobRecord)
    → (lock w "_cancel_active" s).0 ≡ returns tt
    → find_job job_id (lock w "_cancel_active" s).1.db ≡ some job
    → settle_job w job_id e s
      ≡ (settle_by w job_id e job >>= λ _. raise e) (lock w "_cancel_active" s).1
unfolding settle_job ◌>>=◌ store get_job Actions.get_row
settle_job-waited w job_id e s job waits found = rw waits (
    subst
      (λ o.
        continue {B = Unit {0}}
          (from_store w (elim o [ none ↦ err Error.key_error | some j ↦ ok j ]))
          (λ current. settle_by w job_id e current >>= λ _. raise e) (lock w "_cancel_active" s).1
        ≡ (settle_by w job_id e job >>= λ _. raise e) (lock w "_cancel_active" s).1)
      (sym found) refl)

-- Once the handler of `run_job` has waited for the cancelled tasks, it looks at the phase of its job
-- in the store. With the phase accepted or applying it changes no job, task, attempt or dossier and
-- raises the exception again, whichever that is. In the other phases it does the same for a
-- cancellation of a completed job; else it raises the exception again with the job's row stopped, if
-- a stop was requested, or queued after a cancellation, and failed after an error, or it raises an
-- error of the store instead.
pub settle_job-LeavesBy :
    (w : World) (job_id : String) (e : Failure) (s : State) (job : JobRecord)
    → (lock w "_cancel_active" s).0 ≡ returns tt
    → find_job job_id (lock w "_cancel_active" s).1.db ≡ some job
    → LeavesBy job.acceptance_phase w job_id job
        (lock w "_cancel_active" s).1.db
        e
        (settle_job w job_id e s)
settle_job-LeavesBy w job_id e s job waits found =
    subst (LeavesBy job.acceptance_phase w job_id job (lock w "_cancel_active" s).1.db e)
      (sym (settle_job-waited w job_id e s job waits found))
      (settle_by-LeavesBy w job_id (lock w "_cancel_active" s).1 e job job.acceptance_phase refl
        found)
