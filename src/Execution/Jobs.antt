-- ===== src/Execution/Jobs.antt =====
-- src/omarchy_yolo/orchestrator.py around the rounds of the scheduler: the plan of a job, its
-- acceptance, and what `run_job` does with an exception. `notify` shows a message and is left out.
pub mod Untouched
mod Moved
pub mod Settled
pub mod Verified
use omarchy_yolo.Prelude.{
  ℕ, String, Bool, true, false, not, ◌&&◌, ◌||◌, Option, none, some, List, [], ◌∷◌, Eq, ◌==◌,
  nat_eq, string_eq, elem, length, append_text, last_text, if◌then◌else◌,
}
use omarchy_yolo.Prelude.Fallible.{Fallible, returns, raises}
use omarchy_yolo.Model.{
  JobState, TaskState, AttemptState, AcceptancePhase, PlannedTask, JobRecord, job_state_eq,
  phase_eq,
}
use omarchy_yolo.Agents.{AgentRole}
use omarchy_yolo.Db.Rows.{DossierRow}
use omarchy_yolo.Db.Mutations.{JobFields, no_job_fields, update_job}
use omarchy_yolo.Db.Records.{entry, get_job, add_tasks}
use omarchy_yolo.Db.Recovery.{settle_inflight}
use omarchy_yolo.Db.Provenance.{
  Acceptance, Publication, get_staged_dossier, prepare_accepted_job, mark_apply_started,
  publish_completed_job,
}
use omarchy_yolo.Execution.Runs.{
  Failure, cancelled, merge_conflict, git_error, other, describe, waited, Plan, Reconciled, World,
  Run, pure, raise, fresh, catching, excepting, store, await, lock, emit, ◌>>=◌, ◌>>◌,
}
use omarchy_yolo.Execution.Integrate.{role_agent}
use omarchy_yolo.Execution.Worktrees.{count}

-- DOSSIER_SCHEMA_VERSION
abbrev pub dossier_schema_version : ℕ
dossier_schema_version = 1

abbrev pub is_accepted : JobRecord → Bool
is_accepted job =
    elem job.acceptance_phase (AcceptancePhase.accepted ∷ AcceptancePhase.applying ∷ [])

abbrev pub phase_text : AcceptancePhase → String
phase_text AcceptancePhase.no_phase = ""
phase_text AcceptancePhase.accepted = "accepted"
phase_text AcceptancePhase.applying = "applying"
phase_text AcceptancePhase.published = "published"

abbrev pub fallback_task : String → PlannedTask
fallback_task goal = record {
  logical_id = "T1";
  title = "Implement the requested goal";
  description = goal;
  depends_on = [];
  acceptance = "The requested goal is implemented and repository checks pass." ∷ [];
  preferred_agent = none;
  risk = "high";
}

module _ (w : World) where
  abbrev pub set_job : String → JobFields → Run (Unit {0})
  set_job job_id fields = store w (update_job job_id fields)

  abbrev pub set_state : String → JobState → Run (Unit {0})
  set_state job_id state = set_job job_id (record no_job_fields { state = some state })

  abbrev pub require : Bool → String → Run (Unit {0})
  require test message = if test then pure tt else raise (other message)

  -- The dossier that `_resume_accepted_job` reads, if it is there and not published.
  abbrev pub staged : Option DossierRow → Run DossierRow
  staged none = raise (other "accepted job is missing its unpublished staged dossier")
  staged (some d) =
      if d.published
      then raise (other "accepted job is missing its unpublished staged dossier")
      else pure d

  -- The source branch, for the intent "requested".
  unfoldable pub apply_source : JobRecord → Run Reconciled
  apply_source accepted = do
    current ←
        if accepted.acceptance_phase == AcceptancePhase.accepted
        then (store w (mark_apply_started accepted.id accepted.accepted_commit)
            >> store w (λ _. get_job accepted.id))
        else pure accepted
    lock w "repo_lock"
    await w (λ log. w.reconcile log current) (λ _. waited "reconcile_fast_forward_source")

  unfoldable pub reconcile_source : JobRecord → Run Reconciled
  reconcile_source accepted =
      if accepted.source_apply_intent == "requested"
      then apply_source accepted
      else if accepted.source_apply_intent == "not-requested"
      then pure record { outcome = "not-requested"; reason = "" }
      else raise (other "invalid durable source apply intent")

  unfoldable pub resume_accepted_job : JobRecord → Run (Unit {0})
  resume_accepted_job accepted = do
    require (is_accepted accepted) "cannot reconcile acceptance from this phase"
    require (not (accepted.accepted_commit == ""))
        "accepted job is missing its durable accepted commit"
    found ← store w (λ _. get_staged_dossier accepted.id)
    dossier ← staged found
    require (dossier.schema_version == dossier_schema_version)
        "accepted job staged dossier has an unsupported schema version"
    require (w.sha256 dossier.content == dossier.sha256)
        "accepted job staged dossier failed SHA-256 verification"
    applied ← reconcile_source accepted
    store w (
        publish_completed_job w.sha256 accepted.id (record {
          schema_version = dossier.schema_version;
          sha256 = dossier.sha256;
          final_summary = accepted.final_summary;
          outcome = applied.outcome;
          reason = applied.reason;
        }))

  abbrev pub intent_of : JobRecord → String
  intent_of job = if job.auto_apply then "requested" else "not-requested"

  unfoldable pub complete_accepted_job : String → String → Run (Unit {0})
  complete_accepted_job job_id final_summary = do
    accepted ← store w (λ _. get_job job_id)
    commit ←
        await w (λ log. w.git_text log "head" (accepted.integration_path ∷ [])) (λ _. waited "head")
    dossier ←
        await w (λ log. w.build_dossier log accepted.id commit final_summary)
          (λ _. waited "build_dossier")
    store w (
        prepare_accepted_job w.sha256 accepted.id
          (record {
            accepted_commit = commit;
            final_summary = final_summary;
            source_apply_intent = intent_of accepted;
          })
          (record dossier { schema_version = dossier_schema_version }))
    current ← store w (λ _. get_job accepted.id)
    resume_accepted_job current

  unfoldable pub make_plan : String → String → String → Run (List PlannedTask)
  make_plan job_id goal planner_name = do
    plan ← await w (λ log. w.plan log planner_name goal) (λ _. waited "plan")
    emit w job_id "planner.completed"
        (entry "agent" planner_name
          ∷ entry "summary" plan.summary
          ∷ count "tasks" (length plan.tasks)
          ∷ [])
        none
    pure plan.tasks

  abbrev pub fall_back : String → String → Failure → Run (List PlannedTask)
  fall_back job_id goal e =
      emit w job_id "planner.fallback" (entry "error" (describe e) ∷ []) none
      >> pure (fallback_task goal ∷ [])

  -- `add_tasks`, with the ids that `new_id` makes up.
  abbrev pub insert_tasks : String → List PlannedTask → Run (Unit {0})
  insert_tasks job_id tasks s = (store w (add_tasks job_id (w.with_ids s.log tasks)) >> pure tt) s

  unfoldable pub plan_job : String → Run (Unit {0})
  plan_job job_id = do
    job ← store w (λ _. get_job job_id)
    set_state job_id JobState.planning
    emit w job_id "planner.started" [] none
    planner_name ← role_agent w w.config.engine.planner_agent AgentRole.planner
    tasks ← excepting (make_plan job_id job.goal planner_name) (fall_back job_id job.goal)
    insert_tasks job_id tasks

  abbrev pub settle : String → TaskState → AttemptState → String → Run (Unit {0})
  settle job_id task_state attempt_state summary =
      store w (λ now. settle_inflight job_id task_state attempt_state summary now)

  -- `except asyncio.CancelledError`, after `_cancel_active`.
  unfoldable pub settle_cancelled : String → JobRecord → Run (Unit {0})
  settle_cancelled job_id current =
      if current.state == JobState.completed
      then pure tt
      else if is_accepted current
      then emit w job_id "job.acceptance_recovery_required"
          (entry "phase" (phase_text current.acceptance_phase)
            ∷ entry "reason" "orchestrator cancelled"
            ∷ [])
          none
      else if current.stop_requested
      then (settle job_id TaskState.stopped AttemptState.cancelled "stopped by user request"
          >> set_state job_id JobState.stopped
          >> emit w job_id "job.stopped" [] none)
      else (settle job_id TaskState.pending AttemptState.cancelled "orchestrator interrupted"
          >> set_state job_id JobState.queued
          >> emit w job_id "job.interrupted" [] none)

  -- `except Exception as exc`, after `_cancel_active`.
  unfoldable pub settle_failed : String → String → JobRecord → Run (Unit {0})
  settle_failed job_id message current =
      if is_accepted current
      then emit w job_id "job.acceptance_recovery_required"
          (entry "phase" (phase_text current.acceptance_phase)
            ∷ entry "accepted_commit" current.accepted_commit
            ∷ entry "error" (last_text 4000 message)
            ∷ [])
          none
      else (settle job_id TaskState.failed AttemptState.failed
            (append_text "orchestrator failure: " message)
          >> set_job job_id
              (record no_job_fields { state = some JobState.failed; error = some message })
          >> emit w job_id "job.failed" (entry "error" message ∷ []) none)

  abbrev pub settle_by : String → Failure → JobRecord → Run (Unit {0})
  settle_by job_id cancelled current = settle_cancelled job_id current
  settle_by job_id (merge_conflict e) current = settle_failed job_id e current
  settle_by job_id (git_error e) current = settle_failed job_id e current
  settle_by job_id (other e) current = settle_failed job_id e current

  -- Both handlers of `run_job`, which end by raising the exception again.
  unfoldable pub settle_job : String → Failure → Run (Unit {0})
  settle_job job_id e = do
    lock w "_cancel_active"
    current ← store w (λ _. get_job job_id)
    settle_by job_id e current
    raise e
