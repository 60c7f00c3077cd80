-- ===== src/Tests/Store.antt =====
-- A job from its creation to its publication, as a history of calls.
use omarchy_yolo.Prelude.{ℕ, String, ◌≡◌, refl, true, false, none, some, List, [], ◌∷◌, last_text}
use omarchy_yolo.Prelude.Tables.{select, fetchone, update, rowcount}
use omarchy_yolo.Model.{JobState, TaskState, AttemptState, AcceptancePhase, PlannedTask, JobRecord}
use omarchy_yolo.StateMachine.{
  job_transitions, task_transitions, attempt_transitions, validate_job_transition,
  validate_task_transition, validate_attempt_transition, check_graph, parse_phase, check_phase,
  validate_job_snapshot,
}
use omarchy_yolo.StateMachine.Checks.{GraphRules, PhaseRules}
use omarchy_yolo.Db.Rows.{empty_database}
use omarchy_yolo.Db.Actions.{
  pure, raise, gets, get_row, lift, modify, raise_when, when, ◌>>=◌, for_each, transaction,
}
use omarchy_yolo.Db.Core.{
  find_job, find_task, find_attempt, find_dossier, tasks_of, running_attempts, join_states,
  task_states, owner_states, snapshot_locked, validate_snapshot_locked, insert_job, insert_task,
  insert_attempt, append_event, insert_event, rewrite_jobs, rewrite_tasks, rewrite_attempts,
  update_jobs, update_tasks, update_attempts, rewrite_dossiers,
}
use omarchy_yolo.Db.Mutations.{
  no_job_fields, no_task_fields, NewAttempt, has_frozen_fields, has_job_fields, assign_job,
  update_job_row, update_job, has_task_fields, assign_task, running_attempt, activate_job,
  update_task_row, update_task, start_attempt, finish_attempt_row, finish_attempt,
}
use omarchy_yolo.Db.Records.{NewJob, create_job, task_rows, get_job, list_tasks, add_tasks, event}
use omarchy_yolo.Db.Provenance.{
  Dossier, Acceptance, Publication, upsert_dossier, stage_dossier_locked, same_acceptance,
  journal_acceptance, prepare_row, journal_apply, apply_row, mark_apply_started, check_outcome,
  publish_events, journal_publication, check_republication, digest_matches, prepare_accepted_job,
  check_dossier, publish_row, publish_completed_job,
}
use omarchy_yolo.Db.Commits.{IsConsistent}
use omarchy_yolo.Db.History.{Mutation, perform, replay, replay-IsConsistent, empty-IsConsistent}
use omarchy_yolo.Db.JobRules.{replay-job_rules}

abbrev pub Call : Type 0
Call = record { time : ℕ; call : Mutation }

abbrev pub at : ℕ → Mutation → Call
at t m = record { time = t; call = m }

abbrev pub digest : String
digest = "0123456789abcdef0123456789abcdef0123456789abcdef0123456789abcdef"

-- A hash function for the runs: a content that is its own digest.
abbrev pub sha : String → String
sha s = s

abbrev pub new_job : NewJob
new_job = record {
  repo = "/repo";
  goal = "goal";
  base_branch = "main";
  base_commit = "c0";
  integration_branch = "yolo/job";
  auto_apply = true;
}

abbrev pub planned : PlannedTask
planned = record {
  logical_id = "t1";
  title = "title";
  description = "text";
  depends_on = [];
  acceptance = [];
  preferred_agent = none;
  risk = "low";
}

abbrev pub job_to : JobState → Mutation
job_to s = Mutation.update_job "job-1" (record no_job_fields { state = some s })

abbrev task_to : TaskState → Mutation
task_to s = Mutation.update_task "task-1" (record no_task_fields { state = some s })

abbrev attempt : NewAttempt
attempt = record {
  job_id = "job-1";
  task_id = "task-1";
  number = 1;
  agent = "codex";
  worktree = "/w";
  branch = "b";
  log_path = "/l";
}

abbrev dossier : Dossier
dossier = record { schema_version = 1; sha256 = digest; content = digest }

abbrev acceptance : Acceptance
acceptance = record {
  accepted_commit = "c1";
  final_summary = "done";
  source_apply_intent = "requested";
}

abbrev publication : Publication
publication = record {
  schema_version = 1;
  sha256 = digest;
  outcome = "applied";
  reason = "";
  final_summary = "done";
}

-- The last calls come too late, and change nothing.
abbrev lifecycle : List Call
lifecycle =
    at 1 (Mutation.create_job new_job "job-1")
    ∷ at 2 (job_to JobState.planning)
    ∷ at 3 (Mutation.add_tasks "job-1" (record { id = "task-1"; task = planned } ∷ []))
    ∷ at 4 (task_to TaskState.running)
    ∷ at 5 (Mutation.start_attempt attempt "attempt-1")
    ∷ at 6 (Mutation.finish_attempt "attempt-1" AttemptState.passed none "ok")
    ∷ at 7 (task_to TaskState.reviewing)
    ∷ at 8 (task_to TaskState.integrating)
    ∷ at 9 (task_to TaskState.completed)
    ∷ at 10 (Mutation.prepare_accepted_job "job-1" acceptance dossier)
    ∷ at 11 (Mutation.mark_apply_started "job-1" "c1")
    ∷ at 12 (Mutation.publish_completed_job "job-1" publication)
    ∷ at 13 (job_to JobState.failed)
    ∷ at 14 (task_to TaskState.pending)
    ∷ []

abbrev pub published_job : JobRecord
published_job = record {
  id = "job-1";
  repo = "/repo";
  goal = "goal";
  state = JobState.completed;
  base_branch = "main";
  base_commit = "c0";
  integration_branch = "yolo/job";
  integration_path = "";
  auto_apply = true;
  stop_requested = false;
  created_at = 1;
  updated_at = 12;
  final_summary = "done";
  error = "";
  accepted_commit = "c1";
  acceptance_phase = AcceptancePhase.published;
  source_apply_intent = "requested";
  source_apply_outcome = "applied";
  source_apply_reason = "";
}

lifecycle_published : find_job "job-1" (replay sha lifecycle empty_database) ≡ some published_job
unfolding select fetchone update rowcount last_text job_transitions task_transitions
    attempt_transitions validate_job_transition validate_task_transition validate_attempt_transition
    check_graph parse_phase check_phase validate_job_snapshot perform replay pure raise gets get_row
    lift modify raise_when when ◌>>=◌ for_each transaction find_job find_task find_attempt
    find_dossier tasks_of running_attempts join_states task_states owner_states snapshot_locked
    validate_snapshot_locked insert_job insert_task insert_attempt append_event insert_event
    rewrite_jobs rewrite_tasks rewrite_attempts update_jobs update_tasks update_attempts
    rewrite_dossiers create_job task_rows get_job list_tasks add_tasks event has_frozen_fields
    has_job_fields assign_job update_job_row update_job has_task_fields assign_task running_attempt
    activate_job update_task_row update_task start_attempt finish_attempt_row finish_attempt
    upsert_dossier stage_dossier_locked same_acceptance journal_acceptance prepare_row journal_apply
    apply_row mark_apply_started check_outcome publish_events journal_publication
    check_republication digest_matches prepare_accepted_job check_dossier publish_row
    publish_completed_job
lifecycle_published = refl

replay-job_rules_example :
    let db = replay sha lifecycle empty_database in
    GraphRules JobState.completed (task_states "job-1" db) (owner_states "job-1" db) false
    × PhaseRules JobState.completed
        (task_states "job-1" db)
        (owner_states "job-1" db)
        AcceptancePhase.published
replay-job_rules_example = replay-job_rules sha lifecycle "job-1" published_job lifecycle_published

replay-IsConsistent_example : IsConsistent (replay sha lifecycle empty_database)
replay-IsConsistent_example = replay-IsConsistent sha lifecycle empty_database empty-IsConsistent
