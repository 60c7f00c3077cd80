-- ===== src/Tests/States.antt =====
-- Snapshots and walks of the state machine.
use omarchy_yolo.Prelude.{◌≡◌, ◌↔◌, true, false, some, List, [], ◌∷◌, refl, ok, elem}
use omarchy_yolo.Model.{JobState, TaskState, task_state_eq}
use omarchy_yolo.StateMachine.{
  Snapshot, validate_job_snapshot, task_transitions, validate_task_transition,
}
use omarchy_yolo.StateMachine.Transitions.{walk, walk-passes_stages}
use omarchy_yolo.StateMachine.Checks.{Rules, validate_job_snapshot_iff}

abbrev accepted_snapshot : Snapshot
accepted_snapshot = record {
  state = JobState.running;
  tasks = TaskState.completed ∷ [];
  running_owners = [];
  stop_requested = false;
  phase = some "accepted";
}

validate_job_snapshot_iff_example :
    (validate_job_snapshot accepted_snapshot ≡ ok tt) ↔ Rules accepted_snapshot
validate_job_snapshot_iff_example = validate_job_snapshot_iff accepted_snapshot

-- A task that fails in review, is tried again and completes.
abbrev retried : List TaskState
retried =
    TaskState.running ∷ TaskState.reviewing ∷ TaskState.failed ∷ TaskState.pending
    ∷ TaskState.running ∷ TaskState.reviewing ∷ TaskState.integrating ∷ TaskState.completed ∷ []

retried_validates : walk TaskState.pending retried ≡ ok tt
unfolding walk validate_task_transition task_transitions
retried_validates = refl

walk-passes_stages_example :
    (elem TaskState.running retried ≡ true)
    × (elem TaskState.reviewing retried ≡ true)
    × (elem TaskState.integrating retried ≡ true)
walk-passes_stages_example = walk-passes_stages retried retried_validates refl
