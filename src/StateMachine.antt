-- ===== src/StateMachine.antt =====
-- src/omarchy_yolo/state_machine.py: the transition tables and the checks of one transition and of
-- a whole job with its tasks and running attempts.
pub mod Checks
pub mod Transitions
use omarchy_yolo.Prelude.{
  String, ◌≡◌, refl, Bool, true, false, not, ◌&&◌, ◌||◌, Option, none, some, List, [], ◌∷◌, arith,
  Eq, ◌==◌, string_eq, elem, any, all, is_empty, if◌then◌else◌, Result, ok, err, ◌>>?◌, raise_if,
  Reason,
}
use omarchy_yolo.Model.{
  JobState, TaskState, AttemptState, AcceptancePhase, job_state_eq, task_state_eq, attempt_state_eq,
  phase_eq, phase_value,
}

unfoldable pub job_transitions : JobState → List JobState
job_transitions JobState.queued =
    JobState.queued ∷ JobState.planning ∷ JobState.running ∷ JobState.stopping ∷ JobState.failed
    ∷ []
job_transitions JobState.planning =
    JobState.planning ∷ JobState.running ∷ JobState.queued ∷ JobState.stopping ∷ JobState.failed
    ∷ []
job_transitions JobState.running =
    JobState.running ∷ JobState.queued ∷ JobState.stopping ∷ JobState.completed ∷ JobState.failed
    ∷ []
job_transitions JobState.stopping =
    JobState.stopping ∷ JobState.stopped ∷ JobState.queued ∷ JobState.completed ∷ JobState.failed
    ∷ []
job_transitions JobState.stopped = JobState.stopped ∷ JobState.queued ∷ []
job_transitions JobState.failed = JobState.failed ∷ JobState.queued ∷ []
job_transitions JobState.completed = JobState.completed ∷ []

unfoldable pub task_transitions : TaskState → List TaskState
task_transitions TaskState.pending =
    TaskState.pending ∷ TaskState.running ∷ TaskState.blocked ∷ TaskState.stopped ∷ TaskState.failed
    ∷ []
task_transitions TaskState.running =
    TaskState.running ∷ TaskState.reviewing ∷ TaskState.pending ∷ TaskState.failed
    ∷ TaskState.stopped ∷ []
task_transitions TaskState.reviewing =
    TaskState.reviewing ∷ TaskState.integrating ∷ TaskState.pending ∷ TaskState.failed
    ∷ TaskState.stopped ∷ []
task_transitions TaskState.integrating =
    TaskState.integrating ∷ TaskState.pending ∷ TaskState.completed ∷ TaskState.failed
    ∷ TaskState.stopped ∷ []
task_transitions TaskState.completed = TaskState.completed ∷ []
task_transitions TaskState.failed = TaskState.failed ∷ TaskState.pending ∷ []
task_transitions TaskState.blocked =
    TaskState.blocked ∷ TaskState.pending ∷ TaskState.failed ∷ TaskState.stopped ∷ []
task_transitions TaskState.stopped = TaskState.stopped ∷ TaskState.pending ∷ []

unfoldable pub attempt_transitions : AttemptState → List AttemptState
attempt_transitions AttemptState.running =
    AttemptState.running ∷ AttemptState.passed ∷ AttemptState.failed ∷ AttemptState.cancelled ∷ []
attempt_transitions AttemptState.passed = AttemptState.passed ∷ []
attempt_transitions AttemptState.failed = AttemptState.failed ∷ []
attempt_transitions AttemptState.cancelled = AttemptState.cancelled ∷ []

-- INFLIGHT_TASK_STATES
abbrev pub inflight_task_states : List TaskState
inflight_task_states = TaskState.running ∷ TaskState.reviewing ∷ TaskState.integrating ∷ []

abbrev pub is_inflight : TaskState → Bool
is_inflight s = elem s inflight_task_states

unfoldable pub validate_job_transition : JobState → JobState → Result (Unit {0})
unfolding job_transitions
validate_job_transition source destination =
    raise_if (not (elem destination (job_transitions source))) Reason.illegal_job_transition

unfoldable pub validate_task_transition : TaskState → TaskState → Result (Unit {0})
unfolding task_transitions
validate_task_transition source destination =
    raise_if (not (elem destination (task_transitions source))) Reason.illegal_task_transition

unfoldable pub validate_attempt_transition : AttemptState → AttemptState → Result (Unit {0})
unfolding attempt_transitions
validate_attempt_transition source destination =
    raise_if (not (elem destination (attempt_transitions source))) Reason.illegal_attempt_transition

abbrev pub not_completed : TaskState → Bool
not_completed s = not (s == TaskState.completed)

-- What `validate_job_snapshot` is given: `_snapshot_locked` reads it from the database.
pub record Snapshot : Type 0 where
  pub state : JobState
  pub tasks : List TaskState
  pub running_owners : List TaskState
  pub stop_requested : Bool
  pub phase : Option String

-- The checks that need no acceptance phase.
unfoldable pub check_graph : JobState → List TaskState → List TaskState → Bool → Result (Unit {0})
check_graph state tasks owners stop_requested =
    raise_if (state == JobState.completed && any not_completed tasks) Reason.completed_job_open_task
    >>? raise_if
        (elem state (JobState.queued ∷ JobState.stopped ∷ JobState.failed ∷ [])
          && any is_inflight tasks)
        Reason.idle_job_inflight_task
    >>? raise_if (state == JobState.stopped && not stop_requested) Reason.stopped_without_request
    >>? raise_if (state == JobState.completed && stop_requested) Reason.completed_stop_requested
    >>? raise_if
        (not (is_empty owners) && not (elem state (JobState.running ∷ JobState.stopping ∷ [])))
        Reason.idle_job_running_attempt
    >>? raise_if (not (is_empty owners) && any (λ s. not (is_inflight s)) owners)
        Reason.attempt_owner_not_inflight

-- `phase not in ACCEPTANCE_PHASES`
unfoldable pub parse_phase : String → Option AcceptancePhase
parse_phase text =
    if text == "none"
    then some AcceptancePhase.no_phase
    else if text == "accepted"
    then some AcceptancePhase.accepted
    else if text == "applying"
    then some AcceptancePhase.applying
    else if text == "published"
    then some AcceptancePhase.published
    else none

abbrev pub is_accepting : AcceptancePhase → Bool
is_accepting phase = elem phase (AcceptancePhase.accepted ∷ AcceptancePhase.applying ∷ [])

-- The checks of a known acceptance phase.
unfoldable pub check_phase :
    JobState → List TaskState → List TaskState → AcceptancePhase → Result (Unit {0})
check_phase state tasks owners phase =
    let begun = is_accepting phase || phase == AcceptancePhase.published in
    raise_if (begun && any not_completed tasks) Reason.accepted_open_task
    >>? raise_if (begun && not (is_empty owners)) Reason.accepted_running_attempt
    >>? raise_if
        (is_accepting phase && not (elem state (JobState.running ∷ JobState.stopping ∷ [])))
        Reason.accepted_job_state
    >>? raise_if (phase == AcceptancePhase.published && not (state == JobState.completed))
        Reason.published_job_state
    >>? raise_if (state == JobState.completed && not (phase == AcceptancePhase.published))
        Reason.completed_unpublished

-- The phase is text: absent, known or unknown.
abbrev pub check_parsed :
    JobState → List TaskState → List TaskState → Option AcceptancePhase → Result (Unit {0})
check_parsed state tasks owners none = raise_if true Reason.unknown_phase
check_parsed state tasks owners (some phase) = check_phase state tasks owners phase

abbrev pub check_phase_text :
    JobState → List TaskState → List TaskState → Option String → Result (Unit {0})
check_phase_text state tasks owners none = ok tt
check_phase_text state tasks owners (some text) = check_parsed state tasks owners (parse_phase text)

unfoldable pub validate_job_snapshot : Snapshot → Result (Unit {0})
validate_job_snapshot s =
    check_graph s.state s.tasks s.running_owners s.stop_requested
    >>? check_phase_text s.state s.tasks s.running_owners s.phase
