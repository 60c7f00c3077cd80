-- ===== src/Model.antt =====
-- src/omarchy_yolo/model.py: the enumerations and the records of a plan, a job and a task.
-- Members are compared by their place in
-- the enumeration, which decides equality as the comparison of their texts does. Times are kept as numbers of
-- clock ticks. AcceptancePhase is the text column `acceptance_phase`, whose values a CHECK fixes.
use omarchy_yolo.Prelude.{ℕ, String, ◌≡◌, ◌↔◌, Bool, true, Option, List, arith, Eq, ◌==◌, nat_eq}

pub data JobState : Type 0 where
  queued planning running stopping stopped completed failed : JobState

pub data TaskState : Type 0 where
  pending running reviewing integrating completed failed blocked stopped : TaskState

pub data AttemptState : Type 0 where
  running passed failed cancelled : AttemptState

pub data AgentRole : Type 0 where
  worker planner reviewer integrator : AgentRole

pub data AcceptancePhase : Type 0 where
  no_phase accepted applying published : AcceptancePhase

abbrev pub job_value : JobState → String
job_value JobState.queued = "queued"
job_value JobState.planning = "planning"
job_value JobState.running = "running"
job_value JobState.stopping = "stopping"
job_value JobState.stopped = "stopped"
job_value JobState.completed = "completed"
job_value JobState.failed = "failed"

abbrev pub task_value : TaskState → String
task_value TaskState.pending = "pending"
task_value TaskState.running = "running"
task_value TaskState.reviewing = "reviewing"
task_value TaskState.integrating = "integrating"
task_value TaskState.completed = "completed"
task_value TaskState.failed = "failed"
task_value TaskState.blocked = "blocked"
task_value TaskState.stopped = "stopped"

abbrev pub attempt_value : AttemptState → String
attempt_value AttemptState.running = "running"
attempt_value AttemptState.passed = "passed"
attempt_value AttemptState.failed = "failed"
attempt_value AttemptState.cancelled = "cancelled"

abbrev pub phase_value : AcceptancePhase → String
phase_value AcceptancePhase.no_phase = "none"
phase_value AcceptancePhase.accepted = "accepted"
phase_value AcceptancePhase.applying = "applying"
phase_value AcceptancePhase.published = "published"

-- The place of a member in its enumeration.
abbrev pub job_index : JobState → ℕ
job_index JobState.queued = 0
job_index JobState.planning = 1
job_index JobState.running = 2
job_index JobState.stopping = 3
job_index JobState.stopped = 4
job_index JobState.completed = 5
job_index JobState.failed = 6

-- The place of a member in its enumeration.
abbrev pub task_index : TaskState → ℕ
task_index TaskState.pending = 0
task_index TaskState.running = 1
task_index TaskState.reviewing = 2
task_index TaskState.integrating = 3
task_index TaskState.completed = 4
task_index TaskState.failed = 5
task_index TaskState.blocked = 6
task_index TaskState.stopped = 7

-- The place of a member in its enumeration.
abbrev pub attempt_index : AttemptState → ℕ
attempt_index AttemptState.running = 0
attempt_index AttemptState.passed = 1
attempt_index AttemptState.failed = 2
attempt_index AttemptState.cancelled = 3

-- The place of a member in its enumeration.
abbrev pub phase_index : AcceptancePhase → ℕ
phase_index AcceptancePhase.no_phase = 0
phase_index AcceptancePhase.accepted = 1
phase_index AcceptancePhase.applying = 2
phase_index AcceptancePhase.published = 3

abbrev pub job_state_beq : JobState → JobState → Bool
job_state_beq a b = job_index a == job_index b

abbrev pub task_state_beq : TaskState → TaskState → Bool
task_state_beq a b = task_index a == task_index b

abbrev pub attempt_state_beq : AttemptState → AttemptState → Bool
attempt_state_beq a b = attempt_index a == attempt_index b

abbrev pub phase_beq : AcceptancePhase → AcceptancePhase → Bool
phase_beq a b = phase_index a == phase_index b

pub job_state_beq_iff : (a b : JobState) → (job_state_beq a b ≡ true) ↔ (a ≡ b)
job_state_beq_iff a b = ground arith

pub task_state_beq_iff : (a b : TaskState) → (task_state_beq a b ≡ true) ↔ (a ≡ b)
task_state_beq_iff a b = ground arith

pub attempt_state_beq_iff : (a b : AttemptState) → (attempt_state_beq a b ≡ true) ↔ (a ≡ b)
attempt_state_beq_iff a b = ground arith

pub phase_beq_iff : (a b : AcceptancePhase) → (phase_beq a b ≡ true) ↔ (a ≡ b)
phase_beq_iff a b = ground arith

instance abbrev pub job_state_eq : Eq JobState
job_state_eq = record { beq = job_state_beq; beq_iff = job_state_beq_iff }

instance abbrev pub task_state_eq : Eq TaskState
task_state_eq = record { beq = task_state_beq; beq_iff = task_state_beq_iff }

instance abbrev pub attempt_state_eq : Eq AttemptState
attempt_state_eq = record { beq = attempt_state_beq; beq_iff = attempt_state_beq_iff }

instance abbrev pub phase_eq : Eq AcceptancePhase
phase_eq = record { beq = phase_beq; beq_iff = phase_beq_iff }

pub record PlannedTask : Type 0 where
  pub logical_id : String
  pub title : String
  pub description : String
  pub depends_on : List String
  pub acceptance : List String
  pub preferred_agent : Option String
  pub risk : String

pub record JobRecord : Type 0 where
  pub id : String
  pub repo : String
  pub goal : String
  pub state : JobState
  pub base_branch : String
  pub base_commit : String
  pub integration_branch : String
  pub integration_path : String
  pub auto_apply : Bool
  pub stop_requested : Bool
  pub created_at : ℕ
  pub updated_at : ℕ
  pub final_summary : String
  pub error : String
  pub accepted_commit : String
  pub acceptance_phase : AcceptancePhase
  pub source_apply_intent : String
  pub source_apply_outcome : String
  pub source_apply_reason : String

pub record TaskRecord : Type 0 where
  pub id : String
  pub job_id : String
  pub seq : ℕ
  pub logical_id : String
  pub title : String
  pub description : String
  pub state : TaskState
  pub dependencies : List String
  pub acceptance : List String
  pub preferred_agent : Option String
  pub attempts : ℕ
  pub branch : String
  pub worktree : String
  pub base_commit : String
  pub last_error : String
  pub result_summary : String
  pub created_at : ℕ
  pub updated_at : ℕ
