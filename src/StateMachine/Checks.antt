-- ===== src/StateMachine/Checks.antt =====
-- What `validate_job_snapshot` of src/omarchy_yolo/state_machine.py accepts, rule by rule.
use omarchy_yolo.Prelude.{
  String, ◌≡◌, ◌≢◌, ◌↔◌, ◌⊎◌, refl, Bool, true, false, not, Option, none, some, List, [], ◌∷◌,
  arith, string_eq, any, All, Result, ok, err, ◌>>?◌,
}
use omarchy_yolo.Model.{
  JobState, TaskState, AcceptancePhase, job_state_eq, task_state_eq, phase_eq, phase_value,
}
use omarchy_yolo.StateMachine.{
  Snapshot, is_inflight, not_completed, check_graph, parse_phase, check_phase, check_parsed,
  check_phase_text, validate_job_snapshot,
}

abbrev pub IsInflight : TaskState → Type 0
IsInflight s = (s ≡ TaskState.running) ⊎ (s ≡ TaskState.reviewing) ⊎ (s ≡ TaskState.integrating)

abbrev pub IsActive : JobState → Type 0
IsActive s = (s ≡ JobState.running) ⊎ (s ≡ JobState.stopping)

abbrev pub IsIdle : JobState → Type 0
IsIdle s = (s ≡ JobState.queued) ⊎ (s ≡ JobState.stopped) ⊎ (s ≡ JobState.failed)

-- The rules that hold of a job, its tasks, and the tasks that own a running attempt.
pub record GraphRules (state : JobState) (tasks owners : List TaskState) (stop_requested : Bool)
    : Type 0 where
  pub completed_done : state ≡ JobState.completed → All (λ t. t ≡ TaskState.completed) tasks
  pub idle_quiet : IsIdle state → All (λ t. ¬ IsInflight t) tasks
  pub stopped_asked : state ≡ JobState.stopped → stop_requested ≡ true
  pub completed_unasked : state ≡ JobState.completed → stop_requested ≡ false
  pub owners_active : owners ≢ [] → IsActive state
  pub owners_inflight : All IsInflight owners

-- The rules of the acceptance journal.
pub record PhaseRules (state : JobState) (tasks owners : List TaskState) (phase : AcceptancePhase)
    : Type 0 where
  pub begun_done : phase ≢ AcceptancePhase.no_phase → All (λ t. t ≡ TaskState.completed) tasks
  pub begun_quiet : phase ≢ AcceptancePhase.no_phase → owners ≡ []
  pub accepted_active :
      (phase ≡ AcceptancePhase.accepted) ⊎ (phase ≡ AcceptancePhase.applying) → IsActive state
  pub published_completed : phase ≡ AcceptancePhase.published → state ≡ JobState.completed
  pub completed_published : state ≡ JobState.completed → phase ≡ AcceptancePhase.published

All-completed :
    (ts : List TaskState) → (any not_completed ts ≡ false) ↔ All (λ t. t ≡ TaskState.completed) ts
All-completed [] = (λ _. tt, λ _. refl)
All-completed (t ∷ ts) = (
  λ h. (ground arith, (All-completed ts).0 (ground arith)),
  λ h. let rest = (All-completed ts).1 h.1 in let first = h.0 in ground arith,
)

none-IsInflight :
    (ts : List TaskState) → (any is_inflight ts ≡ false) ↔ All (λ t. ¬ IsInflight t) ts
none-IsInflight [] = (λ _. tt, λ _. refl)
none-IsInflight (t ∷ ts) = (
  λ h. (ground arith, (none-IsInflight ts).0 (ground arith)),
  λ h. let rest = (none-IsInflight ts).1 h.1 in let first = h.0 in ground arith,
)

All-IsInflight :
    (ts : List TaskState) → (any (λ s. not (is_inflight s)) ts ≡ false) ↔ All IsInflight ts
All-IsInflight [] = (λ _. tt, λ _. refl)
All-IsInflight (t ∷ ts) = (
  λ h. (ground arith, (All-IsInflight ts).0 (ground arith)),
  λ h. let rest = (All-IsInflight ts).1 h.1 in let first = h.0 in ground arith,
)

check_graph_sound :
    (state : JobState) (tasks owners : List TaskState) (stop_requested : Bool)
    → check_graph state tasks owners stop_requested ≡ ok tt
    → GraphRules state tasks owners stop_requested
unfolding check_graph
check_graph_sound state tasks owners stop h = record {
  completed_done = λ e. (All-completed tasks).0 (ground arith);
  idle_quiet = λ e. (none-IsInflight tasks).0 (ground arith);
  stopped_asked = λ e. ground arith;
  completed_unasked = λ e. ground arith;
  owners_active = λ e. ground arith;
  owners_inflight = owners_rule owners h;
}
  where
    owners_rule :
        (os : List TaskState) → check_graph state tasks os stop ≡ ok tt → All IsInflight os
    owners_rule [] h = tt
    owners_rule (o ∷ os) h = (All-IsInflight (o ∷ os)).0 (ground arith)

check_graph_complete :
    (state : JobState) (tasks owners : List TaskState) (stop_requested : Bool)
    → GraphRules state tasks owners stop_requested
    → check_graph state tasks owners stop_requested ≡ ok tt
unfolding check_graph
check_graph_complete state tasks owners stop r = ground (
  arith,
  All-completed tasks,
  none-IsInflight tasks,
  All-IsInflight owners,
  r.completed_done,
  r.idle_quiet,
  r.stopped_asked,
  r.completed_unasked,
  r.owners_active,
  r.owners_inflight,
)

check_phase_sound :
    (state : JobState) (tasks owners : List TaskState) (phase : AcceptancePhase)
    → check_phase state tasks owners phase ≡ ok tt
    → PhaseRules state tasks owners phase
unfolding check_phase
check_phase_sound state tasks owners phase h = record {
  begun_done = λ e. (All-completed tasks).0 (ground arith);
  begun_quiet = λ e. ground arith;
  accepted_active = λ e. ground arith;
  published_completed = λ e. ground arith;
  completed_published = λ e. ground arith;
}

check_phase_complete :
    (state : JobState) (tasks owners : List TaskState) (phase : AcceptancePhase)
    → PhaseRules state tasks owners phase
    → check_phase state tasks owners phase ≡ ok tt
unfolding check_phase
check_phase_complete state tasks owners phase r = ground (
  arith,
  All-completed tasks,
  r.begun_done,
  r.begun_quiet,
  r.accepted_active,
  r.published_completed,
  r.completed_published,
)

pub parse-phase_value : (phase : AcceptancePhase) → parse_phase (phase_value phase) ≡ some phase
unfolding parse_phase
parse-phase_value AcceptancePhase.no_phase = refl
parse-phase_value AcceptancePhase.accepted = refl
parse-phase_value AcceptancePhase.applying = refl
parse-phase_value AcceptancePhase.published = refl

parse_phase-value :
    (text : String) (phase : AcceptancePhase)
    → parse_phase text ≡ some phase
    → text ≡ phase_value phase
unfolding parse_phase
parse_phase-value text phase h = ground (
  arith,
  string_eq.beq_iff text "none",
  string_eq.beq_iff text "accepted",
  string_eq.beq_iff text "applying",
  string_eq.beq_iff text "published",
)

-- The phase is absent, or it is the text of a known phase whose rules hold.
abbrev pub HasPhase : JobState → List TaskState → List TaskState → Option String → Type 0
HasPhase state tasks owners none = Unit
HasPhase state tasks owners (some text) =
    (phase : AcceptancePhase) × (text ≡ phase_value phase) × PhaseRules state tasks owners phase

abbrev pub Rules : Snapshot → Type 0
Rules s =
    GraphRules s.state s.tasks s.running_owners s.stop_requested
    × HasPhase s.state s.tasks s.running_owners s.phase

pub then-ok : (r q : Result (Unit {0})) → (r >>? q) ≡ ok tt → (r ≡ ok tt) × (q ≡ ok tt)
then-ok (ok u) q h = (refl, h)
then-ok (err e) q h = cc

phase_of_ok :
    (state : JobState) (tasks owners : List TaskState) (text : String) (p : Option AcceptancePhase)
    → parse_phase text ≡ p
    → check_parsed state tasks owners p ≡ ok tt
    → HasPhase state tasks owners (some text)
phase_of_ok state tasks owners text none e h = cc
phase_of_ok state tasks owners text (some phase) e h =
    (phase, parse_phase-value text phase e, check_phase_sound state tasks owners phase h)

validate_job_snapshot_sound : (s : Snapshot) → validate_job_snapshot s ≡ ok tt → Rules s
unfolding validate_job_snapshot
validate_job_snapshot_sound s h = go s.phase h
  where
    go :
        (p : Option String)
        → validate_job_snapshot (record s { phase = p }) ≡ ok tt
        → GraphRules s.state s.tasks s.running_owners s.stop_requested
          × HasPhase s.state s.tasks s.running_owners p
    go none h =
        (check_graph_sound s.state s.tasks s.running_owners s.stop_requested (then-ok _ _ h).0, tt)
    go (some text) h = (
      check_graph_sound s.state s.tasks s.running_owners s.stop_requested (then-ok _ _ h).0,
      phase_of_ok s.state s.tasks s.running_owners text (parse_phase text) refl (then-ok _ _ h).1,
    )

validate_job_snapshot_complete : (s : Snapshot) → Rules s → validate_job_snapshot s ≡ ok tt
unfolding validate_job_snapshot
validate_job_snapshot_complete s (g, p) =
    rw (check_graph_complete s.state s.tasks s.running_owners s.stop_requested g) (go s.phase p)
  where
    go :
        (p : Option String)
        → HasPhase s.state s.tasks s.running_owners p
        → check_phase_text s.state s.tasks s.running_owners p ≡ ok tt
    go none h = refl
    go (some text) (phase, e, r) =
        rw (e, parse-phase_value phase)
          (check_phase_complete s.state s.tasks s.running_owners phase r)

-- `validate_job_snapshot` returns exactly for the snapshots that meet the rules: it misses none of
-- them, and refuses nothing else.
pub validate_job_snapshot_iff : (s : Snapshot) → (validate_job_snapshot s ≡ ok tt) ↔ Rules s
validate_job_snapshot_iff s = (validate_job_snapshot_sound s, validate_job_snapshot_complete s)
