-- ===== src/StateMachine/Transitions.antt =====
-- Walks of a task through its states: sequences of transitions that
-- src/omarchy_yolo/state_machine.py validates.
use omarchy_yolo.Prelude.{
  ◌≡◌, inl, inr, refl, true, false, List, [], ◌∷◌, arith, ◌==◌, elem, Result, ok, ◌>>?◌, Bool-cases,
}
use omarchy_yolo.Model.{TaskState, task_state_eq}
use omarchy_yolo.StateMachine.Checks.{then-ok}
use omarchy_yolo.StateMachine.{task_transitions, validate_task_transition}

-- A task goes from `source` through the states of the list, each step validated.
unfoldable pub walk : TaskState → List TaskState → Result (Unit {0})
walk source [] = ok tt
walk source (s ∷ rest) = validate_task_transition source s >>? walk s rest

-- The states of a task whose work has not reached the named stage.
abbrev idle_states : List TaskState
idle_states = TaskState.pending ∷ TaskState.failed ∷ TaskState.blocked ∷ TaskState.stopped ∷ []

abbrev unreviewed_states : List TaskState
unreviewed_states = TaskState.running ∷ idle_states

abbrev unmerged_states : List TaskState
unmerged_states = TaskState.reviewing ∷ unreviewed_states

-- From the states `before`, a validated transition leads to one of them or to `gate`.
GatedBy : List TaskState → TaskState → Type 0
GatedBy before gate =
    (s t : TaskState)
    → elem s before ≡ true
    → validate_task_transition s t ≡ ok tt
    → (t == gate) ≡ false
    → elem t before ≡ true

idle-GatedBy : GatedBy idle_states TaskState.running
unfolding GatedBy validate_task_transition task_transitions
idle-GatedBy s t m v n = ground arith

unreviewed-GatedBy : GatedBy unreviewed_states TaskState.reviewing
unfolding GatedBy validate_task_transition task_transitions
unreviewed-GatedBy s t m v n = ground arith

unmerged-GatedBy : GatedBy unmerged_states TaskState.integrating
unfolding GatedBy validate_task_transition task_transitions
unmerged-GatedBy s t m v n = ground arith

-- A walk from `before` to a state outside of it passes the gate.
walk-passes :
    (before : List TaskState) (gate : TaskState) (s : TaskState) (rest : List TaskState)
    → GatedBy before gate
    → elem TaskState.completed before ≡ false
    → elem s before ≡ true
    → walk s rest ≡ ok tt
    → elem TaskState.completed rest ≡ true
    → elem gate rest ≡ true
unfolding walk GatedBy
walk-passes before gate s [] gated out m w e = cc
walk-passes before gate s (t ∷ ts) gated out m w e =
    let (first, rest) = then-ok (validate_task_transition s t) (walk t ts) w in
    elim (Bool-cases (t == gate)) [
      | inl hit ↦ rw hit refl
      | inr miss ↦
          let inside = gated s t m first miss in
          let later =
            walk-passes before gate t ts gated out inside rest (ground (arith, inside, out, e)) in
          rw miss later
    ]

-- A task that `validate_task_transition` let go from pending to completed, by any number of steps,
-- was running, in review and in integration on the way.
pub walk-passes_stages :
    (rest : List TaskState)
    → walk TaskState.pending rest ≡ ok tt
    → elem TaskState.completed rest ≡ true
    → (elem TaskState.running rest ≡ true)
      × (elem TaskState.reviewing rest ≡ true)
      × (elem TaskState.integrating rest ≡ true)
walk-passes_stages rest w e = (
  walk-passes idle_states TaskState.running TaskState.pending rest idle-GatedBy refl refl w e,
  walk-passes unreviewed_states TaskState.reviewing TaskState.pending rest unreviewed-GatedBy refl
      refl w e,
  walk-passes unmerged_states TaskState.integrating TaskState.pending rest unmerged-GatedBy refl
      refl w e,
)
