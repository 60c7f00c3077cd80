-- ===== src/Execution/Attempts.antt =====
-- The attempts of a task in src/omarchy_yolo/orchestrator_task.py.
use omarchy_yolo.Prelude.{
  ℕ, pos, zero, suc, ◌+◌, ◌-◌, String, Bool, true, false, Option, none, some, List, [], ◌∷◌, ◌==◌,
  nat_eq, string_eq, append_text, last_text, if◌then◌else◌,
}
use omarchy_yolo.Prelude.Fallible.{Fallible, returns, raises}
use omarchy_yolo.Model.{TaskState, AttemptState, JobRecord, TaskRecord}
use omarchy_yolo.Agents.{AgentResult, GateResult, ReviewResult, agent_ok, passed}
use omarchy_yolo.Db.Rows.{PayloadValue}
use omarchy_yolo.Db.Mutations.{no_task_fields, start_attempt, finish_attempt}
use omarchy_yolo.Db.Records.{entry, get_job, get_task}
use omarchy_yolo.Execution.Runs.{
  cancelled, GateScope, World, Run, pure, raise, fresh, store, git, emit, ◌>>=◌, ◌>>◌,
}
use omarchy_yolo.Execution.Integrate.{gates_ok, of_choice, run_gates, integrate_task}
use omarchy_yolo.Execution.Worktrees.{
  or_text, join_texts, choose_worker, count, Site, set_task, prepare_worktree,
}
use omarchy_yolo.Execution.Calls.{reject, launch, review_task_resilient, remove_worktree}

module _ (w : World) where
  -- The end of a passed attempt.
  unfoldable pub accept : Site → ℕ → String → String → ReviewResult → Run (Option String)
  accept x attempt_number agent_name attempt_id review = do
    store w (
        finish_attempt attempt_id AttemptState.passed (some (pos 0))
          (or_text review.summary "passed gates and review"))
    set_task w x.task_id (record no_task_fields {
      state = some TaskState.completed;
      result_summary = some review.summary;
      last_error = some "";
    })
    emit w x.job_id "task.completed"
        (count "attempt" attempt_number
          ∷ entry "agent" agent_name
          ∷ entry "summary" review.summary
          ∷ [])
        (some x.task_id)
    remove_worktree w x
    pure none

  unfoldable pub integrate : Site → ℕ → String → String → ReviewResult → Run (Option String)
  integrate x attempt_number agent_name attempt_id review = do
    task ← store w (λ _. get_task x.task_id)
    merge ← integrate_task w x.job_id task x.integration_path
    if merge.integrated
        then accept x attempt_number agent_name attempt_id review
        else reject w x attempt_id (some (pos 1)) merge.feedback (pure tt)

  abbrev pub rejection : ReviewResult → String
  rejection review =
      append_text (append_text "Reviewer rejected the attempt:\n" (join_texts "\n" review.findings))
        (if review.summary == "" then "" else append_text "\nSummary: " review.summary)

  unfoldable pub review_then_integrate :
      Site → ℕ → String → String → List GateResult → Run (Option String)
  review_then_integrate x attempt_number agent_name attempt_id gates = do
    set_task w x.task_id (record no_task_fields { state = some TaskState.reviewing })
    task ← store w (λ _. get_task x.task_id)
    review ← review_task_resilient w x task gates
    if passed review
        then integrate x attempt_number agent_name attempt_id review
        else reject w x attempt_id (some (pos 0)) (rejection review) (
            emit w x.job_id "task.review_rejected"
              (entry "verdict" review.verdict
                ∷ record { key = "findings"; value = PayloadValue.texts review.findings }
                ∷ [])
              (some x.task_id))

  unfoldable pub gate_then_review : Site → TaskRecord → ℕ → String → String → Run (Option String)
  gate_then_review x task attempt_number agent_name attempt_id = do
    git w "commit_all" (x.place.worktree ∷ [])
    gates ←
        run_gates w x.job_id task.logical_id (some task.id) x.place.worktree GateScope.task_worktree
          w.config.gates.commands
    if gates_ok gates
        then review_then_integrate x attempt_number agent_name attempt_id gates
        else reject w x attempt_id (some (pos 1))
            (append_text "Repository gates failed:\n" (w.format_gates gates))
            (emit w x.job_id "task.gates_failed" (count "attempt" attempt_number ∷ [])
              (some x.task_id))

  abbrev pub exit_context : AgentResult → String
  exit_context r = join_texts "" (
      "Worker exited with "
      ∷ w.show_int r.returncode
      ∷ ".\nSTDERR:\n"
      ∷ last_text 5000 r.stderr
      ∷ "\nSTDOUT:\n"
      ∷ last_text 5000 r.stdout
      ∷ [])

  -- After the worker: `none` is `return True`, a context is `continue`.
  unfoldable pub judge :
      Site → TaskRecord → ℕ → String → String → Fallible String AgentResult → Run (Option String)
  judge x task attempt_number agent_name attempt_id (raises context) = pure (some context)
  judge x task attempt_number agent_name attempt_id (returns result) =
      if agent_ok result
      then gate_then_review x task attempt_number agent_name attempt_id
      else reject w x attempt_id (some result.returncode) (exit_context result) (
          emit w x.job_id "task.worker_failed"
            (count "attempt" attempt_number
              ∷ entry "agent" agent_name
              ∷ record { key = "returncode"; value = PayloadValue.integer result.returncode }
              ∷ [])
            (some x.task_id))

  abbrev pub stop_if_requested : JobRecord → Run (Unit {0})
  stop_if_requested job = if job.stop_requested then raise cancelled else pure tt

  -- The body of the loop of `_run_task_with_slot`.
  unfoldable pub run_attempt : Site → ℕ → String → Run (Option String)
  run_attempt x attempt_number context = do
    job ← store w (λ _. get_job x.job_id)
    stop_if_requested job
    task ← store w (λ _. get_task x.task_id)
    agent_name ←
        of_choice w (choose_worker w.registry w.config.engine.worker_agents task attempt_number)
    set_task w x.task_id (record no_task_fields {
      state = some TaskState.running;
      attempts = some attempt_number;
      last_error = some "";
    })
    new_id ← fresh w
    attempt_id ← store w (
        start_attempt
          (record {
            job_id = x.job_id;
            task_id = x.task_id;
            number = attempt_number;
            agent = agent_name;
            worktree = x.place.worktree;
            branch = x.place.branch;
            log_path = w.log_path x.job_id task.logical_id attempt_number agent_name;
          })
          new_id)
    emit w x.job_id "task.attempt_started"
        (count "attempt" attempt_number ∷ entry "agent" agent_name ∷ []) (some x.task_id)
    launched ← launch w x task attempt_id agent_name context
    judge x task attempt_number agent_name attempt_id launched

  -- After the loop: the task has failed.
  unfoldable pub exhaust : Site → String → Run Bool
  exhaust x budget = do
    task ← store w (λ _. get_task x.task_id)
    let error = or_text task.last_error budget
    set_task w x.task_id
        (record no_task_fields { state = some TaskState.failed; last_error = some error })
    emit w x.job_id "task.failed" (entry "error" error ∷ []) (some x.task_id)
    pure false

  -- `for attempt_number in range(first_attempt, last_attempt + 1)`
  unfoldable pub run_attempts : Site → String → ℕ → ℕ → String → Run Bool
  run_attempts x budget zero attempt_number context = exhaust x budget
  run_attempts x budget (suc left) attempt_number context =
      run_attempt x attempt_number context >>= λ outcome. elim outcome [
        | none ↦ pure true
        | some next ↦ run_attempts x budget left (suc attempt_number) next
      ]

  abbrev pub budget_text : ℕ → ℕ → String
  budget_text first attempts = join_texts "" (
      "exhausted attempt budget "
      ∷ w.show_nat first
      ∷ "-"
      ∷ w.show_nat (first + attempts - 1)
      ∷ " ("
      ∷ w.show_nat attempts
      ∷ " attempts this run)"
      ∷ [])

  unfoldable pub run_task_with_slot : String → String → String → Run Bool
  run_task_with_slot job_id task_id integration_path = do
    task ← store w (λ _. get_task task_id)
    job ← store w (λ _. get_job job_id)
    place ← prepare_worktree w job_id task integration_path
    run_attempts
        (record {
          job_id = job_id;
          task_id = task_id;
          goal = job.goal;
          place = place;
          integration_path = integration_path;
        })
        (budget_text (suc task.attempts) w.config.engine.max_attempts) w.config.engine.max_attempts
        (suc task.attempts) task.last_error
