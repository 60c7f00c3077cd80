-- ===== src/Execution/Calls.antt =====
-- What an attempt of src/omarchy_yolo/orchestrator_task.py calls: the worker, the review, the cleanup,
-- and the end of a failed attempt.
use omarchy_yolo.Prelude.{
  ℤ, String, Option, none, some, List, [], ◌∷◌, ◌++◌, nat_eq, string_eq, elem, append_text,
  last_text, if◌then◌else◌,
}
use omarchy_yolo.Prelude.Fallible.{Fallible, returns, raises}
use omarchy_yolo.Model.{TaskState, AttemptState, TaskRecord}
use omarchy_yolo.Agents.{AgentRole, AgentResult, GateResult, ReviewResult, choose_role}
use omarchy_yolo.Db.Rows.{PayloadValue}
use omarchy_yolo.Db.Mutations.{no_task_fields, finish_attempt}
use omarchy_yolo.Db.Records.{entry}
use omarchy_yolo.Execution.Runs.{
  Failure, cancelled, merge_conflict, git_error, other, describe, waited, World, Run, pure, raise,
  catching, excepting, store, await, git, lock, emit, ◌>>=◌, ◌>>◌,
}
use omarchy_yolo.Execution.Integrate.{agent_failure}
use omarchy_yolo.Execution.Worktrees.{worker_effect, Site, review_task, set_task}

module _ (w : World) where
  -- The end of a failed attempt: the task is pending again, and `context` goes to the next one.
  unfoldable pub reject : Site → String → Option ℤ → String → Run (Unit {0}) → Run (Option String)
  reject x attempt_id returncode context announce = do
    store w (finish_attempt attempt_id AttemptState.failed returncode (last_text 4000 context))
    set_task w x.task_id (record no_task_fields {
      state = some TaskState.pending;
      last_error = some (last_text 8000 context);
    })
    announce
    pure (some context)

  abbrev pub launch_error : Site → String → String → Run (Fallible String AgentResult)
  launch_error x attempt_id e = do
    let context = append_text "Agent launch failed: " e
    store w (finish_attempt attempt_id AttemptState.failed none context)
    set_task w x.task_id
        (record no_task_fields { state = some TaskState.pending; last_error = some context })
    emit w x.job_id "task.agent_error" (entry "error" e ∷ []) (some x.task_id)
    pure (raises context)

  -- What the worker's agent returned, or the context that its exception leaves.
  unfoldable pub launch_failed : Site → String → Failure → Run (Fallible String AgentResult)
  launch_failed x attempt_id cancelled = do
    store w (finish_attempt attempt_id AttemptState.cancelled none "cancelled")
    raise cancelled
  launch_failed x attempt_id (merge_conflict e) = launch_error x attempt_id e
  launch_failed x attempt_id (git_error e) = launch_error x attempt_id e
  launch_failed x attempt_id (other e) = launch_error x attempt_id e

  unfoldable pub launch :
      Site → TaskRecord → String → String → String → Run (Fallible String AgentResult)
  launch x task attempt_id agent_name context =
      catching
        (do
          result ←
              await w (λ log. w.run_agent log agent_name (w.worker_prompt x.goal task context))
                (worker_effect agent_name)
          pure (returns result))
        (launch_failed x attempt_id)

  -- The loop of `_review_task_resilient`. `errors` are the candidates' exceptions so far.
  abbrev pub review_by : Site → TaskRecord → String → List GateResult → String → Run ReviewResult
  review_by x task diff gates agent_name = do
    review ← review_task w x.goal task diff gates agent_name
    emit w x.job_id "task.reviewed"
        (entry "agent" agent_name
          ∷ entry "verdict" review.verdict
          ∷ record { key = "findings"; value = PayloadValue.texts review.findings }
          ∷ [])
        (some task.id)
    pure review

  -- A review, or the text of the exception of its candidate.
  abbrev pub try_review :
      Site → TaskRecord → String → List GateResult → String → Run (Fallible String ReviewResult)
  try_review x task diff gates agent_name =
      excepting (review_by x task diff gates agent_name >>= λ r. pure (returns r))
        (λ e. pure (raises (describe e)))

  abbrev pub candidate_error : String → String → String
  candidate_error candidate e = append_text candidate (append_text ": " e)

  unfoldable pub review_candidates :
      Site
      → TaskRecord
      → String
      → List GateResult
      → List String
      → List String
      → List String
      → Run ReviewResult
  review_candidates x task diff gates tried errors [] =
      pure record { verdict = "retry"; summary = "review infrastructure failed"; findings = errors }
  review_candidates x task diff gates tried errors (candidate ∷ rest) =
      elim (choose_role w.registry candidate w.config.engine.worker_agents none
        (some AgentRole.reviewer)) [
          | raises e ↦
              review_candidates x task diff gates tried
                (errors ++ candidate_error candidate (describe (agent_failure w e)) ∷ []) rest
          | returns agent_name ↦
              if elem agent_name tried
              then review_candidates x task diff gates tried errors rest
              else do
                answer ← try_review x task diff gates agent_name
                elim answer [
                  | returns review ↦ pure review
                  | raises e ↦
                      review_candidates x task diff gates (agent_name ∷ tried)
                        (errors ++ candidate_error candidate e ∷ []) rest
                ]
        ]

  unfoldable pub review_task_resilient : Site → TaskRecord → List GateResult → Run ReviewResult
  review_task_resilient x task gates = do
    diff ←
        await w (λ log. w.git_text log "diff" (x.place.worktree ∷ task.base_commit ∷ []))
          (λ _. waited "diff")
    review_candidates x task diff gates [] []
        (w.config.engine.reviewer_agent ∷ w.config.engine.worker_agents)

  abbrev pub cleanup_payload : Site → List (record { key : String; value : PayloadValue })
  cleanup_payload x = entry "branch" x.place.branch ∷ entry "path" x.place.worktree ∷ []

  abbrev pub cleanup_error : Site → String → Run (Unit {0})
  cleanup_error x e =
      emit w x.job_id "task.cleanup_failed" (entry "error" (last_text 4000 e) ∷ cleanup_payload x)
        (some x.task_id)

  unfoldable pub cleanup_failed : Site → Failure → Run (Unit {0})
  cleanup_failed x cancelled =
      emit w x.job_id "task.cleanup_interrupted" (cleanup_payload x) (some x.task_id)
      >> raise cancelled
  cleanup_failed x (merge_conflict e) = cleanup_error x e
  cleanup_failed x (git_error e) = cleanup_error x e
  cleanup_failed x (other e) = cleanup_error x e

  unfoldable pub remove_worktree : Site → Run (Unit {0})
  remove_worktree x =
      if w.config.engine.cleanup_worktrees
      then catching
          (do
            lock w "repo_lock"
            git w "remove_worktree" (x.place.worktree ∷ [])
            git w "delete_branch" (x.place.branch ∷ []))
          (cleanup_failed x)
      else pure tt
