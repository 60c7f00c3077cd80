-- ===== src/Execution/Integrate.antt =====
-- The merge of a task in src/omarchy_yolo/orchestrator_integration.py: its gates, the resolution of
-- a conflict by an agent, the repair, and the rollback.
use omarchy_yolo.Prelude.{
  String, Bool, true, false, ◌&&◌, Option, none, some, List, [], ◌∷◌, map, nat_eq, string_eq, elem,
  all, is_empty, length, leb, append_text, if◌then◌else◌,
}
use omarchy_yolo.Prelude.Fallible.{Fallible, returns, raises}
use omarchy_yolo.Model.{TaskState, TaskRecord}
use omarchy_yolo.Agents.{
  AgentRole, AgentResult, AgentError, GateResult, agent_ok, gate_ok, choose_role,
}
use omarchy_yolo.Db.Rows.{PayloadValue}
use omarchy_yolo.Db.Mutations.{no_task_fields, update_task}
use omarchy_yolo.Db.Records.{entry, get_job}
use omarchy_yolo.Execution.Runs.{
  Failure, cancelled, merge_conflict, git_error, other, describe, GateScope, Effect, gated, merging,
  resetting, aborting, waited, World, Run, pure, raise, catching, excepting, store, await, git,
  lock, emit, ◌>>=◌, ◌>>◌,
}

-- `except MergeConflict as exc`
abbrev pub on_conflict : {A : Type 0} → (String → Run A) → Failure → Run A
on_conflict handler cancelled = raise cancelled
on_conflict handler (merge_conflict e) = handler e
on_conflict handler (git_error e) = raise (git_error e)
on_conflict handler (other e) = raise (other e)

-- `except GitError: pass`
abbrev pub on_git_error : {A : Type 0} → Run A → Failure → Run A
on_git_error handler cancelled = raise cancelled
on_git_error handler (merge_conflict e) = handler
on_git_error handler (git_error e) = handler
on_git_error handler (other e) = raise (other e)

abbrev pub gates_ok : List GateResult → Bool
gates_ok results = all gate_ok results

abbrev pub gate_effect : GateScope → Fallible Failure (List GateResult) → Effect
gate_effect scope (returns results) = gated scope (gates_ok results)
gate_effect scope (raises e) = gated scope false

abbrev pub flag : String → Bool → record { key : String; value : PayloadValue }
flag key value = record { key = key; value = PayloadValue.boolean value }

-- The outcome of a merge: whether it stands, and the feedback.
pub record Merge : Type 0 where
  pub integrated : Bool
  pub feedback : String

module _ (w : World) where
  abbrev pub agent_failure : AgentError → Failure
  agent_failure (AgentError.role_unsatisfied role) = other "no configured agent satisfies the role"
  agent_failure AgentError.no_review_agent =
      other "no configured agent has a declared read-only review capability"
  agent_failure AgentError.no_agent = other "no configured coding agent CLI is available"

  abbrev pub of_choice : Fallible AgentError String → Run String
  of_choice (returns name) = pure name
  of_choice (raises e) = raise (agent_failure e)

  -- `self.registry.choose_role(candidate, worker_agents, role=role)`
  abbrev pub role_agent : String → AgentRole → Run String
  role_agent candidate role =
      of_choice (choose_role w.registry candidate w.config.engine.worker_agents none (some role))

  -- `_run_gates`; `configured` are the commands of the scope. The event leaves out durations and the
  -- list of single results.
  unfoldable pub run_gates :
      String → String → Option String → String → GateScope → List String → Run (List GateResult)
  run_gates job_id label task_id cwd scope configured = do
    commands ←
        if is_empty configured
        then await w (λ log. w.detect_gate_commands log cwd) (λ _. waited "detect_gate_commands")
        else pure configured
    results ← await w (λ log. w.run_gates log commands cwd) (gate_effect scope)
    emit w job_id "gates.completed"
        (entry "scope" label
          ∷ record { key = "commands"; value = PayloadValue.texts (map (λ r. r.command) results) }
          ∷ flag "ok" (gates_ok results)
          ∷ [])
        task_id
    pure results

  abbrev pub repair_agent : String → String → String → Run AgentResult
  repair_agent job_id issue agent_name = do
    job ← store w (λ _. get_job job_id)
    await w (λ log. w.run_agent log agent_name (w.repair_prompt job.goal issue))
        (λ _. waited "run_agent")

  -- `finish_merge`, tried where nothing is unresolved: whether it went through.
  abbrev pub try_finish : String → Bool → Run Bool
  try_finish path false = pure false
  try_finish path true =
      catching (git w "finish_merge" (path ∷ []) >> pure true) (on_git_error (pure false))

  abbrev pub unresolved : String → Run (List String)
  unresolved path = await w (λ log. w.git_files log path) (λ _. waited "unresolved_files")

  -- After a successful agent: the merge is finished, and nothing is unresolved.
  unfoldable pub finish_resolution : String → TaskRecord → String → String → Run Bool
  finish_resolution job_id task path agent_name =
      catching
        (do
          git w "finish_merge" (path ∷ [])
          left ← unresolved path
          if is_empty left
              then (emit w job_id "integration.conflict_resolved" (entry "agent" agent_name ∷ [])
                    (some task.id)
                  >> pure true)
              else pure false)
        (on_git_error (pure false))

  -- One cycle of `_resolve_merge_conflict`.
  unfoldable pub resolve_cycle : String → TaskRecord → String → String → Run Bool
  resolve_cycle job_id task path original_error = do
    files ← unresolved path
    finished ← try_finish path (is_empty files)
    let issue = w.merge_issue task original_error files
    if finished then pure true else do
      agent_name ← role_agent w.config.engine.integrator_agent AgentRole.integrator
      result ← repair_agent job_id issue agent_name
      if agent_ok result then finish_resolution job_id task path agent_name else pure false

  unfoldable pub resolve_merge_conflict : String → TaskRecord → String → String → Run Bool
  resolve_merge_conflict job_id task path original_error = do
    first ← resolve_cycle job_id task path original_error
    if first then pure true else resolve_cycle job_id task path original_error

  -- The body of the loop of `_repair_integration`, once the agent is chosen.
  unfoldable pub repair_by : String → String → String → Option String → String → Run Bool
  repair_by job_id path issue task_id agent_name = do
    result ← repair_agent job_id issue agent_name
    if agent_ok result
        then (do
          git w "commit_all" (path ∷ [])
          emit w job_id "integration.repaired" (entry "agent" agent_name ∷ []) task_id
          pure true)
        else pure false

  abbrev pub repair_error : String → Option String → Failure → Run Bool
  repair_error job_id task_id e =
      emit w job_id "integration.repair_error" (entry "error" (describe e) ∷ []) task_id
      >> pure false

  -- `seen` is `actual_seen`: at most three agents try, each once.
  unfoldable pub repair_integration :
      String → String → String → Option String → List String → List String → Run Bool
  repair_integration job_id path issue task_id seen [] = pure false
  repair_integration job_id path issue task_id seen (candidate ∷ candidates) =
      if leb 3 (length seen)
      then pure false
      else elim (choose_role w.registry candidate w.config.engine.worker_agents none
          (some AgentRole.integrator)) [
            | raises e ↦ do
              _ ← repair_error job_id task_id (agent_failure e)
              repair_integration job_id path issue task_id seen candidates
            | returns agent_name ↦
                if elem agent_name seen
                then repair_integration job_id path issue task_id seen candidates
                else do
                  repaired ←
                      excepting (repair_by job_id path issue task_id agent_name)
                        (repair_error job_id task_id)
                  if repaired
                      then pure true
                      else repair_integration job_id path issue task_id (agent_name ∷ seen)
                          candidates
          ]

  -- Whether the merge stands, or is resolved; a failed resolution is aborted.
  unfoldable pub merge_or_resolve : String → TaskRecord → String → Run Bool
  merge_or_resolve job_id task path =
      catching
        (await w (λ log. w.git log "merge" (path ∷ task.branch ∷ [])) (λ _. merging) >> pure true)
        (on_conflict λ e. do
          emit w job_id "integration.conflict" (entry "error" e ∷ []) (some task.id)
          resolved ← resolve_merge_conflict job_id task path e
          if resolved
              then pure true
              else (await w (λ log. w.git log "abort_merge" (path ∷ [])) (λ _. aborting)
                  >> pure false))

  abbrev pub task_gates : String → TaskRecord → String → GateScope → Run (List GateResult)
  task_gates job_id task path scope =
      run_gates job_id task.logical_id (some task.id) path scope w.config.gates.commands

  abbrev pub reset_hard : String → String → Run (Unit {0})
  reset_hard path commit =
      await w (λ log. w.git log "reset_hard" (path ∷ commit ∷ [])) (λ _. resetting)

  -- The gates after the merge, with one repair.
  unfoldable pub gates_or_repair :
      String → TaskRecord → String → List GateResult → String → Run Bool
  gates_or_repair job_id task path results issue = if gates_ok results then pure true else do
    repaired ←
        repair_integration job_id path issue (some task.id) []
          (w.config.engine.integrator_agent ∷ w.config.engine.worker_agents)
    again ← if repaired then task_gates job_id task path GateScope.merge_repaired else pure results
    pure (repaired && gates_ok again)

  unfoldable pub check_merge : String → TaskRecord → String → String → Run Merge
  check_merge job_id task path pre_merge = do
    results ← task_gates job_id task path GateScope.merged
    let issue = append_text "Post-merge integration gates failed:\n" (w.format_gates results)
    good ← gates_or_repair job_id task path results issue
    if good
        then (do
          head ← await w (λ log. w.git_text log "head" (path ∷ [])) (λ _. waited "head")
          emit w job_id "integration.completed"
              (entry "task" task.logical_id ∷ entry "head" head ∷ []) (some task.id)
          pure record { integrated = true; feedback = "" })
        else (do
          reset_hard path pre_merge
          emit w job_id "integration.rolled_back" (entry "task" task.logical_id ∷ []) (some task.id)
          pure record { integrated = false; feedback = issue })

  -- `except BaseException`: the rollback, whose own failure replaces the exception, and the raise.
  -- `finish_before_cancel` keeps a cancellation from the rollback and raises it afterwards.
  unfoldable pub roll_back : String → String → Failure → Run Merge
  roll_back path pre_merge e = do
    catching (await w (λ log. w.git log "abort_merge" (path ∷ [])) (λ _. aborting)) (λ _. pure tt)
    reset_hard path pre_merge
    lock w "finish_before_cancel"
    raise e

  unfoldable pub integrate_task : String → TaskRecord → String → Run Merge
  integrate_task job_id task path = do
    lock w "merge_lock"
    lock w "repo_lock"
    store w (update_task task.id (record no_task_fields { state = some TaskState.integrating }))
    pre_merge ← await w (λ log. w.git_text log "head" (path ∷ [])) (λ _. waited "head")
    catching
        (do
          standing ← merge_or_resolve job_id task path
          if standing
              then check_merge job_id task path pre_merge
              else pure record {
                integrated = false;
                feedback = "Integration merge conflict could not be resolved autonomously.";
              })
        (roll_back path pre_merge)
