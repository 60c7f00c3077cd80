-- ===== src/Execution/Worktrees.antt =====
-- The choice of a worker and the worktree of a task in src/omarchy_yolo/orchestrator_task.py.
use Prim.Native.Nat.{◌*◌, ◌%◌}
use omarchy_yolo.Prelude.{
  ℕ, zero, suc, ◌+◌, ◌-◌, String, Bool, false, not, ◌&&◌, Option, none, some, List, [], ◌∷◌, ◌==◌,
  nat_eq, string_eq, elem, is_empty, length, append_text, if◌then◌else◌,
}
use omarchy_yolo.Prelude.Fallible.{Fallible, returns, raises}
use omarchy_yolo.Prelude.Tables.{select}
use omarchy_yolo.Config.Values.{Entries}
use omarchy_yolo.Model.{TaskRecord}
use omarchy_yolo.Agents.{
  AgentRole, Agent, AgentResult, AgentError, GateResult, ReviewResult, agent_ok, passed, available,
  first_available,
}
use omarchy_yolo.Reviews.{ReviewError, read_review}
use omarchy_yolo.Db.Rows.{PayloadValue}
use omarchy_yolo.Db.Mutations.{TaskFields, no_task_fields, update_task}
use omarchy_yolo.Db.Records.{entry}
use omarchy_yolo.Execution.Runs.{
  Failure, other, Effect, worker_ran, task_reviewed, waited, World, Run, pure, store, await, git,
  lock, emit, ◌>>=◌, ◌>>◌,
}

-- `a or b`, of texts
abbrev pub or_text : String → String → String
or_text a b = if a == "" then b else a

-- `separator.join(texts)`
abbrev pub join_texts : String → List String → String
join_texts separator [] = ""
join_texts separator (t ∷ []) = t
join_texts separator (t ∷ u ∷ ts) =
    append_text t (append_text separator (join_texts separator (u ∷ ts)))

-- `xs[i]`, or `default` out of range
abbrev pub nth : List String → ℕ → String → String
nth [] i default = default
nth (x ∷ xs) zero default = x
nth (x ∷ xs) (suc i) default = nth xs i default

abbrev pub is_preferred : Option String → List String → Bool
is_preferred none workers = false
is_preferred (some name) workers = not (name == "") && elem name workers

-- `_choose_worker`. A multiple of the length keeps the index from stopping at 0, as Python's % of a
-- negative number does not.
unfoldable pub choose_worker :
    List Agent → List String → TaskRecord → ℕ → Fallible AgentError String
choose_worker registry worker_agents task attempt_number =
    let workers = available registry none (some AgentRole.worker) in
    let candidates = select (λ name. elem name workers) worker_agents in
    let n = length candidates in
    let fallback = first_available registry worker_agents none (some AgentRole.worker) in
    if is_preferred task.preferred_agent workers
    then returns (elim task.preferred_agent [ none ↦ "" | some name ↦ name ])
    else if is_empty candidates
    then fallback
    else returns (nth candidates ((task.seq + attempt_number + 2 * n - 2) % n) "")

-- The worktree of a task.
pub record Place : Type 0 where
  pub branch : String
  pub worktree : String
  pub base_commit : String

abbrev pub worker_effect : String → Fallible Failure AgentResult → Effect
worker_effect agent (returns r) = worker_ran agent (agent_ok r)
worker_effect agent (raises e) = worker_ran agent false

abbrev pub review_effect : Fallible Failure ReviewResult → Effect
review_effect (returns r) = task_reviewed (passed r)
review_effect (raises e) = waited "review"

abbrev pub count : String → ℕ → record { key : String; value : PayloadValue }
count key value = record { key = key; value = PayloadValue.number value }

-- What is fixed for the attempts of one task.
pub record Site : Type 0 where
  pub job_id : String
  pub task_id : String
  pub goal : String
  pub place : Place
  pub integration_path : String

module _ (w : World) where
  abbrev pub review_answer : Fallible ReviewError ReviewResult → Fallible Failure ReviewResult
  review_answer (returns r) = returns r
  review_answer (raises e) = raises (other (w.review_message e))

  abbrev pub read_payload : Fallible Failure Entries → Fallible Failure ReviewResult
  read_payload (raises e) = raises e
  read_payload (returns es) = review_answer (read_review w.lower es)

  -- `Reviewer._run`, on what the agent answered.
  abbrev pub parse_answer : Fallible Failure AgentResult → Fallible Failure ReviewResult
  parse_answer (raises e) = raises e
  parse_answer (returns r) =
      if not (agent_ok r)
      then raises (other (w.exit_message r))
      else read_payload (w.extract_json_object r.stdout)

  -- `Reviewer.review_task`
  abbrev pub review_task :
      String → TaskRecord → String → List GateResult → String → Run ReviewResult
  review_task goal task diff gates agent_name =
      await w
        (λ log. parse_answer (w.run_agent log agent_name (w.review_prompt goal task diff gates)))
        review_effect

  abbrev pub set_task : String → TaskFields → Run (Unit {0})
  set_task task_id fields = store w (update_task task_id fields)

  -- The name of the new worktree and its branch.
  abbrev pub worktree_path : String → TaskRecord → String
  worktree_path job_id task = w.path (
      w.worktrees_dir
      ∷ job_id
      ∷ append_text "task-"
          (append_text (w.show_nat task.seq) (append_text "-" (w.slug task.logical_id)))
      ∷ [])

  abbrev pub branch_name : String → TaskRecord → String
  branch_name job_id task =
      join_texts "/" (w.config.git.branch_prefix ∷ job_id ∷ w.slug task.logical_id ∷ [])

  abbrev pub head : String → Run String
  head path = await w (λ log. w.git_text log "head" (path ∷ [])) (λ _. waited "head")

  abbrev pub place_payload : Place → List (record { key : String; value : PayloadValue })
  place_payload p =
      entry "branch" p.branch ∷ entry "path" p.worktree ∷ entry "base" p.base_commit ∷ []

  unfoldable pub recover_worktree : String → TaskRecord → String → Run Place
  recover_worktree job_id task integration_path = do
    base ← if task.base_commit == "" then head integration_path else pure task.base_commit
    let worktree = or_text task.worktree (worktree_path job_id task)
    let place : Place = record { branch = task.branch; worktree = worktree; base_commit = base }
    lock w "merge_lock"
    lock w "repo_lock"
    git w "ensure_existing_branch_worktree" (worktree ∷ task.branch ∷ base ∷ [])
    set_task task.id (record no_task_fields { worktree = some worktree; base_commit = some base })
    emit w job_id "task.worktree_recovered" (place_payload place) (some task.id)
    pure place

  unfoldable pub create_worktree : String → TaskRecord → String → Run Place
  create_worktree job_id task integration_path = do
    lock w "merge_lock"
    lock w "repo_lock"
    base ← head integration_path
    let branch = branch_name job_id task
    let worktree = worktree_path job_id task
    let place : Place = record { branch = branch; worktree = worktree; base_commit = base }
    git w "ensure_worktree" (worktree ∷ branch ∷ base ∷ [])
    set_task task.id (record no_task_fields {
      branch = some branch;
      worktree = some worktree;
      base_commit = some base;
    })
    emit w job_id "task.worktree_created" (place_payload place) (some task.id)
    pure place

  unfoldable pub prepare_worktree : String → TaskRecord → String → Run Place
  prepare_worktree job_id task integration_path = do
    branch_exists ←
        if task.branch == ""
        then pure false
        else await w (λ log. w.branch_exists log task.branch) (λ _. waited "branch_exists")
    if branch_exists
        then recover_worktree job_id task integration_path
        else create_worktree job_id task integration_path
