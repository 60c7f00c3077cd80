-- ===== src/Execution/Budget.antt =====
-- The whole run of a task: its attempts stay in their budget, and it is
-- merged only after its worker, its gates and its review have passed.
use omarchy_yolo.Prelude.{
  ℕ, zero, suc, ◌≤◌, ◌+◌, String, ◌≡◌, refl, Bool, true, false, Option, none, some, [], arith,
  nat_eq, string_eq,
}
use omarchy_yolo.Prelude.Fallible.{Fallible, returns, raises}
use omarchy_yolo.Model.{TaskRecord}
use omarchy_yolo.Agents.{AgentResult, agent_ok}
use omarchy_yolo.Db.Rows.{Database}
use omarchy_yolo.Db.Commits.{IsConsistent}
use omarchy_yolo.Db.Soundness.{start_attempt-Keeps}
use omarchy_yolo.Execution.Runs.{
  Failure, cancelled, merge_conflict, git_error, other, Log, State, World, Run, pure,
}
use omarchy_yolo.Execution.Worktrees.{Site, worker_effect}
use omarchy_yolo.Execution.Calls.{launch_error, launch_failed, launch}
use omarchy_yolo.Execution.Attempts.{judge, run_attempt, exhaust, run_attempts, run_task_with_slot}
use omarchy_yolo.Execution.Discipline.{
  In, Any, IsAllowed, cost, advance, IsDisciplined, stage, worker_runs,
}
use omarchy_yolo.Execution.Rules.{
  Ends, Leads, Leads-pure, Leads-raise, Leads-if, Leads-map, Leads-catching, Leads-bind, In-map,
  Steady, Leads-Steady, Steady-pure, Steady-raise, Steady-if, Steady-store, Steady-fresh,
  Leads-await, Steady-emit,
}
use omarchy_yolo.Execution.Merges.{
  get_job-Keeps, Stands, Steady-update, Steady-of_choice, Steady-get_task,
}
use omarchy_yolo.Execution.Reviewed.{
  Landed, Leads-steady, Leads-done, Steady-finish, Steady-prepare_worktree, Leads-reject,
}
use omarchy_yolo.Execution.Ordered.{Leads-gate_then_review}

module _ (w : World) where
  -- After a worker that was launched.
  abbrev Launched : Fallible String AgentResult → ℕ → Type 0
  Launched (returns r) k = agent_ok r ≡ true → k ≡ 1
  Launched (raises e) k = Unit

  Leads-judge :
      (x : Site) (task : TaskRecord) (number : ℕ) (agent attempt_id : String)
      (o : Fallible String AgentResult) (n : ℕ)
      → Leads
          (In Any n)
          (In (Launched o) n)
          (λ o. In (Landed o) n)
          (judge w x task number agent attempt_id o)
  unfolding judge
  Leads-judge x task number agent attempt_id (raises context) n =
      Leads-done Any Any Landed n (some context) (λ k h. h)
  Leads-judge x task number agent attempt_id (returns r) n =
      Leads-if _ _ _ (agent_ok r) _ _
        (λ yes.
          Leads-map _ _ (In (λ k. k ≡ 1) n) _ _ _ _ (λ s h. h)
            (λ s h. In-map (Launched (returns r)) (λ k. k ≡ 1) n n s (omega arith) (λ k f. f yes) h)
            (λ a s h. h) (Leads-gate_then_review w x task number agent attempt_id n))
        (λ no. Leads-reject w x attempt_id _ _ _ (Launched (returns r)) n (Steady-emit w _ _ _ _))

  Leads-launch_error :
      (x : Site) (attempt_id e : String) (n : ℕ)
      → Leads (In Any n) (In Any n) (λ o. In (Launched o) n) (launch_error w x attempt_id e)
  Leads-launch_error x attempt_id e n =
      Leads-bind _ _ (λ _. In Any n) (λ o. In (Launched o) n) _ _
        (Leads-steady Any Any n _ (Steady-finish w _ _ _ _) (λ k h. h))
        λ _.
          Leads-bind _ _ (λ _. In Any n) (λ o. In (Launched o) n) _ _
            (Leads-steady Any Any n _ (Steady-update w _ _) (λ k h. h))
            λ _.
              Leads-bind _ _ (λ _. In Any n) (λ o. In (Launched o) n) _ _
                (Leads-steady Any Any n _ (Steady-emit w _ _ _ _) (λ k h. h))
                λ _. Leads-done Any Any Launched n _ (λ k h. h)

  Leads-launch_failed :
      (x : Site) (attempt_id : String) (e : Failure) (n : ℕ)
      → Leads (In Any n) (In Any n) (λ o. In (Launched o) n) (launch_failed w x attempt_id e)
  unfolding launch_failed
  Leads-launch_failed x attempt_id cancelled n =
      Leads-bind _ _ (λ _. In Any n) (λ o. In (Launched o) n) _ _
        (Leads-steady Any Any n _ (Steady-finish w _ _ _ _) (λ k h. h))
        λ _. Leads-raise _ _ _ cancelled (λ s h. h)
  Leads-launch_failed x attempt_id (merge_conflict e) n = Leads-launch_error x attempt_id e n
  Leads-launch_failed x attempt_id (git_error e) n = Leads-launch_error x attempt_id e n
  Leads-launch_failed x attempt_id (other e) n = Leads-launch_error x attempt_id e n

  Leads-launch :
      (x : Site) (task : TaskRecord) (attempt_id agent context : String) (n : ℕ)
      → Leads
          (In Any (suc n))
          (In Any n)
          (λ o. In (Launched o) (suc n))
          (launch w x task attempt_id agent context)
  unfolding launch
  Leads-launch x task attempt_id agent context n =
      Leads-catching (In Any (suc n)) _ _ _ _ _
        (Leads-bind _ _ (λ r. In (Launched (returns r)) (suc n)) (λ o. In (Launched o) (suc n)) _ _
          (Leads-await w Any Any (λ r. Launched (returns r)) n (suc n) _ _ allowed launched
            (λ e k h. tt))
          λ r. Leads-done (Launched (returns r)) Any Launched (suc n) (returns r) (λ k h. h))
        (λ e. Leads-launch_failed x attempt_id e (suc n))
    where
      allowed :
          (o : Fallible Failure AgentResult) (k : ℕ)
          → Any k
          → IsAllowed (worker_effect agent o) k × (cost (worker_effect agent o) + n ≤ suc n)
      allowed (returns r) k e = (tt, omega arith)
      allowed (raises f) k e = (tt, omega arith)

      launched :
          (r : AgentResult) (k : ℕ)
          → Any k
          → Launched (returns r) (advance (worker_effect agent (returns r)) k)
      launched r k u good = rw good refl

  Leads-run_attempt :
      (x : Site) (number : ℕ) (context : String) (n : ℕ)
      → Leads
          (In Any (suc n))
          (In Any n)
          (λ o. In (Landed o) (suc n))
          (run_attempt w x number context)
  unfolding run_attempt
  Leads-run_attempt x number context n =
      Leads-bind _ _ (λ _. In Any n) (λ o. In (Landed o) (suc n)) _ _
        (begun _ (Steady-store w _ λ _. get_job-Keeps x.job_id))
        λ job.
          Leads-bind _ _ (λ _. In Any n) (λ o. In (Landed o) (suc n)) _ _
            (begun _ (Steady-if _ _ _ (Steady-raise cancelled) (Steady-pure tt)))
            λ _.
              Leads-bind _ _ (λ _. In Any n) (λ o. In (Landed o) (suc n)) _ _
                (begun _ (Steady-get_task w _))
                λ task.
                  Leads-bind _ _ (λ _. In Any n) (λ o. In (Landed o) (suc n)) _ _
                    (begun _ (Steady-of_choice w _))
                    λ agent.
                      Leads-bind _ _ (λ _. In Any n) (λ o. In (Landed o) (suc n)) _ _
                        (begun _ (Steady-update w _ _))
                        λ _.
                          Leads-bind _ _ (λ _. In Any n) (λ o. In (Landed o) (suc n)) _ _
                            (begun _ (Steady-fresh w))
                            λ id.
                              Leads-bind _ _ (λ _. In Any n) (λ o. In (Landed o) (suc n)) _ _
                                (begun _ (Steady-store w _ λ now. start_attempt-Keeps _ id now))
                                λ attempt_id.
                                  Leads-bind _ _ (λ _. In Any n) (λ o. In (Landed o) (suc n)) _ _
                                    (begun _ (Steady-emit w _ _ _ _))
                                    λ _.
                                      Leads-bind _ _ (λ o. In (Launched o) (suc n))
                                        (λ o. In (Landed o) (suc n)) _ _
                                        (Leads-launch x task attempt_id agent context n)
                                        λ launched.
                                          Leads-judge x task number agent attempt_id launched
                                            (suc n)
    where
      begun :
          {A : Type 0} (m : Run A) → Steady m → Leads (In Any (suc n)) (In Any n) (λ _. In Any n) m
      begun m h =
          Leads-Steady _ Any n m h λ s p. In-map Any Any n (suc n) s (omega arith) (λ k u. tt) p

  Leads-exhaust :
      (x : Site) (budget : String) (n : ℕ)
      → Leads (In Any n) (In Any n) (λ b. In (Stands b) n) (exhaust w x budget)
  unfolding exhaust
  Leads-exhaust x budget n =
      Leads-bind _ _ (λ _. In Any n) (λ b. In (Stands b) n) _ _
        (Leads-steady Any Any n _ (Steady-get_task w _) (λ k h. h))
        λ task.
          Leads-bind _ _ (λ _. In Any n) (λ b. In (Stands b) n) _ _
            (Leads-steady Any Any n _ (Steady-update w _ _) (λ k h. h))
            λ _.
              Leads-bind _ _ (λ _. In Any n) (λ b. In (Stands b) n) _ _
                (Leads-steady Any Any n _ (Steady-emit w _ _ _ _) (λ k h. h))
                λ _. Leads-done Any Any Stands n false (λ k u e. cc)

  -- The loop over the attempts that are left.
  Leads-run_attempts :
      (x : Site) (budget : String) (left number : ℕ) (context : String) (n : ℕ)
      → Leads
          (In Any (n + left))
          (In Any n)
          (λ b. In (Stands b) (n + left))
          (run_attempts w x budget left number context)
  unfolding run_attempts
  Leads-run_attempts x budget zero number context n =
      Leads-map _ _ _ _ _ _ _ (λ s h. In-map Any Any n (n + 0) s (omega arith) (λ k u. tt) h)
        (λ s h. h) (λ b s h. In-map (Stands b) (Stands b) n (n + 0) s (omega arith) (λ k f. f) h)
        (Leads-exhaust x budget n)
  Leads-run_attempts x budget (suc left) number context n =
      Leads-bind _ _ (λ o. In (Landed o) (suc n)) (λ b. In (Stands b) (n + suc left)) _ _
        (Leads-map _ _ _ _ _ _ _
          (λ s h. In-map Any Any (suc n) (n + suc left) s (omega arith) (λ k u. tt) h) (λ s h. h)
          (λ o s h. h) (Leads-run_attempt x number context n))
        (next λ ctx. Leads-run_attempts x budget left (suc number) ctx (suc n))
    where
      next :
          ((ctx : String)
            → Leads
                (In Any (suc n + left))
                (In Any (suc n))
                (λ b. In (Stands b) (suc n + left))
                (run_attempts w x budget left (suc number) ctx))
          → (o : Option String)
          → Leads
              (In Any (n + suc left))
              (In (Landed o) (suc n))
              (λ b. In (Stands b) (n + suc left))
              (elim o [
                | none ↦ pure true
                | some ctx ↦ run_attempts w x budget left (suc number) ctx
              ])
      next again none = Leads-pure _ _ _ true λ s h.
          In-map (λ k. k ≡ 4) (Stands true) (suc n) (n + suc left) s (omega arith) (λ k h _. h) h
      next again (some ctx) =
          Leads-map _ _ (In Any (suc n)) _ _ _ _
            (λ s h. In-map Any Any (suc n + left) (n + suc left) s (omega arith) (λ k u. tt) h)
            (λ s h. h)
            (λ b s h.
              In-map (Stands b) (Stands b) (suc n + left) (n + suc left) s (omega arith) (λ k f. f)
                h)
            (again ctx)

  Leads-run_task :
      (job_id task_id path : String)
      → Leads
          (In Any w.config.engine.max_attempts)
          (In Any 0)
          (λ b. In (Stands b) w.config.engine.max_attempts)
          (run_task_with_slot w job_id task_id path)
  unfolding run_task_with_slot
  Leads-run_task job_id task_id path =
      let most = w.config.engine.max_attempts in
      Leads-bind _ _ (λ _. In Any 0) (λ b. In (Stands b) most) _ _ (begun _ (Steady-get_task w _))
        λ task.
          Leads-bind _ _ (λ _. In Any 0) (λ b. In (Stands b) most) _ _
            (begun _ (Steady-store w _ λ _. get_job-Keeps job_id))
            λ job.
              Leads-bind _ _ (λ _. In Any 0) (λ b. In (Stands b) most) _ _
                (begun _ (Steady-prepare_worktree w _ _ _))
                λ place.
                  Leads-map _ _ _ _ _ _ _
                    (λ s h. In-map Any Any (0 + most) most s (omega arith) (λ k u. tt) h) (λ s h. h)
                    (λ b s h.
                      In-map (Stands b) (Stands b) (0 + most) most s (omega arith) (λ k f. f) h)
                    (Leads-run_attempts _ _ most _ _ 0)
    where
      begun :
          {A : Type 0} (m : Run A)
          → Steady m
          → Leads (In Any w.config.engine.max_attempts) (In Any 0) (λ _. In Any 0) m
      begun m h =
          Leads-Steady _ Any 0 m h
            λ s p. In-map Any Any 0 w.config.engine.max_attempts s (omega arith) (λ k u. tt) p

-- A run that returns true ends with the merge of its task.
abbrev pub EndsMerged : Fallible Failure Bool → ℕ → Type 0
EndsMerged (returns true) k = k ≡ 4
EndsMerged (returns false) k = Unit
EndsMerged (raises e) k = Unit

-- The effects of a run that ended so, with a budget of worker runs.
pub record IsOrderly (most : ℕ) (o : Fallible Failure Bool) (log : Log) : Type 0 where
  pub disciplined : IsDisciplined log
  pub budget : worker_runs log ≤ most
  pub merged : EndsMerged o (stage log)

abbrev fresh_state : Database → State
fresh_state db = record { db = db; log = [] }

at_start : (db : Database) → IsConsistent db → In Any 0 (fresh_state db)
unfolding worker_runs
at_start db h = record { consistent = h; disciplined = tt; budget = omega arith; at_stage = tt }

Ends-IsOrderly :
    (most : ℕ) (o : Fallible Failure Bool) (s : State)
    → Ends (In Any most) (λ b. In (Stands b) most) o s
    → IsOrderly most o s.log × IsConsistent s.db
Ends-IsOrderly most (returns true) s h = (
  record { disciplined = h.disciplined; budget = h.budget; merged = h.at_stage refl },
  h.consistent,
)
Ends-IsOrderly most (returns false) s h =
    (record { disciplined = h.disciplined; budget = h.budget; merged = tt }, h.consistent)
Ends-IsOrderly most (raises e) s h =
    (record { disciplined = h.disciplined; budget = h.budget; merged = tt }, h.consistent)

-- Whatever the agents, gates, reviewers and Git answer, and whatever the other coroutines do to a
-- consistent store meanwhile: a run of `_run_task_with_slot` begins a merge only where the latest
-- worker, then its gates, then its review have passed; it runs a worker at most `max_attempts`
-- times; and it returns true only if the last of these merges has not been undone.
pub run_task-IsOrderly :
    (w : World) (job_id task_id path : String) (db : Database)
    → IsConsistent db
    → IsOrderly w.config.engine.max_attempts
        (run_task_with_slot w job_id task_id path (record { db = db; log = [] })).0
        (run_task_with_slot w job_id task_id path (record { db = db; log = [] })).1.log
run_task-IsOrderly w job_id task_id path db h =
    (Ends-IsOrderly _ _ _
      ((Leads-run_task w job_id task_id path).at (fresh_state db) (at_start db h))).0
