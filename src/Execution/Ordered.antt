-- ===== src/Execution/Ordered.antt =====
-- From a worker that succeeded to the merge: the gates, the review, and the end of the attempt.
use omarchy_yolo.Prelude.{
  ℕ, ◌≤◌, ◌+◌, String, ◌≡◌, refl, Option, none, List, arith, nat_eq, string_eq,
}
use omarchy_yolo.Prelude.Fallible.{Fallible, returns, raises}
use omarchy_yolo.Model.{TaskRecord}
use omarchy_yolo.Agents.{GateResult, ReviewResult, passed}
use omarchy_yolo.Execution.Runs.{
  Failure, cancelled, merge_conflict, git_error, other, GateScope, World, Run,
}
use omarchy_yolo.Execution.Integrate.{gates_ok, gate_effect, run_gates}
use omarchy_yolo.Execution.Worktrees.{Site}
use omarchy_yolo.Execution.Calls.{cleanup_failed, remove_worktree}
use omarchy_yolo.Execution.Attempts.{accept, integrate, review_then_integrate, gate_then_review}
use omarchy_yolo.Execution.Discipline.{In, Any, IsAllowed, cost, advance}
use omarchy_yolo.Execution.Rules.{
  Leads, Leads-if, Leads-map, Leads-bind, In-map, Steady, Steady-pure, Steady-raise, Steady-if,
  Steady-catching, Steady-bind, Leads-await, Steady-waited, Steady-emit,
}
use omarchy_yolo.Execution.Merges.{
  Stands, Steady-git, Steady-lock, Steady-update, Steady-get_task, Leads-integrate_task,
}
use omarchy_yolo.Execution.Reviewed.{
  UnderReview, Gated, Approved, Landed, Leads-steady, Leads-done, Steady-finish, Leads-reject,
  Leads-review_task_resilient,
}

module _ (w : World) where
  Steady-cleanup_failed : (x : Site) (e : Failure) → Steady (cleanup_failed w x e)
  unfolding cleanup_failed
  Steady-cleanup_failed x cancelled =
      Steady-bind _ _ (Steady-emit w _ _ _ _) λ _. Steady-raise cancelled
  Steady-cleanup_failed x (merge_conflict e) = Steady-emit w _ _ _ _
  Steady-cleanup_failed x (git_error e) = Steady-emit w _ _ _ _
  Steady-cleanup_failed x (other e) = Steady-emit w _ _ _ _

  Steady-remove_worktree : (x : Site) → Steady (remove_worktree w x)
  unfolding remove_worktree
  Steady-remove_worktree x =
      Steady-if _ _ _
        (Steady-catching _ _
          (Steady-bind _ _ (Steady-lock w _)
            λ _. Steady-bind _ _ (Steady-git w _ _) λ _. Steady-git w _ _)
          (Steady-cleanup_failed x))
        (Steady-pure tt)

  Leads-accept :
      (x : Site) (number : ℕ) (agent attempt_id : String) (review : ReviewResult) (n : ℕ)
      → Leads
          (In Any n)
          (In (λ k. k ≡ 4) n)
          (λ o. In (Landed o) n)
          (accept w x number agent attempt_id review)
  unfolding accept
  Leads-accept x number agent attempt_id review n =
      Leads-bind _ _ (λ _. In (λ k. k ≡ 4) n) (λ o. In (Landed o) n) _ _
        (steady _ (Steady-finish w _ _ _ _))
        λ _.
          Leads-bind _ _ (λ _. In (λ k. k ≡ 4) n) (λ o. In (Landed o) n) _ _
            (steady _ (Steady-update w _ _))
            λ _.
              Leads-bind _ _ (λ _. In (λ k. k ≡ 4) n) (λ o. In (Landed o) n) _ _
                (steady _ (Steady-emit w _ _ _ _))
                λ _.
                  Leads-bind _ _ (λ _. In (λ k. k ≡ 4) n) (λ o. In (Landed o) n) _ _
                    (steady _ (Steady-remove_worktree x))
                    λ _. Leads-done (λ k. k ≡ 4) Any Landed n none (λ k h. h)
    where
      steady :
          {A : Type 0} (m : Run A)
          → Steady m
          → Leads (In Any n) (In (λ k. k ≡ 4) n) (λ _. In (λ k. k ≡ 4) n) m
      steady m h = Leads-steady (λ k. k ≡ 4) Any n m h (λ k e. tt)

  Leads-integrate :
      (x : Site) (number : ℕ) (agent attempt_id : String) (review : ReviewResult) (n : ℕ)
      → Leads
          (In Any n)
          (In (λ k. k ≡ 3) n)
          (λ o. In (Landed o) n)
          (integrate w x number agent attempt_id review)
  unfolding integrate
  Leads-integrate x number agent attempt_id review n =
      Leads-bind _ _ (λ _. In (λ k. k ≡ 3) n) (λ o. In (Landed o) n) _ _
        (Leads-steady (λ k. k ≡ 3) Any n _ (Steady-get_task w _) (λ k e. tt))
        λ task.
          Leads-bind _ _ (λ m. In (Stands m.integrated) n) (λ o. In (Landed o) n) _ _
            (Leads-integrate_task w _ task _ n)
            λ merge.
              Leads-if _ _ _ merge.integrated _ _
                (λ yes.
                  Leads-map _ _ (In (λ k. k ≡ 4) n) _ _ _ _ (λ s h. h)
                    (λ s h.
                      In-map (Stands merge.integrated) (λ k. k ≡ 4) n n s (omega arith)
                        (λ k f. f yes) h)
                    (λ a s h. h) (Leads-accept x number agent attempt_id review n))
                (λ no.
                  Leads-reject w x attempt_id _ _ _ (Stands merge.integrated) n (Steady-pure tt))

  Leads-review_then_integrate :
      (x : Site) (number : ℕ) (agent attempt_id : String) (gates : List GateResult) (n : ℕ)
      → Leads
          (In Any n)
          (In (λ k. k ≡ 2) n)
          (λ o. In (Landed o) n)
          (review_then_integrate w x number agent attempt_id gates)
  unfolding review_then_integrate
  Leads-review_then_integrate x number agent attempt_id gates n =
      Leads-bind _ _ (λ _. In (λ k. k ≡ 2) n) (λ o. In (Landed o) n) _ _
        (Leads-steady (λ k. k ≡ 2) Any n _ (Steady-update w _ _) (λ k e. tt))
        λ _.
          Leads-bind _ _ (λ _. In (λ k. k ≡ 2) n) (λ o. In (Landed o) n) _ _
            (Leads-steady (λ k. k ≡ 2) Any n _ (Steady-get_task w _) (λ k e. tt))
            λ task.
              Leads-bind _ _ (λ r. In (Approved r) n) (λ o. In (Landed o) n) _ _
                (Leads-map (In UnderReview n) _ (In UnderReview n) _ _ _ _
                  (λ s h. In-map UnderReview Any n n s (omega arith) (λ k u. tt) h)
                  (λ s h.
                    In-map (λ k. k ≡ 2) UnderReview n n s (omega arith)
                      (λ k e. (omega arith, omega arith)) h)
                  (λ a s h. h) (Leads-review_task_resilient w x task gates n))
                λ review.
                  Leads-if _ _ _ (passed review) _ _
                    (λ yes.
                      Leads-map _ _ (In (λ k. k ≡ 3) n) _ _ _ _ (λ s h. h)
                        (λ s h.
                          In-map (Approved review) (λ k. k ≡ 3) n n s (omega arith) (λ k f. f yes)
                            h)
                        (λ a s h. h) (Leads-integrate x number agent attempt_id review n))
                    (λ no.
                      Leads-reject w x attempt_id _ _ _ (Approved review) n (Steady-emit w _ _ _ _))

  -- The gates of the task's own worktree.
  Leads-task_gates :
      (job_id label : String) (task_id : Option String) (cwd : String) (configured : List String)
      (n : ℕ)
      → Leads
          (In Any n)
          (In (λ k. k ≡ 1) n)
          (λ rs. In (Gated rs) n)
          (run_gates w job_id label task_id cwd GateScope.task_worktree configured)
  unfolding run_gates
  Leads-task_gates job_id label task_id cwd configured n =
      Leads-bind _ _ (λ _. In (λ k. k ≡ 1) n) (λ rs. In (Gated rs) n) _ _
        (Leads-steady (λ k. k ≡ 1) Any n _
          (Steady-if _ _ _ (Steady-waited w _ _) (Steady-pure configured)) (λ k e. tt))
        λ commands.
          Leads-bind _ _ (λ rs. In (Gated rs) n) (λ rs. In (Gated rs) n) _ _
            (Leads-await w (λ k. k ≡ 1) Any Gated n n _ _ allowed (λ rs k e. gated_stage rs k e)
              (λ e k h. tt))
            λ rs.
              Leads-bind _ _ (λ _. In (Gated rs) n) (λ rs. In (Gated rs) n) _ _
                (Leads-steady (Gated rs) Any n _ (Steady-emit w _ _ _ _) (λ k e. tt))
                λ _. Leads-done (Gated rs) Any Gated n rs (λ k h. h)
    where
      allowed :
          (o : Fallible Failure (List GateResult)) (k : ℕ)
          → k ≡ 1
          → IsAllowed (gate_effect GateScope.task_worktree o) k
            × (cost (gate_effect GateScope.task_worktree o) + n ≤ n)
      allowed (returns rs) k e = (tt, omega arith)
      allowed (raises f) k e = (tt, omega arith)

      gated_stage :
          (rs : List GateResult) (k : ℕ)
          → k ≡ 1
          → Gated rs (advance (gate_effect GateScope.task_worktree (returns rs)) k)
      gated_stage rs k e passes = rw passes (rw e refl)

  pub Leads-gate_then_review :
      (x : Site) (task : TaskRecord) (number : ℕ) (agent attempt_id : String) (n : ℕ)
      → Leads
          (In Any n)
          (In (λ k. k ≡ 1) n)
          (λ o. In (Landed o) n)
          (gate_then_review w x task number agent attempt_id)
  unfolding gate_then_review
  Leads-gate_then_review x task number agent attempt_id n =
      Leads-bind _ _ (λ _. In (λ k. k ≡ 1) n) (λ o. In (Landed o) n) _ _
        (Leads-steady (λ k. k ≡ 1) Any n _ (Steady-git w _ _) (λ k e. tt))
        λ _.
          Leads-bind _ _ (λ rs. In (Gated rs) n) (λ o. In (Landed o) n) _ _
            (Leads-task_gates _ _ _ _ _ n)
            λ rs.
              Leads-if _ _ _ (gates_ok rs) _ _
                (λ yes.
                  Leads-map _ _ (In (λ k. k ≡ 2) n) _ _ _ _ (λ s h. h)
                    (λ s h. In-map (Gated rs) (λ k. k ≡ 2) n n s (omega arith) (λ k f. f yes) h)
                    (λ a s h. h) (Leads-review_then_integrate x number agent attempt_id rs n))
                (λ no. Leads-reject w x attempt_id _ _ _ (Gated rs) n (Steady-emit w _ _ _ _))
