-- ===== src/Execution/Reviewed.antt =====
-- What the attempts of a task lead to: nothing is merged but what passed its gates and its review.
use omarchy_yolo.Prelude.{
  ℕ, ℤ, ◌≤◌, ◌+◌, String, ◌≡◌, true, false, Option, none, some, List, [], ◌∷◌, ◌++◌, arith, nat_eq,
  string_eq, elem, if◌then◌else◌, Bool-cases, inl, inr,
}
use omarchy_yolo.Prelude.Fallible.{Fallible, returns, raises}
use omarchy_yolo.Model.{AttemptState, TaskRecord}
use omarchy_yolo.Agents.{AgentRole, AgentError, GateResult, ReviewResult, passed, choose_role}
use omarchy_yolo.Db.Mutations.{finish_attempt}
use omarchy_yolo.Db.Soundness.{finish_attempt-Keeps}
use omarchy_yolo.Execution.Runs.{
  Failure, cancelled, merge_conflict, git_error, other, describe, World, Run, pure,
  unless_cancelled, store, ◌>>=◌,
}
use omarchy_yolo.Execution.Integrate.{gates_ok, agent_failure}
use omarchy_yolo.Execution.Worktrees.{
  Site, recover_worktree, create_worktree, prepare_worktree, review_effect,
}
use omarchy_yolo.Execution.Calls.{
  reject, review_by, try_review, candidate_error, review_candidates, review_task_resilient,
}
use omarchy_yolo.Execution.Discipline.{In, Any, IsAllowed, cost, advance}
use omarchy_yolo.Execution.Rules.{
  Leads, Leads-pure, Leads-raise, Leads-if, Leads-map, Leads-catching, Leads-bind, In-map, Steady,
  Leads-Steady, Steady-pure, Steady-if, Steady-bind, Steady-store, Leads-await, Steady-waited,
  Steady-emit,
}
use omarchy_yolo.Execution.Merges.{Steady-git, Steady-lock, Steady-update}

-- The stages of a worktree under review.
abbrev pub UnderReview : ℕ → Type 0
UnderReview k = (2 ≤ k) × (k ≤ 3)

abbrev pub Gated : List GateResult → ℕ → Type 0
Gated results k = gates_ok results ≡ true → k ≡ 2

abbrev pub Approved : ReviewResult → ℕ → Type 0
Approved review k = passed review ≡ true → k ≡ 3

abbrev pub Answered : Fallible String ReviewResult → ℕ → Type 0
Answered (returns r) k = Approved r k
Answered (raises e) k = Unit

-- `none` is the end of the loop with a merged task.
abbrev pub Landed : Option String → ℕ → Type 0
Landed none k = k ≡ 4
Landed (some context) k = Unit

-- A steady run, in terms of stages alone.
pub Leads-steady :
    {A : Type 0} (K Kr : ℕ → Type 0) (n : ℕ) (m : Run A)
    → Steady m
    → ((k : ℕ) → K k → Kr k)
    → Leads (In Kr n) (In K n) (λ _. In K n) m
Leads-steady K Kr n m h weaker =
    Leads-Steady _ K n m h λ s p. In-map K Kr n n s (omega arith) weaker p

pub Leads-done :
    {A : Type 0} (K Kr : ℕ → Type 0) (K' : A → ℕ → Type 0) (n : ℕ) (a : A)
    → ((k : ℕ) → K k → K' a k)
    → Leads (In Kr n) (In K n) (λ a. In (K' a) n) (pure a)
Leads-done K Kr K' n a h = Leads-pure _ _ _ a λ s p. In-map K (K' a) n n s (omega arith) h p

module _ (w : World) where
  pub Steady-finish :
      (attempt_id : String) (target : AttemptState) (returncode : Option ℤ) (summary : String)
      → Steady (store w (finish_attempt attempt_id target returncode summary))
  Steady-finish attempt_id target returncode summary =
      Steady-store w _ λ now. finish_attempt-Keeps attempt_id target returncode summary now

  Steady-recover_worktree :
      (job_id : String) (task : TaskRecord) (path : String)
      → Steady (recover_worktree w job_id task path)
  unfolding recover_worktree
  Steady-recover_worktree job_id task path =
      Steady-bind _ _ (Steady-if _ _ _ (Steady-waited w _ _) (Steady-pure _)) λ base.
        Steady-bind _ _ (Steady-lock w _) λ _. Steady-bind _ _ (Steady-lock w _) λ _.
          Steady-bind _ _ (Steady-git w _ _) λ _.
            Steady-bind _ _ (Steady-update w _ _)
              λ _. Steady-bind _ _ (Steady-emit w _ _ _ _) λ _. Steady-pure _

  Steady-create_worktree :
      (job_id : String) (task : TaskRecord) (path : String)
      → Steady (create_worktree w job_id task path)
  unfolding create_worktree
  Steady-create_worktree job_id task path = Steady-bind _ _ (Steady-lock w _) λ _.
      Steady-bind _ _ (Steady-lock w _) λ _. Steady-bind _ _ (Steady-waited w _ _) λ base.
        Steady-bind _ _ (Steady-git w _ _) λ _.
          Steady-bind _ _ (Steady-update w _ _)
            λ _. Steady-bind _ _ (Steady-emit w _ _ _ _) λ _. Steady-pure _

  pub Steady-prepare_worktree :
      (job_id : String) (task : TaskRecord) (path : String)
      → Steady (prepare_worktree w job_id task path)
  unfolding prepare_worktree
  Steady-prepare_worktree job_id task path =
      Steady-bind _ _ (Steady-if _ _ _ (Steady-pure false) (Steady-waited w _ _))
        λ exists. Steady-if _ _ _ (Steady-recover_worktree _ _ _) (Steady-create_worktree _ _ _)

  -- A rejection of the attempt, from any stage.
  pub Leads-reject :
      (x : Site) (attempt_id : String) (returncode : Option ℤ) (context : String)
      (announce : Run (Unit {0})) (K : ℕ → Type 0) (n : ℕ)
      → Steady announce
      → Leads
          (In Any n)
          (In K n)
          (λ o. In (Landed o) n)
          (reject w x attempt_id returncode context announce)
  unfolding reject
  Leads-reject x attempt_id returncode context announce K n h =
      Leads-bind _ _ (λ _. In K n) (λ o. In (Landed o) n) _ _
        (Leads-steady K Any n _ (Steady-finish _ _ _ _) (λ k e. tt))
        λ _.
          Leads-bind _ _ (λ _. In K n) (λ o. In (Landed o) n) _ _
            (Leads-steady K Any n _ (Steady-update w _ _) (λ k e. tt))
            λ _.
              Leads-bind _ _ (λ _. In K n) (λ o. In (Landed o) n) _ _
                (Leads-steady K Any n _ h (λ k e. tt))
                λ _. Leads-done K Any Landed n (some context) (λ k e. tt)

  -- A review that returns passes at stage 3; one that raises leaves the worktree under review.
  Leads-review_by :
      (x : Site) (task : TaskRecord) (diff : String) (gates : List GateResult) (agent : String)
      (n : ℕ)
      → Leads
          (In UnderReview n)
          (In UnderReview n)
          (λ r. In (λ k. UnderReview k × Approved r k) n)
          (review_by w x task diff gates agent)
  Leads-review_by x task diff gates agent n =
      Leads-bind _ _ (λ r. In (λ k. UnderReview k × Approved r k) n)
        (λ r. In (λ k. UnderReview k × Approved r k) n) _ _
        (Leads-await w UnderReview UnderReview (λ r k. UnderReview k × Approved r k) n n _ _ allowed
          reviewed (λ e k h. h))
        λ r.
          Leads-bind _ _ (λ _. In (λ k. UnderReview k × Approved r k) n)
            (λ r. In (λ k. UnderReview k × Approved r k) n) _ _
            (Leads-steady (λ k. UnderReview k × Approved r k) UnderReview n _
              (Steady-emit w _ _ _ _) (λ k h. h.0))
            λ _. Leads-done _ UnderReview (λ r k. UnderReview k × Approved r k) n r (λ k h. h)
    where
      allowed :
          (o : Fallible Failure ReviewResult) (k : ℕ)
          → UnderReview k
          → IsAllowed (review_effect o) k × (cost (review_effect o) + n ≤ n)
      allowed (returns r) k h = (tt, omega arith)
      allowed (raises e) k h = (tt, omega arith)

      reviewed :
          (r : ReviewResult) (k : ℕ)
          → UnderReview k
          → UnderReview (advance (review_effect (returns r)) k)
            × Approved r (advance (review_effect (returns r)) k)
      reviewed r k h = elim (Bool-cases (passed r)) [ inl e ↦ ground arith | inr e ↦ ground arith ]

  Leads-try_review :
      (x : Site) (task : TaskRecord) (diff : String) (gates : List GateResult) (agent : String)
      (n : ℕ)
      → Leads
          (In UnderReview n)
          (In UnderReview n)
          (λ o. In (λ k. UnderReview k × Answered o k) n)
          (try_review w x task diff gates agent)
  Leads-try_review x task diff gates agent n =
      Leads-catching (In UnderReview n) _ _ _ _ _
        (Leads-bind _ _ (λ r. In (λ k. UnderReview k × Approved r k) n)
          (λ o. In (λ k. UnderReview k × Answered o k) n) _ _
          (Leads-review_by x task diff gates agent n)
          λ r.
            Leads-done _ UnderReview (λ o k. UnderReview k × Answered o k) n (returns r) (λ k h. h))
        handled
    where
      failed :
          (e : Failure)
          → Leads
              (In UnderReview n)
              (In UnderReview n)
              (λ o. In (λ k. UnderReview k × Answered o k) n)
              (pure {A = Fallible String ReviewResult} (raises (describe e)))
      failed e =
          Leads-done UnderReview UnderReview (λ o k. UnderReview k × Answered o k) n
            (raises (describe e)) (λ k h. (h, tt))

      handled :
          (e : Failure)
          → Leads
              (In UnderReview n)
              (In UnderReview n)
              (λ o. In (λ k. UnderReview k × Answered o k) n)
              (unless_cancelled
                (λ e. pure {A = Fallible String ReviewResult} (raises (describe e)))
                e)
      handled cancelled = Leads-raise _ _ _ cancelled (λ s h. h)
      handled (merge_conflict e) = failed (merge_conflict e)
      handled (git_error e) = failed (git_error e)
      handled (other e) = failed (other e)

  Leads-review_candidates :
      (x : Site) (task : TaskRecord) (diff : String) (gates : List GateResult)
      (tried errors candidates : List String) (n : ℕ)
      → Leads
          (In UnderReview n)
          (In UnderReview n)
          (λ r. In (Approved r) n)
          (review_candidates w x task diff gates tried errors candidates)
  unfolding review_candidates
  Leads-review_candidates x task diff gates tried errors [] n =
      Leads-done UnderReview UnderReview Approved n _ (λ k h e. cc)
  Leads-review_candidates x task diff gates tried errors (candidate ∷ rest) n =
      chosen (λ tried' errors'. Leads-review_candidates x task diff gates tried' errors' rest n)
        (choose_role w.registry candidate w.config.engine.worker_agents none
          (some AgentRole.reviewer))
    where
      answered :
          ((tried' errors' : List String)
            → Leads
                (In UnderReview n)
                (In UnderReview n)
                (λ r. In (Approved r) n)
                (review_candidates w x task diff gates tried' errors' rest))
          → (agent : String) (o : Fallible String ReviewResult)
          → Leads
              (In UnderReview n)
              (In (λ k. UnderReview k × Answered o k) n)
              (λ r. In (Approved r) n)
              (elim o [
                | returns review ↦ pure review
                | raises e ↦
                    review_candidates w x task diff gates
                      (agent ∷ tried)
                      (errors ++ candidate_error w candidate e ∷ [])
                      rest
              ])
      answered again agent (returns r) =
          Leads-done (λ k. UnderReview k × Approved r k) UnderReview Approved n r (λ k h. h.1)
      answered again agent (raises e) =
          Leads-map _ _ (In UnderReview n) _ _ _ _ (λ s h. h)
            (λ s h.
              In-map (λ k. UnderReview k × Unit) UnderReview n n s (omega arith) (λ k p. p.0) h)
            (λ a s h. h) (again (agent ∷ tried) (errors ++ candidate_error w candidate e ∷ []))

      chosen :
          ((tried' errors' : List String)
            → Leads
                (In UnderReview n)
                (In UnderReview n)
                (λ r. In (Approved r) n)
                (review_candidates w x task diff gates tried' errors' rest))
          → (c : Fallible AgentError String)
          → Leads
              (In UnderReview n)
              (In UnderReview n)
              (λ r. In (Approved r) n)
              (elim c [
                | raises e ↦
                    review_candidates w x task diff gates tried
                      (errors ++ candidate_error w candidate (describe (agent_failure w e)) ∷ [])
                      rest
                | returns agent_name ↦
                    if elem agent_name tried
                    then review_candidates w x task diff gates tried errors rest
                    else (try_review w x task diff gates agent_name >>= λ answer. elim answer [
                      | returns review ↦ pure review
                      | raises e ↦
                          review_candidates w x task diff gates
                            (agent_name ∷ tried)
                            (errors ++ candidate_error w candidate e ∷ [])
                            rest
                    ])
              ])
      chosen again (raises e) =
          again tried (errors ++ candidate_error w candidate (describe (agent_failure w e)) ∷ [])
      chosen again (returns agent) =
          Leads-if _ _ _ (elem agent tried) _ _ (λ old. again tried errors)
            λ new.
              Leads-bind _ _ (λ o. In (λ k. UnderReview k × Answered o k) n)
                (λ r. In (Approved r) n) _ _ (Leads-try_review x task diff gates agent n)
                λ o. answered again agent o

  pub Leads-review_task_resilient :
      (x : Site) (task : TaskRecord) (gates : List GateResult) (n : ℕ)
      → Leads
          (In UnderReview n)
          (In UnderReview n)
          (λ r. In (Approved r) n)
          (review_task_resilient w x task gates)
  unfolding review_task_resilient
  Leads-review_task_resilient x task gates n =
      Leads-bind _ _ (λ _. In UnderReview n) (λ r. In (Approved r) n) _ _
        (Leads-steady UnderReview UnderReview n _ (Steady-waited w _ _) (λ k h. h))
        λ diff. Leads-review_candidates x task diff gates [] [] _ n
