-- ===== src/Execution/Merges.antt =====
-- What the merge of a task leads to: it begins only at a passed review, and stands where it reports so.
use omarchy_yolo.Prelude.{
  ℕ, String, ◌≡◌, refl, Bool, true, false, Option, none, some, List, [], ◌∷◌, arith, nat_eq,
  string_eq, elem, if◌then◌else◌,
}
use omarchy_yolo.Prelude.Fallible.{Fallible, returns, raises}
use omarchy_yolo.Model.{TaskRecord}
use omarchy_yolo.Agents.{AgentRole, AgentError, GateResult, choose_role}
use omarchy_yolo.Db.Actions.{get_row}
use omarchy_yolo.Db.Commits.{Keeps}
use omarchy_yolo.Db.Mutations.{TaskFields, update_task}
use omarchy_yolo.Db.Soundness.{update_task-Keeps}
use omarchy_yolo.Db.Records.{entry, get_job, get_task}
use omarchy_yolo.Execution.Runs.{
  Failure, cancelled, merge_conflict, git_error, other, GateScope, gated, aborting, State, World,
  Run, pure, raise, excepting, store, await, git, lock, emit, ◌>>=◌,
}
use omarchy_yolo.Execution.Integrate.{
  gate_effect, on_conflict, on_git_error, of_choice, run_gates, repair_agent, try_finish,
  finish_resolution, resolve_cycle, resolve_merge_conflict, repair_by, repair_error,
  repair_integration, merge_or_resolve, reset_hard, gates_or_repair, check_merge, roll_back,
  integrate_task, agent_failure,
}
use omarchy_yolo.Execution.Discipline.{In, Any, advance}
use omarchy_yolo.Execution.Rules.{
  Leads, Leads-pure, Leads-raise, Leads-if, Leads-map, Leads-catching, Leads-bind, In-map, Steady,
  Leads-Steady, IsNeutral, Steady-pure, Steady-raise, Steady-if, Steady-catching,
  Steady-unless_cancelled, Steady-bind, Steady-store, Leads-await, Steady-await, Steady-waited,
  Steady-emit,
}

pub get_job-Keeps : (job_id : String) → Keeps (get_job job_id)
unfolding get_job get_row
get_job-Keeps job_id = record { at = λ db h. h }

pub get_task-Keeps : (task_id : String) → Keeps (get_task task_id)
unfolding get_task get_row
get_task-Keeps task_id = record { at = λ db h. h }

-- Where the merge stands.
abbrev pub Stands : Bool → ℕ → Type 0
Stands b k = b ≡ true → k ≡ 4

Steady-on_git_error : {A : Type 0} (m : Run A) (e : Failure) → Steady m → Steady (on_git_error m e)
Steady-on_git_error m cancelled h = Steady-raise cancelled
Steady-on_git_error m (merge_conflict e) h = h
Steady-on_git_error m (git_error e) h = h
Steady-on_git_error m (other e) h = Steady-raise (other e)

module _ (w : World) where
  pub Steady-git : (call : String) (args : List String) → Steady (git w call args)
  Steady-git call args = Steady-waited w _ call

  pub Steady-lock : (name : String) → Steady (lock w name)
  Steady-lock name = Steady-waited w _ name

  pub Steady-update : (task_id : String) (f : TaskFields) → Steady (store w (update_task task_id f))
  Steady-update task_id f = Steady-store w _ λ now. update_task-Keeps task_id f now

  pub Steady-of_choice : (c : Fallible AgentError String) → Steady (of_choice w c)
  Steady-of_choice (returns name) = Steady-pure name
  Steady-of_choice (raises e) = Steady-raise _

  pub Steady-get_task : (task_id : String) → Steady (store w (λ _. get_task task_id))
  Steady-get_task task_id = Steady-store w _ λ _. get_task-Keeps task_id

  -- The gates of a scope other than the task's own worktree.
  abbrev pub IsMergeScope : GateScope → Type 0
  IsMergeScope scope = (ok : Bool) (k : ℕ) → advance (gated scope ok) k ≡ k

  gate_effect-IsNeutral :
      (scope : GateScope)
      → IsMergeScope scope
      → (o : Fallible Failure (List GateResult)) → IsNeutral (gate_effect scope o)
  gate_effect-IsNeutral scope h (returns rs) k = (tt, (refl, h _ k))
  gate_effect-IsNeutral scope h (raises e) k = (tt, (refl, h _ k))

  pub Steady-run_gates :
      (job_id label : String) (task_id : Option String) (cwd : String) (scope : GateScope)
      (configured : List String)
      → IsMergeScope scope
      → Steady (run_gates w job_id label task_id cwd scope configured)
  unfolding run_gates
  Steady-run_gates job_id label task_id cwd scope configured h =
      Steady-bind _ _ (Steady-if _ _ _ (Steady-waited w _ _) (Steady-pure _)) λ commands.
        Steady-bind _ _ (Steady-await w _ _ (gate_effect-IsNeutral scope h))
          λ results. Steady-bind _ _ (Steady-emit w _ _ _ _) λ _. Steady-pure results

  Steady-repair_agent : (job_id issue agent : String) → Steady (repair_agent w job_id issue agent)
  Steady-repair_agent job_id issue agent =
      Steady-bind _ _ (Steady-store w _ λ _. get_job-Keeps job_id) λ job. Steady-waited w _ _

  Steady-try_finish : (path : String) (b : Bool) → Steady (try_finish w path b)
  Steady-try_finish path false = Steady-pure false
  Steady-try_finish path true =
      Steady-catching _ _ (Steady-bind _ _ (Steady-git _ _) λ _. Steady-pure true)
        λ e. Steady-on_git_error _ e (Steady-pure false)

  Steady-finish_resolution :
      (job_id : String) (task : TaskRecord) (path agent : String)
      → Steady (finish_resolution w job_id task path agent)
  unfolding finish_resolution
  Steady-finish_resolution job_id task path agent =
      Steady-catching _ _
        (Steady-bind _ _ (Steady-git _ _) λ _. Steady-bind _ _ (Steady-waited w _ _) λ left.
          Steady-if _ _ _ (Steady-bind _ _ (Steady-emit w _ _ _ _) λ _. Steady-pure true)
            (Steady-pure false))
        λ e. Steady-on_git_error _ e (Steady-pure false)

  Steady-resolve_cycle :
      (job_id : String) (task : TaskRecord) (path original_error : String)
      → Steady (resolve_cycle w job_id task path original_error)
  unfolding resolve_cycle
  Steady-resolve_cycle job_id task path original_error =
      Steady-bind _ _ (Steady-waited w _ _) λ files.
        Steady-bind _ _ (Steady-try_finish path _) λ finished. Steady-if _ _ _ (Steady-pure true) (
          Steady-bind _ _ (Steady-of_choice _) λ agent.
            Steady-bind _ _ (Steady-repair_agent _ _ _)
              λ result. Steady-if _ _ _ (Steady-finish_resolution _ _ _ _) (Steady-pure false))

  Steady-resolve_merge_conflict :
      (job_id : String) (task : TaskRecord) (path original_error : String)
      → Steady (resolve_merge_conflict w job_id task path original_error)
  unfolding resolve_merge_conflict
  Steady-resolve_merge_conflict job_id task path e =
      Steady-bind _ _ (Steady-resolve_cycle job_id task path e)
        λ first. Steady-if _ _ _ (Steady-pure true) (Steady-resolve_cycle job_id task path e)

  Steady-repair_error :
      (job_id : String) (task_id : Option String) (e : Failure)
      → Steady (repair_error w job_id task_id e)
  Steady-repair_error job_id task_id e =
      Steady-bind _ _ (Steady-emit w _ _ _ _) λ _. Steady-pure false

  Steady-repair_by :
      (job_id path issue : String) (task_id : Option String) (agent : String)
      → Steady (repair_by w job_id path issue task_id agent)
  unfolding repair_by
  Steady-repair_by job_id path issue task_id agent =
      Steady-bind _ _ (Steady-repair_agent _ _ _) λ result.
        Steady-if _ _ _
          (Steady-bind _ _ (Steady-git _ _)
            λ _. Steady-bind _ _ (Steady-emit w _ _ _ _) λ _. Steady-pure true)
          (Steady-pure false)

  pub Steady-repair_integration :
      (job_id path issue : String) (task_id : Option String) (seen candidates : List String)
      → Steady (repair_integration w job_id path issue task_id seen candidates)
  unfolding repair_integration
  Steady-repair_integration job_id path issue task_id seen [] = Steady-pure false
  Steady-repair_integration job_id path issue task_id seen (candidate ∷ candidates) =
      Steady-if _ _ _ (Steady-pure false) (
        chosen (λ tried. Steady-repair_integration job_id path issue task_id tried candidates)
          (choose_role w.registry candidate w.config.engine.worker_agents none
            (some AgentRole.integrator)))
    where
      chosen :
          ((tried : List String)
            → Steady (repair_integration w job_id path issue task_id tried candidates))
          → (c : Fallible AgentError String)
          → Steady (elim c [
            | raises e ↦ repair_error w job_id task_id (agent_failure w e) >>= λ _.
                repair_integration w job_id path issue task_id seen candidates
            | returns agent_name ↦
                if elem agent_name seen
                then repair_integration w job_id path issue task_id seen candidates
                else (excepting
                      (repair_by w job_id path issue task_id agent_name)
                      (repair_error w job_id task_id)
                    >>= λ repaired.
                        if repaired
                        then pure true
                        else repair_integration w job_id path issue task_id
                            (agent_name ∷ seen)
                            candidates)
          ])
      chosen again (raises e) =
          Steady-bind _ _ (Steady-repair_error job_id task_id (agent_failure w e)) λ _. again seen
      chosen again (returns agent) = Steady-if _ _ _ (again seen) (
          Steady-bind _ _
            (Steady-catching _ _ (Steady-repair_by job_id path issue task_id agent)
              λ e. Steady-unless_cancelled _ e (Steady-repair_error job_id task_id))
            λ repaired. Steady-if _ _ _ (Steady-pure true) (again (agent ∷ seen)))

  -- A merge, or its resolution, begins at stage 3 and is at stage 4 where it stands.
  Leads-merge_or_resolve :
      (job_id : String) (task : TaskRecord) (path : String) (n : ℕ)
      → Leads
          (In Any n)
          (In (λ k. k ≡ 3) n)
          (λ b. In (Stands b) n)
          (merge_or_resolve w job_id task path)
  unfolding merge_or_resolve
  Leads-merge_or_resolve job_id task path n =
      Leads-catching (In (λ k. k ≡ 4) n) (In Any n) _ _ _ _
        (Leads-bind (In (λ k. k ≡ 4) n) _ (λ _. In (λ k. k ≡ 4) n) _ _ _
          (Leads-await w (λ k. k ≡ 3) (λ k. k ≡ 4) (λ _ k. k ≡ 4) n n _ _
            (λ o k e. (e, omega arith)) (λ a k e. rw e refl) (λ e k h. rw h refl))
          λ _.
            Leads-pure _ _ _ true
              λ s h. In-map (λ k. k ≡ 4) (Stands true) n n s (omega arith) (λ k e _. e) h)
        recovery
    where
      merged_steady :
          (e : Failure)
          → Leads (In Any n) (In (λ k. k ≡ 4) n) (λ b. In (Stands b) n) (raise {A = Bool} e)
      merged_steady e =
          Leads-raise _ _ _ e λ s h. In-map (λ k. k ≡ 4) Any n n s (omega arith) (λ k e. tt) h

      weaker : (s : State) → In (λ k. k ≡ 4) n s → In Any n s
      weaker s h = In-map (λ k. k ≡ 4) Any n n s (omega arith) (λ k e. tt) h

      recovery :
          (e : Failure)
          → Leads
              (In Any n)
              (In (λ k. k ≡ 4) n)
              (λ b. In (Stands b) n)
              (on_conflict
                (λ e.
                  emit w job_id "integration.conflict" (entry "error" e ∷ []) (some task.id)
                  >>= λ _. resolve_merge_conflict w job_id task path e >>= λ resolved.
                      if resolved
                      then pure true
                      else (await w (λ log. w.git log "abort_merge" (path ∷ [])) (λ _. aborting)
                          >>= λ _. pure false))
                e)
      recovery cancelled = merged_steady cancelled
      recovery (git_error e) = merged_steady (git_error e)
      recovery (other e) = merged_steady (other e)
      recovery (merge_conflict e) =
          Leads-bind _ _ (λ _. In (λ k. k ≡ 4) n) _ _ _
            (Leads-Steady _ (λ k. k ≡ 4) n _ (Steady-emit w _ _ _ _) weaker)
            λ _.
              Leads-bind _ _ (λ _. In (λ k. k ≡ 4) n) _ _ _
                (Leads-Steady _ (λ k. k ≡ 4) n _ (Steady-resolve_merge_conflict _ _ _ _) weaker)
                λ resolved.
                  Leads-if _ _ _ resolved _ _
                    (λ yes.
                      Leads-pure _ _ _ true
                        λ s h. In-map (λ k. k ≡ 4) (Stands true) n n s (omega arith) (λ k e _. e) h)
                    (λ no.
                      Leads-bind _ _ (λ _. In Any n) _ _ _
                        (Leads-await w (λ k. k ≡ 4) Any (λ _. Any) n n _ _
                          (λ o k e. (tt, omega arith)) (λ a k e. tt) (λ e k h. tt))
                        λ _.
                          Leads-pure _ _ _ false
                            λ s h. In-map Any (Stands false) n n s (omega arith) (λ k u e. cc) h)

  Steady-gates_or_repair :
      (job_id : String) (task : TaskRecord) (path : String) (results : List GateResult)
      (issue : String)
      → Steady (gates_or_repair w job_id task path results issue)
  unfolding gates_or_repair
  Steady-gates_or_repair job_id task path results issue = Steady-if _ _ _ (Steady-pure true) (
      Steady-bind _ _ (Steady-repair_integration _ _ _ _ _ _) λ repaired.
        Steady-bind _ _
          (Steady-if _ _ _ (Steady-run_gates _ _ _ _ _ _ (λ ok k. refl)) (Steady-pure results))
          λ again. Steady-pure _)

  -- Resetting the branch, from any stage.
  Leads-reset_hard :
      (path commit : String) (K : ℕ → Type 0) (n : ℕ)
      → Leads (In Any n) (In K n) (λ _. In Any n) (reset_hard w path commit)
  Leads-reset_hard path commit K n =
      Leads-await w K Any (λ _. Any) n n _ _ (λ o k e. (tt, omega arith)) (λ a k e. tt)
        (λ e k h. tt)

  Leads-check_merge :
      (job_id : String) (task : TaskRecord) (path pre_merge : String) (n : ℕ)
      → Leads
          (In Any n)
          (In (λ k. k ≡ 4) n)
          (λ m. In (Stands m.integrated) n)
          (check_merge w job_id task path pre_merge)
  unfolding check_merge
  Leads-check_merge job_id task path pre_merge n =
      Leads-bind _ _ (λ _. In (λ k. k ≡ 4) n) _ _ _
        (steady _ (Steady-run_gates _ _ _ _ _ _ (λ ok k. refl)))
        λ results.
          Leads-bind _ _ (λ _. In (λ k. k ≡ 4) n) _ _ _
            (steady _ (Steady-gates_or_repair _ _ _ _ _))
            λ good.
              Leads-if _ _ _ good _ _
                (λ yes.
                  Leads-bind _ _ (λ _. In (λ k. k ≡ 4) n) _ _ _ (steady _ (Steady-waited w _ _))
                    λ head.
                      Leads-bind _ _ (λ _. In (λ k. k ≡ 4) n) _ _ _
                        (steady _ (Steady-emit w _ _ _ _))
                        λ _. Leads-pure _ _ _ _ λ s h.
                          In-map (λ k. k ≡ 4) (Stands true) n n s (omega arith) (λ k e _. e) h)
                (λ no.
                  Leads-bind _ _ (λ _. In Any n) _ _ _ (Leads-reset_hard _ _ (λ k. k ≡ 4) n)
                    λ _.
                      Leads-bind _ _ (λ _. In Any n) _ _ _
                        (Leads-Steady _ Any n _ (Steady-emit w _ _ _ _) (λ s h. h))
                        λ _.
                          Leads-pure _ _ _ _
                            λ s h. In-map Any (Stands false) n n s (omega arith) (λ k u e. cc) h)
    where
      steady :
          {A : Type 0} (m : Run A)
          → Steady m
          → Leads (In Any n) (In (λ k. k ≡ 4) n) (λ _. In (λ k. k ≡ 4) n) m
      steady m h =
          Leads-Steady _ (λ k. k ≡ 4) n m h
            λ s p. In-map (λ k. k ≡ 4) Any n n s (omega arith) (λ k e. tt) p

  Leads-roll_back :
      (path pre_merge : String) (e : Failure) (n : ℕ)
      → Leads (In Any n) (In Any n) (λ m. In (Stands m.integrated) n) (roll_back w path pre_merge e)
  unfolding roll_back
  Leads-roll_back path pre_merge e n =
      Leads-bind _ _ (λ _. In Any n) _ _ _
        (Leads-catching (In Any n) _ _ _ _ _
          (Leads-await w Any Any (λ _. Any) n n _ _ (λ o k e. (tt, omega arith)) (λ a k e. tt)
            (λ e k h. tt))
          λ _. Leads-pure _ _ _ tt (λ s h. h))
        λ _.
          Leads-bind _ _ (λ _. In Any n) _ _ _ (Leads-reset_hard _ _ Any n)
            λ _.
              Leads-bind _ _ (λ _. In Any n) _ _ _
                (Leads-Steady _ Any n _ (Steady-lock _) (λ s h. h))
                λ _. Leads-raise _ _ _ e (λ s h. h)

  pub Leads-integrate_task :
      (job_id : String) (task : TaskRecord) (path : String) (n : ℕ)
      → Leads
          (In Any n)
          (In (λ k. k ≡ 3) n)
          (λ m. In (Stands m.integrated) n)
          (integrate_task w job_id task path)
  unfolding integrate_task
  Leads-integrate_task job_id task path n =
      Leads-bind _ _ (λ _. In (λ k. k ≡ 3) n) _ _ _ (steady _ (Steady-lock _))
        λ _.
          Leads-bind _ _ (λ _. In (λ k. k ≡ 3) n) _ _ _ (steady _ (Steady-lock _))
            λ _.
              Leads-bind _ _ (λ _. In (λ k. k ≡ 3) n) _ _ _ (steady _ (Steady-update _ _))
                λ _.
                  Leads-bind _ _ (λ _. In (λ k. k ≡ 3) n) _ _ _ (steady _ (Steady-waited w _ _))
                    λ pre_merge.
                      Leads-catching (In Any n) _ _ _ _ _
                        (Leads-bind _ _ (λ b. In (Stands b) n) _ _ _
                          (Leads-merge_or_resolve _ _ _ n)
                          λ standing.
                            Leads-if _ _ _ standing _ _
                              (λ yes.
                                Leads-map _ _ (In (λ k. k ≡ 4) n) _ _ _ _ (λ s h. h)
                                  (λ s h.
                                    In-map (Stands standing) (λ k. k ≡ 4) n n s (omega arith)
                                      (λ k f. f yes) h)
                                  (λ a s h. h) (Leads-check_merge _ _ _ _ n))
                              (λ no. Leads-pure _ _ _ _ λ s h.
                                In-map (Stands standing) (Stands false) n n s (omega arith)
                                  (λ k f e. cc) h))
                        (λ e. Leads-roll_back _ _ e n)
    where
      steady :
          {A : Type 0} (m : Run A)
          → Steady m
          → Leads (In Any n) (In (λ k. k ≡ 3) n) (λ _. In (λ k. k ≡ 3) n) m
      steady m h =
          Leads-Steady _ (λ k. k ≡ 3) n m h
            λ s p. In-map (λ k. k ≡ 3) Any n n s (omega arith) (λ k e. tt) p
