-- ===== src/Execution/Discipline.antt =====
-- What a task may do in which order, read off the effects of its coroutine, newest first.
use omarchy_yolo.Prelude.{ℕ, ◌+◌, ◌≤◌, ◌≡◌, ◌&&◌, [], ◌∷◌, ◌==◌, nat_eq, leb, if◌then◌else◌}
use omarchy_yolo.Db.Commits.{IsConsistent}
use omarchy_yolo.Execution.Runs.{
  GateScope, Effect, worker_ran, gated, task_reviewed, final_reviewed, merging, resetting, aborting,
  waited, Log, State,
}

-- Where the latest work stands: 1, the worker succeeded; 2, its gates passed as well; 3, a review
-- passed on top; 4, its merge began; 5, the final gates passed; 6, the final review passed on top; 0,
-- none of these.
abbrev pub advance : Effect → ℕ → ℕ
advance (worker_ran agent ok) k = if ok then 1 else 0
advance (gated GateScope.task_worktree ok) k = if ok && k == 1 then 2 else 0
advance (gated GateScope.merged ok) k = k
advance (gated GateScope.merge_repaired ok) k = k
advance (gated GateScope.final_audit ok) k = if ok then 5 else 0
advance (task_reviewed ok) k = if leb 2 k then (if ok then 3 else 2) else 0
advance (final_reviewed ok) k = if ok && k == 5 then 6 else 0
advance merging k = if k == 3 then 4 else 0
advance resetting k = 0
advance aborting k = 0
advance (waited name) k = k

unfoldable pub stage : Log → ℕ
stage [] = 0
stage (e ∷ log) = advance e (stage log)

-- A merge begins only where the worker, the gates and the review have passed.
abbrev pub IsAllowed : Effect → ℕ → Type 0
IsAllowed merging k = k ≡ 3
IsAllowed (worker_ran agent ok) k = Unit
IsAllowed (gated scope ok) k = Unit
IsAllowed (task_reviewed ok) k = Unit
IsAllowed (final_reviewed ok) k = Unit
IsAllowed resetting k = Unit
IsAllowed aborting k = Unit
IsAllowed (waited name) k = Unit

abbrev pub IsDisciplined : Log → Type 0
IsDisciplined [] = Unit
IsDisciplined (e ∷ log) = IsAllowed e (stage log) × IsDisciplined log

abbrev pub cost : Effect → ℕ
cost (worker_ran agent ok) = 1
cost (gated scope ok) = 0
cost (task_reviewed ok) = 0
cost (final_reviewed ok) = 0
cost merging = 0
cost resetting = 0
cost aborting = 0
cost (waited name) = 0

-- How many times a worker ran.
unfoldable pub worker_runs : Log → ℕ
worker_runs [] = 0
worker_runs (e ∷ log) = cost e + worker_runs log

-- A consistent store and a disciplined log with at most `n` runs, at a stage in `K`.
pub record In (K : ℕ → Type 0) (n : ℕ) (s : State) : Type 0 where
  pub consistent : IsConsistent s.db
  pub disciplined : IsDisciplined s.log
  pub budget : worker_runs s.log ≤ n
  pub at_stage : K (stage s.log)

abbrev pub Any : ℕ → Type 0
Any k = Unit {0}
