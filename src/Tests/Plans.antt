-- ===== src/Tests/Plans.antt =====
-- Plans that the planner accepts or refuses, and rounds of the scheduler.
use omarchy_yolo.Prelude.{
  ℕ, ◌≤◌, ◌≢◌, String, ◌≡◌, ◌↔◌, refl, false, none, List, [], ◌∷◌, arith, ◌==◌, string_eq, All,
  length, if◌then◌else◌, inl, inr,
}
use omarchy_yolo.Prelude.Tables.{select}
use omarchy_yolo.Model.{TaskState, PlannedTask, TaskRecord}
use omarchy_yolo.Planner.{
  PlanError, pass, fail, ids_of, is_task_id, deps_of, validate_task, validate_tasks, visit_all,
  visit, visit_graph, validate,
}
use omarchy_yolo.Planner.Order.{IsRanking}
use omarchy_yolo.Planner.Complete.{IsClosed, visit_graph-IsCycle, visit_graph_iff}
use omarchy_yolo.Planner.Accepted.{IsPlan, validate-IsPlan, validate_tasks-All, deps_of-All}
use omarchy_yolo.Scheduler.{
  Handle, Round, is_running, completed_ids, active_ids, is_ready, launched_tasks, settle_round,
  execute_round,
}
use omarchy_yolo.Scheduler.Launch.{MayStart, execute_round-launch}
use omarchy_yolo.Scheduler.Progress.{execute_round-ne-stalled}
use omarchy_yolo.Scheduler.Planned.{validate-ne-stalled}

abbrev task : String → List String → PlannedTask
task i ds = record {
  logical_id = i;
  title = "title";
  description = "text";
  depends_on = ds;
  acceptance = "works" ∷ [];
  preferred_agent = none;
  risk = "low";
}

abbrev plan : List PlannedTask
plan = task "b" ("a" ∷ []) ∷ task "a" [] ∷ []

abbrev cyclic : List PlannedTask
cyclic = task "b" ("a" ∷ []) ∷ task "a" ("b" ∷ []) ∷ []

plan_passes : validate 5 plan ≡ pass ("b" ∷ "a" ∷ [])
unfolding is_task_id validate_task validate_tasks deps_of visit_all visit visit_graph validate
plan_passes = refl

cyclic_fails : visit_graph cyclic ≡ fail PlanError.dependency_cycle
unfolding deps_of visit_all visit visit_graph
cyclic_fails = refl

cyclic_checked : validate_tasks (ids_of cyclic) cyclic ≡ pass tt
unfolding validate_task validate_tasks
cyclic_checked = refl

cyclic-IsClosed : IsClosed cyclic
cyclic-IsClosed = λ n deps e.
    deps_of-All (ids_of cyclic) n cyclic deps
      (validate_tasks-All (ids_of cyclic) cyclic cyclic_checked) e

validate-IsPlan_example : IsPlan 5 plan ("b" ∷ "a" ∷ [])
validate-IsPlan_example = validate-IsPlan 5 plan ("b" ∷ "a" ∷ []) plan_passes

visit_graph-IsCycle_example : PlanError.dependency_cycle ≡ PlanError.dependency_cycle
visit_graph-IsCycle_example =
    visit_graph-IsCycle cyclic PlanError.dependency_cycle cyclic-IsClosed cyclic_fails

visit_graph_iff_example :
    ((order : List String) × (visit_graph plan ≡ pass order))
    ↔ ((r : String → ℕ) × IsRanking plan r)
visit_graph_iff_example =
    visit_graph_iff plan (validate-IsPlan 5 plan ("b" ∷ "a" ∷ []) plan_passes).closed

abbrev row : String → String → TaskState → List String → TaskRecord
row i name s ds = record {
  id = i;
  job_id = "job-1";
  seq = 1;
  logical_id = name;
  title = "title";
  description = "text";
  state = s;
  dependencies = ds;
  acceptance = [];
  preferred_agent = none;
  attempts = 0;
  branch = "";
  worktree = "";
  base_commit = "";
  last_error = "";
  result_summary = "";
  created_at = 1;
  updated_at = 1;
}

abbrev rows : List TaskRecord
rows =
    row "1" "a" TaskState.completed []
    ∷ row "2" "b" TaskState.pending ("a" ∷ [])
    ∷ row "3" "c" TaskState.pending ("b" ∷ [])
    ∷ []

abbrev b_row : TaskRecord
b_row = row "2" "b" TaskState.pending ("a" ∷ [])

abbrev other : Handle
other = record { name = "9"; done = false }

abbrev b_handle : Handle
b_handle = record { name = "2"; done = false }

round_waits :
    execute_round false 2 rows (other ∷ []) ≡ Round.waiting (b_row ∷ []) (other ∷ b_handle ∷ [])
unfolding select completed_ids active_ids is_ready launched_tasks settle_round execute_round
round_waits = refl

one_running : length (select is_running (other ∷ [])) ≤ 2
unfolding select
one_running = omega arith

execute_round-launch_example :
    All (MayStart rows (other ∷ [])) (b_row ∷ []) × (length (other ∷ b_handle ∷ []) ≤ 2)
execute_round-launch_example =
    execute_round-launch false 2 rows (other ∷ []) (b_row ∷ []) (other ∷ b_handle ∷ []) round_waits
      one_running

abbrev level : String → ℕ
level s = if s == "c" then 2 else if s == "b" then 1 else 0

execute_round-ne-stalled_example : execute_round false 2 rows [] ≢ Round.stalled []
execute_round-ne-stalled_example =
    execute_round-ne-stalled false 2 rows [] level [] (omega arith)
      (tt, (((refl, omega arith), tt), (((refl, omega arith), tt), tt)))
      (inr (inl refl), (inl refl, (inl refl, tt)))

abbrev plan_rows : List TaskRecord
plan_rows = row "2" "b" TaskState.pending ("a" ∷ []) ∷ row "1" "a" TaskState.completed [] ∷ []

validate-ne-stalled_example : execute_round false 1 plan_rows [] ≢ Round.stalled []
validate-ne-stalled_example =
    validate-ne-stalled 5 plan ("b" ∷ "a" ∷ []) false 1 plan_rows [] [] plan_passes
      (refl, refl, (refl, refl, tt)) (inl refl, (inr (inl refl), tt)) (omega arith)
