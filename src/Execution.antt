-- ===== src/Execution.antt =====
-- src/omarchy_yolo/orchestrator_task.py and orchestrator_integration.py: the attempts of a task and
-- the merge of its branch, over the store of Db.
pub mod Runs
pub mod Integrate
pub mod Worktrees
pub mod Calls
pub mod Attempts
pub mod Finalize
pub mod Jobs
pub mod Audited
pub mod Discipline
pub mod Rules
pub mod Merges
pub mod Reviewed
pub mod Ordered
pub mod Budget
