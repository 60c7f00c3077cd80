-- ===== src/Tests/Runs.antt =====
-- A task that is run by an agent, reviewed by another one and merged.
use omarchy_yolo.Prelude.{
  map, ◌≡◌, ◌⊎◌, refl, true, false, none, some, List, [], ◌∷◌, ◌==◌, string_eq, pos, last_text,
  strip, strip_chars, lstrip, rstrip, is_space, append_text,
}
use omarchy_yolo.Prelude.Fallible
use omarchy_yolo.Prelude.Fallible.{Fallible, returns, raises, refuse_if, traverse}
use omarchy_yolo.Prelude.Tables.{select, fetchone, update, rowcount}
use omarchy_yolo.Model.{JobState, JobRecord, AcceptancePhase}
use omarchy_yolo.StateMachine.{
  job_transitions, task_transitions, attempt_transitions, validate_job_transition,
  validate_task_transition, validate_attempt_transition, check_graph, parse_phase, check_phase,
  validate_job_snapshot,
}
use omarchy_yolo.Config.Values.{text, entry, no_entries, Entries, get}
use omarchy_yolo.Agents.{
  is_some_fit, Agent, AgentRole, supports, find_agent, available, first_available, choose_role,
}
use omarchy_yolo.Agents.Choice.{IsChoice, choose_role-IsChoice}
use omarchy_yolo.Reviews.{read_review, read_finding}
use omarchy_yolo.Db.Rows.{Database, empty_database}
use omarchy_yolo.Db.Actions
use omarchy_yolo.Db.Core.{
  find_job, find_task, find_attempt, tasks_of, running_attempts, join_states, task_states,
  owner_states, snapshot_locked, validate_snapshot_locked, insert_job, insert_task, insert_attempt,
  append_event, insert_event, rewrite_jobs, rewrite_tasks, rewrite_attempts, update_jobs,
  update_tasks, update_attempts,
}
use omarchy_yolo.Db.Mutations.{
  has_frozen_fields, has_job_fields, assign_job, update_job_row, update_job, has_task_fields,
  assign_task, running_attempt, activate_job, update_task_row, update_task, start_attempt,
  finish_attempt_row, finish_attempt,
}
use omarchy_yolo.Db.Records.{
  create_job, task_rows, get_job, get_task, list_tasks, add_tasks, event, stored_payload,
}
use omarchy_yolo.Db.Commits.{IsConsistent}
use omarchy_yolo.Db.History.{Mutation, perform, replay, replay-IsConsistent, empty-IsConsistent}
use omarchy_yolo.Execution.Runs.{
  other, State, World, pure, raise, fresh, catching, store, await, lock, emit, ◌>>=◌,
}
use omarchy_yolo.Execution.Integrate.{
  run_gates, finish_resolution, resolve_cycle, resolve_merge_conflict, repair_by,
  repair_integration, merge_or_resolve, gates_or_repair, check_merge, roll_back, integrate_task,
}
use omarchy_yolo.Execution.Worktrees.{
  choose_worker, recover_worktree, create_worktree, prepare_worktree,
}
use omarchy_yolo.Execution.Calls.{
  reject, launch_failed, launch, review_candidates, review_task_resilient, cleanup_failed,
  remove_worktree,
}
use omarchy_yolo.Execution.Attempts.{
  accept, integrate, review_then_integrate, gate_then_review, judge, run_attempt, exhaust,
  run_attempts, run_task_with_slot,
}
use omarchy_yolo.Reviews.{all_findings, review_failure}
use omarchy_yolo.Execution.Finalize.{
  reviews_of, review_shards, review_files, judge_shards, hierarchical_final_review, repair_or_raise,
  review_cycle, final_cycle, final_cycles, finalize,
}
use omarchy_yolo.Execution.Discipline.{stage}
use omarchy_yolo.Execution.Audited.{EndsAudited, finalize-EndsAudited}
use omarchy_yolo.Execution.Jobs.{resume_accepted_job, settle_job}
use omarchy_yolo.Execution.Jobs.Settled.{settle_job-LeavesBy}
use omarchy_yolo.Execution.Jobs.Verified.{IsRefused, IsVerified, resume_accepted_job-IsVerified}
use omarchy_yolo.Execution.Jobs.Untouched.{IsUntouched}
use omarchy_yolo.Execution.Budget.{IsOrderly, run_task-IsOrderly}
use omarchy_yolo.Tests.Store.{digest, published_job, Call, at, new_job, planned, job_to, sha}
use omarchy_yolo.Tests.Settings.{hostile}

abbrev worker : Agent
worker = record {
  name = "codex";
  is_available = true;
  supports_profile = λ profile. profile == "yolo-worktree";
  supports_role = none;
}

abbrev reviewer : Agent
reviewer = record {
  name = "claude";
  is_available = true;
  supports_profile = λ profile. true;
  supports_role = none;
}

choose_role-IsChoice_example :
    IsChoice none
      (some AgentRole.reviewer)
      (worker ∷ reviewer ∷ [])
      (choose_role (worker ∷ reviewer ∷ []) "codex" ("codex" ∷ []) none (some AgentRole.reviewer))
    × ((choose_role (worker ∷ reviewer ∷ []) "codex" ("codex" ∷ []) none (some AgentRole.reviewer)
          ≡ returns "codex")
        ⊎ (is_some_fit none (some AgentRole.reviewer) (find_agent "codex" (worker ∷ reviewer ∷ []))
            ≡ false))
choose_role-IsChoice_example =
    choose_role-IsChoice none (some AgentRole.reviewer) (worker ∷ reviewer ∷ []) "codex"
      ("codex" ∷ [])

abbrev passing_review : Entries
passing_review = entry "verdict" (text "pass") (entry "summary" (text "good") no_entries)

abbrev world : World
world = record {
  registry = worker ∷ reviewer ∷ [];
  config = hostile;
  now = λ log. 10;
  meanwhile = λ log. [];
  new_id = λ log. "attempt-1";
  pause = λ log. returns tt;
  run_agent = λ log agent prompt. returns record { returncode = pos 0; stdout = "{}"; stderr = "" };
  detect_gate_commands = λ log cwd. returns ("make test" ∷ []);
  run_gates = λ log commands cwd. returns [];
  extract_json_object = λ answer. returns passing_review;
  lower = λ s. s;
  review_message = λ e. "review";
  exit_message = λ r. "exit";
  worktrees_dir = "/worktrees";
  log_path = λ job task number agent. "/log";
  git = λ log call args. returns tt;
  git_text = λ log call args. returns "c1";
  git_files = λ log path. returns [];
  branch_exists = λ log branch. returns false;
  sha256 = sha;
  json_dumps = λ payload. "{}";
  message = λ e. "error";
  path = λ parts. "/worktrees/task";
  slug = λ s. s;
  show_nat = λ n. "n";
  show_int = λ n. "n";
  worker_prompt = λ goal task context. goal;
  review_prompt = λ goal task diff gates. goal;
  merge_issue = λ task e files. e;
  repair_prompt = λ goal issue. issue;
  format_gates = λ results. "";
  review_chunks = λ log path base. returns record {
    manifest = "a" ∷ [];
    chunks = record { index = 1; files = "a" ∷ []; content = "+a" } ∷ [];
  };
  plan = λ log agent goal. returns record { summary = "plan"; tasks = planned ∷ [] };
  with_ids = λ log tasks. map (λ t. record { id = "task-1"; task = t }) tasks;
  build_dossier = λ log job commit summary.
      returns record { schema_version = 1; sha256 = digest; content = digest };
  reconcile = λ log job. returns record { outcome = "applied"; reason = "" };
  chunk_prompt = λ goal gates total chunk. chunk.content;
  file_prompt = λ goal gates file reviews. file;
  synthesis_prompt = λ goal gates manifest files. goal;
}

-- A planned job with one pending task.
abbrev planned_calls : List Call
planned_calls =
    at 1 (Mutation.create_job new_job "job-1")
    ∷ at 2 (job_to JobState.planning)
    ∷ at 3 (Mutation.add_tasks "job-1" (record { id = "task-1"; task = planned } ∷ []))
    ∷ []

abbrev planned_db : Database
planned_db = replay sha planned_calls empty_database

run_task-IsOrderly_example :
    IsOrderly 3
      (run_task_with_slot world "job-1" "task-1" "/integration"
        (record { db = planned_db; log = [] })).0
      (run_task_with_slot world "job-1" "task-1" "/integration"
        (record { db = planned_db; log = [] })).1.log
run_task-IsOrderly_example =
    run_task-IsOrderly world "job-1" "task-1" "/integration" planned_db
      (replay-IsConsistent sha planned_calls empty_database empty-IsConsistent)

finalize-EndsAudited_example :
    EndsAudited
      (finalize world "job-1" "/integration" (record { db = planned_db; log = [] })).0
      (stage (finalize world "job-1" "/integration" (record { db = planned_db; log = [] })).1.log)
    × IsConsistent
        (finalize world "job-1" "/integration" (record { db = planned_db; log = [] })).1.db
finalize-EndsAudited_example =
    finalize-EndsAudited world "job-1" "/integration" planned_db
      (replay-IsConsistent sha planned_calls empty_database empty-IsConsistent)

-- The job after its acceptance was journaled.
abbrev accepted_job : JobRecord
accepted_job = record published_job {
  state = JobState.running;
  acceptance_phase = AcceptancePhase.applying;
}

abbrev accepted_state : State
accepted_state = record { db = record planned_db { jobs = accepted_job ∷ [] }; log = [] }

tasks_cancelled : (lock world "_cancel_active" accepted_state).0 ≡ returns tt
unfolding await
tasks_cancelled = refl

accepted_found :
    find_job "job-1" (lock world "_cancel_active" accepted_state).1.db ≡ some accepted_job
unfolding await replay find_job fetchone
accepted_found = refl

settle_job-LeavesBy_example :
    IsUntouched
      (other "lost")
      (lock world "_cancel_active" accepted_state).1.db
      (settle_job world "job-1" (other "lost") accepted_state)
settle_job-LeavesBy_example =
    settle_job-LeavesBy world "job-1" (other "lost") accepted_state accepted_job tasks_cancelled
      accepted_found

-- The store with the dossier that was staged for the job.
abbrev staged_state : State
staged_state = record accepted_state {
  db = record accepted_state.db {
    dossiers =
        record {
          job_id = "job-1";
          schema_version = 1;
          sha256 = digest;
          content = digest;
          created_at = 10;
          published = false;
        }
        ∷ [];
  };
}

resume_accepted_job-IsVerified_example :
    IsRefused staged_state (resume_accepted_job world accepted_job staged_state)
    ⊎ IsVerified world accepted_job staged_state.db
resume_accepted_job-IsVerified_example =
    resume_accepted_job-IsVerified world accepted_job staged_state

-- The run above merges the task at once.
task_merged :
    (run_task_with_slot world "job-1" "task-1" "/integration"
      (record { db = planned_db; log = [] })).0
    ≡ returns true
unfolding select fetchone update rowcount last_text job_transitions task_transitions
    attempt_transitions validate_job_transition validate_task_transition validate_attempt_transition
    check_graph parse_phase check_phase validate_job_snapshot perform replay Actions.pure
    Actions.raise Actions.gets Actions.get_row Actions.lift Actions.modify Actions.raise_when
    Actions.when Actions.◌>>=◌ Actions.for_each Actions.transaction find_job find_task find_attempt
    tasks_of running_attempts join_states task_states owner_states snapshot_locked
    validate_snapshot_locked insert_job insert_task insert_attempt append_event insert_event
    rewrite_jobs rewrite_tasks rewrite_attempts update_jobs update_tasks update_attempts create_job
    task_rows get_job get_task list_tasks add_tasks event stored_payload has_frozen_fields
    has_job_fields assign_job update_job_row update_job has_task_fields assign_task running_attempt
    activate_job update_task_row update_task start_attempt finish_attempt_row finish_attempt strip
    strip_chars lstrip rstrip is_space append_text Fallible.◌>>=◌ refuse_if traverse get read_review
    read_finding supports find_agent available first_available choose_role pure raise fresh catching
    store await emit ◌>>=◌ run_gates finish_resolution resolve_cycle resolve_merge_conflict
    repair_by repair_integration merge_or_resolve gates_or_repair check_merge roll_back
    integrate_task choose_worker recover_worktree create_worktree prepare_worktree reject
    launch_failed launch review_candidates review_task_resilient cleanup_failed remove_worktree
    accept integrate review_then_integrate gate_then_review judge run_attempt exhaust run_attempts
    run_task_with_slot
task_merged = refl

-- The audit of the same job returns the summary of its synthesis.
audit_passed :
    (finalize world "job-1" "/integration" (record { db = planned_db; log = [] })).0
    ≡ returns "good"
unfolding select fetchone update rowcount last_text job_transitions task_transitions
    attempt_transitions validate_job_transition validate_task_transition validate_attempt_transition
    check_graph parse_phase check_phase validate_job_snapshot perform replay Actions.pure
    Actions.raise Actions.gets Actions.get_row Actions.lift Actions.modify Actions.raise_when
    Actions.when Actions.◌>>=◌ Actions.for_each Actions.transaction find_job find_task find_attempt
    tasks_of running_attempts join_states task_states owner_states snapshot_locked
    validate_snapshot_locked insert_job insert_task insert_attempt append_event insert_event
    rewrite_jobs rewrite_tasks rewrite_attempts update_jobs update_tasks update_attempts create_job
    task_rows get_job get_task list_tasks add_tasks event stored_payload has_frozen_fields
    has_job_fields assign_job update_job_row update_job has_task_fields assign_task running_attempt
    activate_job update_task_row update_task start_attempt finish_attempt_row finish_attempt strip
    strip_chars lstrip rstrip is_space append_text Fallible.◌>>=◌ refuse_if traverse get read_review
    read_finding supports find_agent available first_available choose_role pure raise fresh catching
    store await emit ◌>>=◌ run_gates finish_resolution resolve_cycle resolve_merge_conflict
    repair_by repair_integration merge_or_resolve gates_or_repair check_merge roll_back
    integrate_task choose_worker recover_worktree create_worktree prepare_worktree reject
    launch_failed launch review_candidates review_task_resilient cleanup_failed remove_worktree
    accept integrate review_then_integrate gate_then_review judge run_attempt exhaust run_attempts
    run_task_with_slot all_findings review_failure reviews_of review_shards review_files
    judge_shards hierarchical_final_review repair_or_raise review_cycle final_cycle final_cycles
    finalize
audit_passed = refl
