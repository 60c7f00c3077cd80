-- ===== src/Db/JobRules.antt =====
-- What consistency says of one job row, its tasks and its running attempts.
use omarchy_yolo.Prelude.{ℕ, String, ◌≡◌, sym, ap, subst, some, List}
use omarchy_yolo.Model.{AcceptancePhase, JobRecord, phase_value}
use omarchy_yolo.StateMachine.{parse_phase}
use omarchy_yolo.StateMachine.Checks.{
  GraphRules, PhaseRules, validate_job_snapshot_iff, parse-phase_value,
}
use omarchy_yolo.Db.Rows.{Database, empty_database}
use omarchy_yolo.Db.Core.{find_job, snapshot_of, task_states, owner_states, snapshot_locked}
use omarchy_yolo.Db.Commits.{IsConsistent}
use omarchy_yolo.Db.History.{Mutation, replay, replay-IsConsistent, empty-IsConsistent}

phase_value-injective : (p q : AcceptancePhase) → phase_value p ≡ phase_value q → p ≡ q
phase_value-injective p q e = cc (parse-phase_value p, parse-phase_value q, ap parse_phase e)

-- The rules of a consistent store, for a job that it holds.
IsConsistent-rules :
    (db : Database) (j : String) (row : JobRecord)
    → IsConsistent db
    → find_job j db ≡ some row
    → GraphRules row.state (task_states j db) (owner_states j db) row.stop_requested
      × PhaseRules row.state (task_states j db) (owner_states j db) row.acceptance_phase
unfolding snapshot_locked
IsConsistent-rules db j row c e =
    let (graph, (phase, same, rules)) =
      (validate_job_snapshot_iff (snapshot_of (task_states j db) (owner_states j db) row)).0
        (c.valid j (snapshot_of (task_states j db) (owner_states j db) row) (rw e)) in
    (
      graph,
      subst (PhaseRules row.state (task_states j db) (owner_states j db))
          (sym (phase_value-injective row.acceptance_phase phase same)) rules,
    )

-- After any history of calls on a new store, every job row obeys the rules of the state machine
-- together with its tasks and its running attempts: those of the graph and of the acceptance.
pub replay-job_rules :
    (sha256_hex : String → String) (calls : List (record { time : ℕ; call : Mutation }))
    (j : String) (row : JobRecord)
    → find_job j (replay sha256_hex calls empty_database) ≡ some row
    → let db = replay sha256_hex calls empty_database in
      GraphRules row.state (task_states j db) (owner_states j db) row.stop_requested
      × PhaseRules row.state (task_states j db) (owner_states j db) row.acceptance_phase
replay-job_rules sha256_hex calls j row e =
    IsConsistent-rules _ j row
      (replay-IsConsistent sha256_hex calls empty_database empty-IsConsistent) e
