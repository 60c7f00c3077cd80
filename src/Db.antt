-- ===== src/Db.antt =====
-- src/omarchy_yolo/db.py and its parts: the durable store of jobs, tasks, attempts, events and
-- dossiers. `Rows` is the schema, `Actions` the transactions, `Core` the validated snapshot of
-- db_core.py; `Mutations` is db.py, `Records` db_records.py, `Recovery` db_recovery.py and
-- `Provenance` db_provenance.py.
pub mod Rows
pub mod Actions
pub mod Core
pub mod Mutations
pub mod Records
pub mod Recovery
pub mod Provenance
pub mod Views
pub mod Keys
pub mod Frames
pub mod Writes
pub mod Inserts
pub mod Commits
pub mod Soundness
pub mod History
pub mod JobRules
pub mod Moves
