-- ===== src/Db/Soundness.antt =====
-- Every public mutation of the store keeps it consistent: `Jobs` for db.py, `Resume` for
-- db_records.py and db_recovery.py, `Accept` for db_provenance.py.
mod Jobs
mod Resume
mod Restart
mod Accept
pub use Jobs.*
pub use Resume.*
pub use Restart.*
pub use Accept.*
