-- ===== src/Db/Rows.antt =====
-- The tables of SCHEMA in src/omarchy_yolo/db_core.py. A table is the list of its rows in order of
-- insertion. The columns of `jobs` and `tasks` are those of JobRecord and TaskRecord.
use omarchy_yolo.Prelude.{ℕ, ℤ, String, Bool, Option, List, []}
use omarchy_yolo.Model.{AttemptState, JobRecord, TaskRecord}

pub record AttemptRow : Type 0 where
  pub id : String
  pub job_id : String
  pub task_id : String
  pub number : ℕ
  pub agent : String
  pub state : AttemptState
  pub worktree : String
  pub branch : String
  pub log_path : String
  pub started_at : ℕ
  pub finished_at : Option ℕ
  pub returncode : Option ℤ
  pub summary : String

-- The values of an event's payload. The row keeps the payload itself in place of its JSON text.
pub data PayloadValue : Type 0 where
  text : String → PayloadValue
  number : ℕ → PayloadValue
  boolean : Bool → PayloadValue
  texts : List String → PayloadValue
  integer : ℤ → PayloadValue

pub record EventRow : Type 0 where
  pub id : ℕ
  pub job_id : String
  pub task_id : Option String
  pub kind : String
  pub payload : List (record { key : String; value : PayloadValue })
  pub created_at : ℕ

pub record DossierRow : Type 0 where
  pub job_id : String
  pub schema_version : ℕ
  pub sha256 : String
  pub content : String
  pub published : Bool
  pub created_at : ℕ

-- `event_sequence` is the AUTOINCREMENT counter of `events`: the last id given out.
pub record Database : Type 0 where
  pub jobs : List JobRecord
  pub tasks : List TaskRecord
  pub attempts : List AttemptRow
  pub events : List EventRow
  pub event_sequence : ℕ
  pub dossiers : List DossierRow

abbrev pub empty_database : Database
empty_database = record {
  jobs = [];
  tasks = [];
  attempts = [];
  events = [];
  event_sequence = 0;
  dossiers = [];
}
