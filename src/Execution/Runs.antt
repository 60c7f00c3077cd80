-- ===== src/Execution/Runs.antt =====
-- Coroutines that use the store and await the world outside of it. An await answers by the effects
-- so far, and while it waits the other coroutines call the store.
use omarchy_yolo.Prelude.{ℕ, ℤ, String, Bool, Option, List, ◌∷◌, Result, ok, err, Error}
use omarchy_yolo.Prelude.Fallible.{Fallible, returns, raises}
use omarchy_yolo.Model.{PlannedTask, JobRecord, TaskRecord}
use omarchy_yolo.Db.Provenance.{Dossier}
use omarchy_yolo.Agents.{Agent, AgentResult, GateResult, ReviewResult}
use omarchy_yolo.Config.{Config}
use omarchy_yolo.Config.Values.{Entries}
use omarchy_yolo.Reviews.{ReviewError, Entry}
use omarchy_yolo.Db.Rows.{Database, PayloadValue}
use omarchy_yolo.Db.Actions.{Action}
use omarchy_yolo.Db.History.{Mutation, replay}
use omarchy_yolo.Db.Records
use omarchy_yolo.Db.Records.{entry}

-- An exception: CancelledError, MergeConflict, another GitError, or any other one.
pub data Failure : Type 0 where
  cancelled : Failure
  merge_conflict git_error other : String → Failure

-- `str(exc)`
abbrev pub describe : Failure → String
describe cancelled = ""
describe (merge_conflict s) = s
describe (git_error s) = s
describe (other s) = s

pub data GateScope : Type 0 where
  task_worktree merged merge_repaired final_audit : GateScope

-- What a coroutine did outside of the store, with the answer's outcome.
pub data Effect : Type 0 where
  worker_ran : String → Bool → Effect
  gated : GateScope → Bool → Effect
  task_reviewed final_reviewed : Bool → Effect
  merging resetting aborting : Effect
  waited : String → Effect

abbrev pub Log : Type 0
Log = List Effect

pub record State : Type 0 where
  pub db : Database
  pub log : Log

-- ReviewChunk of review_source.py, and the result of `build_review_chunks`.
pub record Chunk : Type 0 where
  pub index : ℕ
  pub files : List String
  pub content : String

pub record Shards : Type 0 where
  pub manifest : List String
  pub chunks : List Chunk

-- What `reconcile_fast_forward_source` answers.
pub record Reconciled : Type 0 where
  pub outcome : String
  pub reason : String

-- What the planner answers.
pub record Plan : Type 0 where
  pub summary : String
  pub tasks : List PlannedTask

-- The world outside: the clock, other coroutines, agents, gates, Git, and the texts for them.
pub record World : Type 0 where
  pub registry : List Agent
  pub config : Config
  pub now : Log → ℕ
  pub meanwhile : Log → List (record { time : ℕ; call : Mutation })
  pub new_id : Log → String
  pub pause : Log → Fallible Failure (Unit {0})
  pub run_agent : Log → String → String → Fallible Failure AgentResult
  pub detect_gate_commands : Log → String → Fallible Failure (List String)
  pub run_gates : Log → List String → String → Fallible Failure (List GateResult)
  pub extract_json_object : String → Fallible Failure Entries
  pub lower : String → String
  pub review_message : ReviewError → String
  pub exit_message : AgentResult → String
  pub worktrees_dir : String
  pub log_path : String → String → ℕ → String → String
  pub git : Log → String → List String → Fallible Failure (Unit {0})
  pub git_text : Log → String → List String → Fallible Failure String
  pub git_files : Log → String → Fallible Failure (List String)
  pub branch_exists : Log → String → Fallible Failure Bool
  pub sha256 : String → String
  pub json_dumps : List (record { key : String; value : PayloadValue }) → String
  pub message : Error → String
  pub path : List String → String
  pub slug : String → String
  pub show_nat : ℕ → String
  pub show_int : ℤ → String
  pub worker_prompt : String → TaskRecord → String → String
  pub review_prompt : String → TaskRecord → String → List GateResult → String
  pub merge_issue : TaskRecord → String → List String → String
  pub repair_prompt : String → String → String
  pub format_gates : List GateResult → String
  pub plan : Log → String → String → Fallible Failure Plan
  pub with_ids : Log → List PlannedTask → List (record { id : String; task : PlannedTask })
  pub build_dossier : Log → String → String → String → Fallible Failure Dossier
  pub reconcile : Log → JobRecord → Fallible Failure Reconciled
  pub review_chunks : Log → String → String → Fallible Failure Shards
  pub chunk_prompt : String → List GateResult → ℕ → Chunk → String
  pub file_prompt : String → List GateResult → String → List ReviewResult → String
  pub synthesis_prompt : String → List GateResult → List String → List Entry → String

abbrev pub Run : Type 0 → Type 0
Run A = State → Fallible Failure A × State

module _ {A : Type 0} where
  unfoldable pub pure : A → Run A
  pure a s = (returns a, s)

  unfoldable pub raise : Failure → Run A
  raise f s = (raises f, s)

module _ {A B : Type 0} where
  abbrev pub continue : Fallible Failure A → (A → Run B) → State → Fallible Failure B × State
  continue (returns a) f s = f a s
  continue (raises e) f s = (raises e, s)

  infixl 5 ◌>>=◌ ◌>>◌
  unfoldable pub ◌>>=◌ : Run A → (A → Run B) → Run B
  ◌>>=◌ m f s = let (o, s') = m s in continue o f s'

  abbrev pub ◌>>◌ : Run A → Run B → Run B
  m >> k = m >>= λ _. k

module _ {A : Type 0} where
  abbrev pub recover : Fallible Failure A → (Failure → Run A) → State → Fallible Failure A × State
  recover (returns a) handler s = (returns a, s)
  recover (raises e) handler s = handler e s

  -- `try: m except BaseException as e: handler(e)`
  unfoldable pub catching : Run A → (Failure → Run A) → Run A
  catching m handler s = let (o, s') = m s in recover o handler s'

  abbrev pub unless_cancelled : (Failure → Run A) → Failure → Run A
  unless_cancelled handler cancelled = raise cancelled
  unless_cancelled handler (merge_conflict e) = handler (merge_conflict e)
  unless_cancelled handler (git_error e) = handler (git_error e)
  unless_cancelled handler (other e) = handler (other e)

  -- `try: m except Exception as exc: handler(exc)`
  abbrev pub excepting : Run A → (Failure → Run A) → Run A
  excepting m handler = catching m (unless_cancelled handler)

module _ (w : World) where
  -- `new_id(…)`
  unfoldable pub fresh : Run String
  fresh s = (returns (w.new_id s.log), s)

  module _ {A : Type 0} where
    abbrev pub from_store : Result A → Fallible Failure A
    from_store (ok a) = returns a
    from_store (err e) = raises (other (w.message e))

    -- A call of the store.
    unfoldable pub store : (ℕ → Action A) → Run A
    store m s =
        let (r, db) = m (w.now s.log) s.db in (from_store r, record { db = db; log = s.log })

    -- An await, which leaves its effect.
    unfoldable pub await : (Log → Fallible Failure A) → (Fallible Failure A → Effect) → Run A
    await answer effect s = (
      answer s.log,
      record { db = replay w.sha256 (w.meanwhile s.log) s.db; log = effect (answer s.log) ∷ s.log },
    )

  abbrev pub git : String → List String → Run (Unit {0})
  git call args = await (λ log. w.git log call args) (λ _. waited call)

  -- `async with lock`
  abbrev pub lock : String → Run (Unit {0})
  lock name = await w.pause (λ _. waited name)

  -- `self.db.event(…)`
  unfoldable pub emit :
      String
      → String
      → List (record { key : String; value : PayloadValue })
      → Option String
      → Run (Unit {0})
  emit job_id kind payload task_id =
      store (λ now. Records.event job_id kind payload (w.json_dumps payload) task_id now) >> pure tt
