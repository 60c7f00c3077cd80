-- ===== src/Db/Provenance.antt =====
-- src/omarchy_yolo/db_provenance.py: the dossier of a job and the journal of its acceptance:
-- none, accepted, applying, published. `sha256_hex` stands for hashlib's SHA-256 in hexadecimal.
use omarchy_yolo.Prelude.{
  ℕ, String, Bool, true, false, not, ◌&&◌, ◌||◌, Option, none, some, List, [], ◌∷◌, ◌==◌, nat_eq,
  string_eq, elem, ltb, last_text, text_length, if◌then◌else◌, Result, ok, err, Error, Reason,
}
use omarchy_yolo.Prelude.Tables.{fetchone, update, rowcount}
use omarchy_yolo.Model.{JobState, AcceptancePhase, JobRecord, job_state_eq, phase_eq, phase_value}
use omarchy_yolo.StateMachine.{
  Snapshot, is_accepting, validate_job_transition, validate_job_snapshot,
}
use omarchy_yolo.Db.Rows.{DossierRow, PayloadValue}
use omarchy_yolo.Db.Actions.{
  Action, pure, raise, raise_when, when, gets, get_row, lift, transaction, ◌>>=◌, ◌>>◌,
}
use omarchy_yolo.Db.Core.{
  find_job, find_dossier, snapshot_locked, update_jobs, rewrite_dossiers, insert_event,
  validate_snapshot_locked,
}
use omarchy_yolo.Db.Records.{entry}

-- The dossier that a caller hands over.
pub record Dossier : Type 0 where
  pub schema_version : ℕ
  pub sha256 : String
  pub content : String

abbrev pub dossier_row : String → Dossier → ℕ → DossierRow
dossier_row job_id d now = record {
  job_id = job_id;
  schema_version = d.schema_version;
  sha256 = d.sha256;
  content = d.content;
  published = false;
  created_at = now;
}

-- INSERT … ON CONFLICT(job_id) DO UPDATE: the primary key is `job_id`.
unfoldable pub upsert_dossier : DossierRow → List DossierRow → List DossierRow
upsert_dossier row [] = row ∷ []
upsert_dossier row (d ∷ ds) = if d.job_id == row.job_id then row ∷ ds else d ∷ upsert_dossier row ds

unfoldable pub stage_dossier_locked : String → Dossier → ℕ → Action (Unit {0})
stage_dossier_locked job_id d now = rewrite_dossiers (upsert_dossier (dossier_row job_id d now))

-- The arguments of `prepare_accepted_job` beside the dossier.
pub record Acceptance : Type 0 where
  pub accepted_commit : String
  pub final_summary : String
  pub source_apply_intent : String

-- The test of an idempotent preparation.
unfoldable pub same_acceptance : Acceptance → Dossier → JobRecord → Option DossierRow → Bool
same_acceptance a d job none = false
same_acceptance a d job (some row) =
    job.accepted_commit == a.accepted_commit
    && job.source_apply_intent == a.source_apply_intent
    && job.final_summary == a.final_summary
    && row.schema_version == d.schema_version
    && row.sha256 == d.sha256
    && row.content == d.content

-- The snapshot that acceptance or publication would leave.
abbrev pub with_phase : Snapshot → JobState → AcceptancePhase → Snapshot
with_phase s state phase = record s {
  state = state;
  stop_requested = false;
  phase = some (phase_value phase);
}

-- What `prepare_accepted_job` writes for a job in phase none.
unfoldable pub journal_acceptance :
    String → Acceptance → Dossier → ℕ → JobRecord → Action (Unit {0})
journal_acceptance job_id a d now job = do
  let current = job.state
  raise_when (not (elem current (JobState.running ∷ JobState.stopping ∷ [])))
      (Error.state_transition Reason.accept_inactive_job)
  lift (validate_job_transition current JobState.completed)
  s ← get_row (snapshot_locked job_id) Error.key_error
  lift (validate_job_snapshot (with_phase s current AcceptancePhase.accepted))
  stage_dossier_locked job_id d now
  update_jobs
      (λ j. j.id == job_id && j.acceptance_phase == AcceptancePhase.no_phase && j.state == current)
      (λ j. record j {
        accepted_commit = a.accepted_commit;
        acceptance_phase = AcceptancePhase.accepted;
        source_apply_intent = a.source_apply_intent;
        source_apply_outcome = "";
        source_apply_reason = "";
        final_summary = a.final_summary;
        error = "";
        stop_requested = false;
        updated_at = now;
      })
      (Error.state_transition Reason.stale_job)
  _ ←
      insert_event job_id none "job.accepted"
        (entry "accepted_commit" a.accepted_commit
          ∷ entry "source_apply_intent" a.source_apply_intent
          ∷ entry "dossier_sha256" d.sha256
          ∷ [])
        now
  validate_snapshot_locked job_id

-- The transaction of `prepare_accepted_job`, after its SELECT.
unfoldable pub prepare_row : String → Acceptance → Dossier → ℕ → JobRecord → Action (Unit {0})
prepare_row job_id a d now job =
    if is_accepting job.acceptance_phase
    then (do
      row ← gets (find_dossier job_id)
      raise_when (not (same_acceptance a d job row))
          (Error.state_transition Reason.acceptance_changed))
    else if job.acceptance_phase == AcceptancePhase.no_phase
    then journal_acceptance job_id a d now job
    else raise (Error.state_transition Reason.prepare_wrong_phase)

-- The UPDATE of `mark_apply_started` and its event, for a job in phase accepted.
unfoldable pub journal_apply : String → String → ℕ → Action (Unit {0})
journal_apply job_id accepted_commit now = do
  update_jobs (λ j. j.id == job_id && j.acceptance_phase == AcceptancePhase.accepted)
      (λ j. record j { acceptance_phase = AcceptancePhase.applying; updated_at = now })
      (Error.state_transition Reason.stale_job)
  _ ←
      insert_event job_id none "job.apply_started" (entry "accepted_commit" accepted_commit ∷ [])
        now
  validate_snapshot_locked job_id

unfoldable pub apply_row : String → String → ℕ → JobRecord → Action (Unit {0})
apply_row job_id accepted_commit now row = do
  raise_when (not (row.accepted_commit == accepted_commit))
      (Error.state_transition Reason.commit_changed)
  raise_when (not (row.source_apply_intent == "requested"))
      (Error.state_transition Reason.apply_not_requested)
  raise_when
      (not (row.acceptance_phase == AcceptancePhase.applying)
        && not (row.acceptance_phase == AcceptancePhase.accepted))
      (Error.state_transition Reason.apply_wrong_phase)
  when (not (row.acceptance_phase == AcceptancePhase.applying))
      (journal_apply job_id accepted_commit now)

unfoldable pub mark_apply_started : String → String → ℕ → Action (Unit {0})
mark_apply_started job_id accepted_commit now =
    transaction
      do row ← get_row (find_job job_id) Error.key_error; apply_row job_id accepted_commit now row

unfoldable pub get_staged_dossier : String → Action (Option DossierRow)
get_staged_dossier job_id = gets (find_dossier job_id)

-- SELECT … FROM dossiers WHERE job_id = ? AND published = 1
unfoldable pub get_dossier : String → Action (Option DossierRow)
get_dossier job_id = gets (λ db. fetchone (λ d. d.job_id == job_id && d.published) db.dossiers)

-- The arguments of `publish_completed_job`.
pub record Publication : Type 0 where
  pub schema_version : ℕ
  pub sha256 : String
  pub final_summary : String
  pub outcome : String
  pub reason : String

-- The intent, the phase and the outcome have to agree.
unfoldable pub check_outcome : JobRecord → String → Result (Unit {0})
check_outcome job outcome =
    if job.source_apply_intent == "not-requested"
    then if job.acceptance_phase == AcceptancePhase.accepted && outcome == "not-requested"
      then ok tt
      else err (Error.state_transition Reason.not_requested_mismatch)
    else if job.source_apply_intent == "requested"
    then if job.acceptance_phase == AcceptancePhase.applying
        && elem outcome ("applied" ∷ "skipped" ∷ [])
      then ok tt
      else err (Error.state_transition Reason.requested_mismatch)
    else err (Error.state_transition Reason.invalid_intent)

-- The events of a publication: the outcome's own is left out where nothing was requested.
unfoldable pub publish_events : String → Publication → ℕ → JobRecord → Action (Unit {0})
publish_events job_id p now job = do
  _ ←
      insert_event job_id none "job.dossier_created"
        (entry "sha256" p.sha256
          ∷ record { key = "schema_version"; value = PayloadValue.number p.schema_version }
          ∷ entry "accepted_commit" job.accepted_commit
          ∷ [])
        now
  when (p.outcome == "applied") (do
    _ ←
        insert_event job_id none "job.applied"
          (entry "branch" job.base_branch ∷ entry "accepted_commit" job.accepted_commit ∷ []) now
    pure tt)
  when (p.outcome == "skipped") (do
    _ ←
        insert_event job_id none "job.apply_skipped" (entry "reason" (last_text 4000 p.reason) ∷ [])
          now
    pure tt)
  _ ←
      insert_event job_id none "job.completed"
        (entry "summary" p.final_summary
          ∷ entry "branch" job.integration_branch
          ∷ entry "dossier_sha256" p.sha256
          ∷ entry "accepted_commit" job.accepted_commit
          ∷ entry "source_apply_outcome" p.outcome
          ∷ [])
        now
  pure tt

-- UPDATE dossiers SET published = 1 WHERE job_id = ? AND published = 0 AND sha256 = ?
abbrev pub staged_as : String → String → DossierRow → Bool
staged_as job_id sha256 d = d.job_id == job_id && not d.published && d.sha256 == sha256

abbrev pub publish_dossier : DossierRow → DossierRow
publish_dossier d = record d { published = true }

-- What `publish_completed_job` writes, once the dossier is checked.
unfoldable pub journal_publication : String → Publication → ℕ → JobRecord → Action (Unit {0})
journal_publication job_id p now job = do
  let current = job.state
  lift (check_outcome job p.outcome)
  raise_when (job.accepted_commit == "") (Error.state_transition Reason.missing_commit)
  lift (validate_job_transition current JobState.completed)
  s ← get_row (snapshot_locked job_id) Error.key_error
  lift (validate_job_snapshot (with_phase s JobState.completed AcceptancePhase.published))
  update_jobs
      (λ j. j.id == job_id && j.state == current && j.acceptance_phase == job.acceptance_phase)
      (λ j. record j {
        state = JobState.completed;
        stop_requested = false;
        final_summary = p.final_summary;
        error = "";
        acceptance_phase = AcceptancePhase.published;
        source_apply_outcome = p.outcome;
        source_apply_reason = last_text 4000 p.reason;
        updated_at = now;
      })
      (Error.state_transition Reason.stale_job)
  n ← gets (λ db. rowcount (staged_as job_id p.sha256) db.dossiers)
  rewrite_dossiers (update (staged_as job_id p.sha256) publish_dossier)
  raise_when (not (n == 1)) (Error.state_transition Reason.dossier_not_published)
  publish_events job_id p now job
  validate_snapshot_locked job_id

-- The branch of a job that is already COMPLETED: an idempotent publication, or an error.
unfoldable pub check_republication : Publication → JobRecord → DossierRow → Result (Unit {0})
check_republication p job d =
    if d.published && job.acceptance_phase == AcceptancePhase.published
    then if job.source_apply_outcome == p.outcome
      then ok tt
      else err (Error.state_transition Reason.outcome_changed)
    else err (Error.state_transition Reason.unpublished_acceptance)

module _ (sha256_hex : String → String) where
  -- `_digest_matches`
  unfoldable pub digest_matches : String → String → Bool
  digest_matches content expected = text_length expected == 64 && sha256_hex content == expected

  unfoldable pub stage_dossier : String → Dossier → ℕ → Action (Unit {0})
  stage_dossier job_id d now = do
    raise_when (ltb d.schema_version 1) Error.value_error
    raise_when (not (digest_matches d.content d.sha256)) (Error.state_transition Reason.bad_digest)
    transaction do
      job ← get_row (find_job job_id) Error.key_error
      raise_when
          (job.state == JobState.completed
            || not (job.acceptance_phase == AcceptancePhase.no_phase))
          (Error.state_transition Reason.dossier_after_acceptance)
      stage_dossier_locked job_id d now

  unfoldable pub prepare_accepted_job : String → Acceptance → Dossier → ℕ → Action (Unit {0})
  prepare_accepted_job job_id a d now = do
    raise_when (not (elem a.source_apply_intent ("requested" ∷ "not-requested" ∷ [])))
        Error.value_error
    raise_when (a.accepted_commit == "" || ltb 128 (text_length a.accepted_commit))
        Error.value_error
    raise_when (ltb d.schema_version 1) Error.value_error
    raise_when (not (digest_matches d.content d.sha256)) (Error.state_transition Reason.bad_digest)
    transaction do job ← get_row (find_job job_id) Error.key_error; prepare_row job_id a d now job

  -- The checks of the staged dossier.
  unfoldable pub check_dossier : Publication → DossierRow → Action (Unit {0})
  check_dossier p d = do
    raise_when (not (d.schema_version == p.schema_version))
        (Error.state_transition Reason.dossier_version_changed)
    raise_when (not (d.sha256 == p.sha256)) (Error.state_transition Reason.dossier_digest_changed)
    raise_when (not (digest_matches d.content p.sha256)) (Error.state_transition Reason.bad_digest)

  -- The transaction of `publish_completed_job`, after its SELECT.
  unfoldable pub publish_row : String → Publication → ℕ → JobRecord → Action (Unit {0})
  publish_row job_id p now job = do
    d ← get_row (find_dossier job_id) (Error.state_transition Reason.dossier_missing)
    check_dossier p d
    if job.state == JobState.completed
        then lift (check_republication p job d)
        else journal_publication job_id p now job

  unfoldable pub publish_completed_job : String → Publication → ℕ → Action (Unit {0})
  publish_completed_job job_id p now = do
    raise_when (not (elem p.outcome ("applied" ∷ "skipped" ∷ "not-requested" ∷ [])))
        Error.value_error
    transaction do job ← get_row (find_job job_id) Error.key_error; publish_row job_id p now job
