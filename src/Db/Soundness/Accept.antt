-- ===== src/Db/Soundness/Accept.antt =====
-- The mutations of src/omarchy_yolo/db_provenance.py keep the store consistent.
use omarchy_yolo.Prelude.{ℕ, String, refl, none, List, [], ◌∷◌, arith, string_eq}
use omarchy_yolo.Model.{JobRecord, job_state_eq, phase_eq}
use omarchy_yolo.Db.Rows.{DossierRow, Database}
use omarchy_yolo.Db.Provenance.{
  Dossier, Acceptance, Publication, stage_dossier_locked, journal_acceptance, prepare_row,
  journal_apply, apply_row, mark_apply_started, publish_events, journal_publication, check_dossier,
  stage_dossier, prepare_accepted_job, publish_row, publish_completed_job,
}
use omarchy_yolo.Db.Frames.{
  Fact, always, Touches, Touches-Reads, Touches-when, Touches-bind, Reads, Reads-pure, Reads-raise,
  Reads-raise_when, Reads-lift, Reads-gets, Reads-get_row, Reads-bind,
}
use omarchy_yolo.Db.Writes.{Touches-update_jobs, Touches-rewrite_dossiers}
use omarchy_yolo.Db.Inserts.{Touches-insert_event}
use omarchy_yolo.Db.Commits.{
  Checks, Checks-validate, Checks-bind, Checks-Reads, CommitsAt, CommitsAt-Checks,
  CommitsAt-Touches, CommitsAt-Reads, CommitsAt-Reads_bind, CommitsAt-get_row, CommitsAt-if,
  CommitsAt-when, Keeps, Keeps-transaction, Keeps-Reads, Keeps-bind,
}
use omarchy_yolo.Db.Soundness.Jobs.{elem_self}

Touches-stage :
    {ks : List String} {I : Fact} (job_id : String) (d : Dossier) (now : ℕ)
    → Touches ks I (stage_dossier_locked job_id d now)
unfolding stage_dossier_locked
Touches-stage job_id d now = Touches-rewrite_dossiers _

journal_acceptance-Checks :
    (job_id : String) (a : Acceptance) (d : Dossier) (now : ℕ) (job : JobRecord)
    → Checks (job_id ∷ []) always (journal_acceptance job_id a d now job)
unfolding journal_acceptance
journal_acceptance-Checks job_id a d now job = Checks-Reads _ _ (Reads-raise_when _ _) λ _.
    Checks-Reads _ _ (Reads-lift _) λ _. Checks-Reads _ _ (Reads-get_row _ _) λ s.
      Checks-Reads _ _ (Reads-lift _) λ _. Checks-bind _ _ (Touches-stage job_id d now) λ _.
        Checks-bind _ _
          (Touches-update_jobs _ _ _ (λ r h. elem_self r.id job_id (ground arith)) (λ r. refl))
          λ _.
            Checks-bind _ _ (Touches-insert_event job_id none "job.accepted" _ now)
              λ _. Checks-validate job_id

prepare_row-CommitsAt :
    (job_id : String) (a : Acceptance) (d : Dossier) (now : ℕ) (job : JobRecord) (db : Database)
    → CommitsAt db (prepare_row job_id a d now job)
unfolding prepare_row
prepare_row-CommitsAt job_id a d now job db =
    CommitsAt-if _ _ _
      (CommitsAt-Reads _ (Reads-bind _ _ (Reads-gets _) λ row. Reads-raise_when _ _))
      (CommitsAt-if _ _ _
        (CommitsAt-Checks always _ (journal_acceptance-Checks job_id a d now job) (λ good. tt))
        (CommitsAt-Reads _ (Reads-raise _)))

journal_apply-Checks :
    (job_id commit : String) (now : ℕ)
    → Checks (job_id ∷ []) always (journal_apply job_id commit now)
unfolding journal_apply
journal_apply-Checks job_id commit now =
    Checks-bind _ _
      (Touches-update_jobs _ _ _ (λ r h. elem_self r.id job_id (ground arith)) (λ r. refl))
      λ _.
        Checks-bind _ _ (Touches-insert_event job_id none "job.apply_started" _ now)
          λ _. Checks-validate job_id

-- mark_apply_started
pub mark_apply_started-Keeps :
    (job_id commit : String) (now : ℕ) → Keeps (mark_apply_started job_id commit now)
unfolding mark_apply_started apply_row
mark_apply_started-Keeps job_id commit now = Keeps-transaction _ λ db.
    CommitsAt-get_row _ _ _ λ row e. CommitsAt-Reads_bind _ _ (Reads-raise_when _ _) λ _.
      CommitsAt-Reads_bind _ _ (Reads-raise_when _ _) λ _.
        CommitsAt-Reads_bind _ _ (Reads-raise_when _ _) λ _.
          CommitsAt-when _ _
            (CommitsAt-Checks always _ (journal_apply-Checks job_id commit now) (λ good. tt))

Touches-publish_events :
    {ks : List String} {I : Fact} (job_id : String) (p : Publication) (now : ℕ) (job : JobRecord)
    → Touches ks I (publish_events job_id p now job)
unfolding publish_events
Touches-publish_events job_id p now job =
    Touches-bind _ _ (Touches-insert_event job_id none "job.dossier_created" _ now) λ _.
      Touches-bind _ _
        (Touches-when _ _ (
          Touches-bind _ _ (Touches-insert_event job_id none "job.applied" _ now)
            λ _. Touches-Reads _ (Reads-pure tt)))
        λ _.
          Touches-bind _ _
            (Touches-when _ _ (
              Touches-bind _ _ (Touches-insert_event job_id none "job.apply_skipped" _ now)
                λ _. Touches-Reads _ (Reads-pure tt)))
            λ _.
              Touches-bind _ _ (Touches-insert_event job_id none "job.completed" _ now)
                λ _. Touches-Reads _ (Reads-pure tt)

journal_publication-Checks :
    (job_id : String) (p : Publication) (now : ℕ) (job : JobRecord)
    → Checks (job_id ∷ []) always (journal_publication job_id p now job)
unfolding journal_publication
journal_publication-Checks job_id p now job = Checks-Reads _ _ (Reads-lift _) λ _.
    Checks-Reads _ _ (Reads-raise_when _ _) λ _. Checks-Reads _ _ (Reads-lift _) λ _.
      Checks-Reads _ _ (Reads-get_row _ _) λ s. Checks-Reads _ _ (Reads-lift _) λ _.
        Checks-bind _ _
          (Touches-update_jobs _ _ _ (λ r h. elem_self r.id job_id (ground arith)) (λ r. refl))
          λ _. Checks-Reads _ _ (Reads-gets _) λ n.
            Checks-bind _ _ (Touches-rewrite_dossiers _) λ _.
              Checks-Reads _ _ (Reads-raise_when _ _) λ _.
                Checks-bind _ _ (Touches-publish_events job_id p now job)
                  λ _. Checks-validate job_id

module _ (sha256_hex : String → String) where
  -- stage_dossier
  pub stage_dossier-Keeps :
      (job_id : String) (d : Dossier) (now : ℕ) → Keeps (stage_dossier sha256_hex job_id d now)
  unfolding stage_dossier
  stage_dossier-Keeps job_id d now = Keeps-bind _ _ (Keeps-Reads _ (Reads-raise_when _ _)) λ _.
      Keeps-bind _ _ (Keeps-Reads _ (Reads-raise_when _ _)) λ _. Keeps-transaction _ λ db.
        CommitsAt-Reads_bind _ _ (Reads-get_row _ _) λ job.
          CommitsAt-Reads_bind _ _ (Reads-raise_when _ _)
            λ _. CommitsAt-Touches _ (Touches-stage job_id d now)

  -- prepare_accepted_job
  pub prepare_accepted_job-Keeps :
      (job_id : String) (a : Acceptance) (d : Dossier) (now : ℕ)
      → Keeps (prepare_accepted_job sha256_hex job_id a d now)
  unfolding prepare_accepted_job
  prepare_accepted_job-Keeps job_id a d now =
      Keeps-bind _ _ (Keeps-Reads _ (Reads-raise_when _ _)) λ _.
        Keeps-bind _ _ (Keeps-Reads _ (Reads-raise_when _ _)) λ _.
          Keeps-bind _ _ (Keeps-Reads _ (Reads-raise_when _ _)) λ _.
            Keeps-bind _ _ (Keeps-Reads _ (Reads-raise_when _ _)) λ _. Keeps-transaction _ λ db.
              CommitsAt-Reads_bind _ _ (Reads-get_row _ _)
                λ job. prepare_row-CommitsAt job_id a d now job db

  Reads-check_dossier :
      (p : Publication) (row : DossierRow) → Reads (check_dossier sha256_hex p row)
  unfolding check_dossier
  Reads-check_dossier p row =
      Reads-bind _ _ (Reads-raise_when _ _)
        λ _. Reads-bind _ _ (Reads-raise_when _ _) λ _. Reads-raise_when _ _

  -- publish_completed_job
  pub publish_completed_job-Keeps :
      (job_id : String) (p : Publication) (now : ℕ)
      → Keeps (publish_completed_job sha256_hex job_id p now)
  unfolding publish_completed_job publish_row
  publish_completed_job-Keeps job_id p now =
      Keeps-bind _ _ (Keeps-Reads _ (Reads-raise_when _ _)) λ _. Keeps-transaction _ λ db.
        CommitsAt-Reads_bind _ _ (Reads-get_row _ _) λ job.
          CommitsAt-Reads_bind _ _ (Reads-get_row _ _) λ row.
            CommitsAt-Reads_bind _ _ (Reads-check_dossier p row) λ _.
              CommitsAt-if _ _ _ (CommitsAt-Reads _ (Reads-lift _)) (
                CommitsAt-Checks always _ (journal_publication-Checks job_id p now job)
                  (λ good. tt))
