-- ===== src/Execution/Jobs/Verified.antt =====
-- What `_resume_accepted_job` of src/omarchy_yolo/orchestrator.py checks before it acts.
use omarchy_yolo.Prelude.{
  String, ◌≡◌, ◌⊎◌, inl, inr, refl, Bool, true, false, Option, none, some, [], ◌∷◌, ◌==◌, nat_eq,
  string_eq, eq_of_==, elem, arith, if◌then◌else◌,
}
use omarchy_yolo.Prelude.Fallible.{Fallible, raises}
use omarchy_yolo.Model.{AcceptancePhase, JobRecord, phase_eq}
use omarchy_yolo.Db.Rows.{Database, DossierRow}
use omarchy_yolo.Db.Actions
use omarchy_yolo.Db.Core.{find_dossier}
use omarchy_yolo.Db.Provenance.{get_staged_dossier}
use omarchy_yolo.Execution.Runs.{Failure, other, State, World, Run, pure, raise, store, ◌>>=◌}
use omarchy_yolo.Execution.Jobs.{require, staged, resume_accepted_job}

-- The job and the dossier of its store that may be published.
pub record IsVerified (w : World) (job : JobRecord) (db : Database) : Type 0 where
  pub phase :
      (job.acceptance_phase ≡ AcceptancePhase.accepted)
      ⊎ (job.acceptance_phase ≡ AcceptancePhase.applying)
  pub committed : (job.accepted_commit == "") ≡ false
  pub dossier : DossierRow
  pub found : find_dossier job.id db ≡ some dossier
  pub unpublished : dossier.published ≡ false
  pub version : dossier.schema_version ≡ 1
  pub digest : w.sha256 dossier.content ≡ dossier.sha256

-- An exception that leaves the store and the world outside as they were.
abbrev pub IsRefused : State → Fallible Failure (Unit {0}) × State → Type 0
IsRefused s r = (e : Failure) × (r ≡ (raises e, s))

module _ (w : World) (s : State) (P : Type 0) where
  require-cases :
      (b : Bool) (message : String) (k : Run (Unit {0}))
      → (b ≡ true → IsRefused s (k s) ⊎ P)
      → IsRefused s ((require w b message >>= λ _. k) s) ⊎ P
  unfolding ◌>>=◌ pure raise
  require-cases true message k h = h refl
  require-cases false message k h = inl (other message, refl)

  staged-cases :
      (o : Option DossierRow) (k : DossierRow → Run (Unit {0}))
      → ((d : DossierRow) → o ≡ some d → d.published ≡ false → IsRefused s (k d s) ⊎ P)
      → IsRefused s ((staged w o >>= k) s) ⊎ P
  unfolding ◌>>=◌ pure raise
  staged-cases none k h = inl (_, refl)
  staged-cases (some d) k h = go d.published refl
    where
      go :
          (b : Bool)
          → d.published ≡ b
          → IsRefused s (
              ((if b
                    then raise (other "accepted job is missing its unpublished staged dossier")
                    else pure d)
                  >>= k)
                s)
            ⊎ P
      go true e = inl (_, refl)
      go false e = h d refl e

  read-staged :
      (job_id : String) (k : Option DossierRow → Run (Unit {0}))
      → IsRefused s (k (find_dossier job_id s.db) s) ⊎ P
      → IsRefused s ((store w (λ _. get_staged_dossier job_id) >>= k) s) ⊎ P
  unfolding ◌>>=◌ store get_staged_dossier Actions.gets
  read-staged job_id k h = h

accepted-cases :
    (phase : AcceptancePhase)
    → elem phase (AcceptancePhase.accepted ∷ AcceptancePhase.applying ∷ []) ≡ true
    → (phase ≡ AcceptancePhase.accepted) ⊎ (phase ≡ AcceptancePhase.applying)
accepted-cases AcceptancePhase.no_phase e = cc
accepted-cases AcceptancePhase.accepted e = inl refl
accepted-cases AcceptancePhase.applying e = inr refl
accepted-cases AcceptancePhase.published e = cc

-- `_resume_accepted_job` touches neither the store nor the source branch, and raises, unless the
-- job's phase is accepted or applying, its accepted commit is known, and the store holds for it a
-- dossier that is not published, with the supported schema version and the SHA-256 of its content.
pub resume_accepted_job-IsVerified :
    (w : World) (job : JobRecord) (s : State)
    → IsRefused s (resume_accepted_job w job s) ⊎ IsVerified w job s.db
unfolding resume_accepted_job
resume_accepted_job-IsVerified w job s =
    let P = IsVerified w job s.db in
    require-cases w s P _ _ _ λ phase. require-cases w s P _ _ _ λ committed.
      read-staged w s P job.id _ (
        staged-cases w s P _ _ λ d found unpublished. require-cases w s P _ _ _ λ version.
          require-cases w s P _ _ _ λ digest. inr (record {
            phase = accepted-cases job.acceptance_phase phase;
            committed = ground arith;
            dossier = d;
            found = found;
            unpublished = unpublished;
            version = eq_of_== d.schema_version 1 version;
            digest = eq_of_== (w.sha256 d.content) d.sha256 digest;
          }))
