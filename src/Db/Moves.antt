-- ===== src/Db/Moves.antt =====
-- What `update_job` of src/omarchy_yolo/db.py leaves in the row of the job.
use omarchy_yolo.Prelude.{
  String, ◌≡◌, refl, sym, ap, ℕ, Bool, true, false, Option, none, some, List, [], ◌∷◌, ◌==◌, nat_eq,
  string_eq, ==-refl, if◌then◌else◌, Result, ok, err, Error,
}
use omarchy_yolo.Prelude.Tables.{fetchone, update}
use omarchy_yolo.Model.{JobState, JobRecord, job_state_eq, phase_eq}
use omarchy_yolo.Db.Rows.{Database}
use omarchy_yolo.Db.Actions.{Action, raise, get_row, modify, continue, transaction, ◌>>=◌}
use omarchy_yolo.Db.Core.{find_job, update_jobs, rewrite_jobs}
use omarchy_yolo.Db.Frames.{Reads, Reads-raise_when, Reads-lift, Reads-gets, Reads-validate}
use omarchy_yolo.Db.Mutations.{
  JobFields, has_job_fields, assign_job, job_in, update_job_row, update_job,
}

-- From a store with `I`, a call that returns leaves one with `P`.
pub record Leaves (I P : Database → Type 0) {A : Type 0} (m : Action A) : Type 0 where
  pub at : (db : Database) (a : A) → I db → (m db).0 ≡ ok a → P (m db).1

module _ {I P : Database → Type 0} where
  Leaves-raise : {A : Type 0} (e : Error) → Leaves I P (raise {A = A} e)
  unfolding raise
  Leaves-raise e = record { at = λ db a h p. cc }

  module _ {A B : Type 0} (m : Action A) (f : A → Action B) where
    Leaves-read : Reads m → ((a : A) → Leaves I P (f a)) → Leaves I P (m >>= f)
    unfolding ◌>>=◌
    Leaves-read reads h = record { at = λ db b i p. go (m db).0 (m db).1 b (rw (reads.at db) i) p }
      where
        go :
            (r : Result A) (db : Database) (b : B)
            → I db
            → (continue r f db).0 ≡ ok b
            → P (continue r f db).1
        go (ok a) db b i p = (h a).at db b i p
        go (err e) db b i p = cc

    Leaves-then : Leaves I P m → ((a : A) → Reads (f a)) → Leaves I P (m >>= f)
    unfolding ◌>>=◌
    Leaves-then h reads = record {
      at = λ db b i p. go (m db).0 (m db).1 b (λ a e. h.at db a i e) p;
    }
      where
        go :
            (r : Result A) (db : Database) (b : B)
            → ((a : A) → r ≡ ok a → P db)
            → (continue r f db).0 ≡ ok b
            → P (continue r f db).1
        go (ok a) db b q p = rw ((reads a).at db) (q a refl)
        go (err e) db b q p = cc

  Leaves-transaction : {A : Type 0} (m : Action A) → Leaves I P m → Leaves I P (transaction m)
  unfolding transaction
  Leaves-transaction {A} m h = record {
    at = λ db b i p. go db (m db).0 (m db).1 b (λ a e. h.at db a i e) p;
  }
    where
      go :
          (db : Database) (r : Result A) (after : Database) (b : A)
          → ((a : A) → r ≡ ok a → P after)
          → let end = elim r as (λ _. Result A × Database) [
            | ok a ↦ (ok a, after)
            | err e ↦ (err e, db)
          ] in
            end.0 ≡ ok b → P end.1
      go db (ok a) after b q p = q a refl
      go db (err e) after b q p = cc

-- An UPDATE of the row that a SELECT finds, which leaves its keys alone.
fetchone-update :
    {Row : Type 0} (q p : Row → Bool) (f : Row → Row) (rs : List Row) (row : Row)
    → ((r : Row) → q (f r) ≡ q r)
    → fetchone q rs ≡ some row
    → p row ≡ true
    → fetchone q (update p f rs) ≡ some (f row)
unfolding fetchone update
fetchone-update q p f [] row keeps found hit = cc
fetchone-update {Row} q p f (r ∷ rs) row keeps found hit =
    go (q r) (p r) refl refl found (λ rest. fetchone-update q p f rs row keeps rest hit)
  where
    go :
        (b d : Bool)
        → q r ≡ b
        → p r ≡ d
        → (if b then some r else fetchone q rs) ≡ some row
        → (fetchone q rs ≡ some row → fetchone q (update p f rs) ≡ some (f row))
        → (if q (if d then f r else r)
            then some (if d then f r else r)
            else fetchone q (update p f rs))
          ≡ some (f row)
    go true true e d found rest = rw (keeps r) (rw e cc)
    go true false e d found rest = cc
    go false true e d found rest = rw (keeps r) (rw e (rest found))
    go false false e d found rest = rw e (rest found)

-- The row of a job is there, in a state.
abbrev pub IsJobIn : String → JobState → Database → Type 0
IsJobIn job_id state db =
    (job : JobRecord) × ((find_job job_id db ≡ some job) × (job.state ≡ state))

find_job-id :
    (job_id : String) (jobs : List JobRecord) (row : JobRecord)
    → fetchone (λ j. j.id == job_id) jobs ≡ some row
    → (row.id == job_id) ≡ true
unfolding fetchone
find_job-id job_id [] row found = cc
find_job-id job_id (j ∷ jobs) row found =
    go (j.id == job_id) refl found (λ rest. find_job-id job_id jobs row rest)
  where
    go :
        (b : Bool)
        → (j.id == job_id) ≡ b
        → (if b then some j else fetchone (λ x. x.id == job_id) jobs) ≡ some row
        → (fetchone (λ x. x.id == job_id) jobs ≡ some row → (row.id == job_id) ≡ true)
        → (row.id == job_id) ≡ true
    go true e found rest = let same : j ≡ row = cc in rw (ap (λ x. x.id) (sym same)) e
    go false e found rest = rest found

Leaves-get_row :
    {P : Database → Type 0} (job_id : String) (g : JobRecord → Action (Unit {0}))
    → ((row : JobRecord) → Leaves (λ db. find_job job_id db ≡ some row) P (g row))
    → Leaves (λ _. Unit {0}) P (get_row (find_job job_id) Error.key_error >>= g)
unfolding get_row ◌>>=◌
Leaves-get_row {P} job_id g h = record { at = λ db b i p. go db (find_job job_id db) refl b p }
  where
    go :
        (db : Database) (o : Option JobRecord)
        → find_job job_id db ≡ o
        → (b : Unit {0})
        → (continue (elim o [ none ↦ err Error.key_error | some a ↦ ok a ]) g db).0 ≡ ok b
        → P (continue (elim o [ none ↦ err Error.key_error | some a ↦ ok a ]) g db).1
    go db none e b p = cc
    go db (some row) e b p = (h row).at db b e p

-- The fields of a call that sets the state.
abbrev pub moving : JobState → JobFields → JobFields
moving target f = record f { unknown = []; state = some target }

module _ (job_id : String) (f : JobFields) (target : JobState) (now : ℕ) where
  rewrite-IsJobIn :
      (row : JobRecord)
      → Leaves
          (λ db. find_job job_id db ≡ some row)
          (IsJobIn job_id target)
          (rewrite_jobs (job_in job_id row.state) (assign_job f target now))
  unfolding rewrite_jobs modify find_job assign_job
  rewrite-IsJobIn row = record {
    at = λ db a found p. (
      assign_job f target now row,
      (
        fetchone-update (λ j. j.id == job_id) (job_in job_id row.state) (assign_job f target now)
            db.jobs row (λ r. refl) found
            (rw (find_job-id job_id db.jobs row found) (==-refl row.state)),
        refl,
      ),
    );
  }

module _ (job_id : String) (f : JobFields) (target : JobState) (now : ℕ) where
  update_job_row-IsJobIn :
      (row : JobRecord)
      → Leaves
          (λ db. find_job job_id db ≡ some row)
          (IsJobIn job_id target)
          (update_job_row job_id (moving target f) now row)
  unfolding update_job_row update_jobs
  update_job_row-IsJobIn row = Leaves-read _ _ (Reads-raise_when _ _) λ _.
      Leaves-read _ _ (Reads-lift _) λ _. Leaves-read _ _ (Reads-raise_when _ _) λ _.
        Leaves-then _ _
          (Leaves-read _ _ (Reads-gets _) λ n.
            Leaves-then _ _ (rewrite-IsJobIn job_id (moving target f) target now row)
              λ _. Reads-raise_when _ _)
          λ _. Reads-validate job_id

  -- A call that returns has moved the job.
  pub update_job-IsJobIn :
      Leaves (λ _. Unit {0}) (IsJobIn job_id target) (update_job job_id (moving target f) now)
  unfolding update_job has_job_fields
  update_job-IsJobIn =
      Leaves-transaction _
        (Leaves-get_row job_id (update_job_row job_id (moving target f) now) update_job_row-IsJobIn)
