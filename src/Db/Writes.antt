-- ===== src/Db/Writes.antt =====
-- What each UPDATE and INSERT touches.
use omarchy_yolo.Prelude.{
  String, ◌≡◌, refl, Bool, true, false, ◌&&◌, List, [], ◌∷◌, ◌==◌, nat_eq, string_eq, elem, All,
  Error,
}
use omarchy_yolo.Prelude.Tables.{update, Unseen, select-update-Unseen, fetchone-update-Unseen}
use omarchy_yolo.Model.{JobRecord, TaskRecord, AttemptState, attempt_state_eq}
use omarchy_yolo.Db.Rows.{AttemptRow, DossierRow}
use omarchy_yolo.Db.Actions.{modify}
use omarchy_yolo.Db.Core.{
  find_job, tasks_of, running_attempts, rewrite_jobs, rewrite_tasks, rewrite_attempts,
  rewrite_dossiers, update_jobs, update_tasks, update_attempts,
}
use omarchy_yolo.Db.Keys.{map-update_key}
use omarchy_yolo.Db.Views.{elem-differs, snapshot_of_views}
use omarchy_yolo.Db.Frames.{
  Fact, always, Touches, Touches-Reads, Touches-bind, Reads-gets, Reads-raise_when, touches_rules,
}

-- Every row of a table has the property.
All-rows {ℓ} : {A : Type ℓ} (P : A → Type 0) (rs : List A) → ((r : A) → P r) → All P rs
All-rows P [] h = tt
All-rows P (r ∷ rs) h = (h r, All-rows P rs h)

-- An UPDATE that keeps `owner`, of rows owned by the jobs `ks`, is unseen by another job.
module _ {Row : Type 0} (owner : Row → String) (ks : List String) (test : Row → Bool)
    (f : Row → Row) where
  abbrev pub Within : Row → Type 0
  Within r = test r ≡ true → elem (owner r) ks ≡ true

  pub Unseen-elsewhere :
      (j : String) (more : Row → Bool)
      → elem j ks ≡ false
      → ((r : Row) → owner (f r) ≡ owner r)
      → (rs : List Row) → All Within rs
      → All (Unseen (λ r. owner r == j && more r) test f) rs
  Unseen-elsewhere j more n keep [] h = tt
  Unseen-elsewhere j more n keep (r ∷ rs) h = (
    λ hit. let away = elem-differs (owner r) j ks (h.0 hit) n in (rw away, rw (keep r, away)),
    Unseen-elsewhere j more n keep rs h.1,
  )

  pub Unseen-job :
      (j : String)
      → elem j ks ≡ false
      → ((r : Row) → owner (f r) ≡ owner r)
      → (rs : List Row) → All Within rs
      → All (Unseen (λ r. owner r == j) test f) rs
  Unseen-job j n keep [] h = tt
  Unseen-job j n keep (r ∷ rs) h = (
    λ hit. let away = elem-differs (owner r) j ks (h.0 hit) n in (away, rw (keep r) away),
    Unseen-job j n keep rs h.1,
  )

module _ {ks : List String} where
  pub Touches-rewrite_jobs :
      {I : Fact} (test : JobRecord → Bool) (f : JobRecord → JobRecord)
      → ((r : JobRecord) → test r ≡ true → elem r.id ks ≡ true)
      → ((r : JobRecord) → (f r).id ≡ r.id)
      → Touches ks I (rewrite_jobs test f)
  unfolding rewrite_jobs modify find_job
  Touches-rewrite_jobs test f within keep = record {
    at = λ db h. (
      record {
        same = λ j n.
            snapshot_of_views j (record db { jobs = update test f db.jobs }) db
              (fetchone-update-Unseen (λ r. r.id == j) test f db.jobs
                (Unseen-job (λ r. r.id) ks test f j n keep db.jobs
                  (All-rows (Within (λ r. r.id) ks test f) db.jobs within)))
              refl refl;
        keyed = λ k. record {
          jobs_keyed = rw (map-update_key (λ r. r.id) test f db.jobs keep) k.jobs_keyed;
          tasks_keyed = k.tasks_keyed;
          attempts_keyed = k.attempts_keyed;
        };
      },
      h,
    );
  }

  pub Touches-rewrite_tasks :
      {I : Fact} (test : TaskRecord → Bool) (f : TaskRecord → TaskRecord)
      → ((ts : List TaskRecord) (runs : List AttemptRow)
          → I ts runs
          → All (λ r. test r ≡ true → elem r.job_id ks ≡ true) ts × I (update test f ts) runs)
      → ((r : TaskRecord) → ((f r).job_id ≡ r.job_id) × ((f r).id ≡ r.id))
      → Touches ks I (rewrite_tasks test f)
  unfolding rewrite_tasks modify find_job tasks_of
  Touches-rewrite_tasks test f within keep = record {
    at = λ db h.
        let (inside, h') = within db.tasks db.attempts h in
        (
          record {
            same = λ j n.
                snapshot_of_views j (record db { tasks = update test f db.tasks }) db refl
                  (select-update-Unseen (λ r. r.job_id == j) test f db.tasks
                    (Unseen-job (λ r. r.job_id) ks test f j n (λ r. (keep r).0) db.tasks inside))
                  refl;
            keyed = λ k. record {
              jobs_keyed = k.jobs_keyed;
              tasks_keyed =
                  rw (map-update_key (λ r. r.id) test f db.tasks (λ r. (keep r).1)) k.tasks_keyed;
              attempts_keyed = k.attempts_keyed;
            };
          },
          h',
        );
  }

  pub Touches-rewrite_attempts :
      {I : Fact} (test : AttemptRow → Bool) (f : AttemptRow → AttemptRow)
      → ((ts : List TaskRecord) (runs : List AttemptRow)
          → I ts runs
          → All (λ r. test r ≡ true → elem r.job_id ks ≡ true) runs × I ts (update test f runs))
      → ((r : AttemptRow) → ((f r).job_id ≡ r.job_id) × ((f r).id ≡ r.id))
      → Touches ks I (rewrite_attempts test f)
  unfolding rewrite_attempts modify find_job running_attempts
  Touches-rewrite_attempts test f within keep = record {
    at = λ db h.
        let (inside, h') = within db.tasks db.attempts h in
        (
          record {
            same = λ j n.
                snapshot_of_views j (record db { attempts = update test f db.attempts }) db refl
                  refl
                  (select-update-Unseen (λ r. r.job_id == j && r.state == AttemptState.running) test
                    f db.attempts
                    (Unseen-elsewhere (λ r. r.job_id) ks test f j
                      (λ r. r.state == AttemptState.running) n (λ r. (keep r).0) db.attempts
                      inside));
            keyed = λ k. record {
              jobs_keyed = k.jobs_keyed;
              tasks_keyed = k.tasks_keyed;
              attempts_keyed =
                  rw (map-update_key (λ r. r.id) test f db.attempts (λ r. (keep r).1))
                    k.attempts_keyed;
            };
          },
          h',
        );
  }

  pub Touches-rewrite_dossiers :
      {I : Fact} (f : List DossierRow → List DossierRow) → Touches ks I (rewrite_dossiers f)
  unfolding rewrite_dossiers modify find_job
  Touches-rewrite_dossiers f = record {
    at = λ db h. (
      record {
        same =
            λ j n. snapshot_of_views j (record db { dossiers = f db.dossiers }) db refl refl refl;
        keyed = λ k. record {
          jobs_keyed = k.jobs_keyed;
          tasks_keyed = k.tasks_keyed;
          attempts_keyed = k.attempts_keyed;
        };
      },
      h,
    );
  }

-- The same with the count of rows checked, and for rows that are owned by `ks` whatever holds.
module _ {ks : List String} where
  pub Touches-update_jobs :
      {I : Fact} (test : JobRecord → Bool) (f : JobRecord → JobRecord) (e : Error)
      → ((r : JobRecord) → test r ≡ true → elem r.id ks ≡ true)
      → ((r : JobRecord) → (f r).id ≡ r.id)
      → Touches ks I (update_jobs test f e)
  unfolding update_jobs
  Touches-update_jobs test f e within keep =
      search (touches_rules, Touches-rewrite_jobs test f within keep)

  pub Touches-update_tasks :
      {I : Fact} (test : TaskRecord → Bool) (f : TaskRecord → TaskRecord) (e : Error)
      → ((ts : List TaskRecord) (runs : List AttemptRow)
          → I ts runs
          → All (λ r. test r ≡ true → elem r.job_id ks ≡ true) ts × I (update test f ts) runs)
      → ((r : TaskRecord) → ((f r).job_id ≡ r.job_id) × ((f r).id ≡ r.id))
      → Touches ks I (update_tasks test f e)
  unfolding update_tasks
  Touches-update_tasks test f e within keep = Touches-bind _ _ (Touches-Reads _ (Reads-gets _)) λ n.
      Touches-bind _ _ (Touches-rewrite_tasks test f within keep)
        λ _. Touches-Reads _ (Reads-raise_when _ _)

  pub Touches-update_attempts :
      {I : Fact} (test : AttemptRow → Bool) (f : AttemptRow → AttemptRow) (e : Error)
      → ((ts : List TaskRecord) (runs : List AttemptRow)
          → I ts runs
          → All (λ r. test r ≡ true → elem r.job_id ks ≡ true) runs × I ts (update test f runs))
      → ((r : AttemptRow) → ((f r).job_id ≡ r.job_id) × ((f r).id ≡ r.id))
      → Touches ks I (update_attempts test f e)
  unfolding update_attempts
  Touches-update_attempts test f e within keep =
      Touches-bind _ _ (Touches-Reads _ (Reads-gets _)) λ n.
        Touches-bind _ _ (Touches-rewrite_attempts test f within keep)
          λ _. Touches-Reads _ (Reads-raise_when _ _)

  pub Touches-tasks_of_jobs :
      (test : TaskRecord → Bool) (f : TaskRecord → TaskRecord)
      → ((r : TaskRecord) → test r ≡ true → elem r.job_id ks ≡ true)
      → ((r : TaskRecord) → ((f r).job_id ≡ r.job_id) × ((f r).id ≡ r.id))
      → Touches ks always (rewrite_tasks test f)
  Touches-tasks_of_jobs test f within keep =
      Touches-rewrite_tasks test f
        (λ ts runs _. (All-rows (λ r. test r ≡ true → elem r.job_id ks ≡ true) ts within, tt)) keep

  pub Touches-attempts_of_jobs :
      (test : AttemptRow → Bool) (f : AttemptRow → AttemptRow)
      → ((r : AttemptRow) → test r ≡ true → elem r.job_id ks ≡ true)
      → ((r : AttemptRow) → ((f r).job_id ≡ r.job_id) × ((f r).id ≡ r.id))
      → Touches ks always (rewrite_attempts test f)
  Touches-attempts_of_jobs test f within keep =
      Touches-rewrite_attempts test f
        (λ ts runs _. (All-rows (λ r. test r ≡ true → elem r.job_id ks ≡ true) runs within, tt))
        keep
