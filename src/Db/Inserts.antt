-- ===== src/Db/Inserts.antt =====
-- What each INSERT touches: the job of the new row.
use omarchy_yolo.Prelude.{
  ℕ, String, ◌≡◌, refl, true, false, ◌&&◌, Option, List, [], ◌∷◌, ◌++◌, ◌==◌, nat_eq, string_eq,
  elem, any, Bool-cases, inl, inr,
}
use omarchy_yolo.Prelude.Tables.{select-append_unseen, fetchone-append_unseen}
use omarchy_yolo.Model.{JobRecord, TaskRecord, AttemptState, attempt_state_eq}
use omarchy_yolo.Db.Rows.{AttemptRow, EventRow, PayloadValue, Database}
use omarchy_yolo.Db.Actions.{◌>>=◌}
use omarchy_yolo.Db.Core.{
  find_job, tasks_of, running_attempts, insert_job, insert_task, insert_attempt, append_event,
  insert_event,
}
use omarchy_yolo.Db.Keys.{distinct-snoc}
use omarchy_yolo.Db.Views.{elem-differs, snapshot_of_views}
use omarchy_yolo.Db.Frames.{Fact, always, Frame, Frame-refl, Touches, touches_rules}

module _ {ks : List String} where
  append_job :
      (db : Database) (row : JobRecord)
      → elem row.id ks ≡ true
      → any (λ j. j.id == row.id) db.jobs ≡ false
      → Frame ks db (record db { jobs = db.jobs ++ row ∷ [] })
  unfolding find_job
  append_job db row within fresh = record {
    same = λ j n.
        snapshot_of_views j (record db { jobs = db.jobs ++ row ∷ [] }) db
          (fetchone-append_unseen (λ r. r.id == j) db.jobs row (elem-differs row.id j ks within n))
          refl refl;
    keyed = λ k. record {
      jobs_keyed = distinct-snoc (λ r. r.id) db.jobs row k.jobs_keyed fresh;
      tasks_keyed = k.tasks_keyed;
      attempts_keyed = k.attempts_keyed;
    };
  }

  append_task :
      (db : Database) (row : TaskRecord)
      → elem row.job_id ks ≡ true
      → any (λ t. t.id == row.id) db.tasks ≡ false
      → Frame ks db (record db { tasks = db.tasks ++ row ∷ [] })
  unfolding find_job tasks_of
  append_task db row within fresh = record {
    same = λ j n.
        snapshot_of_views j (record db { tasks = db.tasks ++ row ∷ [] }) db refl
          (select-append_unseen (λ r. r.job_id == j) db.tasks row
            (elem-differs row.job_id j ks within n))
          refl;
    keyed = λ k. record {
      jobs_keyed = k.jobs_keyed;
      tasks_keyed = distinct-snoc (λ r. r.id) db.tasks row k.tasks_keyed fresh;
      attempts_keyed = k.attempts_keyed;
    };
  }

  append_attempt :
      (db : Database) (row : AttemptRow)
      → elem row.job_id ks ≡ true
      → any (λ a. a.id == row.id) db.attempts ≡ false
      → Frame ks db (record db { attempts = db.attempts ++ row ∷ [] })
  unfolding find_job running_attempts
  append_attempt db row within fresh = record {
    same = λ j n.
        snapshot_of_views j (record db { attempts = db.attempts ++ row ∷ [] }) db refl refl
          (select-append_unseen (λ r. r.job_id == j && r.state == AttemptState.running) db.attempts
            row (rw (elem-differs row.job_id j ks within n)));
    keyed = λ k. record {
      jobs_keyed = k.jobs_keyed;
      tasks_keyed = k.tasks_keyed;
      attempts_keyed = distinct-snoc (λ r. r.id) db.attempts row k.attempts_keyed fresh;
    };
  }

  pub Touches-insert_job :
      (row : JobRecord) → elem row.id ks ≡ true → Touches ks always (insert_job row)
  unfolding insert_job ◌>>=◌
  Touches-insert_job row within = record {
    at = λ db h. elim (Bool-cases (any (λ j. j.id == row.id) db.jobs)) [
      | inl taken ↦ rw taken (Frame-refl ks db, tt)
      | inr fresh ↦ rw fresh (append_job db row within fresh, tt)
    ];
  }

  pub Touches-insert_task :
      (row : TaskRecord) → elem row.job_id ks ≡ true → Touches ks always (insert_task row)
  unfolding insert_task ◌>>=◌
  Touches-insert_task row within = record {
    at = λ db h. elim (Bool-cases (any (λ t. t.id == row.id) db.tasks)) [
      | inl taken ↦ rw taken (Frame-refl ks db, tt)
      | inr fresh ↦
          elim (Bool-cases
            (any (λ t. t.job_id == row.job_id && t.logical_id == row.logical_id) db.tasks)) [
              | inl named ↦ rw (fresh, named) (Frame-refl ks db, tt)
              | inr free ↦ rw (fresh, free) (append_task db row within fresh, tt)
            ]
    ];
  }

  pub Touches-insert_attempt :
      (row : AttemptRow) → elem row.job_id ks ≡ true → Touches ks always (insert_attempt row)
  unfolding insert_attempt ◌>>=◌
  Touches-insert_attempt row within = record {
    at = λ db h. elim (Bool-cases (any (λ a. a.id == row.id) db.attempts)) [
      | inl taken ↦ rw taken (Frame-refl ks db, tt)
      | inr fresh ↦
          elim (Bool-cases
            (any (λ a. a.task_id == row.task_id && a.number == row.number) db.attempts)) [
              | inl numbered ↦ rw (fresh, numbered) (Frame-refl ks db, tt)
              | inr free ↦ rw (fresh, free) (append_attempt db row within fresh, tt)
            ]
    ];
  }

-- An event touches no job.
module _ {ks : List String} {I : Fact} where
  Touches-append_event : (row : ℕ → EventRow) → Touches ks I (append_event row)
  unfolding append_event ◌>>=◌ find_job
  Touches-append_event row = record {
    at = λ db h. (
      record {
        same = λ j n. snapshot_of_views j (append_event row db).1 db refl refl refl;
        keyed = λ k. record {
          jobs_keyed = k.jobs_keyed;
          tasks_keyed = k.tasks_keyed;
          attempts_keyed = k.attempts_keyed;
        };
      },
      h,
    );
  }

  pub Touches-insert_event :
      (job_id : String) (task_id : Option String) (kind : String)
      (payload : List (record { key : String; value : PayloadValue })) (now : ℕ)
      → Touches ks I (insert_event job_id task_id kind payload now)
  unfolding insert_event
  Touches-insert_event job_id task_id kind payload now =
      search (touches_rules, Touches-append_event)
