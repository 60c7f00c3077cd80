-- ===== src/Db/Views.antt =====
-- What one job's snapshot depends on: its row, its tasks and its running attempts.
use omarchy_yolo.Prelude.{
  String, ◌≡◌, refl, subst, Bool, true, false, some, List, [], ◌∷◌, ◌++◌, map, ◌==◌, string_eq,
  eq_of_==, elem, All, sort_by, insert_sorted, Bool-cases, inl, inr, ok,
}
use omarchy_yolo.Prelude.Tables.{select, select-select}
use omarchy_yolo.Model.{TaskRecord, TaskState, AttemptState, attempt_state_eq}
use omarchy_yolo.StateMachine.{Snapshot, validate_job_snapshot}
use omarchy_yolo.Db.Rows.{AttemptRow, Database}
use omarchy_yolo.Db.Core.{
  find_job, tasks_of, running_attempts, join_states, task_states, owner_states, snapshot_locked,
  by_start,
}

-- A job's snapshot, where there is one, is accepted by the state machine.
abbrev pub IsValidJob : String → Database → Type 0
IsValidJob j db = (s : Snapshot) → snapshot_locked j db ≡ some s → validate_job_snapshot s ≡ ok tt

pub elem-differs :
    (a j : String) (ks : List String) → elem a ks ≡ true → elem j ks ≡ false → (a == j) ≡ false
elem-differs a j [] h n = cc
elem-differs a j (k ∷ ks) h n = elim (Bool-cases (a == j)) [
  | inl e ↦ cc (subst (λ x. elem x (k ∷ ks) ≡ true) (eq_of_== a j e) h)
  | inr d ↦ d
]

-- The join, over tasks of one job.
join_local : List TaskRecord → List AttemptRow → List TaskState
join_local tasks [] = []
join_local tasks (a ∷ rest) =
    map (λ t. t.state) (select (λ t. t.id == a.task_id) tasks) ++ join_local tasks rest

join_states-local :
    (j : String) (tasks : List TaskRecord) (runs : List AttemptRow)
    → All (λ a. a.job_id ≡ j) runs
    → join_states tasks runs ≡ join_local (tasks_of j tasks) runs
unfolding join_states join_local tasks_of
join_states-local j tasks [] h = refl
join_states-local j tasks (a ∷ rest) h = rw (
  select-select (λ t. t.id == a.task_id) (λ t. t.job_id == j) tasks,
  join_states-local j tasks rest h.1,
  h.0,
)

module _ {ℓ κ} {A : Type ℓ} (P : A → Type κ) (le : A → A → Bool) where
  All-insert_sorted : (x : A) (xs : List A) → P x → All P xs → All P (insert_sorted le x xs)
  All-insert_sorted x [] p h = (p, tt)
  All-insert_sorted x (y ∷ ys) p h = elim (Bool-cases (le x y)) [
    | inl e ↦ rw e (p, h)
    | inr e ↦ rw e (h.0, All-insert_sorted x ys p h.1)
  ]

  All-sort_by : (xs : List A) → All P xs → All P (sort_by le xs)
  All-sort_by [] h = tt
  All-sort_by (x ∷ xs) h = All-insert_sorted x (sort_by le xs) h.0 (All-sort_by xs h.1)

running_attempts-job :
    (j : String) (runs : List AttemptRow) → All (λ a. a.job_id ≡ j) (running_attempts j runs)
unfolding running_attempts select
running_attempts-job j [] = tt
running_attempts-job j (a ∷ rest) = elim (Bool-cases (a.job_id == j)) [
  | inl e ↦ elim (Bool-cases (a.state == AttemptState.running)) [
    | inl r ↦ rw (e, r) (eq_of_== a.job_id j e, running_attempts-job j rest)
    | inr r ↦ rw (e, r) (running_attempts-job j rest)
  ]
  | inr d ↦ rw d (running_attempts-job j rest)
]

snapshot_local :
    (j : String) (db : Database)
    → join_states db.tasks (sort_by by_start (running_attempts j db.attempts))
      ≡ join_local (tasks_of j db.tasks) (sort_by by_start (running_attempts j db.attempts))
snapshot_local j db =
    join_states-local j db.tasks (sort_by by_start (running_attempts j db.attempts))
      (All-sort_by (λ a. a.job_id ≡ j) by_start _ (running_attempts-job j db.attempts))

-- Two databases with the same row, tasks and running attempts of a job have its snapshot in common.
pub snapshot_of_views :
    (j : String) (new old : Database)
    → find_job j new ≡ find_job j old
    → tasks_of j new.tasks ≡ tasks_of j old.tasks
    → running_attempts j new.attempts ≡ running_attempts j old.attempts
    → snapshot_locked j new ≡ snapshot_locked j old
unfolding snapshot_locked task_states owner_states
snapshot_of_views j new old hj ht ha = cc (snapshot_local j new, snapshot_local j old, hj, ht, ha)
