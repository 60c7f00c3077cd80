-- ===== src/Scheduler/Launch.antt =====
-- What a round launches.
use omarchy_yolo.Prelude.{
  ℕ, zero, suc, ◌+◌, ◌-◌, ◌≤◌, String, ◌≡◌, refl, Bool, true, false, List, [], ◌∷◌, ◌++◌, map,
  arith, string_eq, elem, all, All, All-map_of, length, take, Bool-cases, inl, inr,
}
use omarchy_yolo.Prelude.Tables.{select}
use omarchy_yolo.Model.{TaskState, TaskRecord, task_state_eq}
use omarchy_yolo.Scheduler.{
  Handle, Round, completed_ids, is_running, active_ids, is_ready, launched_tasks, start_handle,
  settle_round, execute_round,
}

-- A task that may start: it is pending, all that it depends on is completed, and it is not running.
pub record MayStart (tasks : List TaskRecord) (active : List Handle) (t : TaskRecord) : Type 0 where
  pub pending : t.state ≡ TaskState.pending
  pub deps_done : All (λ d. elem d (completed_ids tasks) ≡ true) t.dependencies
  pub not_active : elem t.id (active_ids active) ≡ false

all_deps :
    (done ds : List String) → all (λ d. elem d done) ds ≡ true → All (λ d. elem d done ≡ true) ds
all_deps done [] h = tt
all_deps done (d ∷ ds) h = (ground arith, all_deps done ds (ground arith))

is_ready-MayStart :
    (tasks : List TaskRecord) (active : List Handle) (t : TaskRecord)
    → is_ready tasks active t ≡ true
    → MayStart tasks active t
unfolding is_ready
is_ready-MayStart tasks active t h = record {
  pending = ground arith;
  deps_done = all_deps (completed_ids tasks) t.dependencies (ground arith);
  not_active = ground arith;
}

module _ {A : Type 0} where
  All-select : (p : A → Bool) (xs : List A) → All (λ x. p x ≡ true) (select p xs)
  unfolding select
  All-select p [] = tt
  All-select p (x ∷ xs) = elim (Bool-cases (p x)) [
    | inl e ↦ rw e (e, All-select p xs)
    | inr e ↦ rw e (All-select p xs)
  ]

  All-take : (P : A → Type 0) (n : ℕ) (xs : List A) → All P xs → All P (take n xs)
  All-take P zero xs h = tt
  All-take P (suc n) [] h = tt
  All-take P (suc n) (x ∷ xs) h = (h.0, All-take P n xs h.1)

  length-take_le : (n : ℕ) (xs : List A) → length (take n xs) ≤ n
  length-take_le zero xs = omega arith
  length-take_le (suc n) [] = omega arith
  length-take_le (suc n) (x ∷ xs) = omega (arith, length-take_le n xs)

  length-append : (xs ys : List A) → length (xs ++ ys) ≡ length xs + length ys
  length-append [] ys = omega arith
  length-append (x ∷ xs) ys = omega (arith, length-append xs ys)

  length-map : {B : Type 0} (f : A → B) (xs : List A) → length (map f xs) ≡ length xs
  length-map f [] = refl
  length-map f (x ∷ xs) = omega (arith, length-map f xs)

pub waiting_parts :
    (stop : Bool) (max_parallel : ℕ) (tasks : List TaskRecord) (active : List Handle)
    {launched : List TaskRecord} {running : List Handle}
    → execute_round stop max_parallel tasks active ≡ Round.waiting launched running
    → (launched ≡ launched_tasks max_parallel tasks active)
      × (running
          ≡ select is_running active ++ map start_handle (launched_tasks max_parallel tasks active))
unfolding execute_round settle_round
waiting_parts stop max_parallel tasks active h = ground arith

-- A round that waits has launched only tasks that may start (pending, with every dependency
-- completed, and without a running handle), and it leaves at most `max_parallel` handles running,
-- if no more than that were running before it.
pub execute_round-launch :
    (stop : Bool) (max_parallel : ℕ) (tasks : List TaskRecord) (active : List Handle)
    (launched : List TaskRecord) (running : List Handle)
    → execute_round stop max_parallel tasks active ≡ Round.waiting launched running
    → length (select is_running active) ≤ max_parallel
    → All (MayStart tasks active) launched × (length running ≤ max_parallel)
unfolding launched_tasks
execute_round-launch stop max_parallel tasks active launched running h room =
    let (same, ran) = waiting_parts stop max_parallel tasks active h in
    let before = select is_running active in
    let ready = select (is_ready tasks active) tasks in
    let now = take (max_parallel - length before) ready in
    (
      rw same (
          All-map_of (λ t. is_ready tasks active t ≡ true) (MayStart tasks active) now
            (is_ready-MayStart tasks active)
            (All-take (λ t. is_ready tasks active t ≡ true) (max_parallel - length before) ready
              (All-select (is_ready tasks active) tasks))),
      rw ran (
          omega (
            arith,
            length-append before (map start_handle now),
            length-map start_handle now,
            length-take_le (max_parallel - length before) ready,
          )),
    )
