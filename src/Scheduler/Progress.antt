-- ===== src/Scheduler/Progress.antt =====
-- A graph without a cycle never stalls.
use omarchy_yolo.Prelude.{
  ℕ, zero, suc, ◌-◌, ◌≤◌, ◌<◌, String, ◌≡◌, ◌≢◌, ◌⊎◌, refl, sym, subst, Bool, true, false, not,
  ◌&&◌, List, [], ◌∷◌, ◌++◌, map, arith, ◌==◌, string_eq, eq_of_==, elem, all, All, All-map_of,
  is_empty, length, take, Bool-cases, inl, inr,
}
use omarchy_yolo.Prelude.Tables.{select}
use omarchy_yolo.Model.{TaskState, TaskRecord, task_state_eq}
use omarchy_yolo.Scheduler.{
  Handle, Round, is_state, completed_ids, is_running, active_ids, is_ready, launched_tasks,
  start_handle, settle_round, execute_round,
}

abbrev pub logical_ids : List TaskRecord → List String
logical_ids = map (λ t. t.logical_id)

-- The rows form a graph in which each task stands above its dependencies, all of them rows.
abbrev pub IsRankedRow : List TaskRecord → (String → ℕ) → TaskRecord → Type 0
IsRankedRow tasks r t =
    All (λ d. (elem d (logical_ids tasks) ≡ true) × (r d < r t.logical_id)) t.dependencies

-- A task that waits for its turn, is done or has failed: none is in flight, blocked or stopped.
abbrev pub IsSettled : TaskRecord → Type 0
IsSettled t =
    (t.state ≡ TaskState.pending) ⊎ (t.state ≡ TaskState.completed) ⊎ (t.state ≡ TaskState.failed)

abbrev IsDone : TaskRecord → Type 0
IsDone t = t.state ≡ TaskState.completed

elem-completed :
    (d : String) (tasks : List TaskRecord)
    → elem d (logical_ids tasks) ≡ true
    → All (λ t. t.logical_id ≡ d → IsDone t) tasks
    → elem d (completed_ids tasks) ≡ true
unfolding completed_ids select
elem-completed d [] h a = cc
elem-completed d (t ∷ ts) h a = elim (Bool-cases (t.logical_id == d)) [
  | inl same ↦
      let done = a.0 (eq_of_== t.logical_id d same) in
      let hit : is_state TaskState.completed t ≡ true = ground arith in rw hit (ground arith)
  | inr other ↦
      let rest = elem-completed d ts (ground arith) a.1 in
      elim (Bool-cases (is_state TaskState.completed t)) [
        | inl hit ↦ rw hit (ground arith)
        | inr miss ↦ rw miss rest
      ]
]

-- Below a rank, all tasks are done: the dependencies of a task are.
deps_done :
    (tasks : List TaskRecord) (r : String → ℕ) (k m : ℕ) (ds : List String)
    → All (λ t. r t.logical_id < k → IsDone t) tasks
    → m ≤ k
    → All (λ d. (elem d (logical_ids tasks) ≡ true) × (r d < m)) ds
    → all (λ d. elem d (completed_ids tasks)) ds ≡ true
deps_done tasks r k m [] below le h = refl
deps_done tasks r k m (d ∷ ds) below le h =
    let low : r d < k = omega (arith, h.0.1, le) in
    let first : elem d (completed_ids tasks) ≡ true = elem-completed d tasks h.0.0 (
      All-map_of (λ t. r t.logical_id < k → IsDone t) (λ t. t.logical_id ≡ d → IsDone t) tasks
        (λ t f e. f (subst (λ x. r x < k) (sym e) low)) below) in
    rw first (deps_done tasks r k m ds below le h.1)

module _ {A : Type 0} where
  All-swap :
      (Q : ℕ → A → Type 0) (xs : List A) → ((k : ℕ) → All (Q k) xs) → All (λ x. (k : ℕ) → Q k x) xs
  All-swap Q [] h = tt
  All-swap Q (x ∷ xs) h = ((λ k. (h k).0), All-swap Q xs (λ k. (h k).1))

  pub All-zip :
      (P Q R : A → Type 0) (xs : List A)
      → ((x : A) → P x → Q x → R x)
      → All P xs
      → All Q xs
      → All R xs
  All-zip P Q R [] f hp hq = tt
  All-zip P Q R (x ∷ xs) f hp hq = (f x hp.0 hq.0, All-zip P Q R xs f hp.1 hq.1)

  select-none :
      (p : A → Bool) (xs : List A) → is_empty (select p xs) ≡ true → All (λ x. p x ≡ false) xs
  unfolding select
  select-none p [] h = tt
  select-none p (x ∷ xs) h = elim (Bool-cases (p x)) [
    | inl e ↦ ground (arith, e, h)
    | inr e ↦ (e, select-none p xs (ground (arith, e, h)))
  ]

  none-select : (p : A → Bool) (xs : List A) → All (λ x. p x ≡ false) xs → select p xs ≡ []
  unfolding select
  none-select p [] h = refl
  none-select p (x ∷ xs) h = rw h.0 (none-select p xs h.1)

  empty_parts :
      (xs ys : List A) → is_empty (xs ++ ys) ≡ true → (is_empty xs ≡ true) × (is_empty ys ≡ true)
  empty_parts [] ys h = (refl, h)
  empty_parts (x ∷ xs) ys h = ground arith

  empty_take : (n : ℕ) (xs : List A) → 0 < n → is_empty (take n xs) ≡ true → is_empty xs ≡ true
  empty_take zero xs pos h = ground arith
  empty_take (suc n) [] pos h = refl
  empty_take (suc n) (x ∷ xs) pos h = h

active_ids-none :
    (active : List Handle) → is_empty (select is_running active) ≡ true → active_ids active ≡ []
unfolding active_ids
active_ids-none active h =
    let quiet =
      All-map_of (λ x. is_running x ≡ false) (λ x. (is_running x && not (x.name == "")) ≡ false)
        active (λ x e. ground (arith, e)) (select-none is_running active h) in
    rw (none-select (λ x. is_running x && not (x.name == "")) active quiet) refl

-- What a stalled round has seen: no failure, no running handle and no task that is ready.
record Stalls (max_parallel : ℕ) (tasks : List TaskRecord) (active : List Handle) : Type 0 where
  pub no_failure : is_empty (select (is_state TaskState.failed) tasks) ≡ true
  pub idle : is_empty (select is_running active) ≡ true
  pub nothing_launched : is_empty (launched_tasks max_parallel tasks active) ≡ true
  pub unfinished : is_empty (select (λ t. not (is_state TaskState.completed t)) tasks) ≡ false

is_empty-map :
    {A B : Type 0} (f : A → B) (xs : List A) → is_empty (map f xs) ≡ true → is_empty xs ≡ true
is_empty-map f [] h = refl
is_empty-map f (x ∷ xs) h = h

stalled_parts :
    (stop : Bool) (max_parallel : ℕ) (tasks : List TaskRecord) (active : List Handle)
    {rest : List TaskRecord}
    → execute_round stop max_parallel tasks active ≡ Round.stalled rest
    → Stalls max_parallel tasks active
unfolding execute_round settle_round
stalled_parts stop max_parallel tasks active h =
    let launched = launched_tasks max_parallel tasks active in
    let quiet : is_empty (select is_running active ++ map start_handle launched) ≡ true =
      ground arith in
    let (idle, nothing) =
      empty_parts (select is_running active) (map start_handle launched) quiet in
    record {
      no_failure = ground arith;
      idle = idle;
      nothing_launched = is_empty-map start_handle launched nothing;
      unfinished = ground arith;
    }

-- A task that is neither failed nor ready is done, if its dependencies are.
IsDone-of :
    (tasks : List TaskRecord) (active : List Handle) (t : TaskRecord)
    → active_ids active ≡ []
    → IsSettled t
    → is_ready tasks active t ≡ false
    → is_state TaskState.failed t ≡ false
    → all (λ d. elem d (completed_ids tasks)) t.dependencies ≡ true
    → IsDone t
unfolding is_ready
IsDone-of tasks active t quiet settled wait fine deps = elim settled [
  | inl e ↦ ground (arith, e, wait, deps, quiet)
  | inr (inl e) ↦ e
  | inr (inr e) ↦ ground (arith, e, fine)
]

module _ (max_parallel : ℕ) (tasks : List TaskRecord) (active : List Handle) (r : String → ℕ)
    (room : 0 < max_parallel) (ranked : All (IsRankedRow tasks r) tasks)
    (settled : All IsSettled tasks) (stall : Stalls max_parallel tasks active) where
  quiet_ids : active_ids active ≡ []
  quiet_ids = active_ids-none active stall.idle

  no_ready : All (λ t. is_ready tasks active t ≡ false) tasks
  unfolding launched_tasks
  no_ready =
      let idle : select is_running active ≡ [] =
        none-select is_running active (select-none is_running active stall.idle) in
      select-none (is_ready tasks active) tasks (
        empty_take (max_parallel - length (select is_running active))
          (select (is_ready tasks active) tasks) (rw idle (omega arith)) stall.nothing_launched)

  -- A task with what is known of it: its rank, its settled state, and that it neither failed nor is ready.
  abbrev Known : TaskRecord → Type 0
  Known t =
      IsRankedRow tasks r t
      × IsSettled t
      × (is_ready tasks active t ≡ false)
      × (is_state TaskState.failed t ≡ false)

  All-Known : All Known tasks
  All-Known =
      let none_failed = select-none (is_state TaskState.failed) tasks stall.no_failure in
      All-zip (IsRankedRow tasks r)
        (λ t.
          IsSettled t × (is_ready tasks active t ≡ false) × (is_state TaskState.failed t ≡ false))
        Known tasks (λ t a b. (a, b.0, b.1, b.2)) ranked
        (All-zip IsSettled
          (λ t. (is_ready tasks active t ≡ false) × (is_state TaskState.failed t ≡ false))
          (λ t.
            IsSettled t × (is_ready tasks active t ≡ false) × (is_state TaskState.failed t ≡ false))
          tasks (λ t a b. (a, b.0, b.1)) settled
          (All-zip (λ t. is_ready tasks active t ≡ false) (λ t. is_state TaskState.failed t ≡ false)
            (λ t. (is_ready tasks active t ≡ false) × (is_state TaskState.failed t ≡ false)) tasks
            (λ t a b. (a, b)) no_ready none_failed))

  IsDone-below : (k : ℕ) → All (λ t. r t.logical_id < k → IsDone t) tasks
  IsDone-below zero =
      All-map_of Known (λ t. r t.logical_id < 0 → IsDone t) tasks (λ t _ h. ground arith) All-Known
  IsDone-below (suc k) =
      let below = IsDone-below k in
      All-map_of Known (λ t. r t.logical_id < suc k → IsDone t) tasks
        (λ t (rk, st, wait, fine) h.
          IsDone-of tasks active t quiet_ids st wait fine
            (deps_done tasks r k (r t.logical_id) t.dependencies below (omega arith) rk))
        All-Known

  All-IsDone : All IsDone tasks
  All-IsDone =
      All-map_of (λ t. (k : ℕ) → r t.logical_id < k → IsDone t) IsDone tasks
        (λ t f. f (suc (r t.logical_id)) (omega arith))
        (All-swap (λ k t. r t.logical_id < k → IsDone t) tasks IsDone-below)

  nothing_open : is_empty (select (λ t. not (is_state TaskState.completed t)) tasks) ≡ true
  nothing_open =
      let closed =
        All-map_of IsDone (λ t. not (is_state TaskState.completed t) ≡ false) tasks
          (λ t e. ground (arith, e)) All-IsDone in
      rw (none-select (λ t. not (is_state TaskState.completed t)) tasks closed) refl

-- A round with room for a task, over settled rows (pending, completed or failed) of a graph in
-- which a rank puts every task above its dependencies, which are rows too, never ends by blocking
-- open tasks as stalled.
pub execute_round-ne-stalled :
    (stop : Bool) (max_parallel : ℕ) (tasks : List TaskRecord) (active : List Handle)
    (r : String → ℕ) (rest : List TaskRecord)
    → 0 < max_parallel
    → All (IsRankedRow tasks r) tasks
    → All IsSettled tasks
    → execute_round stop max_parallel tasks active ≢ Round.stalled rest
execute_round-ne-stalled stop max_parallel tasks active r rest room ranked settled h =
    let stall = stalled_parts stop max_parallel tasks active h in
    let closed = nothing_open max_parallel tasks active r room ranked settled stall in
    ground (arith, closed, stall.unfinished)
