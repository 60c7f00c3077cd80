-- ===== src/Planner/Accepted.antt =====
-- What an accepted plan promises to the rest of the program.
use omarchy_yolo.Prelude.{
  ℕ, ◌≤◌, ◌<◌, String, ◌≡◌, ◌≢◌, ◌⊎◌, refl, subst, true, false, not, some, List, [], ◌∷◌, arith,
  ◌==◌, string_eq, elem, any, distinct, is_empty, All, length, ltb, text_length, Bool-cases, inl,
  inr,
}
use omarchy_yolo.Model.{PlannedTask}
use omarchy_yolo.Planner.{
  Outcome, pass, fail, ◌>>◌, ids_of, deps_of, validate_task, validate_tasks, visit_graph, validate,
  is_task_id, max_title_chars, max_description_chars, max_acceptance_items, max_acceptance_chars,
}
use omarchy_yolo.Planner.Order.{IsRanking, rank, visit_graph-IsRanking}
use omarchy_yolo.Planner.Complete.{IsClosed}

-- One task of an accepted plan.
pub record IsWellFormed (known : List String) (t : PlannedTask) : Type 0 where
  pub titled : (t.title ≢ "") × (text_length t.title ≤ max_title_chars)
  pub described : (t.description ≢ "") × (text_length t.description ≤ max_description_chars)
  pub criteria : length t.acceptance ≤ max_acceptance_items
  pub criteria_short : All (λ item. text_length item ≤ max_acceptance_chars) t.acceptance
  pub deps_distinct : distinct t.depends_on ≡ true
  pub deps_known : All (λ d. elem d known ≡ true) t.depends_on
  pub not_self : elem t.logical_id t.depends_on ≡ false
  pub risk_known : (t.risk ≡ "low") ⊎ (t.risk ≡ "medium") ⊎ (t.risk ≡ "high")

All-known :
    (known ds : List String)
    → any (λ d. not (elem d known)) ds ≡ false
    → All (λ d. elem d known ≡ true) ds
All-known known [] h = tt
All-known known (d ∷ ds) h = (ground arith, All-known known ds (ground arith))

All-short :
    (items : List String)
    → any (λ item. ltb max_acceptance_chars (text_length item)) items ≡ false
    → All (λ item. text_length item ≤ max_acceptance_chars) items
All-short [] h = tt
All-short (i ∷ is) h = (ground arith, All-short is (ground arith))

validate_task-IsWellFormed :
    (known : List String) (t : PlannedTask) → validate_task known t ≡ pass tt → IsWellFormed known t
unfolding validate_task
validate_task-IsWellFormed known t h = record {
  titled = (ground (arith, string_eq.beq_iff t.title ""), ground arith);
  described = (ground (arith, string_eq.beq_iff t.description ""), ground arith);
  criteria = ground arith;
  criteria_short = All-short t.acceptance (ground arith);
  deps_distinct = ground arith;
  deps_known = All-known known t.depends_on (ground arith);
  not_self = ground arith;
  risk_known = ground (
    arith,
    string_eq.beq_iff "low" t.risk,
    string_eq.beq_iff "medium" t.risk,
    string_eq.beq_iff "high" t.risk,
  );
}

both-pass :
    {B : Type 0} (m : Outcome (Unit {0})) (k : Outcome B) {b : B}
    → (m >> k) ≡ pass b
    → (m ≡ pass tt) × (k ≡ pass b)
both-pass (pass u) k h = (refl, h)
both-pass (fail e) k h = cc

-- The loop checks every task, and so every entry of the graph.
pub validate_tasks-All :
    (known : List String) (ts : List PlannedTask)
    → validate_tasks known ts ≡ pass tt
    → All (IsWellFormed known) ts
unfolding validate_tasks
validate_tasks-All known [] h = tt
validate_tasks-All known (t ∷ ts) h =
    let (first, rest) = both-pass (validate_task known t) (validate_tasks known ts) h in
    (validate_task-IsWellFormed known t first, validate_tasks-All known ts rest)

pub deps_of-All :
    (known : List String) (n : String) (ts : List PlannedTask) (deps : List String)
    → All (IsWellFormed known) ts
    → deps_of n ts ≡ some deps
    → All (λ d. elem d known ≡ true) deps
unfolding deps_of
deps_of-All known n [] deps w e = cc
deps_of-All known n (t ∷ ts) deps w e = elim (Bool-cases (t.logical_id == n)) [
  | inl same ↦
      let it : t.depends_on ≡ deps = cc (rw same at e) in
      subst (All (λ d. elem d known ≡ true)) it w.0.deps_known
  | inr other ↦ deps_of-All known n ts deps w.1 (rw other at e)
]

-- What `validate` promises of the tasks that it lets pass, and of the order in which it finished.
pub record IsPlan (max_tasks : ℕ) (tasks : List PlannedTask) (order : List String) : Type 0 where
  pub nonempty : 0 < length tasks
  pub bounded : length tasks ≤ max_tasks
  pub ids_distinct : distinct (ids_of tasks) ≡ true
  pub ids_safe : any (λ i. not (is_task_id i)) (ids_of tasks) ≡ false
  pub well_formed : All (IsWellFormed (ids_of tasks)) tasks
  pub closed : IsClosed tasks
  pub ranked : IsRanking tasks (λ n. rank n order)

-- A plan that `validate` accepts is nonempty and within the configured number of tasks, has
-- distinct well-formed ids, tasks within all bounds, no dependency outside of the plan, and no
-- cycle: every task ranks above its dependencies.
pub validate-IsPlan :
    (max_tasks : ℕ) (tasks : List PlannedTask) (order : List String)
    → validate max_tasks tasks ≡ pass order
    → IsPlan max_tasks tasks order
unfolding validate
validate-IsPlan max_tasks tasks order h =
    let (before_graph, graph) = both-pass _ (visit_graph tasks) h in
    let (checks, loop) = both-pass _ (validate_tasks (ids_of tasks) tasks) before_graph in
    let well = validate_tasks-All (ids_of tasks) tasks loop in
    record {
      nonempty = nonempty_of tasks (ground arith);
      bounded = ground arith;
      ids_distinct = ground arith;
      ids_safe = ground arith;
      well_formed = well;
      closed = λ n deps e. deps_of-All (ids_of tasks) n tasks deps well e;
      ranked = visit_graph-IsRanking tasks order graph;
    }
  where
    nonempty_of : (ts : List PlannedTask) → is_empty ts ≡ false → 0 < length ts
    nonempty_of [] e = cc
    nonempty_of (t ∷ ts) e = omega arith
