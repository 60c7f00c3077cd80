-- ===== src/Scheduler/Planned.antt =====
-- The rows of an accepted plan: what the planner checks is what the scheduler relies on.
use omarchy_yolo.Prelude.{
  ℕ, ◌<◌, String, ◌≡◌, ◌≢◌, refl, Bool, true, false, some, List, [], ◌∷◌, arith, string_eq, ==-refl,
  elem, distinct, All,
}
use omarchy_yolo.Model.{PlannedTask, TaskRecord}
use omarchy_yolo.Planner.{pass, ids_of, deps_of, validate}
use omarchy_yolo.Planner.Order.{IsRanking, rank}
use omarchy_yolo.Planner.Complete.{IsClosed, All-self}
use omarchy_yolo.Planner.Accepted.{validate-IsPlan}
use omarchy_yolo.Scheduler.{Handle, Round, execute_round}
use omarchy_yolo.Scheduler.Progress.{
  logical_ids, IsRankedRow, IsSettled, All-zip, execute_round-ne-stalled,
}

-- The rows are those of the plan, in its order, in whatever states.
abbrev pub IsRowsOf : List PlannedTask → List TaskRecord → Type 0
IsRowsOf [] [] = Unit {0}
IsRowsOf [] (t ∷ ts) = ⊥
IsRowsOf (p ∷ ps) [] = ⊥
IsRowsOf (p ∷ ps) (t ∷ ts) =
    (t.logical_id ≡ p.logical_id) × (t.dependencies ≡ p.depends_on) × IsRowsOf ps ts

logical_ids-IsRowsOf :
    (ps : List PlannedTask) (ts : List TaskRecord) → IsRowsOf ps ts → logical_ids ts ≡ ids_of ps
logical_ids-IsRowsOf [] [] m = refl
logical_ids-IsRowsOf [] (t ∷ ts) m = absurd m
logical_ids-IsRowsOf (p ∷ ps) [] m = absurd m
logical_ids-IsRowsOf (p ∷ ps) (t ∷ ts) m = rw (m.0, logical_ids-IsRowsOf ps ts m.2) refl

-- A task whose id is its own: the graph has it, with its dependencies.
abbrev Found : List PlannedTask → PlannedTask → Type 0
Found plan p =
    (elem p.logical_id (ids_of plan) ≡ true) × (deps_of p.logical_id plan ≡ some p.depends_on)

differ-All :
    (i : String) (ps : List PlannedTask)
    → elem i (ids_of ps) ≡ false
    → All (λ q. elem q.logical_id (i ∷ []) ≡ false) ps
differ-All i [] h = tt
differ-All i (q ∷ qs) h = (
  ground (arith, string_eq.beq_iff i q.logical_id, string_eq.beq_iff q.logical_id i),
  differ-All i qs (ground arith),
)

All-Found : (ps : List PlannedTask) → distinct (ids_of ps) ≡ true → All (Found ps) ps
unfolding deps_of
All-Found [] h = tt
All-Found (p ∷ ps) h = (
  (rw (==-refl p.logical_id) (refl, refl)),
  All-zip (λ q. elem q.logical_id (p.logical_id ∷ []) ≡ false) (Found ps) (Found (p ∷ ps)) ps
      (λ q other f. ground (arith, other, f)) (differ-All p.logical_id ps (ground arith))
      (All-Found ps (ground arith)),
)

module _ (plan : List PlannedTask) (rows : List TaskRecord) (r : String → ℕ)
    (closed : IsClosed plan) (ranking : IsRanking plan r)
    (ids : logical_ids rows ≡ ids_of plan) where
  ranked_deps :
      (p : PlannedTask)
      → Found plan p
      → All (λ d. (elem d (logical_ids rows) ≡ true) × (r d < r p.logical_id)) p.depends_on
  ranked_deps p f =
      All-zip (λ d. elem d (ids_of plan) ≡ true) (λ d. elem d p.depends_on ≡ true)
        (λ d. (elem d (logical_ids rows) ≡ true) × (r d < r p.logical_id)) p.depends_on
        (λ d known here. (rw ids known, ranking.above p.logical_id d p.depends_on f.0 f.1 here))
        (closed p.logical_id p.depends_on f.1) (All-self p.depends_on)

  ranked_rows :
      (ps : List PlannedTask) (ts : List TaskRecord)
      → IsRowsOf ps ts
      → All (Found plan) ps
      → All (IsRankedRow rows r) ts
  ranked_rows [] [] m f = tt
  ranked_rows [] (t ∷ ts) m f = absurd m
  ranked_rows (p ∷ ps) [] m f = absurd m
  ranked_rows (p ∷ ps) (t ∷ ts) m f = (rw (m.0, m.1) (ranked_deps p f.0), ranked_rows ps ts m.2 f.1)

-- If `validate` accepted a plan, and the task rows are those of the plan (its logical ids and
-- dependencies) and are pending, completed or failed, then a round with room for a task never ends
-- by blocking open tasks as stalled.
pub validate-ne-stalled :
    (max_tasks : ℕ) (plan : List PlannedTask) (order : List String) (stop : Bool) (max_parallel : ℕ)
    (rows : List TaskRecord) (active : List Handle) (rest : List TaskRecord)
    → validate max_tasks plan ≡ pass order
    → IsRowsOf plan rows
    → All IsSettled rows
    → 0 < max_parallel
    → execute_round stop max_parallel rows active ≢ Round.stalled rest
validate-ne-stalled max_tasks plan order stop max_parallel rows active rest v m settled room =
    let good = validate-IsPlan max_tasks plan order v in
    execute_round-ne-stalled stop max_parallel rows active (λ n. rank n order) rest room
      (ranked_rows plan rows (λ n. rank n order) good.closed good.ranked
        (logical_ids-IsRowsOf plan rows m) plan rows m (All-Found plan good.ids_distinct))
      settled
