-- ===== src/Planner/Complete.antt =====
-- The graph check refuses a plan for a cycle only, and only if it has one; its fuel is enough.
use omarchy_yolo.Prelude.{
  ℕ, zero, suc, ◌+◌, ◌≤◌, ◌<◌, String, ◌≡◌, ◌≢◌, ◌⊎◌, ◌↔◌, refl, subst, true, false, Option, none,
  some, List, [], ◌∷◌, arith, ◌==◌, string_eq, ==-refl, elem, distinct, All, All-map_of, length,
  if◌then◌else◌, Bool-cases, inl, inr,
}
use omarchy_yolo.Model.{PlannedTask}
use omarchy_yolo.Planner.{
  Outcome, pass, fail, ◌>>=◌, ids_of, deps_of, visit_all, visit_deps, visit, visit_graph, PlanError,
}
use omarchy_yolo.Planner.Order.{IsRanking, rank, visit_graph-IsRanking, All-elem}

-- The pigeonhole principle, for lists of texts without repetition.
without : String → List String → List String
without x [] = []
without x (y ∷ ys) = if y == x then ys else y ∷ without x ys

length-without :
    (x : String) (ys : List String) → elem x ys ≡ true → suc (length (without x ys)) ≡ length ys
unfolding without
length-without x [] h = cc
length-without x (y ∷ ys) h = ground (arith, length-without x ys)

elem-without :
    (x z : String) (ys : List String)
    → elem z ys ≡ true
    → (z == x) ≡ false
    → elem z (without x ys) ≡ true
unfolding without
elem-without x z [] h n = cc
elem-without x z (y ∷ ys) h n = ground (
  arith,
  elem-without x z ys,
  string_eq.beq_iff y x,
  string_eq.beq_iff z x,
  string_eq.beq_iff y z,
)

All-without :
    (x : String) (xs ys : List String)
    → elem x xs ≡ false
    → All (λ z. elem z ys ≡ true) xs
    → All (λ z. elem z (without x ys) ≡ true) xs
All-without x [] ys n h = tt
All-without x (z ∷ zs) ys n h =
    (elem-without x z ys h.0 (ground arith), All-without x zs ys (ground arith) h.1)

pigeonhole :
    (xs ys : List String)
    → distinct xs ≡ true
    → All (λ x. elem x ys ≡ true) xs
    → length xs ≤ length ys
pigeonhole [] ys d h = omega arith
pigeonhole (x ∷ xs) ys d h =
    let fewer =
      pigeonhole xs (without x ys) (ground arith) (All-without x xs ys (ground arith) h.1) in
    omega (arith, length-without x ys h.0)

length-ids : (tasks : List PlannedTask) → length (ids_of tasks) ≡ length tasks
length-ids [] = refl
length-ids (t ∷ ts) = omega (arith, length-ids ts)

-- Every dependency of a task is a task.
abbrev pub IsClosed : List PlannedTask → Type 0
IsClosed tasks =
    (n : String) (deps : List String)
    → deps_of n tasks ≡ some deps
    → All (λ d. elem d (ids_of tasks) ≡ true) deps

deps_of-known :
    (n : String) (tasks : List PlannedTask) → elem n (ids_of tasks) ≡ true → deps_of n tasks ≢ none
unfolding deps_of
deps_of-known n [] h e = cc
deps_of-known n (t ∷ ts) h e = elim (Bool-cases (t.logical_id == n)) [
  | inl same ↦ cc (rw same at e)
  | inr other ↦ deps_of-known n ts (ground arith) (rw other at e)
]

bind-fail :
    {A B : Type 0} (m : Outcome A) (f : A → Outcome B) {e : PlanError}
    → (m >>= f) ≡ fail e
    → (m ≡ fail e) ⊎ ((a : A) × (m ≡ pass a) × (f a ≡ fail e))
bind-fail (pass a) f h = inr (a, refl, h)
bind-fail (fail x) f h = inl (cc)

-- A step that fails, at nodes of `ok`, with the errors of `Allowed` only.
abbrev OnlyFails :
    (PlanError → Type 0)
    → (String → Type 0)
    → (List String → String → Outcome (List String))
    → Type 0
OnlyFails Allowed Ok step =
    (before : List String) (node : String)
    → Ok node
    → (e : PlanError) → step before node ≡ fail e
    → Allowed e

module _ (Allowed : PlanError → Type 0) (Ok : String → Type 0) where
  visit_all-OnlyFails :
      (step : List String → String → Outcome (List String))
      → OnlyFails Allowed Ok step
      → (ds before : List String) → All Ok ds
      → (e : PlanError) → visit_all step before ds ≡ fail e
      → Allowed e
  unfolding visit_all
  visit_all-OnlyFails step h [] before k e f = cc
  visit_all-OnlyFails step h (d ∷ ds) before k e f =
      elim (bind-fail (step before d) (λ v. visit_all step v ds) f) [
        | inl first ↦ h before d k.0 e first
        | inr (mid, passed, rest) ↦ visit_all-OnlyFails step h ds mid k.1 e rest
      ]

  -- One call of `visit`: what its checks and its calls on the dependencies can raise.
  visit_step-OnlyFails :
      (fuel : ℕ) (tasks : List PlannedTask) (visiting before : List String) (node : String)
      → (elem node visiting ≡ true → Allowed PlanError.dependency_cycle)
      → deps_of node tasks ≢ none
      → (elem node visiting ≡ false
          → (deps : List String) → deps_of node tasks ≡ some deps
          → (e : PlanError) → visit_all (visit fuel tasks (node ∷ visiting)) before deps ≡ fail e
          → Allowed e)
      → (e : PlanError) → visit (suc fuel) tasks visiting before node ≡ fail e
      → Allowed e
  unfolding visit
  visit_step-OnlyFails fuel tasks visiting before node loop known below e f =
      elim (Bool-cases (elem node before)) [
        | inl old ↦ cc (rw old at f)
        | inr new ↦ elim (Bool-cases (elem node visiting)) [
          | inl cycle ↦
              let same : PlanError.dependency_cycle ≡ e = cc (rw (new, cycle) at f) in
              subst Allowed same (loop cycle)
          | inr free ↦ go (deps_of node tasks) refl (below free) (rw (new, free) at f)
        ]
      ]
    where
      go :
          (o : Option (List String))
          → deps_of node tasks ≡ o
          → ((deps : List String)
              → deps_of node tasks ≡ some deps
              → (x : PlanError)
              → visit_all (visit fuel tasks (node ∷ visiting)) before deps ≡ fail x
              → Allowed x)
          → visit_deps (visit fuel tasks (node ∷ visiting)) before node o ≡ fail e
          → Allowed e
      go none p rest f = absurd (known p)
      go (some deps) p rest f =
          elim (bind-fail (visit_all (visit fuel tasks (node ∷ visiting)) before deps)
            (λ v. pass (node ∷ v)) f) [
              | inl first ↦ rest deps p e first
              | inr (v, passed, last) ↦ cc
            ]

abbrev IsCycle : PlanError → Type 0
IsCycle e = e ≡ PlanError.dependency_cycle

abbrev Known : List PlannedTask → String → Type 0
Known tasks node = elem node (ids_of tasks) ≡ true

-- The stack holds different known nodes, so that the fuel cannot run out.
visit-OnlyFails :
    (fuel : ℕ) (tasks : List PlannedTask) (visiting : List String)
    → IsClosed tasks
    → fuel + length visiting ≡ suc (length tasks)
    → distinct visiting ≡ true
    → All (Known tasks) visiting
    → OnlyFails IsCycle (Known tasks) (visit fuel tasks visiting)
visit-OnlyFails zero tasks visiting closed size d k before node known e f =
    absurd (omega (arith, pigeonhole visiting (ids_of tasks) d k, length-ids tasks))
visit-OnlyFails (suc fuel) tasks visiting closed size d k before node known e f =
    visit_step-OnlyFails IsCycle (Known tasks) fuel tasks visiting before node (λ _. refl)
      (deps_of-known node tasks known)
      (λ free deps p.
        visit_all-OnlyFails IsCycle (Known tasks) (visit fuel tasks (node ∷ visiting))
          (visit-OnlyFails fuel tasks (node ∷ visiting) closed (omega arith) (rw free d) (known, k))
          deps before (closed node deps p))
      e f

pub All-self : (xs : List String) → All (λ x. elem x xs ≡ true) xs
All-self [] = tt
All-self (x ∷ xs) = (
  rw (==-refl x),
  All-map_of (λ y. elem y xs ≡ true) (λ y. elem y (x ∷ xs) ≡ true) xs (λ y h. ground arith)
      (All-self xs),
)

-- On a closed graph the only error is a cycle: a missing node and an end of fuel never show.
pub visit_graph-IsCycle :
    (tasks : List PlannedTask) (e : PlanError)
    → IsClosed tasks
    → visit_graph tasks ≡ fail e
    → e ≡ PlanError.dependency_cycle
unfolding visit_graph
visit_graph-IsCycle tasks e closed f =
    visit_all-OnlyFails IsCycle (Known tasks) (visit (suc (length tasks)) tasks [])
      (visit-OnlyFails (suc (length tasks)) tasks [] closed (omega arith) refl tt) (ids_of tasks) []
      (All-self (ids_of tasks)) e f

-- The nodes on the stack stand above the node that is visited.
abbrev Below : List PlannedTask → (String → ℕ) → List String → String → Type 0
Below tasks r visiting node = Known tasks node × All (λ x. r node < r x) visiting

Below-deps :
    (tasks : List PlannedTask) (r : String → ℕ) (visiting : List String) (node : String)
    (deps ds : List String)
    → IsRanking tasks r
    → Below tasks r visiting node
    → deps_of node tasks ≡ some deps
    → ((x : String) → elem x ds ≡ true → elem x deps ≡ true)
    → All (Known tasks) ds
    → All (Below tasks r (node ∷ visiting)) ds
Below-deps tasks r visiting node deps [] ranking b p sub k = tt
Below-deps tasks r visiting node deps (d ∷ ds) ranking b p sub k =
    let less : r d < r node = ranking.above node d deps b.0 p (sub d (rw (==-refl d))) in
    (
      (
        k.0,
        (less, All-map_of (λ x. r node < r x) (λ x. r d < r x) visiting (λ x h. omega arith) b.1),
      ),
      Below-deps tasks r visiting node deps ds ranking b p (λ x m. sub x (ground arith)) k.1,
    )

visit-passes :
    (fuel : ℕ) (tasks : List PlannedTask) (visiting : List String) (r : String → ℕ)
    → IsRanking tasks r
    → IsClosed tasks
    → fuel + length visiting ≡ suc (length tasks)
    → distinct visiting ≡ true
    → All (Known tasks) visiting
    → OnlyFails (λ _. ⊥) (Below tasks r visiting) (visit fuel tasks visiting)
visit-passes zero tasks visiting r ranking closed size d k before node b e f =
    omega (arith, pigeonhole visiting (ids_of tasks) d k, length-ids tasks)
visit-passes (suc fuel) tasks visiting r ranking closed size d k before node b e f =
    visit_step-OnlyFails (λ _. ⊥) (Below tasks r visiting) fuel tasks visiting before node
      (λ loop. let less = All-elem node visiting (λ x. r node < r x) loop b.1 in omega arith)
      (deps_of-known node tasks b.0)
      (λ free deps p.
        visit_all-OnlyFails (λ _. ⊥) (Below tasks r (node ∷ visiting))
          (visit fuel tasks (node ∷ visiting))
          (visit-passes fuel tasks (node ∷ visiting) r ranking closed (omega arith) (rw free d)
            (b.0, k))
          deps before
          (Below-deps tasks r visiting node deps deps ranking b p (λ x m. m) (closed node deps p)))
      e f

-- A closed graph passes exactly if it has a ranking, that is if it has no cycle.
pub visit_graph_iff :
    (tasks : List PlannedTask)
    → IsClosed tasks
    → ((order : List String) × (visit_graph tasks ≡ pass order))
      ↔ ((r : String → ℕ) × IsRanking tasks r)
unfolding visit_graph
visit_graph_iff tasks closed = (
  λ (order, h). ((λ n. rank n order), visit_graph-IsRanking tasks order h),
  λ (r, ranking). go (visit_graph tasks) refl (passes r ranking),
)
  where
    passes : (r : String → ℕ) → IsRanking tasks r → (e : PlanError) → visit_graph tasks ≡ fail e → ⊥
    passes r ranking e f =
        visit_all-OnlyFails (λ _. ⊥) (Below tasks r []) (visit (suc (length tasks)) tasks [])
          (visit-passes (suc (length tasks)) tasks [] r ranking closed (omega arith) refl tt)
          (ids_of tasks) []
          (All-map_of (Known tasks) (Below tasks r []) (ids_of tasks) (λ x k. (k, tt))
            (All-self (ids_of tasks)))
          e f

    go :
        (o : Outcome (List String))
        → visit_graph tasks ≡ o
        → ((e : PlanError) → visit_graph tasks ≡ fail e → ⊥)
        → (order : List String) × (visit_graph tasks ≡ pass order)
    go (pass order) p never = (order, p)
    go (fail e) p never = absurd (never e p)
