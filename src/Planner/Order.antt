-- ===== src/Planner/Order.antt =====
-- An accepted plan has no cycle: the nodes are finished in an order of dependency.
use omarchy_yolo.Prelude.{
  ℕ, zero, suc, ◌≤◌, ◌<◌, String, ◌≡◌, refl, sym, subst, true, Option, none, some, List, [], ◌∷◌,
  arith, ◌==◌, string_eq, eq_of_==, ==-refl, elem, All, length, if◌then◌else◌, Bool-cases, inl, inr,
}
use omarchy_yolo.Model.{PlannedTask}
use omarchy_yolo.Planner.{
  Outcome, pass, fail, ◌>>=◌, ids_of, deps_of, visit_all, visit_deps, visit, visit_graph,
}

-- Each node of the list has its dependencies behind it.
abbrev pub IsOrdered : List PlannedTask → List String → Type 0
IsOrdered tasks [] = Unit {0}
IsOrdered tasks (n ∷ rest) =
    ((deps : List String) → deps_of n tasks ≡ some deps → All (λ d. elem d rest ≡ true) deps)
    × IsOrdered tasks rest

abbrev Extends : List String → List String → Type 0
Extends xs ys = (x : String) → elem x xs ≡ true → elem x ys ≡ true

-- What a call of `visit` that returns has done.
record Visited (tasks : List PlannedTask) (before after : List String) : Type 0 where
  ordered : IsOrdered tasks before → IsOrdered tasks after
  extends : Extends before after

Good : List PlannedTask → (List String → String → Outcome (List String)) → Type 0
Good tasks step =
    (before : List String) (node : String) (after : List String)
    → step before node ≡ pass after
    → Visited tasks before after × (elem node after ≡ true)

All-Extends :
    (ds xs ys : List String)
    → Extends xs ys
    → All (λ d. elem d xs ≡ true) ds
    → All (λ d. elem d ys ≡ true) ds
All-Extends [] xs ys ext h = tt
All-Extends (d ∷ ds) xs ys ext h = (ext d h.0, All-Extends ds xs ys ext h.1)

pub All-elem :
    (d : String) (ds : List String) (P : String → Type 0) → elem d ds ≡ true → All P ds → P d
All-elem d [] P m h = cc
All-elem d (x ∷ xs) P m h = elim (Bool-cases (x == d)) [
  | inl same ↦ subst P (eq_of_== x d same) h.0
  | inr other ↦ All-elem d xs P (ground arith) h.1
]

pub bind-pass :
    {A B : Type 0} (m : Outcome A) (f : A → Outcome B) {b : B}
    → (m >>= f) ≡ pass b
    → (a : A) × (m ≡ pass a) × (f a ≡ pass b)
bind-pass (pass a) f h = (a, refl, h)
bind-pass (fail e) f h = cc

visit_all-Visited :
    (tasks : List PlannedTask) (step : List String → String → Outcome (List String))
    → Good tasks step
    → (ds before after : List String) → visit_all step before ds ≡ pass after
    → Visited tasks before after × All (λ d. elem d after ≡ true) ds
unfolding visit_all Good
visit_all-Visited tasks step good [] before after h =
    let same : before ≡ after = cc in
    (subst (Visited tasks before) same (record { ordered = λ o. o; extends = λ x e. e }), tt)
visit_all-Visited tasks step good (d ∷ ds) before after h =
    let (mid, first, rest) = bind-pass (step before d) (λ v. visit_all step v ds) h in
    let (v1, seen) = good before d mid first in
    let (v2, all_seen) = visit_all-Visited tasks step good ds mid after rest in
    (
      record {
        ordered = λ o. v2.ordered (v1.ordered o);
        extends = λ x e. v2.extends x (v1.extends x e);
      },
      (v2.extends d seen, all_seen),
    )

-- Finishing a node behind its finished dependencies.
finish :
    (tasks : List PlannedTask) (node : String) (deps before mid : List String)
    → deps_of node tasks ≡ some deps
    → Visited tasks before mid
    → All (λ d. elem d mid ≡ true) deps
    → Visited tasks before (node ∷ mid)
finish tasks node deps before mid e v done = record {
  ordered = λ o. (λ ds e'. subst (All (λ d. elem d mid ≡ true)) (cc) done, v.ordered o);
  extends = λ x old. let mem = v.extends x old in ground arith;
}

visit-Good :
    (fuel : ℕ) (tasks : List PlannedTask) (visiting : List String)
    → Good tasks (visit fuel tasks visiting)
unfolding visit Good
visit-Good zero tasks visiting before node after h = cc
visit-Good (suc fuel) tasks visiting before node after h = elim (Bool-cases (elem node before)) [
  | inl old ↦
      let same : before ≡ after = ground arith in
      (
        subst (Visited tasks before) same (record { ordered = λ o. o; extends = λ x e. e }),
        subst (λ v. elem node v ≡ true) same old,
      )
  | inr new ↦ elim (Bool-cases (elem node visiting)) [
    | inl cycle ↦ cc (rw (new, cycle) at h)
    | inr free ↦ go (deps_of node tasks) refl (rw (new, free) at h) (λ deps mid.
        visit_all-Visited tasks (visit fuel tasks (node ∷ visiting))
          (visit-Good fuel tasks (node ∷ visiting)) deps before mid)
  ]
]
  where
    go :
        (o : Option (List String))
        → deps_of node tasks ≡ o
        → visit_deps (visit fuel tasks (node ∷ visiting)) before node o ≡ pass after
        → ((deps mid : List String)
            → visit_all (visit fuel tasks (node ∷ visiting)) before deps ≡ pass mid
            → Visited tasks before mid × All (λ d. elem d mid ≡ true) deps)
        → Visited tasks before after × (elem node after ≡ true)
    go none e h below = cc
    go (some deps) e h below =
        let (mid, visited, done) = bind-pass _ (λ v. pass (node ∷ v)) h in
        let (v, All-IsDone) = below deps mid visited in
        let same : node ∷ mid ≡ after = cc in
        (
          subst (Visited tasks before) same (finish tasks node deps before mid e v All-IsDone),
          subst (λ l. elem node l ≡ true) same (rw (==-refl node)),
        )

-- The rank of a node: how many nodes are finished up to the first time that it is.
abbrev pub rank : String → List String → ℕ
rank x [] = 0
rank x (y ∷ ys) =
    let deeper = rank x ys in if elem x ys then deeper else if y == x then suc (length ys) else 0

rank-le : (x : String) (ys : List String) → rank x ys ≤ length ys
rank-le x [] = omega arith
rank-le x (y ∷ ys) = ground (arith, rank-le x ys)

rank-lt :
    (tasks : List PlannedTask) (n d : String) (deps order : List String)
    → IsOrdered tasks order
    → deps_of n tasks ≡ some deps
    → elem d deps ≡ true
    → elem n order ≡ true
    → (rank d order < rank n order) × (elem d order ≡ true)
rank-lt tasks n d deps [] o e m h = cc
rank-lt tasks n d deps (y ∷ ys) o e m h = elim (Bool-cases (elem n ys)) [
  | inl deep ↦ let (less, mem) = rank-lt tasks n d deps ys o.1 e m deep in ground arith
  | inr shallow ↦
      let same : y ≡ n = eq_of_== y n (ground arith) in
      let mem : elem d ys ≡ true =
        All-elem d deps (λ x. elem x ys ≡ true) m
          (o.0 deps (subst (λ k. deps_of k tasks ≡ some deps) (sym same) e)) in
      ground (arith, rank-le d ys)
]

-- A ranking of the known tasks: each task stands above all of its dependencies.
pub record IsRanking (tasks : List PlannedTask) (r : String → ℕ) : Type 0 where
  pub above :
      (n d : String) (deps : List String)
      → elem n (ids_of tasks) ≡ true
      → deps_of n tasks ≡ some deps
      → elem d deps ≡ true
      → r d < r n

pub visit_graph-IsRanking :
    (tasks : List PlannedTask) (order : List String)
    → visit_graph tasks ≡ pass order
    → IsRanking tasks (λ n. rank n order)
unfolding visit_graph
visit_graph-IsRanking tasks order h =
    let (v, all_seen) =
      visit_all-Visited tasks (visit (suc (length tasks)) tasks [])
        (visit-Good (suc (length tasks)) tasks []) (ids_of tasks) [] order h in
    record {
      above = λ n d deps known e m.
          (rank-lt tasks n d deps order (v.ordered tt) e m
            (All-elem n (ids_of tasks) (λ x. elem x order ≡ true) known all_seen)).0;
    }
