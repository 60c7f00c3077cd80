-- ===== src/Planner.antt =====
-- src/omarchy_yolo/planner.py: `Planner.validate`, the check of a planned task graph. Each message
-- of YoloError is a constructor of PlanError; `out_of_fuel` is none of the source's, and
-- `unknown_node` stands for the KeyError of `graph[node]`. `visit` passes the set `visiting` down
-- in place of adding and removing: a call that returns leaves it as it was. Sets of texts are
-- lists, and the dependencies of a node are visited in the order of the plan.
pub mod Order
pub mod Complete
pub mod Accepted
use Prim.Native.Char.{code}
use omarchy_yolo.Prelude.{
  ℕ, zero, suc, ◌≤◌, String, ◌≡◌, refl, Bool, true, false, not, ◌&&◌, ◌||◌, Option, none, some,
  List, [], ◌∷◌, map, Eq, ◌==◌, nat_eq, string_eq, elem, any, all, distinct, is_empty, length, leb,
  ltb, text_length, if◌then◌else◌,
}
use omarchy_yolo.Model.{PlannedTask}

pub data PlanError : Type 0 where
  zero_tasks too_many_tasks bad_task_id duplicate_task_id missing_text long_title long_description
        many_criteria long_criterion duplicate_dependency unknown_dependency self_dependency
        bad_risk dependency_cycle unknown_node out_of_fuel :
      PlanError

pub data Outcome (A : Type 0) : Type 0 where
  pass : A → Outcome A
  fail : PlanError → Outcome A

infixl 5 ◌>>=◌ ◌>>◌
abbrev pub ◌>>=◌ : {A B : Type 0} → Outcome A → (A → Outcome B) → Outcome B
pass a >>= f = f a
fail e >>= f = fail e

abbrev pub ◌>>◌ : {B : Type 0} → Outcome (Unit {0}) → Outcome B → Outcome B
m >> k = m >>= λ _. k

-- `if test: raise YoloError(…)`
abbrev pub raise_when : Bool → PlanError → Outcome (Unit {0})
raise_when true e = fail e
raise_when false e = pass tt

abbrev pub max_title_chars : ℕ
max_title_chars = 240

abbrev pub max_description_chars : ℕ
max_description_chars = 8000

abbrev pub max_acceptance_items : ℕ
max_acceptance_items = 16

abbrev pub max_acceptance_chars : ℕ
max_acceptance_chars = 1000

-- [A-Za-z]
abbrev pub is_letter : ℕ → Bool
is_letter c = leb b'A' c && leb c b'Z' || leb b'a' c && leb c b'z'

-- [A-Za-z0-9_.-]
abbrev pub is_id_char : ℕ → Bool
is_id_char c = is_letter c || leb b'0' c && leb c b'9' || c == b'_' || c == b'.' || c == b'-'

abbrev pub all_id_chars : String → Bool
all_id_chars String.[] = true
all_id_chars (String.◌∷◌ c s) = is_id_char (code c) && all_id_chars s

-- _ID_RE: a letter and at most 31 more characters.
unfoldable pub is_task_id : String → Bool
is_task_id String.[] = false
is_task_id (String.◌∷◌ c s) = is_letter (code c) && all_id_chars s && leb (text_length s) 31

abbrev pub ids_of : List PlannedTask → List String
ids_of = map (λ t. t.logical_id)

-- The body of the loop over the tasks.
unfoldable pub validate_task : List String → PlannedTask → Outcome (Unit {0})
validate_task known t =
    raise_when (t.title == "" || t.description == "") PlanError.missing_text
    >> raise_when (ltb max_title_chars (text_length t.title)) PlanError.long_title
    >> raise_when (ltb max_description_chars (text_length t.description)) PlanError.long_description
    >> raise_when (ltb max_acceptance_items (length t.acceptance)) PlanError.many_criteria
    >> raise_when (any (λ item. ltb max_acceptance_chars (text_length item)) t.acceptance)
        PlanError.long_criterion
    >> raise_when (not (distinct t.depends_on)) PlanError.duplicate_dependency
    >> raise_when (any (λ d. not (elem d known)) t.depends_on) PlanError.unknown_dependency
    >> raise_when (elem t.logical_id t.depends_on) PlanError.self_dependency
    >> raise_when (not (elem t.risk ("low" ∷ "medium" ∷ "high" ∷ []))) PlanError.bad_risk

unfoldable pub validate_tasks : List String → List PlannedTask → Outcome (Unit {0})
validate_tasks known [] = pass tt
validate_tasks known (t ∷ ts) = validate_task known t >> validate_tasks known ts

-- `graph[node]`
unfoldable pub deps_of : String → List PlannedTask → Option (List String)
deps_of node [] = none
deps_of node (t ∷ ts) = if t.logical_id == node then some t.depends_on else deps_of node ts

-- `for dep in deps: visit(dep)`, over the set `visited`
unfoldable pub visit_all :
    (List String → String → Outcome (List String))
    → List String
    → List String
    → Outcome (List String)
visit_all step visited [] = pass visited
visit_all step visited (d ∷ ds) = step visited d >>= λ visited'. visit_all step visited' ds

-- The rest of `visit`, once the node's dependencies are looked up.
abbrev pub visit_deps :
    (List String → String → Outcome (List String))
    → List String
    → String
    → Option (List String)
    → Outcome (List String)
visit_deps step visited node none = fail PlanError.unknown_node
visit_deps step visited node (some deps) =
    visit_all step visited deps >>= λ visited'. pass (node ∷ visited')

unfoldable pub visit :
    ℕ → List PlannedTask → List String → List String → String → Outcome (List String)
visit zero tasks visiting visited node = fail PlanError.out_of_fuel
visit (suc fuel) tasks visiting visited node =
    let below = visit_deps (visit fuel tasks (node ∷ visiting)) visited node (deps_of node tasks) in
    if elem node visited
    then pass visited
    else if elem node visiting
    then fail PlanError.dependency_cycle
    else below

-- `for node in graph: visit(node)`: the stack holds at most every node once, which bounds the fuel.
unfoldable pub visit_graph : List PlannedTask → Outcome (List String)
visit_graph tasks = visit_all (visit (suc (length tasks)) tasks []) [] (ids_of tasks)

unfoldable pub validate : ℕ → List PlannedTask → Outcome (List String)
validate max_tasks tasks =
    raise_when (is_empty tasks) PlanError.zero_tasks
    >> raise_when (ltb max_tasks (length tasks)) PlanError.too_many_tasks
    >> raise_when (any (λ i. not (is_task_id i)) (ids_of tasks)) PlanError.bad_task_id
    >> raise_when (not (distinct (ids_of tasks))) PlanError.duplicate_task_id
    >> validate_tasks (ids_of tasks) tasks
    >> visit_graph tasks
