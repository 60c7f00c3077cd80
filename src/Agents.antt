-- ===== src/Agents.antt =====
-- src/omarchy_yolo/agents/registry.py: the choice of an agent by its capabilities, and the results
-- of agents, gates and reviews of src/omarchy_yolo/model.py. The registry is the list of its agents.
pub mod Choice
use omarchy_yolo.Prelude.{
  ℕ, ℤ, pos, negsuc, String, Bool, true, false, not, ◌&&◌, Option, none, some, List, [], ◌∷◌, map,
  Eq, ◌==◌, nat_eq, string_eq, if◌then◌else◌,
}
use omarchy_yolo.Prelude.Fallible.{Fallible, returns, raises}
use omarchy_yolo.Prelude.Tables.{select, fetchone}

pub data AgentRole : Type 0 where
  worker planner reviewer integrator : AgentRole

-- What AgentLike answers. `supports_role` may be missing from an override.
pub record Agent : Type 0 where
  pub name : String
  pub is_available : Bool
  pub supports_profile : String → Bool
  pub supports_role : Option (AgentRole → Bool)

-- YoloError of `first_available`, one constructor for each message.
pub data AgentError : Type 0 where
  role_unsatisfied : AgentRole → AgentError
  no_review_agent no_agent : AgentError

abbrev pub fallback_profile : AgentRole → String
fallback_profile worker = "yolo-worktree"
fallback_profile planner = "review"
fallback_profile reviewer = "review"
fallback_profile integrator = "yolo-worktree"

abbrev pub role_supported : Agent → Option (AgentRole → Bool) → AgentRole → Bool
role_supported a none role = a.supports_profile (fallback_profile role)
role_supported a (some test) role = test role

abbrev pub profile_supported : Agent → Option String → Bool
profile_supported a none = true
profile_supported a (some profile) = a.supports_profile profile

unfoldable pub supports : Agent → Option String → Option AgentRole → Bool
supports a profile none = profile_supported a profile
supports a profile (some role) =
    role_supported a a.supports_role role && profile_supported a profile

-- The agent can be run, and supports what is asked.
abbrev pub is_fit : Option String → Option AgentRole → Agent → Bool
is_fit profile role a = a.is_available && supports a profile role

abbrev pub is_some_fit : Option String → Option AgentRole → Option Agent → Bool
is_some_fit profile role none = false
is_some_fit profile role (some a) = is_fit profile role a

unfoldable pub find_agent : String → List Agent → Option Agent
find_agent name registry = fetchone (λ a. a.name == name) registry

unfoldable pub available : List Agent → Option String → Option AgentRole → List String
available registry profile role = map (λ a. a.name) (select (is_fit profile role) registry)

abbrev pub is_review : Option String → Bool
is_review none = false
is_review (some profile) = profile == "review"

-- What `first_available` raises.
abbrev pub unavailable : Option String → Option AgentRole → AgentError
unavailable profile (some role) = role_unsatisfied role
unavailable profile none = if is_review profile then no_review_agent else no_agent

abbrev pub first_or : List String → AgentError → Fallible AgentError String
first_or [] e = raises e
first_or (name ∷ names) e = returns name

unfoldable pub first_available :
    List Agent → List String → Option String → Option AgentRole → Fallible AgentError String
first_available registry [] profile role =
    first_or (available registry profile role) (unavailable profile role)
first_available registry (name ∷ names) profile role =
    let others = first_available registry names profile role in
    if is_some_fit profile role (find_agent name registry) then returns name else others

unfoldable pub choose_role :
    List Agent
    → String
    → List String
    → Option String
    → Option AgentRole
    → Fallible AgentError String
choose_role registry configured fallbacks profile role =
    if is_some_fit profile role (find_agent configured registry)
    then returns configured
    else first_available registry fallbacks profile role

abbrev pub is_zero : ℤ → Bool
is_zero (pos n) = n == 0
is_zero (negsuc n) = false

pub record AgentResult : Type 0 where
  pub returncode : ℤ
  pub stdout : String
  pub stderr : String

abbrev pub agent_ok : AgentResult → Bool
agent_ok r = is_zero r.returncode

pub record GateResult : Type 0 where
  pub command : String
  pub returncode : ℤ
  pub stdout : String
  pub stderr : String
  pub timed_out : Bool

abbrev pub gate_ok : GateResult → Bool
gate_ok r = is_zero r.returncode && not r.timed_out

pub record ReviewResult : Type 0 where
  pub verdict : String
  pub summary : String
  pub findings : List String

abbrev pub passed : ReviewResult → Bool
passed r = r.verdict == "pass"
