-- ===== src/Agents/Choice.antt =====
-- Which agent the registry of src/omarchy_yolo/agents/registry.py chooses.
use omarchy_yolo.Prelude.{
  String, ◌≡◌, ◌⊎◌, inl, inr, refl, Bool, true, false, ◌&&◌, Option, List, [], ◌∷◌, ◌==◌, string_eq,
  any, arith, Bool-cases, ==-refl,
}
use omarchy_yolo.Prelude.Fallible.{Fallible, returns, raises}
use omarchy_yolo.Prelude.Tables.{select, fetchone}
use omarchy_yolo.Agents.{
  AgentRole, Agent, AgentError, is_fit, is_some_fit, find_agent, available, unavailable, first_or,
  first_available, choose_role,
}

module _ (profile : Option String) (role : Option AgentRole) where
  -- An agent of this name can be run and supports what is asked.
  abbrev pub has_fit : List Agent → String → Bool
  has_fit registry name = any (λ a. a.name == name && is_fit profile role a) registry

  -- No agent fits.
  abbrev pub NoneFits : List Agent → Type 0
  NoneFits registry = any (is_fit profile role) registry ≡ false

  -- A name of a fitting agent, or the error if none fits.
  abbrev pub IsChoice : List Agent → Fallible AgentError String → Type 0
  IsChoice registry (returns name) = has_fit registry name ≡ true
  IsChoice registry (raises e) = NoneFits registry × (e ≡ unavailable profile role)

  find_agent-has_fit :
      (name : String) (registry : List Agent)
      → is_some_fit profile role (find_agent name registry) ≡ true
      → has_fit registry name ≡ true
  unfolding find_agent fetchone
  find_agent-has_fit name [] h = h
  find_agent-has_fit name (a ∷ more) h = elim (Bool-cases (a.name == name)) [
    | inl e ↦ let fits : is_fit profile role a ≡ true = rw e at h in ground arith
    | inr e ↦ ground (arith, find_agent-has_fit name more (rw e at h))
  ]

  first_or-IsChoice :
      (registry : List Agent)
      → IsChoice registry (first_or (available registry profile role) (unavailable profile role))
  unfolding available select
  first_or-IsChoice [] = (refl, refl)
  first_or-IsChoice (a ∷ more) = elim (Bool-cases (is_fit profile role a)) [
    | inl e ↦ rw e (ground (arith, ==-refl a.name))
    | inr e ↦ rw e (skip a more e _ (first_or-IsChoice more))
  ]
    where
      skip :
          (a : Agent) (more : List Agent)
          → is_fit profile role a ≡ false
          → (m : Fallible AgentError String) → IsChoice more m
          → IsChoice (a ∷ more) m
      skip a more e (returns name) h = ground arith
      skip a more e (raises error) h = (ground (arith, h.0), h.1)

  first_available-IsChoice :
      (registry : List Agent) (names : List String)
      → IsChoice registry (first_available registry names profile role)
  unfolding first_available
  first_available-IsChoice registry [] = first_or-IsChoice registry
  first_available-IsChoice registry (name ∷ names) =
      elim (Bool-cases (is_some_fit profile role (find_agent name registry))) [
        | inl e ↦ rw e (find_agent-has_fit name registry e)
        | inr e ↦ rw e (first_available-IsChoice registry names)
      ]

  -- `choose_role` returns the configured agent if it fits, else the name of an agent that can be run
  -- and supports the profile and the role. It raises exactly the error of these, and only if no
  -- agent fits.
  pub choose_role-IsChoice :
      (registry : List Agent) (configured : String) (fallbacks : List String)
      → IsChoice registry (choose_role registry configured fallbacks profile role)
        × ((choose_role registry configured fallbacks profile role ≡ returns configured)
            ⊎ (is_some_fit profile role (find_agent configured registry) ≡ false))
  unfolding choose_role
  choose_role-IsChoice registry configured fallbacks =
      elim (Bool-cases (is_some_fit profile role (find_agent configured registry))) [
        | inl e ↦ rw e (find_agent-has_fit configured registry e, inl refl)
        | inr e ↦ rw e (first_available-IsChoice registry fallbacks, inr refl)
      ]
