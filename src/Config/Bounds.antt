-- ===== src/Config/Bounds.antt =====
-- The bounds of the settings, and the readers of single settings of src/omarchy_yolo/config.py,
-- which keep them.
use omarchy_yolo.Prelude.{
  ◌⊎◌, ℕ, ℤ, pos, negsuc, ◌≤◌, String, ◌≡◌, ◌≢◌, refl, true, false, Option, none, some, List, [],
  ◌∷◌, ◌++◌, arith, ◌==◌, nat_eq, string_eq, elem, distinct, All, text_length, strip, Bool-cases,
  inl, inr, All-append, ==-comm,
}
use omarchy_yolo.Prelude.Fallible.{
  Ensures, Ensures-returns, Ensures-raises, Ensures-refuse, Ensures-bind, Ensures-traverse,
}
use omarchy_yolo.Config.{EngineConfig, GitConfig, SandboxConfig, ResourcePolicy}
use omarchy_yolo.Config.Values.{Value}
use omarchy_yolo.Config.Fields.{
  Python, is_agent_name, is_safe_prefix, is_home_path, is_env_name, dedup, in_range, bounded_int,
  agent_name, agent_names, branch_prefix, identity_value, writable_home_paths, environment_names,
  home_path, env_name, str, tuple_str,
}

abbrev pub Within : ℕ → ℕ → ℕ → Type 0
Within low high n = (low ≤ n) × (n ≤ high)

abbrev pub IsAgentName : String → Type 0
IsAgentName name = is_agent_name name ≡ true

pub record EngineBounds (e : EngineConfig) : Type 0 where
  pub max_parallel : Within 1 64 e.max_parallel
  pub max_global_workers : Within 1 128 e.max_global_workers
  pub max_attempts : Within 1 20 e.max_attempts
  pub max_final_cycles : e.max_final_cycles ≤ 20
  pub max_tasks : Within 1 256 e.max_tasks
  pub agent_timeout : Within 1 86400 e.agent_timeout_seconds
  pub gate_timeout : Within 1 86400 e.gate_timeout_seconds
  pub roles_named :
      IsAgentName e.planner_agent × IsAgentName e.reviewer_agent × IsAgentName e.integrator_agent
  pub workers_named : All IsAgentName e.worker_agents
  pub chunk_bytes : Within 8000 120000 e.final_review_chunk_bytes
  pub max_files : Within 1 4096 e.final_review_max_files

pub record GitBounds (g : GitConfig) : Type 0 where
  pub safe_prefix : is_safe_prefix g.branch_prefix ≡ true
  pub name_given : g.commit_name ≢ ""
  pub name_short : text_length g.commit_name ≤ 200
  pub email_given : g.commit_email ≢ ""
  pub email_short : text_length g.commit_email ≤ 320
  pub timeout : Within 5 900 g.command_timeout_seconds

pub record ResourceBounds (r : ResourcePolicy) : Type 0 where
  pub memory_high : r.memory_high_mib ≤ 1048576
  pub memory_max : r.memory_max_mib ≤ 1048576
  pub memory_order : (r.memory_max_mib ≡ 0) ⊎ (r.memory_high_mib ≤ r.memory_max_mib)
  pub tasks : r.tasks_max ≤ 1000000
  pub cpu : r.cpu_quota_percent ≤ 10000
  pub io : r.io_weight ≤ 10000

-- Environment variables, each named once.
abbrev pub IsEnvNames : List String → Type 0
IsEnvNames ns = All (λ n. is_env_name n ≡ true) ns × (distinct ns ≡ true)

pub record SandboxBounds (s : SandboxConfig) : Type 0 where
  pub paths : All (λ p. is_home_path p ≡ true) s.writable_home_paths
  pub gate_names : IsEnvNames s.gate_env_allowlist
  pub agent_names : IsEnvNames s.agent_env_allowlist

in_range-Within :
    (v : Option ℤ) (low high : ℕ) (name : String)
    → Ensures (Within low high) (in_range v low high name)
in_range-Within none low high name = Ensures-raises _ _
in_range-Within (some (negsuc n)) low high name = Ensures-raises _ _
in_range-Within (some (pos n)) low high name =
    Ensures-refuse _ _ _ _ λ inside. Ensures-returns (Within low high) n (ground arith)

dedup-All :
    (P : String → Type 0) (clean xs : List String) → All P clean → All P xs → All P (dedup clean xs)
unfolding dedup
dedup-All P clean [] hc hx = hc
dedup-All P clean (x ∷ xs) hc hx = elim (Bool-cases (elem x clean)) [
  | inl old ↦ rw old (dedup-All P clean xs hc hx.1)
  | inr new ↦
      rw new (dedup-All P (clean ++ x ∷ []) xs (All-append P clean (x ∷ []) hc (hx.0, tt)) hx.1)
]

elem_snoc :
    (y x : String) (xs : List String)
    → elem y xs ≡ false
    → (x == y) ≡ false
    → elem y (xs ++ x ∷ []) ≡ false
elem_snoc y x [] m d = ground arith
elem_snoc y x (z ∷ zs) m d = ground (arith, elem_snoc y x zs)

distinct_snoc :
    (x : String) (xs : List String)
    → distinct xs ≡ true
    → elem x xs ≡ false
    → distinct (xs ++ x ∷ []) ≡ true
distinct_snoc x [] h m = refl
distinct_snoc x (y ∷ ys) h m = ground (arith, distinct_snoc x ys, elem_snoc y x ys, ==-comm x y)

dedup-distinct : (clean xs : List String) → distinct clean ≡ true → distinct (dedup clean xs) ≡ true
unfolding dedup
dedup-distinct clean [] h = h
dedup-distinct clean (x ∷ xs) h = elim (Bool-cases (elem x clean)) [
  | inl old ↦ rw old (dedup-distinct clean xs h)
  | inr new ↦ rw new (dedup-distinct (clean ++ x ∷ []) xs (distinct_snoc x clean h new))
]

module _ (py : Python) where
  pub bounded_int-Within :
      (v : Value) (low high : ℕ) (name : String)
      → Ensures (Within low high) (bounded_int py v low high name)
  unfolding bounded_int
  bounded_int-Within v low high name = in_range-Within _ low high name

  pub agent_name-IsAgentName : (raw field : String) → Ensures IsAgentName (agent_name py raw field)
  unfolding agent_name
  agent_name-IsAgentName raw field =
      Ensures-refuse _ _ _ _ λ safe. Ensures-returns IsAgentName (strip raw) (ground arith)

  pub agent_names-IsAgentName :
      (v : Option Value) (default : List String) (field : String)
      → Ensures (All IsAgentName) (agent_names py v default field)
  unfolding agent_names
  agent_names-IsAgentName v default field = Ensures-refuse _ _ _ _ λ some_name.
      Ensures-traverse IsAgentName (λ name. agent_name py name field) (tuple_str py v default)
        λ name. agent_name-IsAgentName name field

  pub branch_prefix_safe : (v : Value) → Ensures (λ p. is_safe_prefix p ≡ true) (branch_prefix py v)
  unfolding branch_prefix
  branch_prefix_safe v =
      Ensures-refuse _ _ _ _ λ safe. Ensures-returns (λ p. is_safe_prefix p ≡ true) _ (ground arith)

  pub identity_value_bounds :
      (v : Value) (field : String) (maximum : ℕ)
      → Ensures (λ s. (s ≢ "") × (text_length s ≤ maximum)) (identity_value py v field maximum)
  unfolding identity_value
  identity_value_bounds v field maximum = Ensures-refuse _ _ _ _ λ given.
      Ensures-refuse _ _ _ _ λ breaks. Ensures-refuse _ _ _ _ λ short.
        Ensures-returns (λ s. (s ≢ "") × (text_length s ≤ maximum)) _
          (ground (arith, string_eq.beq_iff (strip (str py v)) ""), ground arith)

  pub writable_home_paths-IsHomePath :
      (v : Option Value) → Ensures (All (λ p. is_home_path p ≡ true)) (writable_home_paths py v)
  unfolding writable_home_paths
  writable_home_paths-IsHomePath v =
      Ensures-traverse (λ p. is_home_path p ≡ true) (home_path py) (tuple_str py v [])
        λ raw.
          Ensures-refuse _ _ _ _
            λ inside. Ensures-returns (λ p. is_home_path p ≡ true) _ (ground arith)

  pub environment_names-IsEnvNames :
      (v : Option Value) (field : String) → Ensures IsEnvNames (environment_names py v field)
  unfolding environment_names
  environment_names-IsEnvNames v field =
      Ensures-bind (All (λ n. is_env_name n ≡ true)) IsEnvNames _ _
        (Ensures-traverse (λ n. is_env_name n ≡ true) (env_name py field) (tuple_str py v [])
          λ raw.
            Ensures-refuse _ _ _ _
              λ good. Ensures-returns (λ n. is_env_name n ≡ true) _ (ground arith))
        λ names h.
          Ensures-returns IsEnvNames _
            (dedup-All (λ n. is_env_name n ≡ true) [] names tt h, dedup-distinct [] names refl)
