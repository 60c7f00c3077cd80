-- ===== src/Config.antt =====
-- src/omarchy_yolo/config.py and the policy record of src/omarchy_yolo/resources.py: the settings,
-- and the checks that a Config makes of itself. Paths are texts. `MAX`/`MIN` bounds stand in
-- Config.Load, where the source reads them.
pub mod Values
pub mod Fields
pub mod Load
pub mod Posture
pub mod Bounds
pub mod Limits
use omarchy_yolo.Prelude.{
  ℕ, String, Bool, true, false, not, ◌&&◌, ◌||◌, Option, none, some, List, [], ◌∷◌, ◌++◌, Eq, ◌==◌,
  string_eq, elem, is_empty, if◌then◌else◌,
}
use omarchy_yolo.Prelude.Fallible.{Fallible, returns, refuse_if, ◌>>=◌, ◌>>◌}

-- YoloError, one constructor for each kind of message; the text names the field.
pub data ConfigError : Type 0 where
  unknown_preset hostile_without_bwrap hostile_with_commands : ConfigError
  hostile_requires : List String → ConfigError
  not_an_integer not_a_bool out_of_range unsafe_agent_name no_agents : String → ConfigError
  unsafe_branch_prefix unsafe_home_path : ConfigError
  empty_identity identity_line_break identity_too_long : String → ConfigError
  bad_environment_name roles_not_array bad_role : String → ConfigError
  removed_setting bad_execution_profile bad_backend bad_resource_backend memory_order : ConfigError
  preset_conflict : String → ConfigError

abbrev pub Checked : Type 0 → Type 0
Checked A = Fallible ConfigError A

pub record EngineConfig : Type 0 where
  pub max_parallel : ℕ
  pub max_global_workers : ℕ
  pub max_attempts : ℕ
  pub max_final_cycles : ℕ
  pub max_tasks : ℕ
  pub agent_timeout_seconds : ℕ
  pub gate_timeout_seconds : ℕ
  pub planner_agent : String
  pub reviewer_agent : String
  pub integrator_agent : String
  pub worker_agents : List String
  pub auto_apply : Bool
  pub cleanup_worktrees : Bool
  pub execution_profile : String
  pub final_review_chunk_bytes : ℕ
  pub final_review_max_files : ℕ
  pub final_review_allow_binary : Bool

pub record GitConfig : Type 0 where
  pub require_clean_repo : Bool
  pub branch_prefix : String
  pub commit_name : String
  pub commit_email : String
  pub command_timeout_seconds : ℕ
  pub allow_repository_commands : Bool

pub record GateConfig : Type 0 where
  pub commands : List String
  pub final_commands : List String

pub record SandboxConfig : Type 0 where
  pub backend : String
  pub network : Bool
  pub review_network : Option Bool
  pub gate_network : Option Bool
  pub read_only_home : Bool
  pub writable_home_paths : List String
  pub hostile_repo_mode : Bool
  pub gate_env_allowlist : List String
  pub agent_env_allowlist : List String

abbrev pub or_network : Option Bool → Bool → Bool
or_network none d = d
or_network (some b) d = b

unfoldable pub network_for : SandboxConfig → String → Bool
network_for c profile =
    if profile == "review"
    then or_network c.review_network c.network
    else if profile == "gate"
    then or_network c.gate_network (if c.hostile_repo_mode then false else c.network)
    else c.network

pub record AgentConfig : Type 0 where
  pub enabled : Bool
  pub command : List String
  pub review_command : List String
  pub roles : List String

pub record ResourcePolicy : Type 0 where
  pub backend : String
  pub memory_max_mib : ℕ
  pub memory_high_mib : ℕ
  pub tasks_max : ℕ
  pub cpu_quota_percent : ℕ
  pub io_weight : ℕ

pub record Config : Type 0 where
  pub state_dir : String
  pub config_path : String
  pub engine : EngineConfig
  pub git : GitConfig
  pub gates : GateConfig
  pub sandbox : SandboxConfig
  pub resources : ResourcePolicy
  pub agents : List (record { name : String; agent : AgentConfig })
  pub safety_preset : String

-- _SAFETY_PRESETS
abbrev pub safety_presets : List String
safety_presets = "trusted-local" ∷ "hostile-repo" ∷ "custom" ∷ []

-- `if test: violations.append(text)`
abbrev pub violation : Bool → String → List String
violation test text = if test then text ∷ [] else []

unfoldable pub violations : SandboxConfig → GitConfig → List String
violations s g =
    violation (not (s.backend == "bwrap")) "sandbox.backend=bwrap"
    ++ (violation (not s.hostile_repo_mode) "sandbox.hostile_repo_mode=true"
        ++ (violation (not s.read_only_home) "sandbox.read_only_home=true"
            ++ (violation (network_for s "review") "sandbox.review_network=false"
                ++ (violation (network_for s "gate") "sandbox.gate_network=false"
                    ++ violation g.allow_repository_commands
                        "git.allow_repository_commands=false"))))

-- `__post_init__`: the Config, if it passes.
unfoldable pub post_init : Config → Checked Config
post_init c = do
  refuse_if (not (elem c.safety_preset safety_presets)) ConfigError.unknown_preset
  refuse_if (c.sandbox.hostile_repo_mode && not (c.sandbox.backend == "bwrap"))
      ConfigError.hostile_without_bwrap
  refuse_if (c.sandbox.hostile_repo_mode && c.git.allow_repository_commands)
      ConfigError.hostile_with_commands
  refuse_if (c.safety_preset == "hostile-repo" && not (is_empty (violations c.sandbox c.git)))
      (ConfigError.hostile_requires (violations c.sandbox c.git))
  returns c

-- The name of the posture; its text is for people.
unfoldable pub trust_posture : Config → String
trust_posture c =
    if c.sandbox.backend == "bwrap"
      && c.sandbox.hostile_repo_mode
      && c.sandbox.read_only_home
      && not (network_for c.sandbox "review")
      && not (network_for c.sandbox "gate")
      && not c.git.allow_repository_commands
    then "hostile-repo"
    else if elem c.sandbox.backend ("native" ∷ "none" ∷ [])
        && not c.sandbox.hostile_repo_mode
        && c.git.allow_repository_commands
    then "trusted-local"
    else "custom"
