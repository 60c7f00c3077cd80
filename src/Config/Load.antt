-- ===== src/Config/Load.antt =====
-- `load_config` of src/omarchy_yolo/config.py, one function for each section of the document. The
-- paths that come from the environment are arguments, and so is the parsed document.
use omarchy_yolo.Prelude.{
  ℕ, pos, String, Bool, true, false, not, ◌&&◌, ◌||◌, Option, none, some, List, [], ◌∷◌, ◌++◌, ◌==◌,
  nat_eq, string_eq, elem, any, ltb, strip, if◌then◌else◌,
}
use omarchy_yolo.Prelude.Fallible.{returns, refuse_if, ◌>>=◌, ◌>>◌}
use omarchy_yolo.Config.{
  ConfigError, Checked, EngineConfig, GitConfig, GateConfig, SandboxConfig, AgentConfig,
  ResourcePolicy, Config, safety_presets, post_init,
}
use omarchy_yolo.Config.Values.{
  Value, text, integer, boolean, table, Entries, get, section, dict_or_empty, entries_of,
}
use omarchy_yolo.Config.Fields.{
  Python, or_default, strict_bool, optional_bool, str, tuple_str, bounded_int, agent_name,
  agent_names, branch_prefix, identity_value, writable_home_paths, environment_names, roles_of,
}

abbrev pub number : ℕ → Value
number n = integer (pos n)

abbrev pub is_present : Option Value → Bool
is_present none = false
is_present (some v) = true

-- `v is True`, `v is False`
abbrev pub is_bool : Bool → Value → Bool
is_bool b (boolean c) = if b then c else not c
is_bool b (text s) = false
is_bool b (integer n) = false
is_bool b (Value.array vs) = false
is_bool b (table es) = false
is_bool b (Value.other n) = false

-- `key in s and s[key] is not b`
abbrev pub is_other_bool : Bool → Option Value → Bool
is_other_bool b none = false
is_other_bool b (some v) = not (is_bool b v)

abbrev pub is_table : Value → Bool
is_table (table es) = true
is_table (text s) = false
is_table (integer n) = false
is_table (boolean b) = false
is_table (Value.array vs) = false
is_table (Value.other n) = false

abbrev pub AgentEntry : Type 0
AgentEntry = record { name : String; agent : AgentConfig }

-- DEFAULT_AGENT_COMMANDS
abbrev pub default_agent_commands : List (record { name : String; command : List String })
default_agent_commands =
    record {
      name = "codex";
      command = "codex" ∷ "exec" ∷ "--full-auto" ∷ "--sandbox" ∷ "workspace-write" ∷ [];
    }
    ∷ record {
      name = "claude";
      command =
          "claude" ∷ "-p" ∷ "--dangerously-skip-permissions" ∷ "--output-format" ∷ "json" ∷ [];
    }
    ∷ record {
      name = "opencode";
      command = "opencode" ∷ "run" ∷ "--format" ∷ "json" ∷ "--auto" ∷ [];
    }
    ∷ record { name = "gemini"; command = "gemini" ∷ "-p" ∷ [] }
    ∷ []

module _ (py : Python) where
  -- `_safety_preset`
  unfoldable pub load_preset : Entries → Checked String
  load_preset doc = do
    let preset =
        py.lower
          (strip (str py (or_default (get (section doc "safety") "preset") (text "trusted-local"))))
    refuse_if (not (elem preset safety_presets)) ConfigError.unknown_preset
    returns preset

  abbrev bounded : Entries → String → ℕ → ℕ → ℕ → Checked ℕ
  bounded e key default minimum maximum =
      bounded_int py (or_default (get e key) (number default)) minimum maximum key

  unfoldable pub load_engine : Entries → Checked EngineConfig
  load_engine e = do
    refuse_if (is_present (get e "final_review_chunk_files")) ConfigError.removed_setting
    let profile = str py (or_default (get e "execution_profile") (text "yolo-worktree"))
    refuse_if (not (elem profile ("yolo-worktree" ∷ "danger-yolo" ∷ [])))
        ConfigError.bad_execution_profile
    max_parallel ← bounded e "max_parallel" 4 1 64
    max_global_workers ← bounded e "max_global_workers" 4 1 128
    max_attempts ← bounded e "max_attempts" 3 1 20
    max_final_cycles ← bounded e "max_final_cycles" 2 0 20
    max_tasks ← bounded e "max_tasks" 12 1 256
    agent_timeout ← bounded e "agent_timeout_seconds" 3600 1 86400
    gate_timeout ← bounded e "gate_timeout_seconds" 1800 1 86400
    planner ←
        agent_name py (str py (or_default (get e "planner_agent") (text "codex"))) "planner_agent"
    reviewer ←
        agent_name py (str py (or_default (get e "reviewer_agent") (text "claude")))
          "reviewer_agent"
    integrator ←
        agent_name py (str py (or_default (get e "integrator_agent") (text "codex")))
          "integrator_agent"
    workers ←
        agent_names py (get e "worker_agents") ("codex" ∷ "claude" ∷ "opencode" ∷ [])
          "worker_agents"
    auto_apply ← strict_bool (get e "auto_apply") false "auto_apply"
    cleanup ← strict_bool (get e "cleanup_worktrees") true "cleanup_worktrees"
    chunk_bytes ← bounded e "final_review_chunk_bytes" 60000 8000 120000
    max_files ← bounded e "final_review_max_files" 512 1 4096
    allow_binary ← strict_bool (get e "final_review_allow_binary") false "final_review_allow_binary"
    returns record {
      max_parallel = max_parallel;
      max_global_workers = max_global_workers;
      max_attempts = max_attempts;
      max_final_cycles = max_final_cycles;
      max_tasks = max_tasks;
      agent_timeout_seconds = agent_timeout;
      gate_timeout_seconds = gate_timeout;
      planner_agent = planner;
      reviewer_agent = reviewer;
      integrator_agent = integrator;
      worker_agents = workers;
      auto_apply = auto_apply;
      cleanup_worktrees = cleanup;
      execution_profile = profile;
      final_review_chunk_bytes = chunk_bytes;
      final_review_max_files = max_files;
      final_review_allow_binary = allow_binary;
    }

  -- The settings that contradict the preset hostile-repo.
  unfoldable pub refuse_conflicts : Bool → Entries → Checked (Unit {0})
  refuse_conflicts hostile s = do
    refuse_if
        (hostile
          && is_present (get s "backend")
          && not (str py (or_default (get s "backend") (text "")) == "bwrap"))
        (ConfigError.preset_conflict "backend")
    refuse_if (hostile && is_other_bool true (get s "hostile_repo_mode"))
        (ConfigError.preset_conflict "hostile_repo_mode")
    refuse_if (hostile && is_other_bool true (get s "read_only_home"))
        (ConfigError.preset_conflict "read_only_home")
    refuse_if (hostile && is_other_bool false (get s "review_network"))
        (ConfigError.preset_conflict "review_network")
    refuse_if (hostile && is_other_bool false (get s "gate_network"))
        (ConfigError.preset_conflict "gate_network")

  abbrev network_setting : Bool → Entries → String → Checked (Option Bool)
  network_setting hostile s key =
      if hostile && not (is_present (get s key))
      then returns (some false)
      else optional_bool (get s key) key

  unfoldable pub load_sandbox : Bool → Entries → Checked SandboxConfig
  load_sandbox hostile s = do
    refuse_conflicts hostile s
    let backend =
        str py (or_default (get s "backend") (text (if hostile then "bwrap" else "native")))
    refuse_if (not (elem backend ("native" ∷ "none" ∷ "bwrap" ∷ []))) ConfigError.bad_backend
    hostile_mode ← strict_bool (get s "hostile_repo_mode") hostile "hostile_repo_mode"
    refuse_if (hostile_mode && not (backend == "bwrap")) ConfigError.hostile_without_bwrap
    network ← strict_bool (get s "network") true "network"
    review_network ← network_setting hostile s "review_network"
    gate_network ← network_setting hostile s "gate_network"
    read_only_home ← strict_bool (get s "read_only_home") hostile "read_only_home"
    home_paths ← writable_home_paths py (get s "writable_home_paths")
    gate_env ← environment_names py (get s "gate_env_allowlist") "gate_env_allowlist"
    agent_env ← environment_names py (get s "agent_env_allowlist") "agent_env_allowlist"
    returns record {
      backend = backend;
      network = network;
      review_network = review_network;
      gate_network = gate_network;
      read_only_home = read_only_home;
      writable_home_paths = home_paths;
      hostile_repo_mode = hostile_mode;
      gate_env_allowlist = gate_env;
      agent_env_allowlist = agent_env;
    }

  abbrev is_true_setting : Option Value → Bool
  is_true_setting none = false
  is_true_setting (some v) = is_bool true v

  unfoldable pub load_git : Bool → Bool → Entries → Checked GitConfig
  load_git hostile hostile_mode g = do
    refuse_if (hostile && is_true_setting (get g "allow_repository_commands"))
        (ConfigError.preset_conflict "allow_repository_commands")
    allow ←
        strict_bool (get g "allow_repository_commands") (not hostile_mode)
          "allow_repository_commands"
    refuse_if (hostile_mode && allow) ConfigError.hostile_with_commands
    clean ← strict_bool (get g "require_clean_repo") true "require_clean_repo"
    prefix ← branch_prefix py (or_default (get g "branch_prefix") (text "yolo"))
    name ←
        identity_value py (or_default (get g "commit_name") (text "Omarchy YOLO")) "commit_name" 200
    email ←
        identity_value py (or_default (get g "commit_email") (text "omarchy-yolo@localhost"))
          "commit_email" 320
    timeout ← bounded g "command_timeout_seconds" 120 5 900
    returns record {
      require_clean_repo = clean;
      branch_prefix = prefix;
      commit_name = name;
      commit_email = email;
      command_timeout_seconds = timeout;
      allow_repository_commands = allow;
    }

  unfoldable pub load_gates : Entries → GateConfig
  load_gates g = record {
    commands = tuple_str py (get g "commands") [];
    final_commands = tuple_str py (get g "final_commands") [];
  }

  unfoldable pub load_resources : Entries → Checked ResourcePolicy
  load_resources r = do
    let backend = str py (or_default (get r "backend") (text "none"))
    refuse_if (not (elem backend ("none" ∷ "systemd" ∷ []))) ConfigError.bad_resource_backend
    high ← bounded r "memory_high_mib" 0 0 1048576
    memory_max ← bounded r "memory_max_mib" 0 0 1048576
    refuse_if (ltb 0 high && ltb 0 memory_max && ltb memory_max high) ConfigError.memory_order
    tasks ← bounded r "tasks_max" 0 0 1000000
    cpu ← bounded r "cpu_quota_percent" 0 0 10000
    io ← bounded r "io_weight" 0 0 10000
    returns record {
      backend = backend;
      memory_max_mib = memory_max;
      memory_high_mib = high;
      tasks_max = tasks;
      cpu_quota_percent = cpu;
      io_weight = io;
    }

  unfoldable pub load_agent : Entries → Bool → List String → String → Checked AgentConfig
  load_agent raw enabled_default command_default name = do
    enabled ← strict_bool (get raw "enabled") enabled_default name
    roles ← roles_of py (get raw "roles") name
    returns record {
      enabled = enabled;
      command = tuple_str py (get raw "command") command_default;
      review_command = tuple_str py (get raw "review_command") [];
      roles = roles;
    }

  -- The loop over DEFAULT_AGENT_COMMANDS.
  unfoldable pub load_default_agents :
      Entries → List (record { name : String; command : List String }) → Checked (List AgentEntry)
  load_default_agents a [] = returns []
  load_default_agents a (d ∷ ds) =
      let rest = load_default_agents a ds in
      do
        agent ←
            load_agent (dict_or_empty (get a d.name)) (not (d.name == "gemini")) d.command d.name
        others ← rest
        returns (record { name = d.name; agent = agent } ∷ others)

  -- The loop over the section: a name that is configured already, or no dict, is skipped.
  unfoldable pub load_other_agents :
      List (record { key : String; value : Value }) → List AgentEntry → Checked (List AgentEntry)
  load_other_agents [] agents = returns agents
  load_other_agents (r ∷ rs) agents = do
    name ← agent_name py r.key r.key
    let skip = load_other_agents rs agents
    let dict = dict_or_empty (some r.value)
    let next = λ (agent : AgentConfig).
        load_other_agents rs (agents ++ record { name = name; agent = agent } ∷ [])
    if any (λ a. a.name == name) agents || not (is_table r.value)
        then skip
        else load_agent dict true [] name >>= next

  unfoldable pub load_config : String → String → Entries → Checked Config
  load_config state_dir config_path doc = do
    preset ← load_preset doc
    engine ← load_engine (section doc "engine")
    sandbox ← load_sandbox (preset == "hostile-repo") (section doc "sandbox")
    git ← load_git (preset == "hostile-repo") sandbox.hostile_repo_mode (section doc "git")
    resources ← load_resources (section doc "resources")
    defaults ← load_default_agents (section doc "agents") default_agent_commands
    agents ← load_other_agents (entries_of (section doc "agents")) defaults
    post_init record {
      state_dir = state_dir;
      config_path = config_path;
      engine = engine;
      git = git;
      gates = load_gates (section doc "gates");
      sandbox = sandbox;
      resources = resources;
      agents = agents;
      safety_preset = preset;
    }
