-- ===== src/Tests/Settings.antt =====
-- A document that selects the preset for hostile repositories, and its sandbox.
use omarchy_yolo.Prelude.{
  ◌≡◌, refl, true, false, none, some, List, [], ◌∷◌, all_chars, strip, strip_chars, lstrip, rstrip,
  is_space, contains_text, ends_with, starts_with,
}
use omarchy_yolo.Prelude.Tables.{select}
use omarchy_yolo.Prelude.Fallible.{returns, refuse_if, traverse, ◌>>=◌}
use omarchy_yolo.Config.{Config, SandboxConfig, violations, network_for, post_init}
use omarchy_yolo.Config.Values.{text, table, Entries, no_entries, entry, get, section}
use omarchy_yolo.Config.Fields.{
  Python, is_agent_name, is_branch_prefix, is_env_name, is_safe_prefix, is_home_path, dedup,
  strict_bool, optional_bool, str, int, tuple_str, bounded_int, agent_name, agent_names,
  branch_prefix, identity_value, writable_home_paths, environment_names, roles_of,
}
use omarchy_yolo.Config.Load.{
  load_preset, load_engine, refuse_conflicts, load_sandbox, load_git, load_gates, load_resources,
  load_agent, load_default_agents, load_other_agents, load_config,
}
use omarchy_yolo.Config.Posture.{IsGuarded, load_config-IsGuarded}
use omarchy_yolo.Config.Limits.{IsBounded, load_config-IsBounded}
use omarchy_yolo.Sandbox.{
  Host, Variable, Wrapped, boxed, plain, proc, tmpfs, dir, chdir, bind, ro_bind, relative_to,
  make_dirs, make_from, make_cwd, home_exceptions, hostile_mounts, home_mounts, sandbox_flags, wrap,
  has_key, set_variable, environment,
}
use omarchy_yolo.Sandbox.Confined.{IsConfined, wrap-IsConfined}
use omarchy_yolo.Sandbox.Environment.{IsOutcome, environment-IsFiltered}

abbrev python : Python
python = record { str_other = λ _. ""; int_other = λ _. none; lower = λ s. s }

abbrev document : Entries
document = entry "safety" (table (entry "preset" (text "hostile-repo") no_entries)) no_entries

abbrev sandbox : SandboxConfig
sandbox = record {
  backend = "bwrap";
  network = true;
  review_network = some false;
  gate_network = some false;
  read_only_home = true;
  writable_home_paths = [];
  hostile_repo_mode = true;
  gate_env_allowlist = [];
  agent_env_allowlist = [];
}

abbrev pub hostile : Config
hostile = record {
  state_dir = "/state";
  config_path = "/config";
  engine = record {
    max_parallel = 4;
    max_global_workers = 4;
    max_attempts = 3;
    max_final_cycles = 2;
    max_tasks = 12;
    agent_timeout_seconds = 3600;
    gate_timeout_seconds = 1800;
    planner_agent = "codex";
    reviewer_agent = "claude";
    integrator_agent = "codex";
    worker_agents = "codex" ∷ "claude" ∷ "opencode" ∷ [];
    auto_apply = false;
    cleanup_worktrees = true;
    execution_profile = "yolo-worktree";
    final_review_chunk_bytes = 60000;
    final_review_max_files = 512;
    final_review_allow_binary = false;
  };
  git = record {
    require_clean_repo = true;
    branch_prefix = "yolo";
    commit_name = "Omarchy YOLO";
    commit_email = "omarchy-yolo@localhost";
    command_timeout_seconds = 120;
    allow_repository_commands = false;
  };
  gates = record { commands = []; final_commands = [] };
  sandbox = sandbox;
  resources = record {
    backend = "none";
    memory_max_mib = 0;
    memory_high_mib = 0;
    tasks_max = 0;
    cpu_quota_percent = 0;
    io_weight = 0;
  };
  agents =
      record {
        name = "codex";
        agent = record {
          enabled = true;
          command = "codex" ∷ "exec" ∷ "--full-auto" ∷ "--sandbox" ∷ "workspace-write" ∷ [];
          review_command = [];
          roles = [];
        };
      }
      ∷ record {
        name = "claude";
        agent = record {
          enabled = true;
          command =
              "claude" ∷ "-p" ∷ "--dangerously-skip-permissions" ∷ "--output-format" ∷ "json" ∷ [];
          review_command = [];
          roles = [];
        };
      }
      ∷ record {
        name = "opencode";
        agent = record {
          enabled = true;
          command = "opencode" ∷ "run" ∷ "--format" ∷ "json" ∷ "--auto" ∷ [];
          review_command = [];
          roles = [];
        };
      }
      ∷ record {
        name = "gemini";
        agent = record {
          enabled = false;
          command = "gemini" ∷ "-p" ∷ [];
          review_command = [];
          roles = [];
        };
      }
      ∷ [];
  safety_preset = "hostile-repo";
}

document_loads : load_config python "/state" "/config" document ≡ returns hostile
unfolding all_chars strip strip_chars lstrip rstrip is_space contains_text ends_with starts_with
    refuse_if traverse ◌>>=◌ violations network_for post_init get section is_agent_name
    is_branch_prefix is_env_name is_safe_prefix is_home_path dedup strict_bool optional_bool str int
    tuple_str bounded_int agent_name agent_names branch_prefix identity_value writable_home_paths
    environment_names roles_of load_preset load_engine refuse_conflicts load_sandbox load_git
    load_gates load_resources load_agent load_default_agents load_other_agents load_config
document_loads = refl

load_config-IsGuarded_example : IsGuarded hostile
load_config-IsGuarded_example =
    load_config-IsGuarded python "/state" "/config" document hostile document_loads

load_config-IsBounded_example : IsBounded hostile
load_config-IsBounded_example =
    load_config-IsBounded python "/state" "/config" document hostile document_loads

-- A path that climbs back to HOME passes the test of the settings.
climbing_path : is_home_path "cache/.." ≡ true
unfolding is_home_path starts_with contains_text
climbing_path = refl

abbrev host : Host
host = record {
  bwrap = some "/usr/bin/bwrap";
  home = "home" ∷ "me" ∷ [];
  home_exists = true;
  runtime = "run" ∷ "user" ∷ "1000" ∷ [];
  runtime_exists = true;
  cwd = "home" ∷ "me" ∷ "work" ∷ [];
  resolve = λ _. "home" ∷ "me" ∷ [];
  exists = λ _. true;
  is_dir = λ _. true;
  environ =
      record { key = "HOME"; value = "/home/me" } ∷ record { key = "API_TOKEN"; value = "s" } ∷ [];
}

abbrev gate_box : Wrapped
gate_box =
    boxed "/usr/bin/bwrap"
      (plain "--die-with-parent"
        ∷ plain "--new-session"
        ∷ plain "--unshare-pid"
        ∷ proc ("proc" ∷ [])
        ∷ plain "--unshare-ipc"
        ∷ plain "--unshare-uts"
        ∷ plain "--dev"
        ∷ plain "/dev"
        ∷ ro_bind []
        ∷ tmpfs ("tmp" ∷ [])
        ∷ tmpfs ("home" ∷ "me" ∷ [])
        ∷ tmpfs ("run" ∷ "user" ∷ "1000" ∷ [])
        ∷ dir ("home" ∷ "me" ∷ "work" ∷ [])
        ∷ bind ("home" ∷ "me" ∷ "work" ∷ [])
        ∷ chdir ("home" ∷ "me" ∷ "work" ∷ [])
        ∷ plain "--unshare-net"
        ∷ [])
      ("make" ∷ [])

gate_wraps : wrap sandbox host ("make" ∷ []) "gate" ≡ returns gate_box
unfolding refuse_if ◌>>=◌ network_for relative_to make_dirs make_from make_cwd home_exceptions
    hostile_mounts home_mounts sandbox_flags wrap
gate_wraps = refl

wrap-IsConfined_example : IsConfined sandbox host ("make" ∷ []) "gate" gate_box
wrap-IsConfined_example = wrap-IsConfined sandbox host ("make" ∷ []) "gate" gate_box gate_wraps

abbrev child_environ : List Variable
child_environ =
    record { key = "HOME"; value = "/home/me" }
    ∷ record { key = "CI"; value = "1" }
    ∷ record { key = "OMARCHY_YOLO"; value = "1" }
    ∷ []

token_dropped : environment sandbox host "gate" ≡ returns child_environ
unfolding refuse_if ◌>>=◌ starts_with select has_key set_variable environment
token_dropped = refl

environment-IsFiltered_example : IsOutcome sandbox host "gate" (environment sandbox host "gate")
environment-IsFiltered_example = environment-IsFiltered sandbox host "gate"

-- With such a path, hostile mode binds all of HOME for writing.
abbrev climbing : SandboxConfig
climbing = record sandbox { writable_home_paths = "cache/.." ∷ [] }

home_exposed :
    hostile_mounts climbing host false false []
    ≡ returns (
        tmpfs ("home" ∷ "me" ∷ [])
        ∷ tmpfs ("run" ∷ "user" ∷ "1000" ∷ [])
        ∷ dir ("home" ∷ "me" ∷ "work" ∷ [])
        ∷ bind ("home" ∷ "me" ∷ [])
        ∷ [])
unfolding refuse_if ◌>>=◌ relative_to make_dirs make_from make_cwd home_exceptions hostile_mounts
home_exposed = refl

-- A gate of hostile mode has the network if its own setting says so.
gate_online : network_for (record sandbox { gate_network = some true }) "gate" ≡ true
unfolding network_for
gate_online = refl
