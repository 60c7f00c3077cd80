-- ===== src/Config/Limits.antt =====
-- The sections that `load_config` of src/omarchy_yolo/config.py reads keep the bounds of their settings.
use omarchy_yolo.Prelude.{String, ◌≡◌, Bool, arith, nat_eq, string_eq}
use omarchy_yolo.Prelude.Fallible.{
  returns, Ensures, Ensures-returns, Ensures-refuse, Ensures-bind, Ensures-unit,
}
use omarchy_yolo.Config.{Config, post_init}
use omarchy_yolo.Config.Values.{Entries}
use omarchy_yolo.Config.Fields.{Python}
use omarchy_yolo.Config.Load.{load_engine, load_sandbox, load_git, load_resources, load_config}
use omarchy_yolo.Config.Bounds.{
  EngineBounds, GitBounds, ResourceBounds, SandboxBounds, bounded_int-Within,
  agent_name-IsAgentName, agent_names-IsAgentName, branch_prefix_safe, identity_value_bounds,
  writable_home_paths-IsHomePath, environment_names-IsEnvNames,
}

module _ (py : Python) where
  load_engine-EngineBounds : (e : Entries) → Ensures EngineBounds (load_engine py e)
  unfolding load_engine
  load_engine-EngineBounds e = Ensures-refuse EngineBounds _ _ _ λ removed.
      Ensures-refuse EngineBounds _ _ _ λ profile.
        Ensures-bind _ EngineBounds _ _ (bounded_int-Within py _ 1 64 _) λ parallel h1.
          Ensures-bind _ EngineBounds _ _ (bounded_int-Within py _ 1 128 _) λ workers h2.
            Ensures-bind _ EngineBounds _ _ (bounded_int-Within py _ 1 20 _) λ attempts h3.
              Ensures-bind _ EngineBounds _ _ (bounded_int-Within py _ 0 20 _) λ cycles h4.
                Ensures-bind _ EngineBounds _ _ (bounded_int-Within py _ 1 256 _) λ tasks h5.
                  Ensures-bind _ EngineBounds _ _ (bounded_int-Within py _ 1 86400 _)
                    λ agent_time h6.
                      Ensures-bind _ EngineBounds _ _ (bounded_int-Within py _ 1 86400 _)
                        λ gate_time h7.
                          Ensures-bind _ EngineBounds _ _ (agent_name-IsAgentName py _ _)
                            λ planner h8.
                              Ensures-bind _ EngineBounds _ _ (agent_name-IsAgentName py _ _)
                                λ reviewer h9.
                                  Ensures-bind _ EngineBounds _ _ (agent_name-IsAgentName py _ _)
                                    λ integrator h10.
                                      Ensures-bind _ EngineBounds _ _
                                        (agent_names-IsAgentName py _ _ _)
                                        λ named h11.
                                          Ensures-bind _ EngineBounds _ _ (Ensures-unit _)
                                            λ auto h12.
                                              Ensures-bind _ EngineBounds _ _ (Ensures-unit _)
                                                λ cleanup h13.
                                                  Ensures-bind _ EngineBounds _ _
                                                    (bounded_int-Within py _ 8000 120000 _)
                                                    λ bytes h14.
                                                      Ensures-bind _ EngineBounds _ _
                                                        (bounded_int-Within py _ 1 4096 _)
                                                        λ files h15.
                                                          Ensures-bind _ EngineBounds _ _
                                                            (Ensures-unit _)
                                                            λ binary h16.
                                                            Ensures-returns EngineBounds _ (record {
                                                            max_parallel = h1;
                                                            max_global_workers = h2;
                                                            max_attempts = h3;
                                                            max_final_cycles = h4.1;
                                                            max_tasks = h5;
                                                            agent_timeout = h6;
                                                            gate_timeout = h7;
                                                            roles_named = (h8, h9, h10);
                                                            workers_named = h11;
                                                            chunk_bytes = h14;
                                                            max_files = h15;
                                                            })

  load_git-GitBounds :
      (hostile hostile_mode : Bool) (g : Entries)
      → Ensures GitBounds (load_git py hostile hostile_mode g)
  unfolding load_git
  load_git-GitBounds hostile hostile_mode g = Ensures-refuse GitBounds _ _ _ λ conflict.
      Ensures-bind _ GitBounds _ _ (Ensures-unit _) λ allow _.
        Ensures-refuse GitBounds _ _ _ λ neutral.
          Ensures-bind _ GitBounds _ _ (Ensures-unit _) λ clean _.
            Ensures-bind _ GitBounds _ _ (branch_prefix_safe py _) λ prefix hp.
              Ensures-bind _ GitBounds _ _ (identity_value_bounds py _ _ 200) λ name hn.
                Ensures-bind _ GitBounds _ _ (identity_value_bounds py _ _ 320) λ email he.
                  Ensures-bind _ GitBounds _ _ (bounded_int-Within py _ 5 900 _) λ time ht.
                    Ensures-returns GitBounds _ (record {
                      safe_prefix = hp;
                      name_given = hn.0;
                      name_short = hn.1;
                      email_given = he.0;
                      email_short = he.1;
                      timeout = ht;
                    })

  load_resources-ResourceBounds : (r : Entries) → Ensures ResourceBounds (load_resources py r)
  unfolding load_resources
  load_resources-ResourceBounds r = Ensures-refuse ResourceBounds _ _ _ λ backend.
      Ensures-bind _ ResourceBounds _ _ (bounded_int-Within py _ 0 1048576 _) λ high h1.
        Ensures-bind _ ResourceBounds _ _ (bounded_int-Within py _ 0 1048576 _) λ memory_max h2.
          Ensures-refuse ResourceBounds _ _ _ λ order.
            Ensures-bind _ ResourceBounds _ _ (bounded_int-Within py _ 0 1000000 _) λ tasks h3.
              Ensures-bind _ ResourceBounds _ _ (bounded_int-Within py _ 0 10000 _) λ cpu h4.
                Ensures-bind _ ResourceBounds _ _ (bounded_int-Within py _ 0 10000 _) λ io h5.
                  Ensures-returns ResourceBounds _ (record {
                    memory_high = h1.1;
                    memory_max = h2.1;
                    memory_order = ground arith;
                    tasks = h3.1;
                    cpu = h4.1;
                    io = h5.1;
                  })

  load_sandbox-SandboxBounds :
      (hostile : Bool) (s : Entries) → Ensures SandboxBounds (load_sandbox py hostile s)
  unfolding load_sandbox
  load_sandbox-SandboxBounds hostile s =
      Ensures-bind _ SandboxBounds _ _ (Ensures-unit _) λ conflicts _.
        Ensures-refuse SandboxBounds _ _ _ λ backend.
          Ensures-bind _ SandboxBounds _ _ (Ensures-unit _) λ hostile_mode _.
            Ensures-refuse SandboxBounds _ _ _ λ isolated.
              Ensures-bind _ SandboxBounds _ _ (Ensures-unit _) λ network _.
                Ensures-bind _ SandboxBounds _ _ (Ensures-unit _) λ review _.
                  Ensures-bind _ SandboxBounds _ _ (Ensures-unit _) λ gate _.
                    Ensures-bind _ SandboxBounds _ _ (Ensures-unit _) λ home _.
                      Ensures-bind _ SandboxBounds _ _ (writable_home_paths-IsHomePath py _)
                        λ paths hp.
                          Ensures-bind _ SandboxBounds _ _ (environment_names-IsEnvNames py _ _)
                            λ gates hg.
                              Ensures-bind _ SandboxBounds _ _ (environment_names-IsEnvNames py _ _)
                                λ agents ha.
                                  Ensures-returns SandboxBounds _
                                    (record { paths = hp; gate_names = hg; agent_names = ha })

-- All sections of a Config that are checked.
pub record IsBounded (c : Config) : Type 0 where
  pub engine : EngineBounds c.engine
  pub git : GitBounds c.git
  pub resources : ResourceBounds c.resources
  pub sandbox : SandboxBounds c.sandbox

post_init-IsBounded : (c : Config) → IsBounded c → Ensures IsBounded (post_init c)
unfolding post_init
post_init-IsBounded c h = Ensures-refuse IsBounded _ _ _ λ _. Ensures-refuse IsBounded _ _ _ λ _.
    Ensures-refuse IsBounded _ _ _
      λ _. Ensures-refuse IsBounded _ _ _ λ _. Ensures-returns IsBounded c h

-- Whatever the document says: the Config that `load_config` returns has every number within the
-- bounds of its setting, safe names of agents, a safe branch prefix, nonempty bounded identities, a
-- soft memory limit of at most the hard one if that is given, home paths that pass their test, and allowlists of
-- well-formed, distinct environment names.
pub load_config-IsBounded :
    (py : Python) (state_dir config_path : String) (doc : Entries) (c : Config)
    → load_config py state_dir config_path doc ≡ returns c
    → IsBounded c
unfolding load_config
load_config-IsBounded py state_dir config_path doc c h =
    let all_ways : Ensures IsBounded (load_config py state_dir config_path doc) =
      Ensures-bind _ IsBounded _ _ (Ensures-unit _) λ preset _.
        Ensures-bind _ IsBounded _ _ (load_engine-EngineBounds py _) λ engine he.
          Ensures-bind _ IsBounded _ _ (load_sandbox-SandboxBounds py _ _) λ sandbox hs.
            Ensures-bind _ IsBounded _ _ (load_git-GitBounds py _ _ _) λ git hg.
              Ensures-bind _ IsBounded _ _ (load_resources-ResourceBounds py _) λ resources hr.
                Ensures-bind _ IsBounded _ _ (Ensures-unit _) λ defaults _.
                  Ensures-bind _ IsBounded _ _ (Ensures-unit _) λ agents _.
                    post_init-IsBounded _
                      (record { engine = he; git = hg; resources = hr; sandbox = hs }) in
    all_ways.at c h
