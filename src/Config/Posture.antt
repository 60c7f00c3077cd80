-- ===== src/Config/Posture.antt =====
-- A Config that exists is as safe as its preset says.
use omarchy_yolo.Prelude.{
  not, ◌==◌, ◌||◌, ◌⊎◌, ◌≢◌, inl, inr, Bool-cases, String, ◌≡◌, true, arith, string_eq, elem,
  is_empty,
}
use omarchy_yolo.Prelude.Fallible.{
  returns, Ensures, Ensures-returns, Ensures-refuse, Ensures-bind, Ensures-unit,
}
use omarchy_yolo.Config.{Config, safety_presets, violations, post_init, trust_posture}
use omarchy_yolo.Config.Values.{Entries}
use omarchy_yolo.Config.Fields.{Python}
use omarchy_yolo.Config.Load.{load_config}

-- What the code relies on, of a Config that was built.
pub record IsGuarded (c : Config) : Type 0 where
  pub known_preset : elem c.safety_preset safety_presets ≡ true
  pub hostile_isolated : (not c.sandbox.hostile_repo_mode || c.sandbox.backend == "bwrap") ≡ true
  pub hostile_neutral :
      (not c.sandbox.hostile_repo_mode || not c.git.allow_repository_commands) ≡ true
  pub preset_kept : (c.safety_preset ≢ "hostile-repo") ⊎ (trust_posture c ≡ "hostile-repo")

-- No violation: the posture is that of a hostile repository.
no_violations :
    (c : Config) → is_empty (violations c.sandbox c.git) ≡ true → trust_posture c ≡ "hostile-repo"
unfolding violations trust_posture
no_violations c h = ground arith

post_init-IsGuarded : (c : Config) → Ensures IsGuarded (post_init c)
unfolding post_init
post_init-IsGuarded c = Ensures-refuse IsGuarded _ _ _ λ known.
    Ensures-refuse IsGuarded _ _ _ λ isolated. Ensures-refuse IsGuarded _ _ _ λ neutral.
      Ensures-refuse IsGuarded _ _ _ λ kept. Ensures-returns IsGuarded c (record {
        known_preset = ground arith;
        hostile_isolated = ground arith;
        hostile_neutral = ground arith;
        preset_kept = elim (Bool-cases (c.safety_preset == "hostile-repo")) [
          | inl e ↦ inr (no_violations c (ground arith))
          | inr e ↦ inl (ground (arith, string_eq.beq_iff c.safety_preset "hostile-repo"))
        ];
      })

-- Whatever the document says: if `load_config` returns a Config, hostile mode runs under bwrap with
-- repository commands neutralized, and the preset hostile-repo has the posture hostile-repo.
pub load_config-IsGuarded :
    (py : Python) (state_dir config_path : String) (doc : Entries) (c : Config)
    → load_config py state_dir config_path doc ≡ returns c
    → IsGuarded c
unfolding load_config
load_config-IsGuarded py state_dir config_path doc c h =
    let all_ways : Ensures IsGuarded (load_config py state_dir config_path doc) =
      Ensures-bind _ IsGuarded _ _ (Ensures-unit _) λ preset _.
        Ensures-bind _ IsGuarded _ _ (Ensures-unit _) λ engine _.
          Ensures-bind _ IsGuarded _ _ (Ensures-unit _) λ sandbox _.
            Ensures-bind _ IsGuarded _ _ (Ensures-unit _) λ git _.
              Ensures-bind _ IsGuarded _ _ (Ensures-unit _) λ resources _.
                Ensures-bind _ IsGuarded _ _ (Ensures-unit _) λ defaults _.
                  Ensures-bind _ IsGuarded _ _ (Ensures-unit _) λ agents _. post_init-IsGuarded _ in
    all_ways.at c h
