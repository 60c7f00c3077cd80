-- ===== src/Sandbox/Environment.antt =====
-- What of the host's environment reaches a child.
use omarchy_yolo.Prelude.{
  not, String, ◌≡◌, sym, ◌∙◌, ◌⊎◌, inl, inr, refl, Bool, true, false, ◌||◌, List, [], ◌∷◌, ◌++◌,
  arith, ◌==◌, string_eq, eq_of_==, elem, starts_with, All, All-append, All-map_of, IsMember,
  Exists-append_left, if◌then◌else◌, Bool-cases, some,
}
use omarchy_yolo.Prelude.Tables.{select}
use omarchy_yolo.Prelude.Fallible.{Fallible, returns, raises, refuse_if, ◌>>=◌, ◌>>◌}
use omarchy_yolo.Config.{SandboxConfig}
use omarchy_yolo.Sandbox.{
  Host, SandboxError, profiles, Variable, has_key, set_variable, environment,
}
use omarchy_yolo.Sandbox.Variables.{
  value_of, elem-append, select-own, select-kept, set_variable-All, set_variable-IsMember,
  value_of-set_variable, has_key-snoc, has_key-set_variable,
}

-- The names of a baseline without secrets, for tools, the locale and the terminal.
abbrev pub baseline : List String
baseline =
    "AR" ∷ "CC" ∷ "COLORTERM" ∷ "CXX" ∷ "HOME" ∷ "LANG" ∷ "LANGUAGE" ∷ "LD" ∷ "LOGNAME"
    ∷ "MAKEFLAGS" ∷ "NINJA_STATUS" ∷ "PATH" ∷ "PYTHONHOME" ∷ "PYTHONPATH" ∷ "RUST_BACKTRACE"
    ∷ "SHELL" ∷ "TERM" ∷ "USER" ∷ "VIRTUAL_ENV" ∷ []

module _ (c : SandboxConfig) (profile key : String) where
  -- Why a variable reaches a child.
  pub data Passes : Type 0 where
    trusted : c.hostile_repo_mode ≡ false → Passes
    base : elem key baseline ≡ true → Passes
    locale : starts_with key "LC_" ≡ true → Passes
    for_gate : profile ≡ "gate" → elem key c.gate_env_allowlist ≡ true → Passes
    for_agent : (profile == "gate") ≡ false → elem key c.agent_env_allowlist ≡ true → Passes

  -- Why it does not.
  pub record IsBlocked : Type 0 where
    pub hostile : c.hostile_repo_mode ≡ true
    pub no_base : elem key baseline ≡ false
    pub no_locale : starts_with key "LC_" ≡ false
    pub not_allowed :
        ((profile ≡ "gate") × (elem key c.gate_env_allowlist ≡ false))
        ⊎ (((profile == "gate") ≡ false) × (elem key c.agent_env_allowlist ≡ false))

abbrev pub ci_set : Variable
ci_set = record { key = "CI"; value = "1" }

abbrev pub marked : Variable
marked = record { key = "OMARCHY_YOLO"; value = "1" }

module _ (c : SandboxConfig) (h : Host) (profile : String) where
  -- A variable of the host that passes, with its value, or one that is set for every child.
  abbrev pub IsOwn : Variable → Type 0
  IsOwn v = (Passes c profile v.key × IsMember v h.environ) ⊎ ((v ≡ ci_set) ⊎ (v ≡ marked))

  -- A variable of the host that is kept as it is, unless it is blocked, or is the mark.
  abbrev pub IsKept : List Variable → Variable → Type 0
  IsKept env v = IsBlocked c profile v.key ⊎ ((v.key ≡ "OMARCHY_YOLO") ⊎ IsMember v env)

  pub record IsFiltered (env : List Variable) : Type 0 where
    pub own : All IsOwn env
    pub kept : All (IsKept env) h.environ
    pub ci : has_key "CI" env ≡ true
    pub mark : value_of "OMARCHY_YOLO" env ≡ some "1"

-- The test of the source, for the allowlist of the profile.
abbrev passes : List String → Variable → Bool
passes allowlist v = elem v.key (baseline ++ allowlist) || starts_with v.key "LC_"

passes_lem :
    (allowlist : List String) (v : Variable)
    → passes allowlist v
      ≡ (elem v.key baseline || (elem v.key allowlist || starts_with v.key "LC_"))
passes_lem allowlist v = go baseline
  where
    go :
        (names : List String)
        → (elem v.key (names ++ allowlist) || starts_with v.key "LC_")
          ≡ (elem v.key names || (elem v.key allowlist || starts_with v.key "LC_"))
    go names = rw (elem-append v.key names allowlist) (ground arith)

module _ (c : SandboxConfig) (profile : String) where
  abbrev allowlist_of : Bool → List String
  allowlist_of gate = if gate then c.gate_env_allowlist else c.agent_env_allowlist

  abbrev IsProfile : Bool → Type 0
  IsProfile gate = (profile == "gate") ≡ gate

  allows :
      (gate : Bool) (key : String)
      → IsProfile gate
      → elem key (allowlist_of gate) ≡ true
      → Passes c profile key
  allows true key g h = for_gate (eq_of_== profile "gate" g) h
  allows false key g h = for_agent g h

  forbids :
      (gate : Bool) (key : String)
      → IsProfile gate
      → elem key (allowlist_of gate) ≡ false
      → ((profile ≡ "gate") × (elem key c.gate_env_allowlist ≡ false))
        ⊎ (((profile == "gate") ≡ false) × (elem key c.agent_env_allowlist ≡ false))
  forbids true key g h = inl (eq_of_== profile "gate" g, h)
  forbids false key g h = inr (g, h)

  Passes-if :
      (gate : Bool) (v : Variable)
      → IsProfile gate
      → passes (allowlist_of gate) v ≡ true
      → Passes c profile v.key
  Passes-if gate v g h = go _ _ _ refl refl refl (sym (passes_lem (allowlist_of gate) v) ∙ h)
    where
      go :
          (a b l : Bool)
          → elem v.key baseline ≡ a
          → elem v.key (allowlist_of gate) ≡ b
          → starts_with v.key "LC_" ≡ l
          → (a || (b || l)) ≡ true
          → Passes c profile v.key
      go true b l ea eb el e = base ea
      go false true l ea eb el e = allows gate v.key g eb
      go false false true ea eb el e = locale el
      go false false false ea eb el e = cc

  IsBlocked-if :
      (gate : Bool) (v : Variable)
      → IsProfile gate
      → c.hostile_repo_mode ≡ true
      → passes (allowlist_of gate) v ≡ false
      → IsBlocked c profile v.key
  IsBlocked-if gate v g hostile h =
      go _ _ _ refl refl refl (sym (passes_lem (allowlist_of gate) v) ∙ h)
    where
      go :
          (a b l : Bool)
          → elem v.key baseline ≡ a
          → elem v.key (allowlist_of gate) ≡ b
          → starts_with v.key "LC_" ≡ l
          → (a || (b || l)) ≡ false
          → IsBlocked c profile v.key
      go true b l ea eb el e = cc
      go false true l ea eb el e = cc
      go false false true ea eb el e = cc
      go false false false ea eb el e = record {
        hostile = hostile;
        no_base = ea;
        no_locale = el;
        not_allowed = forbids gate v.key g eb;
      }

module _ (c : SandboxConfig) (h : Host) (profile : String) where
  -- The answer for a profile, which is refused exactly if it is unknown.
  abbrev pub IsOutcome : Fallible SandboxError (List Variable) → Type 0
  IsOutcome (returns env) = (elem profile profiles ≡ true) × IsFiltered c h profile env
  IsOutcome (raises e) = (elem profile profiles ≡ false) × (e ≡ SandboxError.unknown_profile)

  -- What is kept of the host, before CI and the mark are set.
  record IsSelected (kept : List Variable) : Type 0 where
    own : All (IsOwn c h profile) kept
    all_kept : All (λ v. IsBlocked c profile v.key ⊎ IsMember v kept) h.environ

  -- `env.setdefault("CI", "1")`
  with_ci :
      (kept : List Variable)
      → IsSelected kept
      → (next : List Variable) × (IsSelected next
          × ((has_key "CI" next ≡ true)
              × (next ≡ (if has_key "CI" kept then kept else kept ++ ci_set ∷ []))))
  with_ci kept s = elim (Bool-cases (has_key "CI" kept)) [
    | inl e ↦ (kept, (s, (e, rw e refl)))
    | inr e ↦ (
      kept ++ ci_set ∷ [],
      (
        record {
          own = All-append (IsOwn c h profile) kept (ci_set ∷ []) s.own (inr (inl refl), tt);
          all_kept =
              All-map_of _ (λ v. IsBlocked c profile v.key ⊎ IsMember v (kept ++ ci_set ∷ []))
                h.environ
                (λ v m. elim m [
                  | inl b ↦ inl b
                  | inr k ↦ inr (Exists-append_left (λ x. x ≡ v) kept (ci_set ∷ []) k)
                ])
                s.all_kept;
        },
        (has_key-snoc "CI" kept ci_set refl, rw e refl),
      ),
    )
  ]

  with_mark :
      (next : List Variable)
      → IsSelected next
      → has_key "CI" next ≡ true
      → IsFiltered c h profile (set_variable "OMARCHY_YOLO" "1" next)
  with_mark next s ci = record {
    own = set_variable-All "OMARCHY_YOLO" "1" (IsOwn c h profile) next (inr (inr refl)) s.own;
    kept =
        All-map_of _ _ h.environ
          (λ v m. elim m [
            | inl b ↦ inl b
            | inr k ↦ inr (set_variable-IsMember "OMARCHY_YOLO" "1" next v k)
          ])
          s.all_kept;
    ci = rw (has_key-set_variable "CI" "OMARCHY_YOLO" "1" next) ci;
    mark = value_of-set_variable "OMARCHY_YOLO" "1" next;
  }

  finish :
      (kept : List Variable)
      → IsSelected kept
      → IsFiltered c h profile (
          set_variable "OMARCHY_YOLO" "1" (if has_key "CI" kept then kept else kept ++ ci_set ∷ []))
  finish kept s =
      let next = with_ci kept s in rw (sym next.1.1.1) (with_mark next.0 next.1.0 next.1.1.0)

  All-IsMember : (vs : List Variable) → All (λ v. IsMember v vs) vs
  All-IsMember [] = tt
  All-IsMember (v ∷ vs) =
      (inl refl, All-map_of _ (λ w. IsMember w (v ∷ vs)) vs (λ w m. inr m) (All-IsMember vs))

  selected :
      (hostile gate : Bool)
      → c.hostile_repo_mode ≡ hostile
      → (profile == "gate") ≡ gate
      → IsSelected
          (if hostile then select (passes (allowlist_of c profile gate)) h.environ else h.environ)
  selected true gate e g =
      let p = passes (allowlist_of c profile gate) in
      record {
        own =
            All-map_of _ (IsOwn c h profile) (select p h.environ)
              (λ v m. inl (Passes-if c profile gate v g m.0, m.1)) (select-own p h.environ);
        all_kept =
            All-map_of _ (λ v. IsBlocked c profile v.key ⊎ IsMember v (select p h.environ))
              h.environ
              (λ v m. elim m [
                | inl out ↦ inl (IsBlocked-if c profile gate v g e out)
                | inr k ↦ inr k
              ])
              (select-kept p h.environ);
      }
  selected false gate e g = record {
    own =
        All-map_of _ (IsOwn c h profile) h.environ (λ v m. inl (Passes.trusted e, m))
          (All-IsMember h.environ);
    all_kept =
        All-map_of _ (λ v. IsBlocked c profile v.key ⊎ IsMember v h.environ) h.environ
          (λ v m. inr m) (All-IsMember h.environ);
  }

  -- A child of a known profile gets an environment. Each of its variables is one of the host, with
  -- its value, or sets CI=1 or OMARCHY_YOLO=1; in hostile mode those of the host have a name of the
  -- baseline, one that begins with LC_, or, for a gate, one of the allowlist of gates, for another
  -- profile one of the allowlist of agents. Every variable of the host that is not blocked so is
  -- kept with its value, except OMARCHY_YOLO. CI is set, and OMARCHY_YOLO is "1". An unknown
  -- profile is refused.
  pub environment-IsFiltered : IsOutcome (environment c h profile)
  unfolding environment ◌>>=◌ refuse_if
  environment-IsFiltered =
      go (elem profile profiles) refl _
        (finish _ (selected c.hostile_repo_mode (profile == "gate") refl refl))
    where
      go :
          (known : Bool)
          → elem profile profiles ≡ known
          → (env : List Variable) → IsFiltered c h profile env
          → IsOutcome (refuse_if (not known) SandboxError.unknown_profile >> returns env)
      go true e env f = (e, f)
      go false e env f = (e, refl)
