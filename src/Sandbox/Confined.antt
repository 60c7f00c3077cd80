-- ===== src/Sandbox/Confined.antt =====
-- What a child in the sandbox may write, and whether it has a network.
use omarchy_yolo.Prelude.{
  String, ◌≡◌, ◌⊎◌, inl, inr, refl, Bool, true, false, not, ◌&&◌, ◌||◌, Option, none, some, List,
  [], ◌∷◌, ◌++◌, map, arith, ◌==◌, string_eq, ==-refl, if◌then◌else◌, any, All, All-append,
  Bool-cases,
}
use omarchy_yolo.Prelude.Fallible.{
  returns, Ensures, Ensures-returns, Ensures-raises, Ensures-refuse, Ensures-bind, Ensures-if,
}
use omarchy_yolo.Config.{SandboxConfig, network_for}
use omarchy_yolo.Sandbox.Network.{Networked, network_for-Networked}
use omarchy_yolo.Sandbox.{
  Parts, relative_to, is_within, Host, Flag, plain, proc, tmpfs, dir, chdir, bind, ro_bind,
  dev_bind, bind_as, Mounts, make_dirs, make_from, make_cwd, masks_runtime, masked_roots, path_in,
  home_exceptions, hostile_mounts, writable_paths, home_mounts, base_flags, sandbox_flags, Wrapped,
  direct, boxed, wrap, with_executable,
}

abbrev is_unshare : Flag → Bool
is_unshare (plain s) = s == "--unshare-net"
is_unshare (proc p) = false
is_unshare (tmpfs p) = false
is_unshare (dir p) = false
is_unshare (chdir p) = false
is_unshare (bind p) = false
is_unshare (ro_bind p) = false
is_unshare (dev_bind p) = false

-- The paths of the host that a child may write: none in a review; its working directory; and,
-- outside of a gate, HOME or paths below it, which hostile mode restricts to directories.
pub record MayWrite (c : SandboxConfig) (h : Host) (profile : String) (p : Parts) : Type 0 where
  pub no_review : (profile == "review") ≡ false
  pub place :
      (p ≡ h.cwd)
      ⊎ (((profile == "gate") ≡ false)
          × (is_within (relative_to p h.home) ≡ true)
          × ((not c.hostile_repo_mode || h.is_dir p) ≡ true))

module _ (c : SandboxConfig) (h : Host) (profile : String) where
  -- A flag that grants no more than that: it binds the devices of the host only outside of hostile
  -- mode, and it mounts fresh directories at /tmp and, in hostile mode, over HOME and its runtime.
  abbrev pub Grants : Flag → Type 0
  Grants (bind p) = MayWrite c h profile p
  Grants (dev_bind p) = (p ≡ "dev" ∷ []) × (c.hostile_repo_mode ≡ false)
  Grants (plain s) = Unit {0}
  Grants (proc p) = Unit {0}
  Grants (tmpfs p) =
      (p ≡ "tmp" ∷ []) ⊎ ((c.hostile_repo_mode ≡ true) × ((p ≡ h.home) ⊎ (p ≡ h.runtime)))
  Grants (dir p) = Unit {0}
  Grants (chdir p) = Unit {0}
  Grants (ro_bind p) = Unit {0}

  abbrev Fine : Flag → Type 0
  Fine f = Grants f × (is_unshare f ≡ false)

  abbrev AllFine : List Flag → Type 0
  AllFine = All Fine

  make_dirs-Fine :
      (parts candidate : Parts) (m : Mounts)
      → AllFine m.flags
      → AllFine (make_dirs candidate parts m).flags
  unfolding make_dirs
  make_dirs-Fine [] candidate m fine = fine
  make_dirs-Fine (part ∷ parts) candidate m fine =
      let next = candidate ++ part ∷ [] in
      make_dirs-Fine parts next _ (elim (Bool-cases (path_in next m.created)) [
        | inl old ↦ rw old fine
        | inr new ↦ rw new (All-append Fine m.flags (dir next ∷ []) fine ((tt, refl), tt))
      ])

  make_from-Fine :
      (root : Parts) (parts : Option Parts) (m : Mounts)
      → AllFine m.flags
      → AllFine (make_from root parts m).flags
  unfolding make_from
  make_from-Fine root none m fine = fine
  make_from-Fine root (some parts) m fine = make_dirs-Fine parts root m fine

  make_cwd-Fine :
      (roots : List Parts) (m : Mounts) → AllFine m.flags → AllFine (make_cwd h.cwd roots m).flags
  unfolding make_cwd
  make_cwd-Fine [] m fine = fine
  make_cwd-Fine (root ∷ roots) m fine =
      make_cwd-Fine roots _ (make_from-Fine root (relative_to h.cwd root) m fine)

  masked-Fine :
      (home runtime : Bool)
      → c.hostile_repo_mode ≡ true
      → AllFine (
          map tmpfs
            ((if home then h.home ∷ [] else []) ++ (if runtime then h.runtime ∷ [] else [])))
  masked-Fine true true e = ((inr (e, inl refl), refl), ((inr (e, inr refl), refl), tt))
  masked-Fine true false e = ((inr (e, inl refl), refl), tt)
  masked-Fine false true e = ((inr (e, inr refl), refl), tt)
  masked-Fine false false e = tt

  bind_as-Fine :
      (p : Parts)
      → ((profile == "review") ≡ false → MayWrite c h profile p)
      → Fine (bind_as (profile == "review") p)
  bind_as-Fine p may = elim (Bool-cases (profile == "review")) [
    | inl review ↦ rw review (tt, refl)
    | inr other ↦ rw other (may other, refl)
  ]

  home_exceptions-Fine :
      (relatives : List String) (m : Mounts)
      → (profile == "gate") ≡ false
      → AllFine m.flags
      → Ensures (λ m'. AllFine m'.flags) (home_exceptions h (profile == "review") relatives m)
  unfolding home_exceptions
  home_exceptions-Fine [] m gate fine = Ensures-returns (λ m'. AllFine m'.flags) m fine
  home_exceptions-Fine (relative ∷ rest) m gate fine =
      let p = h.resolve relative in
      let made = make_from h.home (relative_to p h.home) m in
      Ensures-refuse (λ m'. AllFine m'.flags) _ _ _
        λ inside.
          Ensures-refuse (λ m'. AllFine m'.flags) _ _ _
            λ directory.
              Ensures-if (λ m'. AllFine m'.flags) (h.exists p) _ _
                (λ there. home_exceptions-Fine rest _ gate (
                  All-append Fine made.flags (bind_as (profile == "review") p ∷ [])
                    (make_from-Fine h.home (relative_to p h.home) m fine)
                    (
                      bind_as-Fine p (λ other. record {
                        no_review = other;
                        place = inr (gate, ground arith, ground arith);
                      }),
                      tt,
                    )))
                (λ gone. home_exceptions-Fine rest m gate fine)

  base_flags-Fine : (hostile : Bool) → c.hostile_repo_mode ≡ hostile → AllFine (base_flags hostile)
  base_flags-Fine true e = ground arith
  base_flags-Fine false e = ground (arith, e)

  hostile_mounts-Fine :
      (flags : List Flag)
      → c.hostile_repo_mode ≡ true
      → AllFine flags
      → Ensures AllFine (hostile_mounts c h (profile == "review") (profile == "gate") flags)
  unfolding hostile_mounts
  hostile_mounts-Fine flags hostile fine =
      let roots = masked_roots h in
      let start : Mounts = record { flags = flags ++ map tmpfs roots; created = [] } in
      let made = make_cwd-Fine roots start (
        All-append Fine flags (map tmpfs roots) fine
          (masked-Fine h.home_exists (masks_runtime h) hostile)) in
      Ensures-if AllFine (h.home_exists && not (profile == "gate")) _ _
        (λ shown.
          Ensures-bind (λ m'. AllFine m'.flags) AllFine _ _
            (home_exceptions-Fine c.writable_home_paths _ (ground arith) made)
            (λ m' fine'. Ensures-returns AllFine m'.flags fine'))
        (λ hidden. Ensures-returns AllFine _ made)

  writable_paths-Fine :
      (relatives : List String)
      → (profile == "review") ≡ false
      → (profile == "gate") ≡ false
      → c.hostile_repo_mode ≡ false
      → Ensures AllFine (writable_paths h relatives)
  unfolding writable_paths
  writable_paths-Fine [] review gate hostile = Ensures-returns AllFine [] tt
  writable_paths-Fine (relative ∷ rest) review gate hostile =
      let p = h.resolve relative in
      Ensures-refuse AllFine _ _ _ λ inside.
        Ensures-bind AllFine AllFine _ _ (writable_paths-Fine rest review gate hostile)
          λ flags fine. Ensures-returns AllFine _ (elim (Bool-cases (h.exists p)) [
            | inr gone ↦ rw gone fine
            | inl there ↦ rw there (
              (
                record {
                  no_review = review;
                  place = inr (gate, ground arith, ground (arith, hostile));
                },
                refl,
              ),
              fine,
            )
          ])

  home_within : is_within (relative_to h.home h.home) ≡ true
  unfolding relative_to
  home_within = go h.home
    where
      go : (p : Parts) → is_within (relative_to p p) ≡ true
      go [] = refl
      go (x ∷ xs) = rw (==-refl x) (go xs)

  home_mounts-Fine : Ensures AllFine (home_mounts c h (profile == "review") (profile == "gate"))
  unfolding home_mounts
  home_mounts-Fine =
      Ensures-if AllFine _ _ _
        (λ open_home.
          let review : (profile == "review") ≡ false = ground arith in
          let gate : (profile == "gate") ≡ false = ground arith in
          let hostile : c.hostile_repo_mode ≡ false = ground arith in
          Ensures-if AllFine (not c.read_only_home) _ _
            (λ _. Ensures-returns AllFine (bind h.home ∷ []) (
              (
                record {
                  no_review = review;
                  place = inr (gate, home_within, ground (arith, hostile));
                },
                refl,
              ),
              tt,
            ))
            (λ _. writable_paths-Fine c.writable_home_paths review gate hostile))
        (λ closed. Ensures-returns AllFine [] tt)

  All-Grants : (fs : List Flag) → AllFine fs → All Grants fs
  All-Grants [] fine = tt
  All-Grants (f ∷ fs) fine = (fine.0.0, All-Grants fs fine.1)

  shares : (fs : List Flag) → AllFine fs → any is_unshare fs ≡ false
  shares [] fine = refl
  shares (f ∷ fs) fine = let rest = shares fs fine.1 in ground (arith, fine.0.1, rest)

  any-append :
      (fs gs : List Flag)
      → any is_unshare fs ≡ false
      → any is_unshare (fs ++ gs) ≡ any is_unshare gs
  any-append [] gs e = refl
  any-append (f ∷ fs) gs e = let rest = any-append fs gs (ground arith) in ground (arith, e, rest)

  -- The flags grant only what the profile may write, and cut it off exactly if it has no network.
  abbrev pub Confines : List Flag → Type 0
  Confines fs = All Grants fs × Networked c profile (not (any is_unshare fs))

  closing :
      (masked homes net : List Flag) (cut : Bool)
      → AllFine masked
      → Fine (bind_as (profile == "review") h.cwd)
      → AllFine homes
      → All Grants net
      → any is_unshare net ≡ cut
      → let fs = masked ++ (bind_as (profile == "review") h.cwd ∷ chdir h.cwd ∷ (homes ++ net)) in
        All Grants fs × (any is_unshare fs ≡ cut)
  closing masked homes net cut fine cwd fine' granted e =
      let middle = bind_as (profile == "review") h.cwd ∷ chdir h.cwd ∷ (homes ++ net) in
      (
        All-append Grants masked middle (All-Grants masked fine)
            (cwd.0, (tt, All-append Grants homes net (All-Grants homes fine') granted)),
        rw (any-append masked middle (shares masked fine))
            (rw (cwd.1, any-append homes net (shares homes fine')) e),
      )

  sandbox_flags-Confines : Ensures Confines (sandbox_flags c h profile)
  unfolding sandbox_flags
  sandbox_flags-Confines =
      Ensures-bind AllFine Confines _ _
        (Ensures-if AllFine c.hostile_repo_mode _ _
          (λ hostile. hostile_mounts-Fine (base_flags true) hostile (base_flags-Fine true hostile))
          (λ plain_mode. Ensures-returns AllFine _ (base_flags-Fine false plain_mode)))
        λ masked fine. Ensures-bind AllFine Confines _ _ home_mounts-Fine λ homes fine'.
          let cwd : Fine (bind_as (profile == "review") h.cwd) =
            bind_as-Fine h.cwd (λ other. record { no_review = other; place = inl refl }) in
          Ensures-returns Confines _ (
            cut_off (network_for c profile) masked homes fine cwd fine'
              (network_for-Networked c profile))
    where
      cut_off :
          (online : Bool) (masked homes : List Flag)
          → AllFine masked
          → Fine (bind_as (profile == "review") h.cwd)
          → AllFine homes
          → Networked c profile online
          → Confines (
              masked
              ++ (bind_as (profile == "review") h.cwd
                  ∷ chdir h.cwd
                  ∷ (homes ++ (if online then [] else plain "--unshare-net" ∷ []))))
      cut_off true masked homes fine cwd fine' online =
          let flags = closing masked homes [] false fine cwd fine' tt refl in
          (flags.0, rw flags.1 online)
      cut_off false masked homes fine cwd fine' offline =
          let flags =
            closing masked homes (plain "--unshare-net" ∷ []) true fine cwd fine' (tt, tt) refl in
          (flags.0, rw flags.1 offline)

-- What `wrap` may return: the command itself, never in hostile mode, or flags that confine it.
abbrev pub IsConfined : SandboxConfig → Host → List String → String → Wrapped → Type 0
IsConfined c h argv profile (direct command) = (command ≡ argv) × (c.hostile_repo_mode ≡ false)
IsConfined c h argv profile (boxed executable fs command) =
    (command ≡ argv) × Confines c h profile fs

-- A command that `wrap` lets run keeps its arguments. Without bubblewrap it runs only outside of
-- hostile mode. With it, the flags bind no path of the host writable in a review, only the working
-- directory in a gate, and for an agent beside that only HOME or paths below it, in hostile mode only
-- directories; they bind /dev of the host in any profile, but only outside of hostile mode; they
-- mount fresh directories only at /tmp and, in hostile mode, over HOME and the runtime directory;
-- and they cut off the network exactly where it is off: in a review or a gate by the setting of
-- these, if there is one, else in a gate of hostile mode always, else by the general setting.
pub wrap-IsConfined :
    (c : SandboxConfig) (h : Host) (argv : List String) (profile : String) (w : Wrapped)
    → wrap c h argv profile ≡ returns w
    → IsConfined c h argv profile w
unfolding wrap
wrap-IsConfined c h argv profile w e =
    let all_ways : Ensures (IsConfined c h argv profile) (wrap c h argv profile) =
      Ensures-refuse (IsConfined c h argv profile) _ _ _ λ known.
        Ensures-if (IsConfined c h argv profile) (c.backend == "native" || c.backend == "none") _ _
          (λ native.
            Ensures-refuse (IsConfined c h argv profile) _ _ _ λ trusted.
              Ensures-returns (IsConfined c h argv profile) (direct argv) (refl, trusted))
          (λ other.
            Ensures-if (IsConfined c h argv profile) (not (c.backend == "bwrap")) _ _
              (λ unknown. Ensures-raises _ _) (λ box. go h.bwrap)) in
    all_ways.at w e
  where
    go :
        (executable : Option String)
        → Ensures
            (IsConfined c h argv profile)
            (with_executable executable (sandbox_flags c h profile) argv)
    go none = Ensures-raises _ _
    go (some executable) =
        Ensures-bind (Confines c h profile) (IsConfined c h argv profile) _ _
          (sandbox_flags-Confines c h profile)
          λ fs confines. Ensures-returns (IsConfined c h argv profile) _ (refl, confines)
