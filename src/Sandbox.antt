-- ===== src/Sandbox.antt =====
-- src/omarchy_yolo/sandbox.py: the command line of bubblewrap and the environment of a child. A
-- path is the list of its parts, so that `relative_to` is a common prefix; what the source asks of
-- the host is the record Host. `wrap` groups the arguments into flags, and `render` lists them.
pub mod Confined
mod Variables
mod Network
pub mod Environment
use omarchy_yolo.Prelude.{
  ℕ, String, Bool, true, false, not, ◌&&◌, ◌||◌, Option, none, some, List, [], ◌∷◌, ◌++◌, map, Eq,
  ◌==◌, string_eq, elem, append_text, starts_with, if◌then◌else◌,
}
use omarchy_yolo.Prelude.Fallible.{Fallible, returns, raises, refuse_if, ◌>>=◌, ◌>>◌}
use omarchy_yolo.Prelude.Tables.{select}
use omarchy_yolo.Config.{SandboxConfig, network_for}

pub data SandboxError : Type 0 where
  unknown_profile hostile_needs_bwrap unknown_backend no_bubblewrap : SandboxError
  escapes_home not_a_directory : String → SandboxError

abbrev pub Parts : Type 0
Parts = List String

-- The absolute path of the parts.
unfoldable pub show_path : Parts → String
show_path [] = "/"
show_path (p ∷ []) = append_text "/" p
show_path (p ∷ q ∷ ps) = append_text (append_text "/" p) (show_path (q ∷ ps))

-- `p.relative_to(root)`: the parts below, or ValueError.
unfoldable pub relative_to : Parts → Parts → Option Parts
relative_to p [] = some p
relative_to [] (r ∷ rs) = none
relative_to (p ∷ ps) (r ∷ rs) = if p == r then relative_to ps rs else none

abbrev pub is_within : Option Parts → Bool
is_within none = false
is_within (some p) = true

abbrev pub same_path : Parts → Parts → Bool
same_path [] [] = true
same_path [] (q ∷ qs) = false
same_path (p ∷ ps) [] = false
same_path (p ∷ ps) (q ∷ qs) = p == q && same_path ps qs

-- `(home / relative).resolve()` is `resolve relative`, and `cwd` is the resolved `cwd`.
pub record Host : Type 0 where
  pub bwrap : Option String
  pub home : Parts
  pub home_exists : Bool
  pub runtime : Parts
  pub runtime_exists : Bool
  pub cwd : Parts
  pub resolve : String → Parts
  pub exists : Parts → Bool
  pub is_dir : Parts → Bool
  pub environ : List (record { key : String; value : String })

pub data Flag : Type 0 where
  plain : String → Flag
  proc tmpfs dir chdir : Parts → Flag
  bind ro_bind dev_bind : Parts → Flag

abbrev pub flag_args : Flag → List String
flag_args (plain s) = s ∷ []
flag_args (proc p) = "--proc" ∷ show_path p ∷ []
flag_args (tmpfs p) = "--tmpfs" ∷ show_path p ∷ []
flag_args (dir p) = "--dir" ∷ show_path p ∷ []
flag_args (chdir p) = "--chdir" ∷ show_path p ∷ []
flag_args (bind p) = "--bind" ∷ show_path p ∷ show_path p ∷ []
flag_args (ro_bind p) = "--ro-bind" ∷ show_path p ∷ show_path p ∷ []
flag_args (dev_bind p) = "--dev-bind" ∷ show_path p ∷ show_path p ∷ []

unfoldable pub render : List Flag → List String
render [] = []
render (f ∷ fs) = flag_args f ++ render fs

abbrev pub profiles : List String
profiles = "review" ∷ "gate" ∷ "yolo-worktree" ∷ "danger-yolo" ∷ []

abbrev pub bind_as : Bool → Parts → Flag
bind_as read_only p = if read_only then ro_bind p else bind p

-- The flags so far, and the directories of the set `created`.
pub record Mounts : Type 0 where
  pub flags : List Flag
  pub created : List Parts

abbrev pub path_in : Parts → List Parts → Bool
path_in p [] = false
path_in p (q ∷ qs) = same_path q p || path_in p qs

-- `for part in parts: candidate /= part; if candidate not in created: …`
unfoldable pub make_dirs : Parts → Parts → Mounts → Mounts
make_dirs candidate [] m = m
make_dirs candidate (part ∷ parts) m =
    let next = candidate ++ part ∷ [] in
    make_dirs next parts (
      if path_in next m.created
      then m
      else record { flags = m.flags ++ dir next ∷ []; created = m.created ++ next ∷ [] })

unfoldable pub make_from : Parts → Option Parts → Mounts → Mounts
make_from root none m = m
make_from root (some parts) m = make_dirs root parts m

-- The directories that lead to `cwd` below the masked roots.
unfoldable pub make_cwd : Parts → List Parts → Mounts → Mounts
make_cwd cwd [] m = m
make_cwd cwd (root ∷ roots) m = make_cwd cwd roots (make_from root (relative_to cwd root) m)

abbrev pub masks_runtime : Host → Bool
masks_runtime h =
    h.runtime_exists
    && not (same_path h.runtime h.home)
    && not (is_within (relative_to h.runtime h.home))

abbrev pub masked_roots : Host → List Parts
masked_roots h =
    (if h.home_exists then h.home ∷ [] else []) ++ (if masks_runtime h then h.runtime ∷ [] else [])

-- The directories of HOME that hostile mode still shows.
unfoldable pub home_exceptions : Host → Bool → List String → Mounts → Fallible SandboxError Mounts
home_exceptions h review [] m = returns m
home_exceptions h review (relative ∷ rest) m =
    let candidate = h.resolve relative in
    let made = make_from h.home (relative_to candidate h.home) m in
    let shown =
      home_exceptions h review rest
        (record made { flags = made.flags ++ bind_as review candidate ∷ [] }) in
    let skipped = home_exceptions h review rest m in
    do
      refuse_if (not (is_within (relative_to candidate h.home)))
          (SandboxError.escapes_home relative)
      refuse_if (h.exists candidate && not (h.is_dir candidate))
          (SandboxError.not_a_directory relative)
      if h.exists candidate then shown else skipped

unfoldable pub hostile_mounts :
    SandboxConfig → Host → Bool → Bool → List Flag → Fallible SandboxError (List Flag)
hostile_mounts c h review gate flags =
    let roots = masked_roots h in
    let m = make_cwd h.cwd roots (record { flags = flags ++ map tmpfs roots; created = [] }) in
    if h.home_exists && not gate
    then (home_exceptions h review c.writable_home_paths m >>= λ m'. returns m'.flags)
    else returns m.flags

-- The paths of HOME that stay writable outside of hostile mode.
unfoldable pub writable_paths : Host → List String → Fallible SandboxError (List Flag)
writable_paths h [] = returns []
writable_paths h (relative ∷ rest) =
    let candidate = h.resolve relative in
    let others = writable_paths h rest in
    do
      refuse_if (not (is_within (relative_to candidate h.home)))
          (SandboxError.escapes_home relative)
      flags ← others
      returns ((if h.exists candidate then bind candidate ∷ [] else []) ++ flags)

unfoldable pub home_mounts : SandboxConfig → Host → Bool → Bool → Fallible SandboxError (List Flag)
home_mounts c h review gate =
    if h.home_exists && not c.hostile_repo_mode && not review && not gate
    then if not c.read_only_home
      then returns (bind h.home ∷ [])
      else writable_paths h c.writable_home_paths
    else returns []

abbrev pub base_flags : Bool → List Flag
base_flags hostile =
    (plain "--die-with-parent"
      ∷ plain "--new-session"
      ∷ plain "--unshare-pid"
      ∷ proc ("proc" ∷ [])
      ∷ [])
    ++ ((if hostile
          then plain "--unshare-ipc" ∷ plain "--unshare-uts" ∷ plain "--dev" ∷ plain "/dev" ∷ []
          else dev_bind ("dev" ∷ []) ∷ [])
        ++ (ro_bind [] ∷ tmpfs ("tmp" ∷ []) ∷ []))

-- The flags of bubblewrap, for the backend bwrap.
unfoldable pub sandbox_flags : SandboxConfig → Host → String → Fallible SandboxError (List Flag)
sandbox_flags c h profile = do
  let review = profile == "review"
  let gate = profile == "gate"
  masked ←
      if c.hostile_repo_mode
      then hostile_mounts c h review gate (base_flags true)
      else returns (base_flags false)
  homes ← home_mounts c h review gate
  returns (
      masked
      ++ (bind_as review h.cwd
          ∷ chdir h.cwd
          ∷ (homes ++ (if network_for c profile then [] else plain "--unshare-net" ∷ []))))

-- What `wrap` returns: the command as it is, or the flags of the executable around it.
pub data Wrapped : Type 0 where
  direct : List String → Wrapped
  boxed : String → List Flag → List String → Wrapped

unfoldable pub wrapped_argv : Wrapped → List String
wrapped_argv (direct argv) = argv
wrapped_argv (boxed executable flags argv) = executable ∷ (render flags ++ "--" ∷ argv)

abbrev pub with_executable :
    Option String → Fallible SandboxError (List Flag) → List String → Fallible SandboxError Wrapped
with_executable none flags argv = raises SandboxError.no_bubblewrap
with_executable (some executable) flags argv = flags >>= λ fs. returns (boxed executable fs argv)

unfoldable pub wrap : SandboxConfig → Host → List String → String → Fallible SandboxError Wrapped
wrap c h argv profile =
    let native =
      refuse_if c.hostile_repo_mode SandboxError.hostile_needs_bwrap >> returns (direct argv) in
    let box = with_executable h.bwrap (sandbox_flags c h profile) argv in
    do
      refuse_if (not (elem profile profiles)) SandboxError.unknown_profile
      if c.backend == "native" || c.backend == "none"
          then native
          else if not (c.backend == "bwrap")
          then raises SandboxError.unknown_backend
          else box

-- `safe_names`, with the allowlist of the profile
abbrev pub safe_names : SandboxConfig → String → List String
safe_names c profile =
    ("AR" ∷ "CC" ∷ "COLORTERM" ∷ "CXX" ∷ "HOME" ∷ "LANG" ∷ "LANGUAGE" ∷ "LD" ∷ "LOGNAME"
      ∷ "MAKEFLAGS" ∷ "NINJA_STATUS" ∷ "PATH" ∷ "PYTHONHOME" ∷ "PYTHONPATH" ∷ "RUST_BACKTRACE"
      ∷ "SHELL" ∷ "TERM" ∷ "USER" ∷ "VIRTUAL_ENV" ∷ [])
    ++ (if profile == "gate" then c.gate_env_allowlist else c.agent_env_allowlist)

abbrev pub Variable : Type 0
Variable = record { key : String; value : String }

unfoldable pub has_key : String → List Variable → Bool
has_key k [] = false
has_key k (v ∷ vs) = v.key == k || has_key k vs

-- `env[key] = value`
unfoldable pub set_variable : String → String → List Variable → List Variable
set_variable k value [] = record { key = k; value = value } ∷ []
set_variable k value (v ∷ vs) =
    if v.key == k then record { key = k; value = value } ∷ vs else v ∷ set_variable k value vs

unfoldable pub environment : SandboxConfig → Host → String → Fallible SandboxError (List Variable)
environment c h profile = do
  let kept =
      if c.hostile_repo_mode
      then select (λ v. elem v.key (safe_names c profile) || starts_with v.key "LC_") h.environ
      else h.environ
  refuse_if (not (elem profile profiles)) SandboxError.unknown_profile
  let ci = if has_key "CI" kept then kept else kept ++ record { key = "CI"; value = "1" } ∷ []
  returns (set_variable "OMARCHY_YOLO" "1" ci)
