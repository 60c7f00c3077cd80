-- ===== src/Config/Fields.antt =====
-- The readers of single settings in src/omarchy_yolo/config.py.
use omarchy_yolo.Prelude.{
  ℕ, ℤ, pos, negsuc, String, Bool, true, false, not, ◌&&◌, ◌||◌, Option, none, some, List, [], ◌∷◌,
  ◌++◌, map, ◌==◌, nat_eq, string_eq, elem, is_empty, leb, ltb, text_length, starts_with,
  contains_text, ends_with, all_chars, strip, strip_chars, if◌then◌else◌,
}
use omarchy_yolo.Prelude.Fallible.{returns, raises, refuse_if, traverse, ◌>>=◌, ◌>>◌}
use omarchy_yolo.Config.{ConfigError, Checked}
use omarchy_yolo.Config.Values.{Value, text, integer, boolean, array, table, other, values_of}

-- Python's `str` of a value that is neither a text nor a Boolean, its `int` of a text or a float,
-- and `str.lower`.
pub record Python : Type 0 where
  pub str_other : Value → String
  pub int_other : Value → Option ℤ
  pub lower : String → String

-- [A-Za-z0-9]
abbrev pub is_alnum : ℕ → Bool
is_alnum c = leb b'A' c && leb c b'Z' || leb b'a' c && leb c b'z' || leb b'0' c && leb c b'9'

-- A text of a first character and at most `rest` more.
abbrev pub matches_name : (ℕ → Bool) → (ℕ → Bool) → String → Bool
matches_name first more String.[] = false
matches_name first more (String.◌∷◌ c s) = all_chars first (String.◌∷◌ c "") && all_chars more s

-- _AGENT_NAME_RE
unfoldable pub is_agent_name : String → Bool
is_agent_name s =
    matches_name is_alnum (λ c. is_alnum c || c == b'.' || c == b'_' || c == b'-') s
    && leb (text_length s) 64

-- _BRANCH_PREFIX_RE
unfoldable pub is_branch_prefix : String → Bool
is_branch_prefix s =
    matches_name is_alnum (λ c. is_alnum c || c == b'.' || c == b'_' || c == b'/' || c == b'-') s
    && leb (text_length s) 64

-- _ENV_NAME_RE
abbrev pub is_env_start : ℕ → Bool
is_env_start c = leb b'A' c && leb c b'Z' || leb b'a' c && leb c b'z' || c == b'_'

unfoldable pub is_env_name : String → Bool
is_env_name s = matches_name is_env_start (λ c. is_alnum c || c == b'_') s

-- `git.branch_prefix` is safe: the test of `_branch_prefix`.
unfoldable pub is_safe_prefix : String → Bool
is_safe_prefix p =
    is_branch_prefix p
    && not (contains_text p "..")
    && not (contains_text p "//")
    && not (ends_with p "/" || ends_with p "." || ends_with p ".lock")
    && not (contains_text p "@{")

-- The test of `_writable_home_paths`, after the trims.
unfoldable pub is_home_path : String → Bool
is_home_path p =
    not (p == "")
    && not (p == "." || p == "..")
    && not (starts_with p "../")
    && not (contains_text p "/../")

abbrev pub is_line_break : ℕ → Bool
is_line_break c = c == 0 || c == 10 || c == 13

-- _AGENT_ROLES
abbrev pub agent_roles : List String
agent_roles = "worker" ∷ "planner" ∷ "reviewer" ∷ "integrator" ∷ []

-- `if x not in clean: clean.append(x)`, over a list
unfoldable pub dedup : List String → List String → List String
dedup clean [] = clean
dedup clean (x ∷ xs) = dedup (if elem x clean then clean else clean ++ x ∷ []) xs

-- `value if given, else default`
abbrev pub or_default : Option Value → Value → Value
or_default none d = d
or_default (some v) d = v

unfoldable pub strict_bool : Option Value → Bool → String → Checked Bool
strict_bool none default name = returns default
strict_bool (some (boolean b)) default name = returns b
strict_bool (some (text s)) default name = raises (ConfigError.not_a_bool name)
strict_bool (some (integer n)) default name = raises (ConfigError.not_a_bool name)
strict_bool (some (array vs)) default name = raises (ConfigError.not_a_bool name)
strict_bool (some (table es)) default name = raises (ConfigError.not_a_bool name)
strict_bool (some (other n)) default name = raises (ConfigError.not_a_bool name)

unfoldable pub optional_bool : Option Value → String → Checked (Option Bool)
optional_bool none name = returns none
optional_bool (some v) name = strict_bool (some v) false name >>= λ b. returns (some b)

-- `int(value)` within its bounds: the lower bounds are not negative.
abbrev pub in_range : Option ℤ → ℕ → ℕ → String → Checked ℕ
in_range none minimum maximum name = raises (ConfigError.not_an_integer name)
in_range (some (pos n)) minimum maximum name =
    refuse_if (not (leb minimum n && leb n maximum)) (ConfigError.out_of_range name) >> returns n
in_range (some (negsuc n)) minimum maximum name = raises (ConfigError.out_of_range name)

module _ (py : Python) where
  unfoldable pub str : Value → String
  str (text s) = s
  str (boolean true) = "True"
  str (boolean false) = "False"
  str (integer n) = py.str_other (integer n)
  str (array vs) = py.str_other (array vs)
  str (table es) = py.str_other (table es)
  str (other n) = py.str_other (other n)

  unfoldable pub int : Value → Option ℤ
  int (integer n) = some n
  int (boolean true) = some (pos 1)
  int (boolean false) = some (pos 0)
  int (text s) = py.int_other (text s)
  int (other n) = py.int_other (other n)
  int (array vs) = none
  int (table es) = none

  unfoldable pub tuple_str : Option Value → List String → List String
  tuple_str (some (array vs)) default = map str (values_of vs)
  tuple_str (some (text s)) default = default
  tuple_str (some (integer n)) default = default
  tuple_str (some (boolean b)) default = default
  tuple_str (some (table es)) default = default
  tuple_str (some (other n)) default = default
  tuple_str none default = default

  unfoldable pub bounded_int : Value → ℕ → ℕ → String → Checked ℕ
  bounded_int v minimum maximum name = in_range (int v) minimum maximum name

  unfoldable pub agent_name : String → String → Checked String
  agent_name raw field = do
    refuse_if (not (is_agent_name (strip raw))) (ConfigError.unsafe_agent_name field)
    returns (strip raw)

  unfoldable pub agent_names : Option Value → List String → String → Checked (List String)
  agent_names v default field = do
    refuse_if (is_empty (tuple_str v default)) (ConfigError.no_agents field)
    traverse (λ name. agent_name name field) (tuple_str v default)

  unfoldable pub branch_prefix : Value → Checked String
  branch_prefix v = do
    refuse_if (not (is_safe_prefix (strip (str v)))) ConfigError.unsafe_branch_prefix
    returns (strip (str v))

  unfoldable pub identity_value : Value → String → ℕ → Checked String
  identity_value v field maximum = do
    let identity = strip (str v)
    refuse_if (identity == "") (ConfigError.empty_identity field)
    refuse_if (not (all_chars (λ c. not (is_line_break c)) identity))
        (ConfigError.identity_line_break field)
    refuse_if (ltb maximum (text_length identity)) (ConfigError.identity_too_long field)
    returns identity

  abbrev pub home_path : String → Checked String
  home_path raw = do
    let candidate = strip_chars (λ c. c == b'/') (strip raw)
    refuse_if (not (is_home_path candidate)) ConfigError.unsafe_home_path
    returns candidate

  unfoldable pub writable_home_paths : Option Value → Checked (List String)
  writable_home_paths v = traverse home_path (tuple_str v [])

  abbrev pub env_name : String → String → Checked String
  env_name field raw = do
    refuse_if (not (is_env_name (strip raw))) (ConfigError.bad_environment_name field)
    returns (strip raw)

  unfoldable pub environment_names : Option Value → String → Checked (List String)
  environment_names v field =
      traverse (env_name field) (tuple_str v []) >>= λ names. returns (dedup [] names)

  abbrev pub role_name : String → String → Checked String
  role_name field raw = do
    let role = py.lower (strip raw)
    refuse_if (not (elem role agent_roles)) (ConfigError.bad_role field)
    returns role

  unfoldable pub roles_of : Option Value → String → Checked (List String)
  roles_of none field = returns []
  roles_of (some (array vs)) field =
      traverse (role_name field) (map str (values_of vs)) >>= λ roles. returns (dedup [] roles)
  roles_of (some (text s)) field = raises (ConfigError.roles_not_array field)
  roles_of (some (integer n)) field = raises (ConfigError.roles_not_array field)
  roles_of (some (boolean b)) field = raises (ConfigError.roles_not_array field)
  roles_of (some (table es)) field = raises (ConfigError.roles_not_array field)
  roles_of (some (other n)) field = raises (ConfigError.roles_not_array field)
