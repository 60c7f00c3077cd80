-- ===== src/Prelude/Texts.antt =====
-- Texts: slices by characters, and the tests and trims of Python's str that the source uses.
use Prim.Native.Nat.{ℕ, zero, suc, ◌-◌}
use Prim.Native.String.{String}
use Prim.Native.Char.{code}
use mathlib.Core.Bool.{Bool, true, false, ◌&&◌, ◌||◌}
use omarchy_yolo.Prelude.Tests.{leb, nat_beq, if◌then◌else◌}

abbrev pub text_length : String → ℕ
text_length String.[] = 0
text_length (String.◌∷◌ c s) = suc (text_length s)

-- `s[n:]`
abbrev pub drop_text : ℕ → String → String
drop_text zero s = s
drop_text (suc n) String.[] = ""
drop_text (suc n) (String.◌∷◌ c s) = drop_text n s

-- `s[:n]`
abbrev pub take_text : ℕ → String → String
take_text zero s = ""
take_text (suc n) String.[] = ""
take_text (suc n) (String.◌∷◌ c s) = String.◌∷◌ c (take_text n s)

-- `s[-n:]`, for a positive n
unfoldable pub last_text : ℕ → String → String
last_text n s = drop_text (text_length s - n) s

-- `s + t`
unfoldable pub append_text : String → String → String
append_text String.[] t = t
append_text (String.◌∷◌ c s) t = String.◌∷◌ c (append_text s t)

-- `s.startswith(t)`
unfoldable pub starts_with : String → String → Bool
starts_with s String.[] = true
starts_with String.[] (String.◌∷◌ d t) = false
starts_with (String.◌∷◌ c s) (String.◌∷◌ d t) = nat_beq (code c) (code d) && starts_with s t

-- `t in s`
unfoldable pub contains_text : String → String → Bool
contains_text String.[] t = starts_with "" t
contains_text (String.◌∷◌ c s) t =
    let rest = contains_text s t in starts_with (String.◌∷◌ c s) t || rest

-- `s.endswith(t)`
unfoldable pub ends_with : String → String → Bool
ends_with s t =
    leb (text_length t) (text_length s)
    && starts_with (drop_text (text_length s - text_length t) s) t

-- Every character satisfies the test.
unfoldable pub all_chars : (ℕ → Bool) → String → Bool
all_chars p String.[] = true
all_chars p (String.◌∷◌ c s) = p (code c) && all_chars p s

-- `str.isspace`: the white space of Unicode, by code points.
unfoldable pub is_space : ℕ → Bool
is_space c =
    leb 9 c && leb c 13
    || leb 28 c && leb c 32
    || nat_beq c 0x85
    || nat_beq c 0xa0
    || nat_beq c 0x1680
    || leb 0x2000 c && leb c 0x200a
    || nat_beq c 0x2028
    || nat_beq c 0x2029
    || nat_beq c 0x202f
    || nat_beq c 0x205f
    || nat_beq c 0x3000

-- `s.lstrip(chars)` and `s.rstrip(chars)`, for the characters that satisfy a test.
unfoldable pub lstrip : (ℕ → Bool) → String → String
lstrip p String.[] = ""
lstrip p (String.◌∷◌ c s) = let rest = lstrip p s in if p (code c) then rest else String.◌∷◌ c s

unfoldable pub rstrip : (ℕ → Bool) → String → String
rstrip p String.[] = ""
rstrip p (String.◌∷◌ c s) =
    let rest = rstrip p s in
    if p (code c) && nat_beq (text_length rest) 0 then "" else String.◌∷◌ c rest

unfoldable pub strip_chars : (ℕ → Bool) → String → String
strip_chars p s = rstrip p (lstrip p s)

-- `s.strip()`
unfoldable pub strip : String → String
strip s = strip_chars is_space s
