-- ===== src/ReviewSource.antt =====
-- src/omarchy_yolo/review_source.py: `_split_text`. A text is the list of its code points, and the
-- function takes the lines that `text.splitlines(keepends=True)` yields, whose join is the text.
pub mod Fragments
pub mod Lossless
use omarchy_yolo.Prelude.{
  ℕ, ◌+◌, Bool, true, false, not, ◌&&◌, List, [], ◌∷◌, ◌++◌, is_empty, leb, ltb, Eq, ◌==◌, nat_eq,
  if◌then◌else◌, Result, ok, err, Error,
}

-- The length of a code point in UTF-8.
unfoldable pub char_bytes : ℕ → ℕ
char_bytes c = if ltb c 128 then 1 else if ltb c 2048 then 2 else if ltb c 65536 then 3 else 4

-- `len(text.encode("utf-8"))`
unfoldable pub text_bytes : List ℕ → ℕ
text_bytes [] = 0
text_bytes (c ∷ cs) = char_bytes c + text_bytes cs

-- `"".join(texts)`
unfoldable pub join : List (List ℕ) → List ℕ
join [] = []
join (t ∷ ts) = t ++ join ts

-- The variables of the loop.
pub record Split : Type 0 where
  pub pieces : List (List ℕ)
  pub current : List (List ℕ)
  pub current_bytes : ℕ

unfoldable pub flush : Split → Split
flush s =
    if is_empty s.current
    then s
    else record { pieces = s.pieces ++ join s.current ∷ []; current = []; current_bytes = 0 }

-- The loop over the characters of a long line, and the last fragment.
unfoldable pub fragments : ℕ → List ℕ → List (List ℕ) → List ℕ → ℕ → List (List ℕ)
fragments max_bytes [] pieces fragment fragment_bytes =
    if is_empty fragment then pieces else pieces ++ fragment ∷ []
fragments max_bytes (c ∷ cs) pieces fragment fragment_bytes =
    let size = char_bytes c in
    let fresh = fragments max_bytes cs (pieces ++ fragment ∷ []) (c ∷ []) size in
    let longer = fragments max_bytes cs pieces (fragment ++ c ∷ []) (fragment_bytes + size) in
    if not (is_empty fragment) && ltb max_bytes (fragment_bytes + size) then fresh else longer

unfoldable pub add_line : ℕ → List ℕ → Split → Split
add_line max_bytes line s =
    let full = not (is_empty s.current) && ltb max_bytes (s.current_bytes + text_bytes line) in
    let room = if full then flush s else s in
    let flushed = flush s in
    if leb (text_bytes line) max_bytes
    then record room {
      current = room.current ++ line ∷ [];
      current_bytes = room.current_bytes + text_bytes line;
    }
    else record flushed { pieces = fragments max_bytes line flushed.pieces [] 0 }

unfoldable pub add_lines : ℕ → List (List ℕ) → Split → Split
add_lines max_bytes [] s = s
add_lines max_bytes (l ∷ ls) s = add_lines max_bytes ls (add_line max_bytes l s)

abbrev pub or_empty : List (List ℕ) → List (List ℕ)
or_empty [] = [] ∷ []
or_empty (p ∷ ps) = p ∷ ps

unfoldable pub split_text : ℕ → List (List ℕ) → Result (List (List ℕ))
split_text max_bytes lines =
    if ltb max_bytes 1
    then err Error.value_error
    else ok (
        or_empty
          (flush (
            add_lines max_bytes lines
              (record { pieces = []; current = []; current_bytes = 0 }))).pieces)
