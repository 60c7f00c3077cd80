-- ===== src/Tests/Splits.antt =====
-- A text with a long line, in pieces of at most 4 bytes.
use omarchy_yolo.Prelude.{ℕ, ◌≤◌, ◌≡◌, refl, List, [], ◌∷◌, arith, All, ok}
use omarchy_yolo.ReviewSource.{
  char_bytes, text_bytes, join, flush, fragments, add_line, add_lines, split_text,
}
use omarchy_yolo.ReviewSource.Lossless.{split_text-lossless}

abbrev two_lines : List (List ℕ)
two_lines = (97 ∷ 10 ∷ []) ∷ (8364 ∷ 98 ∷ 8364 ∷ 10 ∷ []) ∷ []

two_lines_split :
    split_text 4 two_lines ≡ ok ((97 ∷ 10 ∷ []) ∷ (8364 ∷ 98 ∷ []) ∷ (8364 ∷ 10 ∷ []) ∷ [])
unfolding char_bytes text_bytes join flush fragments add_line add_lines split_text
two_lines_split = refl

split_text-lossless_example :
    (pieces : List (List ℕ)) × (split_text 4 two_lines ≡ ok pieces)
    × (join pieces ≡ join two_lines)
    × All (λ p. text_bytes p ≤ 4) pieces
split_text-lossless_example = split_text-lossless 4 two_lines (omega arith)
