-- ===== src/ReviewSource/Lossless.antt =====
-- The pieces lose nothing and keep the bound.
use omarchy_yolo.Prelude.{
  ℕ, ◌+◌, ◌≤◌, ◌≡◌, refl, sym, ap, ◌∙◌, false, not, ◌&&◌, List, [], ◌∷◌, ◌++◌, is_empty, leb, ltb,
  arith, All, All-append, Bool-cases, ok, inl, inr,
}
use omarchy_yolo.ReviewSource.{
  text_bytes, join, Split, flush, fragments, add_line, add_lines, or_empty, split_text,
}
use omarchy_yolo.ReviewSource.Fragments.{
  ++-assoc, ++-nil, join-snoc, bytes-append, join-fragments, fragments-fit,
}

-- What the loop has taken so far: the pieces are within the bound, and so are the lines held back.
record IsWithin (max_bytes : ℕ) (s : Split) : Type 0 where
  pub pieces_fit : All (λ p. text_bytes p ≤ max_bytes) s.pieces
  pub counted : s.current_bytes ≡ text_bytes (join s.current)
  pub current_fits : s.current_bytes ≤ max_bytes

abbrev taken : Split → List ℕ
taken s = join s.pieces ++ join s.current

flush-taken : (s : Split) → taken (flush s) ≡ taken s
unfolding flush join
flush-taken s = go s.current
  where
    go :
        (current : List (List ℕ))
        → taken (flush (record s { current = current })) ≡ join s.pieces ++ join current
    go [] = refl
    go (l ∷ ls) =
        ++-nil (join (s.pieces ++ join (l ∷ ls) ∷ [])) ∙ join-snoc s.pieces (join (l ∷ ls))

flush-IsWithin : (max_bytes : ℕ) (s : Split) → IsWithin max_bytes s → IsWithin max_bytes (flush s)
unfolding flush join text_bytes
flush-IsWithin max_bytes s w = elim (Bool-cases (is_empty s.current)) [
  | inl none_held ↦ rw none_held w
  | inr some_held ↦ rw some_held (record {
    pieces_fit =
        All-append (λ p. text_bytes p ≤ max_bytes) s.pieces (join s.current ∷ []) w.pieces_fit
          (omega (arith, w.counted, w.current_fits), tt);
    counted = refl;
    current_fits = omega arith;
  })
]

flush-current : (s : Split) → (flush s).current ≡ []
unfolding flush
flush-current s = go s.current
  where
    go : (current : List (List ℕ)) → (flush (record s { current = current })).current ≡ []
    go [] = refl
    go (l ∷ ls) = refl

held-taken :
    (r : Split) (line : List ℕ) → join r.pieces ++ join (r.current ++ line ∷ []) ≡ taken r ++ line
held-taken r line =
    rw (join-snoc r.current line) (sym (++-assoc (join r.pieces) (join r.current) line))

cut-taken :
    (max_bytes : ℕ) (line : List ℕ) (s : Split)
    → join (fragments max_bytes line (flush s).pieces [] 0) ++ join (flush s).current
      ≡ taken s ++ line
unfolding join
cut-taken max_bytes line s =
    let flushed : join (flush s).pieces ≡ taken s =
      rw (sym (flush-taken s), flush-current s) (sym (++-nil (join (flush s).pieces))) in
    rw (flush-current s) (
      ++-nil (join (fragments max_bytes line (flush s).pieces [] 0))
      ∙ join-fragments max_bytes line (flush s).pieces [] 0
      ∙ ap (λ t. t ++ line) flushed)

add_line-taken :
    (max_bytes : ℕ) (line : List ℕ) (s : Split)
    → taken (add_line max_bytes line s) ≡ taken s ++ line
unfolding add_line
add_line-taken max_bytes line s = elim (Bool-cases (leb (text_bytes line) max_bytes)) [
  | inr long ↦ rw long (cut-taken max_bytes line s)
  | inl short ↦
      elim (Bool-cases
        (not (is_empty s.current) && ltb max_bytes (s.current_bytes + text_bytes line))) [
          | inl full ↦
              rw (short, full) (held-taken (flush s) line ∙ ap (λ t. t ++ line) (flush-taken s))
          | inr room ↦ rw (short, room) (held-taken s line)
        ]
]

-- Room for a line: nothing is held back, or the sum fits.
IsWithin-hold :
    (max_bytes : ℕ) (line : List ℕ) (r : Split)
    → IsWithin max_bytes r
    → r.current_bytes + text_bytes line ≤ max_bytes
    → IsWithin max_bytes (record r {
      current = r.current ++ line ∷ [];
      current_bytes = r.current_bytes + text_bytes line;
    })
IsWithin-hold max_bytes line r w fits = record {
  pieces_fit = w.pieces_fit;
  counted =
      rw (join-snoc r.current line) (omega (arith, bytes-append (join r.current) line, w.counted));
  current_fits = fits;
}

room_fits :
    (max_bytes : ℕ) (line : List ℕ) (s : Split)
    → IsWithin max_bytes s
    → text_bytes line ≤ max_bytes
    → (not (is_empty s.current) && ltb max_bytes (s.current_bytes + text_bytes line)) ≡ false
    → s.current_bytes + text_bytes line ≤ max_bytes
unfolding join text_bytes
room_fits max_bytes line s w short room = go s.current w.counted room
  where
    go :
        (current : List (List ℕ))
        → s.current_bytes ≡ text_bytes (join current)
        → (not (is_empty current) && ltb max_bytes (s.current_bytes + text_bytes line)) ≡ false
        → s.current_bytes + text_bytes line ≤ max_bytes
    go [] c room = omega arith
    go (l ∷ ls) c room = ground arith

add_line-IsWithin :
    (max_bytes : ℕ) (line : List ℕ) (s : Split)
    → 4 ≤ max_bytes
    → IsWithin max_bytes s
    → IsWithin max_bytes (add_line max_bytes line s)
unfolding add_line join text_bytes
add_line-IsWithin max_bytes line s four w =
    let f = flush-IsWithin max_bytes s w in
    let empty_bytes : (flush s).current_bytes ≡ 0 = rw (f.counted, flush-current s) refl in
    elim (Bool-cases (leb (text_bytes line) max_bytes)) [
      | inr long ↦ rw long (record {
        pieces_fit =
            fragments-fit max_bytes line (flush s).pieces [] 0 four f.pieces_fit refl (omega arith);
        counted = f.counted;
        current_fits = f.current_fits;
      })
      | inl short ↦
          let fits : text_bytes line ≤ max_bytes = ground arith in
          elim (Bool-cases
            (not (is_empty s.current) && ltb max_bytes (s.current_bytes + text_bytes line))) [
              | inl full ↦ rw (short, full) (IsWithin-hold max_bytes line (flush s) f (omega arith))
              | inr room ↦
                  rw (short, room)
                    (IsWithin-hold max_bytes line s w (room_fits max_bytes line s w fits room))
            ]
    ]

add_lines-taken :
    (max_bytes : ℕ) (ls : List (List ℕ)) (s : Split)
    → taken (add_lines max_bytes ls s) ≡ taken s ++ join ls
unfolding add_lines join
add_lines-taken max_bytes [] s = sym (++-nil (taken s))
add_lines-taken max_bytes (l ∷ ls) s =
    add_lines-taken max_bytes ls (add_line max_bytes l s)
    ∙ rw (add_line-taken max_bytes l s) (++-assoc (taken s) l (join ls))

add_lines-IsWithin :
    (max_bytes : ℕ) (ls : List (List ℕ)) (s : Split)
    → 4 ≤ max_bytes
    → IsWithin max_bytes s
    → IsWithin max_bytes (add_lines max_bytes ls s)
unfolding add_lines
add_lines-IsWithin max_bytes [] s four w = w
add_lines-IsWithin max_bytes (l ∷ ls) s four w =
    add_lines-IsWithin max_bytes ls (add_line max_bytes l s) four
      (add_line-IsWithin max_bytes l s four w)

join-or_empty : (ps : List (List ℕ)) → join (or_empty ps) ≡ join ps
unfolding join
join-or_empty [] = refl
join-or_empty (p ∷ ps) = refl

or_empty-fit :
    (max_bytes : ℕ) (ps : List (List ℕ))
    → All (λ p. text_bytes p ≤ max_bytes) ps
    → All (λ p. text_bytes p ≤ max_bytes) (or_empty ps)
unfolding text_bytes
or_empty-fit max_bytes [] h = (omega arith, tt)
or_empty-fit max_bytes (p ∷ ps) h = h

-- With room for any character in a piece, that is for 4 bytes, `_split_text` returns pieces that
-- join to the lines of the text, with nothing lost, added or moved, and each of at most `max_bytes`
-- bytes in UTF-8.
pub split_text-lossless :
    (max_bytes : ℕ) (lines : List (List ℕ))
    → 4 ≤ max_bytes
    → (pieces : List (List ℕ)) × (split_text max_bytes lines ≡ ok pieces)
      × (join pieces ≡ join lines)
      × All (λ p. text_bytes p ≤ max_bytes) pieces
unfolding split_text join text_bytes
split_text-lossless max_bytes lines four =
    let start : Split = record { pieces = []; current = []; current_bytes = 0 } in
    let done = add_lines max_bytes lines start in
    let within =
      add_lines-IsWithin max_bytes lines start four
        (record { pieces_fit = tt; counted = refl; current_fits = omega arith }) in
    let all_taken : join (flush done).pieces ≡ join lines =
      sym (++-nil (join (flush done).pieces))
      ∙ sym (rw (flush-current done) refl)
      ∙ flush-taken done
      ∙ add_lines-taken max_bytes lines start in
    (
      or_empty (flush done).pieces,
      ground arith,
      join-or_empty (flush done).pieces ∙ all_taken,
      or_empty-fit max_bytes (flush done).pieces (flush-IsWithin max_bytes done within).pieces_fit,
    )
