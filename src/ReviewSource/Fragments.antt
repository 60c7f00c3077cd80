-- ===== src/ReviewSource/Fragments.antt =====
-- The fragments of a line that is too long.
use omarchy_yolo.Prelude.{
  ℕ, ◌+◌, ◌≤◌, ◌≡◌, refl, sym, ◌∙◌, false, not, ◌&&◌, List, [], ◌∷◌, ◌++◌, is_empty, ltb, arith,
  All, All-append, Bool-cases, inl, inr,
}
use omarchy_yolo.ReviewSource.{char_bytes, text_bytes, join, fragments}

pub ++-assoc : (xs ys zs : List ℕ) → (xs ++ ys) ++ zs ≡ xs ++ (ys ++ zs)
++-assoc [] ys zs = refl
++-assoc (x ∷ xs) ys zs = rw (++-assoc xs ys zs) refl

pub ++-nil : (xs : List ℕ) → xs ++ [] ≡ xs
++-nil [] = refl
++-nil (x ∷ xs) = rw (++-nil xs) refl

pub join-snoc : (ts : List (List ℕ)) (t : List ℕ) → join (ts ++ t ∷ []) ≡ join ts ++ t
unfolding join
join-snoc [] t = ++-nil t
join-snoc (s ∷ ts) t = rw (join-snoc ts t) (sym (++-assoc s (join ts) t))

pub bytes-append : (xs ys : List ℕ) → text_bytes (xs ++ ys) ≡ text_bytes xs + text_bytes ys
unfolding text_bytes
bytes-append [] ys = omega arith
bytes-append (x ∷ xs) ys = omega (arith, bytes-append xs ys)

char-bound : (c : ℕ) → char_bytes c ≤ 4
unfolding char_bytes
char-bound c = ground arith

pub join-fragments :
    (max_bytes : ℕ) (cs : List ℕ) (pieces : List (List ℕ)) (fragment : List ℕ) (bytes : ℕ)
    → join (fragments max_bytes cs pieces fragment bytes) ≡ join pieces ++ (fragment ++ cs)
unfolding fragments join
join-fragments max_bytes [] pieces [] bytes = sym (++-nil (join pieces))
join-fragments max_bytes [] pieces (f ∷ fs) bytes = rw (++-nil fs) (join-snoc pieces (f ∷ fs))
join-fragments max_bytes (c ∷ cs) pieces fragment bytes =
    elim (Bool-cases (not (is_empty fragment) && ltb max_bytes (bytes + char_bytes c))) [
      | inl cut ↦ rw cut (
          join-fragments max_bytes cs (pieces ++ fragment ∷ []) (c ∷ []) (char_bytes c)
          ∙ rw (join-snoc pieces fragment) (++-assoc (join pieces) fragment (c ∷ cs)))
      | inr keep ↦ rw keep (
          join-fragments max_bytes cs pieces (fragment ++ c ∷ []) (bytes + char_bytes c)
          ∙ rw (++-assoc fragment (c ∷ []) cs) refl)
    ]

-- A fragment that is not cut has room for the character: it is empty, or the sum fits.
kept_fits :
    (max_bytes c bytes : ℕ) (fragment : List ℕ)
    → 4 ≤ max_bytes
    → bytes ≡ text_bytes fragment
    → (not (is_empty fragment) && ltb max_bytes (bytes + char_bytes c)) ≡ false
    → bytes + char_bytes c ≤ max_bytes
unfolding text_bytes
kept_fits max_bytes c bytes [] four same keep = omega (arith, char-bound c)
kept_fits max_bytes c bytes (f ∷ fs) four same keep = ground arith

pub fragments-fit :
    (max_bytes : ℕ) (cs : List ℕ) (pieces : List (List ℕ)) (fragment : List ℕ) (bytes : ℕ)
    → 4 ≤ max_bytes
    → All (λ p. text_bytes p ≤ max_bytes) pieces
    → bytes ≡ text_bytes fragment
    → bytes ≤ max_bytes
    → All (λ p. text_bytes p ≤ max_bytes) (fragments max_bytes cs pieces fragment bytes)
unfolding fragments text_bytes
fragments-fit max_bytes [] pieces [] bytes four fit same small = fit
fragments-fit max_bytes [] pieces (f ∷ fs) bytes four fit same small =
    All-append (λ p. text_bytes p ≤ max_bytes) pieces ((f ∷ fs) ∷ []) fit (omega arith, tt)
fragments-fit max_bytes (c ∷ cs) pieces fragment bytes four fit same small =
    elim (Bool-cases (not (is_empty fragment) && ltb max_bytes (bytes + char_bytes c))) [
      | inl cut ↦ rw cut (
          fragments-fit max_bytes cs (pieces ++ fragment ∷ []) (c ∷ []) (char_bytes c) four
            (All-append (λ p. text_bytes p ≤ max_bytes) pieces (fragment ∷ []) fit
              (omega arith, tt))
            (omega arith) (omega (arith, char-bound c)))
      | inr keep ↦ rw keep (
          fragments-fit max_bytes cs pieces (fragment ++ c ∷ []) (bytes + char_bytes c) four fit
            (omega (arith, bytes-append fragment (c ∷ [])))
            (kept_fits max_bytes c bytes fragment four same keep))
    ]
