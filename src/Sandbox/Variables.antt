-- ===== src/Sandbox/Variables.antt =====
-- Lists of variables of src/omarchy_yolo/sandbox.py: what is selected of them, and what is set.
use omarchy_yolo.Prelude.{
  String, ◌≡◌, sym, ap, ◌∙◌, ◌⊎◌, inl, inr, refl, Bool, true, false, ◌||◌, List, [], ◌∷◌, ◌++◌,
  arith, ◌==◌, string_eq, ==-refl, eq_of_==, elem, All, All-map_of, IsMember, if◌then◌else◌,
  Bool-cases, Option, none, some,
}
use omarchy_yolo.Prelude.Tables.{select}
use omarchy_yolo.Sandbox.{Variable, has_key, set_variable}

-- `env[key]`
abbrev pub value_of : String → List Variable → Option String
value_of k [] = none
value_of k (v ∷ vs) = if v.key == k then some v.value else value_of k vs

pub elem-append : (x : String) (xs ys : List String) → elem x (xs ++ ys) ≡ (elem x xs || elem x ys)
elem-append x [] ys = refl
elem-append x (y ∷ xs) ys = let rest = elem-append x xs ys in ground (arith, rest)

module _ (p : Variable → Bool) where
  pub select-own : (vs : List Variable) → All (λ v. (p v ≡ true) × IsMember v vs) (select p vs)
  unfolding select
  select-own [] = tt
  select-own (v ∷ vs) = go (p v) refl (
      All-map_of (λ w. (p w ≡ true) × IsMember w vs) (λ w. (p w ≡ true) × IsMember w (v ∷ vs))
        (select p vs) (λ w m. (m.0, inr m.1)) (select-own vs))
    where
      go :
          (b : Bool)
          → p v ≡ b
          → All (λ w. (p w ≡ true) × IsMember w (v ∷ vs)) (select p vs)
          → All
              (λ w. (p w ≡ true) × IsMember w (v ∷ vs))
              (if b then v ∷ select p vs else select p vs)
      go true e rest = ((e, inl refl), rest)
      go false e rest = rest

  pub select-kept : (vs : List Variable) → All (λ v. (p v ≡ false) ⊎ IsMember v (select p vs)) vs
  unfolding select
  select-kept [] = tt
  select-kept (v ∷ vs) = go (p v) refl (select-kept vs)
    where
      go :
          (b : Bool)
          → p v ≡ b
          → All (λ w. (p w ≡ false) ⊎ IsMember w (select p vs)) vs
          → let kept = if b then v ∷ select p vs else select p vs in
            ((p v ≡ false) ⊎ IsMember v kept) × All (λ w. (p w ≡ false) ⊎ IsMember w kept) vs
      go true e rest = (
        inr (inl refl),
        All-map_of (λ w. (p w ≡ false) ⊎ IsMember w (select p vs))
            (λ w. (p w ≡ false) ⊎ IsMember w (v ∷ select p vs)) vs
            (λ w m. elim m [ inl out ↦ inl out | inr k ↦ inr (inr k) ]) rest,
      )
      go false e rest = (inl e, rest)

module _ (k value : String) where
  pub set_variable-All :
      (P : Variable → Type 0) (vs : List Variable)
      → P (record { key = k; value = value })
      → All P vs
      → All P (set_variable k value vs)
  unfolding set_variable
  set_variable-All P [] new h = (new, tt)
  set_variable-All P (v ∷ vs) new h = elim (Bool-cases (v.key == k)) [
    | inl e ↦ rw e (new, h.1)
    | inr e ↦ rw e (h.0, set_variable-All P vs new h.1)
  ]

  pub set_variable-IsMember :
      (vs : List Variable) (v : Variable)
      → IsMember v vs
      → (v.key ≡ k) ⊎ IsMember v (set_variable k value vs)
  unfolding set_variable
  set_variable-IsMember [] v m = elim m [ ]
  set_variable-IsMember (w ∷ vs) v m = go (w.key == k) refl m (λ n. set_variable-IsMember vs v n)
    where
      go :
          (b : Bool)
          → (w.key == k) ≡ b
          → IsMember v (w ∷ vs)
          → (IsMember v vs → (v.key ≡ k) ⊎ IsMember v (set_variable k value vs))
          → (v.key ≡ k)
            ⊎ IsMember v
                (if b then record { key = k; value = value } ∷ vs else w ∷ set_variable k value vs)
      go true e (inl same) rest = inl (ap (λ x. x.key) (sym same) ∙ eq_of_== w.key k e)
      go true e (inr n) rest = inr (inr n)
      go false e (inl same) rest = inr (inl same)
      go false e (inr n) rest = elim (rest n) [ inl is_k ↦ inl is_k | inr kept ↦ inr (inr kept) ]

  pub value_of-set_variable :
      (vs : List Variable) → value_of k (set_variable k value vs) ≡ some value
  unfolding set_variable
  value_of-set_variable [] = rw (==-refl k) refl
  value_of-set_variable (v ∷ vs) = elim (Bool-cases (v.key == k)) [
    | inl e ↦ rw e (rw (==-refl k) refl)
    | inr e ↦ rw e (rw e (value_of-set_variable vs))
  ]

pub has_key-snoc :
    (k : String) (vs : List Variable) (v : Variable) → v.key ≡ k → has_key k (vs ++ v ∷ []) ≡ true
unfolding has_key
has_key-snoc k [] v e = rw e (rw (==-refl k) refl)
has_key-snoc k (w ∷ ws) v e = let rest = has_key-snoc k ws v e in ground (arith, rest)

pub has_key-set_variable :
    (k key value : String) (vs : List Variable)
    → has_key k (set_variable key value vs) ≡ (key == k || has_key k vs)
unfolding has_key set_variable
has_key-set_variable k key value [] = refl
has_key-set_variable k key value (v ∷ vs) = elim (Bool-cases (v.key == key)) [
  | inl e ↦ let same = eq_of_== v.key key e in rw e (rw same (ground arith))
  | inr e ↦ rw e (rw (has_key-set_variable k key value vs) (ground arith))
]
