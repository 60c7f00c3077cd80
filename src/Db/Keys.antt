-- ===== src/Db/Keys.antt =====
-- Primary keys: no two rows of a table have the same id.
use omarchy_yolo.Prelude.{
  String, ◌≡◌, refl, subst, Bool, true, false, ◌||◌, some, List, [], ◌∷◌, ◌++◌, map, arith, ◌==◌,
  string_eq, eq_of_==, ==-comm, elem, distinct, any, All, Bool-cases, inl, inr,
}
use omarchy_yolo.Prelude.Tables.{fetchone, update}
use omarchy_yolo.Db.Rows.{Database}

pub record IsKeyed (db : Database) : Type 0 where
  pub jobs_keyed : distinct (map (λ j. j.id) db.jobs) ≡ true
  pub tasks_keyed : distinct (map (λ t. t.id) db.tasks) ≡ true
  pub attempts_keyed : distinct (map (λ a. a.id) db.attempts) ≡ true

module _ {Row : Type 0} (key : Row → String) where
  pub map-update_key :
      (test : Row → Bool) (f : Row → Row) (rs : List Row)
      → ((r : Row) → key (f r) ≡ key r)
      → map key (update test f rs) ≡ map key rs
  unfolding update
  map-update_key test f [] h = refl
  map-update_key test f (r ∷ rs) h = elim (Bool-cases (test r)) [
    | inl e ↦ rw (e, h r, map-update_key test f rs h)
    | inr e ↦ rw (e, map-update_key test f rs h)
  ]

  pub elem-snoc :
      (x : String) (rs : List Row) (row : Row)
      → elem x (map key (rs ++ row ∷ [])) ≡ (elem x (map key rs) || key row == x)
  elem-snoc x [] row = ground arith
  elem-snoc x (r ∷ rs) row = ground (arith, elem-snoc x rs row)

  pub distinct-snoc :
      (rs : List Row) (row : Row)
      → distinct (map key rs) ≡ true
      → any (λ r. key r == key row) rs ≡ false
      → distinct (map key (rs ++ row ∷ [])) ≡ true
  distinct-snoc [] row h n = refl
  distinct-snoc (r ∷ rs) row h n =
      ground (arith, elem-snoc (key r) rs row, distinct-snoc rs row, ==-comm (key r) (key row))

  -- A row with an id that some other row before has is no row of a keyed table.
  later_differs :
      (x : String) (rs : List Row)
      → elem x (map key rs) ≡ false
      → (r0 : Row) → All (λ r. (key r == x) ≡ true → r ≡ r0) rs
  later_differs x [] h r0 = tt
  later_differs x (r ∷ rs) h r0 = (λ e. ground arith, later_differs x rs (ground arith) r0)

  -- The row that a SELECT by id returns is the only one that has this id.
  pub fetchone_only :
      (x : String) (rs : List Row) (r0 : Row)
      → distinct (map key rs) ≡ true
      → fetchone (λ r. key r == x) rs ≡ some r0
      → All (λ r. (key r == x) ≡ true → r ≡ r0) rs
  unfolding fetchone
  fetchone_only x [] r0 d e = tt
  fetchone_only x (r ∷ rs) r0 d e = elim (Bool-cases (key r == x)) [
    | inl hit ↦ (
      λ _. ground arith,
      later_differs x rs
          (subst (λ y. elem y (map key rs) ≡ false) (eq_of_== (key r) x hit) (ground arith)) r0,
    )
    | inr miss ↦ (λ hit. cc, fetchone_only x rs r0 (ground arith) (ground arith))
  ]
