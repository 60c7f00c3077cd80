-- ===== src/Prelude/Tables.antt =====
-- The fragment of SQL that the store uses, over a table as the list of its rows in order of
-- insertion: SELECT, UPDATE and the row count of an UPDATE, each under a WHERE test.
use Prim.Native.Nat.{ℕ, ◌+◌}
use mathlib.Core.Path.{◌≡◌, refl}
use mathlib.Core.Bool.{Bool, true, false, ◌&&◌}
use mathlib.Core.Logic.{inl, inr}
use mathlib.Core.Option.{Option, none, some}
use mathlib.Core.List.{List, [], ◌∷◌, ◌++◌}
use native.Mathlib.Omega.{arith}
use omarchy_yolo.Prelude.Tests.{if◌then◌else◌, Bool-cases}
use omarchy_yolo.Prelude.Lists.{All}

module _ {ℓ} {Row : Type ℓ} where
  unfoldable pub select : (Row → Bool) → List Row → List Row
  select test [] = []
  select test (r ∷ rs) = if test r then r ∷ select test rs else select test rs

  -- `SELECT … WHERE …` with `fetchone()`
  unfoldable pub fetchone : (Row → Bool) → List Row → Option Row
  fetchone test [] = none
  fetchone test (r ∷ rs) = if test r then some r else fetchone test rs

  unfoldable pub update : (Row → Bool) → (Row → Row) → List Row → List Row
  update test f [] = []
  update test f (r ∷ rs) = (if test r then f r else r) ∷ update test f rs

  -- `cursor.rowcount` of that UPDATE
  unfoldable pub rowcount : (Row → Bool) → List Row → ℕ
  rowcount test [] = 0
  rowcount test (r ∷ rs) = (if test r then 1 else 0) + rowcount test rs

  -- An UPDATE of rows that a SELECT does not see, before or after, changes nothing for it.
  abbrev pub Unseen : (q p : Row → Bool) (f : Row → Row) → Row → Type 0
  Unseen q p f r = p r ≡ true → (q r ≡ false) × (q (f r) ≡ false)

  pub select-update-Unseen :
      (q p : Row → Bool) (f : Row → Row) (rs : List Row)
      → All (Unseen q p f) rs
      → select q (update p f rs) ≡ select q rs
  unfolding select update
  select-update-Unseen q p f [] h = refl
  select-update-Unseen q p f (r ∷ rs) h = ground (arith, h.0, select-update-Unseen q p f rs h.1)

  pub fetchone-update-Unseen :
      (q p : Row → Bool) (f : Row → Row) (rs : List Row)
      → All (Unseen q p f) rs
      → fetchone q (update p f rs) ≡ fetchone q rs
  unfolding fetchone update
  fetchone-update-Unseen q p f [] h = refl
  fetchone-update-Unseen q p f (r ∷ rs) h = ground (arith, h.0, fetchone-update-Unseen q p f rs h.1)

  pub select-append_unseen :
      (q : Row → Bool) (rs : List Row) (r : Row)
      → q r ≡ false
      → select q (rs ++ r ∷ []) ≡ select q rs
  unfolding select
  select-append_unseen q [] r h = rw h
  select-append_unseen q (x ∷ rs) r h = rw (select-append_unseen q rs r h)

  pub fetchone-append_unseen :
      (q : Row → Bool) (rs : List Row) (r : Row)
      → q r ≡ false
      → fetchone q (rs ++ r ∷ []) ≡ fetchone q rs
  unfolding fetchone
  fetchone-append_unseen q [] r h = rw h
  fetchone-append_unseen q (x ∷ rs) r h = rw (fetchone-append_unseen q rs r h)

  -- A row that `fetchone` returns passes the test.
  pub fetchone-test :
      (q : Row → Bool) (rs : List Row) {r : Row} → fetchone q rs ≡ some r → q r ≡ true
  unfolding fetchone
  fetchone-test q [] e = cc
  fetchone-test q (x ∷ rs) e = elim (Bool-cases (q x)) [
    | inl hit ↦ ground arith
    | inr miss ↦ fetchone-test q rs (rw miss at e)
  ]

  -- Two tests on one row: those rows of the second that pass the first.
  pub select-select :
      (p q : Row → Bool) (rs : List Row) → select p (select q rs) ≡ select (λ r. q r && p r) rs
  unfolding select
  select-select p q [] = refl
  select-select p q (r ∷ rs) = ground (arith, select-select p q rs)
