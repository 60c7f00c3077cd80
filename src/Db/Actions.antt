-- ===== src/Db/Actions.antt =====
-- Methods that read and write the database and may raise. What was written before a raise stays
-- written, so the database comes back beside the exception; `transaction` is what undoes it.
use omarchy_yolo.Prelude.{
  Bool, Option, none, some, List, [], ◌∷◌, Result, ok, err, Error, if◌then◌else◌,
}
use omarchy_yolo.Db.Rows.{Database}

abbrev pub Action : Type 0 → Type 0
Action A = Database → Result A × Database

module _ {A : Type 0} where
  unfoldable pub pure : A → Action A
  pure a db = (ok a, db)

  unfoldable pub raise : Error → Action A
  raise e db = (err e, db)

  -- A SELECT.
  unfoldable pub gets : (Database → A) → Action A
  gets f db = (ok (f db), db)

  -- A SELECT whose row has to be there: `if row is None: raise e`.
  unfoldable pub get_row : (Database → Option A) → Error → Action A
  get_row f e db = (elim (f db) [ none ↦ err e | some a ↦ ok a ], db)

  -- A check by a function of the state machine.
  unfoldable pub lift : Result A → Action A
  lift r db = (r, db)

-- An UPDATE or INSERT.
unfoldable pub modify : (Database → Database) → Action (Unit {0})
modify f db = (ok tt, f db)

-- `if test: raise e`
unfoldable pub raise_when : Bool → Error → Action (Unit {0})
raise_when test e db = (if test then err e else ok tt, db)

-- `if test: statements`
unfoldable pub when : Bool → Action (Unit {0}) → Action (Unit {0})
when test m db = if test then m db else (ok tt, db)

module _ {A B : Type 0} where
  abbrev pub continue : Result A → (A → Action B) → Action B
  continue (ok a) f db = f a db
  continue (err e) f db = (err e, db)

  infixl 5 ◌>>=◌ ◌>>◌
  -- Opening this opens the actions above too.
  unfoldable pub ◌>>=◌ : Action A → (A → Action B) → Action B
  unfolding pure raise gets get_row lift modify raise_when when
  ◌>>=◌ m f db = let (r, db') = m db in continue r f db'

  abbrev pub ◌>>◌ : Action A → Action B → Action B
  m >> n = m >>= λ _. n

-- `for x in xs: f(x)`
unfoldable pub for_each {ℓ} : {X : Type ℓ} → List X → (X → Action (Unit {0})) → Action (Unit {0})
for_each [] f = pure tt
for_each (x ∷ xs) f = f x >> for_each xs f

-- BEGIN IMMEDIATE … COMMIT, and on an exception ROLLBACK and raise.
unfoldable pub transaction : {A : Type 0} → Action A → Action A
transaction m db = let (r, after) = m db in elim r [ ok a ↦ (ok a, after) | err e ↦ (err e, db) ]
