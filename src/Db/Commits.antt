-- ===== src/Db/Commits.antt =====
-- Every job of the database is valid, and the rules by which a transaction keeps that.
use omarchy_yolo.Prelude.{
  String, ◌≡◌, refl, sym, subst, ◌∙◌, Bool, true, false, Option, none, some, List, [], ◌∷◌, arith,
  ◌==◌, string_eq, elem, if◌then◌else◌, Bool-cases, inl, inr, Result, ok, err, Error, eq_of_==,
}
use omarchy_yolo.Db.Rows.{Database}
use omarchy_yolo.Db.Actions.{
  Action, pure, raise, get_row, when, continue, for_each, transaction, ◌>>=◌,
}
use omarchy_yolo.Db.Core.{validate_snapshot_locked}
use omarchy_yolo.Db.Keys.{IsKeyed}
use omarchy_yolo.Db.Views.{IsValidJob}
use omarchy_yolo.Db.Frames.{
  Frame, Frame-refl, Frame-trans, Fact, always, Touches, Touches-Reads, Reads, Reads-pure,
  Reads-for_each, Reads-validate, reads_rules,
}

-- The invariant of the store.
pub record IsConsistent (db : Database) : Type 0 where
  pub keyed : IsKeyed db
  pub valid : (j : String) → IsValidJob j db

-- An action that ends with the validation of the jobs that it touches.
pub record Checks (ks : List String) (I : Fact) {A : Type 0} (m : Action A) : Type 0 where
  pub at :
      (db : Database) (a : A)
      → I db.tasks db.attempts
      → (m db).0 ≡ ok a
      → Frame ks db (m db).1 × ((j : String) → elem j ks ≡ true → IsValidJob j (m db).1)

validate-IsValid :
    (j : String) (db : Database) {u : Unit {0}}
    → (validate_snapshot_locked j db).0 ≡ ok u
    → IsValidJob j db
unfolding validate_snapshot_locked ◌>>=◌
validate-IsValid j db h s e = ground arith

pub Checks-validate : {I : Fact} (j : String) → Checks (j ∷ []) I (validate_snapshot_locked j)
Checks-validate j = record {
  at = λ db a h e. (
    rw ((Reads-validate j).at db) (Frame-refl (j ∷ []) db),
    λ k within.
        rw ((Reads-validate j).at db)
          (subst (λ x. IsValidJob x db) (eq_of_== j k (ground arith)) (validate-IsValid j db e)),
  );
}

module _ {ks : List String} {I : Fact} where
  pub Checks-raise : {A : Type 0} (e : Error) → Checks ks I (raise {A = A} e)
  unfolding raise
  Checks-raise e = record { at = λ db a h p. cc }

  Checks-continue :
      {A B : Type 0} (r : Result A) (f : A → Action B)
      → ((a : A) → Checks ks I (f a))
      → Checks ks I (continue r f)
  Checks-continue (ok a) f c = record { at = (c a).at }
  Checks-continue (err e) f c = record { at = λ db b h p. cc }

  pub Checks-bind :
      {A B : Type 0} (m : Action A) (f : A → Action B)
      → Touches ks I m
      → ((a : A) → Checks ks I (f a))
      → Checks ks I (m >>= f)
  unfolding ◌>>=◌
  Checks-bind m f tm cf = record {
    at = λ db b h p.
        let (frame, h') = tm.at db h in
        let rest = (Checks-continue (m db).0 f cf).at (m db).1 b h' p in
        (Frame-trans frame rest.0, rest.1);
  }

  pub Checks-Reads :
      {A B : Type 0} (m : Action A) (f : A → Action B)
      → Reads m
      → ((a : A) → Checks ks I (f a))
      → Checks ks I (m >>= f)
  Checks-Reads m f r cf = Checks-bind m f (Touches-Reads m r) cf

  -- What is read after the validation changes nothing.
  pub Checks-then :
      {A B : Type 0} (m : Action A) (f : A → Action B)
      → Checks ks I m
      → ((a : A) → Reads (f a))
      → Checks ks I (m >>= f)
  unfolding ◌>>=◌
  Checks-then {A} {B} m f cm rf = record {
    at = λ db b h p. go (m db).0 (m db).1 b p (λ a. cm.at db a h);
  }
    where
      go :
          {db : Database} (r : Result A) (after : Database) (b : B)
          → (continue r f after).0 ≡ ok b
          → ((a : A)
              → r ≡ ok a
              → Frame ks db after × ((j : String) → elem j ks ≡ true → IsValidJob j after))
          → Frame ks db (continue r f after).1
            × ((j : String) → elem j ks ≡ true → IsValidJob j (continue r f after).1)
      go (ok a) after b p c = rw ((rf a).at after) (c a refl)
      go (err e) after b p c = cc

-- `for job_id in ids: self._validate_snapshot_locked(job_id)` checks them all.
validate_all :
    (ids : List String) (db : Database) {u : Unit {0}}
    → (for_each ids validate_snapshot_locked db).0 ≡ ok u
    → (j : String) → elem j ids ≡ true
    → IsValidJob j db
unfolding for_each ◌>>=◌
validate_all [] db e j h = cc
validate_all (k ∷ ids) db {u} e j h =
    go (validate_snapshot_locked k db).0 refl (rw ((Reads-validate k).at db) at e)
      (λ v q m. validate_all ids db {u = v} q j m)
  where
    go :
        (r : Result (Unit {0}))
        → (validate_snapshot_locked k db).0 ≡ r
        → (continue r (λ _. for_each ids validate_snapshot_locked) db).0 ≡ ok u
        → ((v : Unit {0})
            → (for_each ids validate_snapshot_locked db).0 ≡ ok v
            → elem j ids ≡ true
            → IsValidJob j db)
        → IsValidJob j db
    go (err x) p q rest = cc
    go (ok v) p q rest = elim (Bool-cases (k == j)) [
      | inl same ↦ subst (λ x. IsValidJob x db) (eq_of_== k j same) (validate-IsValid k db p)
      | inr other ↦ rest u q (ground arith)
    ]

pub Checks-validate_all :
    {I : Fact} (ids : List String) → Checks ids I (for_each ids validate_snapshot_locked)
Checks-validate_all ids = record {
  at = λ db a h e.
      let same = (Reads-for_each validate_snapshot_locked ids Reads-validate).at db in
      (rw same (Frame-refl ids db), rw same (validate_all ids db e));
}

pub ruleset checks_rules = (Checks-validate, Checks-raise, Checks-bind)

-- `m` keeps the invariant at `db`, if it returns.
pub record CommitsAt (db : Database) {A : Type 0} (m : Action A) : Type 0 where
  pub at : (a : A) → (m db).0 ≡ ok a → IsConsistent db → IsConsistent (m db).1

-- `m` keeps the invariant, whether it returns or raises.
pub record Keeps {A : Type 0} (m : Action A) : Type 0 where
  pub at : (db : Database) → IsConsistent db → IsConsistent (m db).1

pub Frame-IsConsistent :
    {ks : List String} {old new : Database}
    → Frame ks old new
    → ((j : String) → elem j ks ≡ true → IsValidJob j new)
    → IsConsistent old
    → IsConsistent new
Frame-IsConsistent {ks} frame checked c = record {
  keyed = frame.keyed c.keyed;
  valid = λ j. elim (Bool-cases (elem j ks)) [
    | inl within ↦ checked j within
    | inr away ↦ λ s e. c.valid j s (sym (frame.same j away) ∙ e)
  ];
}

pub CommitsAt-Checks :
    {ks : List String} (I : Fact) {A : Type 0} (m : Action A) {db : Database}
    → Checks ks I m
    → (IsConsistent db → I db.tasks db.attempts)
    → CommitsAt db m
CommitsAt-Checks I m {db} c start = record {
  at = λ a e good.
      let (frame, checked) = c.at db a (start good) e in Frame-IsConsistent frame checked good;
}

module _ {A B : Type 0} {db : Database} where
  CommitsAt-continue :
      (r : Result A) (f : A → Action B)
      → ((a : A) → CommitsAt db (f a))
      → CommitsAt db (continue r f)
  CommitsAt-continue (ok a) f c = record { at = (c a).at }
  CommitsAt-continue (err e) f c = record { at = λ b p good. cc }

  pub CommitsAt-Reads_bind :
      (m : Action A) (f : A → Action B)
      → Reads m
      → ((a : A) → CommitsAt db (f a))
      → CommitsAt db (m >>= f)
  unfolding ◌>>=◌
  CommitsAt-Reads_bind m f r cf = record { at = rw (r.at db) (CommitsAt-continue (m db).0 f cf).at }

module _ {A : Type 0} {db : Database} where
  pub CommitsAt-if :
      (test : Bool) (m n : Action A)
      → CommitsAt db m
      → CommitsAt db n
      → CommitsAt db (if test then m else n)
  CommitsAt-if true m n cm cn = cm
  CommitsAt-if false m n cm cn = cn

  pub CommitsAt-Touches : (m : Action A) → Touches [] always m → CommitsAt db m
  CommitsAt-Touches m t = record {
    at = λ a e good. Frame-IsConsistent (t.at db tt).0 (λ j within. cc) good;
  }

pub CommitsAt-when :
    {db : Database} (test : Bool) (m : Action (Unit {0}))
    → CommitsAt db m
    → CommitsAt db (when test m)
unfolding when
CommitsAt-when true m c = record { at = c.at }
CommitsAt-when false m c = record { at = λ a e good. good }

module _ {A : Type 0} where
  pub CommitsAt-Reads : {db : Database} (m : Action A) → Reads m → CommitsAt db m
  CommitsAt-Reads {db} m r = record { at = λ a e good. rw (r.at db) good }

  pub CommitsAt-get_row :
      {B : Type 0} {db : Database} (g : Database → Option A) (e : Error) (f : A → Action B)
      → ((a : A) → g db ≡ some a → CommitsAt db (f a))
      → CommitsAt db (get_row g e >>= f)
  unfolding get_row ◌>>=◌
  CommitsAt-get_row {B} {db} g e f cf = record { at = λ b. go (g db) refl b }
    where
      go :
          (o : Option A)
          → g db ≡ o
          → (b : B) → (continue (elim o [ none ↦ err e | some a ↦ ok a ]) f db).0 ≡ ok b
          → IsConsistent db
          → IsConsistent (continue (elim o [ none ↦ err e | some a ↦ ok a ]) f db).1
      go none p b h good = good
      go (some a) p b h good = (cf a p).at b h good

  pub Keeps-transaction :
      (m : Action A) → ((db : Database) → CommitsAt db m) → Keeps (transaction m)
  unfolding transaction
  Keeps-transaction m c = record {
    at = λ db good. go db (m db).0 (m db).1 good (λ a e. (c db).at a e good);
  }
    where
      go :
          (db : Database) (r : Result A) (after : Database)
          → IsConsistent db
          → ((a : A) → r ≡ ok a → IsConsistent after)
          → IsConsistent
              (let out : Result A × Database = elim r [
                | ok a ↦ (ok a, after)
                | err e ↦ (err e, db)
              ] in
                out).1
      go db (ok a) after good c' = c' a refl
      go db (err e) after good c' = good

  pub Keeps-Touches : (m : Action A) → Touches [] always m → Keeps m
  Keeps-Touches m t = record {
    at = λ db good. Frame-IsConsistent (t.at db tt).0 (λ j within. cc) good;
  }

  pub Keeps-Reads : (m : Action A) → Reads m → Keeps m
  Keeps-Reads m r = record { at = λ db good. rw (r.at db) good }

  Keeps-continue :
      {B : Type 0} (r : Result A) (f : A → Action B)
      → ((a : A) → Keeps (f a))
      → Keeps (continue r f)
  Keeps-continue (ok a) f k = record { at = (k a).at }
  Keeps-continue (err e) f k = record { at = λ db good. good }

  pub Keeps-bind :
      {B : Type 0} (m : Action A) (f : A → Action B)
      → Keeps m
      → ((a : A) → Keeps (f a))
      → Keeps (m >>= f)
  unfolding ◌>>=◌
  Keeps-bind m f km kf = record {
    at = λ db good. (Keeps-continue (m db).0 f kf).at (m db).1 (km.at db good);
  }

  pub Keeps-if : (test : Bool) (m n : Action A) → Keeps m → Keeps n → Keeps (if test then m else n)
  Keeps-if true m n km kn = km
  Keeps-if false m n km kn = kn

pub Keeps-for_each {ℓ} :
    {X : Type ℓ} (f : X → Action (Unit {0})) (xs : List X)
    → ((x : X) → Keeps (f x))
    → Keeps (for_each xs f)
unfolding for_each
Keeps-for_each f [] k = Keeps-Reads (pure tt) (Reads-pure tt)
Keeps-for_each f (x ∷ xs) k =
    Keeps-bind (f x) (λ _. for_each xs f) (k x) (λ _. Keeps-for_each f xs k)

pub ruleset keeps_rules = (reads_rules, Keeps-Reads, Keeps-bind)
