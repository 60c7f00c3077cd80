-- ===== src/Db/Frames.antt =====
-- Which jobs' snapshots an action may change, with a rule for each way to build an action.
use omarchy_yolo.Prelude.{
  String, ◌≡◌, refl, ◌∙◌, Bool, true, false, Option, List, [], ◌∷◌, arith, string_eq, elem, Result,
  ok, err, Error,
}
use omarchy_yolo.Model.{TaskRecord}
use omarchy_yolo.Db.Rows.{AttemptRow, Database}
use omarchy_yolo.Db.Actions.{
  Action, pure, raise, gets, get_row, lift, raise_when, when, continue, for_each, ◌>>=◌,
}
use omarchy_yolo.Db.Core.{snapshot_locked, validate_snapshot_locked}
use omarchy_yolo.Db.Keys.{IsKeyed}

-- Only the jobs `ks` may have another snapshot, and the keys stay unique.
pub record Frame (ks : List String) (old new : Database) : Type 0 where
  pub same : (j : String) → elem j ks ≡ false → snapshot_locked j new ≡ snapshot_locked j old
  pub keyed : IsKeyed old → IsKeyed new

pub Frame-refl : (ks : List String) (db : Database) → Frame ks db db
Frame-refl ks db = record { same = λ j _. refl; keyed = λ k. k }

pub Frame-trans : {ks : List String} {a b c : Database} → Frame ks a b → Frame ks b c → Frame ks a c
Frame-trans f g = record { same = λ j n. g.same j n ∙ f.same j n; keyed = λ k. g.keyed (f.keyed k) }

-- A fact on the tasks and attempts that holds before each step.
abbrev pub Fact : Type 1
Fact = List TaskRecord → List AttemptRow → Type 0

abbrev pub always : Fact
always tasks runs = Unit {0}

pub record Touches (ks : List String) (I : Fact) {A : Type 0} (m : Action A) : Type 0 where
  pub at :
      (db : Database)
      → I db.tasks db.attempts
      → Frame ks db (m db).1 × I (m db).1.tasks (m db).1.attempts

-- A SELECT, a check or an exception.
pub record Reads {A : Type 0} (m : Action A) : Type 0 where
  pub at : (db : Database) → (m db).1 ≡ db

module _ {A : Type 0} where
  pub Reads-pure : (a : A) → Reads (pure a)
  unfolding pure
  Reads-pure a = record { at = λ db. refl }

  pub Reads-raise : (e : Error) → Reads (raise {A = A} e)
  unfolding raise
  Reads-raise e = record { at = λ db. refl }

  pub Reads-gets : (f : Database → A) → Reads (gets f)
  unfolding gets
  Reads-gets f = record { at = λ db. refl }

  pub Reads-get_row : (f : Database → Option A) (e : Error) → Reads (get_row f e)
  unfolding get_row
  Reads-get_row f e = record { at = λ db. refl }

  pub Reads-lift : (r : Result A) → Reads (lift r)
  unfolding lift
  Reads-lift r = record { at = λ db. refl }

pub Reads-raise_when : (test : Bool) (e : Error) → Reads (raise_when test e)
unfolding raise_when
Reads-raise_when test e = record { at = λ db. refl }

pub Reads-validate : (j : String) → Reads (validate_snapshot_locked j)
unfolding validate_snapshot_locked ◌>>=◌
Reads-validate j = record { at = λ db. ground arith }

pub ruleset reads_rules = (
  Reads-pure, Reads-raise, Reads-gets, Reads-get_row, Reads-lift, Reads-raise_when, Reads-validate,
)

Reads-continue :
    {A B : Type 0} (r : Result A) (f : A → Action B)
    → ((a : A) → Reads (f a))
    → Reads (continue r f)
Reads-continue (ok a) f h = record { at = (h a).at }
Reads-continue (err e) f h = record { at = λ db. refl }

pub Reads-bind :
    {A B : Type 0} (m : Action A) (f : A → Action B)
    → Reads m
    → ((a : A) → Reads (f a))
    → Reads (m >>= f)
unfolding ◌>>=◌
Reads-bind m f hm hf = record { at = λ db. (Reads-continue (m db).0 f hf).at (m db).1 ∙ hm.at db }

pub Reads-when : (test : Bool) (m : Action (Unit {0})) → Reads m → Reads (when test m)
unfolding when
Reads-when true m h = record { at = h.at }
Reads-when false m h = record { at = λ db. refl }

pub Reads-for_each {ℓ} :
    {X : Type ℓ} (f : X → Action (Unit {0})) (xs : List X)
    → ((x : X) → Reads (f x))
    → Reads (for_each xs f)
unfolding for_each
Reads-for_each f [] h = Reads-pure tt
Reads-for_each f (x ∷ xs) h =
    Reads-bind (f x) (λ _. for_each xs f) (h x) (λ _. Reads-for_each f xs h)

module _ {ks : List String} {I : Fact} where
  pub Touches-Reads : {A : Type 0} (m : Action A) → Reads m → Touches ks I m
  Touches-Reads m r = record { at = λ db h. rw (r.at db) (Frame-refl ks db, h) }

  pub Touches-when :
      (test : Bool) (m : Action (Unit {0})) → Touches ks I m → Touches ks I (when test m)
  unfolding when
  Touches-when true m t = record { at = t.at }
  Touches-when false m t = record { at = λ db h. (Frame-refl ks db, h) }

  Touches-continue :
      {A B : Type 0} (r : Result A) (f : A → Action B)
      → ((a : A) → Touches ks I (f a))
      → Touches ks I (continue r f)
  Touches-continue (ok a) f tf = record { at = (tf a).at }
  Touches-continue (err e) f tf = record { at = λ db h. (Frame-refl ks db, h) }

  pub Touches-bind :
      {A B : Type 0} (m : Action A) (f : A → Action B)
      → Touches ks I m
      → ((a : A) → Touches ks I (f a))
      → Touches ks I (m >>= f)
  unfolding ◌>>=◌
  Touches-bind m f tm tf = record {
    at = λ db h.
        let (frame, h') = tm.at db h in
        let rest = (Touches-continue (m db).0 f tf).at (m db).1 h' in
        (Frame-trans frame rest.0, rest.1);
  }

  pub Touches-for_each {ℓ} :
      {X : Type ℓ} (f : X → Action (Unit {0})) (xs : List X)
      → ((x : X) → Touches ks I (f x))
      → Touches ks I (for_each xs f)
  unfolding for_each
  Touches-for_each f [] t = Touches-Reads (pure tt) (Reads-pure tt)
  Touches-for_each f (x ∷ xs) t =
      Touches-bind (f x) (λ _. for_each xs f) (t x) (λ _. Touches-for_each f xs t)

pub ruleset touches_rules = (reads_rules, Touches-Reads, Touches-when, Touches-bind)
