-- ===== src/Execution/Jobs/Moved.antt =====
-- What the handlers of `run_job` change for other work: the rows in flight and the state of the job.
use omarchy_yolo.Prelude.{
  Result, ok, err, Error, ℕ, String, ◌≡◌, ◌⊎◌, refl, sym, subst, ap, ◌∙◌, none, List, nat_eq,
  string_eq, inl, inr,
}
use omarchy_yolo.Prelude.Fallible.{Fallible, returns, raises}
use omarchy_yolo.Model.{JobState, job_state_eq, phase_eq}
use omarchy_yolo.Db.Rows.{Database, PayloadValue}
use omarchy_yolo.Db.Actions.{Action}
use omarchy_yolo.Db.Core.{find_job}
use omarchy_yolo.Db.Mutations.{JobFields, update_job}
use omarchy_yolo.Db.Moves.{IsJobIn, moving, update_job-IsJobIn}
use omarchy_yolo.Execution.Runs.{
  Failure, other, State, World, Run, raise, store, emit, from_store, continue, ◌>>=◌, ◌>>◌,
}
use omarchy_yolo.Execution.Jobs.Untouched.{emit-IsUntouched}

-- The store without accepted work: the job ends in the state, or the store refuses with an error.
abbrev pub IsSettled :
    World → String → JobState → Failure → Fallible Failure (Unit {0}) × State → Type 0
IsSettled w job_id target e r =
    ((r.0 ≡ raises e) × IsJobIn job_id target r.1.db)
    ⊎ ((x : Error) × (r.0 ≡ raises (other (w.message x))))

module _ {A B C : Type 0} where
  bind_assoc :
      (m : Run A) (f : A → Run B) (g : B → Run C) (s : State)
      → ((m >>= f) >>= g) s ≡ (m >>= λ a. f a >>= g) s
  unfolding ◌>>=◌
  bind_assoc m f g s = go (m s).0 (m s).1
    where
      go :
          (o : Fallible Failure A) (s' : State)
          → continue (continue o f s').0 g (continue o f s').1 ≡ continue o (λ a. f a >>= g) s'
      go (returns a) s' = refl
      go (raises e) s' = refl

module _ {A B : Type 0} where
  -- What holds after a call that raises and after one that returns holds.
  bind-cases :
      (Q : Fallible Failure B × State → Type 0) (m : Run A) (k : A → Run B) (s : State)
      → ((e : Failure) → (m s).0 ≡ raises e → Q (raises e, (m s).1))
      → ((a : A) → (m s).0 ≡ returns a → Q (k a (m s).1))
      → Q ((m >>= k) s)
  unfolding ◌>>=◌
  bind-cases Q m k s hr ha = go (m s).0 (m s).1 hr ha
    where
      go :
          (o : Fallible Failure A) (s' : State)
          → ((e : Failure) → o ≡ raises e → Q (raises e, s'))
          → ((a : A) → o ≡ returns a → Q (k a s'))
          → Q (continue o k s')
      go (returns a) s' hr ha = ha a refl
      go (raises e) s' hr ha = hr e refl

module _ (w : World) {A : Type 0} where
  store-raises :
      (m : ℕ → Action A) (s : State) (e : Failure)
      → (store w m s).0 ≡ raises e
      → (x : Error) × (e ≡ other (w.message x))
  unfolding store
  store-raises m s e h = go (m (w.now s.log) s.db).0 h
    where
      go : (r : Result A) → from_store w r ≡ raises e → (x : Error) × (e ≡ other (w.message x))
      go (ok a) h = cc
      go (err x) h = (x, cc)

  store-returns :
      (m : ℕ → Action A) (s : State) (a : A)
      → (store w m s).0 ≡ returns a
      → (m (w.now s.log) s.db).0 ≡ ok a
  unfolding store
  store-returns m s a h = go (m (w.now s.log) s.db).0 h
    where
      go : (r : Result A) → from_store w r ≡ returns a → r ≡ ok a
      go (ok b) h = cc
      go (err x) h = cc

IsJobIn-SameRows :
    (job_id : String) (target : JobState) (new old : Database)
    → new.jobs ≡ old.jobs
    → IsJobIn job_id target old
    → IsJobIn job_id target new
unfolding find_job
IsJobIn-SameRows job_id target new old same h = (h.0, (rw same h.1.0, h.1.1))

moved :
    (w : World) (job_id : String) (f : JobFields) (target : JobState) (s : State) (a : Unit {0})
    → (store w (update_job job_id (moving target f)) s).0 ≡ returns a
    → IsJobIn job_id target (store w (update_job job_id (moving target f)) s).1.db
unfolding store
moved w job_id f target s a h =
    (update_job-IsJobIn job_id f target (w.now s.log)).at s.db a tt
      (store-returns w (update_job job_id (moving target f)) s a h)

-- A handler's calls on work that is not accepted.
pub settled :
    (w : World) (job_id : String) (settle_rows : ℕ → Action (Unit {0})) (f : JobFields)
    (target : JobState) (kind : String)
    (payload : List (record { key : String; value : PayloadValue })) (e : Failure) (s : State)
    → IsSettled w job_id target e (
        (((store w settle_rows >> store w (update_job job_id (moving target f)))
              >> emit w job_id kind payload none)
            >>= λ _. raise e)
          s)
settled w job_id settle_rows f target kind payload e s =
    let Q = IsSettled w job_id target e in
    let move = store w (update_job job_id (moving target f)) in
    let tell = emit w job_id kind payload none >>= λ _. raise e in
    let refused : (x : Failure) (s' : State)
        → ((y : Error) × (x ≡ other (w.message y)))
        → Q (raises x, s') =
      λ x s' y. inr (y.0, ap raises y.1) in
    subst Q
      (sym (
        bind_assoc (store w settle_rows >> move) (λ _. emit w job_id kind payload none)
          (λ _. raise e) s
        ∙ bind_assoc (store w settle_rows) (λ _. move) (λ _. tell) s))
      (bind-cases Q (store w settle_rows) (λ _. move >> tell) s
        (λ x h. refused x (store w settle_rows s).1 (store-raises w settle_rows s x h))
        λ _ _.
          bind-cases Q move (λ _. tell) (store w settle_rows s).1
            (λ x h.
              refused x (move (store w settle_rows s).1).1
                (store-raises w _ (store w settle_rows s).1 x h))
            λ a h.
              let there = moved w job_id f target (store w settle_rows s).1 a h in
              let quiet =
                emit-IsUntouched w job_id kind payload none (move (store w settle_rows s).1).1 e
                  there.0 there.1.0 in
              inl (quiet.0, IsJobIn-SameRows job_id target _ _ quiet.1.0 there))
