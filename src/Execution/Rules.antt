-- ===== src/Execution/Rules.antt =====
-- Rules for what a coroutine leads to, from a state that satisfies a condition: to another condition
-- where it returns, and to a third one where it raises.
use omarchy_yolo.Prelude.{
  ℕ, ◌+◌, ◌≤◌, String, ◌≡◌, refl, sym, subst, Bool, true, false, Option, List, ◌∷◌, Result, ok, err,
  arith, if◌then◌else◌,
}
use omarchy_yolo.Prelude.Fallible.{Fallible, returns, raises}
use omarchy_yolo.Db.Rows.{PayloadValue}
use omarchy_yolo.Db.Actions.{Action}
use omarchy_yolo.Db.Commits.{Keeps}
use omarchy_yolo.Db.History.{replay, replay-IsConsistent}
use omarchy_yolo.Db.Soundness.{event-Keeps}
use omarchy_yolo.Execution.Runs.{
  Failure, cancelled, merge_conflict, git_error, other, Effect, waited, Log, State, World, Run,
  pure, raise, fresh, catching, unless_cancelled, store, await, emit, from_store, recover, continue,
  ◌>>=◌,
}
use omarchy_yolo.Execution.Discipline.{advance, stage, IsAllowed, cost, worker_runs, In}

abbrev pub Ends :
    {A : Type 0} → (State → Type 0) → (A → State → Type 0) → Fallible Failure A → State → Type 0
Ends R Q (returns a) s = Q a s
Ends R Q (raises e) s = R s

pub record Leads {A : Type 0} (R P : State → Type 0) (Q : A → State → Type 0) (m : Run A)
    : Type 0 where
  pub at : (s : State) → P s → Ends R Q (m s).0 (m s).1

module _ {A : Type 0} where
  pub Leads-pure :
      (R P : State → Type 0) (Q : A → State → Type 0) (a : A)
      → ((s : State) → P s → Q a s)
      → Leads R P Q (pure a)
  unfolding pure
  Leads-pure R P Q a h = record { at = h }

  pub Leads-raise :
      (R P : State → Type 0) (Q : A → State → Type 0) (e : Failure)
      → ((s : State) → P s → R s)
      → Leads R P Q (raise e)
  unfolding raise
  Leads-raise R P Q e h = record { at = h }

  pub Leads-if :
      (R P : State → Type 0) (Q : A → State → Type 0) (b : Bool) (m n : Run A)
      → (b ≡ true → Leads R P Q m)
      → (b ≡ false → Leads R P Q n)
      → Leads R P Q (if b then m else n)
  Leads-if R P Q true m n hm hn = hm refl
  Leads-if R P Q false m n hm hn = hn refl

  Ends-map :
      (R R' : State → Type 0) (Q Q' : A → State → Type 0) (o : Fallible Failure A) (s : State)
      → ((s : State) → R s → R' s)
      → ((a : A) (s : State) → Q a s → Q' a s)
      → Ends R Q o s
      → Ends R' Q' o s
  Ends-map R R' Q Q' (returns a) s hr hq h = hq a s h
  Ends-map R R' Q Q' (raises e) s hr hq h = hr s h

  pub Leads-map :
      (R R' P P' : State → Type 0) (Q Q' : A → State → Type 0) (m : Run A)
      → ((s : State) → R s → R' s)
      → ((s : State) → P' s → P s)
      → ((a : A) (s : State) → Q a s → Q' a s)
      → Leads R P Q m
      → Leads R' P' Q' m
  Leads-map R R' P P' Q Q' m hr hp hq h = record {
    at = λ s p. Ends-map R R' Q Q' (m s).0 (m s).1 hr hq (h.at s (hp s p));
  }

  Ends-recover :
      (R R' : State → Type 0) (Q : A → State → Type 0) (o : Fallible Failure A)
      (handler : Failure → Run A) (s : State)
      → ((e : Failure) → Leads R' R Q (handler e))
      → Ends R Q o s
      → Ends R' Q (recover o handler s).0 (recover o handler s).1
  Ends-recover R R' Q (returns a) handler s hh h = h
  Ends-recover R R' Q (raises e) handler s hh h = (hh e).at s h

  pub Leads-catching :
      (R R' P : State → Type 0) (Q : A → State → Type 0) (m : Run A) (handler : Failure → Run A)
      → Leads R P Q m
      → ((e : Failure) → Leads R' R Q (handler e))
      → Leads R' P Q (catching m handler)
  unfolding catching
  Leads-catching R R' P Q m handler hm hh = record {
    at = λ s p. Ends-recover R R' Q (m s).0 handler (m s).1 hh (hm.at s p);
  }

module _ {A B : Type 0} where
  Ends-continue :
      (R : State → Type 0) (Q : A → State → Type 0) (T : B → State → Type 0)
      (o : Fallible Failure A) (f : A → Run B) (s : State)
      → ((a : A) → Leads R (Q a) T (f a))
      → Ends R Q o s
      → Ends R T (continue o f s).0 (continue o f s).1
  Ends-continue R Q T (returns a) f s hf h = (hf a).at s h
  Ends-continue R Q T (raises e) f s hf h = h

  pub Leads-bind :
      (R P : State → Type 0) (Q : A → State → Type 0) (T : B → State → Type 0) (m : Run A)
      (f : A → Run B)
      → Leads R P Q m
      → ((a : A) → Leads R (Q a) T (f a))
      → Leads R P T (m >>= f)
  unfolding ◌>>=◌
  Leads-bind R P Q T m f hm hf = record {
    at = λ s p. Ends-continue R Q T (m s).0 f (m s).1 hf (hm.at s p);
  }

pub In-map :
    (K K' : ℕ → Type 0) (n n' : ℕ) (s : State)
    → n ≤ n'
    → ((k : ℕ) → K k → K' k)
    → In K n s
    → In K' n' s
In-map K K' n n' s le f h = record {
  consistent = h.consistent;
  disciplined = h.disciplined;
  budget = let below : worker_runs s.log ≤ n = h.budget in ground arith;
  at_stage = f (stage s.log) h.at_stage;
}

-- A run that keeps every stage, whether it returns or raises.
pub record Steady {A : Type 0} (m : Run A) : Type 1 where
  pub at : (K : ℕ → Type 0) (n : ℕ) → Leads (In K n) (In K n) (λ _. In K n) m

module _ {A : Type 0} where
  -- A steady run, with a weaker condition where it raises.
  pub Leads-Steady :
      (R : State → Type 0) (K : ℕ → Type 0) (n : ℕ) (m : Run A)
      → Steady m
      → ((s : State) → In K n s → R s)
      → Leads R (In K n) (λ _. In K n) m
  Leads-Steady R K n m h weaker =
      Leads-map (In K n) R (In K n) (In K n) (λ _. In K n) (λ _. In K n) m weaker (λ s p. p)
        (λ a s p. p) (h.at K n)

  pub Steady-pure : (a : A) → Steady (pure a)
  Steady-pure a = record { at = λ K n. Leads-pure _ _ _ a (λ s p. p) }

  pub Steady-raise : (e : Failure) → Steady {A = A} (raise e)
  Steady-raise e = record { at = λ K n. Leads-raise _ _ _ e (λ s p. p) }

  pub Steady-if : (b : Bool) (m n : Run A) → Steady m → Steady n → Steady (if b then m else n)
  Steady-if true m n hm hn = hm
  Steady-if false m n hm hn = hn

  pub Steady-catching :
      (m : Run A) (handler : Failure → Run A)
      → Steady m
      → ((e : Failure) → Steady (handler e))
      → Steady (catching m handler)
  Steady-catching m handler hm hh = record {
    at = λ K n. Leads-catching (In K n) _ _ _ m handler (hm.at K n) (λ e. (hh e).at K n);
  }

  pub Steady-unless_cancelled :
      (handler : Failure → Run A) (e : Failure)
      → ((e : Failure) → Steady (handler e))
      → Steady (unless_cancelled handler e)
  Steady-unless_cancelled handler cancelled h = Steady-raise cancelled
  Steady-unless_cancelled handler (merge_conflict e) h = h (merge_conflict e)
  Steady-unless_cancelled handler (git_error e) h = h (git_error e)
  Steady-unless_cancelled handler (other e) h = h (other e)

module _ {A B : Type 0} where
  pub Steady-bind :
      (m : Run A) (f : A → Run B) → Steady m → ((a : A) → Steady (f a)) → Steady (m >>= f)
  Steady-bind m f hm hf = record {
    at = λ K n. Leads-bind _ _ (λ _. In K n) _ m f (hm.at K n) (λ a. (hf a).at K n);
  }

-- An effect that changes no stage.
abbrev pub IsNeutral : Effect → Type 0
IsNeutral e = (k : ℕ) → IsAllowed e k × ((cost e ≡ 0) × (advance e k ≡ k))

module _ (w : World) where
  pub Steady-fresh : Steady (fresh w)
  unfolding fresh
  Steady-fresh = record { at = λ K n. record { at = λ s p. p } }

  module _ {A : Type 0} where
    pub Steady-store : (m : ℕ → Action A) → ((now : ℕ) → Keeps (m now)) → Steady (store w m)
    unfolding store
    Steady-store m h = record {
      at = λ K n. record {
        at = λ s p.
            let after : In K n (record { db = (m (w.now s.log) s.db).1; log = s.log }) = record {
              consistent = (h (w.now s.log)).at s.db p.consistent;
              disciplined = p.disciplined;
              budget = p.budget;
              at_stage = p.at_stage;
            } in
            either K n (m (w.now s.log) s.db).0 _ after;
      };
    }
      where
        either :
            (K : ℕ → Type 0) (n : ℕ) (r : Result A) (s : State)
            → In K n s
            → Ends (In K n) (λ _. In K n) (from_store w r) s
        either K n (ok a) s h = h
        either K n (err e) s h = h

    -- An await: what its effect does to the stage, where it returns and where it raises.
    pub Leads-await :
        (K Kr : ℕ → Type 0) (K' : A → ℕ → Type 0) (n n' : ℕ) (answer : Log → Fallible Failure A)
        (effect : Fallible Failure A → Effect)
        → ((o : Fallible Failure A) (k : ℕ)
            → K k
            → IsAllowed (effect o) k × (cost (effect o) + n ≤ n'))
        → ((a : A) (k : ℕ) → K k → K' a (advance (effect (returns a)) k))
        → ((e : Failure) (k : ℕ) → K k → Kr (advance (effect (raises e)) k))
        → Leads (In Kr n') (In K n) (λ a. In (K' a) n') (await w answer effect)
    unfolding await stage worker_runs
    Leads-await K Kr K' n n' answer effect allowed done failed = record {
      at = λ s p. go s p (answer s.log);
    }
      where
        go :
            (s : State)
            → In K n s
            → (o : Fallible Failure A)
            → Ends
                (In Kr n')
                (λ a. In (K' a) n')
                o
                (record { db = replay w.sha256 (w.meanwhile s.log) s.db; log = effect o ∷ s.log })
        go s p (returns a) = record {
          consistent = replay-IsConsistent w.sha256 (w.meanwhile s.log) s.db p.consistent;
          disciplined = ((allowed (returns a) (stage s.log) p.at_stage).0, p.disciplined);
          budget =
              let below : worker_runs s.log ≤ n = p.budget in
              let few : cost (effect (returns a)) + n ≤ n' =
                (allowed (returns a) (stage s.log) p.at_stage).1 in
              omega arith;
          at_stage = done a (stage s.log) p.at_stage;
        }
        go s p (raises e) = record {
          consistent = replay-IsConsistent w.sha256 (w.meanwhile s.log) s.db p.consistent;
          disciplined = ((allowed (raises e) (stage s.log) p.at_stage).0, p.disciplined);
          budget =
              let below : worker_runs s.log ≤ n = p.budget in
              let few : cost (effect (raises e)) + n ≤ n' =
                (allowed (raises e) (stage s.log) p.at_stage).1 in
              omega arith;
          at_stage = failed e (stage s.log) p.at_stage;
        }

    pub Steady-await :
        (answer : Log → Fallible Failure A) (effect : Fallible Failure A → Effect)
        → ((o : Fallible Failure A) → IsNeutral (effect o))
        → Steady (await w answer effect)
    Steady-await answer effect h = record {
      at = λ K n.
          Leads-await K K (λ _. K) n n answer effect
            (λ o k p. ((h o k).0, let free : cost (effect o) ≡ 0 = (h o k).1.0 in omega arith))
            (λ a k p. subst K (sym (h (returns a) k).1.1) p)
            (λ e k p. subst K (sym (h (raises e) k).1.1) p);
    }

    pub Steady-waited :
        (answer : Log → Fallible Failure A) (name : String)
        → Steady (await w answer (λ _. waited name))
    Steady-waited answer name = Steady-await answer (λ _. waited name) λ o k. (tt, (refl, refl))

  pub Steady-emit :
      (job_id kind : String) (payload : List (record { key : String; value : PayloadValue }))
      (task_id : Option String)
      → Steady (emit w job_id kind payload task_id)
  unfolding emit
  Steady-emit job_id kind payload task_id =
      Steady-bind _ _ (Steady-store _ λ now. event-Keeps job_id kind payload _ task_id now)
        λ id. Steady-pure tt
