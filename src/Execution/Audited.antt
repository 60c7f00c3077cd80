-- ===== src/Execution/Audited.antt =====
-- What the final audit guarantees where `_finalize` returns.
use omarchy_yolo.Prelude.{
  ℕ, zero, suc, ◌+◌, ◌≤◌, String, ◌≡◌, refl, subst, Bool, true, false, Option, none, some, List, [],
  ◌∷◌, arith, nat_eq, string_eq, is_empty, Bool-cases, inl, inr,
}
use omarchy_yolo.Prelude.Fallible.{Fallible, returns, raises}
use omarchy_yolo.Agents.{GateResult, ReviewResult, passed}
use omarchy_yolo.Reviews.{Entry, all_findings, saw_fail, review_failure}
use omarchy_yolo.Db.Rows.{Database}
use omarchy_yolo.Db.Commits.{IsConsistent}
use omarchy_yolo.Execution.Runs.{
  Failure, other, GateScope, Chunk, State, World, Run, pure, raise, ◌>>=◌,
}
use omarchy_yolo.Execution.Integrate.{gates_ok, gate_effect, run_gates}
use omarchy_yolo.Execution.Finalize.{
  Shard, Audit, reviews_of, final_effect, lost_coverage, ask_review, review_shards, review_file,
  review_files, synthesize, unless_failed, judge_files, judge_shards, hierarchical_final_review,
  repair_or_raise, review_cycle, final_cycle, final_cycles, finalize,
}
use omarchy_yolo.Execution.Discipline.{In, Any, IsAllowed, cost, advance, stage, worker_runs}
use omarchy_yolo.Execution.Rules.{
  Ends, Leads, Leads-raise, Leads-if, Leads-map, Leads-bind, In-map, Steady, Steady-pure,
  Steady-raise, Steady-if, Steady-bind, Steady-store, Leads-await, Steady-waited, Steady-emit,
}
use omarchy_yolo.Execution.Merges.{get_job-Keeps, Steady-of_choice, Steady-repair_integration}
use omarchy_yolo.Execution.Reviewed.{Leads-steady, Leads-done}

-- The final gates have passed, and where the review passes, it is the final one.
abbrev pub Audited : ReviewResult → ℕ → Type 0
Audited r k = passed r ≡ true → k ≡ 6

abbrev GatesPassed : List GateResult → ℕ → Type 0
GatesPassed rs k = gates_ok rs ≡ true → k ≡ 5

-- `none` goes on with the next cycle.
abbrev pub Released : Option String → ℕ → Type 0
Released none k = Unit
Released (some summary) k = k ≡ 6

abbrev Fails : Option ReviewResult → Type 0
Fails none = Unit
Fails (some r) = passed r ≡ false

-- A failure that `review_failure` reports is no pass.
review_failure-fails :
    (show_nat : ℕ → String) (summary : String) (es : List Entry) (r : ReviewResult)
    → review_failure show_nat summary es ≡ some r
    → passed r ≡ false
unfolding review_failure
review_failure-fails show_nat summary es r h = elim (Bool-cases (is_empty (all_findings es))) [
  | inl e ↦ cc
  | inr e ↦ elim (Bool-cases (saw_fail es)) [
    | inl f ↦ subst (λ o. Fails o) (rw e at (rw f at h)) refl
    | inr f ↦ subst (λ o. Fails o) (rw e at (rw f at h)) refl
  ]
]

module _ (w : World) where
  Steady-ask_review : (x : Audit) (prompt : String) → Steady (ask_review w x prompt)
  Steady-ask_review x prompt = Steady-waited w _ _

  Steady-review_shards :
      (x : Audit) (manifest : List String) (total : ℕ) (cs : List Chunk)
      → Steady (review_shards w x manifest total cs)
  unfolding review_shards
  Steady-review_shards x manifest total [] = Steady-pure []
  Steady-review_shards x manifest total (c ∷ cs) = Steady-bind _ _ (Steady-ask_review x _) λ review.
      Steady-bind _ _ (Steady-emit w _ _ _ _) λ _.
        Steady-bind _ _ (Steady-if _ _ _ (Steady-pure tt) (Steady-raise _))
          λ _. Steady-bind _ _ (Steady-review_shards x manifest total cs) λ rest. Steady-pure _

  Steady-review_file :
      (x : Audit) (path : String) (first : ReviewResult) (others : List ReviewResult)
      → Steady (review_file w x path first others)
  Steady-review_file x path first [] =
      Steady-bind _ _ (Steady-pure first)
        λ review. Steady-bind _ _ (Steady-emit w _ _ _ _) λ _. Steady-pure _
  Steady-review_file x path first (second ∷ others) =
      Steady-bind _ _ (Steady-ask_review x _)
        λ review. Steady-bind _ _ (Steady-emit w _ _ _ _) λ _. Steady-pure _

  -- An early return is a failure.
  abbrev EndsEarly : Fallible ReviewResult (List Entry) → ℕ → Type 0
  EndsEarly (returns files) k = k ≡ 5
  EndsEarly (raises r) k = passed r ≡ false

  steady :
      {A : Type 0} (n : ℕ) (m : Run A)
      → Steady m
      → Leads (In Any n) (In (λ k. k ≡ 5) n) (λ _. In (λ k. k ≡ 5) n) m
  steady n m h = Leads-steady (λ k. k ≡ 5) Any n m h (λ k e. tt)

  Leads-review_files :
      (x : Audit) (shards : List Shard) (paths : List String) (n : ℕ)
      → Leads
          (In Any n)
          (In (λ k. k ≡ 5) n)
          (λ o. In (EndsEarly o) n)
          (review_files w x shards paths)
  unfolding review_files
  Leads-review_files x shards [] n = Leads-done (λ k. k ≡ 5) Any EndsEarly n (returns []) (λ k h. h)
  Leads-review_files x shards (path ∷ paths) n =
      go (Leads-review_files x shards paths n) (reviews_of path shards)
    where
      joined :
          (file : Entry) (o : Fallible ReviewResult (List Entry))
          → Leads
              (In Any n)
              (In (EndsEarly o) n)
              (λ o. In (EndsEarly o) n)
              (pure (elim o [ returns files ↦ returns (file ∷ files) | raises r ↦ raises r ]))
      joined file (returns files) =
          Leads-done (λ k. k ≡ 5) Any EndsEarly n (returns (file ∷ files)) (λ k h. h)
      joined file (raises r) =
          Leads-done (EndsEarly (raises r)) Any EndsEarly n (raises r) (λ k h. h)

      go :
          Leads
            (In Any n)
            (In (λ k. k ≡ 5) n)
            (λ o. In (EndsEarly o) n)
            (review_files w x shards paths)
          → (rs : List ReviewResult)
          → Leads
              (In Any n)
              (In (λ k. k ≡ 5) n)
              (λ o. In (EndsEarly o) n)
              (elim rs [
                | [] ↦ pure (raises (lost_coverage path))
                | first ∷ others ↦ review_file w x path first others >>= λ file.
                    review_files w x shards paths >>= λ rest.
                    pure
                      (elim rest [ returns files ↦ returns (file ∷ files) | raises r ↦ raises r ])
              ])
      go again [] =
          Leads-done (λ k. k ≡ 5) Any EndsEarly n (raises (lost_coverage path)) (λ k h. refl)
      go again (first ∷ others) =
          Leads-bind _ _ (λ _. In (λ k. k ≡ 5) n) (λ o. In (EndsEarly o) n) _ _
            (steady n _ (Steady-review_file x path first others))
            λ file.
              Leads-bind _ _ (λ o. In (EndsEarly o) n) (λ o. In (EndsEarly o) n) _ _ again
                λ rest. joined file rest

  Leads-synthesize :
      (x : Audit) (manifest : List String) (files : List Entry) (n : ℕ)
      → Leads (In Any n) (In (λ k. k ≡ 5) n) (λ r. In (Audited r) n) (synthesize w x manifest files)
  Leads-synthesize x manifest files n =
      Leads-bind _ _ (λ r. In (Audited r) n) (λ r. In (Audited r) n) _ _
        (Leads-await w (λ k. k ≡ 5) Any Audited n n _ _ allowed audited (λ e k h. tt))
        λ r.
          Leads-bind _ _ (λ _. In (Audited r) n) (λ r. In (Audited r) n) _ _
            (Leads-steady (Audited r) Any n _ (Steady-emit w _ _ _ _) (λ k h. tt))
            λ _. Leads-done (Audited r) Any Audited n r (λ k h. h)
    where
      allowed :
          (o : Fallible Failure ReviewResult) (k : ℕ)
          → k ≡ 5
          → IsAllowed (final_effect o) k × (cost (final_effect o) + n ≤ n)
      allowed (returns r) k e = (tt, omega arith)
      allowed (raises f) k e = (tt, omega arith)

      audited :
          (r : ReviewResult) (k : ℕ) → k ≡ 5 → Audited r (advance (final_effect (returns r)) k)
      audited r k e good = rw good (rw e refl)

  Leads-unless_failed :
      (show_nat : ℕ → String) (summary : String) (es : List Entry) (next : Run ReviewResult) (n : ℕ)
      → Leads (In Any n) (In (λ k. k ≡ 5) n) (λ r. In (Audited r) n) next
      → Leads
          (In Any n)
          (In (λ k. k ≡ 5) n)
          (λ r. In (Audited r) n)
          (unless_failed (review_failure show_nat summary es) next)
  Leads-unless_failed show_nat summary es next n h = go (review_failure show_nat summary es) refl
    where
      go :
          (o : Option ReviewResult)
          → review_failure show_nat summary es ≡ o
          → Leads (In Any n) (In (λ k. k ≡ 5) n) (λ r. In (Audited r) n) (unless_failed o next)
      go none e = h
      go (some r) e =
          let no_pass = review_failure-fails show_nat summary es r e in
          Leads-done (λ k. k ≡ 5) Any Audited n r (λ k h good. cc)

  Leads-judge_shards :
      (x : Audit) (manifest : List String) (shards : List Shard) (n : ℕ)
      → Leads
          (In Any n)
          (In (λ k. k ≡ 5) n)
          (λ r. In (Audited r) n)
          (judge_shards w x manifest shards)
  unfolding judge_shards
  Leads-judge_shards x manifest shards n = Leads-unless_failed _ _ _ _ n (
      Leads-bind _ _ (λ o. In (EndsEarly o) n) (λ r. In (Audited r) n) _ _
        (Leads-review_files x shards manifest n) judged)
    where
      judged :
          (o : Fallible ReviewResult (List Entry))
          → Leads
              (In Any n)
              (In (EndsEarly o) n)
              (λ r. In (Audited r) n)
              (judge_files w x manifest o)
      judged (raises r) = Leads-done (EndsEarly (raises r)) Any Audited n r (λ k no_pass good. cc)
      judged (returns files) = Leads-unless_failed _ _ _ _ n (Leads-synthesize x manifest files n)

  Leads-final_review :
      (job_id path : String) (gates : List GateResult) (reviewer : String) (cycle n : ℕ)
      → Leads
          (In Any n)
          (In (λ k. k ≡ 5) n)
          (λ r. In (Audited r) n)
          (hierarchical_final_review w job_id path gates reviewer cycle)
  unfolding hierarchical_final_review
  Leads-final_review job_id path gates reviewer cycle n =
      Leads-bind _ _ (λ _. In (λ k. k ≡ 5) n) (λ r. In (Audited r) n) _ _
        (steady n _ (Steady-store w _ λ _. get_job-Keeps job_id))
        λ job.
          Leads-bind _ _ (λ _. In (λ k. k ≡ 5) n) (λ r. In (Audited r) n) _ _
            (steady n _ (Steady-waited w _ _))
            λ source.
              Leads-bind _ _ (λ _. In (λ k. k ≡ 5) n) (λ r. In (Audited r) n) _ _
                (steady n _ (Steady-emit w _ _ _ _))
                λ _.
                  Leads-bind _ _ (λ _. In (λ k. k ≡ 5) n) (λ r. In (Audited r) n) _ _
                    (steady n _ (Steady-review_shards _ _ _ _))
                    λ shards. Leads-judge_shards _ _ shards n

  Leads-repair_or_raise :
      (job_id path issue : String) (is_last : Bool) (exhausted unrepaired : String) (K : ℕ → Type 0)
      (n : ℕ)
      → Leads
          (In Any n)
          (In K n)
          (λ o. In (Released o) n)
          (repair_or_raise w job_id path issue is_last exhausted unrepaired)
  unfolding repair_or_raise
  Leads-repair_or_raise job_id path issue true exhausted unrepaired K n =
      Leads-raise _ _ _ _ λ s h. In-map K Any n n s (omega arith) (λ k u. tt) h
  Leads-repair_or_raise job_id path issue false exhausted unrepaired K n =
      Leads-bind _ _ (λ _. In K n) (λ o. In (Released o) n) _ _
        (Leads-steady K Any n _ (Steady-repair_integration w _ _ _ _ _ _) (λ k u. tt))
        λ repaired.
          Leads-if _ _ _ repaired _ _ (λ yes. Leads-done K Any Released n none (λ k u. tt))
            (λ no. Leads-raise _ _ _ _ λ s h. In-map K Any n n s (omega arith) (λ k u. tt) h)

  Leads-review_cycle :
      (job_id path : String) (gates : List GateResult) (reviewer : String) (cycle : ℕ)
      (is_last : Bool) (n : ℕ)
      → Leads
          (In Any n)
          (In (λ k. k ≡ 5) n)
          (λ o. In (Released o) n)
          (review_cycle w job_id path gates reviewer cycle is_last)
  unfolding review_cycle
  Leads-review_cycle job_id path gates reviewer cycle is_last n =
      Leads-bind _ _ (λ r. In (Audited r) n) (λ o. In (Released o) n) _ _
        (Leads-final_review job_id path gates reviewer cycle n)
        λ r.
          Leads-bind _ _ (λ _. In (Audited r) n) (λ o. In (Released o) n) _ _
            (Leads-steady (Audited r) Any n _ (Steady-emit w _ _ _ _) (λ k u. tt))
            λ _.
              Leads-if _ _ _ (passed r) _ _
                (λ yes. Leads-done (Audited r) Any Released n (some _) (λ k f. f yes))
                (λ no. Leads-repair_or_raise _ _ _ is_last _ _ (Audited r) n)

  -- The final gates, from any stage.
  Leads-final_gates :
      (job_id path : String) (configured : List String) (n : ℕ)
      → Leads
          (In Any n)
          (In Any n)
          (λ rs. In (GatesPassed rs) n)
          (run_gates w job_id "final" none path GateScope.final_audit configured)
  unfolding run_gates
  Leads-final_gates job_id path configured n =
      Leads-bind _ _ (λ _. In Any n) (λ rs. In (GatesPassed rs) n) _ _
        (Leads-steady Any Any n _ (Steady-if _ _ _ (Steady-waited w _ _) (Steady-pure configured))
          (λ k e. tt))
        λ commands.
          Leads-bind _ _ (λ rs. In (GatesPassed rs) n) (λ rs. In (GatesPassed rs) n) _ _
            (Leads-await w Any Any GatesPassed n n _ _ allowed (λ rs k u good. rw good refl)
              (λ e k h. tt))
            λ rs.
              Leads-bind _ _ (λ _. In (GatesPassed rs) n) (λ rs. In (GatesPassed rs) n) _ _
                (Leads-steady (GatesPassed rs) Any n _ (Steady-emit w _ _ _ _) (λ k e. tt))
                λ _. Leads-done (GatesPassed rs) Any GatesPassed n rs (λ k h. h)
    where
      allowed :
          (o : Fallible Failure (List GateResult)) (k : ℕ)
          → Any k
          → IsAllowed (gate_effect GateScope.final_audit o) k
            × (cost (gate_effect GateScope.final_audit o) + n ≤ n)
      allowed (returns rs) k e = (tt, omega arith)
      allowed (raises f) k e = (tt, omega arith)

  Leads-final_cycle :
      (job_id path reviewer : String) (cycle : ℕ) (is_last : Bool) (n : ℕ)
      → Leads
          (In Any n)
          (In Any n)
          (λ o. In (Released o) n)
          (final_cycle w job_id path reviewer cycle is_last)
  unfolding final_cycle
  Leads-final_cycle job_id path reviewer cycle is_last n =
      Leads-bind _ _ (λ rs. In (GatesPassed rs) n) (λ o. In (Released o) n) _ _
        (Leads-final_gates job_id path _ n)
        λ gates.
          Leads-if _ _ _ (gates_ok gates) _ _
            (λ yes.
              Leads-map _ _ (In (λ k. k ≡ 5) n) _ _ _ _ (λ s h. h)
                (λ s h.
                  In-map (GatesPassed gates) (λ k. k ≡ 5) n n s (omega arith) (λ k f. f yes) h)
                (λ a s h. h) (Leads-review_cycle job_id path gates reviewer cycle is_last n))
            (λ no. Leads-repair_or_raise _ _ _ is_last _ _ (GatesPassed gates) n)

  Leads-final_cycles :
      (job_id path reviewer : String) (cycle left n : ℕ)
      → Leads
          (In Any n)
          (In Any n)
          (λ _. In (λ k. k ≡ 6) n)
          (final_cycles w job_id path reviewer cycle left)
  unfolding final_cycles
  Leads-final_cycles job_id path reviewer cycle zero n =
      Leads-bind _ _ (λ o. In (Released o) n) (λ _. In (λ k. k ≡ 6) n) _ _
        (Leads-final_cycle job_id path reviewer cycle true n) ended
    where
      ended :
          (o : Option String)
          → Leads {A = String}
              (In Any n)
              (In (Released o) n)
              (λ _. In (λ k. k ≡ 6) n)
              (elim o [
                | some summary ↦ pure summary
                | none ↦ raise (other "finalization exhausted without a passing audit")
              ])
      ended none = Leads-raise _ _ _ _ (λ s h. h)
      ended (some summary) = Leads-done (λ k. k ≡ 6) Any (λ _ k. k ≡ 6) n summary (λ k h. h)
  Leads-final_cycles job_id path reviewer cycle (suc left) n =
      Leads-bind _ _ (λ o. In (Released o) n) (λ _. In (λ k. k ≡ 6) n) _ _
        (Leads-final_cycle job_id path reviewer cycle false n)
        (ended (Leads-final_cycles job_id path reviewer (suc cycle) left n))
    where
      ended :
          Leads
            (In Any n)
            (In Any n)
            (λ _. In (λ k. k ≡ 6) n)
            (final_cycles w job_id path reviewer (suc cycle) left)
          → (o : Option String)
          → Leads {A = String}
              (In Any n)
              (In (Released o) n)
              (λ _. In (λ k. k ≡ 6) n)
              (elim o [
                | some summary ↦ pure summary
                | none ↦ final_cycles w job_id path reviewer (suc cycle) left
              ])
      ended again none = again
      ended again (some summary) = Leads-done (λ k. k ≡ 6) Any (λ _ k. k ≡ 6) n summary (λ k h. h)

-- A finalization that returns ends at stage 6; it may raise at any stage.
abbrev pub EndsAudited : Fallible Failure String → ℕ → Type 0
EndsAudited (returns summary) k = k ≡ 6
EndsAudited (raises e) k = Unit

-- `_finalize` returns only where the gates of its last cycle passed and, after them, the synthesis of
-- the final review; and however it ends, a consistent store stays consistent, whatever the other
-- coroutines do to it meanwhile.
pub finalize-EndsAudited :
    (w : World) (job_id path : String) (db : Database)
    → IsConsistent db
    → EndsAudited
        (finalize w job_id path (record { db = db; log = [] })).0
        (stage (finalize w job_id path (record { db = db; log = [] })).1.log)
      × IsConsistent (finalize w job_id path (record { db = db; log = [] })).1.db
unfolding finalize worker_runs
finalize-EndsAudited w job_id path db h = ended _ _ (
    (Leads-bind (In Any 0) (In Any 0) (λ _. In Any 0) (λ _. In (λ k. k ≡ 6) 0) _ _
        (Leads-steady Any Any 0 _ (Steady-of_choice w _) (λ k u. u))
        λ reviewer. Leads-final_cycles w job_id path reviewer 0 _ 0).at
      (record { db = db; log = [] })
      (record { consistent = h; disciplined = tt; budget = omega arith; at_stage = tt }))
  where
    ended :
        (o : Fallible Failure String) (s : State)
        → Ends (In Any 0) (λ _. In (λ k. k ≡ 6) 0) o s
        → EndsAudited o (stage s.log) × IsConsistent s.db
    ended (returns summary) s p = (p.at_stage, p.consistent)
    ended (raises e) s p = (tt, p.consistent)
