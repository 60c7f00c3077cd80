-- ===== src/Db/Soundness/Restart.antt =====
-- `recover_incomplete` of src/omarchy_yolo/db_recovery.py keeps the store consistent.
use omarchy_yolo.Prelude.{
  ℕ, String, ◌≡◌, refl, true, none, List, [], ◌∷◌, ◌++◌, arith, string_eq, elem,
}
use omarchy_yolo.Model.{
  TaskState, AttemptState, JobRecord, job_state_eq, task_state_eq, attempt_state_eq,
}
use omarchy_yolo.Db.Actions.{for_each}
use omarchy_yolo.Db.Recovery.{
  inflight_task_of, running_attempt_of, move_task, close_attempt, check_accepted_row,
  check_active_row, check_stopped_row, interrupt_work, recover_rows, announce, recover_from,
  recover_incomplete,
}
use omarchy_yolo.Db.Frames.{
  always, Touches, Touches-when, Touches-bind, Reads, Reads-pure, Reads-raise_when, Reads-lift,
  Reads-gets, Reads-bind, Reads-when, Reads-for_each,
}
use omarchy_yolo.Db.Writes.{Touches-rewrite_jobs, Touches-tasks_of_jobs, Touches-attempts_of_jobs}
use omarchy_yolo.Db.Commits.{
  Checks, Checks-bind, Checks-validate_all, CommitsAt-Checks, Keeps, Keeps-transaction, Keeps-Reads,
  Keeps-bind, Keeps-if, Keeps-for_each,
}
use omarchy_yolo.Db.Soundness.Resume.{event-Keeps}

elem-append_left : (x : String) (xs ys : List String) → elem x xs ≡ true → elem x (xs ++ ys) ≡ true
elem-append_left x [] ys h = cc
elem-append_left x (a ∷ xs) ys h = ground (arith, elem-append_left x xs ys)

elem-append_right : (x : String) (xs ys : List String) → elem x ys ≡ true → elem x (xs ++ ys) ≡ true
elem-append_right x [] ys h = h
elem-append_right x (a ∷ xs) ys h = ground (arith, elem-append_right x xs ys h)

Touches-interrupt_work :
    {ks : List String} (ids : List String) (state : TaskState) (summary : String) (now : ℕ)
    → ((x : String) → elem x ids ≡ true → elem x ks ≡ true)
    → Touches ks always (interrupt_work ids state summary now)
unfolding interrupt_work
Touches-interrupt_work ids state summary now sub =
    Touches-bind _ _
      (Touches-tasks_of_jobs (inflight_task_of ids) (move_task state now)
        (λ r h. sub r.job_id (ground arith)) (λ r. (refl, refl)))
      λ _.
        Touches-attempts_of_jobs (running_attempt_of ids)
          (close_attempt AttemptState.cancelled summary now) (λ r h. sub r.job_id (ground arith))
          (λ r. (refl, refl))

recover_rows-Checks :
    (accepted active stopped : List String) (now : ℕ)
    → Checks (accepted ++ (active ++ stopped)) always (recover_rows accepted active stopped now)
unfolding recover_rows
recover_rows-Checks accepted active stopped now =
    let in_active : (x : String)
        → elem x active ≡ true
        → elem x (accepted ++ (active ++ stopped)) ≡ true =
      λ x h. elem-append_right x accepted _ (elem-append_left x active stopped h) in
    let in_stopped : (x : String)
        → elem x stopped ≡ true
        → elem x (accepted ++ (active ++ stopped)) ≡ true =
      λ x h. elem-append_right x accepted _ (elem-append_right x active stopped h) in
    Checks-bind _ _
      (Touches-when _ _
        (Touches-rewrite_jobs _ _ (λ r h. elem-append_left r.id accepted _ h) (λ r. refl)))
      λ _.
        Checks-bind _ _
          (Touches-when _ _ (
            Touches-bind _ _ (Touches-interrupt_work active TaskState.pending _ now in_active)
              λ _. Touches-rewrite_jobs _ _ (λ r h. in_active r.id h) (λ r. refl)))
          λ _.
            Checks-bind _ _
              (Touches-when _ _ (
                Touches-bind _ _ (Touches-interrupt_work stopped TaskState.stopped _ now in_stopped)
                  λ _. Touches-rewrite_jobs _ _ (λ r h. in_stopped r.id h) (λ r. refl)))
              λ _. Checks-validate_all (accepted ++ (active ++ stopped))

announce-Keeps : (kind : String) (now : ℕ) (ids : List String) → Keeps (announce kind now ids)
unfolding announce
announce-Keeps kind now ids = Keeps-for_each _ ids λ job_id.
    Keeps-bind _ _ (event-Keeps job_id kind [] "{}" none now) λ _. Keeps-Reads _ (Reads-pure tt)

Reads-checks :
    (accepted active stopped : List JobRecord)
    → Reads (for_each accepted check_accepted_row)
      × Reads (for_each active check_active_row)
      × Reads (for_each stopped check_stopped_row)
unfolding check_accepted_row check_active_row check_stopped_row
Reads-checks accepted active stopped = (
  Reads-for_each _ accepted (λ j. Reads-raise_when _ _),
  Reads-for_each _ active (λ j. Reads-lift _),
  Reads-for_each _ stopped
      (λ j. Reads-bind _ _ (Reads-when _ _ (Reads-lift _)) (λ _. Reads-lift _)),
)

recover_from-Keeps : (rows : List JobRecord) (now : ℕ) → Keeps (recover_from rows now)
unfolding recover_from
recover_from-Keeps rows now = Keeps-bind _ _ (Keeps-Reads _ (Reads-checks _ [] []).0) λ _.
    Keeps-bind _ _ (Keeps-Reads _ (Reads-checks [] _ []).1) λ _.
      Keeps-bind _ _ (Keeps-Reads _ (Reads-checks [] [] _).2) λ _.
        Keeps-bind _ _
          (Keeps-transaction _
            λ db. CommitsAt-Checks always _ (recover_rows-Checks _ _ _ now) (λ good. tt))
          λ _. Keeps-bind _ _ (announce-Keeps _ now _) λ _.
            Keeps-bind _ _ (announce-Keeps _ now _)
              λ _. Keeps-bind _ _ (announce-Keeps _ now _) λ _. Keeps-Reads _ (Reads-pure _)

-- recover_incomplete
pub recover_incomplete-Keeps : (now : ℕ) → Keeps (recover_incomplete now)
unfolding recover_incomplete
recover_incomplete-Keeps now =
    Keeps-bind _ _ (Keeps-Reads _ (Reads-gets _))
      λ rows. Keeps-if _ _ _ (Keeps-Reads _ (Reads-pure _)) (recover_from-Keeps rows now)
