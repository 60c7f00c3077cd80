-- ===== src/Tests/Locks.antt =====
-- Calls of `repo_lock` for one repository.
use omarchy_yolo.Prelude.{ℕ, String, ◌≡◌, refl, true, Option, some, [], ◌∷◌}
use omarchy_yolo.Runtime.{
  Context, Coordinator, new_coordinator, waiting_context, locked, enter, decrement, acquire,
  cleanup, cancel, release, Step, Reachable,
}
use omarchy_yolo.Runtime.Counts.{IsSafe}
use omarchy_yolo.Runtime.Exclusion.{Reachable-IsSafe, decrement-total}

abbrev waiter : Context
waiter = waiting_context "/repo" 0

abbrev holder : Context
holder = record waiter { acquired = true }

abbrev one_call : Coordinator
one_call = enter "/repo" new_coordinator

abbrev two_calls : Coordinator
two_calls = enter "/repo" one_call

two_calls-Reachable : Reachable two_calls
two_calls-Reachable =
    Reachable.steps one_call two_calls
      (Reachable.steps new_coordinator one_call Reachable.starts
        (Step.enters "/repo" new_coordinator))
      (Step.enters "/repo" one_call)

two_contexts : two_calls.contexts ≡ waiter ∷ waiter ∷ []
unfolding enter
two_contexts = refl

Reachable-IsSafe_example : IsSafe two_calls
Reachable-IsSafe_example = Reachable-IsSafe two_calls two_calls-Reachable

decrement-total_example :
    (after : String → Option ℕ) × (decrement "/repo" two_calls.repo_waiters ≡ some after)
decrement-total_example =
    decrement-total two_calls [] (waiter ∷ []) "/repo" 0 two_calls-Reachable two_contexts

-- One call holds the lock and a second one waits, is cancelled, and then the first one ends.
abbrev held : Coordinator
held = acquire "/repo" (λ _. some 0) (holder ∷ []) one_call

abbrev after_cancel : Coordinator
after_cancel = cancel "/repo" 0 (λ _. some 0) (holder ∷ []) (enter "/repo" held)

-- Nobody is left, and the table still has the lock.
lock_stays : (release "/repo" 0 [] after_cancel).repo_locks "/repo" ≡ some 0
unfolding locked enter acquire cleanup cancel release
lock_stays = refl
