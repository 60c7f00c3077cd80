-- ===== src/Runtime/Exclusion.antt =====
-- One holder for each repository.
use omarchy_yolo.Prelude.{
  ℕ, zero, suc, ◌+◌, String, ◌≡◌, refl, Option, none, some, List, ◌∷◌, ◌++◌, arith, nat_eq,
  string_eq, ==-refl,
}
use omarchy_yolo.Runtime.{
  Context, Coordinator, set, get_or_zero, waiting_context, decrement, Step, Reachable,
}
use omarchy_yolo.Runtime.Counts.{count, waits_for, IsSafe, count-append}
use omarchy_yolo.Runtime.Steps.{enter-IsSafe, acquire-IsSafe, cancel-IsSafe, release-IsSafe}

Step-IsSafe : (s t : Coordinator) → Step s t → IsSafe s → IsSafe t
Step-IsSafe _ _ (Step.enters key s) safe = enter-IsSafe key s safe
Step-IsSafe _ _ (Step.acquires xs ys key lock after s e free d) safe =
    acquire-IsSafe xs ys key lock after s safe e free d
Step-IsSafe _ _ (Step.cancels xs ys key lock after s e d) safe =
    cancel-IsSafe xs ys key lock after s safe e d
Step-IsSafe _ _ (Step.releases xs ys key lock s e) safe = release-IsSafe xs ys key lock s safe e

-- In every state that the calls of `repo_lock` can reach, in any interleaving and with any waits
-- cancelled, a repository has at most one holder and is marked active exactly while it has one,
-- its waiters are counted, and all its calls share the lock of the table.
pub Reachable-IsSafe : (s : Coordinator) → Reachable s → IsSafe s
Reachable-IsSafe _ Reachable.starts = record {
  same_lock = tt;
  counted = λ k. refl;
  exclusive = λ k. omega arith;
  active = λ k. refl;
}
Reachable-IsSafe _ (Reachable.steps s t r step) = Step-IsSafe s t step (Reachable-IsSafe s r)

-- In a reachable state, the count of waiters can be lowered for every call that waits: no KeyError,
-- and no count below zero.
pub decrement-total :
    (s : Coordinator) (xs ys : List Context) (key : String) (lock : ℕ)
    → Reachable s
    → s.contexts ≡ xs ++ waiting_context key lock ∷ ys
    → (after : String → Option ℕ) × (decrement key s.repo_waiters ≡ some after)
unfolding decrement
decrement-total s xs ys key lock r e =
    let safe = Reachable-IsSafe s r in
    let one : count (waits_for key) s.contexts
        ≡ suc (count (waits_for key) xs + count (waits_for key) ys) =
      rw e (
        ground
          (arith, count-append (waits_for key) xs (waiting_context key lock ∷ ys), ==-refl key)) in
    go (s.repo_waiters key) (safe.counted key) one
  where
    go :
        (w : Option ℕ)
        → get_or_zero w ≡ count (waits_for key) s.contexts
        → count (waits_for key) s.contexts
          ≡ suc (count (waits_for key) xs + count (waits_for key) ys)
        → (after : String → Option ℕ) × (elim w as (λ _. Option (String → Option ℕ)) [
          | some (suc n) ↦ some (set key (some n) s.repo_waiters)
          | _ ↦ none
        ]
            ≡ some after)
    go none c one = cc
    go (some zero) c one = cc
    go (some (suc n)) c one = (set key (some n) s.repo_waiters, refl)
