-- ===== src/Runtime.antt =====
-- src/omarchy_yolo/runtime.py: `ResourceCoordinator.repo_lock`, the locks of the repositories. Each
-- stretch of the coroutine between two awaits is one function on the coordinator. The times that it
-- sums up are left out: nothing depends on them. A dictionary is a function into options, a set a
-- function into Booleans, and an asyncio.Lock is a number: it is locked while a context holds it.
pub mod Counts
pub mod Cleanup
pub mod Steps
pub mod Exclusion
use omarchy_yolo.Prelude.{
  ℕ, zero, suc, ◌+◌, ◌-◌, String, ◌≡◌, Bool, true, false, not, ◌&&◌, ◌||◌, Option, none, some, List,
  [], ◌∷◌, ◌++◌, Eq, ◌==◌, nat_eq, string_eq, any, if◌then◌else◌,
}

-- A call of `repo_lock` that is under way: its key, the lock that it got, and whether it holds it.
pub record Context : Type 0 where
  pub key : String
  pub lock : ℕ
  pub acquired : Bool

pub record Coordinator : Type 0 where
  pub repo_locks : String → Option ℕ
  pub repo_waiters : String → Option ℕ
  pub repo_active : String → Bool
  pub repo_acquisitions : ℕ
  pub repo_cancelled_waits : ℕ
  pub next_lock : ℕ
  pub contexts : List Context

abbrev pub new_coordinator : Coordinator
new_coordinator = record {
  repo_locks = λ _. none;
  repo_waiters = λ _. none;
  repo_active = λ _. false;
  repo_acquisitions = 0;
  repo_cancelled_waits = 0;
  next_lock = 0;
  contexts = [];
}

-- `d[key] = value` and `d.pop(key, None)`
abbrev pub set {ℓ} : {A : Type ℓ} → String → A → (String → A) → String → A
set key value d k = if k == key then value else d k

abbrev pub get_or_zero : Option ℕ → ℕ
get_or_zero none = 0
get_or_zero (some n) = n

abbrev pub lock_of : Option ℕ → ℕ → ℕ
lock_of none fresh = fresh
lock_of (some lock) fresh = lock

abbrev pub waiting_context : String → ℕ → Context
waiting_context key lock = record { key = key; lock = lock; acquired = false }

-- `lock.locked()`
unfoldable pub locked : ℕ → List Context → Bool
locked lock cs = any (λ c. c.acquired && c.lock == lock) cs

-- Up to the wait for the lock: `setdefault` makes a new lock where the key has none.
unfoldable pub enter : String → Coordinator → Coordinator
enter key s =
    let lock = lock_of (s.repo_locks key) s.next_lock in
    record s {
      repo_locks = set key (some lock) s.repo_locks;
      next_lock = suc s.next_lock;
      repo_waiters = set key (some (suc (get_or_zero (s.repo_waiters key)))) s.repo_waiters;
      contexts = waiting_context key lock ∷ s.contexts;
    }

-- `self._repo_waiters[key] -= 1`: none is a KeyError, or a count below zero.
unfoldable pub decrement : String → (String → Option ℕ) → Option (String → Option ℕ)
decrement key waiters = elim (waiters key) [
  | some (suc n) ↦ some (set key (some n) waiters)
  | _ ↦ none
]

-- The end of the wait, and the contexts with the one that acquired the lock.
unfoldable pub acquire : String → (String → Option ℕ) → List Context → Coordinator → Coordinator
acquire key waiters contexts s = record s {
  repo_waiters = waiters;
  repo_acquisitions = suc s.repo_acquisitions;
  repo_active = set key true s.repo_active;
  contexts = contexts;
}

-- The end of the last `finally`: without waiters, drop the count, and the lock if it is free.
unfoldable pub cleanup : String → ℕ → Coordinator → Coordinator
cleanup key lock s = elim (s.repo_waiters key) [
  | some zero ↦ record s {
    repo_waiters = set key none s.repo_waiters;
    repo_locks = if locked lock s.contexts then s.repo_locks else set key none s.repo_locks;
  }
  | _ ↦ s
]

-- A wait that is cancelled: the context is gone.
unfoldable pub cancel : String → ℕ → (String → Option ℕ) → List Context → Coordinator → Coordinator
cancel key lock waiters contexts s = cleanup key lock (record s {
  repo_waiters = waiters;
  repo_cancelled_waits = suc s.repo_cancelled_waits;
  contexts = contexts;
})

-- The end of the body: release the lock.
unfoldable pub release : String → ℕ → List Context → Coordinator → Coordinator
release key lock contexts s =
    cleanup key lock (record s { repo_active = set key false s.repo_active; contexts = contexts })

-- The steps of all calls together. A waiting call may acquire whenever its lock is free.
pub data Step : Coordinator → Coordinator → Type 0 where
  enters : (key : String) (s : Coordinator) → Step s (enter key s)
  acquires :
      (xs ys : List Context) (key : String) (lock : ℕ) (waiters : String → Option ℕ)
      (s : Coordinator)
      → s.contexts ≡ xs ++ waiting_context key lock ∷ ys
      → locked lock s.contexts ≡ false
      → decrement key s.repo_waiters ≡ some waiters
      → Step s
          (acquire key waiters (xs ++ record { key = key; lock = lock; acquired = true } ∷ ys) s)
  cancels :
      (xs ys : List Context) (key : String) (lock : ℕ) (waiters : String → Option ℕ)
      (s : Coordinator)
      → s.contexts ≡ xs ++ waiting_context key lock ∷ ys
      → decrement key s.repo_waiters ≡ some waiters
      → Step s (cancel key lock waiters (xs ++ ys) s)
  releases :
      (xs ys : List Context) (key : String) (lock : ℕ) (s : Coordinator)
      → s.contexts ≡ xs ++ record { key = key; lock = lock; acquired = true } ∷ ys
      → Step s (release key lock (xs ++ ys) s)

-- What the steps can lead to.
pub data Reachable : Coordinator → Type 0 where
  starts : Reachable new_coordinator
  steps : (s t : Coordinator) → Reachable s → Step s t → Reachable t
