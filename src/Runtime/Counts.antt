-- ===== src/Runtime/Counts.antt =====
-- The calls of `repo_lock` that wait for a repository, and those that hold it.
use omarchy_yolo.Prelude.{
  ℕ, suc, ◌+◌, ◌≤◌, String, ◌≡◌, refl, subst, Bool, false, not, ◌&&◌, Option, some, List, [], ◌∷◌,
  ◌++◌, arith, ◌==◌, nat_eq, string_eq, eq_of_==, All, if◌then◌else◌, Bool-cases, ltb, inl, inr,
}
use omarchy_yolo.Runtime.{Context, Coordinator, get_or_zero, locked}

abbrev pub count : (Context → Bool) → List Context → ℕ
count p [] = 0
count p (c ∷ cs) = if p c then suc (count p cs) else count p cs

abbrev pub waits_for : String → Context → Bool
waits_for k c = not c.acquired && c.key == k

abbrev pub holds : String → Context → Bool
holds k c = c.acquired && c.key == k

-- What holds of the coordinator between two stretches of code: all calls for a repository have its
-- lock of the table, the waiters are counted, and a repository has at most one holder.
pub record IsSafe (s : Coordinator) : Type 0 where
  pub same_lock : All (λ c. s.repo_locks c.key ≡ some c.lock) s.contexts
  pub counted : (k : String) → get_or_zero (s.repo_waiters k) ≡ count (waits_for k) s.contexts
  pub exclusive : (k : String) → count (holds k) s.contexts ≤ 1
  pub active : (k : String) → s.repo_active k ≡ ltb 0 (count (holds k) s.contexts)

pub count-append :
    (p : Context → Bool) (xs ys : List Context) → count p (xs ++ ys) ≡ count p xs + count p ys
count-append p [] ys = omega arith
count-append p (x ∷ xs) ys = ground (arith, count-append p xs ys)

pub All-split :
    (P : Context → Type 0) (xs ys : List Context) (c : Context)
    → All P (xs ++ c ∷ ys)
    → All P (xs ++ ys) × P c
All-split P [] ys c h = (h.1, h.0)
All-split P (x ∷ xs) ys c h = let (rest, here) = All-split P xs ys c h.1 in ((h.0, rest), here)

pub All-swap_in :
    (P : Context → Type 0) (xs ys : List Context) (c : Context)
    → All P (xs ++ ys)
    → P c
    → All P (xs ++ c ∷ ys)
All-swap_in P [] ys c h p = (p, h)
All-swap_in P (x ∷ xs) ys c h p = (h.0, All-swap_in P xs ys c h.1 p)

some-injective : (a b : ℕ) → some a ≡ some b → a ≡ b
some-injective a b e = cc

-- If the lock of a repository is free, nobody holds it there.
pub free-holds :
    (locks : String → Option ℕ) (key : String) (lock : ℕ) (cs : List Context)
    → All (λ c. locks c.key ≡ some c.lock) cs
    → locks key ≡ some lock
    → locked lock cs ≡ false
    → count (holds key) cs ≡ 0
unfolding locked
free-holds locks key lock [] h here free = refl
free-holds locks key lock (c ∷ cs) h here free =
    let rest = free-holds locks key lock cs h.1 here (ground arith) in
    elim (Bool-cases (holds key c)) [
      | inr other ↦ rw other rest
      | inl it ↦
          let same : c.key ≡ key = eq_of_== c.key key (ground arith) in
          let mine : locks key ≡ some c.lock = subst (λ k. locks k ≡ some c.lock) same h.0 in
          let equal : c.lock ≡ lock = cc (mine, here) in
          ground (arith, it, equal, free, nat_eq.beq_iff c.lock lock)
    ]

pub absent :
    (key : String) (cs : List Context)
    → count (holds key) cs ≡ 0
    → count (waits_for key) cs ≡ 0
    → All (λ c. (c.key == key) ≡ false) cs
absent key [] h w = tt
absent key (c ∷ cs) h w = (ground arith, absent key cs (ground arith) (ground arith))
