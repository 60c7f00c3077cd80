-- ===== src/Runtime/Steps.antt =====
-- Each stretch of `repo_lock` keeps the coordinator safe.
use omarchy_yolo.Prelude.{
  ℕ, zero, suc, ◌+◌, String, ◌≡◌, refl, sym, ap, subst, Bool, true, false, Option, none, some, List,
  [], ◌∷◌, ◌++◌, arith, ◌==◌, nat_eq, string_eq, ==-refl, ==-comm, eq_of_==, All, if◌then◌else◌,
  Bool-cases, inl, inr,
}
use omarchy_yolo.Runtime.{
  Context, Coordinator, set, get_or_zero, lock_of, waiting_context, locked, enter, decrement,
  acquire, cancel, release,
}
use omarchy_yolo.Runtime.Counts.{
  count, waits_for, holds, IsSafe, count-append, All-split, All-swap_in, free-holds,
}
use omarchy_yolo.Runtime.Cleanup.{cleanup-IsSafe}

pub enter-IsSafe : (key : String) (s : Coordinator) → IsSafe s → IsSafe (enter key s)
unfolding enter
enter-IsSafe key s safe = record {
  same_lock = (rw (==-refl key) refl, go s.contexts safe.same_lock);
  counted = λ k. elim (Bool-cases (k == key)) [
    | inl same ↦
        let e : k ≡ key = eq_of_== k key same in
        let back : (key == k) ≡ true = rw e (==-refl key) in
        rw (same, back)
          (ap suc (
            subst (λ x. get_or_zero (s.repo_waiters x) ≡ count (waits_for k) s.contexts) e
              (safe.counted k)))
    | inr other ↦
        let back : (key == k) ≡ false = rw (==-comm key k) other in
        rw (other, back) (safe.counted k)
  ];
  exclusive = safe.exclusive;
  active = safe.active;
}
  where
    go :
        (cs : List Context)
        → All (λ c. s.repo_locks c.key ≡ some c.lock) cs
        → All
            (λ c.
              set key (some (lock_of (s.repo_locks key) s.next_lock)) s.repo_locks c.key
              ≡ some c.lock)
            cs
    go [] h = tt
    go (c ∷ cs) h = elim (Bool-cases (c.key == key)) [
      | inl same ↦
          let mine : s.repo_locks key ≡ some c.lock =
            subst (λ k. s.repo_locks k ≡ some c.lock) (eq_of_== c.key key same) h.0 in
          (rw (same, mine) refl, go cs h.1)
      | inr other ↦ (rw other h.0, go cs h.1)
    ]

-- One waiter less, for the key alone.
decrement_parts :
    (key : String) (waiters after : String → Option ℕ)
    → decrement key waiters ≡ some after
    → (k : String)
    → get_or_zero (waiters k)
      ≡ (if k == key then suc (get_or_zero (after k)) else get_or_zero (after k))
unfolding decrement
decrement_parts key waiters after h k = go (waiters key) refl h
  where
    go :
        (w : Option ℕ)
        → waiters key ≡ w
        → elim w as (λ _. Option (String → Option ℕ)) [
          | some (suc n) ↦ some (set key (some n) waiters)
          | _ ↦ none
        ]
          ≡ some after
        → get_or_zero (waiters k)
          ≡ (if k == key then suc (get_or_zero (after k)) else get_or_zero (after k))
    go none e h = cc
    go (some zero) e h = cc
    go (some (suc n)) e h =
        let same_table : set key (some n) waiters ≡ after = cc in
        let value : set key (some n) waiters k ≡ after k = ap (λ f. f k) same_table in
        elim (Bool-cases (k == key)) [
          | inl same ↦
              let it : some n ≡ after k = rw same at value in
              let here : waiters k ≡ some (suc n) = rw (eq_of_== k key same) e in
              rw (same, here, sym it) refl
          | inr other ↦ let it : waiters k ≡ after k = rw other at value in rw (other, it) refl
        ]

pub acquire-IsSafe :
    (xs ys : List Context) (key : String) (lock : ℕ) (after : String → Option ℕ) (s : Coordinator)
    → IsSafe s
    → s.contexts ≡ xs ++ waiting_context key lock ∷ ys
    → locked lock s.contexts ≡ false
    → decrement key s.repo_waiters ≡ some after
    → IsSafe (acquire key after (xs ++ record { key = key; lock = lock; acquired = true } ∷ ys) s)
unfolding acquire
acquire-IsSafe xs ys key lock after s safe e free d =
    let held : Context = record { key = key; lock = lock; acquired = true } in
    let wait = waiting_context key lock in
    let (others, mine) =
      All-split (λ c. s.repo_locks c.key ≡ some c.lock) xs ys wait
        (subst (All (λ c. s.repo_locks c.key ≡ some c.lock)) e safe.same_lock) in
    let idle : count (holds key) s.contexts ≡ 0 =
      free-holds s.repo_locks key lock s.contexts safe.same_lock mine free in
    let before : (p : Context → Bool) → count p s.contexts ≡ count p xs + count p (wait ∷ ys) =
      λ p. rw e (count-append p xs (wait ∷ ys)) in
    let now : (k : String)
        → count (holds k) (xs ++ held ∷ ys) ≡ (if k == key then 1 else count (holds k) s.contexts) =
      λ k. elim (Bool-cases (k == key)) [
        | inl same ↦
            let idle_k : count (holds k) s.contexts ≡ 0 =
              subst (λ x. count (holds x) s.contexts ≡ 0) (sym (eq_of_== k key same)) idle in
            rw same (
              ground (
                arith,
                idle_k,
                before (holds k),
                count-append (holds k) xs (held ∷ ys),
                ==-comm key k,
                same,
              ))
        | inr other ↦ rw other (
            ground (
              arith,
              before (holds k),
              count-append (holds k) xs (held ∷ ys),
              ==-comm key k,
              other,
            ))
      ] in
    record {
      same_lock = All-swap_in (λ c. s.repo_locks c.key ≡ some c.lock) xs ys held others mine;
      counted = λ k. ground (
        arith,
        decrement_parts key s.repo_waiters after d k,
        safe.counted k,
        before (waits_for k),
        count-append (waits_for k) xs (held ∷ ys),
        ==-comm key k,
      );
      exclusive = λ k. ground (arith, now k, safe.exclusive k);
      active = λ k. ground (arith, now k, safe.active k);
    }

pub cancel-IsSafe :
    (xs ys : List Context) (key : String) (lock : ℕ) (after : String → Option ℕ) (s : Coordinator)
    → IsSafe s
    → s.contexts ≡ xs ++ waiting_context key lock ∷ ys
    → decrement key s.repo_waiters ≡ some after
    → IsSafe (cancel key lock after (xs ++ ys) s)
unfolding cancel
cancel-IsSafe xs ys key lock after s safe e d =
    let wait = waiting_context key lock in
    let (others, mine) =
      All-split (λ c. s.repo_locks c.key ≡ some c.lock) xs ys wait
        (subst (All (λ c. s.repo_locks c.key ≡ some c.lock)) e safe.same_lock) in
    let before : (p : Context → Bool) → count p s.contexts ≡ count p xs + count p (wait ∷ ys) =
      λ p. rw e (count-append p xs (wait ∷ ys)) in
    let now : (k : String) → count (holds k) (xs ++ ys) ≡ count (holds k) s.contexts =
      λ k. ground (arith, before (holds k), count-append (holds k) xs ys) in
    cleanup-IsSafe key lock _
      (record {
        same_lock = others;
        counted = λ k. ground (
          arith,
          decrement_parts key s.repo_waiters after d k,
          safe.counted k,
          before (waits_for k),
          count-append (waits_for k) xs ys,
          ==-comm key k,
        );
        exclusive = λ k. rw (now k) (safe.exclusive k);
        active = λ k. rw (now k) (safe.active k);
      })
      mine

pub release-IsSafe :
    (xs ys : List Context) (key : String) (lock : ℕ) (s : Coordinator)
    → IsSafe s
    → s.contexts ≡ xs ++ record { key = key; lock = lock; acquired = true } ∷ ys
    → IsSafe (release key lock (xs ++ ys) s)
unfolding release
release-IsSafe xs ys key lock s safe e =
    let held : Context = record { key = key; lock = lock; acquired = true } in
    let (others, mine) =
      All-split (λ c. s.repo_locks c.key ≡ some c.lock) xs ys held
        (subst (All (λ c. s.repo_locks c.key ≡ some c.lock)) e safe.same_lock) in
    let before : (p : Context → Bool) → count p s.contexts ≡ count p xs + count p (held ∷ ys) =
      λ p. rw e (count-append p xs (held ∷ ys)) in
    cleanup-IsSafe key lock _
      (record {
        same_lock = others;
        counted = λ k.
            ground (arith, safe.counted k, before (waits_for k), count-append (waits_for k) xs ys);
        exclusive =
            λ k. ground (arith, safe.exclusive k, before (holds k), count-append (holds k) xs ys);
        active = λ k. ground (
          arith,
          safe.exclusive k,
          safe.active k,
          before (holds k),
          count-append (holds k) xs ys,
          ==-comm key k,
        );
      })
      mine
