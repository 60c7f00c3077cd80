-- ===== src/Runtime/Cleanup.antt =====
-- The end of `repo_lock` drops no count and no lock that is in use.
use omarchy_yolo.Prelude.{
  ℕ, zero, suc, String, ◌≡◌, refl, sym, ap, subst, false, Option, none, some, List, [], ◌∷◌, ◌==◌,
  nat_eq, string_eq, eq_of_==, All, if◌then◌else◌, Bool-cases, inl, inr,
}
use omarchy_yolo.Runtime.{Context, Coordinator, set, get_or_zero, locked, cleanup}
use omarchy_yolo.Runtime.Counts.{count, waits_for, IsSafe, free-holds, absent}

-- Nobody is left for the repository: its count and its lock may go.
IsSafe-drop :
    (key : String) (s : Coordinator)
    → IsSafe s
    → count (waits_for key) s.contexts ≡ 0
    → IsSafe (record s { repo_waiters = set key none s.repo_waiters })
IsSafe-drop key s safe none_waits = record {
  same_lock = safe.same_lock;
  counted = λ k. elim (Bool-cases (k == key)) [
    | inl same ↦
        let e : k ≡ key = eq_of_== k key same in
        rw same (sym (subst (λ x. count (waits_for x) s.contexts ≡ 0) (sym e) none_waits))
    | inr other ↦ rw other (safe.counted k)
  ];
  exclusive = safe.exclusive;
  active = safe.active;
}

IsSafe-forget :
    (key : String) (s : Coordinator)
    → IsSafe s
    → All (λ c. (c.key == key) ≡ false) s.contexts
    → IsSafe (record s { repo_locks = set key none s.repo_locks })
IsSafe-forget key s safe gone = record {
  same_lock = go s.contexts safe.same_lock gone;
  counted = safe.counted;
  exclusive = safe.exclusive;
  active = safe.active;
}
  where
    go :
        (cs : List Context)
        → All (λ c. s.repo_locks c.key ≡ some c.lock) cs
        → All (λ c. (c.key == key) ≡ false) cs
        → All (λ c. set key none s.repo_locks c.key ≡ some c.lock) cs
    go [] h g = tt
    go (c ∷ cs) h g = (rw g.0 h.0, go cs h.1 g.1)

pub cleanup-IsSafe :
    (key : String) (lock : ℕ) (s : Coordinator)
    → IsSafe s
    → s.repo_locks key ≡ some lock
    → IsSafe (cleanup key lock s)
unfolding cleanup
cleanup-IsSafe key lock s safe here = go (s.repo_waiters key) refl
  where
    go :
        (w : Option ℕ)
        → s.repo_waiters key ≡ w
        → IsSafe (elim w [
          | some zero ↦ record s {
            repo_waiters = set key none s.repo_waiters;
            repo_locks = if locked lock s.contexts then s.repo_locks else set key none s.repo_locks;
          }
          | _ ↦ s
        ])
    go none e = safe
    go (some (suc n)) e = safe
    go (some zero) e =
        let none_waits : count (waits_for key) s.contexts ≡ 0 =
          cc (safe.counted key, ap get_or_zero e) in
        let dropped = IsSafe-drop key s safe none_waits in
        elim (Bool-cases (locked lock s.contexts)) [
          | inl busy ↦ rw busy dropped
          | inr free ↦
              let idle = free-holds s.repo_locks key lock s.contexts safe.same_lock here free in
              rw free (
                IsSafe-forget key (record s { repo_waiters = set key none s.repo_waiters }) dropped
                  (absent key s.contexts idle none_waits))
        ]
