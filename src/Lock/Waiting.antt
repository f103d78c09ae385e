-- ===== src/Lock/Waiting.antt =====
-- The queues of waiters in tryAcquireKey: deadlines and wake-ups.
use open_db.Prelude.{
  ℕ, ◌≡◌, refl, true, false, List, [], ◌∷◌, ◌++◌, arith, ◌==◌, if◌then◌else◌, ◌=?◌, Bool-cases, inl,
  inr, ap, ◌⊎◌, =?_refl, ◌∙◌,
}
use open_db.Prelude.Dict
use open_db.Prelude.Dict.{find-put, find-erase}
use open_db.Lock.{
  LockMode, ResourceKey, key_Eq, key_eq_iff, LockManager, Waiter, grantable, grant, waiters_at,
  remove_waiter, queue, try_acquire, try_wake, try_timeout, granted, waiting, is_empty,
}
use open_db.Lock.Grants.{try_acquire_cases}
use open_db.Lock.Consistent.{held-try_timeout}

-- No entry of `txn` in a queue.
abbrev pub Absent : ℕ → List Waiter → Type 0
Absent txn [] = Unit
Absent txn (w ∷ ws) = ((w.txn == txn) ≡ false) × Absent txn ws

remove_waiter-append :
    (txn : ℕ) (mode : LockMode) (ws : List Waiter)
    → Absent txn ws
    → remove_waiter txn (ws ++ record { txn = txn; mode = mode } ∷ []) ≡ ws
unfolding remove_waiter
remove_waiter-append txn mode [] a = ground arith
remove_waiter-append txn mode (w ∷ ws) a = ground (arith, remove_waiter-append txn mode ws)

empty_eq : (ws : List Waiter) → is_empty ws ≡ true → ws ≡ []
empty_eq [] e = refl
empty_eq (w ∷ ws) e = cc

-- What tryAcquireKey does to the queues at the deadline: its first entry goes.
pub waiters_at-try_timeout :
    (lm : LockManager) (txn : ℕ) (key j : ResourceKey)
    → waiters_at (try_timeout lm txn key) j
      ≡ (if key =? j then remove_waiter txn (waiters_at lm key) else waiters_at lm j)
unfolding try_timeout waiters_at
waiters_at-try_timeout lm txn key j = ground (
  arith,
  find-put key j (remove_waiter txn (queue (Dict.find key lm.waiters))) lm.waiters,
  find-erase key j lm.waiters,
  empty_eq (remove_waiter txn (queue (Dict.find key lm.waiters))),
)

-- tryAcquireKey that waits and then meets its deadline leaves every lock and every queue as they
-- were, if its transaction was not in that queue before.
pub try_timeout-try_acquire :
    (lm : LockManager) (txn : ℕ) (key : ResourceKey) (mode : LockMode)
    → (try_acquire lm txn key mode).1 ≡ waiting
    → Absent txn (waiters_at lm key)
    → ((try_timeout (try_acquire lm txn key mode).0 txn key).held ≡ lm.held)
      × ((j : ResourceKey)
          → waiters_at (try_timeout (try_acquire lm txn key mode).0 txn key) j ≡ waiters_at lm j)
try_timeout-try_acquire lm txn key mode w a = elim (try_acquire_cases lm txn key mode) [
  | inl g ↦ cc
  | inr (conflict, waits) ↦ (
    held-try_timeout (try_acquire lm txn key mode).0 txn key ∙ waits.1,
    λ j.
        let own : waiters_at (try_acquire lm txn key mode).0 key
            ≡ waiters_at lm key ++ record { txn = txn; mode = mode } ∷ [] =
          rw (waits.2 key, =?_refl key) in
        rw (waiters_at-try_timeout, own, remove_waiter-append txn mode (waiters_at lm key) a)
          (ground (arith, waits.2 j, ap (waiters_at lm) {x = key} {y = j}, key_eq_iff key j)),
  )
]

-- A wake-up that finds the resource free grants it and takes the entry out of the queue; any
-- other wake-up changes nothing.
pub try_wake_cases :
    (lm : LockManager) (txn : ℕ) (key : ResourceKey) (mode : LockMode)
    → ((grantable lm txn key mode ≡ true)
        × ((try_wake lm txn key mode).1 ≡ granted)
        × ((try_wake lm txn key mode).0.held ≡ (grant lm txn key mode).held)
        × ((j : ResourceKey)
            → waiters_at (try_wake lm txn key mode).0 j
              ≡ (if key =? j then remove_waiter txn (waiters_at lm key) else waiters_at lm j)))
      ⊎ ((grantable lm txn key mode ≡ false) × (try_wake lm txn key mode ≡ (lm, waiting)))
unfolding try_wake waiters_at
try_wake_cases lm txn key mode = elim (Bool-cases (grantable lm txn key mode)) [
  | inl e ↦ inl (
    e,
    rw (e, try_wake),
    rw (e, try_wake) (unfold grant in refl),
    λ j. rw (e, try_wake, find-put) (ground arith),
  )
  | inr e ↦ inr (e, rw (e, try_wake))
]
