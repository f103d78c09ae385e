-- ===== src/Lock/Examples.antt =====
-- LockManager on concrete inputs.
use open_db.Prelude.{ℕ, ◌≡◌, refl, ◌⊎◌, true, false, some, List, [], ◌∷◌, ◌++◌, codes}
use open_db.Prelude.Dict
use open_db.Lock.{
  acquire, acquire_wake, remove_holder, step, shared, exclusive, ResourceKey, key_Eq, Lock, Event,
  acquires, wakes, releases, init, contains, grantable, waiters_at, try_acquire, try_timeout,
  release, is_granted_key, run, granted,
}
use open_db.Lock.Consistent.{IsConsistent, run-init-IsConsistent}
use open_db.Lock.Exclusive.{upgrades, run_exclusion, upgrade_unsafe}
use open_db.Lock.Grants.{Granted, Conflict, Waits, try_acquire_cases}
use open_db.Lock.Release.{is_granted_key-release}
use open_db.Lock.Waiting.{try_timeout-try_acquire}

abbrev row : ResourceKey
row = record { table = codes "t"; row = codes "1" }

-- Transaction 1 holds the row exclusively, and 2 waits for it.
abbrev contended : List Event
contended = acquires 1 row exclusive ∷ acquires 2 row shared ∷ []

-- Transactions 1 and 2 share the row.
abbrev sharing : List Event
sharing = acquires 1 row shared ∷ acquires 2 row shared ∷ []

run-init-IsConsistent_example : IsConsistent (run init contended)
run-init-IsConsistent_example = run-init-IsConsistent contended

abbrev first : ℕ
first = 1

run_exclusion_example : first ≡ first
unfolding upgrades Dict.find init step acquire grantable Dict.put run contains
run_exclusion_example =
    run_exclusion contended row (record { mode = exclusive; holders = 1 ∷ [] }) first first
      (refl, (refl, tt)) refl refl refl refl

try_acquire_cases_example :
    (¬ Conflict (run init contended) 3 row shared × Granted (run init contended) 3 row shared)
    ⊎ (Conflict (run init contended) 3 row shared × Waits (run init contended) 3 row shared)
try_acquire_cases_example = try_acquire_cases (run init contended) 3 row shared

is_granted_key-release_example : is_granted_key (release (run init contended) 1) 1 row ≡ false
is_granted_key-release_example =
    is_granted_key-release (run init contended) 1 1 row (run-init-IsConsistent contended)

try_timeout-try_acquire_example :
    ((try_timeout (try_acquire (run init contended) 3 row shared).0 3 row).held
      ≡ (run init contended).held)
    × ((j : ResourceKey)
        → waiters_at (try_timeout (try_acquire (run init contended) 3 row shared).0 3 row) j
          ≡ waiters_at (run init contended) j)
unfolding try_acquire grantable Dict.find run step acquire init Dict.put contains
try_timeout-try_acquire_example =
    try_timeout-try_acquire (run init contended) 3 row shared refl (refl, tt)

upgrade_unsafe_example :
    ((try_acquire (run init sharing) 1 row exclusive).1 ≡ granted)
    × ((l' : Lock) × (Dict.find row (try_acquire (run init sharing) 1 row exclusive).0.held
          ≡ some l')
        × (l'.mode ≡ exclusive)
        × (contains 1 l'.holders ≡ true)
        × (contains 2 l'.holders ≡ true))
unfolding Dict.find run step acquire grantable init Dict.put contains
upgrade_unsafe_example =
    upgrade_unsafe (run init sharing) row (record { mode = shared; holders = 1 ∷ 2 ∷ [] }) 1 2 refl
      refl refl refl

-- After the holder releases, the waiter gets the row at its next wake-up.
handed_over :
    is_granted_key (run init (contended ++ releases 1 ∷ wakes 2 row shared ∷ [])) 2 row ≡ true
unfolding is_granted_key Dict.find run step acquire_wake grantable release Dict.filter_map acquire
    init Dict.put contains remove_holder
handed_over = refl
