-- ===== src/Deadlock.antt =====
-- includes/opendb/core/DeadlockDetector.hpp: the walk along one chain of waits, at most 1024 hops. The
-- detector has no mutex, and each of its queries takes that of LockManager anew; the model is the walk
-- during which no other thread changes the lock manager.
pub mod Chains
pub mod Examples
use open_db.Prelude.{
  ℕ, zero, suc, Bool, true, false, Option, none, some, List, [], ◌∷◌, ◌==◌, if◌then◌else◌, Str,
}
use open_db.Lock.{LockManager, is_empty}
use open_db.Lock.Queries.{get_holders, waiter_table}

-- How the loop over the holders of one table ends.
pub data Hop : Type 0 where
  closed : Hop
  follow : Str → Hop
  stop : Hop

unfoldable pub scan_holders : LockManager → ℕ → List ℕ → Hop
scan_holders lm origin [] = stop
scan_holders lm origin (holder ∷ rest) =
    if holder == origin
    then closed
    else if is_empty (waiter_table lm holder)
    then scan_holders lm origin rest
    else follow (waiter_table lm holder)

-- The loop over hops; the first argument is the number of rounds left.
unfoldable pub walk : ℕ → LockManager → ℕ → Str → Option ℕ
walk zero lm origin table = none
walk (suc n) lm origin table = elim (scan_holders lm origin (get_holders lm table)) [
  | closed ↦ some origin
  | follow next ↦ walk n lm origin next
  | stop ↦ none
]

abbrev pub max_hops : ℕ
max_hops = 1024

unfoldable pub detect_cycle : LockManager → ℕ → Option ℕ
detect_cycle lm origin =
    if is_empty (waiter_table lm origin)
    then none
    else walk max_hops lm origin (waiter_table lm origin)
