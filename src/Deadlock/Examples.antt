-- ===== src/Deadlock/Examples.antt =====
-- Deadlock detection on two transactions that wait for each other.
use open_db.Lock.Queries.{collect_holders, get_holders, insert_all, waiter_table}
use open_db.Prelude.{ℕ, ◌≡◌, refl, some, List, [], ◌∷◌, arith, codes}
use open_db.Lock.{contains, LockManager, ResourceKey, exclusive, Lock, Waiter}
use open_db.Deadlock.{scan_holders, walk, detect_cycle}
use open_db.Deadlock.Chains.{Chain, detect_cycle_sound, detect_cycle_complete}

abbrev a : ResourceKey
a = record { table = codes "a"; row = [] }

abbrev b : ResourceKey
b = record { table = codes "b"; row = [] }

abbrev held_by : ℕ → Lock
held_by txn = record { mode = exclusive; holders = txn ∷ [] }

abbrev waits : ℕ → List Waiter
waits txn = record { txn = txn; mode = exclusive } ∷ []

-- Transaction 1 holds a and waits for b, which 2 holds.
abbrev before : LockManager
before = record {
  held = (a, held_by 1) ∷ (b, held_by 2) ∷ [];
  waiters = (b, waits 1) ∷ [];
  upgraders = [];
}

-- And 2 waits for a.
abbrev manager : LockManager
manager = record before { waiters = (b, waits 1) ∷ (a, waits 2) ∷ [] }

abbrev first : ℕ
first = 1

detect_cycle_sound_example : (first ≡ first) × Chain manager first first
unfolding detect_cycle waiter_table contains walk scan_holders get_holders collect_holders
    insert_all
detect_cycle_sound_example = detect_cycle_sound manager first first refl

detect_cycle_complete_example : detect_cycle manager 1 ≡ some 1
unfolding waiter_table contains get_holders collect_holders insert_all
detect_cycle_complete_example =
    detect_cycle_complete manager 1 1 refl (2, refl, refl, refl, refl) (omega arith)
