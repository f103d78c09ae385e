-- ===== src/Lock/Queries.antt =====
-- The read-only queries of LockManager.hpp that deadlock detection uses. An unordered_set is the list
-- of its elements in the order of insertion; the order of iteration is left open by C++.
use open_db.Prelude.{ℕ, ◌≡◌, refl, ◌||◌, List, [], ◌∷◌, ◌++◌, arith, if◌then◌else◌, Str, bytes_eq}
use open_db.Prelude.Dict.{Dict}
use open_db.Lock.{ResourceKey, Lock, LockManager, Waiter, contains, granted_in, is_granted}
use open_db.Lock.Holders.{contains-append, same_test}

-- uniq.insert(h) for each h
unfoldable pub insert_all : List ℕ → List ℕ → List ℕ
insert_all [] uniq = uniq
insert_all (h ∷ hs) uniq = insert_all hs (if contains h uniq then uniq else uniq ++ h ∷ [])

unfoldable pub collect_holders : Str → Dict ResourceKey Lock → List ℕ → List ℕ
collect_holders table [] uniq = uniq
collect_holders table ((k, l) ∷ m) uniq =
    collect_holders table m (if bytes_eq k.table table then insert_all l.holders uniq else uniq)

unfoldable pub get_holders : LockManager → Str → List ℕ
get_holders lm table = collect_holders table lm.held []

abbrev pub txns : List Waiter → List ℕ
txns [] = []
txns (w ∷ ws) = w.txn ∷ txns ws

collect_waiters : Str → Dict ResourceKey (List Waiter) → List ℕ → List ℕ
collect_waiters table [] uniq = uniq
collect_waiters table ((k, ws) ∷ m) uniq =
    collect_waiters table m (if bytes_eq k.table table then insert_all (txns ws) uniq else uniq)

pub get_waiters : LockManager → Str → List ℕ
get_waiters lm table = collect_waiters table lm.waiters []

-- The resource of the first queue that holds `txn`, or the key of two empty strings.
unfoldable pub find_waiter : ℕ → Dict ResourceKey (List Waiter) → ResourceKey
find_waiter txn [] = record { table = []; row = [] }
find_waiter txn ((k, ws) ∷ m) = if contains txn (txns ws) then k else find_waiter txn m

unfoldable pub waiter_resource : LockManager → ℕ → ResourceKey
unfolding find_waiter
waiter_resource lm txn = find_waiter txn lm.waiters

unfoldable pub waiter_table : LockManager → ℕ → Str
unfolding waiter_resource
waiter_table lm txn = (waiter_resource lm txn).table

contains-insert_all :
    (t : ℕ) (hs uniq : List ℕ)
    → contains t (insert_all hs uniq) ≡ (contains t hs || contains t uniq)
unfolding contains insert_all
contains-insert_all t [] uniq = refl
contains-insert_all t (h ∷ hs) uniq = ground (
  arith,
  contains-insert_all t hs uniq,
  contains-insert_all t hs (uniq ++ h ∷ []),
  contains-append t h uniq,
  same_test h t (λ x. contains x uniq),
)

contains-collect_holders :
    (t : ℕ) (table : Str) (m : Dict ResourceKey Lock) (uniq : List ℕ)
    → contains t (collect_holders table m uniq) ≡ (granted_in t table m || contains t uniq)
unfolding collect_holders granted_in
contains-collect_holders t table [] uniq = refl
contains-collect_holders t table ((k, l) ∷ m) uniq = ground (
  arith,
  contains-collect_holders t table m uniq,
  contains-collect_holders t table m (insert_all l.holders uniq),
  contains-insert_all t l.holders uniq,
)

-- getHolders(table) lists exactly the transactions for which isGranted(txn, table) is true.
pub contains-get_holders :
    (lm : LockManager) (t : ℕ) (table : Str)
    → contains t (get_holders lm table) ≡ is_granted lm t table
unfolding get_holders is_granted contains
contains-get_holders lm t table = ground (arith, contains-collect_holders t table lm.held [])
