-- ===== src/Lock.antt =====
-- includes/opendb/core/LockManager.hpp: shared and exclusive locks on tables and rows, with queues of
-- waiters. The mutex makes each method one step, except that a wait gives it up: a blocking call is
-- cut into the part up to the first wait, the part after each wake-up, and the part after the
-- deadline. What other threads do in between are the steps that stand between these parts.
pub mod Holders
pub mod Grants
pub mod Consistent
pub mod Exclusive
pub mod Release
pub mod Waiting
pub mod Queries
pub mod Examples
use open_db.Prelude.{
  ℕ, Bool, true, false, ◌&&◌, ◌||◌, Option, none, some, List, [], ◌∷◌, ◌++◌, ◌==◌, ◌=?◌,
  if◌then◌else◌, Eq, nat_eq, Str, bytes_eq, bytes_eq_iff, bytes_Eq, arith, ◌≡◌, ◌↔◌, refl, ap,
}
use open_db.Prelude.Dict
use open_db.Prelude.Dict.{Dict}

pub data LockMode : Type 0 where
  shared exclusive : LockMode

-- A row of a table, or with the empty row key the table itself.
pub record ResourceKey : Type 0 where
  pub table : Str
  pub row : Str

unfoldable pub table_key : Str → ResourceKey
table_key table = record { table = table; row = [] }

unfoldable pub row_key : Str → Str → ResourceKey
row_key table key = record { table = table; row = key }

abbrev pub key_eq : ResourceKey → ResourceKey → Bool
key_eq a b = bytes_eq a.table b.table && bytes_eq a.row b.row

pub key_eq_iff : (a b : ResourceKey) → (key_eq a b ≡ true) ↔ (a ≡ b)
key_eq_iff a b = (
  λ h. ground (arith, bytes_eq_iff a.table b.table, bytes_eq_iff a.row b.row),
  λ e. rw e (ground (arith, bytes_eq_iff b.table b.table, bytes_eq_iff b.row b.row)),
)

instance abbrev pub key_Eq : Eq ResourceKey
key_Eq = record { beq = key_eq; beq_iff = key_eq_iff }

pub record Lock : Type 0 where
  pub mode : LockMode
  pub holders : List ℕ

pub record Waiter : Type 0 where
  pub txn : ℕ
  pub mode : LockMode

pub record LockManager : Type 0 where
  pub held : Dict ResourceKey Lock
  pub waiters : Dict ResourceKey (List Waiter)
  pub upgraders : Dict ℕ Str

unfoldable pub init : LockManager
init = record { held = []; waiters = []; upgraders = [] }

-- for (TxnId h : holders) if (h == txn) return true;
unfoldable pub contains : ℕ → List ℕ → Bool
contains txn [] = false
contains txn (h ∷ hs) = h == txn || contains txn hs

abbrev pub is_shared : LockMode → Bool
is_shared shared = true
is_shared exclusive = false

abbrev pub grantable_lock : Option Lock → ℕ → LockMode → Bool
grantable_lock none txn mode = true
grantable_lock (some l) txn mode =
    if contains txn l.holders then true else is_shared mode && is_shared l.mode

-- grantableUnlocked
unfoldable pub grantable : LockManager → ℕ → ResourceKey → LockMode → Bool
grantable lm txn key mode = grantable_lock (Dict.find key lm.held) txn mode

abbrev upgrade : LockMode → LockMode → LockMode
upgrade exclusive shared = exclusive
upgrade exclusive exclusive = exclusive
upgrade shared held = held

abbrev add_holder : ℕ → LockMode → Lock → Lock
add_holder txn exclusive l = record { mode = exclusive; holders = [] ++ txn ∷ [] }
add_holder txn shared l = record l { holders = l.holders ++ txn ∷ [] }

-- The lock that grantUnlocked leaves under the key.
abbrev pub granted_lock : Option Lock → ℕ → LockMode → Lock
granted_lock none txn mode = record { mode = mode; holders = txn ∷ [] }
granted_lock (some l) txn mode =
    if contains txn l.holders
    then record l { mode = upgrade mode l.mode }
    else add_holder txn mode l

-- grantUnlocked
unfoldable pub grant : LockManager → ℕ → ResourceKey → LockMode → LockManager
grant lm txn key mode = record lm {
  held = Dict.put key (granted_lock (Dict.find key lm.held) txn mode) lm.held;
}

abbrev pub queue : Option (List Waiter) → List Waiter
queue none = []
queue (some ws) = ws

-- waiters_[key]
unfoldable pub waiters_at : LockManager → ResourceKey → List Waiter
waiters_at lm key = queue (Dict.find key lm.waiters)

-- The loop that erases the first entry of `txn`.
unfoldable pub remove_waiter : ℕ → List Waiter → List Waiter
remove_waiter txn [] = []
remove_waiter txn (w ∷ ws) = if w.txn == txn then ws else w ∷ remove_waiter txn ws

unfoldable pub push_waiter : LockManager → ℕ → ResourceKey → LockMode → LockManager
unfolding waiters_at
push_waiter lm txn key mode = record lm {
  waiters = Dict.put key (waiters_at lm key ++ record { txn = txn; mode = mode } ∷ []) lm.waiters;
}

unfoldable pub drop_waiter : LockManager → ℕ → ResourceKey → LockManager
unfolding waiters_at
drop_waiter lm txn key = record lm {
  waiters = Dict.put key (remove_waiter txn (waiters_at lm key)) lm.waiters;
}

-- What a part of a blocking call ends with: the lock, or a wait on the condition variable.
pub data Progress : Type 0 where
  granted waiting : Progress

-- tryAcquireKey up to its first wait.
unfoldable pub try_acquire : LockManager → ℕ → ResourceKey → LockMode → LockManager × Progress
unfolding grant push_waiter
try_acquire lm txn key mode =
    if grantable lm txn key mode
    then (grant lm txn key mode, granted)
    else (push_waiter lm txn key mode, waiting)

-- tryAcquireKey after a wake-up before the deadline.
pub try_wake : LockManager → ℕ → ResourceKey → LockMode → LockManager × Progress
unfolding grant drop_waiter
try_wake lm txn key mode =
    if grantable lm txn key mode
    then (grant (drop_waiter lm txn key) txn key mode, granted)
    else (lm, waiting)

abbrev pub is_empty {ℓ} : {A : Type ℓ} → List A → Bool
is_empty [] = true
is_empty (x ∷ xs) = false

-- tryAcquireKey at the deadline; the caller gets LockAcquireResult::TimedOut.
pub try_timeout : LockManager → ℕ → ResourceKey → LockManager
unfolding drop_waiter waiters_at
try_timeout lm txn key =
    if is_empty (remove_waiter txn (waiters_at lm key))
    then record lm { waiters = Dict.erase key lm.waiters }
    else drop_waiter lm txn key

-- acquireKey, which waits for ever: the test of its loop, at the start and after each wake-up.
unfoldable pub acquire : LockManager → ℕ → ResourceKey → LockMode → LockManager × Progress
unfolding try_acquire
acquire lm txn key mode = try_acquire lm txn key mode

pub acquire_wake : LockManager → ℕ → ResourceKey → LockMode → LockManager × Progress
unfolding try_acquire drop_waiter
acquire_wake lm txn key mode = try_acquire (drop_waiter lm txn key) txn key mode

-- The loop that erases the first holder `txn`.
unfoldable pub remove_holder : ℕ → List ℕ → List ℕ
remove_holder txn [] = []
remove_holder txn (h ∷ hs) = if h == txn then hs else h ∷ remove_holder txn hs

-- What is left of a lock when `txn` gives it up: a lock that loses its last holder goes.
abbrev pub drop_holder : ℕ → Lock → Option Lock
drop_holder txn l =
    if contains txn l.holders
    then if is_empty (remove_holder txn l.holders)
      then none
      else some (record l { holders = remove_holder txn l.holders })
    else some l

-- release(txn)
unfoldable pub release : LockManager → ℕ → LockManager
release lm txn = record lm {
  held = Dict.filter_map (drop_holder txn) lm.held;
  upgraders = Dict.erase txn lm.upgraders;
}

abbrev pub put_back : ResourceKey → Option Lock → Dict ResourceKey Lock → Dict ResourceKey Lock
put_back key none held = Dict.erase key held
put_back key (some l) held = Dict.put key l held

abbrev pub release_lock :
    ℕ → ResourceKey → Option Lock → Dict ResourceKey Lock → Dict ResourceKey Lock
release_lock txn key none held = held
release_lock txn key (some l) held = put_back key (drop_holder txn l) held

-- releaseKey(txn, key); release(txn, table) is releaseKey(txn, tableKey(table)).
pub release_key : LockManager → ℕ → ResourceKey → LockManager
release_key lm txn key = record lm { held = release_lock txn key (Dict.find key lm.held) lm.held }

abbrev pub holds : ℕ → Option Lock → Bool
holds txn none = false
holds txn (some l) = contains txn l.holders

unfoldable pub is_granted_key : LockManager → ℕ → ResourceKey → Bool
is_granted_key lm txn key = holds txn (Dict.find key lm.held)

-- isGranted: on the table itself or on any of its rows.
unfoldable pub granted_in : ℕ → Str → Dict ResourceKey Lock → Bool
granted_in txn table [] = false
granted_in txn table ((k, l) ∷ m) =
    (bytes_eq k.table table && contains txn l.holders) || granted_in txn table m

pub is_granted : LockManager → ℕ → Str → Bool
unfolding granted_in
is_granted lm txn table = granted_in txn table lm.held

-- One step of some thread under the mutex.
pub data Event : Type 0 where
  acquires wakes try_acquires try_wakes : ℕ → ResourceKey → LockMode → Event
  times_out releases_key : ℕ → ResourceKey → Event
  releases : ℕ → Event

pub step : LockManager → Event → LockManager
step lm (acquires txn key mode) = (acquire lm txn key mode).0
step lm (wakes txn key mode) = (acquire_wake lm txn key mode).0
step lm (try_acquires txn key mode) = (try_acquire lm txn key mode).0
step lm (try_wakes txn key mode) = (try_wake lm txn key mode).0
step lm (times_out txn key) = try_timeout lm txn key
step lm (releases_key txn key) = release_key lm txn key
step lm (releases txn) = release lm txn

pub run : LockManager → List Event → LockManager
run lm [] = lm
run lm (e ∷ es) = run (step lm e) es
