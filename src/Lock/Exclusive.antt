-- ===== src/Lock/Exclusive.antt =====
-- Exclusive locks of LockManager: their holders, and requests for an upgrade.
use open_db.Prelude.{
  ℕ, suc, ◌<◌, ◌≡◌, refl, Bool, true, false, ◌&&◌, Option, none, some, List, [], ◌∷◌, arith,
  Bool-cases, inl, inr, length, ltb,
}
use open_db.Prelude.Dict
use open_db.Prelude.Dict.{Dict, Unique, find-put}
use open_db.Lock.{
  LockMode, shared, exclusive, ResourceKey, Lock, LockManager, Event, acquires, wakes, try_acquires,
  try_wakes, times_out, releases_key, releases, init, contains, grantable, grantable_lock,
  granted_lock, drop_waiter, try_acquire, try_wake, acquire, acquire_wake, drop_holder,
  remove_holder, release, release_key, step, run, granted, key_Eq, is_empty,
}
use open_db.Lock.Holders.{Each}
use open_db.Lock.Consistent.{
  IsConsistent, Each-put, Each-drop, Each-release_lock, held-try_timeout, step-IsConsistent,
}

-- An exclusive lock has one holder.
abbrev IsSole : Lock → Type 0
IsSole l = l.mode ≡ exclusive → length l.holders ≡ 1

-- A holder asks for exclusive access to a resource that it shares with others.
abbrev upgrades_shared : Option Lock → ℕ → LockMode → Bool
upgrades_shared none txn mode = false
upgrades_shared (some l) txn shared = false
upgrades_shared (some l) txn exclusive = contains txn l.holders && ltb 1 (length l.holders)

unfoldable pub upgrades : LockManager → Event → Bool
upgrades lm (acquires txn key mode) = upgrades_shared (Dict.find key lm.held) txn mode
upgrades lm (wakes txn key mode) = upgrades_shared (Dict.find key lm.held) txn mode
upgrades lm (try_acquires txn key mode) = upgrades_shared (Dict.find key lm.held) txn mode
upgrades lm (try_wakes txn key mode) = upgrades_shared (Dict.find key lm.held) txn mode
upgrades lm (times_out txn key) = false
upgrades lm (releases_key txn key) = false
upgrades lm (releases txn) = false

-- No step of the history is such a request.
abbrev NoUpgrade : LockManager → List Event → Type 0
NoUpgrade lm [] = Unit
NoUpgrade lm (e ∷ es) = (upgrades lm e ≡ false) × NoUpgrade (step lm e) es

length-pos : (t : ℕ) (hs : List ℕ) → contains t hs ≡ true → 0 < length hs
unfolding contains
length-pos t [] h = cc
length-pos t (x ∷ hs) h = omega arith

length-remove_holder :
    (t : ℕ) (hs : List ℕ) → contains t hs ≡ true → suc (length (remove_holder t hs)) ≡ length hs
unfolding contains remove_holder
length-remove_holder t [] h = cc
length-remove_holder t (x ∷ hs) h = ground (arith, length-remove_holder t hs)

granted_lock-IsSole :
    (o : Option Lock) (txn : ℕ) (mode : LockMode)
    → grantable_lock o txn mode ≡ true
    → upgrades_shared o txn mode ≡ false
    → Each IsSole o
    → IsSole (granted_lock o txn mode)
granted_lock-IsSole none txn mode g n p = λ e. refl
granted_lock-IsSole (some l) txn shared g n p = ground arith
granted_lock-IsSole (some l) txn exclusive g n p = ground (arith, length-pos txn l.holders)

length-nonempty : {A : Type 0} (xs : List A) → is_empty xs ≡ false → 0 < length xs
length-nonempty [] h = cc
length-nonempty (x ∷ xs) h = omega arith

drop_holder-IsSole : (txn : ℕ) (l : Lock) → IsSole l → Each IsSole (drop_holder txn l)
drop_holder-IsSole txn l p =
    ground
      (arith, length-remove_holder txn l.holders, length-nonempty (remove_holder txn l.holders))

-- Every lock of the manager is exclusive to one holder or shared.
abbrev AllSole : LockManager → Type 0
AllSole lm = (key : ResourceKey) → Each IsSole (Dict.find key lm.held)

try_acquire-AllSole :
    (lm : LockManager) (txn : ℕ) (key : ResourceKey) (mode : LockMode)
    → upgrades_shared (Dict.find key lm.held) txn mode ≡ false
    → AllSole lm
    → AllSole (try_acquire lm txn key mode).0
unfolding try_acquire grantable
try_acquire-AllSole lm txn key mode n v = elim (Bool-cases (grantable lm txn key mode)) [
  | inl e ↦
      rw (e, try_acquire)
        (Each-put IsSole key _ lm.held (granted_lock-IsSole _ txn mode e n (v key)) v)
  | inr e ↦ rw (e, try_acquire) v
]

try_wake-AllSole :
    (lm : LockManager) (txn : ℕ) (key : ResourceKey) (mode : LockMode)
    → upgrades_shared (Dict.find key lm.held) txn mode ≡ false
    → AllSole lm
    → AllSole (try_wake lm txn key mode).0
unfolding try_wake grantable
try_wake-AllSole lm txn key mode n v = elim (Bool-cases (grantable lm txn key mode)) [
  | inl e ↦
      rw (e, try_wake)
        (Each-put IsSole key _ lm.held (granted_lock-IsSole _ txn mode e n (v key)) v)
  | inr e ↦ rw (e, try_wake) v
]

step-AllSole :
    (lm : LockManager) (e : Event)
    → upgrades lm e ≡ false
    → IsConsistent lm
    → AllSole lm
    → AllSole (step lm e)
unfolding step acquire acquire_wake upgrades release release_key
step-AllSole lm (acquires txn key mode) n c v = try_acquire-AllSole lm txn key mode n v
step-AllSole lm (wakes txn key mode) n c v =
    try_acquire-AllSole (drop_waiter lm txn key) txn key mode n v
step-AllSole lm (try_acquires txn key mode) n c v = try_acquire-AllSole lm txn key mode n v
step-AllSole lm (try_wakes txn key mode) n c v = try_wake-AllSole lm txn key mode n v
step-AllSole lm (times_out txn key) n c v = λ j. rw (held-try_timeout lm txn key) (v j)
step-AllSole lm (releases_key txn key) n c v =
    Each-release_lock IsSole txn (drop_holder-IsSole txn) key lm.held v
step-AllSole lm (releases txn) n c v =
    Each-drop IsSole txn (drop_holder-IsSole txn) lm.held c.unique v

run-AllSole :
    (lm : LockManager) (es : List Event)
    → NoUpgrade lm es
    → IsConsistent lm
    → AllSole lm
    → AllSole (run lm es)
unfolding run
run-AllSole lm [] n c v = v
run-AllSole lm (e ∷ es) n c v =
    run-AllSole (step lm e) es n.1 (step-IsConsistent lm e c) (step-AllSole lm e n.0 c v)

sole_member :
    (a b : ℕ) (hs : List ℕ) → length hs ≡ 1 → contains a hs ≡ true → contains b hs ≡ true → a ≡ b
unfolding contains
sole_member a b [] n ha hb = cc
sole_member a b (x ∷ []) n ha hb = ground arith
sole_member a b (x ∷ y ∷ hs) n ha hb = absurd (omega arith)

-- After any steps on a new manager in which no holder asks for exclusive access to a resource
-- that it shares with others, two holders of an exclusive lock are one transaction.
pub run_exclusion :
    (es : List Event) (key : ResourceKey) (l : Lock) (a b : ℕ)
    → NoUpgrade init es
    → Dict.find key (run init es).held ≡ some l
    → l.mode ≡ exclusive
    → contains a l.holders ≡ true
    → contains b l.holders ≡ true
    → a ≡ b
unfolding init Dict.find
run_exclusion es key l a b n f m ha hb =
    let sole : IsSole l =
      rw f at (run-AllSole init es n (record { unique = tt; proper = λ k. tt }) (λ k. tt) key) in
    sole_member a b l.holders (sole m) ha hb

-- A transaction that shares a resource with another and asks for exclusive access gets it at
-- once, and the lock is then exclusive and still held by both.
pub upgrade_unsafe :
    (lm : LockManager) (key : ResourceKey) (l : Lock) (a b : ℕ)
    → Dict.find key lm.held ≡ some l
    → l.mode ≡ shared
    → contains a l.holders ≡ true
    → contains b l.holders ≡ true
    → ((try_acquire lm a key exclusive).1 ≡ granted)
      × ((l' : Lock) × (Dict.find key (try_acquire lm a key exclusive).0.held ≡ some l')
          × (l'.mode ≡ exclusive)
          × (contains a l'.holders ≡ true)
          × (contains b l'.holders ≡ true))
unfolding try_acquire grantable
upgrade_unsafe lm key l a b f m ha hb =
    let now : grantable lm a key exclusive ≡ true = rw (f, ha) in
    (
      rw (now, try_acquire),
      (
        record { mode = exclusive; holders = l.holders },
        rw (now, try_acquire, Dict.find-put_self, f, ha, m),
        refl,
        ha,
        hb,
      ),
    )
