-- ===== src/Lock/Consistent.antt =====
-- The invariant of the table of held locks, over every sequence of steps.
use open_db.Prelude.{
  ℕ, ◌≡◌, Option, none, some, List, [], ◌∷◌, arith, ◌=?◌, Bool-cases, Option-cases, inl, inr,
}
use open_db.Prelude.Dict
use open_db.Prelude.Dict.{
  Dict, Unique, find-put, find-erase, find-filter_map, put-Unique, erase-Unique, filter_map-Unique,
}
use open_db.Lock.{
  LockMode, ResourceKey, Lock, LockManager, Event, acquires, wakes, try_acquires, try_wakes,
  times_out, releases_key, releases, init, grantable, grant, drop_waiter, try_acquire, try_wake,
  try_timeout, acquire, acquire_wake, drop_holder, release, release_key, release_lock, step, run,
  key_Eq,
}
use open_db.Lock.Holders.{IsProper, Each, granted_lock-IsProper, drop_holder-IsProper}

-- Every resource has one lock at most, and every lock has distinct holders, one at least.
pub record IsConsistent (lm : LockManager) : Type 0 where
  pub unique : Unique lm.held
  pub proper : (key : ResourceKey) → Each IsProper (Dict.find key lm.held)

-- A property of each lock that putting, erasing and dropping holders keep.
module _ (P : Lock → Type 0) where
  pub Each-put :
      (key : ResourceKey) (l : Lock) (held : Dict ResourceKey Lock)
      → P l
      → ((j : ResourceKey) → Each P (Dict.find j held))
      → (j : ResourceKey) → Each P (Dict.find j (Dict.put key l held))
  Each-put key l held p h j = elim (Bool-cases (key =? j)) [
    | inl e ↦ rw (find-put, e) p
    | inr e ↦ rw (find-put, e) (h j)
  ]

  pub Each-erase :
      (key : ResourceKey) (held : Dict ResourceKey Lock)
      → ((j : ResourceKey) → Each P (Dict.find j held))
      → (j : ResourceKey) → Each P (Dict.find j (Dict.erase key held))
  Each-erase key held h j = elim (Bool-cases (key =? j)) [
    | inl e ↦ rw (find-erase, e) tt
    | inr e ↦ rw (find-erase, e) (h j)
  ]

  pub Each-drop :
      (txn : ℕ)
      → ((l : Lock) → P l → Each P (drop_holder txn l))
      → (held : Dict ResourceKey Lock) → Unique held
      → ((j : ResourceKey) → Each P (Dict.find j held))
      → (j : ResourceKey) → Each P (Dict.find j (Dict.filter_map (drop_holder txn) held))
  Each-drop txn keep held u h j = elim (Option-cases (Dict.find j held)) [
    | inl e ↦ rw (find-filter_map (drop_holder txn) j held u, e) tt
    | inr (l, e) ↦ rw (find-filter_map (drop_holder txn) j held u, e) (keep l (rw e at (h j)))
  ]

  pub Each-release_lock :
      (txn : ℕ)
      → ((l : Lock) → P l → Each P (drop_holder txn l))
      → (key : ResourceKey) (held : Dict ResourceKey Lock)
      → ((j : ResourceKey) → Each P (Dict.find j held))
      → (j : ResourceKey) → Each P (Dict.find j (release_lock txn key (Dict.find key held) held))
  Each-release_lock txn keep key held h j = elim (Option-cases (Dict.find key held)) [
    | inl e ↦ rw e (h j)
    | inr (l, e) ↦ rw e (elim (Option-cases (drop_holder txn l)) [
      | inl f ↦ rw f (Each-erase key held h j)
      | inr (l', f) ↦ rw f (Each-put key l' held (rw f at (keep l (rw e at (h key)))) h j)
    ])
  ]

release_lock-Unique :
    (txn : ℕ) (key : ResourceKey) (o : Option Lock) (held : Dict ResourceKey Lock)
    → Unique held
    → Unique (release_lock txn key o held)
release_lock-Unique txn key none held u = u
release_lock-Unique txn key (some l) held u = elim (Option-cases (drop_holder txn l)) [
  | inl f ↦ rw f (erase-Unique key held u)
  | inr (l', f) ↦ rw f (put-Unique key l' held u)
]

grant-IsConsistent :
    (lm : LockManager) (txn : ℕ) (key : ResourceKey) (mode : LockMode)
    → IsConsistent lm
    → IsConsistent (grant lm txn key mode)
unfolding grant
grant-IsConsistent lm txn key mode v = record {
  unique = put-Unique key _ lm.held v.unique;
  proper =
      Each-put IsProper key _ lm.held (granted_lock-IsProper _ txn mode (v.proper key)) v.proper;
}

try_acquire-IsConsistent :
    (lm : LockManager) (txn : ℕ) (key : ResourceKey) (mode : LockMode)
    → IsConsistent lm
    → IsConsistent (try_acquire lm txn key mode).0
unfolding try_acquire
try_acquire-IsConsistent lm txn key mode v = elim (Bool-cases (grantable lm txn key mode)) [
  | inl e ↦ rw (e, try_acquire) (grant-IsConsistent lm txn key mode v)
  | inr e ↦ rw (e, try_acquire) (record { unique = v.unique; proper = v.proper })
]

try_wake-IsConsistent :
    (lm : LockManager) (txn : ℕ) (key : ResourceKey) (mode : LockMode)
    → IsConsistent lm
    → IsConsistent (try_wake lm txn key mode).0
unfolding try_wake
try_wake-IsConsistent lm txn key mode v = elim (Bool-cases (grantable lm txn key mode)) [
  | inl e ↦
      rw (e, try_wake)
        (grant-IsConsistent (drop_waiter lm txn key) txn key mode
          (record { unique = v.unique; proper = v.proper }))
  | inr e ↦ rw (e, try_wake) v
]

pub held-try_timeout :
    (lm : LockManager) (txn : ℕ) (key : ResourceKey) → (try_timeout lm txn key).held ≡ lm.held
unfolding try_timeout
held-try_timeout lm txn key = ground arith

try_timeout-IsConsistent :
    (lm : LockManager) (txn : ℕ) (key : ResourceKey)
    → IsConsistent lm
    → IsConsistent (try_timeout lm txn key)
unfolding try_timeout
try_timeout-IsConsistent lm txn key v = record {
  unique = rw (held-try_timeout lm txn key) v.unique;
  proper = λ j. rw (held-try_timeout lm txn key) (v.proper j);
}

release_key-IsConsistent :
    (lm : LockManager) (txn : ℕ) (key : ResourceKey)
    → IsConsistent lm
    → IsConsistent (release_key lm txn key)
unfolding release_key
release_key-IsConsistent lm txn key v = record {
  unique = release_lock-Unique txn key (Dict.find key lm.held) lm.held v.unique;
  proper = Each-release_lock IsProper txn (drop_holder-IsProper txn) key lm.held v.proper;
}

release-IsConsistent :
    (lm : LockManager) (txn : ℕ) → IsConsistent lm → IsConsistent (release lm txn)
unfolding release
release-IsConsistent lm txn v = record {
  unique = filter_map-Unique (drop_holder txn) lm.held v.unique;
  proper = Each-drop IsProper txn (drop_holder-IsProper txn) lm.held v.unique v.proper;
}

pub acquire-IsConsistent :
    (lm : LockManager) (txn : ℕ) (key : ResourceKey) (mode : LockMode)
    → IsConsistent lm
    → IsConsistent (acquire lm txn key mode).0
unfolding acquire
acquire-IsConsistent lm txn key mode v = try_acquire-IsConsistent lm txn key mode v

pub step-IsConsistent : (lm : LockManager) (e : Event) → IsConsistent lm → IsConsistent (step lm e)
unfolding step acquire acquire_wake
step-IsConsistent lm (acquires txn key mode) v = try_acquire-IsConsistent lm txn key mode v
step-IsConsistent lm (wakes txn key mode) v =
    try_acquire-IsConsistent (drop_waiter lm txn key) txn key mode
      (record { unique = v.unique; proper = v.proper })
step-IsConsistent lm (try_acquires txn key mode) v = try_acquire-IsConsistent lm txn key mode v
step-IsConsistent lm (try_wakes txn key mode) v = try_wake-IsConsistent lm txn key mode v
step-IsConsistent lm (times_out txn key) v = try_timeout-IsConsistent lm txn key v
step-IsConsistent lm (releases_key txn key) v = release_key-IsConsistent lm txn key v
step-IsConsistent lm (releases txn) v = release-IsConsistent lm txn v

pub run-IsConsistent :
    (lm : LockManager) (es : List Event) → IsConsistent lm → IsConsistent (run lm es)
unfolding run
run-IsConsistent lm [] v = v
run-IsConsistent lm (e ∷ es) v = run-IsConsistent (step lm e) es (step-IsConsistent lm e v)

-- After any steps of any threads on a new manager, every resource has one lock at most, and every
pub init-IsConsistent : IsConsistent init
unfolding init Dict.find
init-IsConsistent = record { unique = tt; proper = λ key. tt }

-- After any steps of any threads on a new manager, every resource has one lock at most, and every
-- lock has one holder at least and each holder once.
pub run-init-IsConsistent : (es : List Event) → IsConsistent (run init es)
unfolding init Dict.find
run-init-IsConsistent es = run-IsConsistent init es (record { unique = tt; proper = λ key. tt })
