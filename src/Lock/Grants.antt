-- ===== src/Lock/Grants.antt =====
-- tryAcquireKey up to its first wait: what a request for a lock ends with: who holds what, and who waits.
use open_db.Prelude.{
  ℕ, ◌≡◌, refl, true, false, ◌&&◌, ◌||◌, ◌⊎◌, Option, none, some, [], ◌∷◌, ◌++◌, arith, ◌==◌,
  if◌then◌else◌, ◌=?◌, Bool-cases, inl, inr, sym, ◌∙◌, ◌≢◌,
}
use open_db.Prelude.Dict
use open_db.Prelude.Dict.{find-put}
use open_db.Lock.{
  LockMode, shared, exclusive, ResourceKey, key_Eq, key_eq_iff, Lock, LockManager, contains,
  grantable, grantable_lock, grant, waiters_at, try_acquire, granted, waiting, is_granted_key,
}
use open_db.Lock.Holders.{holds-granted_lock}

abbrev pub Granted : LockManager → ℕ → ResourceKey → LockMode → Type 0
Granted lm txn key mode =
    ((try_acquire lm txn key mode).1 ≡ granted)
    × ((j : ResourceKey) (t : ℕ)
        → is_granted_key (try_acquire lm txn key mode).0 t j
          ≡ ((key =? j && txn == t) || is_granted_key lm t j))
    × ((try_acquire lm txn key mode).0.waiters ≡ lm.waiters)

-- Another transaction holds the resource, and one of the two wants it exclusively.
abbrev pub Conflict : LockManager → ℕ → ResourceKey → LockMode → Type 0
Conflict lm txn key mode =
    (l : Lock) × (Dict.find key lm.held ≡ some l)
    × (contains txn l.holders ≡ false)
    × ((mode ≡ exclusive) ⊎ (l.mode ≡ exclusive))

abbrev pub Waits : LockManager → ℕ → ResourceKey → LockMode → Type 0
Waits lm txn key mode =
    ((try_acquire lm txn key mode).1 ≡ waiting)
    × ((try_acquire lm txn key mode).0.held ≡ lm.held)
    × ((j : ResourceKey)
        → waiters_at (try_acquire lm txn key mode).0 j ≡ (
            if key =? j
            then waiters_at lm key ++ record { txn = txn; mode = mode } ∷ []
            else waiters_at lm j))

conflict_of :
    (o : Option Lock) (txn : ℕ) (mode : LockMode)
    → grantable_lock o txn mode ≡ false
    → (l : Lock) × (o ≡ some l)
      × (contains txn l.holders ≡ false)
      × ((mode ≡ exclusive) ⊎ (l.mode ≡ exclusive))
conflict_of none txn mode g = cc
conflict_of (some l) txn shared g = (l, refl, ground arith, inr (ground arith))
conflict_of (some l) txn exclusive g = (l, refl, ground arith, inl refl)

grantable-Conflict :
    (lm : LockManager) (txn : ℕ) (key : ResourceKey) (mode : LockMode)
    → Conflict lm txn key mode
    → grantable lm txn key mode ≡ false
unfolding grantable
grantable-Conflict lm txn key shared (l, e, h, inl m) = cc
grantable-Conflict lm txn key shared (l, e, h, inr m) = rw (e, h, m) refl
grantable-Conflict lm txn key exclusive (l, e, h, m) = rw (e, h) refl

holds-grant :
    (lm : LockManager) (txn t : ℕ) (key j : ResourceKey) (mode : LockMode)
    → grantable lm txn key mode ≡ true
    → is_granted_key (grant lm txn key mode) t j ≡ ((key =? j && txn == t) || is_granted_key lm t j)
unfolding is_granted_key grant grantable
holds-grant lm txn t key j mode g = elim (Bool-cases (key =? j)) [
  | inl e ↦
      rw (find-put, e)
        (rw (← (key_eq_iff key j).0 e) (holds-granted_lock (Dict.find key lm.held) txn t mode g))
  | inr e ↦ rw (find-put, e)
]

true-ne-false : true ≢ false
true-ne-false = λ e. cc

-- A request is granted at once or waits, and it waits exactly in a conflict: another transaction
-- holds the resource, it does not, and one of the two wants it exclusively. Granted, its
-- transaction holds the resource, no one else's hold on any resource changes, and no queue does.
-- If it waits, the locks stay as they were, and the request stands last in the queue of its
-- resource.
pub try_acquire_cases :
    (lm : LockManager) (txn : ℕ) (key : ResourceKey) (mode : LockMode)
    → (¬ Conflict lm txn key mode × Granted lm txn key mode)
      ⊎ (Conflict lm txn key mode × Waits lm txn key mode)
unfolding try_acquire grantable waiters_at
try_acquire_cases lm txn key mode = elim (Bool-cases (grantable lm txn key mode)) [
  | inl e ↦ inl (
    λ c. absurd (true-ne-false (sym e ∙ grantable-Conflict lm txn key mode c)),
    (
      rw (e, try_acquire),
      λ j t. rw (e, try_acquire) (holds-grant lm txn t key j mode e),
      rw (e, try_acquire),
    ),
  )
  | inr e ↦ inr (
    conflict_of (Dict.find key lm.held) txn mode e,
    (rw (e, try_acquire), rw (e, try_acquire), λ j. rw (e, try_acquire, find-put) (ground arith)),
  )
]
