-- ===== src/Lock/Release.antt =====
-- release and releaseKey: what giving up locks leaves.
use open_db.Prelude.{
  ℕ, ◌≡◌, refl, true, false, ◌&&◌, Option, none, some, [], ◌∷◌, arith, ◌==◌, if◌then◌else◌, ◌=?◌,
  Bool-cases, inl, inr, bind, ap,
}
use open_db.Prelude.Dict
use open_db.Prelude.Dict.{find-put, find-erase, find-filter_map}
use open_db.Lock.{
  LockMode, ResourceKey, key_Eq, key_eq_iff, Lock, LockManager, contains, grantable, holds,
  is_granted_key, drop_holder, release, release_key, release_lock, put_back, remove_holder,
}
use open_db.Lock.Holders.{IsProper, Each, holds-drop_holder}
use open_db.Lock.Consistent.{IsConsistent}

holds-bind :
    (o : Option Lock) (txn t : ℕ)
    → Each IsProper o
    → holds t (bind o (drop_holder txn)) ≡ (if txn == t then false else holds t o)
holds-bind none txn t p = ground arith
holds-bind (some l) txn t p = holds-drop_holder txn t l p

-- In a consistent manager: after release(txn) that transaction holds nothing, and every other
-- transaction holds what it held.
pub is_granted_key-release :
    (lm : LockManager) (txn t : ℕ) (key : ResourceKey)
    → IsConsistent lm
    → is_granted_key (release lm txn) t key ≡ (if txn == t then false else is_granted_key lm t key)
unfolding is_granted_key release
is_granted_key-release lm txn t key v =
    rw (find-filter_map (drop_holder txn) key lm.held v.unique)
      (holds-bind (Dict.find key lm.held) txn t (v.proper key))

find-put_back :
    (key j : ResourceKey) (o : Option Lock) (held : Dict.Dict ResourceKey Lock)
    → Dict.find j (put_back key o held) ≡ (if key =? j then o else Dict.find j held)
find-put_back key j none held = find-erase key j held
find-put_back key j (some l) held = find-put key j l held

find-release_lock :
    (txn : ℕ) (key j : ResourceKey) (o : Option Lock) (held : Dict.Dict ResourceKey Lock)
    → Dict.find key held ≡ o
    → Dict.find j (release_lock txn key o held)
      ≡ (if key =? j then bind o (drop_holder txn) else Dict.find j held)
find-release_lock txn key j none held e =
    ground (arith, key_eq_iff key j, ap (λ k. Dict.find k held) {x = key} {y = j})
find-release_lock txn key j (some l) held e = find-put_back key j (drop_holder txn l) held

-- In a consistent manager: after releaseKey(txn, key) that transaction no longer holds that
-- resource, and every other hold, of this transaction elsewhere or of another anywhere, is as it
-- was.
pub is_granted_key-release_key :
    (lm : LockManager) (txn t : ℕ) (key j : ResourceKey)
    → IsConsistent lm
    → is_granted_key (release_key lm txn key) t j
      ≡ (if key =? j && txn == t then false else is_granted_key lm t j)
unfolding is_granted_key release_key
is_granted_key-release_key lm txn t key j v =
    let found = find-release_lock txn key j (Dict.find key lm.held) lm.held refl in
    elim (Bool-cases (key =? j)) [
      | inl e ↦
          rw (found, e, ← (key_eq_iff key j).0 e)
            (holds-bind (Dict.find key lm.held) txn t (v.proper key))
      | inr e ↦ rw (found, e)
    ]

-- A resource whose only holder releases everything is free for any request.
pub grantable-release :
    (lm : LockManager) (txn t : ℕ) (key : ResourceKey) (m mode : LockMode)
    → IsConsistent lm
    → Dict.find key lm.held ≡ some (record { mode = m; holders = txn ∷ [] })
    → grantable (release lm txn) t key mode ≡ true
unfolding release grantable contains remove_holder
grantable-release lm txn t key m mode v e =
    rw (find-filter_map (drop_holder txn) key lm.held v.unique, e) (ground arith)
