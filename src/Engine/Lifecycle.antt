-- ===== src/Engine/Lifecycle.antt =====
-- EngineLoop.hpp: the transaction, the locks and the answer of a command.
use open_db.Prelude.{
  ℕ, ◌≡◌, refl, inl, inr, true, false, Option, none, some, arith, Bool-cases, if◌then◌else◌, ◌==◌,
}
use open_db.Value.Order.{Doubles}
use open_db.Predicate.{PredicateNode}
use open_db.Command.{Command}
use open_db.Storage.{StorageEngine, DbError, is_sentinel}
use open_db.Txn.{
  TransactionManager, State, active, committed, aborted, begin_txn, commit_txn, abort_txn,
  get_state,
}
use open_db.Txn.States.{commit_txn_cases, abort_txn_cases}
use open_db.Lock.{
  LockManager, ResourceKey, table_key, Progress, granted, waiting, acquire, release, is_granted_key,
}
use open_db.Lock.Consistent.{IsConsistent, acquire-IsConsistent}
use open_db.Lock.Release.{is_granted_key-release}
use open_db.Deadlock.{detect_cycle}
use open_db.Deadlock.Chains.{detect_cycle_sound}
use open_db.Engine.{ResultSet, Response, EngineLoop, Dispatched, presented, blocked}
use open_db.Engine.Handlers.{Handled, handle}
use open_db.Engine.Dispatch.{
  settle, settle_auto, dispatch, locked, lock_mode, run_command, commit_prepared, is_auto, txn_or,
  checked,
}

-- What holds of the loop that presents an answer.
abbrev pub After : {S : Type 0} → (EngineLoop S → Response → Type 0) → Dispatched S → Type 0
After P (presented l r) = P l r
After P (blocked l) = Unit

-- No lock is held by the transaction.
abbrev pub Unlocked : ℕ → LockManager → Type 0
Unlocked txn lm = (key : ResourceKey) → is_granted_key lm txn key ≡ false

nat_self : (n : ℕ) → (n == n) ≡ true
nat_self n = ground arith

release-Unlocked : (lm : LockManager) (txn : ℕ) → IsConsistent lm → Unlocked txn (release lm txn)
release-Unlocked lm txn v key = rw (is_granted_key-release lm txn txn key v, nat_self txn) refl

own_id : (c : Command PredicateNode) → c.txn_id ≡ none → (fresh : ℕ) → txn_or c.txn_id fresh ≡ fresh
own_id c n fresh = rw n refl

own_auto : (c : Command PredicateNode) → c.txn_id ≡ none → is_auto c.txn_id ≡ true
own_auto c n = rw n refl

-- What the answer and the reply of prepare decide.
abbrev pub verdict : Option ResultSet → DbError → State
verdict (some rs) e = if is_sentinel e then committed else active
verdict none e = aborted

-- A handler has left a result or an error.
abbrev pub Answered : Option ResultSet → Option DbError → Type 0
Answered (some rs) e = Unit
Answered none (some e) = Unit
Answered none none = ⊥

-- The transaction that the command begins for itself.
abbrev pub own_txn : {S : Type 0} → EngineLoop S → ℕ
own_txn l = (begin_txn l.txn_mgr).1

module _ {S : Type 0} (E : StorageEngine S) where
  -- The life cycle leaves the locks to the release behind it.
  lock_mgr-settle_auto :
      (txn : ℕ) (l : EngineLoop S) (o : Option ResultSet) (e : Option DbError)
      → (settle_auto E txn l o e).loop.lock_mgr ≡ l.lock_mgr
  lock_mgr-settle_auto txn l (some rs) e =
      elim (Bool-cases (is_sentinel (E.prepare l.storage txn).1)) [
        | inl f ↦ rw (f, settle_auto, commit_prepared) refl
        | inr f ↦ rw (f, settle_auto, commit_prepared) refl
      ]
  lock_mgr-settle_auto txn l none (some e) = refl
  lock_mgr-settle_auto txn l none none = refl

  lock_mgr-settle :
      (txn : ℕ) (l : EngineLoop S) (h : Handled S)
      → (settle E true txn l h).loop.lock_mgr ≡ release l.lock_mgr txn
  unfolding settle
  lock_mgr-settle txn l h =
      rw (lock_mgr-settle_auto txn (record l { storage = h.storage }) h.outcome h.error) refl

  committed-commit_txn :
      (tm : TransactionManager) (txn : ℕ)
      → get_state tm txn ≡ active
      → get_state (commit_txn tm txn).0 txn ≡ committed
  committed-commit_txn tm txn a = elim (commit_txn_cases tm txn) [
    | inl h ↦ h.2
    | inr h ↦ absurd (h.0 a)
  ]

  aborted-abort_txn :
      (tm : TransactionManager) (txn : ℕ)
      → get_state tm txn ≡ active
      → get_state (abort_txn tm txn).0 txn ≡ aborted
  aborted-abort_txn tm txn a = elim (abort_txn_cases tm txn) [
    | inl h ↦ h.2
    | inr h ↦ absurd (h.0 a)
  ]

  settled :
      (txn : ℕ) (l : EngineLoop S) (o : Option ResultSet) (e : Option DbError)
      → get_state l.txn_mgr txn ≡ active
      → Answered o e
      → get_state (settle_auto E txn l o e).loop.txn_mgr txn ≡ verdict o (E.prepare l.storage txn).1
  settled txn l (some rs) e a h = elim (Bool-cases (is_sentinel (E.prepare l.storage txn).1)) [
    | inl f ↦ rw (f, settle_auto, commit_prepared, verdict) (committed-commit_txn l.txn_mgr txn a)
    | inr f ↦ rw (f, settle_auto, commit_prepared, verdict) a
  ]
  settled txn l none (some e) a h = aborted-abort_txn l.txn_mgr txn a
  settled txn l none none a h = absurd h

  -- For an active transaction with auto-commit whose handler gave a result or an error: a result
  -- commits it if prepare accepts and leaves it active if prepare refuses; an error without a
  -- result aborts it.
  pub get_state-settle :
      (txn : ℕ) (l : EngineLoop S) (h : Handled S)
      → get_state l.txn_mgr txn ≡ active
      → Answered h.outcome h.error
      → get_state (settle E true txn l h).loop.txn_mgr txn
        ≡ verdict h.outcome (E.prepare h.storage txn).1
  unfolding settle
  get_state-settle txn l h a k =
      settled txn (record l { storage = h.storage }) h.outcome h.error a k

  module _ (d : Doubles) where
    locked-Unlocked :
        (l : EngineLoop S) (txn : ℕ) (c : Command PredicateNode) (r : LockManager × Progress)
        → is_auto c.txn_id ≡ true
        → IsConsistent r.0
        → After (λ l' _. Unlocked txn l'.lock_mgr) (locked E d l txn c r)
    locked-Unlocked l txn c (lm, granted) n v =
        rw (n, run_command)
          (let h : Handled S = handle E d c.type l.storage txn c in
            rw (lock_mgr-settle txn (record l { lock_mgr = lm }) h) (release-Unlocked lm txn v))
    locked-Unlocked l txn c (lm, waiting) n v = tt

    checked-Unlocked :
        (l : EngineLoop S) (txn : ℕ) (c : Command PredicateNode) (o : Option ℕ)
        → is_auto c.txn_id ≡ true
        → IsConsistent l.lock_mgr
        → ((victim : ℕ) → o ≡ some victim → victim ≡ txn)
        → After (λ l' _. Unlocked txn l'.lock_mgr) (checked E d l txn c o)
    checked-Unlocked l txn c (some victim) n v k =
        rw (k victim refl) (release-Unlocked l.lock_mgr txn v)
    checked-Unlocked l txn c none n v k =
        locked-Unlocked l txn c (acquire l.lock_mgr txn (table_key c.table) (lock_mode c.type)) n
          (acquire-IsConsistent l.lock_mgr txn (table_key c.table) (lock_mode c.type) v)

    dispatch-After :
        (l : EngineLoop S) (c : Command PredicateNode)
        → c.txn_id ≡ none
        → IsConsistent l.lock_mgr
        → After (λ l' _. Unlocked (own_txn l) l'.lock_mgr) (dispatch E d l c)
    unfolding dispatch
    dispatch-After l c n v = rw (own_id c n (own_txn l)) (
        checked-Unlocked (record l { txn_mgr = (begin_txn l.txn_mgr).0 }) (own_txn l) c
          (detect_cycle l.lock_mgr (own_txn l)) (own_auto c n) v
          (λ victim e. (detect_cycle_sound l.lock_mgr (own_txn l) victim e).0))

    -- When a command with auto-commit presents its answer, its transaction holds no lock: after a
    -- success, a failure and a deadlock alike.
    pub is_granted_key-dispatch :
        (l : EngineLoop S) (c : Command PredicateNode) (l' : EngineLoop S) (r : Response)
        (key : ResourceKey)
        → c.txn_id ≡ none
        → IsConsistent l.lock_mgr
        → dispatch E d l c ≡ presented l' r
        → is_granted_key l'.lock_mgr (own_txn l) key ≡ false
    is_granted_key-dispatch l c l' r key n v h = unlocked key
      where
        unlocked : Unlocked (own_txn l) l'.lock_mgr
        unlocked = rw h at (dispatch-After l c n v)
