-- ===== src/Engine/Dispatch.antt =====
-- EngineLoop.hpp: the life of the transaction around a command, and the loop over the commands of the
-- source.
use open_db.Prelude.{
  ℕ, Bool, true, false, Option, none, some, List, [], ◌∷◌, ◌++◌, codes, ◌&&◌, if◌then◌else◌,
}
use open_db.Value.Render.{decimal}
use open_db.Value.Order.{Doubles}
use open_db.Tuple.{Tuple}
use open_db.Predicate.{PredicateNode}
use open_db.Command.{Command, CommandType, select, insert, update, delete}
use open_db.Storage.{DbError, StorageEngine, is_sentinel, deadlock}
use open_db.Txn.{begin_txn, commit_txn, abort_txn, visible_seq}
use open_db.Lock.{
  LockManager, LockMode, shared, exclusive, table_key, Progress, granted, waiting, acquire, release,
}
use open_db.Deadlock.{detect_cycle}
use open_db.Engine.{
  ResultSet, rows_ok, Response, result, failure, EngineLoop, Dispatched, presented, blocked,
}
use open_db.Engine.Handlers.{missing, Handled, handle}

-- The loop's state and the answer that is left to present.
pub record Settled (S : Type 0) : Type 0 where
  pub loop : EngineLoop S
  pub outcome : Option ResultSet
  pub error : Option DbError

-- Present.
abbrev pub is_write : CommandType → Bool
is_write select = false
is_write insert = true
is_write update = true
is_write delete = true

abbrev pub no_rows : List Tuple → Bool
no_rows [] = true
no_rows (row ∷ rows) = false

abbrev pub present : CommandType → Option ResultSet → Option DbError → Response
present type (some rs) error = result (if no_rows rs.rows && is_write type then rows_ok [] else rs)
present type none (some e) = failure e
present type none none = failure (missing (codes "dispatch produced no result or error"))

abbrev pub is_auto : Option ℕ → Bool
is_auto none = true
is_auto (some t) = false

abbrev pub txn_or : Option ℕ → ℕ → ℕ
txn_or none fresh = fresh
txn_or (some t) fresh = t

abbrev pub lock_mode : CommandType → LockMode
lock_mode select = shared
lock_mode insert = exclusive
lock_mode update = exclusive
lock_mode delete = exclusive

module _ {S : Type 0} (E : StorageEngine S) where
  abbrev release_lock : ℕ → EngineLoop S → EngineLoop S
  release_lock txn l = record l { lock_mgr = release l.lock_mgr txn }

  -- commitTxn, and commit at the sequence number that it made visible.
  abbrev commit_all : ℕ → EngineLoop S → EngineLoop S
  commit_all txn l = record l {
    storage = (E.commit l.storage txn (visible_seq (commit_txn l.txn_mgr txn).0)).0;
    txn_mgr = (commit_txn l.txn_mgr txn).0;
  }

  abbrev abort_all : ℕ → EngineLoop S → EngineLoop S
  abort_all txn l = record l {
    storage = (E.abort l.storage txn).0;
    txn_mgr = (abort_txn l.txn_mgr txn).0;
  }

  abbrev prepared : EngineLoop S → S → EngineLoop S
  prepared l s = record l { storage = s }

  -- A refusal by prepare leaves the result in place, and the transaction as it is.
  abbrev pub commit_prepared :
      ℕ → EngineLoop S → ResultSet → Option DbError → S × DbError → Settled S
  commit_prepared txn l rs error (s, e) = elim (is_sentinel e) [
    | true ↦ record { loop = commit_all txn (prepared l s); outcome = some rs; error = error }
    | false ↦ record { loop = prepared l s; outcome = some rs; error = some e }
  ]

  abbrev pub settle_auto : ℕ → EngineLoop S → Option ResultSet → Option DbError → Settled S
  settle_auto txn l (some rs) error = commit_prepared txn l rs error (E.prepare l.storage txn)
  settle_auto txn l none (some e) = record {
    loop = abort_all txn l;
    outcome = none;
    error = some e;
  }
  settle_auto txn l none none = record { loop = l; outcome = none; error = none }

  abbrev released : ℕ → Settled S → Settled S
  released txn r = record r { loop = release_lock txn r.loop }

  -- The life cycle of an auto-commit; an explicit transaction stays open with its locks.
  unfoldable pub settle : Bool → ℕ → EngineLoop S → Handled S → Settled S
  settle true txn l h =
      released txn (settle_auto txn (record l { storage = h.storage }) h.outcome h.error)
  settle false txn l h = record {
    loop = record l { storage = h.storage };
    outcome = h.outcome;
    error = h.error;
  }

  abbrev answer : CommandType → Settled S → Dispatched S
  answer type r = presented r.loop (present type r.outcome r.error)

  -- The victim of a cycle is ended in the managers; the storage is not told.
  abbrev end_victim : EngineLoop S → ℕ → ℕ → Dispatched S
  end_victim l victim txn =
      presented
        (record l {
          txn_mgr = (abort_txn l.txn_mgr victim).0;
          lock_mgr = release l.lock_mgr victim;
        })
        (failure
          (record { code = deadlock; message = codes "cycle detected for Txn" ++ decimal txn }))

  module _ (d : Doubles) where
    abbrev pub run_command : EngineLoop S → ℕ → Command PredicateNode → Dispatched S
    run_command l txn c =
        answer c.type (settle (is_auto c.txn_id) txn l (handle E d c.type l.storage txn c))

    abbrev pub locked :
        EngineLoop S → ℕ → Command PredicateNode → LockManager × Progress → Dispatched S
    locked l txn c (lm, granted) = run_command (record l { lock_mgr = lm }) txn c
    locked l txn c (lm, waiting) = blocked (record l { lock_mgr = lm })

    abbrev pub checked : EngineLoop S → ℕ → Command PredicateNode → Option ℕ → Dispatched S
    checked l txn c (some victim) = end_victim l victim txn
    checked l txn c none =
        locked l txn c (acquire l.lock_mgr txn (table_key c.table) (lock_mode c.type))

    -- The argument of value_or is computed in any case: each command begins a transaction.
    unfoldable pub dispatch : EngineLoop S → Command PredicateNode → Dispatched S
    dispatch l c =
        let (tm, fresh) = begin_txn l.txn_mgr in
        let txn = txn_or c.txn_id fresh in
        checked (record l { txn_mgr = tm }) txn c (detect_cycle l.lock_mgr txn)

    -- The responses to the commands of the source, in order, up to the one that waits for a lock.
    abbrev continue_with :
        Dispatched S → (EngineLoop S → EngineLoop S × List Response) → EngineLoop S × List Response
    continue_with (blocked l) next = (l, [])
    continue_with (presented l r) next = let (l', rs) = next l in (l', r ∷ rs)

    unfoldable pub run : List (Command PredicateNode) → EngineLoop S → EngineLoop S × List Response
    run [] l = (l, [])
    run (c ∷ cs) l = continue_with (dispatch l c) (run cs)
