-- ===== src/Engine/Answers.antt =====
-- EngineLoop.hpp: what UPDATE and DELETE present. The handlers set a result on every path behind their
-- loops, also where they have recorded an error.
use open_db.Prelude.{ℕ, ◌≡◌, refl, inl, inr, Bool, true, false, Option, none, some, [], Bool-cases}
use open_db.Value.Order.{Doubles}
use open_db.Tuple.{Tuple}
use open_db.Predicate.{PredicateNode}
use open_db.Command.{Command, CommandType, select, insert, update, delete}
use open_db.Storage.{StorageEngine, DbError, is_sentinel}
use open_db.Txn.{begin_txn}
use open_db.Lock.{LockManager, table_key, Progress, granted, waiting, acquire}
use open_db.Deadlock.{detect_cycle}
use open_db.Engine.{ResultSet, rows_ok, Response, result, EngineLoop, presented}
use open_db.Engine.Handlers.{Handled, handle, update_where, delete_where}
use open_db.Engine.Dispatch.{
  settle, settle_auto, commit_prepared, present, dispatch, locked, lock_mode, run_command, is_auto,
  txn_or, checked,
}
use open_db.Engine.Lifecycle.{After}

-- UPDATE with WHERE and values, or DELETE with WHERE: what the constructor of Command lets through.
abbrev pub ChangesRows : CommandType → Option PredicateNode → Option Tuple → Type 0
ChangesRows update (some w) (some values) = Unit
ChangesRows delete (some w) values = Unit
ChangesRows _ _ _ = ⊥

present_ok :
    (type : CommandType) (e : Option DbError)
    → present type (some (rows_ok [])) e ≡ result (rows_ok [])
present_ok select e = refl
present_ok insert e = refl
present_ok update e = refl
present_ok delete e = refl

module _ {S : Type 0} (E : StorageEngine S) where
  outcome-settle :
      (auto : Bool) (txn : ℕ) (l : EngineLoop S) (h : Handled S) {rs : ResultSet}
      → h.outcome ≡ some rs
      → (settle E auto txn l h).outcome ≡ some rs
  unfolding settle
  outcome-settle false txn l h e = e
  outcome-settle true txn l h {rs} e = elim (Bool-cases (is_sentinel (E.prepare h.storage txn).1)) [
    | inl f ↦ rw (e, f, settle_auto, commit_prepared) refl
    | inr f ↦ rw (e, f, settle_auto, commit_prepared) refl
  ]

  module _ (d : Doubles) where
    handle-outcome :
        (type : CommandType) (s : S) (txn : ℕ) (c : Command PredicateNode)
        → ChangesRows type c.filter c.values
        → (handle E d type s txn c).outcome ≡ some (rows_ok [])
    unfolding handle
    handle-outcome select s txn c h = absurd h
    handle-outcome insert s txn c h = absurd h
    handle-outcome update s txn c h = updated c.filter c.values h
      where
        updated :
            (filter : Option PredicateNode) (values : Option Tuple)
            → ChangesRows update filter values
            → (update_where E d s txn c.table filter values).outcome ≡ some (rows_ok [])
        updated none values h = absurd h
        updated (some w) none h = absurd h
        updated (some w) (some values) h = unfold update_where in refl
    handle-outcome delete s txn c h = deleted c.filter c.values h
      where
        deleted :
            (filter : Option PredicateNode) (values : Option Tuple)
            → ChangesRows delete filter values
            → (delete_where E d s txn c.table filter).outcome ≡ some (rows_ok [])
        deleted none values h = absurd h
        deleted (some w) values h = unfold delete_where in refl

    locked_ok :
        (l : EngineLoop S) (txn : ℕ) (c : Command PredicateNode) (r : LockManager × Progress)
        → ChangesRows c.type c.filter c.values
        → After (λ l' r'. r' ≡ result (rows_ok [])) (locked E d l txn c r)
    locked_ok l txn c (lm, granted) h =
        let l' : EngineLoop S = record l { lock_mgr = lm } in
        rw
          (
            run_command,
            outcome-settle (is_auto c.txn_id) txn l' (handle E d c.type l.storage txn c)
                (handle-outcome c.type l.storage txn c h),
          )
          (present_ok c.type
            (settle E (is_auto c.txn_id) txn l' (handle E d c.type l.storage txn c)).error)
    locked_ok l txn c (lm, waiting) h = tt

    dispatch_changes :
        (l : EngineLoop S) (c : Command PredicateNode)
        → ChangesRows c.type c.filter c.values
        → detect_cycle l.lock_mgr (txn_or c.txn_id (begin_txn l.txn_mgr).1) ≡ none
        → After (λ l' r'. r' ≡ result (rows_ok [])) (dispatch E d l c)
    unfolding dispatch
    dispatch_changes l c h n =
        let txn : ℕ = txn_or c.txn_id (begin_txn l.txn_mgr).1 in
        rw (n, checked)
          (locked_ok (record l { txn_mgr = (begin_txn l.txn_mgr).0 }) txn c
            (acquire l.lock_mgr txn (table_key c.table) (lock_mode c.type)) h)

    -- UPDATE with WHERE and values, and DELETE with WHERE, if no deadlock is found and the lock
    -- is granted, present success whatever the storage engine answered: a put or remove that
    -- failed, a refusal by prepare and "no matching rows" are never shown.
    pub dispatch_always_ok :
        (l : EngineLoop S) (c : Command PredicateNode) {l' : EngineLoop S} {r : Response}
        → ChangesRows c.type c.filter c.values
        → detect_cycle l.lock_mgr (txn_or c.txn_id (begin_txn l.txn_mgr).1) ≡ none
        → dispatch E d l c ≡ presented l' r
        → r ≡ result (rows_ok [])
    dispatch_always_ok l c h n e = rw e at (dispatch_changes l c h n)
