-- ===== src/Engine/Handlers.antt =====
-- EngineLoop.hpp: the handlers of the commands: what a command does to the storage, and the result and
-- the error that it leaves.
use open_db.Prelude.{ℕ, Bool, true, false, Option, none, some, List, [], ◌∷◌, Str, codes}
use open_db.Value.{Value, null}
use open_db.Value.Order.{Doubles}
use open_db.Tuple
use open_db.Tuple.{Tuple, maybe_get}
use open_db.Predicate.{PredicateNode}
use open_db.Command.{Command, CommandType, select, insert, update, delete}
use open_db.Storage.{DbError, StorageEngine, is_sentinel, not_found, internal}
use open_db.Lock.{}
use open_db.Engine.{ResultSet, rows_ok}
use open_db.Engine.Select.{filter_rows, select_rows}

abbrev pub row_id : Str
row_id = codes "_id"

-- What a handler leaves: the storage, result_opt and error_opt.
pub record Handled (S : Type 0) : Type 0 where
  pub storage : S
  pub outcome : Option ResultSet
  pub error : Option DbError

abbrev error_of : DbError → Option DbError
error_of e = some e

abbrev pub missing : Str → DbError
missing message = record { code = internal; message = message }

-- The key of INSERT: the column _id if it is there and not null.
abbrev id_or_null : Option Value → Value
id_or_null none = null
id_or_null (some v) = v

abbrev pub insert_row : Option Tuple → Tuple
insert_row none = Tuple.empty
insert_row (some values) = values

abbrev pub insert_key : Option Tuple → Value
insert_key values = id_or_null (maybe_get (insert_row values) row_id)

-- The values of the column _id in the rows of a scan, where it is there.
unfoldable pub row_keys : List Tuple → List Value
row_keys [] = []
row_keys (row ∷ rows) = elim (maybe_get row row_id) [
  | none ↦ row_keys rows
  | some k ↦ k ∷ row_keys rows
]

-- The end of the loops of UPDATE and DELETE: the storage, the error that broke the loop, and `any`.
pub record Applied (S : Type 0) : Type 0 where
  pub storage : S
  pub error : Option DbError
  pub any : Bool

abbrev no_match : Str → Bool → Option DbError
no_match message true = none
no_match message false = some (record { code = not_found; message = message })

abbrev loop_error : Str → Option DbError → Bool → Option DbError
loop_error message (some e) any = some e
loop_error message none any = no_match message any

module _ {S : Type 0} where
  -- The loop over the keys, with the call for one key.
  unfoldable pub apply_keys : (S → Value → S × DbError) → S → Bool → List Value → Applied S
  apply_keys call s any [] = record { storage = s; error = none; any = any }
  apply_keys call s any (k ∷ ks) = elim (is_sentinel (call s k).1) [
    | true ↦ apply_keys call (call s k).0 true ks
    | false ↦ record { storage = (call s k).0; error = some (call s k).1; any = any }
  ]

  -- result_opt is set on each path behind the loop.
  abbrev finish_keys : Str → Applied S → Handled S
  finish_keys message a = record {
    storage = a.storage;
    outcome = some (rows_ok []);
    error = loop_error message a.error a.any;
  }

  abbrev refused : S → Str → Handled S
  refused s message = record { storage = s; outcome = none; error = some (missing message) }

  abbrev put_result : S × DbError → Handled S
  put_result (s, e) = elim (is_sentinel e) [
    | true ↦ record { storage = s; outcome = some (rows_ok []); error = none }
    | false ↦ record { storage = s; outcome = none; error = some e }
  ]

module _ {S : Type 0} (E : StorageEngine S) where
  unfoldable pub handle_insert : S → ℕ → Command PredicateNode → Handled S
  handle_insert s txn c =
      put_result (E.put s txn c.table (insert_key c.values) (insert_row c.values))

  abbrev pub update_one : ℕ → Str → Tuple → S → Value → S × DbError
  update_one txn table values s k = E.put s txn table k (Tuple.set values row_id k)

  abbrev pub delete_one : ℕ → Str → S → Value → S × DbError
  delete_one txn table s k = E.remove s txn table k

module _ {S : Type 0} (E : StorageEngine S) (d : Doubles) where
  abbrev pub matching_keys : S → ℕ → Str → PredicateNode → List Value
  matching_keys s txn table w = row_keys (filter_rows d (some w) (E.scan s txn table))

  unfoldable pub update_where : S → ℕ → Str → Option PredicateNode → Option Tuple → Handled S
  update_where s txn table none values = refused s (codes "Update requires WHERE")
  update_where s txn table (some w) none = refused s (codes "Update requires values")
  update_where s txn table (some w) (some values) =
      finish_keys (codes "no matching rows to update")
        (apply_keys (update_one E txn table values) s false (matching_keys s txn table w))

  unfoldable pub delete_where : S → ℕ → Str → Option PredicateNode → Handled S
  delete_where s txn table none = refused s (codes "Delete requires WHERE")
  delete_where s txn table (some w) =
      finish_keys (codes "no matching rows to delete")
        (apply_keys (delete_one E txn table) s false (matching_keys s txn table w))

  -- The switch on the type of the command.
  unfoldable pub handle : CommandType → S → ℕ → Command PredicateNode → Handled S
  handle select s txn c = record {
    storage = s;
    outcome = some (rows_ok (select_rows E d s txn c));
    error = none;
  }
  handle insert s txn c = handle_insert E s txn c
  handle update s txn c = update_where s txn c.table c.filter c.values
  handle delete s txn c = delete_where s txn c.table c.filter
