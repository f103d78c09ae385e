-- ===== src/Engine.antt =====
-- includes/opendb/core/EngineLoop.hpp and types/Result.hpp: a command is dispatched to the storage
-- engine under a transaction and a table lock, and one response is presented.
pub mod Order
pub mod Table
pub mod Select
pub mod Handlers
pub mod Dispatch
pub mod Window
pub mod Sorting
pub mod Ordering
pub mod Writes
pub mod Lifecycle
pub mod Answers
pub mod Joins
pub mod Examples
use open_db.Prelude.{Bool, true, List, []}
use open_db.Tuple.{Tuple}
use open_db.Storage.{DbError}
use open_db.Txn.{TransactionManager}
use open_db.Lock.{LockManager}

pub record ResultSet : Type 0 where
  pub success : Bool
  pub rows : List Tuple

-- ResultSet(true, rows)
abbrev pub rows_ok : List Tuple → ResultSet
rows_ok rows = record { success = true; rows = rows }

-- What present() gets.
pub data Response : Type 0 where
  result : ResultSet → Response
  failure : DbError → Response

-- The parts that the loop holds references to.
pub record EngineLoop (S : Type 0) : Type 0 where
  pub storage : S
  pub txn_mgr : TransactionManager
  pub lock_mgr : LockManager

-- A dispatch presents a response, or waits for a lock that another transaction holds.
pub data Dispatched (S : Type 0) : Type 0 where
  presented : EngineLoop S → Response → Dispatched S
  blocked : EngineLoop S → Dispatched S
