-- ===== src/Sql.antt =====
-- includes/opendb/frontend/SqlParser.hpp: the statements that the parser of src/SqlParser.cpp builds.
pub mod Parser
pub mod Scan
pub mod Literals
pub mod Where
pub mod Ddl
pub mod Dml
pub mod Statement
pub mod Progress
pub mod Sound
pub mod Tokens
pub mod Numbers
pub mod Examples
use open_db.Prelude.{Str}
use open_db.Value.{Value}
use open_db.Predicate.{ComparisonOp, LogicalOp}
use open_db.Schema.{Schema, AlterSpec}
use open_db.Command.{Command}

-- A std::unique_ptr<PredicateNode> as the parser builds it: its operands may be null pointers.
pub data Node : Type 0 where
  null_node : Node
  comparison : Str → ComparisonOp → Value → Node
  logical : LogicalOp → Node → Node → Node

pub data SqlStatement : Type 0 where
  create_table : Schema → SqlStatement
  drop_table : Str → SqlStatement
  alter_table : Str → AlterSpec → SqlStatement
  txn_begin txn_commit txn_rollback : SqlStatement
  command : Command Node → SqlStatement
