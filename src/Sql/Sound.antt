-- ===== src/Sql/Sound.antt =====
-- What src/SqlParser.cpp gives is well formed: commands pass the checks of Command.hpp, a table has one
-- primary key at most, and a hash partition has a shard.
pub mod Rules
pub mod Tables
pub mod Commands
pub mod Statement
use open_db.Prelude.{ℕ, ◌+◌, ◌≤◌, ◌<◌, ◌≡◌, Bool, true, false, List, [], ◌∷◌, Option, none, some}
use open_db.Schema.{ColumnDef, Schema, PartitionPolicy}
use open_db.Command.{Command, validate}
use open_db.Sql.{
  Node, SqlStatement, create_table, drop_table, alter_table, txn_begin, txn_commit, txn_rollback,
  command,
}

abbrev pub flag : Bool → ℕ
flag true = 1
flag false = 0

-- The columns that are declared as primary key.
unfoldable pub key_count : List ColumnDef → ℕ
key_count [] = 0
key_count (c ∷ cs) = flag c.primary_key + key_count cs

abbrev pub HasShards : Option PartitionPolicy → Type 0
HasShards none = Unit
HasShards (some p) = 0 < p.shard_count

abbrev pub IsTable : Schema → Type 0
IsTable s = (key_count s.columns ≤ 1) × HasShards s.partition

-- The checks of the constructor hold, also after the setters.
abbrev pub IsChecked : Command Node → Type 0
IsChecked c = validate c.type c.filter c.values ≡ none

abbrev pub IsWellFormed : SqlStatement → Type 0
IsWellFormed (create_table s) = IsTable s
IsWellFormed (command c) = IsChecked c
IsWellFormed _ = Unit

abbrev pub AllWellFormed : List SqlStatement → Type 0
AllWellFormed [] = Unit
AllWellFormed (s ∷ ss) = IsWellFormed s × AllWellFormed ss
