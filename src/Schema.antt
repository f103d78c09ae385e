-- ===== src/Schema.antt =====
-- includes/opendb/types/Schema.hpp and the enum ValueType of Value.hpp: column declarations, the
-- partition policy, schemas with their lookups, and the operations of ALTER TABLE. The extensions of a
-- column are left out, since no parser sets them.
use open_db.Prelude.{
  ℕ, Bool, true, false, not, Option, none, some, List, [], ◌∷◌, Str, bytes_eq, if◌then◌else◌,
}
use open_db.Value.{Value}
use open_db.Tuple.{is_some}

pub data ValueType : Type 0 where
  null_type bool_type int32_type int64_type double_type : ValueType
  text_type blob_type date_type timestamp_type : ValueType

pub record ColumnDef : Type 0 where
  pub name : Str
  pub type : ValueType
  pub nullable : Bool
  pub primary_key : Bool
  pub max_byte_length : ℕ
  pub default_value : Option Value

-- The default initialisers.
abbrev pub fresh_column : ColumnDef
fresh_column = record {
  name = [];
  type = null_type;
  nullable = true;
  primary_key = false;
  max_byte_length = 0;
  default_value = none;
}

pub data PartitionKind : Type 0 where
  unpartitioned by_hash by_range by_list : PartitionKind

pub record PartitionPolicy : Type 0 where
  pub kind : PartitionKind
  pub column : Str
  pub shard_count : ℕ
  pub boundaries : List Value
  pub lists : List (List Value)

abbrev pub is_partitioned : PartitionPolicy → Bool
is_partitioned p = elim p.kind [ unpartitioned ↦ false | _ ↦ true ]

pub record Schema : Type 0 where
  pub table : Str
  pub columns : List ColumnDef
  pub partition : Option PartitionPolicy

unfoldable pub find_column : Str → List ColumnDef → Option ColumnDef
find_column col [] = none
find_column col (c ∷ cs) = if bytes_eq c.name col then some c else find_column col cs

-- Schema::find
abbrev pub find : Schema → Str → Option ColumnDef
find s col = find_column col s.columns

abbrev pub has_column : Schema → Str → Bool
has_column s col = is_some (find s col)

unfoldable pub first_key : List ColumnDef → Str
first_key [] = []
first_key (c ∷ cs) = if c.primary_key then c.name else first_key cs

abbrev pub primary_key_column : Schema → Str
primary_key_column s = first_key s.columns

abbrev pub has_primary_key : Schema → Bool
has_primary_key s = not (bytes_eq (primary_key_column s) [])

pub data AlterKind : Type 0 where
  add_column drop_column rename_table : AlterKind

pub record AlterSpec : Type 0 where
  pub kind : AlterKind
  pub column : Str
  pub column_def : ColumnDef
