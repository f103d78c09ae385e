-- ===== src/Sql/Ddl.antt =====
-- src/SqlParser.cpp: CREATE TABLE, DROP TABLE and ALTER TABLE.
use open_db.Prelude.{
  ℕ, ◌^◌, Bool, true, false, Option, none, some, List, [], ◌∷◌, ◌++◌, Str, codes, ◌==◌,
  if◌then◌else◌,
}
use open_db.Prelude.Int.{ℤ, pos, negsuc}
use open_db.Prelude.Words.{to_unsigned, to_signed}
use open_db.Value.{Value, null}
use open_db.Schema.{
  ValueType, int32_type, int64_type, double_type, text_type, blob_type, date_type, timestamp_type,
  bool_type, ColumnDef, fresh_column, by_hash, PartitionPolicy, add_column, drop_column,
  rename_table,
}
use open_db.Sql.{SqlStatement, create_table, drop_table, alter_table}
use open_db.Sql.Parser.{
  Parse, pure, ◌>>=◌, ◌>>◌, raise, expect, branch, require, Round, again, leave, loop,
}
use open_db.Sql.Scan.{
  is_digit, consume_keyword, consume_symbol, consume_identifier, consume_word, span,
}
use open_db.Sql.Literals.{consume_value_literal, strtoll}

-- consumeKeyword(a) || consumeKeyword(b) || ...
unfoldable pub consume_any : List Str → Parse Bool
consume_any [] = pure false
consume_any (kw ∷ kws) = branch (consume_keyword kw) (pure true) (consume_any kws)

unfoldable pub parse_column_type : Parse ValueType
parse_column_type = branch (consume_any (codes "INT" ∷ codes "INTEGER" ∷ [])) (pure int64_type) (
    branch (consume_keyword (codes "BIGINT")) (pure int64_type) (
      branch (consume_keyword (codes "SMALLINT")) (pure int32_type) (
        branch (consume_any (codes "DOUBLE" ∷ codes "REAL" ∷ codes "FLOAT" ∷ [])) (pure double_type)
          (branch (consume_any (codes "TEXT" ∷ codes "VARCHAR" ∷ codes "CHAR" ∷ []))
            (pure text_type)
            (branch (consume_any (codes "BLOB" ∷ codes "BYTEA" ∷ [])) (pure blob_type) (
              branch (consume_keyword (codes "DATE")) (pure date_type) (
                branch (consume_keyword (codes "TIMESTAMP")) (pure timestamp_type) (
                  branch (consume_any (codes "BOOL" ∷ codes "BOOLEAN" ∷ [])) (pure bool_type)
                    (raise (codes "unknown column type"))))))))))

-- The column under construction, and hasPrimaryKey.
pub record ColumnState : Type 0 where
  pub col : ColumnDef
  pub has_primary_key : Bool

abbrev with_column : ColumnState → ColumnDef → ColumnState
with_column s c = record s { col = c }

unfoldable pub mark_primary : ColumnState → Parse (Round ColumnState ColumnState)
mark_primary s =
    if s.has_primary_key
    then raise (codes "only one PRIMARY KEY allowed")
    else pure (again (record { col = record s.col { primary_key = true }; has_primary_key = true }))

-- The columns read so far, and hasPrimaryKey.
pub record Columns : Type 0 where
  pub cols : List ColumnDef
  pub has_primary_key : Bool

abbrev push_column : Columns → ColumnState → Columns
push_column s c = record { cols = s.cols ++ c.col ∷ []; has_primary_key = c.has_primary_key }

-- int n = std::atoi(word); the word has no sign, and the conversion to int keeps the low 32 bits.
unfoldable pub atoi : Str → ℤ
atoi word = to_signed (2 ^ 32) (to_unsigned (2 ^ 32) (strtoll (span is_digit word).0))

unfoldable pub hash_policy : Str → ℤ → Parse PartitionPolicy
hash_policy col (negsuc n) = raise (codes "partition count must be positive")
hash_policy col (pos n) =
    if n == 0
    then raise (codes "partition count must be positive")
    else pure
        (record { kind = by_hash; column = col; shard_count = n; boundaries = []; lists = [] })

unfoldable pub parse_hash : Parse PartitionPolicy
parse_hash = do
  require (codes "expected BY after PARTITION") (consume_keyword (codes "BY"))
  require (codes "only HASH partitioning supported") (consume_keyword (codes "HASH"))
  require (codes "expected '(' after HASH") (consume_symbol (codes "("))
  col ← expect (codes "expected partition column name") consume_identifier
  require (codes "expected ')' after partition column") (consume_symbol (codes ")"))
  require (codes "expected PARTITIONS N") (consume_keyword (codes "PARTITIONS"))
  count ← expect (codes "expected partition count") consume_word
  hash_policy col (atoi count)

unfoldable pub parse_partition : Parse (Option PartitionPolicy)
parse_partition =
    branch (consume_keyword (codes "PARTITION")) (do p ← parse_hash; pure (some p)) (pure none)

unfoldable pub parse_drop_column : Str → Parse SqlStatement
parse_drop_column table = do
  require (codes "expected COLUMN after DROP") (consume_keyword (codes "COLUMN"))
  name ← expect (codes "expected column name") consume_identifier
  pure (alter_table table (record { kind = drop_column; column = name; column_def = fresh_column }))

unfoldable pub parse_rename : Str → Parse SqlStatement
parse_rename table = do
  require (codes "expected TO after RENAME") (consume_keyword (codes "TO"))
  name ← expect (codes "expected new table name after RENAME TO") consume_identifier
  pure
      (alter_table table (record { kind = rename_table; column = name; column_def = fresh_column }))

module _ (strtod : Str → ℕ) where
  unfoldable pub parse_default : Parse Value
  parse_default =
      branch (consume_keyword (codes "NULL")) (pure null)
        (expect (codes "expected literal after DEFAULT") (consume_value_literal strtod))

  -- A round of the loop over the constraints of a column.
  unfoldable pub constraint_round : ColumnState → Parse (Round ColumnState ColumnState)
  constraint_round s =
      branch (consume_keyword (codes "PRIMARY"))
        (do
          require (codes "expected KEY after PRIMARY") (consume_keyword (codes "KEY"))
          mark_primary s)
        (branch (consume_keyword (codes "NOT"))
          (do
            require (codes "expected NULL after NOT") (consume_keyword (codes "NULL"))
            pure (again (with_column s (record s.col { nullable = false }))))
          (branch (consume_keyword (codes "NULL"))
            (pure (again (with_column s (record s.col { nullable = true }))))
            (branch (consume_keyword (codes "DEFAULT"))
              (do
                v ← parse_default
                pure (again (with_column s (record s.col { default_value = some v }))))
              (pure (leave s)))))

  unfoldable pub parse_column_spec : Bool → Parse ColumnState
  parse_column_spec has_primary_key = do
    name ← expect (codes "expected column name") consume_identifier
    type ← parse_column_type
    loop constraint_round (record {
      col = record fresh_column { name = name; type = type };
      has_primary_key = has_primary_key;
    })

  unfoldable pub column_round : Columns → Parse (Round Columns (List ColumnDef))
  column_round s = branch (consume_symbol (codes ")")) (pure (leave s.cols)) do
    c ← parse_column_spec s.has_primary_key
    branch (consume_symbol (codes ",")) (pure (again (push_column s c))) (
        branch (consume_symbol (codes ")")) (pure (leave (push_column s c).cols))
          (raise (codes "expected ',' or ')' in column list")))

  unfoldable pub parse_create_table : Parse SqlStatement
  parse_create_table = do
    table ← expect (codes "expected table name after CREATE TABLE") consume_identifier
    require (codes "expected '(' after table name") (consume_symbol (codes "("))
    columns ← loop column_round (record { cols = []; has_primary_key = false })
    partition ← parse_partition
    pure (create_table (record { table = table; columns = columns; partition = partition }))

  unfoldable pub parse_add_column : Str → Parse SqlStatement
  parse_add_column table = do
    require (codes "expected COLUMN after ADD") (consume_keyword (codes "COLUMN"))
    c ← parse_column_spec false
    pure (alter_table table (record { kind = add_column; column = c.col.name; column_def = c.col }))

  unfoldable pub parse_alter_table : Parse SqlStatement
  parse_alter_table = do
    table ← expect (codes "expected table name after ALTER TABLE") consume_identifier
    branch (consume_keyword (codes "ADD")) (parse_add_column table) (
        branch (consume_keyword (codes "DROP")) (parse_drop_column table) (
          branch (consume_keyword (codes "RENAME")) (parse_rename table)
            (raise (codes "expected ADD, DROP, or RENAME after ALTER TABLE"))))

unfoldable pub parse_drop_table : Parse SqlStatement
parse_drop_table = do
  table ← expect (codes "expected table name after DROP TABLE") consume_identifier
  pure (drop_table table)
