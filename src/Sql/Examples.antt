-- ===== src/Sql/Examples.antt =====
-- Statements that the parser reads, and the theorems at some of them. The double of a number is not
-- computed here: no example has one.
use open_db.Prelude.{ℕ, ◌≡◌, refl, none, some, true, [], ◌∷◌, ◌++◌, Str, codes, arith}
use open_db.Prelude.Int.{pos}
use open_db.Value.{text, int64}
use open_db.Value.Render.{decimal, decimal_loop}
use open_db.Predicate.{equals, disjunction}
use open_db.Tuple.{set}
use open_db.Schema.{ColumnDef, fresh_column, int64_type}
use open_db.Command.{Command, delete, insert, make_command, validate}
use open_db.Sql.{Node, null_node, comparison, logical, SqlStatement, create_table, command}
use open_db.Sql.Parser.{
  Parser, ok, thrown, pure, ◌>>=◌, ◌>>◌, raise, expect, attempt, branch, require, iterate, loop,
}
use open_db.Sql.Scan.{
  is_word, skip_block, starts_word, consume_identifier, skip, skip_round, skip_line, skip_loop,
  strip_keyword, at_boundary, strip_symbol, consume_keyword, consume_symbol, span, close_quoted,
  identifier_at, word_at, consume_word,
}
use open_db.Sql.Literals.{
  consume_value_literal, literal_body, close_literal, string_at, consume_string_literal,
  number_loop, scan_number, digits_value, strtoll, number_value, number_taken, consume_number,
  literal_at,
}
use open_db.Sql.Statement.{parse, dispatch_rows, dispatch, statement_at, parse_statement}
use open_db.Sql.Sound.{IsWellFormed, key_count}
use open_db.Sql.Sound.Statement.{parse-IsWellFormed}
use open_db.Sql.Tokens.{consume_value_literal_text}
use open_db.Sql.Numbers.{consume_value_literal-decimal}
use open_db.Sql.Where.{
  parse_is, parse_comparison_op, parse_operand, comparison_expr, parse_prim_expr, and_round,
  parse_and_expr, or_round, parse_or_expr, parse_where,
}
use open_db.Sql.Ddl.{
  consume_any, parse_column_type, mark_primary, parse_partition, constraint_round,
  parse_column_spec, column_round, parse_create_table,
}
use open_db.Sql.Dml.{
  constructed, parse_column_names, value_round, insert_round, parse_insert_value_list, parse_insert,
  parse_delete,
}
use open_db.Prelude.Dict.{put}

abbrev no_doubles : Str → ℕ
no_doubles s = 0

abbrev at : Str → Parser
at s = record { rest = s; size = 40; error = [] }

abbrev id_column : ColumnDef
id_column = record fresh_column { name = codes "id"; type = int64_type; primary_key = true }

abbrev create : SqlStatement
create = create_table (record { table = codes "t"; columns = id_column ∷ []; partition = none })

parse-IsWellFormed_example : IsWellFormed create
unfolding pure ◌>>=◌ ◌>>◌ raise expect attempt branch require iterate loop is_word starts_word
    skip_line skip_block skip_round skip_loop skip strip_keyword at_boundary strip_symbol
    consume_keyword consume_symbol span close_quoted identifier_at consume_identifier word_at
    consume_word literal_body close_literal string_at consume_string_literal number_loop scan_number
    digits_value strtoll number_value number_taken consume_number literal_at consume_value_literal
    dispatch_rows dispatch statement_at parse_statement parse consume_any parse_column_type
    mark_primary parse_partition constraint_round parse_column_spec column_round parse_create_table
    key_count
parse-IsWellFormed_example =
    parse-IsWellFormed no_doubles (codes "create table t (id INT PRIMARY KEY)")
      {p = record { rest = []; size = 35; error = [] }} refl

consume_value_literal_text_example :
    consume_value_literal no_doubles (at (codes "'a b', 1"))
    ≡ ok (text (codes "a b")) (at (codes ", 1"))
consume_value_literal_text_example =
    consume_value_literal_text no_doubles (at []) b'\'' (codes "a b") (codes ", 1") refl
      (refl, (refl, (refl, tt)))

consume_value_literal-decimal_example :
    consume_value_literal no_doubles (at (decimal 42 ++ codes ")"))
    ≡ ok (int64 (pos 42)) (at (codes ")"))
consume_value_literal-decimal_example =
    consume_value_literal-decimal no_doubles (at []) 42 (codes ")") (omega arith) refl

-- A DELETE without WHERE ends parse by an exception.
unconditional : parse no_doubles (codes "DELETE FROM t") ≡ thrown (codes "Delete requires WHERE")
unfolding pure ◌>>=◌ ◌>>◌ raise expect attempt branch require iterate loop is_word starts_word
    skip_line skip_block skip_round skip_loop skip strip_keyword at_boundary strip_symbol
    consume_keyword consume_symbol span close_quoted identifier_at consume_identifier word_at
    consume_word literal_body close_literal string_at consume_string_literal number_loop scan_number
    digits_value strtoll number_value number_taken consume_number literal_at consume_value_literal
    dispatch_rows dispatch statement_at parse_statement parse parse_delete constructed make_command
    validate parse_where
unconditional = refl

abbrev half : Command Node
half = record {
  type = delete;
  table = codes "t";
  filter = some (logical disjunction (comparison (codes "a") equals (int64 (pos 1))) null_node);
  values = none;
  projections = [];
  order_by = [];
  joins = [];
  limit = none;
  offset = none;
  txn_id = none;
}

-- A second operand that is cut off becomes a null pointer in the tree, with no error.
cut_off :
    parse no_doubles (codes "DELETE FROM t WHERE a = 1 OR b =")
    ≡ ok (command half) (record { rest = []; size = 32; error = [] })
unfolding pure ◌>>=◌ ◌>>◌ raise expect attempt branch require iterate loop is_word starts_word
    skip_line skip_block skip_round skip_loop skip strip_keyword at_boundary strip_symbol
    consume_keyword consume_symbol span close_quoted identifier_at consume_identifier word_at
    consume_word literal_body close_literal string_at consume_string_literal number_loop scan_number
    digits_value strtoll number_value number_taken consume_number literal_at consume_value_literal
    dispatch_rows dispatch statement_at parse_statement parse parse_delete constructed make_command
    validate parse_is parse_comparison_op parse_operand comparison_expr parse_prim_expr and_round
    parse_and_expr or_round parse_or_expr parse_where
cut_off = refl

abbrev one_value : Command Node
one_value = record {
  type = insert;
  table = codes "t";
  filter = none;
  values = some ((codes "0", int64 (pos 1)) ∷ []);
  projections = [];
  order_by = [];
  joins = [];
  limit = none;
  offset = none;
  txn_id = none;
}

-- An INSERT whose value list breaks off inserts what stands before.
broken_off :
    parse no_doubles (codes "INSERT INTO t VALUES (1,")
    ≡ ok (command one_value) (record { rest = []; size = 24; error = [] })
unfolding pure ◌>>=◌ ◌>>◌ raise expect attempt branch require iterate loop is_word starts_word
    skip_line skip_block skip_round skip_loop skip strip_keyword at_boundary strip_symbol
    consume_keyword consume_symbol span close_quoted identifier_at consume_identifier word_at
    consume_word literal_body close_literal string_at consume_string_literal number_loop scan_number
    digits_value strtoll number_value number_taken consume_number literal_at consume_value_literal
    dispatch_rows dispatch statement_at parse_statement parse parse_insert parse_column_names
    parse_insert_value_list insert_round value_round constructed make_command validate set
    decimal_loop put
broken_off = refl

-- The last character of a comment without an end is read as SQL.
open_comment : skip_loop 7 (codes "/* abc") ≡ some (codes "c")
unfolding skip_loop skip_round skip_block
open_comment = refl
