-- ===== src/Sql/Dml.antt =====
-- src/SqlParser.cpp: INSERT, SELECT, UPDATE and DELETE.
pub mod Select
use open_db.Prelude.{
  ℕ, ◌^◌, Bool, true, false, ◌⊎◌, inl, inr, Option, none, some, List, [], ◌∷◌, ◌++◌, Str, codes,
  if◌then◌else◌, length,
}
use open_db.Value.{Value}
use open_db.Value.Render.{decimal}
use open_db.Tuple
use open_db.Tuple.{Tuple}
use open_db.Command.{CommandType, insert, select, update, delete, Command, make_command}
use open_db.Sql.{Node, SqlStatement, command}
use open_db.Sql.Parser.{
  Parser, Result, ok, fail, thrown, Parse, pure, resume, ◌>>=◌, ◌>>◌, raise, expect, attempt,
  branch, require, Round, again, leave, loop,
}
use open_db.Sql.Scan.{consume_keyword, consume_symbol, consume_identifier}
use open_db.Sql.Literals.{consume_value_literal}
use open_db.Sql.Where.{parse_where}

-- What the constructor of Command gives or throws.
unfoldable pub constructed : Str ⊎ Command Node → Parse (Command Node)
constructed (inl message) p = thrown message
constructed (inr c) p = ok c p

abbrev pub build : CommandType → Str → Option Node → Option Tuple → List Str → Parse (Command Node)
build type table filter values projections =
    constructed (make_command type table filter values projections)

-- A round of the column list of INSERT, whose names are dropped.
unfoldable pub name_round : List Str → Parse (Round (List Str) (List Str))
name_round names = do
  col ← expect (codes "expected column name") consume_identifier
  branch (consume_symbol (codes ",")) (pure (again (names ++ col ∷ []))) (
      branch (consume_symbol (codes ")")) (pure (leave (names ++ col ∷ [])))
        (raise (codes "expected ',' or ')' in column list")))

unfoldable pub parse_column_names : Parse (List Str)
parse_column_names = branch (consume_symbol (codes "(")) (loop name_round []) (pure [])

module _ (strtod : Str → ℕ) where
  -- The value goes under the number of values before it.
  abbrev push_value : Tuple → Value → Tuple
  push_value t v = Tuple.set t (decimal (length t)) v

  -- error_ = message; return t;
  abbrev leave_with : Str → Tuple → Parse (Round Tuple Tuple)
  leave_with message t p = ok (leave t) (record p { error = message })

  unfoldable pub value_round : Tuple → Option Value → Parse (Round Tuple Tuple)
  value_round t none = pure (leave t)
  value_round t (some v) = branch (consume_symbol (codes ",")) (pure (again (push_value t v))) (
      branch (consume_symbol (codes ")")) (pure (leave (push_value t v)))
        (leave_with (codes "expected ',' or ')' in value list") (push_value t v)))

  unfoldable pub insert_round : Tuple → Parse (Round Tuple Tuple)
  insert_round t = do v ← attempt (consume_value_literal strtod); value_round t v

  -- A tuple comes back on the error paths too.
  unfoldable pub parse_insert_value_list : Parse Tuple
  parse_insert_value_list =
      branch (consume_symbol (codes "(")) (loop insert_round Tuple.empty)
        (λ p. ok Tuple.empty (record p { error = codes "expected '(' after VALUES" }))

  unfoldable pub parse_default_values : Str → Parse (Command Node)
  parse_default_values table =
      branch (consume_keyword (codes "DEFAULT"))
        (do
          require (codes "expected VALUES after DEFAULT") (consume_keyword (codes "VALUES"))
          build insert table none (some Tuple.empty) [])
        (raise (codes "expected VALUES or DEFAULT VALUES"))

  unfoldable pub parse_insert : Parse (Command Node)
  parse_insert = do
    _ ← consume_keyword (codes "INTO")
    table ← expect (codes "expected table name after INSERT") consume_identifier
    _ ← parse_column_names
    branch (consume_keyword (codes "VALUES"))
        (do t ← parse_insert_value_list; build insert table none (some t) [])
        (parse_default_values table)

  unfoldable pub set_round : Tuple → Parse (Round Tuple Tuple)
  set_round t = do
    col ← expect (codes "expected column name in SET") consume_identifier
    require (codes "expected '=' after column") (consume_symbol (codes "="))
    v ← consume_value_literal strtod
    branch (consume_symbol (codes ",")) (pure (again (Tuple.set t col v)))
        (pure (leave (Tuple.set t col v)))

  unfoldable pub parse_update : Parse (Command Node)
  parse_update = do
    table ← expect (codes "expected table name after UPDATE") consume_identifier
    require (codes "expected SET after table name") (consume_keyword (codes "SET"))
    values ← loop set_round Tuple.empty
    filter ← parse_where strtod
    build update table filter (some values) []

  unfoldable pub parse_delete : Parse (Command Node)
  parse_delete = do
    _ ← consume_keyword (codes "FROM")
    table ← expect (codes "expected table name after DELETE") consume_identifier
    filter ← parse_where strtod
    build delete table filter none []
