-- ===== src/Sql/Dml/Select.antt =====
-- src/SqlParser.cpp: parseSelect.
use open_db.Prelude.{ℕ, ◌^◌, Bool, true, false, Option, none, some, List, [], ◌∷◌, ◌++◌, Str, codes}
use open_db.Prelude.Words.{to_unsigned}
use open_db.Value.{Value, int32, int64}
use open_db.Command.{
  select, SortDirection, asc, desc, OrderBySpec, JoinKind, inner, left, JoinClause, Command,
  with_order_by, with_limit, with_offset, with_join,
}
use open_db.Sql.{Node}
use open_db.Sql.Dml.{build}
use open_db.Sql.Parser.{
  Parse, pure, ◌>>=◌, ◌>>◌, raise, expect, branch, require, Round, again, leave, loop,
}
use open_db.Sql.Scan.{consume_keyword, consume_symbol, consume_identifier}
use open_db.Sql.Literals.{consume_value_literal}
use open_db.Sql.Where.{parse_where}

unfoldable pub projection_round : List Str → Parse (Round (List Str) (List Str))
projection_round cols = do
  col ← expect (codes "expected column name in SELECT") consume_identifier
  branch (consume_symbol (codes ",")) (pure (again (cols ++ col ∷ [])))
      (pure (leave (cols ++ col ∷ [])))

unfoldable pub parse_projections : Parse (List Str)
parse_projections =
    branch (consume_symbol (codes "*")) (pure (codes "*" ∷ [])) (loop projection_round [])

unfoldable pub parse_direction : Parse SortDirection
parse_direction =
    branch (consume_keyword (codes "ASC")) (pure asc)
      (branch (consume_keyword (codes "DESC")) (pure desc) (pure asc))

unfoldable pub parse_nulls : Parse (Option Bool)
parse_nulls =
    branch (consume_keyword (codes "NULLS"))
      (branch (consume_keyword (codes "FIRST")) (pure (some true)) (
        branch (consume_keyword (codes "LAST")) (pure (some false))
          (raise (codes "expected FIRST or LAST after NULLS"))))
      (pure none)

unfoldable pub order_round : List OrderBySpec → Parse (Round (List OrderBySpec) (List OrderBySpec))
order_round specs = do
  col ← expect (codes "expected column name in ORDER BY") consume_identifier
  dir ← parse_direction
  nulls ← parse_nulls
  let spec : OrderBySpec = record { column = col; direction = dir; nulls_first = nulls }
  branch (consume_symbol (codes ",")) (pure (again (specs ++ spec ∷ [])))
      (pure (leave (specs ++ spec ∷ [])))

unfoldable pub parse_order_by : Parse (List OrderBySpec)
parse_order_by =
    branch (consume_keyword (codes "ORDER"))
      (do
        require (codes "expected BY after ORDER") (consume_keyword (codes "BY"))
        loop order_round [])
      (pure [])

-- static_cast<std::size_t> of an integer value; another value is refused.
unfoldable pub to_size : Str → Value → Parse ℕ
to_size message (int32 z) = pure (to_unsigned (2 ^ 64) z)
to_size message (int64 z) = pure (to_unsigned (2 ^ 64) z)
to_size message v = raise message

-- The limit and the offset.
abbrev Window : Type 0
Window = Option ℕ × Option ℕ

module _ (strtod : Str → ℕ) where
  unfoldable pub parse_count : Str → Parse ℕ
  parse_count message = do v ← expect message (consume_value_literal strtod); to_size message v

  unfoldable pub parse_offset : Parse (Option ℕ)
  parse_offset =
      branch (consume_keyword (codes "OFFSET"))
        (do n ← parse_count (codes "expected integer after OFFSET"); pure (some n)) (pure none)

  unfoldable pub parse_window : Parse Window
  parse_window =
      branch (consume_keyword (codes "LIMIT"))
        (do
          n ← parse_count (codes "expected integer after LIMIT")
          o ← parse_offset
          pure (some n, o))
        (do o ← parse_offset; pure (none, o))

-- INNER JOIN, LEFT JOIN or JOIN; `none` ends the chain, also behind a lone INNER or LEFT.
unfoldable pub parse_join_kind : Parse (Option JoinKind)
parse_join_kind =
    branch (consume_keyword (codes "INNER"))
      (branch (consume_keyword (codes "JOIN")) (pure (some inner)) (pure none))
      (branch (consume_keyword (codes "LEFT"))
        (branch (consume_keyword (codes "JOIN")) (pure (some left)) (pure none))
        (branch (consume_keyword (codes "JOIN")) (pure (some inner)) (pure none)))

unfoldable pub parse_join : JoinKind → Parse JoinClause
parse_join kind = do
  table ← expect (codes "expected table name after JOIN") consume_identifier
  require (codes "expected ON after JOIN table") (consume_keyword (codes "ON"))
  left_table ← expect (codes "expected left table in JOIN ON") consume_identifier
  require (codes "expected '.' in JOIN ON left") (consume_symbol (codes "."))
  left_col ← expect (codes "expected left column in JOIN ON") consume_identifier
  require (codes "expected '=' in JOIN ON") (consume_symbol (codes "="))
  right_table ← expect (codes "expected right table in JOIN ON") consume_identifier
  require (codes "expected '.' in JOIN ON right") (consume_symbol (codes "."))
  right_col ← expect (codes "expected right column in JOIN ON") consume_identifier
  pure (record {
    kind = kind;
    table = table;
    left_column = left_table ++ codes "." ++ left_col;
    right_column = right_table ++ codes "." ++ right_col;
  })

unfoldable pub join_with :
    Command Node → Option JoinKind → Parse (Round (Command Node) (Command Node))
join_with c none = pure (leave c)
join_with c (some kind) = do j ← parse_join kind; pure (again (with_join c j))

unfoldable pub join_round : Command Node → Parse (Round (Command Node) (Command Node))
join_round c = do kind ← parse_join_kind; join_with c kind

abbrev pub set_order_by : List OrderBySpec → Command Node → Command Node
set_order_by [] c = c
set_order_by (o ∷ os) c = with_order_by c (o ∷ os)

abbrev pub set_limit : Option ℕ → Command Node → Command Node
set_limit none c = c
set_limit (some n) c = with_limit c n

abbrev pub set_offset : Option ℕ → Command Node → Command Node
set_offset none c = c
set_offset (some n) c = with_offset c n

unfoldable pub parse_select : (Str → ℕ) → Parse (Command Node)
parse_select strtod = do
  projections ← parse_projections
  require (codes "expected FROM after SELECT") (consume_keyword (codes "FROM"))
  table ← expect (codes "expected table name after FROM") consume_identifier
  filter ← parse_where strtod
  order ← parse_order_by
  window ← parse_window strtod
  c ← build select table filter none projections
  loop join_round (set_offset window.1 (set_limit window.0 (set_order_by order c)))
