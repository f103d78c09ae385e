-- ===== src/Sql/Where.antt =====
-- src/SqlParser.cpp: the predicates of a WHERE clause, by recursive descent.
use open_db.Prelude.{ℕ, Option, none, some, Str, codes}
use open_db.Value.{null}
use open_db.Predicate.{
  ComparisonOp, equals, not_equals, less, less_equals, greater, greater_equals, isnull, isnotnull,
  conjunction, disjunction,
}
use open_db.Sql.{Node, null_node, comparison, logical}
use open_db.Sql.Parser.{
  fail, Parse, pure, ◌>>=◌, raise, expect, attempt, branch, Round, again, leave, loop,
}
use open_db.Sql.Scan.{consume_keyword, consume_symbol, consume_identifier}
use open_db.Sql.Literals.{consume_value_literal}

-- The operators after IS.
unfoldable pub parse_is : Parse ComparisonOp
parse_is = branch (consume_keyword (codes "NULL")) (pure isnull) (
    branch (consume_keyword (codes "NOT"))
      (branch (consume_keyword (codes "NULL")) (pure isnotnull)
        (raise (codes "expected NULL after IS NOT")))
      (raise (codes "expected NULL or NOT NULL after IS")))

unfoldable pub parse_comparison_op : Parse ComparisonOp
parse_comparison_op = branch (consume_keyword (codes "IS")) parse_is (
    branch (consume_symbol (codes "=")) (pure equals) (
      branch (consume_symbol (codes "!=")) (pure not_equals) (
        branch (consume_symbol (codes "<=")) (pure less_equals) (
          branch (consume_symbol (codes ">=")) (pure greater_equals) (
            branch (consume_symbol (codes "<")) (pure less)
              (branch (consume_symbol (codes ">")) (pure greater) fail))))))

module _ (strtod : Str → ℕ) where
  -- The rest of a comparison, behind its column and operator.
  unfoldable pub parse_operand : Str → ComparisonOp → Parse Node
  parse_operand col isnull = pure (comparison col isnull null)
  parse_operand col isnotnull = pure (comparison col isnotnull null)
  parse_operand col op = do v ← consume_value_literal strtod; pure (comparison col op v)

  unfoldable pub comparison_expr : Parse Node
  comparison_expr = do
    col ← expect (codes "expected column name in predicate") consume_identifier
    op ← expect (codes "expected comparison operator") parse_comparison_op
    parse_operand col op

  abbrev or_null : Option Node → Node
  or_null none = null_node
  or_null (some node) = node

  -- parsePrimExpr; its null pointer is a value here, since its callers do not check it.
  unfoldable pub parse_prim_expr : Parse Node
  parse_prim_expr = do node ← attempt comparison_expr; pure (or_null node)

  unfoldable pub and_round : Node → Parse (Round Node Node)
  and_round left =
      branch (consume_keyword (codes "AND"))
        (do right ← parse_prim_expr; pure (again (logical conjunction left right)))
        (pure (leave left))

  unfoldable pub parse_and_expr : Parse Node
  parse_and_expr = do left ← parse_prim_expr; loop and_round left

  unfoldable pub or_round : Node → Parse (Round Node Node)
  or_round left =
      branch (consume_keyword (codes "OR"))
        (do right ← parse_and_expr; pure (again (logical disjunction left right)))
        (pure (leave left))

  -- parseOrExpr, and parsePredicate, which calls it.
  unfoldable pub parse_or_expr : Parse Node
  parse_or_expr = do left ← parse_and_expr; loop or_round left

  -- if (!pred) return std::nullopt;
  abbrev pub non_null : Node → Parse Node
  non_null null_node = fail
  non_null (comparison col op v) = pure (comparison col op v)
  non_null (logical op l r) = pure (logical op l r)

  -- The optional WHERE clause of a statement.
  unfoldable pub parse_where : Parse (Option Node)
  parse_where =
      branch (consume_keyword (codes "WHERE"))
        (do pred ← parse_or_expr; node ← non_null pred; pure (some node)) (pure none)
