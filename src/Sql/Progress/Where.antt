-- ===== src/Sql/Progress/Where.antt =====
-- The predicates of src/SqlParser.cpp: each function keeps within its fuel.
use open_db.Prelude.{ℕ, Str, arith}
use open_db.Predicate.{ComparisonOp, isnull, isnotnull}
use open_db.Sql.{Node, null_node, comparison, logical}
use open_db.Sql.Where.{
  parse_is, parse_comparison_op, parse_operand, comparison_expr, parse_prim_expr, and_round,
  parse_and_expr, or_round, parse_or_expr, non_null, parse_where,
}
use open_db.Sql.Progress.{
  Spends, nothing, one, round_weight, spends, >>=-Spends, pure-Spends, fail-Spends, expect-Spends,
  branch-Spends, attempt-Spends-nothing, loop-Spends,
}
use open_db.Sql.Progress.Tokens.{tokens, consume_keyword-Spends, consume_identifier-Spends}
use open_db.Sql.Progress.Literals.{consume_value_literal-Spends}

parse_is-Spends : Spends 1 one parse_is
unfolding parse_is
parse_is-Spends = search (spends, tokens) depth 12

parse_comparison_op-Spends : Spends 0 one parse_comparison_op
unfolding parse_comparison_op
parse_comparison_op-Spends = search (spends, tokens, parse_is-Spends, fail-Spends) depth 20

module _ (strtod : Str → ℕ) where
  parse_operand-Spends :
      {g : ℕ} (col : Str) (op : ComparisonOp) → Spends g nothing (parse_operand strtod col op)
  unfolding parse_operand
  parse_operand-Spends col isnull = search spends
  parse_operand-Spends col isnotnull = search spends
  parse_operand-Spends col _ = search (spends, >>=-Spends, consume_value_literal-Spends strtod)

  comparison_expr-Spends : Spends 0 nothing (comparison_expr strtod)
  unfolding comparison_expr
  comparison_expr-Spends = >>=-Spends (expect-Spends _ consume_identifier-Spends) λ col.
      >>=-Spends (expect-Spends _ parse_comparison_op-Spends) λ op. parse_operand-Spends col op

  parse_prim_expr-Spends : Spends 0 nothing (parse_prim_expr strtod)
  unfolding parse_prim_expr
  parse_prim_expr-Spends =
      >>=-Spends (attempt-Spends-nothing comparison_expr-Spends) λ node. pure-Spends _ (omega arith)

  and_round-Spends : (left : Node) → Spends 0 (round_weight nothing) (and_round strtod left)
  unfolding and_round
  and_round-Spends left = search (spends, tokens, >>=-Spends, parse_prim_expr-Spends) depth 12

  parse_and_expr-Spends : Spends 0 nothing (parse_and_expr strtod)
  unfolding parse_and_expr
  parse_and_expr-Spends =
      >>=-Spends parse_prim_expr-Spends λ left. loop-Spends and_round-Spends left

  or_round-Spends : (left : Node) → Spends 0 (round_weight nothing) (or_round strtod left)
  unfolding or_round
  or_round-Spends left = search (spends, tokens, >>=-Spends, parse_and_expr-Spends) depth 12

  parse_or_expr-Spends : Spends 0 nothing (parse_or_expr strtod)
  unfolding parse_or_expr
  parse_or_expr-Spends = >>=-Spends parse_and_expr-Spends λ left. loop-Spends or_round-Spends left

  non_null-Spends : {g : ℕ} (node : Node) → Spends g nothing (non_null strtod node)
  non_null-Spends null_node = fail-Spends
  non_null-Spends (comparison col op v) = search spends
  non_null-Spends (logical op l r) = search spends

  pub parse_where-Spends : Spends 0 nothing (parse_where strtod)
  unfolding parse_where
  parse_where-Spends =
      branch-Spends (consume_keyword-Spends _ _)
        (>>=-Spends parse_or_expr-Spends
          λ pred. >>=-Spends (non_null-Spends pred) λ node. pure-Spends _ (omega arith))
        (pure-Spends _ (omega arith))
