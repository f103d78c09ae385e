-- ===== src/Sql/Progress/Select.antt =====
-- parseSelect of src/SqlParser.cpp keeps within its fuel.
use open_db.Prelude.{ℕ, Option, none, some, List, Str, arith}
use open_db.Value.{Value, int32, int64}
use open_db.Command.{OrderBySpec, JoinKind, Command}
use open_db.Sql.{Node}
use open_db.Sql.Dml.Select.{
  projection_round, parse_projections, parse_direction, parse_nulls, order_round, parse_order_by,
  to_size, parse_count, parse_offset, parse_window, parse_join_kind, parse_join, join_with,
  join_round, parse_select,
}
use open_db.Sql.Progress.{
  Spends, nothing, if_some, round_weight, spends, >>=-Spends, >>-Spends, pure-Spends, expect-Spends,
  branch-Spends, require-Spends, Spends-nothing, Spends-le, loop-Spends,
}
use open_db.Sql.Progress.Tokens.{
  tokens, consume_keyword-Spends, consume_symbol-Spends, consume_identifier-Spends,
}
use open_db.Sql.Progress.Literals.{consume_value_literal-Spends}
use open_db.Sql.Progress.Where.{parse_where-Spends}
use open_db.Sql.Progress.Dml.{constructed-Spends}

projection_round-Spends :
    (cols : List Str) → Spends 0 (round_weight nothing) (projection_round cols)
unfolding projection_round
projection_round-Spends cols = >>=-Spends (expect-Spends _ consume_identifier-Spends) λ col.
    branch-Spends (consume_symbol-Spends _ _) (pure-Spends _ (omega arith))
      (pure-Spends _ (omega arith))

parse_projections-Spends : Spends 0 nothing parse_projections
unfolding parse_projections
parse_projections-Spends =
    branch-Spends (consume_symbol-Spends _ _) (search spends)
      (loop-Spends projection_round-Spends _)

parse_direction-Spends : Spends 0 nothing parse_direction
unfolding parse_direction
parse_direction-Spends = search (spends, tokens)

parse_nulls-Spends : Spends 0 nothing parse_nulls
unfolding parse_nulls
parse_nulls-Spends = search (spends, tokens) depth 10

order_round-Spends :
    (specs : List OrderBySpec) → Spends 0 (round_weight nothing) (order_round specs)
unfolding order_round
order_round-Spends specs = >>=-Spends (expect-Spends _ consume_identifier-Spends) λ col.
    >>=-Spends parse_direction-Spends λ dir. >>=-Spends parse_nulls-Spends λ nulls.
      branch-Spends (consume_symbol-Spends _ _) (pure-Spends _ (omega arith))
        (pure-Spends _ (omega arith))

parse_order_by-Spends : Spends 0 nothing parse_order_by
unfolding parse_order_by
parse_order_by-Spends =
    branch-Spends (consume_keyword-Spends _ _)
      (>>-Spends (require-Spends _ (consume_keyword-Spends _ _))
        (Spends-nothing (loop-Spends order_round-Spends _) (omega arith)))
      (search spends)

to_size-Spends : {g : ℕ} (message : Str) (v : Value) → Spends g nothing (to_size message v)
unfolding to_size
to_size-Spends message (int32 z) = search spends
to_size-Spends message (int64 z) = search spends
to_size-Spends message _ = search spends

module _ (strtod : Str → ℕ) where
  parse_count-Spends : {g : ℕ} (message : Str) → Spends g nothing (parse_count strtod message)
  unfolding parse_count
  parse_count-Spends message =
      >>=-Spends (expect-Spends message (consume_value_literal-Spends strtod))
        λ v. to_size-Spends message v

  parse_offset-Spends : Spends 0 nothing (parse_offset strtod)
  unfolding parse_offset
  parse_offset-Spends =
      branch-Spends (consume_keyword-Spends _ _)
        (>>=-Spends (parse_count-Spends _) λ n. pure-Spends _ (omega arith)) (search spends)

  parse_window-Spends : Spends 0 nothing (parse_window strtod)
  unfolding parse_window
  parse_window-Spends =
      branch-Spends (consume_keyword-Spends _ _)
        (>>=-Spends (parse_count-Spends _)
          λ n. >>=-Spends parse_offset-Spends λ o. pure-Spends _ (omega arith))
        (>>=-Spends parse_offset-Spends λ o. pure-Spends _ (omega arith))

parse_join_kind-Spends : Spends 0 if_some parse_join_kind
unfolding parse_join_kind
parse_join_kind-Spends = search (spends, tokens) depth 12

parse_join-Spends : (kind : JoinKind) → Spends 0 nothing (parse_join kind)
unfolding parse_join
parse_join-Spends kind = >>=-Spends (expect-Spends _ consume_identifier-Spends) λ table.
    >>-Spends (require-Spends _ (consume_keyword-Spends _ _)) (
      >>=-Spends (expect-Spends _ consume_identifier-Spends) λ left_table.
        >>-Spends (require-Spends _ (consume_symbol-Spends _ _)) (
          >>=-Spends (expect-Spends _ consume_identifier-Spends) λ left_col.
            >>-Spends (require-Spends _ (consume_symbol-Spends _ _)) (
              >>=-Spends (expect-Spends _ consume_identifier-Spends) λ right_table.
                >>-Spends (require-Spends _ (consume_symbol-Spends _ _)) (
                  >>=-Spends (expect-Spends _ consume_identifier-Spends)
                    λ right_col. pure-Spends _ (omega arith)))))

join_with-Spends :
    (c : Command Node) (o : Option JoinKind)
    → Spends (if_some o) (round_weight nothing) (join_with c o)
unfolding join_with
join_with-Spends c none = search spends
join_with-Spends c (some kind) =
    >>=-Spends (parse_join-Spends kind) λ j. pure-Spends _ (omega arith)

join_round-Spends : (c : Command Node) → Spends 0 (round_weight nothing) (join_round c)
unfolding join_round
join_round-Spends c =
    >>=-Spends parse_join_kind-Spends λ kind. Spends-le (join_with-Spends c kind) (omega arith)

pub parse_select-Spends : {g : ℕ} (strtod : Str → ℕ) → Spends g nothing (parse_select strtod)
unfolding parse_select
parse_select-Spends strtod = >>=-Spends parse_projections-Spends λ projections.
    >>-Spends (require-Spends _ (consume_keyword-Spends _ _)) (
      >>=-Spends (expect-Spends _ consume_identifier-Spends) λ table.
        >>=-Spends (parse_where-Spends strtod) λ filter. >>=-Spends parse_order_by-Spends λ order.
          >>=-Spends (parse_window-Spends strtod) λ window.
            >>=-Spends (constructed-Spends _)
              λ c. Spends-nothing (loop-Spends join_round-Spends _) (omega arith))
