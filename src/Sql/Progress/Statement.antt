-- ===== src/Sql/Progress/Statement.antt =====
-- parse and parseAll of src/SqlParser.cpp end: no loop of theirs runs out of its fuel.
use open_db.Prelude.{ℕ, [], ◌∷◌, Str, arith, length}
use mathlib.Core.Logic.{◌≢◌}
use open_db.Sql.Parser.{out_of_fuel}
use open_db.Sql.Statement.{
  dispatch_txn, dispatch_rows, dispatch, statement_at, parse_statement, parse,
}
use open_db.Sql.Progress.{
  >>-Spends, Within, Within-le, Spends, nothing, spends, >>=-Spends, pure-Spends, raise-Spends,
  branch-Spends,
}
use open_db.Sql.Progress.Tokens.{skip-Spends, consume_keyword-Spends}
use open_db.Sql.Progress.Ddl.{
  parse_create_table-Spends, parse_alter_table-Spends, parse_drop_table-Spends,
}
use open_db.Sql.Progress.Dml.{parse_insert-Spends, parse_update-Spends, parse_delete-Spends}
use open_db.Sql.Progress.Select.{parse_select-Spends}

module _ (strtod : Str → ℕ) where
  dispatch_txn-Spends : Spends 0 nothing (dispatch_txn strtod)
  unfolding dispatch_txn
  dispatch_txn-Spends =
      branch-Spends (consume_keyword-Spends _ _)
        (>>=-Spends (consume_keyword-Spends _ _) λ b. pure-Spends _ (omega arith))
        (branch-Spends (consume_keyword-Spends _ _) (search spends)
          (branch-Spends (consume_keyword-Spends _ _) (search spends) (raise-Spends _)))

  dispatch_rows-Spends : Spends 0 nothing (dispatch_rows strtod)
  unfolding dispatch_rows
  dispatch_rows-Spends =
      branch-Spends (consume_keyword-Spends _ _)
        (>>=-Spends (parse_insert-Spends strtod) λ c. pure-Spends _ (omega arith))
        (branch-Spends (consume_keyword-Spends _ _)
          (>>=-Spends (parse_select-Spends strtod) λ c. pure-Spends _ (omega arith))
          (branch-Spends (consume_keyword-Spends _ _)
            (>>=-Spends (parse_update-Spends strtod) λ c. pure-Spends _ (omega arith))
            (branch-Spends (consume_keyword-Spends _ _)
              (>>=-Spends (parse_delete-Spends strtod) λ c. pure-Spends _ (omega arith))
              dispatch_txn-Spends)))

  dispatch-Spends : Spends 0 nothing (dispatch strtod)
  unfolding dispatch
  dispatch-Spends =
      branch-Spends (consume_keyword-Spends _ _)
        (branch-Spends (consume_keyword-Spends _ _) (parse_create_table-Spends strtod)
          (raise-Spends _))
        (branch-Spends (consume_keyword-Spends _ _)
          (branch-Spends (consume_keyword-Spends _ _) parse_drop_table-Spends (raise-Spends _))
          (branch-Spends (consume_keyword-Spends _ _)
            (branch-Spends (consume_keyword-Spends _ _) (parse_alter_table-Spends strtod)
              (raise-Spends _))
            dispatch_rows-Spends))

  statement_at-Spends : (s : Str) → Spends 0 nothing (statement_at strtod s)
  unfolding statement_at
  statement_at-Spends [] = raise-Spends _
  statement_at-Spends (c ∷ s) = dispatch-Spends

  parse_statement-Spends : Spends 0 nothing (parse_statement strtod)
  unfolding parse_statement
  parse_statement-Spends =
      >>-Spends skip-Spends (record { run = λ p. (statement_at-Spends p.rest).run p })

  parse-Within : (sql : Str) → Within nothing (length sql) (parse strtod sql)
  unfolding parse
  parse-Within sql = Within-le nothing _ (omega arith) (parse_statement-Spends.run _)

  -- Whatever the text is, parse gives a statement, an error or an exception.
  pub parse_total : (sql : Str) → parse strtod sql ≢ out_of_fuel
  parse_total sql e = rw e at (parse-Within sql)
