-- ===== src/Sql/Sound/Statement.antt =====
-- parse and parseAll of src/SqlParser.cpp give well-formed statements.
use open_db.Prelude.{ℕ, ◌≡◌, List, [], ◌∷◌, Str}
use open_db.Sql.{SqlStatement, command}
use open_db.Sql.Parser.{Parser, Result, ok, fail, thrown, out_of_fuel}
use open_db.Sql.Scan.{skip}
use open_db.Sql.Ddl.{
  parse_drop_table, parse_alter_table, parse_add_column, parse_drop_column, parse_rename,
}
use open_db.Sql.Statement.{
  dispatch_txn, dispatch_rows, dispatch, statement_at, parse_statement, parse, Batch, parsed,
  stopped, no_fuel, collect, parse_pieces, parse_all,
}
use open_db.Sql.Sound.{IsWellFormed, AllWellFormed}
use open_db.Sql.Sound.Rules.{
  >>-Gives, Ensures, Gives, >>=-Gives, then-Gives, >>-Gives, pure-Gives, raise-Gives, branch-Gives,
}
use open_db.Sql.Sound.Tables.{parse_create_table-Gives}
use open_db.Sql.Sound.Commands.{
  parse_select-Gives, parse_insert-Gives, parse_update-Gives, parse_delete-Gives,
}

parse_drop_table-Gives : Gives IsWellFormed parse_drop_table
unfolding parse_drop_table
parse_drop_table-Gives = then-Gives _ λ table. pure-Gives _ tt

abbrev BatchOk : Batch → Type 0
BatchOk (parsed ss) = AllWellFormed ss
BatchOk (stopped message) = Unit
BatchOk no_fuel = Unit

collect-BatchOk :
    (r : Result SqlStatement) (later : Batch)
    → Ensures IsWellFormed r
    → BatchOk later
    → BatchOk (collect r later)
unfolding collect
collect-BatchOk (ok s p) (parsed ts) w k = (w, k)
collect-BatchOk (ok s p) (stopped message) w k = tt
collect-BatchOk (ok s p) no_fuel w k = tt
collect-BatchOk (fail p) later w k = k
collect-BatchOk (thrown message) later w k = tt
collect-BatchOk out_of_fuel later w k = tt

module _ (strtod : Str → ℕ) where
  parse_alter_table-Gives : Gives IsWellFormed (parse_alter_table strtod)
  unfolding parse_alter_table parse_add_column parse_drop_column parse_rename
  parse_alter_table-Gives = then-Gives _ λ table.
      branch-Gives _ (>>-Gives _ (then-Gives _ λ c. pure-Gives _ tt)) (
        branch-Gives _ (>>-Gives _ (then-Gives _ λ c. pure-Gives _ tt))
          (branch-Gives _ (>>-Gives _ (then-Gives _ λ c. pure-Gives _ tt)) (raise-Gives _)))

  dispatch_txn-Gives : Gives IsWellFormed (dispatch_txn strtod)
  unfolding dispatch_txn
  dispatch_txn-Gives =
      branch-Gives _ (then-Gives _ λ b. pure-Gives _ tt)
        (branch-Gives _ (pure-Gives _ tt) (branch-Gives _ (pure-Gives _ tt) (raise-Gives _)))

  dispatch_rows-Gives : Gives IsWellFormed (dispatch_rows strtod)
  unfolding dispatch_rows
  dispatch_rows-Gives =
      branch-Gives _ (>>=-Gives (parse_insert-Gives strtod) λ c h. pure-Gives (command c) h) (
        branch-Gives _ (>>=-Gives (parse_select-Gives strtod) λ c h. pure-Gives (command c) h) (
          branch-Gives _ (>>=-Gives (parse_update-Gives strtod) λ c h. pure-Gives (command c) h) (
            branch-Gives _ (>>=-Gives (parse_delete-Gives strtod) λ c h. pure-Gives (command c) h)
              dispatch_txn-Gives)))

  dispatch-Gives : Gives IsWellFormed (dispatch strtod)
  unfolding dispatch
  dispatch-Gives =
      branch-Gives _ (branch-Gives _ (parse_create_table-Gives strtod) (raise-Gives _)) (
        branch-Gives _ (branch-Gives _ parse_drop_table-Gives (raise-Gives _)) (
          branch-Gives _ (branch-Gives _ parse_alter_table-Gives (raise-Gives _))
            dispatch_rows-Gives))

  statement_at-Gives : (s : Str) → Gives IsWellFormed (statement_at strtod s)
  unfolding statement_at
  statement_at-Gives [] = raise-Gives _
  statement_at-Gives (c ∷ s) = dispatch-Gives

  parse-Ensures : (sql : Str) → Ensures IsWellFormed (parse strtod sql)
  unfolding parse parse_statement
  parse-Ensures sql =
      (>>-Gives skip {n = λ p. statement_at strtod p.rest p}
          (record { run = λ p. (statement_at-Gives p.rest).run p })).run
        _

  -- A statement that parse gives is well formed: a table to create has one primary key at most,
  -- over all its columns, and a partition with one shard at least; a command carries the clauses
  -- that its type asks for.
  pub parse-IsWellFormed :
      (sql : Str) {s : SqlStatement} {p : Parser} → parse strtod sql ≡ ok s p → IsWellFormed s
  parse-IsWellFormed sql h = rw h at (parse-Ensures sql)

  parse_pieces-BatchOk : (pieces : List Str) → BatchOk (parse_pieces strtod pieces)
  unfolding parse_pieces
  parse_pieces-BatchOk [] = tt
  parse_pieces-BatchOk (piece ∷ pieces) =
      collect-BatchOk (parse strtod piece) (parse_pieces strtod pieces) (parse-Ensures piece)
        (parse_pieces-BatchOk pieces)

  parse_all-BatchOk : (sql : Str) → BatchOk (parse_all strtod sql)
  unfolding parse_all
  parse_all-BatchOk sql = parse_pieces-BatchOk _

  -- So is each statement of the list that parseAll gives.
  pub parse_all-AllWellFormed :
      (sql : Str) {ss : List SqlStatement} → parse_all strtod sql ≡ parsed ss → AllWellFormed ss
  parse_all-AllWellFormed sql h = rw h at (parse_all-BatchOk sql)
