-- ===== src/Sql/Statement.antt =====
-- src/SqlParser.cpp: parse, parseStatement and parseAll.
use open_db.Prelude.{
  ℕ, Bool, true, false, not, ◌&&◌, List, [], ◌∷◌, ◌++◌, Str, codes, ◌==◌, if◌then◌else◌, length,
}
use open_db.Sql.{SqlStatement, txn_begin, txn_commit, txn_rollback, command}
use open_db.Sql.Parser.{
  Result, ok, fail, thrown, out_of_fuel, Parse, pure, ◌>>=◌, ◌>>◌, raise, branch,
}
use open_db.Sql.Scan.{skip, consume_keyword}
use open_db.Sql.Ddl.{parse_create_table, parse_drop_table, parse_alter_table}
use open_db.Sql.Dml.{parse_insert, parse_update, parse_delete}
use open_db.Sql.Dml.Select.{parse_select}

module _ (strtod : Str → ℕ) where
  unfoldable pub dispatch_txn : Parse SqlStatement
  dispatch_txn =
      branch (consume_keyword (codes "BEGIN"))
        (do _ ← consume_keyword (codes "TRANSACTION"); pure txn_begin)
        (branch (consume_keyword (codes "COMMIT")) (pure txn_commit) (
          branch (consume_keyword (codes "ROLLBACK")) (pure txn_rollback)
            (raise (codes "unknown statement type"))))

  unfoldable pub dispatch_rows : Parse SqlStatement
  dispatch_rows =
      branch (consume_keyword (codes "INSERT")) (do c ← parse_insert strtod; pure (command c))
        (branch (consume_keyword (codes "SELECT")) (do c ← parse_select strtod; pure (command c))
          (branch (consume_keyword (codes "UPDATE")) (do c ← parse_update strtod; pure (command c))
            (branch (consume_keyword (codes "DELETE"))
              (do c ← parse_delete strtod; pure (command c)) dispatch_txn)))

  -- The keywords at the front of a statement, in the order of the tests.
  unfoldable pub dispatch : Parse SqlStatement
  dispatch =
      branch (consume_keyword (codes "CREATE"))
        (branch (consume_keyword (codes "TABLE")) (parse_create_table strtod)
          (raise (codes "expected TABLE after CREATE")))
        (branch (consume_keyword (codes "DROP"))
          (branch (consume_keyword (codes "TABLE")) parse_drop_table
            (raise (codes "expected TABLE after DROP")))
          (branch (consume_keyword (codes "ALTER"))
            (branch (consume_keyword (codes "TABLE")) (parse_alter_table strtod)
              (raise (codes "expected TABLE after ALTER")))
            dispatch_rows))

  unfoldable pub statement_at : Str → Parse SqlStatement
  statement_at [] = raise (codes "empty statement")
  statement_at (c ∷ s) = dispatch

  unfoldable pub parse_statement : Parse SqlStatement
  parse_statement = skip >> λ p. statement_at p.rest p

  -- parse(), without the counter of statements, which nothing reads.
  unfoldable pub parse : Str → Result SqlStatement
  parse sql = parse_statement (record { rest = sql; size = length sql; error = [] })

-- The quotes that are open in parseAll.
pub record Quotes : Type 0 where
  pub single : Bool
  pub double : Bool

abbrev unclosed : Str → List Str
unclosed [] = []
unclosed (c ∷ s) = (c ∷ s) ∷ []

-- The statements that the loop of parseAll cuts out: `piece` is sql[start, i). The end of the text
-- counts as a semicolon; an open quote there leaves the last piece to the code behind the loop, which
-- parses it if it is not empty.
unfoldable pub split_all : Quotes → Str → Str → List Str
split_all q piece [] = if not q.single && not q.double then piece ∷ [] else unclosed piece
split_all q piece (c ∷ s) = elim (c == b'\'' && not q.double) [
  | true ↦ split_all (record q { single = not q.single }) (piece ++ c ∷ []) s
  | false ↦ elim (c == b'"' && not q.single) [
    | true ↦ split_all (record q { double = not q.double }) (piece ++ c ∷ []) s
    | false ↦ elim (c == b';' && not q.single && not q.double) [
      | true ↦ piece ∷ split_all q [] s
      | false ↦ split_all q (piece ++ c ∷ []) s
    ]
  ]
]

-- What parseAll gives, or the message of the exception that ends it.
pub data Batch : Type 0 where
  parsed : List SqlStatement → Batch
  stopped : Str → Batch
  no_fuel : Batch

abbrev prepend : SqlStatement → Batch → Batch
prepend s (parsed statements) = parsed (s ∷ statements)
prepend s (stopped message) = stopped message
prepend s no_fuel = no_fuel

unfoldable pub collect : Result SqlStatement → Batch → Batch
collect (ok s p) later = prepend s later
collect (fail p) later = later
collect (thrown message) later = stopped message
collect out_of_fuel later = no_fuel

unfoldable pub parse_pieces : (Str → ℕ) → List Str → Batch
parse_pieces strtod [] = parsed []
parse_pieces strtod (piece ∷ pieces) = collect (parse strtod piece) (parse_pieces strtod pieces)

unfoldable pub parse_all : (Str → ℕ) → Str → Batch
parse_all strtod sql =
    parse_pieces strtod (split_all (record { single = false; double = false }) [] sql)
