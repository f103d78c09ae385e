-- ===== src/Sql/Progress/Dml.antt =====
-- INSERT, UPDATE and DELETE of src/SqlParser.cpp: each function keeps within its fuel.
use open_db.Prelude.{ℕ, ◌⊎◌, inl, inr, Option, none, some, List, Str, arith}
use open_db.Value.{Value}
use open_db.Tuple.{Tuple}
use open_db.Command.{Command}
use open_db.Sql.{Node}
use open_db.Sql.Dml.{
  constructed, name_round, parse_column_names, value_round, insert_round, parse_insert_value_list,
  parse_default_values, parse_insert, set_round, parse_update, parse_delete,
}
use open_db.Sql.Progress.{
  Spends, nothing, if_some, round_weight, spends, >>=-Spends, >>-Spends, pure-Spends, raise-Spends,
  expect-Spends, branch-Spends, require-Spends, attempt-Spends, Spends-nothing, Spends-le,
  loop-Spends,
}
use open_db.Sql.Progress.Tokens.{
  consume_keyword-Spends, consume_symbol-Spends, consume_identifier-Spends,
}
use open_db.Sql.Progress.Literals.{consume_value_literal-Spends}
use open_db.Sql.Progress.Where.{parse_where-Spends}

pub constructed-Spends : {g : ℕ} (r : Str ⊎ Command Node) → Spends g nothing (constructed r)
unfolding constructed
constructed-Spends (inl message) = record { run = λ p. tt }
constructed-Spends (inr c) = record { run = λ p. omega arith }

name_round-Spends : (names : List Str) → Spends 0 (round_weight nothing) (name_round names)
unfolding name_round
name_round-Spends names = >>=-Spends (expect-Spends _ consume_identifier-Spends) λ col.
    branch-Spends (consume_symbol-Spends _ _) (pure-Spends _ (omega arith))
      (branch-Spends (consume_symbol-Spends _ _) (pure-Spends _ (omega arith)) (raise-Spends _))

parse_column_names-Spends : Spends 0 nothing parse_column_names
unfolding parse_column_names
parse_column_names-Spends =
    branch-Spends (consume_symbol-Spends _ _)
      (Spends-nothing (loop-Spends name_round-Spends _) (omega arith)) (pure-Spends _ (omega arith))

module _ (strtod : Str → ℕ) where
  value_round-Spends :
      (t : Tuple) (o : Option Value)
      → Spends (if_some o) (round_weight nothing) (value_round strtod t o)
  unfolding value_round
  value_round-Spends t none = search spends
  value_round-Spends t (some v) =
      branch-Spends (consume_symbol-Spends _ _) (pure-Spends _ (omega arith)) (
        branch-Spends (consume_symbol-Spends _ _) (pure-Spends _ (omega arith))
          (record { run = λ p. omega arith }))

  insert_round-Spends : (t : Tuple) → Spends 0 (round_weight nothing) (insert_round strtod t)
  unfolding insert_round
  insert_round-Spends t =
      >>=-Spends (attempt-Spends (consume_value_literal-Spends strtod))
        λ v. Spends-le (value_round-Spends t v) (omega arith)

  parse_insert_value_list-Spends : {g : ℕ} → Spends g nothing (parse_insert_value_list strtod)
  unfolding parse_insert_value_list
  parse_insert_value_list-Spends =
      branch-Spends (consume_symbol-Spends _ _)
        (Spends-nothing (loop-Spends insert_round-Spends _) (omega arith))
        (record { run = λ p. omega arith })

  parse_default_values-Spends :
      {g : ℕ} (table : Str) → Spends g nothing (parse_default_values strtod table)
  unfolding parse_default_values
  parse_default_values-Spends table =
      branch-Spends (consume_keyword-Spends _ _)
        (>>-Spends (require-Spends _ (consume_keyword-Spends _ _)) (constructed-Spends _))
        (raise-Spends _)

  pub parse_insert-Spends : {g : ℕ} → Spends g nothing (parse_insert strtod)
  unfolding parse_insert
  parse_insert-Spends = >>=-Spends (consume_keyword-Spends _ _) λ _.
      >>=-Spends (expect-Spends _ consume_identifier-Spends) λ table.
        >>=-Spends parse_column_names-Spends λ _.
          branch-Spends (consume_keyword-Spends _ _)
            (>>=-Spends parse_insert_value_list-Spends λ t. constructed-Spends _)
            (parse_default_values-Spends table)

  set_round-Spends : (t : Tuple) → Spends 0 (round_weight nothing) (set_round strtod t)
  unfolding set_round
  set_round-Spends t = >>=-Spends (expect-Spends _ consume_identifier-Spends) λ col.
      >>-Spends (require-Spends _ (consume_symbol-Spends _ _)) (
        >>=-Spends (consume_value_literal-Spends strtod) λ v.
          branch-Spends (consume_symbol-Spends _ _) (pure-Spends _ (omega arith))
            (pure-Spends _ (omega arith)))

  pub parse_update-Spends : {g : ℕ} → Spends g nothing (parse_update strtod)
  unfolding parse_update
  parse_update-Spends = >>=-Spends (expect-Spends _ consume_identifier-Spends) λ table.
      >>-Spends (require-Spends _ (consume_keyword-Spends _ _)) (
        >>=-Spends (loop-Spends set_round-Spends _)
          λ values. >>=-Spends (parse_where-Spends strtod) λ filter. constructed-Spends _)

  pub parse_delete-Spends : {g : ℕ} → Spends g nothing (parse_delete strtod)
  unfolding parse_delete
  parse_delete-Spends = >>=-Spends (consume_keyword-Spends _ _) λ _.
      >>=-Spends (expect-Spends _ consume_identifier-Spends)
        λ table. >>=-Spends (parse_where-Spends strtod) λ filter. constructed-Spends _
