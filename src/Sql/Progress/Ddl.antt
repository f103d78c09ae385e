-- ===== src/Sql/Progress/Ddl.antt =====
-- CREATE, DROP and ALTER TABLE of src/SqlParser.cpp: each function keeps within its fuel.
use open_db.Prelude.{
  ℕ, Bool, suc, true, false, List, [], ◌∷◌, Str, arith, Bool-cases, inl, inr, ◌==◌,
}
use open_db.Prelude.Int.{ℤ, pos, negsuc}
use open_db.Sql.Ddl.{
  consume_any, parse_column_type, ColumnState, mark_primary, parse_default, constraint_round,
  parse_column_spec, Columns, column_round, hash_policy, parse_hash, parse_partition,
  parse_create_table, parse_add_column, parse_drop_column, parse_rename, parse_alter_table,
  parse_drop_table,
}
use open_db.Sql.Progress.{
  Spends, nothing, flag, one, round_weight, spends, >>=-Spends, pure-Spends, raise-Spends,
  expect-Spends, branch-Spends, require-Spends, >>-Spends, Spends-nothing, Spends-one, loop-Spends,
}
use open_db.Sql.Progress.Tokens.{
  consume_keyword-Spends, consume_symbol-Spends, consume_identifier-Spends, consume_word-Spends,
}
use open_db.Sql.Progress.Literals.{consume_value_literal-Spends}

-- Keywords of at least one character.
abbrev Nonempty : List Str → Type 0
Nonempty [] = Unit
Nonempty ([] ∷ kws) = ⊥
Nonempty ((k ∷ ks) ∷ kws) = Nonempty kws

consume_any-Spends : (kws : List Str) → Nonempty kws → Spends 0 flag (consume_any kws)
unfolding consume_any
consume_any-Spends [] h = search spends
consume_any-Spends ([] ∷ kws) h = absurd h
consume_any-Spends ((k ∷ ks) ∷ kws) h =
    branch-Spends (consume_keyword-Spends k ks) (search spends) (consume_any-Spends kws h)

parse_column_type-Spends : {g : ℕ} → Spends g nothing parse_column_type
unfolding parse_column_type
parse_column_type-Spends = branch-Spends (consume_any-Spends _ tt) (search spends) (
    branch-Spends (consume_keyword-Spends _ _) (search spends) (
      branch-Spends (consume_keyword-Spends _ _) (search spends) (
        branch-Spends (consume_any-Spends _ tt) (search spends) (
          branch-Spends (consume_any-Spends _ tt) (search spends) (
            branch-Spends (consume_any-Spends _ tt) (search spends) (
              branch-Spends (consume_keyword-Spends _ _) (search spends) (
                branch-Spends (consume_keyword-Spends _ _) (search spends)
                  (branch-Spends (consume_any-Spends _ tt) (search spends) (raise-Spends _)))))))))

mark_primary-Spends :
    {g : ℕ} (s : ColumnState) → Spends (suc g) (round_weight nothing) (mark_primary s)
unfolding mark_primary
mark_primary-Spends s = elim s.has_primary_key [ true ↦ search spends | false ↦ search spends ]

module _ (strtod : Str → ℕ) where
  parse_default-Spends : {g : ℕ} → Spends g nothing (parse_default strtod)
  unfolding parse_default
  parse_default-Spends =
      branch-Spends (consume_keyword-Spends _ _) (search spends)
        (expect-Spends _ (Spends-nothing (consume_value_literal-Spends strtod) (omega arith)))

  constraint_round-Spends :
      (s : ColumnState) → Spends 0 (round_weight nothing) (constraint_round strtod s)
  unfolding constraint_round
  constraint_round-Spends s =
      branch-Spends (consume_keyword-Spends _ _)
        (>>-Spends (require-Spends _ (consume_keyword-Spends _ _)) (mark_primary-Spends s))
        (branch-Spends (consume_keyword-Spends _ _)
          (>>-Spends (require-Spends _ (consume_keyword-Spends _ _)) (search spends))
          (branch-Spends (consume_keyword-Spends _ _) (search spends) (
            branch-Spends (consume_keyword-Spends _ _)
              (>>=-Spends parse_default-Spends λ v. pure-Spends _ (omega arith)) (search spends))))

  parse_column_spec-Spends : (b : Bool) → Spends 0 one (parse_column_spec strtod b)
  unfolding parse_column_spec
  parse_column_spec-Spends b = >>=-Spends (expect-Spends _ consume_identifier-Spends) λ name.
      >>=-Spends parse_column_type-Spends λ type. Spends-one (loop-Spends constraint_round-Spends _)

  column_round-Spends : (s : Columns) → Spends 0 (round_weight nothing) (column_round strtod s)
  unfolding column_round
  column_round-Spends s = branch-Spends (consume_symbol-Spends _ _) (search spends) (
      >>=-Spends (parse_column_spec-Spends s.has_primary_key) λ c.
        branch-Spends (consume_symbol-Spends _ _) (pure-Spends _ (omega arith)) (
          branch-Spends (consume_symbol-Spends _ _) (pure-Spends _ (omega arith)) (raise-Spends _)))

hash_policy-Spends : {g : ℕ} (col : Str) (z : ℤ) → Spends g nothing (hash_policy col z)
unfolding hash_policy
hash_policy-Spends col (negsuc n) = raise-Spends _
hash_policy-Spends col (pos n) = elim (Bool-cases (n == 0)) [
  | inl e ↦ rw e (raise-Spends _)
  | inr e ↦ rw e (pure-Spends _ (omega arith))
]

parse_hash-Spends : {g : ℕ} → Spends g nothing parse_hash
unfolding parse_hash
parse_hash-Spends = >>-Spends (require-Spends _ (consume_keyword-Spends _ _)) (
    >>-Spends (require-Spends _ (consume_keyword-Spends _ _)) (
      >>-Spends (require-Spends _ (consume_symbol-Spends _ _)) (
        >>=-Spends (expect-Spends _ consume_identifier-Spends) λ col.
          >>-Spends (require-Spends _ (consume_symbol-Spends _ _)) (
            >>-Spends (require-Spends _ (consume_keyword-Spends _ _)) (
              >>=-Spends (expect-Spends _ consume_word-Spends)
                λ count. hash_policy-Spends col _)))))

parse_partition-Spends : {g : ℕ} → Spends g nothing parse_partition
unfolding parse_partition
parse_partition-Spends =
    branch-Spends (consume_keyword-Spends _ _)
      (>>=-Spends parse_hash-Spends λ p. pure-Spends _ (omega arith)) (pure-Spends _ (omega arith))

parse_drop_column-Spends : {g : ℕ} (table : Str) → Spends g nothing (parse_drop_column table)
unfolding parse_drop_column
parse_drop_column-Spends table =
    >>-Spends (require-Spends _ (consume_keyword-Spends _ _))
      (>>=-Spends (expect-Spends _ consume_identifier-Spends) λ c. pure-Spends _ (omega arith))

parse_rename-Spends : {g : ℕ} (table : Str) → Spends g nothing (parse_rename table)
unfolding parse_rename
parse_rename-Spends table =
    >>-Spends (require-Spends _ (consume_keyword-Spends _ _))
      (>>=-Spends (expect-Spends _ consume_identifier-Spends) λ c. pure-Spends _ (omega arith))

module _ (strtod : Str → ℕ) where
  pub parse_create_table-Spends : {g : ℕ} → Spends g nothing (parse_create_table strtod)
  unfolding parse_create_table
  parse_create_table-Spends = >>=-Spends (expect-Spends _ consume_identifier-Spends) λ table.
      >>-Spends (require-Spends _ (consume_symbol-Spends _ _)) (
        >>=-Spends (loop-Spends (column_round-Spends strtod) _)
          λ columns. >>=-Spends parse_partition-Spends λ partition. pure-Spends _ (omega arith))

  parse_add_column-Spends : {g : ℕ} (table : Str) → Spends g nothing (parse_add_column strtod table)
  unfolding parse_add_column
  parse_add_column-Spends table =
      >>-Spends (require-Spends _ (consume_keyword-Spends _ _))
        (>>=-Spends (parse_column_spec-Spends strtod false) λ c. pure-Spends _ (omega arith))

  pub parse_alter_table-Spends : {g : ℕ} → Spends g nothing (parse_alter_table strtod)
  unfolding parse_alter_table
  parse_alter_table-Spends = >>=-Spends (expect-Spends _ consume_identifier-Spends) λ table.
      branch-Spends (consume_keyword-Spends _ _) (parse_add_column-Spends table) (
        branch-Spends (consume_keyword-Spends _ _) (parse_drop_column-Spends table)
          (branch-Spends (consume_keyword-Spends _ _) (parse_rename-Spends table) (raise-Spends _)))

pub parse_drop_table-Spends : {g : ℕ} → Spends g nothing parse_drop_table
unfolding parse_drop_table
parse_drop_table-Spends =
    >>=-Spends (expect-Spends _ consume_identifier-Spends) λ table. pure-Spends _ (omega arith)
