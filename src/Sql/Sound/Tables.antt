-- ===== src/Sql/Sound/Tables.antt =====
-- CREATE TABLE of src/SqlParser.cpp: a second PRIMARY KEY is refused, over all columns, and so is a
-- partition without shards.
use open_db.Prelude.{
  ℕ, ◌+◌, ◌≤◌, ◌<◌, ◌≡◌, Bool, true, false, List, [], ◌∷◌, ◌++◌, none, some, Str, arith, Bool-cases,
  inl, inr, ◌==◌,
}
use open_db.Prelude.Int.{ℤ, pos, negsuc}
use open_db.Schema.{ColumnDef}
use open_db.Sql.Parser.{loop}
use open_db.Sql.Ddl.{
  ColumnState, mark_primary, constraint_round, parse_column_spec, Columns, column_round,
  hash_policy, parse_hash, parse_partition, parse_create_table,
}
use open_db.Sql.Sound.{flag, key_count, HasShards, IsWellFormed}
use open_db.Sql.Sound.Rules.{
  Gives, InRound, >>=-Gives, then-Gives, >>-Gives, pure-Gives, raise-Gives, branch-Gives,
  loop-Gives,
}

key_count-append :
    (cs : List ColumnDef) (c : ColumnDef)
    → key_count (cs ++ c ∷ []) ≡ key_count cs + flag c.primary_key
unfolding key_count
key_count-append [] c = omega arith
key_count-append (d ∷ cs) c = omega (arith, key_count-append cs c)

-- With `n` keys in the columns before.
abbrev ColumnKeys : ℕ → ColumnState → Type 0
ColumnKeys n s = n + flag s.col.primary_key ≤ flag s.has_primary_key

abbrev TableKeys : Columns → Type 0
TableKeys s = key_count s.cols ≤ flag s.has_primary_key

flag-le : (b : Bool) → flag b ≤ 1
flag-le true = omega arith
flag-le false = omega arith

abbrev AtMostOne : List ColumnDef → Type 0
AtMostOne cs = key_count cs ≤ 1

mark_primary-Gives :
    (n : ℕ) (s : ColumnState)
    → ColumnKeys n s
    → Gives (InRound (ColumnKeys n) (ColumnKeys n)) (mark_primary s)
unfolding mark_primary
mark_primary-Gives n s h = elim (Bool-cases s.has_primary_key) [
  | inl e ↦ rw e (raise-Gives _)
  | inr e ↦ rw e (pure-Gives _ (ground (arith, e)))
]

module _ (strtod : Str → ℕ) where
  constraint_round-Gives :
      (n : ℕ) (s : ColumnState)
      → ColumnKeys n s
      → Gives (InRound (ColumnKeys n) (ColumnKeys n)) (constraint_round strtod s)
  unfolding constraint_round
  constraint_round-Gives n s h = branch-Gives _ (>>-Gives _ (mark_primary-Gives n s h)) (
      branch-Gives _ (>>-Gives _ (pure-Gives _ h)) (
        branch-Gives _ (pure-Gives _ h)
          (branch-Gives _ (then-Gives _ λ v. pure-Gives _ h) (pure-Gives _ h))))

  parse_column_spec-Gives :
      (n : ℕ) (b : Bool) → n ≤ flag b → Gives (ColumnKeys n) (parse_column_spec strtod b)
  unfolding parse_column_spec
  parse_column_spec-Gives n b h =
      then-Gives _
        λ name. then-Gives _ λ type. loop-Gives (constraint_round-Gives n) _ (omega arith)

  column_round-Gives :
      (s : Columns) → TableKeys s → Gives (InRound TableKeys AtMostOne) (column_round strtod s)
  unfolding column_round
  column_round-Gives s h =
      branch-Gives _ (pure-Gives _ (omega (arith, flag-le s.has_primary_key))) (
        >>=-Gives (parse_column_spec-Gives (key_count s.cols) s.has_primary_key h) λ c k.
          branch-Gives _ (pure-Gives _ (omega (arith, key_count-append s.cols c.col))) (
            branch-Gives _
              (pure-Gives _
                (omega (arith, key_count-append s.cols c.col, flag-le c.has_primary_key)))
              (raise-Gives _)))

hash_policy-Gives : (col : Str) (z : ℤ) → Gives (λ p. 0 < p.shard_count) (hash_policy col z)
unfolding hash_policy
hash_policy-Gives col (negsuc n) = raise-Gives _
hash_policy-Gives col (pos n) = elim (Bool-cases (n == 0)) [
  | inl e ↦ rw e (raise-Gives _)
  | inr e ↦ rw e (pure-Gives _ (ground (arith, e)))
]

parse_partition-Gives : Gives HasShards parse_partition
unfolding parse_partition parse_hash
parse_partition-Gives =
    branch-Gives _ (>>=-Gives hash λ p h. pure-Gives (some p) h) (pure-Gives none tt)
  where
    hash : Gives (λ p. 0 < p.shard_count) parse_hash
    hash = >>-Gives _ (
        >>-Gives _ (
          >>-Gives _ (
            then-Gives _
              λ col. >>-Gives _ (>>-Gives _ (then-Gives _ λ count. hash_policy-Gives col _)))))

columns-Gives :
    (strtod : Str → ℕ)
    → Gives AtMostOne (loop (column_round strtod) (record { cols = []; has_primary_key = false }))
unfolding key_count
columns-Gives strtod = loop-Gives (column_round-Gives strtod) _ (omega arith)

pub parse_create_table-Gives : (strtod : Str → ℕ) → Gives IsWellFormed (parse_create_table strtod)
unfolding parse_create_table
parse_create_table-Gives strtod = then-Gives _ λ table. >>-Gives _ (
    >>=-Gives (columns-Gives strtod)
      λ columns h. >>=-Gives parse_partition-Gives λ partition k. pure-Gives _ (h, k))
