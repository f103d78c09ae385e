-- ===== src/Command/Examples.antt =====
-- Printed commands and tables.
use open_db.Prelude.{ℕ, ◌≡◌, refl, Option, none, some, [], ◌∷◌, Str, codes}
use open_db.Prelude.Dict
use open_db.Prelude.Text.{joined}
use open_db.Prelude.Int.{pos}
use open_db.Value.{int64, text}
use open_db.Value.Render.{to_string, decimal_loop}
use open_db.Tuple.{Tuple, maybe_get}
use open_db.Tuple.Text.{tuple_to_string}
use open_db.Predicate.{
  PredicateNode, comparison, logical, conjunction, greater, isnull, child, no_child,
}
use open_db.Predicate.Text.{node_to_string, predicate_to_string}
use open_db.Command.{Command, select, asc, inner}
use open_db.Command.Text.{command_to_string}
use open_db.Engine.{rows_ok}
use open_db.Engine.Table.{result_to_string, table, lines, padded_cells, repeated, column_width}

abbrev no_doubles : ℕ → Str
no_doubles bits = []

abbrev old_unnamed : PredicateNode
old_unnamed = logical conjunction (
    child (comparison (codes "age") greater (int64 (pos 25)))
      (child (comparison (codes "name") isnull (int64 (pos 0))) no_child))

abbrev query : Command (Option PredicateNode)
query = record {
  type = select;
  table = codes "t";
  filter = some (some old_unnamed);
  values = none;
  projections = codes "a" ∷ codes "b" ∷ [];
  order_by = record { column = codes "a"; direction = asc; nulls_first = none } ∷ [];
  joins =
      record {
        kind = inner;
        table = codes "u";
        left_column = codes "t.a";
        right_column = codes "u.a";
      }
      ∷ [];
  limit = some 2;
  offset = none;
  txn_id = some 7;
}

printed_command :
    command_to_string no_doubles (predicate_to_string no_doubles) query
    ≡ codes
        "Select table=t where=((age > 25) AND (name IS NULL)) proj=[a,b] orderBy=[a:asc] limit=2 joins=[Inner:u:t.a=u.a] txn=Txn7"
unfolding command_to_string predicate_to_string node_to_string joined to_string decimal_loop
printed_command = refl

abbrev ann : Tuple
ann = (codes "id", int64 (pos 12)) ∷ (codes "n", text (codes "ann")) ∷ []

printed_row : tuple_to_string no_doubles ann ≡ codes "id=12,n=ann"
unfolding tuple_to_string joined to_string decimal_loop
printed_row = refl

printed_table :
    result_to_string no_doubles (rows_ok (ann ∷ ((codes "id", int64 (pos 3)) ∷ []) ∷ []))
    ≡ codes "| id | n   |\n|----+-----|\n| 12 | ann |\n| 3  | NULL |\n"
unfolding result_to_string table lines padded_cells repeated column_width joined to_string
    decimal_loop maybe_get Dict.find
printed_table = refl
