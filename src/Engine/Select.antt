-- ===== src/Engine/Select.antt =====
-- EngineLoop.hpp: the rows of a SELECT, from the scans to the window of OFFSET and LIMIT.
use Prim.Native.Nat.{lt, eq, gt, min}
use open_db.Prelude.{
  ℕ, ◌+◌, ◌-◌, ◌%◌, ◌^◌, Bool, true, false, Option, none, some, List, [], ◌∷◌, ◌++◌, map, Str,
  codes, bytes_eq, ltb, leb, if◌then◌else◌, length, take, drop,
}
use open_db.Value.{Value, null}
use open_db.Value.Order.{Doubles, compare_values}
use open_db.Tuple
use open_db.Tuple.{Tuple, maybe_get}
use open_db.Predicate.{PredicateNode, evaluate_node}
use open_db.Command.{Command, JoinKind, inner, left, JoinClause}
use open_db.Storage.{StorageEngine}
use open_db.Engine.Order.{order_rows}

-- !cmd.where.has_value() || cmd.where->evaluate(row)
unfoldable pub passes : Doubles → Option PredicateNode → Tuple → Bool
passes d none row = true
passes d (some w) row = evaluate_node d row w

abbrev add_column : Str → Option Value → Tuple → Tuple
add_column name none t = t
add_column name (some v) t = Tuple.set t name v

unfoldable pub pick : Tuple → Tuple → List Str → Tuple
pick t row [] = t
pick t row (pc ∷ pcs) = pick (add_column pc (maybe_get row pc) t) row pcs

-- No projections, or the star alone.
abbrev pub takes_all : List Str → Bool
takes_all [] = true
takes_all (pc ∷ []) = bytes_eq pc (codes "*")
takes_all (pc ∷ pd ∷ pcs) = false

unfoldable pub project : List Str → Tuple → Tuple
project projections row = if takes_all projections then row else pick Tuple.empty row projections

unfoldable pub filter_rows : Doubles → Option PredicateNode → List Tuple → List Tuple
filter_rows d w [] = []
filter_rows d w (row ∷ rows) =
    let rest = filter_rows d w rows in if passes d w row then row ∷ rest else rest

unfoldable pub qualify_into : Tuple → Str → Tuple → Tuple
qualify_into out tbl [] = out
qualify_into out tbl ((name, v) ∷ cs) =
    qualify_into (Tuple.set out (tbl ++ codes "." ++ name) v) tbl cs

abbrev qualify : Str → Tuple → Tuple
qualify tbl row = qualify_into Tuple.empty tbl row

abbrev equal_values : Doubles → Option Value → Option Value → Bool
equal_values d none r = false
equal_values d (some a) none = false
equal_values d (some a) (some b) = elim (compare_values d a b) [
  | lt ↦ false
  | eq ↦ true
  | gt ↦ false
]

unfoldable pub on_matches : Doubles → JoinClause → Tuple → Tuple → Bool
on_matches d jc l r = equal_values d (maybe_get l jc.left_column) (maybe_get r jc.right_column)

-- The columns of the right row, set on a copy of the left one.
unfoldable pub merge : Tuple → Tuple → Tuple
merge cur [] = cur
merge cur ((name, v) ∷ cs) = merge (Tuple.set cur name v) cs

unfoldable pub merge_nulls : Tuple → Tuple → Tuple
merge_nulls cur [] = cur
merge_nulls cur ((name, v) ∷ cs) = merge_nulls (Tuple.set cur name null) cs

-- The loop over the right rows for one left row.
unfoldable pub matches : Doubles → JoinClause → Tuple → List Tuple → List Tuple
matches d jc cur [] = []
matches d jc cur (rr ∷ rrs) =
    let rest = matches d jc cur rrs in if on_matches d jc cur rr then merge cur rr ∷ rest else rest

-- The left row of a LEFT JOIN with nulls for the columns of the first right row.
abbrev pub padded : Tuple → List Tuple → Tuple
padded cur [] = cur
padded cur (rr ∷ rrs) = merge_nulls cur rr

abbrev pub or_unmatched : JoinKind → Tuple → List Tuple → List Tuple → List Tuple
or_unmatched inner cur rights [] = []
or_unmatched left cur rights [] = padded cur rights ∷ []
or_unmatched kind cur rights (m ∷ ms) = m ∷ ms

-- The loop over the rows matched so far, for one JOIN clause.
unfoldable pub join_rows : Doubles → JoinClause → List Tuple → List Tuple → List Tuple
join_rows d jc [] rights = []
join_rows d jc (cur ∷ rows) rights =
    or_unmatched jc.kind cur rights (matches d jc cur rights) ++ join_rows d jc rows rights

abbrev pub size_or_zero : Option ℕ → ℕ
size_or_zero none = 0
size_or_zero (some n) = n

-- std::min(end, start + *limit) on size_t.
abbrev pub limited_end : ℕ → ℕ → Option ℕ → ℕ
limited_end size start none = size
limited_end size start (some l) = min size ((start + l) % 2 ^ 64)

abbrev pub between : ℕ → ℕ → List Tuple → List Tuple
between start end rows = take ((if ltb end start then start else end) - start) (drop start rows)

-- The rows from start to end, both cut to the number of rows.
unfoldable pub window : Option ℕ → Option ℕ → List Tuple → List Tuple
window offset limit rows =
    between (if leb (length rows) (size_or_zero offset) then length rows else size_or_zero offset)
      (limited_end (length rows) (size_or_zero offset) limit) rows

module _ {S : Type 0} (E : StorageEngine S) (d : Doubles) where
  abbrev rows_for : S → ℕ → Str → List Tuple
  rows_for s txn tbl = map (qualify tbl) (E.scan s txn tbl)

  -- The loop over the JOIN clauses.
  unfoldable pub join_all : S → ℕ → List JoinClause → List Tuple → List Tuple
  join_all s txn [] rows = rows
  join_all s txn (jc ∷ jcs) rows =
      join_all s txn jcs (join_rows d jc rows (rows_for s txn jc.table))

  -- The rows before ORDER BY: the single table, or the chain of joins with qualified names.
  abbrev pub candidates : S → ℕ → Str → List JoinClause → List Tuple
  candidates s txn table [] = E.scan s txn table
  candidates s txn table (jc ∷ jcs) = join_all s txn (jc ∷ jcs) (rows_for s txn table)

  unfoldable pub select_rows : S → ℕ → Command PredicateNode → List Tuple
  select_rows s txn c = window c.offset c.limit (
      order_rows d c.order_by
        (map (project c.projections) (filter_rows d c.filter (candidates s txn c.table c.joins))))
