-- ===== src/Predicate.antt =====
-- includes/opendb/types/Predicate.hpp: the tree of a WHERE clause and its evaluation on a row. No child
-- is a null pointer here: `evaluate` and `clone` would dereference it. The trees that the parser builds,
-- which may have one, are those of Sql.antt.
pub mod Meaning
pub mod Text
pub mod Examples
use Prim.Native.Nat.{Ordering, lt, eq, gt}
use open_db.Prelude.{
  Bool, true, false, ◌&&◌, ◌||◌, not, Option, none, some, List, [], ◌∷◌, Str, if◌then◌else◌,
}
use open_db.Value.{Value, is_null}
use open_db.Value.Order.{Doubles, compare_values}
use open_db.Tuple.{Tuple, maybe_get}

pub data ComparisonOp : Type 0 where
  equals not_equals less less_equals greater greater_equals isnull isnotnull : ComparisonOp

pub data LogicalOp : Type 0 where
  conjunction disjunction : LogicalOp

mutual
  pub data PredicateNode : Type 0 where
    comparison : Str → ComparisonOp → Value → PredicateNode
    logical : LogicalOp → Children → PredicateNode

  pub data Children : Type 0 where
    no_child : Children
    child : PredicateNode → Children → Children

-- The test of the result of `compare` against 0.
abbrev pub test_ordering : ComparisonOp → Ordering → Bool
test_ordering equals o = elim o [ lt ↦ false | eq ↦ true | gt ↦ false ]
test_ordering not_equals o = elim o [ lt ↦ true | eq ↦ false | gt ↦ true ]
test_ordering less o = elim o [ lt ↦ true | eq ↦ false | gt ↦ false ]
test_ordering less_equals o = elim o [ lt ↦ true | eq ↦ true | gt ↦ false ]
test_ordering greater o = elim o [ lt ↦ false | eq ↦ false | gt ↦ true ]
test_ordering greater_equals o = elim o [ lt ↦ false | eq ↦ true | gt ↦ true ]
test_ordering isnull o = false
test_ordering isnotnull o = false

abbrev compare_with : Doubles → ComparisonOp → Value → Value → Bool
compare_with d op v operand =
    (not (is_null v) && not (is_null operand)) && test_ordering op (compare_values d v operand)

-- ComparisonNode::evaluate, on the column's value, if the row has the column.
unfoldable pub test_column : Doubles → ComparisonOp → Value → Option Value → Bool
test_column d isnull operand none = true
test_column d isnotnull operand none = false
test_column d equals operand none = false
test_column d not_equals operand none = false
test_column d less operand none = false
test_column d less_equals operand none = false
test_column d greater operand none = false
test_column d greater_equals operand none = false
test_column d isnull operand (some v) = is_null v
test_column d isnotnull operand (some v) = not (is_null v)
test_column d equals operand (some v) = compare_with d equals v operand
test_column d not_equals operand (some v) = compare_with d not_equals v operand
test_column d less operand (some v) = compare_with d less v operand
test_column d less_equals operand (some v) = compare_with d less_equals v operand
test_column d greater operand (some v) = compare_with d greater v operand
test_column d greater_equals operand (some v) = compare_with d greater_equals v operand

unfoldable mutual
  -- evaluate of a node
  pub evaluate_node : Doubles → Tuple → PredicateNode → Bool
  evaluate_node d row (comparison column op operand) =
      test_column d op operand (maybe_get row column)
  evaluate_node d row (logical conjunction nodes) = evaluate_all d row nodes
  evaluate_node d row (logical disjunction nodes) = evaluate_any d row nodes

  -- The loop for And: the first false ends it.
  pub evaluate_all : Doubles → Tuple → Children → Bool
  evaluate_all d row no_child = true
  evaluate_all d row (child node nodes) = evaluate_node d row node && evaluate_all d row nodes

  -- The loop for Or: the first true ends it.
  pub evaluate_any : Doubles → Tuple → Children → Bool
  evaluate_any d row no_child = false
  evaluate_any d row (child node nodes) = evaluate_node d row node || evaluate_any d row nodes

-- Predicate::evaluate; `none` is the predicate without a root.
unfoldable pub evaluate : Doubles → Tuple → Option PredicateNode → Bool
unfolding evaluate_node
evaluate d row none = false
evaluate d row (some root) = evaluate_node d row root
