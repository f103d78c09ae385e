-- ===== src/Predicate/Meaning.antt =====
-- What a predicate that evaluates to true says of the row.
use Prim.Native.Nat.{Ordering, lt, eq, gt}
use open_db.Prelude.{
  ◌≡◌, refl, ◌≢◌, ◌↔◌, ◌⊎◌, inl, inr, true, false, Option, none, some, arith, Bool-cases,
}
use open_db.Value.{Value, is_null}
use open_db.Value.Order.{Doubles, compare_values}
use open_db.Tuple.{Tuple, maybe_get}
use open_db.Predicate.{
  ComparisonOp, equals, not_equals, less, less_equals, greater, greater_equals, isnull, isnotnull,
  conjunction, disjunction, PredicateNode, comparison, logical, Children, no_child, child,
  test_ordering, test_column, evaluate_node, evaluate_all, evaluate_any, evaluate, compare_with,
}

abbrev Relates : ComparisonOp → Ordering → Type 0
Relates equals o = o ≡ eq
Relates not_equals o = o ≢ eq
Relates less o = o ≡ lt
Relates less_equals o = o ≢ gt
Relates greater o = o ≡ gt
Relates greater_equals o = o ≢ lt
Relates isnull o = ⊥
Relates isnotnull o = ⊥

-- The value of the column is there, neither it nor the operand is null, and they compare so.
abbrev Compared : Doubles → ComparisonOp → Value → Option Value → Type 0
Compared d op operand o =
    (v : Value) × (o ≡ some v)
    × (is_null v ≡ false)
    × (is_null operand ≡ false)
    × Relates op (compare_values d v operand)

abbrev ColumnHolds : Doubles → ComparisonOp → Value → Option Value → Type 0
ColumnHolds d isnull operand o = (v : Value) → o ≡ some v → is_null v ≡ true
ColumnHolds d isnotnull operand o = (v : Value) × (o ≡ some v) × (is_null v ≡ false)
ColumnHolds d equals operand o = Compared d equals operand o
ColumnHolds d not_equals operand o = Compared d not_equals operand o
ColumnHolds d less operand o = Compared d less operand o
ColumnHolds d less_equals operand o = Compared d less_equals operand o
ColumnHolds d greater operand o = Compared d greater operand o
ColumnHolds d greater_equals operand o = Compared d greater_equals operand o

test_ordering_iff : (op : ComparisonOp) (o : Ordering) → (test_ordering op o ≡ true) ↔ Relates op o
test_ordering_iff equals o = ground arith
test_ordering_iff not_equals o = ground arith
test_ordering_iff less o = ground arith
test_ordering_iff less_equals o = ground arith
test_ordering_iff greater o = ground arith
test_ordering_iff greater_equals o = ground arith
test_ordering_iff isnull o = ground arith
test_ordering_iff isnotnull o = ground arith

some_inj : {v w : Value} → some v ≡ some w → v ≡ w
some_inj e = ground arith

compare_with_iff :
    (d : Doubles) (op : ComparisonOp) (operand v : Value)
    → (compare_with d op v operand ≡ true) ↔ Compared d op operand (some v)
compare_with_iff d op operand v = (
  λ t. (
    v,
    refl,
    ground arith,
    ground arith,
    (test_ordering_iff op (compare_values d v operand)).0 (ground arith),
  ),
  λ (w, e, n, m, r).
      let same = some_inj e in
      rw (same, n, m) ((test_ordering_iff op (compare_values d w operand)).1 r),
)

absent : {v : Value} → none ≢ some v
absent = λ e. cc

test_column_iff :
    (d : Doubles) (op : ComparisonOp) (operand : Value) (o : Option Value)
    → (test_column d op operand o ≡ true) ↔ ColumnHolds d op operand o
unfolding test_column
test_column_iff d isnull operand none = (λ t v e. absurd (absent e), λ h. refl)
test_column_iff d isnotnull operand none = (λ t. cc, λ h. absurd (absent h.1))
test_column_iff d equals operand none = (λ t. cc, λ h. absurd (absent h.1))
test_column_iff d not_equals operand none = (λ t. cc, λ h. absurd (absent h.1))
test_column_iff d less operand none = (λ t. cc, λ h. absurd (absent h.1))
test_column_iff d less_equals operand none = (λ t. cc, λ h. absurd (absent h.1))
test_column_iff d greater operand none = (λ t. cc, λ h. absurd (absent h.1))
test_column_iff d greater_equals operand none = (λ t. cc, λ h. absurd (absent h.1))
test_column_iff d isnull operand (some v) = (λ t w e. rw (← some_inj e) t, λ h. h v refl)
test_column_iff d isnotnull operand (some v) =
    (λ t. (v, refl, ground arith), λ (w, e, n). rw (some_inj e, n))
test_column_iff d equals operand (some v) = compare_with_iff d equals operand v
test_column_iff d not_equals operand (some v) = compare_with_iff d not_equals operand v
test_column_iff d less operand (some v) = compare_with_iff d less operand v
test_column_iff d less_equals operand (some v) = compare_with_iff d less_equals operand v
test_column_iff d greater operand (some v) = compare_with_iff d greater operand v
test_column_iff d greater_equals operand (some v) = compare_with_iff d greater_equals operand v

-- A conjunction holds where every child does, a disjunction where some child does.
mutual
  pub Holds : Doubles → Tuple → PredicateNode → Type 0
  Holds d row (comparison column op operand) = ColumnHolds d op operand (maybe_get row column)
  Holds d row (logical conjunction nodes) = HoldsAll d row nodes
  Holds d row (logical disjunction nodes) = HoldsAny d row nodes

  HoldsAll : Doubles → Tuple → Children → Type 0
  HoldsAll d row no_child = Unit
  HoldsAll d row (child node nodes) = Holds d row node × HoldsAll d row nodes

  HoldsAny : Doubles → Tuple → Children → Type 0
  HoldsAny d row no_child = ⊥
  HoldsAny d row (child node nodes) = Holds d row node ⊎ HoldsAny d row nodes

mutual
  unfolding evaluate_node Holds

  evaluate_node_iff :
      (d : Doubles) (row : Tuple) (node : PredicateNode)
      → (evaluate_node d row node ≡ true) ↔ Holds d row node
  evaluate_node_iff d row (comparison column op operand) =
      test_column_iff d op operand (maybe_get row column)
  evaluate_node_iff d row (logical conjunction nodes) = evaluate_all_iff d row nodes
  evaluate_node_iff d row (logical disjunction nodes) = evaluate_any_iff d row nodes

  evaluate_all_iff :
      (d : Doubles) (row : Tuple) (nodes : Children)
      → (evaluate_all d row nodes ≡ true) ↔ HoldsAll d row nodes
  evaluate_all_iff d row no_child = (λ t. tt, λ h. refl)
  evaluate_all_iff d row (child node nodes) =
      let first = evaluate_node_iff d row node in
      let rest = evaluate_all_iff d row nodes in
      (λ t. (first.0 (ground arith), rest.0 (ground arith)), λ h. rw (first.1 h.0, rest.1 h.1))

  evaluate_any_iff :
      (d : Doubles) (row : Tuple) (nodes : Children)
      → (evaluate_any d row nodes ≡ true) ↔ HoldsAny d row nodes
  evaluate_any_iff d row no_child = (λ t. cc, λ h. absurd h)
  evaluate_any_iff d row (child node nodes) =
      let first = evaluate_node_iff d row node in
      let rest = evaluate_any_iff d row nodes in
      (
        λ t. elim (Bool-cases (evaluate_node d row node)) [
          | inl e ↦ inl (first.0 e)
          | inr e ↦ inr (rest.0 (ground arith))
        ],
        λ h. elim h [ inl p ↦ ground (arith, first.1 p) | inr p ↦ ground (arith, rest.1 p) ],
      )

-- A predicate is true of a row exactly if it has a root that holds of it: each comparison needs
-- its column and both values other than null, IS NULL also holds of a column that the row lacks,
-- a conjunction needs all its children and a disjunction one of them.
pub evaluate_iff :
    (d : Doubles) (row : Tuple) (p : Option PredicateNode)
    → (evaluate d row p ≡ true) ↔ ((root : PredicateNode) × (p ≡ some root) × Holds d row root)
unfolding evaluate
evaluate_iff d row none = (λ t. cc, λ (root, e, h). absurd (none_root e))
  where
    none_root : {root : PredicateNode} → none ≢ some root
    none_root = λ e. cc
evaluate_iff d row (some root) = (
  λ t. (root, refl, (evaluate_node_iff d row root).0 t),
  λ (other, e, h). rw (same_root e) ((evaluate_node_iff d row other).1 h),
)
  where
    same_root : {a b : PredicateNode} → some a ≡ some b → a ≡ b
    same_root e = ground arith
