-- ===== src/Engine/Ordering.antt =====
-- EngineLoop.hpp: the comparator of ORDER BY is the `less` of a total preorder on rows without NaN, as
-- std::sort asks, and the sorted rows are a rearrangement without inversions.
use Prim.Native.Nat.{Ordering, lt, eq, gt}
use mathlib.Core.List.{Perm}
use mathlib.Core.Path.{fun_ext}
use open_db.Prelude.{◌≡◌, refl, arith, Bool, true, false, not, Option, none, some, List, [], ◌∷◌}
use open_db.Prelude.Order.{IsPreorder, flip, then_compare}
use open_db.Value.{Value}
use open_db.Value.Order.{Doubles, IsIeee, NotNan, compare_values, compare_values-IsPreorder}
use open_db.Tuple.{Tuple}
use open_db.Command.{SortDirection, asc, desc, OrderBySpec}
use open_db.Engine.Order.{decide, nulls_first, column, row_less, order_rows}
use open_db.Engine.Sorting.{AllOf, IsOrdered, is_less, sort-perm, sort-IsOrdered}

abbrev directed : SortDirection → Ordering → Ordering
directed asc o = o
directed desc o = flip o

abbrev one_side : Bool → Ordering
one_side true = lt
one_side false = gt

-- The order of two columns, of which a round of the comparator is the test.
abbrev column_order : Doubles → OrderBySpec → Option Value → Option Value → Ordering
column_order d s none none = eq
column_order d s none (some b) = one_side (nulls_first s)
column_order d s (some a) none = one_side (not (nulls_first s))
column_order d s (some a) (some b) = directed s.direction (compare_values d a b)

unfoldable row_order : Doubles → List OrderBySpec → Tuple → Tuple → Ordering
row_order d [] a b = eq
row_order d (s ∷ ss) a b =
    then_compare (column_order d s (column s a) (column s b)) (row_order d ss a b)

abbrev NumberOr : Doubles → Option Value → Type 0
NumberOr d none = Unit
NumberOr d (some v) = NotNan d v

-- No column to order by holds NaN.
abbrev pub NoNan : Doubles → List OrderBySpec → Tuple → Type 0
NoNan d [] row = Unit
NoNan d (s ∷ ss) row = NumberOr d (column s row) × NoNan d ss row

module _ {A : Type 0} {P Q : A → Type 0} {c r : A → A → Ordering} (o : IsPreorder P c)
    (t : IsPreorder Q r) where
  then_compare-IsPreorder : IsPreorder (λ a. P a × Q a) (λ a b. then_compare (c a b) (r a b))
  then_compare-IsPreorder = record {
    swap = λ a b p q. ground (arith, o.swap a b p.0 q.0, t.swap a b p.1 q.1);
    trans = λ x y z p q w h k. ground (
      arith,
      o.trans x y z p.0 q.0 w.0,
      o.congr x y z p.0 q.0 w.0,
      o.congr y z x q.0 w.0 p.0,
      o.swap x y p.0 q.0,
      o.swap x z p.0 w.0,
      o.swap y z q.0 w.0,
      t.trans x y z p.1 q.1 w.1,
    );
    congr = λ x y z p q w h. ground (arith, o.congr x y z p.0 q.0 w.0, t.congr x y z p.1 q.1 w.1);
  }

module _ (d : Doubles) (ieee : IsIeee d) where
  column_order-swap :
      (s : OrderBySpec) (a b : Option Value)
      → NumberOr d a
      → NumberOr d b
      → column_order d s b a ≡ flip (column_order d s a b)
  column_order-swap s none none p q = refl
  column_order-swap s none (some b) p q = ground arith
  column_order-swap s (some a) none p q = ground arith
  column_order-swap s (some a) (some b) p q =
      ground (arith, (compare_values-IsPreorder d ieee).swap a b p q)

  column_order_trans :
      (s : OrderBySpec) (a b c : Option Value)
      → NumberOr d a
      → NumberOr d b
      → NumberOr d c
      → column_order d s a b ≡ lt
      → column_order d s b c ≡ lt
      → column_order d s a c ≡ lt
  column_order_trans s none none c p q r h k = cc
  column_order_trans s none (some b) none p q r h k = ground arith
  column_order_trans s none (some b) (some c) p q r h k = h
  column_order_trans s (some a) none none p q r h k = cc
  column_order_trans s (some a) none (some c) p q r h k = ground arith
  column_order_trans s (some a) (some b) none p q r h k = k
  column_order_trans s (some a) (some b) (some c) p q r h k =
      let o = compare_values-IsPreorder d ieee in
      ground (
        arith,
        o.trans a b c p q r,
        o.swap a b p q,
        o.swap b c q r,
        o.swap a c p r,
        o.trans c b a r q p,
      )

  column_order-congr :
      (s : OrderBySpec) (a b c : Option Value)
      → NumberOr d a
      → NumberOr d b
      → NumberOr d c
      → column_order d s a b ≡ eq
      → column_order d s a c ≡ column_order d s b c
  column_order-congr s none none c p q r h = refl
  column_order-congr s none (some b) c p q r h = ground arith
  column_order-congr s (some a) none c p q r h = ground arith
  column_order-congr s (some a) (some b) none p q r h = refl
  column_order-congr s (some a) (some b) (some c) p q r h =
      ground (arith, (compare_values-IsPreorder d ieee).congr a b c p q r)

  column_order-IsPreorder :
      (s : OrderBySpec)
      → IsPreorder
          (λ row. NumberOr d (column s row))
          (λ a b. column_order d s (column s a) (column s b))
  column_order-IsPreorder s = record {
    swap = λ a b. column_order-swap s (column s a) (column s b);
    trans = λ a b c. column_order_trans s (column s a) (column s b) (column s c);
    congr = λ a b c. column_order-congr s (column s a) (column s b) (column s c);
  }

  row_order-IsPreorder : (ss : List OrderBySpec) → IsPreorder (NoNan d ss) (row_order d ss)
  unfolding row_order
  row_order-IsPreorder [] = record {
    swap = λ a b p q. refl;
    trans = λ a b c p q r h k. cc;
    congr = λ a b c p q r h. refl;
  }
  row_order-IsPreorder (s ∷ ss) =
      then_compare-IsPreorder (column_order-IsPreorder s) (row_order-IsPreorder ss)

-- What a round of the comparator says of the order of a column.
abbrev verdict : Ordering → Option Bool
verdict lt = some true
verdict eq = none
verdict gt = some false

decide-verdict :
    (d : Doubles) (s : OrderBySpec) (a b : Option Value)
    → decide d s a b ≡ verdict (column_order d s a b)
decide-verdict d s none none = refl
decide-verdict d s none (some b) = ground arith
decide-verdict d s (some a) none = ground arith
decide-verdict d s (some a) (some b) = ground arith

abbrev or_else : Option Bool → Bool → Bool
or_else none b = b
or_else (some c) b = c

verdict_then : (o r : Ordering) → or_else (verdict o) (is_less r) ≡ is_less (then_compare o r)
verdict_then lt r = refl
verdict_then eq r = refl
verdict_then gt r = refl

elim_or_else : (o : Option Bool) (r : Bool) → (elim o [ none ↦ r | some c ↦ c ]) ≡ or_else o r
elim_or_else none r = refl
elim_or_else (some c) r = refl

row_less-cons :
    (d : Doubles) (s : OrderBySpec) (ss : List OrderBySpec) (a b : Tuple)
    → row_less d (s ∷ ss) a b ≡ or_else (decide d s (column s a) (column s b)) (row_less d ss a b)
unfolding row_less
row_less-cons d s ss a b = elim_or_else (decide d s (column s a) (column s b)) (row_less d ss a b)

-- The comparator is the `less` of the order.
row_less_lem :
    (d : Doubles) (ss : List OrderBySpec) (a b : Tuple)
    → row_less d ss a b ≡ is_less (row_order d ss a b)
unfolding row_order
row_less_lem d [] a b = unfold row_less in refl
row_less_lem d (s ∷ ss) a b =
    rw
      (
        row_less-cons d s ss a b,
        decide-verdict d s (column s a) (column s b),
        row_less_lem d ss a b,
      )
      (verdict_then (column_order d s (column s a) (column s b)) (row_order d ss a b))

-- With comparisons of doubles as in IEEE 754, for one column at least to order by and rows
-- without NaN in these columns: the rows are rearranged, none lost or doubled, so that none
-- stands before one that the comparator calls less.
pub order_rows-IsOrdered :
    (d : Doubles) (s : OrderBySpec) (ss : List OrderBySpec) (rows : List Tuple)
    → IsIeee d
    → AllOf (NoNan d (s ∷ ss)) rows
    → Perm (order_rows d (s ∷ ss) rows) rows
      × IsOrdered (row_less d (s ∷ ss)) (order_rows d (s ∷ ss) rows)
order_rows-IsOrdered d s ss rows ieee all = (
  sort-perm (row_less d (s ∷ ss)) rows,
  rw same (sort-IsOrdered (row_order-IsPreorder d ieee (s ∷ ss)) rows all),
)
  where
    same : row_less d (s ∷ ss) ≡ (λ a b. is_less (row_order d (s ∷ ss) a b))
    same = fun_ext λ a. fun_ext λ b. row_less_lem d (s ∷ ss) a b
