-- ===== src/Engine/Order.antt =====
-- EngineLoop.hpp: ORDER BY. std::sort may order equivalent rows as it likes; here it keeps the order
-- that they stand in.
use Prim.Native.Nat.{Ordering, lt, eq, gt}
use open_db.Prelude.{Bool, true, false, not, Option, none, some, List, [], ◌∷◌, if◌then◌else◌}
use open_db.Value.{Value, is_null}
use open_db.Value.Order.{Doubles, compare_values}
use open_db.Tuple.{Tuple, maybe_get}
use open_db.Command.{SortDirection, asc, desc, OrderBySpec}

-- A null and a missing column count alike.
unfoldable pub non_null : Option Value → Option Value
non_null none = none
non_null (some v) = if is_null v then none else some v

abbrev is_desc : SortDirection → Bool
is_desc asc = false
is_desc desc = true

abbrev pub value_or : Option Bool → Bool → Bool
value_or none b = b
value_or (some c) b = c

-- ASC puts nulls last and DESC first, unless the command says which.
abbrev pub nulls_first : OrderBySpec → Bool
nulls_first s = value_or s.nulls_first (is_desc s.direction)

abbrev decide_by : SortDirection → Ordering → Option Bool
decide_by dir eq = none
decide_by asc lt = some true
decide_by asc gt = some false
decide_by desc lt = some false
decide_by desc gt = some true

-- One round of the comparator's loop; `none` goes on with the next column.
abbrev pub decide : Doubles → OrderBySpec → Option Value → Option Value → Option Bool
decide d s none none = none
decide d s none (some b) = some (nulls_first s)
decide d s (some a) none = some (not (nulls_first s))
decide d s (some a) (some b) = decide_by s.direction (compare_values d a b)

abbrev pub column : OrderBySpec → Tuple → Option Value
column s row = non_null (maybe_get row s.column)

-- The comparator.
unfoldable pub row_less : Doubles → List OrderBySpec → Tuple → Tuple → Bool
row_less d [] a b = false
row_less d (s ∷ ss) a b = elim (decide d s (column s a) (column s b)) [
  | none ↦ row_less d ss a b
  | some less ↦ less
]

module _ {A : Type 0} (less : A → A → Bool) where
  unfoldable pub insert_sorted : A → List A → List A
  insert_sorted a [] = a ∷ []
  insert_sorted a (b ∷ bs) =
      let rest = insert_sorted a bs in if less b a then b ∷ rest else a ∷ b ∷ bs

  unfoldable pub sort : List A → List A
  sort [] = []
  sort (a ∷ bs) = insert_sorted a (sort bs)

abbrev pub order_rows : Doubles → List OrderBySpec → List Tuple → List Tuple
order_rows d [] rows = rows
order_rows d (s ∷ ss) rows = sort (row_less d (s ∷ ss)) rows
