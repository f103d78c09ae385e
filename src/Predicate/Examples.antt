-- ===== src/Predicate/Examples.antt =====
-- WHERE age > 25 AND name = 'nikhil', on a row.
use open_db.Prelude.{◌≡◌, refl, ◌↔◌, true, some, [], ◌∷◌, codes}
use open_db.Prelude.Int.{pos}
use open_db.Value.{int32, text, null}
use open_db.Value.Examples.{sample_doubles}
use open_db.Prelude.Dict
use open_db.Tuple.{Tuple}
use open_db.Predicate.{
  PredicateNode, comparison, logical, child, no_child, conjunction, greater, equals, isnull,
  evaluate,
}
use open_db.Predicate.Meaning.{Holds, evaluate_iff}

abbrev example : PredicateNode
example = logical conjunction (
    child (comparison (codes "age") greater (int32 (pos 25)))
      (child (comparison (codes "name") equals (text (codes "nikhil"))) no_child))

abbrev row : Tuple
row = (codes "age", int32 (pos 30)) ∷ (codes "name", text (codes "nikhil")) ∷ []

evaluate_iff_example :
    (evaluate sample_doubles row (some example) ≡ true)
    ↔ ((root : PredicateNode) × (some example ≡ some root) × Holds sample_doubles row root)
evaluate_iff_example = evaluate_iff sample_doubles row (some example)

true_of_row : evaluate sample_doubles row (some example) ≡ true
unfolding evaluate open_db.Predicate.test_column open_db.Tuple.maybe_get Dict.find
    open_db.Value.is_null open_db.Value.Order.compare_values
true_of_row = refl

-- A column that the row lacks is null.
missing_isnull : evaluate sample_doubles row (some (comparison (codes "city") isnull null)) ≡ true
unfolding evaluate open_db.Predicate.test_column open_db.Tuple.maybe_get Dict.find
missing_isnull = refl
