-- ===== src/Predicate/Text.antt =====
-- toString of includes/opendb/types/Predicate.hpp, of a tree without null pointers: the `<null>` that it
-- writes for one is left out.
use open_db.Prelude.{ℕ, Option, none, some, [], ◌∷◌, ◌++◌, Str, codes}
use open_db.Value.Render.{to_string}
use open_db.Predicate.{
  ComparisonOp, equals, not_equals, less, less_equals, greater, greater_equals, isnull, isnotnull,
  LogicalOp, conjunction, disjunction, PredicateNode, comparison, logical, Children, no_child,
  child,
}

abbrev comparison_word : ComparisonOp → Str
comparison_word equals = codes "="
comparison_word not_equals = codes "!="
comparison_word less = codes "<"
comparison_word less_equals = codes "<="
comparison_word greater = codes ">"
comparison_word greater_equals = codes ">="
comparison_word isnull = codes "IS NULL"
comparison_word isnotnull = codes "IS NOT NULL"

-- IS NULL and IS NOT NULL print no operand.
abbrev operand_text : ComparisonOp → Str → Str
operand_text isnull s = []
operand_text isnotnull s = []
operand_text _ s = b' ' ∷ s

abbrev logical_word : LogicalOp → Str
logical_word conjunction = codes "AND"
logical_word disjunction = codes "OR"

unfoldable mutual
  pub node_to_string : (ℕ → Str) → PredicateNode → Str
  node_to_string print_double (comparison column op operand) =
      b'('
      ∷ (column
          ++ b' ' ∷ comparison_word op
          ++ operand_text op (to_string print_double operand)
          ++ b')' ∷ [])
  node_to_string print_double (logical op nodes) =
      b'(' ∷ (children_to_string print_double op nodes ++ b')' ∷ [])

  pub children_to_string : (ℕ → Str) → LogicalOp → Children → Str
  children_to_string print_double op no_child = []
  children_to_string print_double op (child node no_child) = node_to_string print_double node
  children_to_string print_double op (child node (child next nodes)) =
      node_to_string print_double node
      ++ b' ' ∷ logical_word op
      ++ b' ' ∷ children_to_string print_double op (child next nodes)

-- Predicate::toString; `none` is the predicate without a root.
unfoldable pub predicate_to_string : (ℕ → Str) → Option PredicateNode → Str
unfolding node_to_string
predicate_to_string print_double none = []
predicate_to_string print_double (some root) = node_to_string print_double root
