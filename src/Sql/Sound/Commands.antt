-- ===== src/Sql/Sound/Commands.antt =====
-- The commands of src/SqlParser.cpp carry what the constructor of Command asks for.
use open_db.Prelude.{ℕ, inl, inr, Option, none, some, List, [], ◌∷◌, Str, Option-cases}
use open_db.Tuple.{Tuple}
use open_db.Command.{CommandType, Command, validate, make_command, OrderBySpec, JoinKind}
use open_db.Sql.{Node}
use open_db.Sql.Dml.{
  build, constructed, parse_insert, parse_default_values, parse_update, parse_delete,
}
use open_db.Sql.Dml.Select.{
  join_with, join_round, set_order_by, set_limit, set_offset, parse_select,
}
use open_db.Sql.Sound.{IsChecked}
use open_db.Sql.Sound.Rules.{
  Gives, InRound, >>=-Gives, then-Gives, >>-Gives, pure-Gives, raise-Gives, branch-Gives,
  loop-Gives,
}

build-Gives :
    (type : CommandType) (table : Str) (filter : Option Node) (values : Option Tuple)
    (projections : List Str)
    → Gives IsChecked (build type table filter values projections)
unfolding constructed make_command
build-Gives type table filter values projections =
    elim (Option-cases (validate type filter values)) [
      | inl e ↦ rw e (record { run = λ p. e })
      | inr (message, e) ↦ rw e (record { run = λ p. tt })
    ]

join_round-Gives :
    (c : Command Node) → IsChecked c → Gives (InRound IsChecked IsChecked) (join_round c)
unfolding join_round join_with
join_round-Gives c h = then-Gives _ joined
  where
    joined : (o : Option JoinKind) → Gives (InRound IsChecked IsChecked) (join_with c o)
    joined none = pure-Gives _ h
    joined (some kind) = then-Gives _ λ j. pure-Gives _ h

setters-IsChecked :
    (limit offset : Option ℕ) (order : List OrderBySpec) (c : Command Node)
    → IsChecked c
    → IsChecked (set_offset offset (set_limit limit (set_order_by order c)))
setters-IsChecked none none [] c h = h
setters-IsChecked none none (o ∷ os) c h = h
setters-IsChecked none (some n) [] c h = h
setters-IsChecked none (some n) (o ∷ os) c h = h
setters-IsChecked (some m) none [] c h = h
setters-IsChecked (some m) none (o ∷ os) c h = h
setters-IsChecked (some m) (some n) [] c h = h
setters-IsChecked (some m) (some n) (o ∷ os) c h = h

module _ (strtod : Str → ℕ) where
  pub parse_select-Gives : Gives IsChecked (parse_select strtod)
  unfolding parse_select
  parse_select-Gives = then-Gives _ λ projections. >>-Gives _ (
      then-Gives _ λ table. then-Gives _ λ filter. then-Gives _ λ order.
        then-Gives _ λ (limit, offset).
          >>=-Gives (build-Gives _ _ _ _ _)
            λ c h. loop-Gives join_round-Gives _ (setters-IsChecked limit offset order c h))

  pub parse_insert-Gives : Gives IsChecked (parse_insert strtod)
  unfolding parse_insert parse_default_values
  parse_insert-Gives = then-Gives _ λ _. then-Gives _ λ table. then-Gives _ λ _.
      branch-Gives _ (then-Gives _ λ t. build-Gives _ _ _ _ _)
        (branch-Gives _ (>>-Gives _ (build-Gives _ _ _ _ _)) (raise-Gives _))

  pub parse_update-Gives : Gives IsChecked (parse_update strtod)
  unfolding parse_update
  parse_update-Gives =
      then-Gives _
        λ table. >>-Gives _ (then-Gives _ λ values. then-Gives _ λ filter. build-Gives _ _ _ _ _)

  pub parse_delete-Gives : Gives IsChecked (parse_delete strtod)
  unfolding parse_delete
  parse_delete-Gives =
      then-Gives _ λ _. then-Gives _ λ table. then-Gives _ λ filter. build-Gives _ _ _ _ _
