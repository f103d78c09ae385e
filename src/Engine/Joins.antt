-- ===== src/Engine/Joins.antt =====
-- EngineLoop.hpp: the nested loops of a JOIN give the pairs of rows that meet the ON clause, and a LEFT
-- JOIN loses no row.
use open_db.Prelude.{
  ◌≤◌, ◌≡◌, refl, ◌⊎◌, inl, inr, true, List, [], ◌∷◌, ◌++◌, arith, length, length-append,
  Bool-cases,
}
use open_db.Value.Order.{Doubles}
use open_db.Tuple.{Tuple}
use open_db.Command.{inner, left, JoinClause}
use open_db.Engine.Select.{on_matches, merge, matches, or_unmatched, join_rows}

abbrev pub Among : Tuple → List Tuple → Type 0
Among row [] = ⊥
Among row (r ∷ rs) = (row ≡ r) ⊎ Among row rs

Among-append_left : (row : Tuple) (xs ys : List Tuple) → Among row xs → Among row (xs ++ ys)
Among-append_left row [] ys h = absurd h
Among-append_left row (x ∷ xs) ys (inl e) = inl e
Among-append_left row (x ∷ xs) ys (inr h) = inr (Among-append_left row xs ys h)

Among-append_right : (row : Tuple) (xs ys : List Tuple) → Among row ys → Among row (xs ++ ys)
Among-append_right row [] ys h = h
Among-append_right row (x ∷ xs) ys h = inr (Among-append_right row xs ys h)

Among-append :
    (row : Tuple) (xs ys : List Tuple) → Among row (xs ++ ys) → Among row xs ⊎ Among row ys
Among-append row [] ys h = inr h
Among-append row (x ∷ xs) ys (inl e) = inl (inl e)
Among-append row (x ∷ xs) ys (inr h) = elim (Among-append row xs ys h) [
  | inl a ↦ inl (inr a)
  | inr b ↦ inr b
]

-- The row joins a row of the left side with one of the right side.
abbrev pub Joined : Doubles → JoinClause → List Tuple → List Tuple → Tuple → Type 0
Joined d jc rows rights row =
    (l : Tuple) × (r : Tuple) × Among l rows
    × Among r rights
    × (on_matches d jc l r ≡ true)
    × (row ≡ merge l r)

module _ (d : Doubles) (jc : JoinClause) where
  -- A row of the right side that joins `cur` to the row.
  abbrev Partner : Tuple → List Tuple → Tuple → Type 0
  Partner cur rights row =
      (r : Tuple) × Among r rights × (on_matches d jc cur r ≡ true) × (row ≡ merge cur r)

  Partner-later :
      (cur rr : Tuple) (rrs : List Tuple) (row : Tuple)
      → Partner cur rrs row
      → Partner cur (rr ∷ rrs) row
  Partner-later cur rr rrs row (r, a, o, e) = (r, inr a, o, e)

  matches_sound :
      (cur : Tuple) (rights : List Tuple) (row : Tuple)
      → Among row (matches d jc cur rights)
      → Partner cur rights row
  unfolding matches
  matches_sound cur [] row h = absurd h
  matches_sound cur (rr ∷ rrs) row h = elim (Bool-cases (on_matches d jc cur rr)) [
    | inl e ↦ elim (found e) [
      | inl m ↦ (rr, inl refl, e, m)
      | inr m ↦ Partner-later cur rr rrs row (matches_sound cur rrs row m)
    ]
    | inr e ↦ Partner-later cur rr rrs row (matches_sound cur rrs row (rw (e, matches) at h))
  ]
    where
      found :
          on_matches d jc cur rr ≡ true → (row ≡ merge cur rr) ⊎ Among row (matches d jc cur rrs)
      found e = rw (e, matches) at h

  matches_complete :
      (cur : Tuple) (rights : List Tuple) (r : Tuple)
      → Among r rights
      → on_matches d jc cur r ≡ true
      → Among (merge cur r) (matches d jc cur rights)
  unfolding matches
  matches_complete cur [] r a o = absurd a
  matches_complete cur (rr ∷ rrs) r (inl e) o = rw (← e, o, matches) (inl refl)
  matches_complete cur (rr ∷ rrs) r (inr a) o = elim (Bool-cases (on_matches d jc cur rr)) [
    | inl f ↦ rw (f, matches) (inr (matches_complete cur rrs r a o))
    | inr f ↦ rw (f, matches) (matches_complete cur rrs r a o)
  ]

  or_unmatched_inner :
      (cur : Tuple) (rights ms : List Tuple)
      → jc.kind ≡ inner
      → or_unmatched jc.kind cur rights ms ≡ ms
  or_unmatched_inner cur rights [] e = rw e refl
  or_unmatched_inner cur rights (m ∷ ms) e = refl

  or_unmatched_left :
      (cur : Tuple) (rights ms : List Tuple)
      → jc.kind ≡ left
      → 1 ≤ length (or_unmatched jc.kind cur rights ms)
  or_unmatched_left cur rights [] e = rw e (omega arith)
  or_unmatched_left cur rights (m ∷ ms) e = omega arith

  sound :
      (rows rights : List Tuple) (row : Tuple)
      → jc.kind ≡ inner
      → Among row (join_rows d jc rows rights)
      → Joined d jc rows rights row
  unfolding join_rows
  sound [] rights row k h = absurd h
  sound (cur ∷ rows) rights row k h =
      elim (Among-append row (matches d jc cur rights) (join_rows d jc rows rights)
        (rw (or_unmatched_inner cur rights (matches d jc cur rights) k) at h)) [
          | inl a ↦ let (r, b, o, e) = matches_sound cur rights row a in (cur, r, inl refl, b, o, e)
          | inr a ↦ let (l, r, b, c, o, e) = sound rows rights row k a in (l, r, inr b, c, o, e)
        ]

  complete :
      (rows rights : List Tuple) (l r : Tuple)
      → jc.kind ≡ inner
      → Among l rows
      → Among r rights
      → on_matches d jc l r ≡ true
      → Among (merge l r) (join_rows d jc rows rights)
  unfolding join_rows
  complete [] rights l r k a b o = absurd a
  complete (cur ∷ rows) rights l r k (inl e) b o =
      rw (or_unmatched_inner cur rights (matches d jc cur rights) k) (
        Among-append_left (merge l r) (matches d jc cur rights) (join_rows d jc rows rights)
          (rw e (matches_complete cur rights r b (rw e at o))))
  complete (cur ∷ rows) rights l r k (inr a) b o =
      Among-append_right (merge l r) (or_unmatched jc.kind cur rights (matches d jc cur rights))
        (join_rows d jc rows rights) (complete rows rights l r k a b o)

  -- The rows of an INNER JOIN are exactly the merged pairs of a left and a right row that meet
  -- the ON clause.
  pub join_rows_inner :
      (rows rights : List Tuple)
      → jc.kind ≡ inner
      → ((row : Tuple) → Among row (join_rows d jc rows rights) → Joined d jc rows rights row)
        × ((l r : Tuple)
            → Among l rows
            → Among r rights
            → on_matches d jc l r ≡ true
            → Among (merge l r) (join_rows d jc rows rights))
  join_rows_inner rows rights k =
      (λ row. sound rows rights row k, λ l r. complete rows rights l r k)

  -- A LEFT JOIN has one row at least for each row of its left side.
  pub join_rows_left :
      (rows rights : List Tuple)
      → jc.kind ≡ left
      → length rows ≤ length (join_rows d jc rows rights)
  unfolding join_rows
  join_rows_left [] rights k = omega arith
  join_rows_left (cur ∷ rows) rights k = omega (
    arith,
    or_unmatched_left cur rights (matches d jc cur rights) k,
    join_rows_left rows rights k,
    length-append (or_unmatched jc.kind cur rights (matches d jc cur rights))
        (join_rows d jc rows rights),
  )
