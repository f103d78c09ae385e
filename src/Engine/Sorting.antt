-- ===== src/Engine/Sorting.antt =====
-- EngineLoop.hpp: the sort of ORDER BY keeps the rows, and leaves none before a row that is less.
use open_db.Prelude.Order.{IsPreorder}
use open_db.Prelude.{◌≡◌, arith, Bool, true, false, List, [], ◌∷◌, Bool-cases, inl, inr}
use Prim.Native.Nat.{Ordering, lt, eq, gt}
use mathlib.Core.List.{Perm}
use mathlib.Core.List.Perm
use open_db.Engine.Order.{insert_sorted, sort}

module _ {A : Type 0} (less : A → A → Bool) where
  insert_sorted-perm : (a : A) (l : List A) → Perm (insert_sorted less a l) (a ∷ l)
  unfolding insert_sorted
  insert_sorted-perm a [] = Perm.rfl
  insert_sorted-perm a (b ∷ bs) = elim (Bool-cases (less b a)) [
    | inl e ↦
        rw (e, insert_sorted)
          (Perm.trans (Perm.cons b (insert_sorted-perm a bs)) (Perm.swap a b bs))
    | inr e ↦ rw (e, insert_sorted) Perm.rfl
  ]

  pub sort-perm : (l : List A) → Perm (sort less l) l
  unfolding sort
  sort-perm [] = Perm.rfl
  sort-perm (a ∷ l) = Perm.trans (insert_sorted-perm a (sort less l)) (Perm.cons a (sort-perm l))

abbrev pub AllOf : {A : Type 0} → (A → Type 0) → List A → Type 0
AllOf P [] = Unit
AllOf P (a ∷ l) = P a × AllOf P l

module _ {A : Type 0} (less : A → A → Bool) where
  -- None of the list is less than `a`.
  abbrev pub Below : A → List A → Type 0
  Below a [] = Unit
  Below a (b ∷ l) = (less b a ≡ false) × Below a l

  abbrev pub IsOrdered : List A → Type 0
  IsOrdered [] = Unit
  IsOrdered (a ∷ l) = Below a l × IsOrdered l

abbrev pub is_less : Ordering → Bool
is_less lt = true
is_less eq = false
is_less gt = false

module _ {A : Type 0} {P : A → Type 0} {cmp : A → A → Ordering} (o : IsPreorder P cmp) where
  abbrev less : A → A → Bool
  less a b = is_less (cmp a b)

  less_flip : (a b : A) → P a → P b → less a b ≡ true → less b a ≡ false
  less_flip a b p q h = ground (arith, o.swap a b p q)

  not_less_trans :
      (a b c : A) → P a → P b → P c → less b a ≡ false → less c b ≡ false → less c a ≡ false
  not_less_trans a b c p q r h k =
      ground (arith, o.swap b c q r, o.trans b c a q r p, o.congr b c a q r p)

  Below-trans :
      (a b : A) (l : List A)
      → P a
      → P b
      → AllOf P l
      → less b a ≡ false
      → Below less b l
      → Below less a l
  Below-trans a b [] p q all h k = tt
  Below-trans a b (c ∷ l) p q all h k =
      (not_less_trans a b c p q all.0 h k.0, Below-trans a b l p q all.1 h k.1)

  Below-insert_sorted :
      (b a : A) (l : List A)
      → less a b ≡ false
      → Below less b l
      → Below less b (insert_sorted less a l)
  unfolding insert_sorted
  Below-insert_sorted b a [] h k = (h, tt)
  Below-insert_sorted b a (c ∷ l) h k = elim (Bool-cases (less c a)) [
    | inl e ↦ rw (e, insert_sorted) (k.0, Below-insert_sorted b a l h k.1)
    | inr e ↦ rw (e, insert_sorted) (h, k)
  ]

  AllOf-insert_sorted : (a : A) (l : List A) → P a → AllOf P l → AllOf P (insert_sorted less a l)
  unfolding insert_sorted
  AllOf-insert_sorted a [] p all = (p, tt)
  AllOf-insert_sorted a (c ∷ l) p all = elim (Bool-cases (less c a)) [
    | inl e ↦ rw (e, insert_sorted) (all.0, AllOf-insert_sorted a l p all.1)
    | inr e ↦ rw (e, insert_sorted) (p, all)
  ]

  insert_sorted-IsOrdered :
      (a : A) (l : List A)
      → P a
      → AllOf P l
      → IsOrdered less l
      → IsOrdered less (insert_sorted less a l)
  unfolding insert_sorted
  insert_sorted-IsOrdered a [] p all s = (tt, tt)
  insert_sorted-IsOrdered a (c ∷ l) p all s = elim (Bool-cases (less c a)) [
    | inl e ↦
        rw (e, insert_sorted)
          (
            Below-insert_sorted c a l (less_flip c a all.0 p e) s.0,
            insert_sorted-IsOrdered a l p all.1 s.1,
          )
    | inr e ↦ rw (e, insert_sorted) ((e, Below-trans a c l p all.0 all.1 e s.0), s)
  ]

  sort-AllOf : (l : List A) → AllOf P l → AllOf P (sort less l)
  unfolding sort
  sort-AllOf [] all = tt
  sort-AllOf (a ∷ l) all = AllOf-insert_sorted a (sort less l) all.0 (sort-AllOf l all.1)

  pub sort-IsOrdered : (l : List A) → AllOf P l → IsOrdered less (sort less l)
  unfolding sort
  sort-IsOrdered [] all = tt
  sort-IsOrdered (a ∷ l) all =
      insert_sorted-IsOrdered a (sort less l) all.0 (sort-AllOf l all.1) (sort-IsOrdered l all.1)
