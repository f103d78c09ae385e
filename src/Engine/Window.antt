-- ===== src/Engine/Window.antt =====
-- EngineLoop.hpp: OFFSET and LIMIT as indices, against the slices that they stand for.
use Prim.Native.Nat.{min}
use open_db.Prelude.{
  ℕ, zero, suc, ◌+◌, ◌-◌, ◌^◌, ◌≤◌, ◌<◌, ◌≡◌, refl, Option, none, some, List, [], ◌∷◌, arith, ltb,
  leb, leb→le, if◌then◌else◌, length, take, drop, length-drop, Bool-cases, inl, inr,
}
use open_db.Tuple.{Tuple}
use open_db.Engine.Select.{window, size_or_zero, between, limited_end}

take_all : (n : ℕ) (rows : List Tuple) → length rows ≤ n → take n rows ≡ rows
take_all zero [] h = refl
take_all zero (r ∷ rows) h = absurd (omega arith)
take_all (suc n) [] h = refl
take_all (suc n) (r ∷ rows) h = rw (take_all n rows (omega arith)) refl

drop_all : (n : ℕ) (rows : List Tuple) → length rows ≤ n → drop n rows ≡ []
drop_all zero [] h = refl
drop_all zero (r ∷ rows) h = absurd (omega arith)
drop_all (suc n) [] h = refl
drop_all (suc n) (r ∷ rows) h = drop_all n rows (omega arith)

take_none : (rows : List Tuple) → take 0 rows ≡ []
take_none rows = refl

-- What SQL means by the clauses.
abbrev pub limited : Option ℕ → List Tuple → List Tuple
limited none rows = rows
limited (some l) rows = take l rows

-- That the sum of the two does not wrap.
abbrev pub Fits : ℕ → Option ℕ → Type 0
Fits start none = Unit
Fits start (some l) = start + l < 2 ^ 64

take_past :
    (n l : ℕ) (rows : List Tuple) → length rows ≤ n → length rows ≤ l → take n rows ≡ take l rows
take_past n l rows h k = rw (take_all n rows h, take_all l rows k)

take-drop :
    (start l n : ℕ) (rows : List Tuple)
    → start < length rows
    → n ≡ min (length rows) (start + l) - start
    → take n (drop start rows) ≡ take l (drop start rows)
take-drop start l n rows h e = elim (Bool-cases (leb (length rows) (start + l))) [
  | inl p ↦
      take_past n l (drop start rows) (ground (arith, length-drop start rows))
        (ground (arith, length-drop start rows))
  | inr p ↦ let same : n ≡ l = ground arith in rw same
]

take_empty : (n : ℕ) → take {A = Tuple} n [] ≡ []
take_empty zero = refl
take_empty (suc n) = refl

limited_empty : (limit : Option ℕ) → limited limit [] ≡ []
limited_empty none = refl
limited_empty (some l) = take_empty l

between_past : (end : ℕ) (rows : List Tuple) → between (length rows) end rows ≡ []
between_past end rows = rw (drop_all (length rows) rows (omega arith), take_empty) refl

between_inside :
    (start : ℕ) (limit : Option ℕ) (rows : List Tuple)
    → Fits start limit
    → start < length rows
    → between start (limited_end (length rows) start limit) rows ≡ limited limit (drop start rows)
between_inside start none rows f h =
    let e : (if ltb (length rows) start then start else length rows) - start ≡ length rows - start =
      ground arith in
    rw e (take_all (length rows - start) (drop start rows) (omega (arith, length-drop start rows)))
between_inside start (some l) rows f h = take-drop start l _ rows h (ground arith)

-- OFFSET and LIMIT drop the first rows and keep at most so many of the others, if the sum of the
-- two numbers does not wrap at 2^64.
pub window_lem :
    (offset limit : Option ℕ) (rows : List Tuple)
    → Fits (size_or_zero offset) limit
    → window offset limit rows ≡ limited limit (drop (size_or_zero offset) rows)
unfolding window
window_lem offset limit rows f = elim (Bool-cases (leb (length rows) (size_or_zero offset))) [
  | inl p ↦
      rw (p, between_past, drop_all (size_or_zero offset) rows (leb→le _ _ p), limited_empty limit)
        refl
  | inr p ↦ rw p (between_inside (size_or_zero offset) limit rows f (ground (arith, p)))
]
