-- ===== src/Buddy/Coverage.antt =====
-- How many free runs cover a page, and what each change of a class does to that number.
use native.Mathlib.Nat.{two-pow-succ}
use open_db.Prelude.{
  ℕ, zero, suc, ◌+◌, ◌^◌, ◌≤◌, ◌<◌, ◌≡◌, refl, true, Option, none, some, List, [], ◌∷◌, ◌++◌, arith,
  ◌==◌, if◌then◌else◌, inl, inr, Bool-cases, Option-cases, ==_iff,
}
use open_db.Prelude.Bits.{bit_xor-pow}
use open_db.Buddy.{
  in_run, set_class, push_run, contains, erase, pop_back, lower, buddy_of, sum_below, max_class,
}

-- 1 if the run of class `k` from `start` covers the page.
abbrev pub run_cover : ℕ → ℕ → ℕ → ℕ
run_cover k start page = if in_run start (2 ^ k) page then 1 else 0

unfoldable pub class_cover : ℕ → List ℕ → ℕ → ℕ
class_cover k [] page = 0
class_cover k (start ∷ runs) page = run_cover k start page + class_cover k runs page

abbrev cover_below : ℕ → (ℕ → List ℕ) → ℕ → ℕ
cover_below n free page = sum_below n (λ k. class_cover k (free k) page)

-- The number of free runs that cover the page.
unfoldable pub cover : (ℕ → List ℕ) → ℕ → ℕ
unfolding class_cover
cover free page = cover_below (max_class + 1) free page

pub two_pow_pos : (k : ℕ) → 0 < 2 ^ k
two_pow_pos zero = omega arith
two_pow_pos (suc k) = omega (arith, two-pow-succ k, two_pow_pos k)

pub run_cover_halves :
    (k start page : ℕ)
    → run_cover (suc k) start page ≡ run_cover k start page + run_cover k (start + 2 ^ k) page
run_cover_halves k start page = ground (arith, two-pow-succ k)

-- A run and its buddy make up the run of the next class from the lower of the two.
pub run_cover_buddies :
    (k start page : ℕ)
    → run_cover (suc k) (lower start (buddy_of start k)) page
      ≡ run_cover k start page + run_cover k (buddy_of start k) page
run_cover_buddies k start page = ground (
  arith,
  bit_xor-pow k start,
  run_cover_halves k start page,
  run_cover_halves k (buddy_of start k) page,
)

pub class_cover-append :
    (k : ℕ) (runs : List ℕ) (start page : ℕ)
    → class_cover k (runs ++ start ∷ []) page ≡ class_cover k runs page + run_cover k start page
unfolding class_cover
class_cover-append k [] start page = omega arith
class_cover-append k (r ∷ runs) start page = omega (arith, class_cover-append k runs start page)

pub class_cover-erase :
    (k start : ℕ) (runs : List ℕ) (page : ℕ)
    → contains start runs ≡ true
    → class_cover k runs page ≡ class_cover k (erase start runs) page + run_cover k start page
unfolding class_cover contains erase
class_cover-erase k start [] page h = cc
class_cover-erase k start (r ∷ runs) page h = elim (Bool-cases (r == start)) [
  | inl e ↦ rw (e, (==_iff r start).0 e) (omega arith)
  | inr e ↦ rw e (ground (arith, class_cover-erase k start runs page))
]

pop_back-none : (runs : List ℕ) → pop_back runs ≡ none → runs ≡ []
unfolding pop_back
pop_back-none [] h = refl
pop_back-none (r ∷ runs) h = absurd (some_result (pop_back runs) h)
  where
    some_result :
        (o : Option (List ℕ × ℕ))
        → (elim o as (λ _. Option (List ℕ × ℕ)) [
          | none ↦ some ([], r)
          | some (ys, y) ↦ some (r ∷ ys, y)
        ])
          ≡ none
        → ⊥
    some_result none f = cc
    some_result (some (ys, y)) f = cc

-- back() and pop_back() take a vector apart.
pub pop_back_lem :
    (runs rest : List ℕ) (start : ℕ)
    → pop_back runs ≡ some (rest, start)
    → runs ≡ rest ++ start ∷ []
unfolding pop_back
pop_back_lem [] rest start h = cc
pop_back_lem (r ∷ runs) rest start h = elim (Option-cases (pop_back runs)) [
  | inl e ↦ ground (arith, e, pop_back-none runs)
  | inr ((ys, y), e) ↦ ground (arith, e, pop_back_lem runs ys y)
]

above_same :
    (n j : ℕ) (free : ℕ → List ℕ) (runs : List ℕ) (page : ℕ)
    → n ≤ j
    → cover_below n (set_class free j runs) page ≡ cover_below n free page
unfolding sum_below
above_same zero j free runs page h = refl
above_same (suc n) j free runs page h = ground (arith, above_same n j free runs page)

below_changes :
    (n j : ℕ) (free : ℕ → List ℕ) (runs : List ℕ) (page : ℕ)
    → j < n
    → cover_below n (set_class free j runs) page + class_cover j (free j) page
      ≡ cover_below n free page + class_cover j runs page
unfolding sum_below
below_changes zero j free runs page h = absurd (omega arith)
below_changes (suc n) j free runs page h = elim (Bool-cases (n == j)) [
  | inl e ↦ rw ((==_iff n j).0 e) (ground (arith, above_same j j free runs page (omega arith)))
  | inr e ↦ ground (arith, below_changes n j free runs page)
]

-- Replacing the runs of a class changes the number by what they cover.
pub cover-set_class :
    (j : ℕ) (free : ℕ → List ℕ) (runs : List ℕ) (page : ℕ)
    → j ≤ 8
    → cover (set_class free j runs) page + class_cover j (free j) page
      ≡ cover free page + class_cover j runs page
unfolding cover
cover-set_class j free runs page h = below_changes 9 j free runs page (omega arith)

pub cover-push_run :
    (j : ℕ) (free : ℕ → List ℕ) (start page : ℕ)
    → j ≤ 8
    → cover (push_run free j start) page ≡ cover free page + run_cover j start page
cover-push_run j free start page h = omega (
  arith,
  cover-set_class j free (free j ++ start ∷ []) page h,
  class_cover-append j (free j) start page,
)
