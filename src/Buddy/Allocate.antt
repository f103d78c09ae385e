-- ===== src/Buddy/Allocate.antt =====
-- BuddyPageAllocator::allocatePages and the free runs that cover a page.
use native.Mathlib.Nat.{two-pow-succ}
use open_db.Prelude.{
  ℕ, zero, suc, ◌+◌, ◌-◌, ◌^◌, ◌≤◌, ◌<◌, ◌≡◌, refl, Option, none, some, List, [], ◌∷◌, ◌++◌, arith,
  inl, inr, sym, ap, Option-cases, ◌∙◌, ◌≢◌, Bool-cases, leb,
}
use open_db.Buddy.{
  page_id, Allocator, set_class, push_run, pop_back, find_class, split, take_run, class_for,
  max_class,
}
use open_db.Buddy.Coverage.{
  two_pow_pos, run_cover, class_cover, cover, run_cover_halves, class_cover-append, pop_back_lem,
  cover-set_class, cover-push_run,
}

-- What find_class finds is a class in range with the run at its back.
find_class_lem :
    (rounds k : ℕ) (free : ℕ → List ℕ) (k' : ℕ) (runs : List ℕ) (start : ℕ)
    → find_class rounds k free ≡ some (k', runs, start)
    → (k ≤ k') × (k' < k + rounds) × (free k' ≡ runs ++ start ∷ [])
unfolding find_class
find_class_lem zero k free k' runs start h = cc
find_class_lem (suc rounds) k free k' runs start h = elim (Option-cases (pop_back (free k))) [
  | inl e ↦
      let later =
        find_class_lem rounds (k + 1) free k' runs start (sym (rw (e, find_class) refl) ∙ h) in
      (omega arith, omega arith, later.2)
  | inr ((ys, y), e) ↦ ground (arith, e, pop_back_lem (free k) ys y)
]

-- The middle of a run that ends within the page numbers is a page number.
upper_half : (start k : ℕ) → start + 2 ^ suc k ≤ 2 ^ 32 → page_id (start + 2 ^ k) ≡ start + 2 ^ k
upper_half start k h = omega (arith, two-pow-succ k, two_pow_pos k)

-- The split parks all of the run but the part that it returns.
cover-split :
    (steps target : ℕ) (free : ℕ → List ℕ) (start page : ℕ)
    → target + steps ≤ 8
    → start + 2 ^ (target + steps) ≤ 2 ^ 32
    → cover (split steps target free start).0 page
        + run_cover target (split steps target free start).1 page
      ≡ cover free page + run_cover (target + steps) start page
unfolding split
cover-split zero target free start page h u =
    let same : target + 0 ≡ target = omega arith in rw same
cover-split (suc steps) target free start page h u =
    let up : target + suc steps ≡ suc (target + steps) = omega arith in
    let end : start + 2 ^ suc (target + steps) ≤ 2 ^ 32 = rw up at u in
    let stays : page_id (start + 2 ^ (target + steps)) ≡ start + 2 ^ (target + steps) =
      upper_half start (target + steps) end in
    rw (up, stays, split)
      (omega (
        arith,
        cover-split steps target (push_run free (target + steps) start)
            (start + 2 ^ (target + steps)) page (omega arith)
            (omega (arith, end, two-pow-succ (target + steps))),
        cover-push_run (target + steps) free start page (omega arith),
        run_cover_halves (target + steps) start page,
      ))

-- No free run covers a page at or after 2^32.
abbrev pub BelowLimit : (ℕ → List ℕ) → Type 0
BelowLimit free = (p : ℕ) → 2 ^ 32 ≤ p → cover free p ≡ 0

-- A free run ends within the page numbers if all free pages are.
run_end :
    (k : ℕ) (free : ℕ → List ℕ) (runs : List ℕ) (start : ℕ)
    → k ≤ 8
    → free k ≡ runs ++ start ∷ []
    → BelowLimit free
    → start + 2 ^ k ≤ 2 ^ 32
run_end k free runs start h e below = elim (Bool-cases (leb (start + 2 ^ k) (2 ^ 32))) [
  | inl f ↦ ground (arith, f)
  | inr f ↦
      let last : ℕ = start + 2 ^ k - 1 in
      absurd (
        ground (
          arith,
          f,
          two_pow_pos k,
          below last,
          cover-set_class k free runs last h,
          ap (λ x. class_cover k x last) e,
          class_cover-append k runs start last,
        ))
]

pub none-ne-some : {A : Type 0} {a : A} → none ≢ some a
none-ne-some = λ e. cc

pub some_pair :
    {A : Type 0} {x y : A} {m n : ℕ}
    → ◌≡◌ {A = Option (A × ℕ)} (some (x, m)) (some (y, n))
    → (x ≡ y) × (m ≡ n)
some_pair e = ground arith

-- For n of class 8 at most: a run that allocatePages takes from the pool was free there; every
-- page is then covered by one free run less if it lies in the run of that class, and by as many
-- as before otherwise.
pub cover-take_run :
    (a b : Allocator) (n start page : ℕ)
    → class_for n ≤ 8
    → BelowLimit a.free_buddy
    → take_run a n ≡ some (b, start)
    → cover a.free_buddy page ≡ cover b.free_buddy page + run_cover (class_for n) start page
unfolding take_run
cover-take_run a b n start page h below e =
    elim (Option-cases (find_class (max_class + 1 - class_for n) (class_for n) a.free_buddy)) [
      | inl f ↦ absurd (none-ne-some (rw (f, take_run) at e))
      | inr ((k, runs, s), f) ↦
          let c = class_for n in
          let found = find_class_lem _ c a.free_buddy k runs s f in
          let steps : c + (k - c) ≡ k = omega arith in
          let taken = some_pair (rw (f, take_run) at e) in
          omega (
            arith,
            ap (λ x. cover x.free_buddy page) taken.0,
            ap (λ x. run_cover c x page) taken.1,
            cover-split (k - c) c (set_class a.free_buddy k runs) s page (omega arith)
                (rw steps (run_end k a.free_buddy runs s (omega arith) found.2 below)),
            ap (λ x. run_cover x s page) steps,
            cover-set_class k a.free_buddy runs page (omega arith),
            ap (λ x. class_cover k x page) found.2,
            class_cover-append k runs s page,
          )
    ]
