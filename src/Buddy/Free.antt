-- ===== src/Buddy/Free.antt =====
-- BuddyPageAllocator::freePages and the free runs that cover a page.
use open_db.Prelude.{
  ℕ, zero, suc, ◌+◌, ◌-◌, ◌≤◌, ◌<◌, ◌≡◌, refl, true, false, ◌||◌, List, [], ◌∷◌, ◌++◌, arith, ◌==◌,
  inl, inr, ap, Bool-cases, ◌∙◌,
}
use open_db.Prelude.Bits.{bit_xor-pow}
use open_db.Buddy.{
  Allocator, set_class, push_run, contains, erase, lower, buddy_of, coalesce, free_pages, class_for,
  max_class,
}
use open_db.Buddy.Coverage.{
  two_pow_pos, run_cover, cover, run_cover_buddies, class_cover-erase, cover-set_class,
  cover-push_run,
}

contains-append : (x y : ℕ) (xs : List ℕ) → contains x (xs ++ y ∷ []) ≡ (contains x xs || y == x)
unfolding contains
contains-append x y [] = ground arith
contains-append x y (z ∷ xs) = ground (arith, contains-append x y xs)

contains-erase_ne :
    (x y : ℕ) (xs : List ℕ) → (x == y) ≡ false → contains y (erase x xs) ≡ contains y xs
unfolding contains erase
contains-erase_ne x y [] h = refl
contains-erase_ne x y (z ∷ xs) h = ground (arith, contains-erase_ne x y xs)

contains-push_run :
    (free : ℕ → List ℕ) (k start : ℕ) → contains start (push_run free k start k) ≡ true
contains-push_run free k start = ground (arith, contains-append start start (free k))

buddy_differs : (start k : ℕ) → (buddy_of start k == start) ≡ false
buddy_differs start k = ground (arith, bit_xor-pow k start, two_pow_pos k)

-- One merge: two runs leave their class and their union enters the next.
cover_merge :
    (k : ℕ) (free : ℕ → List ℕ) (start page : ℕ)
    → k < 8
    → contains (buddy_of start k) (free k) ≡ true
    → contains start (erase (buddy_of start k) (free k)) ≡ true
    → cover
        (push_run
          (set_class free k (erase start (erase (buddy_of start k) (free k))))
          (k + 1)
          (lower start (buddy_of start k)))
        page
      ≡ cover free page
cover_merge k free start page h b s =
    let buddy = buddy_of start k in
    let rest = erase buddy (free k) in
    let kept = set_class free k (erase start rest) in
    let next : suc k ≡ k + 1 = omega arith in
    omega (
      arith,
      cover-push_run (k + 1) kept (lower start buddy) page (omega arith),
      cover-set_class k free (erase start rest) page (omega arith),
      class_cover-erase k buddy (free k) page b,
      class_cover-erase k start rest page s,
      run_cover_buddies k start page,
      ap (λ j. run_cover j (lower start buddy) page) next,
    )

cover-coalesce :
    (rounds k : ℕ) (free : ℕ → List ℕ) (start page : ℕ)
    → k + rounds ≡ 8
    → contains start (free k) ≡ true
    → cover (coalesce rounds k free start) page ≡ cover free page
unfolding coalesce
cover-coalesce zero k free start page h c = refl
cover-coalesce (suc rounds) k free start page h c =
    elim (Bool-cases (contains (buddy_of start k) (free k))) [
      | inl b ↦
          let stays =
            contains-erase_ne (buddy_of start k) start (free k) (buddy_differs start k) ∙ c in
          rw (b, coalesce, stays)
            (cover-coalesce rounds (k + 1) _ _ page (omega arith) (
                contains-push_run
                  (set_class free k (erase start (erase (buddy_of start k) (free k)))) (k + 1) _)
              ∙ cover_merge k free start page (omega arith) b stays)
      | inr b ↦ rw (b, coalesce)
    ]

-- For n of class 8 at most: after freePages every page of the run of the class of n is covered by
-- one free run more, and every other page by as many as before.
pub cover-free_pages :
    (a : Allocator) (start n page : ℕ)
    → class_for n ≤ 8
    → cover (free_pages a start n).free_buddy page
      ≡ cover a.free_buddy page + run_cover (class_for n) start page
unfolding free_pages
cover-free_pages a start n page h =
    cover-coalesce (max_class - class_for n) (class_for n) _ start page (omega arith)
      (contains-push_run a.free_buddy (class_for n) start)
    ∙ cover-push_run (class_for n) a.free_buddy start page h
