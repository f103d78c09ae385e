-- ===== src/Buddy/Examples.antt =====
-- The allocator on concrete inputs.
use open_db.Prelude.{ℕ, ◌+◌, ◌-◌, ◌^◌, ◌≡◌, refl, some, none, arith, true}
use open_db.Buddy.{
  in_run, allocate_pages, coalesce, contains, erase, Allocator, init, class_for, take_run,
  find_class, pop_back, free_pages, on_file_extended, free_page_count, free_run_count,
}
use open_db.Buddy.Coverage.{cover, run_cover}
use open_db.Buddy.Ownership.{
  System, start_system, allocate, give_back, frees, allocates, here, next, IsDisjoint,
  Reach-start_system-IsDisjoint, free_pages_twice,
}

-- A file of 8 pages, of which 4 to 7 are free.
abbrev half_free : Allocator
half_free = free_pages (on_file_extended init 0 8) 4 4

-- The pages 1 to 4 are handed out and given back; then two of them are handed out again.
abbrev busy : System
busy = allocate start_system 2

busy_owned : (p : ℕ) → busy.owned p ≡ 0 + run_cover 2 1 p
unfolding allocate allocate_pages take_run find_class pop_back init class_for
busy_owned p = refl

four_owned : (p : ℕ) → in_run 1 (2 ^ 2) p ≡ true → busy.owned p ≡ 1
four_owned p m = ground (arith, busy_owned p, m)

Reach-start_system-IsDisjoint_example : IsDisjoint (allocate (give_back busy 1 2) 1)
unfolding allocate take_run find_class pop_back init class_for give_back
Reach-start_system-IsDisjoint_example = Reach-start_system-IsDisjoint (
    next
      (next (next here (allocates start_system 2 (omega arith) (λ e. omega arith)))
        (frees busy 1 2 (omega arith) four_owned))
      (allocates (give_back busy 1 2) 1 (omega arith) (λ e. omega arith)))

abbrev taken : Allocator × ℕ
taken = elim (take_run half_free 3) [ none ↦ (half_free, 0) | some r ↦ r ]

free_pages_twice_example :
    cover (free_pages (free_pages half_free 0 (2 ^ 1)) 0 (2 ^ 1)).free_buddy 1
    ≡ cover half_free.free_buddy 1 + 2
free_pages_twice_example = free_pages_twice half_free 0 1 1 (omega arith) refl

-- Freeing the other half merges the two runs into one of 8 pages.
merged : free_run_count (free_pages half_free 0 4) ≡ 1
unfolding free_run_count free_pages coalesce class_for contains on_file_extended init erase
merged = refl

merged_pages : free_page_count (free_pages half_free 0 4) ≡ 8
unfolding free_page_count free_pages coalesce class_for contains on_file_extended init erase
merged_pages = refl

-- The page count of a full file wraps to 0, so that the next page handed out is the header's.
wrapped :
    (allocate (record { pool = init; owned = λ p. 0; file_pages = 2 ^ 32 - 1 }) 0).file_pages ≡ 0
unfolding allocate take_run find_class pop_back init class_for
wrapped = refl
