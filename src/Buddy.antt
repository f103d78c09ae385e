-- ===== src/Buddy.antt =====
-- includes/opendb/storage/BuddyPageAllocator.hpp and src/BuddyPageAllocator.cpp: free runs of pages in
-- classes of lengths 1, 2, 4, ..., 256. The mutex makes each method one step, except that allocatePages
-- gives it up for the callback that extends the file; the callback is an argument. A page number has
-- 32 bits and wraps; a failing assert and an index past the end of the bitmap are not modelled.
pub mod Loops
pub mod Coverage
pub mod Allocate
pub mod Free
pub mod Ownership
pub mod Snapshot
pub mod Examples
use Prim.Native.Nat.{bit_xor, max}
use open_db.Prelude.{
  ℕ, zero, suc, ◌+◌, ◌-◌, ◌*◌, ◌%◌, ◌^◌, Bool, true, false, ◌&&◌, ◌||◌, not, Option, none, some,
  List, [], ◌∷◌, ◌++◌, ltb, leb, ◌==◌, if◌then◌else◌, length,
}

abbrev pub max_class : ℕ
max_class = 8

-- `free_buddy k` is freeBuddy_[k], its back last. `allocated` is the bitmap; pages at or above
-- `page_count`, which the vector does not have yet, read as `true`, the value that it grows by.
pub record Allocator : Type 0 where
  pub free_buddy : ℕ → List ℕ
  pub allocated : ℕ → Bool
  pub page_count : ℕ

pub init : Allocator
init = record { free_buddy = λ k. []; allocated = λ p. true; page_count = 0 }

-- A number as PageId.
abbrev pub page_id : ℕ → ℕ
page_id n = n % 2 ^ 32

-- while ((1 << k) < n) ++k; with a bound on the rounds
unfoldable pub class_loop : ℕ → ℕ → ℕ → ℕ
class_loop zero k n = k
class_loop (suc fuel) k n =
    let rest = class_loop fuel (k + 1) n in if ltb (2 ^ k) n then rest else k

-- classFor; n rounds are enough.
unfoldable pub class_for : ℕ → ℕ
unfolding class_loop
class_for n = class_loop n 0 n

abbrev pub buddy_of : ℕ → ℕ → ℕ
buddy_of page k = bit_xor page (2 ^ k)

-- The page lies in the run of `n` pages from `start`.
abbrev pub in_run : ℕ → ℕ → ℕ → Bool
in_run start n page = leb start page && ltb page (start + n)

-- allocated_[start + i] = value for i < n
abbrev pub mark : (ℕ → Bool) → ℕ → ℕ → Bool → ℕ → Bool
mark allocated start n value page = if in_run start n page then value else allocated page

-- freeBuddy_[k] = runs
abbrev pub set_class : (ℕ → List ℕ) → ℕ → List ℕ → ℕ → List ℕ
set_class free k runs j = if j == k then runs else free j

abbrev pub push_run : (ℕ → List ℕ) → ℕ → ℕ → ℕ → List ℕ
push_run free k start = set_class free k (free k ++ start ∷ [])

-- back() and pop_back(); `none` on the empty vector.
unfoldable pub pop_back : List ℕ → Option (List ℕ × ℕ)
pop_back [] = none
pop_back (x ∷ xs) = elim (pop_back xs) [ none ↦ some ([], x) | some (ys, y) ↦ some (x ∷ ys, y) ]

-- The first class from `k` on, in `rounds` rounds, that has a free run: its number, the runs that
-- stay and the start of the one taken.
unfoldable pub find_class : ℕ → ℕ → (ℕ → List ℕ) → Option (ℕ × List ℕ × ℕ)
find_class zero k free = none
find_class (suc rounds) k free = elim (pop_back (free k)) [
  | none ↦ find_class rounds (k + 1) free
  | some (runs, start) ↦ some (k, runs, start)
]

-- The split: `steps` is k - targetClass. The lower half of each run is parked.
unfoldable pub split : ℕ → ℕ → (ℕ → List ℕ) → ℕ → (ℕ → List ℕ) × ℕ
split zero target free start = (free, start)
split (suc steps) target free start =
    split steps target (push_run free (target + steps) start)
      (page_id (start + 2 ^ (target + steps)))

-- The part of allocatePages under the lock: `none` if no class has a run.
unfoldable pub take_run : Allocator → ℕ → Option (Allocator × ℕ)
take_run a n = elim (find_class (max_class + 1 - class_for n) (class_for n) a.free_buddy) [
  | none ↦ none
  | some (k, runs, start) ↦
      let (free, page) =
        split (k - class_for n) (class_for n) (set_class a.free_buddy k runs) start in
      some (record a { free_buddy = free; allocated = mark a.allocated page n true }, page)
]

-- ensureBitmapSize
abbrev pub ensure_bitmap_size : Allocator → ℕ → Allocator
ensure_bitmap_size a count = if leb count a.page_count then a else record a { page_count = count }

pub on_file_extended : Allocator → ℕ → ℕ → Allocator
on_file_extended a start n =
    let b = ensure_bitmap_size a (page_id (start + n)) in
    record b { allocated = mark b.allocated start n true }

-- allocatePages; `extend_file` is the callback, which calls back into the allocator.
pub allocate_pages : Allocator → ℕ → (Allocator → ℕ → Allocator × ℕ) → Allocator × ℕ
allocate_pages a n extend_file = elim (take_run a n) [ none ↦ extend_file a n | some r ↦ r ]

unfoldable pub contains : ℕ → List ℕ → Bool
contains x [] = false
contains x (y ∷ ys) = y == x || contains x ys

-- std::find and erase of the first entry.
unfoldable pub erase : ℕ → List ℕ → List ℕ
erase x [] = []
erase x (y ∷ ys) = if y == x then ys else y ∷ erase x ys

abbrev pub lower : ℕ → ℕ → ℕ
lower a b = if ltb b a then b else a

-- The loop of freePages from class `k`, whose run `start` was pushed; `rounds` is MAX_CLASS - k.
unfoldable pub coalesce : ℕ → ℕ → (ℕ → List ℕ) → ℕ → ℕ → List ℕ
coalesce zero k free start = free
coalesce (suc rounds) k free start = elim (contains (buddy_of start k) (free k)) [
  | false ↦ free
  | true ↦
      let rest = erase (buddy_of start k) (free k) in
      elim (contains start rest) [
        | false ↦ set_class free k rest
        | true ↦
            let start' = lower start (buddy_of start k) in
            coalesce rounds (k + 1) (push_run (set_class free k (erase start rest)) (k + 1) start')
              start'
      ]
]

-- freePages
pub free_pages : Allocator → ℕ → ℕ → Allocator
free_pages a start n = record a {
  allocated = mark a.allocated start n false;
  free_buddy =
      coalesce (max_class - class_for n) (class_for n) (push_run a.free_buddy (class_for n) start)
        start;
}

-- Sums over the classes 0 to MAX_CLASS.
unfoldable pub sum_below : ℕ → (ℕ → ℕ) → ℕ
sum_below zero f = 0
sum_below (suc k) f = sum_below k f + f k

pub free_page_count : Allocator → ℕ
unfolding sum_below
free_page_count a = sum_below (max_class + 1) (λ k. length (a.free_buddy k) * 2 ^ k)

pub free_run_count : Allocator → ℕ
unfolding sum_below
free_run_count a = sum_below (max_class + 1) (λ k. length (a.free_buddy k))
