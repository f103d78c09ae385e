-- ===== src/Buddy/Snapshot.antt =====
-- The snapshot of the free runs that Pager keeps in page 0 (saveFreeRuns, loadFreeRuns), and the
-- diagnostic header (serializeHeader, loadHeader, maxObservedClass) on a little-endian machine.
pub mod Exact
pub mod Restore
pub mod Header
pub mod Examples
use open_db.Prelude.{
  ℕ, zero, suc, ◌+◌, ◌-◌, ◌^◌, Bool, true, false, ◌||◌, not, List, [], ◌∷◌, ◌++◌, map, ltb, leb,
  ◌==◌, if◌then◌else◌,
}
use open_db.Value.Bytes.{le_bytes}
use open_db.Buddy.{Allocator, max_class, mark, push_run, ensure_bitmap_size, free_run_count}

pub record FreeRun : Type 0 where
  pub start : ℕ
  pub slab_class : ℕ

-- The runs of class k and above, in `rounds` classes.
unfoldable pub runs_from : ℕ → ℕ → (ℕ → List ℕ) → List FreeRun
runs_from zero k free = []
runs_from (suc rounds) k free =
    map (λ start. record { start = start; slab_class = k }) (free k)
    ++ runs_from rounds (k + 1) free

-- saveFreeRuns
pub save_free_runs : Allocator → List FreeRun
unfolding runs_from
save_free_runs a = runs_from (max_class + 1) 0 a.free_buddy

-- The overlap guard: one of the `n` pages from `start` is free.
unfoldable pub any_free : (ℕ → Bool) → ℕ → ℕ → Bool
any_free allocated start zero = false
any_free allocated start (suc n) = not (allocated start) || any_free allocated (start + 1) n

-- The pages of a run that the file has.
abbrev pub clamp : ℕ → ℕ → ℕ → ℕ
clamp start k count = if ltb count (start + 2 ^ k) then count - start else 2 ^ k

-- k > MAX_CLASS || start == 0 || start >= pageCount
abbrev pub is_malformed : FreeRun → ℕ → Bool
is_malformed r count = ltb max_class r.slab_class || (r.start == 0 || leb count r.start)

-- One round of loadFreeRuns.
unfoldable pub load_run : ℕ → Allocator → FreeRun → Allocator
load_run count a r =
    if is_malformed r count
    then a
    else if any_free a.allocated r.start (clamp r.start r.slab_class count)
    then a
    else record a {
      allocated = mark a.allocated r.start (clamp r.start r.slab_class count) false;
      free_buddy = push_run a.free_buddy r.slab_class r.start;
    }

unfoldable pub load_runs : ℕ → Allocator → List FreeRun → Allocator
load_runs count a [] = a
load_runs count a (r ∷ rs) = load_runs count (load_run count a r) rs

-- loadFreeRuns; it clears the classes, and leaves the bits of pages that it had before.
pub load_free_runs : Allocator → List FreeRun → ℕ → Allocator
unfolding load_runs
load_free_runs a runs count =
    load_runs count (ensure_bitmap_size (record a { free_buddy = λ k. [] }) count) runs

-- for (k = MAX_CLASS; k > 0; --k) if (!freeBuddy_[k].empty()) return k; return 0;
unfoldable pub top_class : ℕ → (ℕ → List ℕ) → ℕ
top_class zero free = 0
top_class (suc k) free = elim (free (suc k)) [ [] ↦ top_class k free | s ∷ runs ↦ suc k ]

pub max_observed_class : Allocator → ℕ
unfolding top_class
max_observed_class a = top_class max_class a.free_buddy

abbrev pub cap16 : ℕ → ℕ
cap16 n = if ltb 65535 n then 65535 else n

-- serializeHeader
pub serialize_header : Allocator → List ℕ
unfolding le_bytes
serialize_header a =
    (0 ∷ 0 ∷ 0 ∷ 0 ∷ 0 ∷ 0 ∷ 0 ∷ 0 ∷ [])
    ++ le_bytes 2 (max_observed_class a)
    ++ le_bytes 2 (cap16 (free_run_count a))
    ++ (0 ∷ 0 ∷ 0 ∷ 0 ∷ [])

-- loadHeader reads the two counters and drops them.
pub load_header : Allocator → List ℕ → ℕ → Allocator
load_header a bytes count = ensure_bitmap_size a count
