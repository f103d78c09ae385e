-- ===== src/Buddy/Snapshot/Exact.antt =====
-- loadFreeRuns: the pool against the bitmap, for any snapshot.
use open_db.Prelude.{
  ℕ, zero, suc, ◌+◌, ◌<◌, ◌≡◌, Bool, true, false, List, [], ◌∷◌, arith, if◌then◌else◌, Bool-cases,
  inl, inr, ◌==◌, ==_iff,
}
use open_db.Buddy.{Allocator, init, in_run, ensure_bitmap_size, sum_below}
use open_db.Buddy.Coverage.{cover, class_cover, cover-push_run}
use open_db.Buddy.Snapshot.{
  FreeRun, any_free, clamp, is_malformed, load_run, load_runs, load_free_runs,
}

any_free_all :
    (allocated : ℕ → Bool) (start n p : ℕ)
    → any_free allocated start n ≡ false
    → in_run start n p ≡ true
    → allocated p ≡ true
unfolding any_free
any_free_all allocated start zero p e h = ground arith
any_free_all allocated start (suc n) p e h = elim (Bool-cases (start == p)) [
  | inl s ↦ rw (← (==_iff start p).0 s) (ground arith)
  | inr d ↦ any_free_all allocated (start + 1) n p (ground arith) (ground arith)
]

-- A page of the file is in one free run if its bit says so, and else in none.
abbrev pub AgreesBelow : ℕ → Allocator → Type 0
AgreesBelow count a = (p : ℕ) → p < count → cover a.free_buddy p ≡ (if a.allocated p then 0 else 1)

pub load_run-AgreesBelow :
    (count : ℕ) (a : Allocator) (r : FreeRun)
    → AgreesBelow count a
    → AgreesBelow count (load_run count a r)
unfolding load_run
load_run-AgreesBelow count a r v = elim (Bool-cases (is_malformed r count)) [
  | inl e ↦ rw (e, load_run) v
  | inr e ↦ elim (Bool-cases (any_free a.allocated r.start (clamp r.start r.slab_class count))) [
    | inl f ↦ rw (e, f, load_run) v
    | inr f ↦
        rw (e, f, load_run)
          λ p h. ground (
            arith,
            v p h,
            any_free_all a.allocated r.start (clamp r.start r.slab_class count) p f,
            cover-push_run r.slab_class a.free_buddy r.start p,
          )
  ]
]

load_runs-AgreesBelow :
    (count : ℕ) (a : Allocator) (rs : List FreeRun)
    → AgreesBelow count a
    → AgreesBelow count (load_runs count a rs)
unfolding load_runs
load_runs-AgreesBelow count a [] v = v
load_runs-AgreesBelow count a (r ∷ rs) v =
    load_runs-AgreesBelow count (load_run count a r) rs (load_run-AgreesBelow count a r v)

pub new-AgreesBelow : (count : ℕ) → AgreesBelow count (ensure_bitmap_size init count)
unfolding init cover sum_below class_cover
new-AgreesBelow count p h = ground arith

-- A new allocator that loads any snapshot, a corrupt one too: every page below the page count
-- lies in exactly one free run if its bit is clear, and in none if its bit is set.
pub cover-load_free_runs :
    (runs : List FreeRun) (count p : ℕ)
    → p < count
    → cover (load_free_runs init runs count).free_buddy p
      ≡ (if (load_free_runs init runs count).allocated p then 0 else 1)
unfolding load_free_runs init
cover-load_free_runs runs count p h =
    load_runs-AgreesBelow count (ensure_bitmap_size init count) runs (new-AgreesBelow count) p h
