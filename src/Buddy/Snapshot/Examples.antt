-- ===== src/Buddy/Snapshot/Examples.antt =====
-- Snapshots on concrete inputs.
use open_db.Prelude.{ℕ, ◌≤◌, ◌<◌, ◌≡◌, List, [], ◌∷◌, true, false, if◌then◌else◌, ◌==◌, arith}
use open_db.Buddy.{Allocator, init, contains, mark, sum_below}
use open_db.Buddy.Coverage.{cover, class_cover}
use open_db.Buddy.Snapshot.{any_free, load_run, FreeRun, load_free_runs, save_free_runs}
use open_db.Buddy.Snapshot.Exact.{cover-load_free_runs}
use open_db.Buddy.Snapshot.Restore.{load_free_runs-save_free_runs}

-- Of two runs that overlap the second is skipped.
abbrev overlapping : List FreeRun
overlapping = record { start = 2; slab_class = 1 } ∷ record { start = 3; slab_class = 0 } ∷ []

cover-load_free_runs_example : cover (load_free_runs init overlapping 8).free_buddy 3 ≡ 1
unfolding load_free_runs load_run any_free init
cover-load_free_runs_example = cover-load_free_runs overlapping 8 3 (omega arith)

-- A pool with one run of four pages in class 2.
abbrev one_run : Allocator
one_run = record {
  free_buddy = λ k. if k == 2 then 4 ∷ [] else [];
  allocated = mark (λ p. true) 4 4 false;
  page_count = 8;
}

one_run_inside :
    (j s : ℕ) → contains s (one_run.free_buddy j) ≡ true → (0 < s) × (s < one_run.page_count)
unfolding contains
one_run_inside j s h = ground arith

one_run_once : (p : ℕ) → cover one_run.free_buddy p ≤ 1
unfolding cover sum_below class_cover
one_run_once p = ground arith

load_free_runs-save_free_runs_example :
    (load_free_runs init (save_free_runs one_run) 8).free_buddy 2 ≡ 4 ∷ []
load_free_runs-save_free_runs_example =
    load_free_runs-save_free_runs one_run 2 one_run_inside one_run_once (omega arith)
