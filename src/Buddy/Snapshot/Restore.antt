-- ===== src/Buddy/Snapshot/Restore.antt =====
-- loadFreeRuns after saveFreeRuns.
use mathlib.Core.List.{append_assoc, append-nil}
use open_db.Prelude.{
  ℕ, zero, suc, ◌+◌, ◌≤◌, ◌<◌, ◌≡◌, refl, Bool, true, false, ◌&&◌, List, [], ◌∷◌, ◌++◌, map, arith,
  if◌then◌else◌, Bool-cases, inl, inr, ltb, leb, ap, ◌==◌, ==_iff, ◌∙◌, sym,
}
use open_db.Buddy.{
  Allocator, init, in_run, max_class, ensure_bitmap_size, sum_below, contains, push_run,
}
use open_db.Buddy.Coverage.{run_cover, cover, class_cover, cover-push_run}
use open_db.Buddy.Snapshot.{
  FreeRun, any_free, clamp, is_malformed, load_run, load_runs, load_free_runs, runs_from,
  save_free_runs,
}
use open_db.Buddy.Snapshot.Exact.{AgreesBelow, load_run-AgreesBelow, new-AgreesBelow}

any_free_none :
    (allocated : ℕ → Bool) (start n : ℕ)
    → ((p : ℕ) → in_run start n p ≡ true → allocated p ≡ true)
    → any_free allocated start n ≡ false
unfolding any_free
any_free_none allocated start zero h = refl
any_free_none allocated start (suc n) h =
    rw (h start (ground arith)) (any_free_none allocated (start + 1) n (λ p i. h p (ground arith)))

-- The starts of the runs of class `k`, in order.
starts_of : ℕ → List FreeRun → List ℕ
starts_of k [] = []
starts_of k (r ∷ rs) = if r.slab_class == k then r.start ∷ starts_of k rs else starts_of k rs

runs_cover : List FreeRun → ℕ → ℕ
runs_cover [] p = 0
runs_cover (r ∷ rs) p = run_cover r.slab_class r.start p + runs_cover rs p

abbrev AllKept : ℕ → List FreeRun → Type 0
AllKept count [] = Unit
AllKept count (r ∷ rs) = (is_malformed r count ≡ false) × AllKept count rs

-- A run that meets no free page is loaded.
load_run_kept :
    (count : ℕ) (a : Allocator) (r : FreeRun)
    → is_malformed r count ≡ false
    → AgreesBelow count a
    → ((p : ℕ) → cover a.free_buddy p + run_cover r.slab_class r.start p ≤ 1)
    → (load_run count a r).free_buddy ≡ push_run a.free_buddy r.slab_class r.start
unfolding load_run
load_run_kept count a r m v once =
    let alone =
      any_free_none a.allocated r.start (clamp r.start r.slab_class count)
        (λ p i. ground (arith, v p, once p)) in
    rw (m, alone, load_run)

load_runs_kept :
    (count : ℕ) (a : Allocator) (rs : List FreeRun) (k : ℕ)
    → AllKept count rs
    → AgreesBelow count a
    → ((p : ℕ) → cover a.free_buddy p + runs_cover rs p ≤ 1)
    → (load_runs count a rs).free_buddy k ≡ a.free_buddy k ++ starts_of k rs
unfolding load_runs starts_of runs_cover
load_runs_kept count a [] k m v once = sym (append-nil (a.free_buddy k))
load_runs_kept count a (r ∷ rs) k m v once =
    let loaded = load_run_kept count a r m.0 v (λ p. omega (arith, once p)) in
    load_runs_kept count (load_run count a r) rs k m.1 (load_run-AgreesBelow count a r v) (λ p.
      rw loaded
        (omega (arith, once p, cover-push_run r.slab_class a.free_buddy r.start p (ground arith))))
    ∙ rw loaded (ground (arith, append_assoc (a.free_buddy k) (r.start ∷ []) (starts_of k rs)))

starts_of-append :
    (k : ℕ) (xs ys : List FreeRun) → starts_of k (xs ++ ys) ≡ starts_of k xs ++ starts_of k ys
unfolding starts_of
starts_of-append k [] ys = refl
starts_of-append k (r ∷ xs) ys = ground (arith, starts_of-append k xs ys)

abbrev of_class : ℕ → List ℕ → List FreeRun
of_class k = map (λ start. record { start = start; slab_class = k })

starts_of-class :
    (k j : ℕ) (xs : List ℕ) → starts_of k (of_class j xs) ≡ (if j == k then xs else [])
unfolding starts_of
starts_of-class k j [] = ground arith
starts_of-class k j (x ∷ xs) = ground (arith, starts_of-class k j xs)

starts_of-runs_from :
    (k rounds j : ℕ) (free : ℕ → List ℕ)
    → starts_of k (runs_from rounds j free) ≡ (if leb j k && ltb k (j + rounds) then free k else [])
unfolding starts_of runs_from
starts_of-runs_from k zero j free = ground arith
starts_of-runs_from k (suc rounds) j free =
    rw
      (
        starts_of-append k (of_class j (free j)) (runs_from rounds (j + 1) free),
        starts_of-class k j (free j),
        starts_of-runs_from k rounds (j + 1) free,
      )
      (elim (Bool-cases (j == k)) [
        | inl e ↦ rw ((==_iff j k).0 e) (ground (arith, append-nil (free k)))
        | inr e ↦ rw e (ground arith)
      ])

runs_cover-append :
    (xs ys : List FreeRun) (p : ℕ) → runs_cover (xs ++ ys) p ≡ runs_cover xs p + runs_cover ys p
unfolding runs_cover
runs_cover-append [] ys p = omega arith
runs_cover-append (r ∷ xs) ys p = omega (arith, runs_cover-append xs ys p)

runs_cover-class : (k : ℕ) (xs : List ℕ) (p : ℕ) → runs_cover (of_class k xs) p ≡ class_cover k xs p
unfolding runs_cover class_cover
runs_cover-class k [] p = refl
runs_cover-class k (x ∷ xs) p = omega (arith, runs_cover-class k xs p)

cover-runs_from :
    (free : ℕ → List ℕ) (p : ℕ) → runs_cover (runs_from (max_class + 1) 0 free) p ≡ cover free p
unfolding runs_from cover sum_below runs_cover
cover-runs_from free p = simp (runs_cover-append, runs_cover-class) (omega arith)

AllKept-append :
    (count : ℕ) (xs ys : List FreeRun)
    → AllKept count xs
    → AllKept count ys
    → AllKept count (xs ++ ys)
AllKept-append count [] ys p q = q
AllKept-append count (r ∷ xs) ys p q = (p.0, AllKept-append count xs ys p.1 q)

AllKept-class :
    (count k : ℕ) (xs : List ℕ)
    → k ≤ 8
    → ((s : ℕ) → contains s xs ≡ true → (0 < s) × (s < count))
    → AllKept count (of_class k xs)
unfolding contains
AllKept-class count k [] h q = tt
AllKept-class count k (x ∷ xs) h q =
    (ground (arith, q x), AllKept-class count k xs h (λ s c. q s (ground arith)))

AllKept-runs_from :
    (count rounds j : ℕ) (free : ℕ → List ℕ)
    → j + rounds ≤ 9
    → ((k s : ℕ) → contains s (free k) ≡ true → (0 < s) × (s < count))
    → AllKept count (runs_from rounds j free)
unfolding runs_from
AllKept-runs_from count zero j free h q = tt
AllKept-runs_from count (suc rounds) j free h q =
    AllKept-append count (of_class j (free j)) (runs_from rounds (j + 1) free)
      (AllKept-class count j (free j) (omega arith) (q j))
      (AllKept-runs_from count rounds (j + 1) free (omega arith) q)

starts_of-saved :
    (free : ℕ → List ℕ) (k : ℕ) → k ≤ 8 → starts_of k (runs_from (max_class + 1) 0 free) ≡ free k
starts_of-saved free k h = rw (starts_of-runs_from k (max_class + 1) 0 free) (ground arith)

cover-new : (count p : ℕ) → cover (ensure_bitmap_size init count).free_buddy p ≡ 0
unfolding init cover sum_below class_cover
cover-new count p = ground arith

free_buddy-new : (count k : ℕ) → (ensure_bitmap_size init count).free_buddy k ≡ []
unfolding init
free_buddy-new count k = ground arith

-- A pool whose runs start after page 0 and within the file, and of which no two cover a page, is
-- restored by a new allocator that loads the runs saved from it: each of the 9 classes has the
-- same runs in the same order.
pub load_free_runs-save_free_runs :
    (a : Allocator) (k : ℕ)
    → ((j s : ℕ) → contains s (a.free_buddy j) ≡ true → (0 < s) × (s < a.page_count))
    → ((p : ℕ) → cover a.free_buddy p ≤ 1)
    → k ≤ 8
    → (load_free_runs init (save_free_runs a) a.page_count).free_buddy k ≡ a.free_buddy k
unfolding load_free_runs save_free_runs init
load_free_runs-save_free_runs a k inside once h =
    load_runs_kept a.page_count (ensure_bitmap_size init a.page_count)
      (runs_from (max_class + 1) 0 a.free_buddy) k
      (AllKept-runs_from a.page_count (max_class + 1) 0 a.free_buddy (omega arith) inside)
      (new-AgreesBelow a.page_count)
      (λ p. omega (arith, once p, cover-runs_from a.free_buddy p, cover-new a.page_count p))
    ∙ ap (λ xs. xs ++ starts_of k (runs_from (max_class + 1) 0 a.free_buddy))
        (free_buddy-new a.page_count k)
    ∙ starts_of-saved a.free_buddy k h
