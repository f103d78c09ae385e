-- ===== src/Buddy/Ownership.antt =====
-- The allocator and its clients: who owns which pages, over every sequence of allocations and frees of
-- runs of 1, 2, 4, ..., 256 pages. An allocation is one step, also where it extends the file by
-- extendFile of src/Pager.cpp; the file itself is left out.
use open_db.Prelude.{
  ℕ, zero, suc, ◌+◌, ◌-◌, ◌^◌, ◌≤◌, ◌<◌, ◌≡◌, refl, true, Option, none, some, arith, if◌then◌else◌,
  inl, inr, sym, ap, Option-cases,
}
use open_db.Buddy.{
  page_id, Allocator, init, in_run, take_run, allocate_pages, on_file_extended, free_pages,
  class_for, find_class, max_class, sum_below,
}
use open_db.Buddy.Coverage.{run_cover, cover, class_cover}
use open_db.Buddy.Allocate.{BelowLimit, cover-take_run, some_pair, none-ne-some}
use open_db.Buddy.Free.{cover-free_pages}

-- `owned p` counts the owners of page p; `file_pages` is the page count in the header of Pager.
pub record System : Type 0 where
  pub pool : Allocator
  pub owned : ℕ → ℕ
  pub file_pages : ℕ

-- The callback that Pager passes: the file grows at its end, and the allocator is told.
abbrev pub extend_file : ℕ → Allocator → ℕ → Allocator × ℕ
extend_file file_pages a n = (on_file_extended a file_pages n, file_pages)

-- The page count behind an allocation: it grows, and wraps, where the pool has no run.
abbrev pub grown : ℕ → ℕ → Option (Allocator × ℕ) → ℕ
grown file_pages n none = page_id (file_pages + n)
grown file_pages n (some r) = file_pages

unfoldable pub allocate : System → ℕ → System
allocate s k =
    let (pool, start) = allocate_pages s.pool (2 ^ k) (extend_file s.file_pages) in
    record {
      pool = pool;
      owned = λ p. s.owned p + run_cover k start p;
      file_pages = grown s.file_pages (2 ^ k) (take_run s.pool (2 ^ k));
    }

unfoldable pub give_back : System → ℕ → ℕ → System
give_back s start k = record s {
  pool = free_pages s.pool start (2 ^ k);
  owned = λ p. if in_run start (2 ^ k) p then 0 else s.owned p;
}

-- Where the pool has no run, the file stays below 2^32 pages. A client frees a run whose pages each
-- have it as the one owner.
pub data Step : System → System → Type 0 where
  allocates :
      (s : System) (k : ℕ)
      → k ≤ 8
      → (take_run s.pool (2 ^ k) ≡ none → s.file_pages + 2 ^ k < 2 ^ 32)
      → Step s (allocate s k)
  frees :
      (s : System) (start k : ℕ)
      → k ≤ 8
      → ((p : ℕ) → in_run start (2 ^ k) p ≡ true → s.owned p ≡ 1)
      → Step s (give_back s start k)

pub data Reach (s : System) : System → Type 0 where
  here : Reach s s
  next : {t u : System} → Reach s t → Step t u → Reach s u

pub record IsDisjoint (s : System) : Type 0 where
  pub once : (p : ℕ) → cover s.pool.free_buddy p + s.owned p ≤ 1
  pub inside : (p : ℕ) → s.pool.page_count ≤ p → cover s.pool.free_buddy p + s.owned p ≡ 0
  pub header : cover s.pool.free_buddy 0 + s.owned 0 ≡ 0
  pub started : 0 < s.file_pages
  pub counted : s.pool.page_count ≤ s.file_pages
  pub bounded : s.file_pages < 2 ^ 32

-- The class of a power of two is its exponent.
class_for-pow : (k : ℕ) → k ≤ 8 → class_for (2 ^ k) ≡ k
unfolding class_for
class_for-pow zero h = refl
class_for-pow (suc zero) h = refl
class_for-pow (suc (suc zero)) h = refl
class_for-pow (suc (suc (suc zero))) h = refl
class_for-pow (suc (suc (suc (suc zero)))) h = refl
class_for-pow (suc (suc (suc (suc (suc zero))))) h = refl
class_for-pow (suc (suc (suc (suc (suc (suc zero)))))) h = refl
class_for-pow (suc (suc (suc (suc (suc (suc (suc zero))))))) h = refl
class_for-pow (suc (suc (suc (suc (suc (suc (suc (suc zero)))))))) h = refl
class_for-pow (suc (suc (suc (suc (suc (suc (suc (suc (suc k))))))))) h = absurd (omega arith)

page_count-take_run :
    (a b : Allocator) (n start : ℕ) → take_run a n ≡ some (b, start) → b.page_count ≡ a.page_count
unfolding take_run
page_count-take_run a b n start e =
    elim (Option-cases (find_class (max_class + 1 - class_for n) (class_for n) a.free_buddy)) [
      | inl f ↦ absurd (none-ne-some (rw (f, take_run) at e))
      | inr ((k, runs, s), f) ↦ ap (λ x. x.page_count) (sym (some_pair (rw (f, take_run) at e)).0)
    ]

allocate-IsDisjoint :
    (s : System) (k : ℕ)
    → k ≤ 8
    → (take_run s.pool (2 ^ k) ≡ none → s.file_pages + 2 ^ k < 2 ^ 32)
    → IsDisjoint s
    → IsDisjoint (allocate s k)
unfolding allocate allocate_pages on_file_extended
allocate-IsDisjoint s k h fits v = elim (Option-cases (take_run s.pool (2 ^ k))) [
  | inl e ↦
      let f = fits e in
      rw (e, allocate, allocate_pages)
        (record {
          once = λ p. ground (arith, v.once p, v.inside p, v.counted, f);
          inside = λ p q. ground (arith, v.inside p, v.counted, f);
          header = ground (arith, v.header, v.started);
          started = omega (arith, v.started, f);
          counted = ground (arith, v.counted, f);
          bounded = omega (arith, v.bounded, f);
        })
  | inr ((b, start), e) ↦
      let below : BelowLimit s.pool.free_buddy =
        λ p l. omega (arith, v.inside p, v.counted, v.bounded, l) in
      let moved =
        λ (p : ℕ). cover-take_run s.pool b (2 ^ k) start p (rw (class_for-pow k h) h) below e in
      let count = page_count-take_run s.pool b (2 ^ k) start e in
      rw (e, allocate, allocate_pages)
        (record {
          once = λ p.
              omega (arith, v.once p, moved p, ap (λ c. run_cover c start p) (class_for-pow k h));
          inside = λ p q. omega (
            arith,
            v.inside p,
            moved p,
            ap (λ c. run_cover c start p) (class_for-pow k h),
            count,
          );
          header =
              omega (arith, v.header, moved 0, ap (λ c. run_cover c start 0) (class_for-pow k h));
          started = v.started;
          counted = omega (arith, v.counted, count);
          bounded = v.bounded;
        })
]

give_back-IsDisjoint :
    (s : System) (start k : ℕ)
    → k ≤ 8
    → ((p : ℕ) → in_run start (2 ^ k) p ≡ true → s.owned p ≡ 1)
    → IsDisjoint s
    → IsDisjoint (give_back s start k)
unfolding give_back
give_back-IsDisjoint s start k h own v = record {
  once = λ p. ground (
    arith,
    v.once p,
    own p,
    cover-free_pages s.pool start (2 ^ k) p (rw (class_for-pow k h) h),
    ap (λ c. run_cover c start p) (class_for-pow k h),
  );
  inside = λ p q.
      let same : (free_pages s.pool start (2 ^ k)).page_count ≡ s.pool.page_count =
        unfold free_pages in refl in
      ground (
        arith,
        same,
        v.inside p,
        own p,
        cover-free_pages s.pool start (2 ^ k) p (rw (class_for-pow k h) h),
        ap (λ c. run_cover c start p) (class_for-pow k h),
      );
  header = ground (
    arith,
    v.header,
    own 0,
    cover-free_pages s.pool start (2 ^ k) 0 (rw (class_for-pow k h) h),
    ap (λ c. run_cover c start 0) (class_for-pow k h),
  );
  started = v.started;
  counted = unfold free_pages in v.counted;
  bounded = v.bounded;
}

Step-IsDisjoint : {s t : System} → Step s t → IsDisjoint s → IsDisjoint t
Step-IsDisjoint (allocates s k h f) v = allocate-IsDisjoint s k h f v
Step-IsDisjoint (frees s start k h own) v = give_back-IsDisjoint s start k h own v

Reach-IsDisjoint : {s t : System} → IsDisjoint s → Reach s t → IsDisjoint t
Reach-IsDisjoint v here = v
Reach-IsDisjoint v (next r st) = Step-IsDisjoint st (Reach-IsDisjoint v r)

-- A new file: page 0 is the header, which the allocator is not told of.
abbrev pub start_system : System
start_system = record { pool = init; owned = λ p. 0; file_pages = 1 }

-- From a new file, whose page 0 is the header, and the empty allocator, after any allocations of
-- runs of 1, 2, 4, ..., 256 pages and any frees of such runs by their one owner, as long as the
-- file, where it has to grow, stays below 2^32 pages: a page is covered by one free run, or has
-- one owner, or neither; page 0 is never free or owned; and both the free and the owned pages lie
-- below the page count of the allocator, which is at most that of the file.
pub Reach-start_system-IsDisjoint : {s : System} → Reach start_system s → IsDisjoint s
unfolding init cover sum_below class_cover
Reach-start_system-IsDisjoint r =
    Reach-IsDisjoint
      (record {
        once = λ p. omega arith;
        inside = λ p q. omega arith;
        header = omega arith;
        started = omega arith;
        counted = omega arith;
        bounded = omega arith;
      })
      r

-- Freeing a run of 2^k pages, k at most 8, twice puts its pages twice into the pool: every page
-- of the run is then covered by two free runs more than before.
pub free_pages_twice :
    (a : Allocator) (start k p : ℕ)
    → k ≤ 8
    → in_run start (2 ^ k) p ≡ true
    → cover (free_pages (free_pages a start (2 ^ k)) start (2 ^ k)).free_buddy p
      ≡ cover a.free_buddy p + 2
free_pages_twice a start k p h m =
    let c : class_for (2 ^ k) ≤ 8 = rw (class_for-pow k h) h in
    ground (
      arith,
      cover-free_pages a start (2 ^ k) p c,
      cover-free_pages (free_pages a start (2 ^ k)) start (2 ^ k) p c,
      ap (λ c. run_cover c start p) (class_for-pow k h),
    )

-- For n of class 8 at most, freeing n pages also frees those after them up to the next power of
-- two: a page at or after start + n and before start + 2^class gets a free run that covers it,
-- though it was not given.
pub free_pages_overhang :
    (a : Allocator) (start n p : ℕ)
    → class_for n ≤ 8
    → start + n ≤ p
    → p < start + 2 ^ class_for n
    → cover (free_pages a start n).free_buddy p ≡ cover a.free_buddy p + 1
free_pages_overhang a start n p h l u = ground (arith, cover-free_pages a start n p h)
