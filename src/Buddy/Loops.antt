-- ===== src/Buddy/Loops.antt =====
-- The loop of BuddyPageAllocator::classFor and the bound on its rounds.
use native.Mathlib.Nat.{two-pow-succ}
use open_db.Prelude.{
  ℕ, zero, suc, ◌+◌, ◌-◌, ◌^◌, ◌≤◌, ◌<◌, ◌≡◌, refl, ◌⊎◌, inl, inr, true, arith, ltb, Bool-cases,
  ltb→lt,
}
use open_db.Buddy.{class_loop, class_for}

lt-two_pow : (k : ℕ) → k < 2 ^ k
lt-two_pow zero = omega arith
lt-two_pow (suc k) = omega (arith, two-pow-succ k, lt-two_pow k)

class_loop_fits : (fuel k n : ℕ) → n ≤ fuel + k → n ≤ 2 ^ class_loop fuel k n
unfolding class_loop
class_loop_fits zero k n h = omega (arith, lt-two_pow k)
class_loop_fits (suc fuel) k n h = ground (arith, class_loop_fits fuel (k + 1) n)

class_loop_least :
    (fuel k n : ℕ)
    → (k ≡ 0) ⊎ (2 ^ (k - 1) < n)
    → (class_loop fuel k n ≡ 0) ⊎ (2 ^ (class_loop fuel k n - 1) < n)
unfolding class_loop
class_loop_least zero k n h = h
class_loop_least (suc fuel) k n h = elim (Bool-cases (ltb (2 ^ k) n)) [
  | inl e ↦ rw e (class_loop_least fuel (k + 1) n (inr (less e)))
  | inr e ↦ rw e h
]
  where
    less : ltb (2 ^ k) n ≡ true → 2 ^ (k + 1 - 1) < n
    less e = let same : k + 1 - 1 ≡ k = omega arith in rw same (ltb→lt _ n e)

-- classFor(n) is the least class whose runs hold n pages.
pub class_for_lem :
    (n : ℕ) → (n ≤ 2 ^ class_for n) × ((class_for n ≡ 0) ⊎ (2 ^ (class_for n - 1) < n))
unfolding class_for
class_for_lem n = (class_loop_fits n 0 n (omega arith), class_loop_least n 0 n (inl refl))
