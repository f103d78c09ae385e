-- ===== src/Sql/Progress.antt =====
-- How many characters a function of the parser reads at least: the account from which the loops end.
pub mod Tokens
pub mod Literals
pub mod Where
pub mod Ddl
pub mod Dml
pub mod Select
pub mod Statement
use open_db.Prelude.{
  ℕ, zero, suc, ◌+◌, ◌≤◌, ◌<◌, ◌≡◌, refl, Bool, true, false, Option, none, some, List, Str, arith,
  if◌then◌else◌, length, Option-cases,
}
use open_db.Sql.Parser.{
  Parser, Result, ok, fail, thrown, out_of_fuel, Parse, pure, resume, ◌>>=◌, ◌>>◌, raise, expect,
  attempt, branch, require, Round, again, leave, iterate, loop, next_round,
}

-- The run has not run out of fuel, and of `n` characters at most those are left that the weight of
-- its answer does not count as read.
abbrev pub Within : {A : Type 0} → (A → ℕ) → ℕ → Result A → Type 0
Within w n (ok a q) = w a + length q.rest ≤ n
Within w n (fail q) = length q.rest ≤ n
Within w n (thrown message) = Unit
Within w n out_of_fuel = ⊥

-- With `g` characters read before, the answer's weight is covered by what has been read.
pub record Spends {A : Type 0} (g : ℕ) (w : A → ℕ) (m : Parse A) : Type 0 where
  pub run : (p : Parser) → Within w (g + length p.rest) (m p)

abbrev pub nothing : {A : Type 0} → A → ℕ
nothing a = 0

abbrev pub flag : Bool → ℕ
flag true = 1
flag false = 0

abbrev pub one : {A : Type 0} → A → ℕ
one a = 1

abbrev pub if_some : {A : Type 0} → Option A → ℕ
if_some none = 0
if_some (some a) = 1

abbrev pub round_weight : {S A : Type 0} → (A → ℕ) → Round S A → ℕ
round_weight w (again s) = 1
round_weight w (leave a) = w a

pub Within-le :
    {A : Type 0} (w : A → ℕ) {n k : ℕ} (r : Result A) → n ≤ k → Within w n r → Within w k r
Within-le w r l h = ground arith

resume-Within :
    {A B : Type 0} (v : A → ℕ) (w : B → ℕ) {n k : ℕ} (r : Result A) (f : A → Parse B)
    → Within v n r
    → n ≤ k
    → ((a : A) (q : Parser) → v a + length q.rest ≤ n → Within w k (f a q))
    → Within w k (resume r f)
resume-Within v w (ok a q) f h l k = k a q h
resume-Within v w (fail q) f h l k = omega arith
resume-Within v w (thrown message) f h l k = tt
resume-Within v w out_of_fuel f h l k = absurd h

module _ {A B : Type 0} {v : A → ℕ} {w : B → ℕ} {g : ℕ} where
  pub >>=-Spends :
      {m : Parse A} {f : A → Parse B}
      → Spends 0 v m
      → ((a : A) → Spends (g + v a) w (f a))
      → Spends g w (m >>= f)
  unfolding ◌>>=◌
  >>=-Spends {m = m} {f = f} h k = record {
    run = λ p.
        resume-Within v w (m p) f (h.run p) (omega arith)
          (λ a q l. Within-le w (f a q) (omega arith) ((k a).run q));
  }

module _ {A : Type 0} {w : A → ℕ} {g : ℕ} where
  pub pure-Spends : (a : A) → w a ≤ g → Spends g w (pure a)
  unfolding pure
  pure-Spends a h = record { run = λ p. omega arith }

  pub fail-Spends : Spends g w fail
  fail-Spends = record { run = λ p. omega arith }

  pub raise-Spends : (message : Str) → Spends g w (raise message)
  unfolding raise
  raise-Spends message = record { run = λ p. omega arith }

  pub expect-Spends : (message : Str) {m : Parse A} → Spends g w m → Spends g w (expect message m)
  unfolding expect
  expect-Spends message {m} h = record { run = λ p. ground (arith, h.run p) }

  pub branch-Spends :
      {test : Parse Bool} {m n : Parse A}
      → Spends 0 flag test
      → Spends (suc g) w m
      → Spends g w n
      → Spends g w (branch test m n)
  unfolding branch
  branch-Spends {test} {m} {n} t hm hn = >>=-Spends t λ b. chosen b
    where
      chosen : (b : Bool) → Spends (g + flag b) w (if b then m else n)
      chosen true = record { run = λ p. Within-le w (m p) (omega arith) (hm.run p) }
      chosen false = record { run = λ p. Within-le w (n p) (omega arith) (hn.run p) }

module _ {A : Type 0} where
  pub attempt-Spends : {m : Parse A} → Spends 0 one m → Spends 0 if_some (attempt m)
  unfolding attempt
  attempt-Spends {m} h = record { run = λ p. ground (arith, h.run p) }

  pub attempt-Spends-nothing : {m : Parse A} → Spends 0 nothing m → Spends 0 nothing (attempt m)
  unfolding attempt
  attempt-Spends-nothing {m} h = record { run = λ p. ground (arith, h.run p) }

  -- A part that reads something counts as one that may read nothing, and what was read before
  -- can be kept for later.
  pub Spends-nothing :
      {w : A → ℕ} {g k : ℕ} {m : Parse A} → Spends k w m → k ≤ g → Spends g nothing m
  Spends-nothing {m} h l = record { run = λ p. ground (arith, h.run p) }

  pub Spends-one : {w : A → ℕ} {g : ℕ} {m : Parse A} → Spends 0 w m → Spends (suc g) one m
  Spends-one {m} h = record { run = λ p. ground (arith, h.run p) }

pub require-Spends :
    (message : Str) {test : Parse Bool} → Spends 0 flag test → Spends 0 one (require message test)
unfolding require
require-Spends message t = branch-Spends t (pure-Spends tt (omega arith)) (raise-Spends message)

next_round-Within :
    {S A : Type 0} (w : A → ℕ) {n : ℕ} (next : S → Parse A)
    → ((s : S) (q : Parser) → suc (length q.rest) ≤ n → Within w (length q.rest) (next s q))
    → (r : Round S A) (q : Parser) → round_weight w r + length q.rest ≤ n
    → Within w n (next_round next r q)
unfolding pure
next_round-Within w next ih (again s) q l = Within-le w _ (omega arith) (ih s q (omega arith))
next_round-Within w next ih (leave a) q l = l

module _ {S A : Type 0} {w : A → ℕ} {round : S → Parse (Round S A)}
    (h : (s : S) → Spends 0 (round_weight w) (round s)) where
  iterate-Within :
      (fuel : ℕ) (s : S) (p : Parser)
      → length p.rest < fuel
      → Within w (length p.rest) (iterate fuel round s p)
  unfolding iterate pure
  iterate-Within zero s p l = absurd (omega arith)
  iterate-Within (suc fuel) s p l =
      resume-Within (round_weight w) w (round s p) _
        (Within-le (round_weight w) (round s p) (omega arith) ((h s).run p)) (omega arith)
        (next_round-Within w (iterate fuel round) λ s' q l'. iterate-Within fuel s' q (omega arith))

  pub loop-Spends : (s : S) → Spends 0 w (loop round s)
  unfolding loop
  loop-Spends s = record {
    run = λ p. Within-le w _ (omega arith) (iterate-Within (suc (length p.rest)) s p (omega arith));
  }

pub Spends-le :
    {A : Type 0} {w : A → ℕ} {g k : ℕ} {m : Parse A} → Spends k w m → k ≤ g → Spends g w m
Spends-le {w = w} {m = m} h l = record { run = λ p. Within-le w (m p) (omega arith) (h.run p) }

-- The rules that leave nothing to choose.
pub ruleset spends = (arith, pure-Spends, raise-Spends, branch-Spends)

pub >>-Spends :
    {A B : Type 0} {v : A → ℕ} {w : B → ℕ} {g : ℕ} {m : Parse A} {n : Parse B}
    → Spends 0 v m
    → Spends g w n
    → Spends g w (m >> n)
unfolding ◌>>◌
>>-Spends {w = w} {n = n} h k =
    >>=-Spends h λ a. record { run = λ p. Within-le w (n p) (omega arith) (k.run p) }
