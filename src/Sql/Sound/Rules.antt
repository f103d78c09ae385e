-- ===== src/Sql/Sound/Rules.antt =====
-- A property of each answer of a function of the parser, by the shape of the function.
use open_db.Prelude.{ℕ, zero, suc, Bool, true, false, Str, if◌then◌else◌, length}
use open_db.Sql.Parser.{
  Parser, Result, ok, fail, thrown, out_of_fuel, Parse, pure, resume, ◌>>=◌, ◌>>◌, raise, branch,
  Round, again, leave, next_round, iterate, loop,
}

abbrev pub Ensures : {A : Type 0} → (A → Type 0) → Result A → Type 0
Ensures P (ok a q) = P a
Ensures P (fail q) = Unit
Ensures P (thrown message) = Unit
Ensures P out_of_fuel = Unit

pub record Gives {A : Type 0} (P : A → Type 0) (m : Parse A) : Type 0 where
  pub run : (p : Parser) → Ensures P (m p)

abbrev pub Anything : {A : Type 0} → A → Type 0
Anything a = Unit

abbrev pub InRound : {S A : Type 0} → (S → Type 0) → (A → Type 0) → Round S A → Type 0
InRound I P (again s) = I s
InRound I P (leave a) = P a

resume-Ensures :
    {A B : Type 0} (P : A → Type 0) (Q : B → Type 0) (r : Result A) (f : A → Parse B)
    → Ensures P r
    → ((a : A) → P a → (q : Parser) → Ensures Q (f a q))
    → Ensures Q (resume r f)
resume-Ensures P Q (ok a q) f h k = k a h q
resume-Ensures P Q (fail q) f h k = tt
resume-Ensures P Q (thrown message) f h k = tt
resume-Ensures P Q out_of_fuel f h k = tt

module _ {A B : Type 0} {P : A → Type 0} {Q : B → Type 0} where
  pub >>=-Gives :
      {m : Parse A} {f : A → Parse B}
      → Gives P m
      → ((a : A) → P a → Gives Q (f a))
      → Gives Q (m >>= f)
  unfolding ◌>>=◌
  >>=-Gives {m = m} {f = f} h k = record {
    run = λ p. resume-Ensures P Q (m p) f (h.run p) λ a i q. (k a i).run q;
  }

module _ {A : Type 0} where
  any-Ensures : (r : Result A) → Ensures Anything r
  any-Ensures (ok a q) = tt
  any-Ensures (fail q) = tt
  any-Ensures (thrown message) = tt
  any-Ensures out_of_fuel = tt

  pub any-Gives : (m : Parse A) → Gives Anything m
  any-Gives m = record { run = λ p. any-Ensures (m p) }

module _ {A B : Type 0} {Q : B → Type 0} where
  pub then-Gives : (m : Parse A) {f : A → Parse B} → ((a : A) → Gives Q (f a)) → Gives Q (m >>= f)
  then-Gives m k = >>=-Gives (any-Gives m) λ a _. k a

  pub >>-Gives : (m : Parse A) {n : Parse B} → Gives Q n → Gives Q (m >> n)
  unfolding ◌>>◌
  >>-Gives m k = then-Gives m λ a. k

module _ {A : Type 0} {P : A → Type 0} where
  pub pure-Gives : (a : A) → P a → Gives P (pure a)
  unfolding pure
  pure-Gives a h = record { run = λ p. h }

  pub fail-Gives : Gives P fail
  fail-Gives = record { run = λ p. tt }

  pub raise-Gives : (message : Str) → Gives P (raise message)
  unfolding raise
  raise-Gives message = record { run = λ p. tt }

  pub branch-Gives :
      (test : Parse Bool) {m n : Parse A} → Gives P m → Gives P n → Gives P (branch test m n)
  unfolding branch
  branch-Gives test {m = m} {n = n} hm hn = then-Gives test chosen
    where
      chosen : (b : Bool) → Gives P (if b then m else n)
      chosen true = hm
      chosen false = hn

module _ {S A : Type 0} {I : S → Type 0} {P : A → Type 0} {round : S → Parse (Round S A)}
    (h : (s : S) → I s → Gives (InRound I P) (round s)) where
  next_round-Ensures :
      (next : S → Parse A)
      → ((s : S) → I s → (q : Parser) → Ensures P (next s q))
      → (r : Round S A) → InRound I P r
      → (q : Parser) → Ensures P (next_round next r q)
  unfolding pure
  next_round-Ensures next k (again s) i q = k s i q
  next_round-Ensures next k (leave a) i q = i

  iterate-Ensures : (fuel : ℕ) (s : S) → I s → (p : Parser) → Ensures P (iterate fuel round s p)
  unfolding iterate
  iterate-Ensures zero s i p = tt
  iterate-Ensures (suc fuel) s i p =
      resume-Ensures (InRound I P) P (round s p) _ ((h s i).run p)
        (next_round-Ensures (iterate fuel round) (iterate-Ensures fuel))

  -- The rule for loops: what each round keeps holds at the end.
  pub loop-Gives : (s : S) → I s → Gives P (loop round s)
  unfolding loop
  loop-Gives s i = record { run = λ p. iterate-Ensures (suc (length p.rest)) s i p }
