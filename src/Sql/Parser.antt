-- ===== src/Sql/Parser.antt =====
-- src/SqlParser.cpp: the state of the parser and the shape of its functions. A function of the parser
-- reads the state and leaves a state with its answer. `fail` is an empty optional, a null pointer or
-- `false` that a caller checks; `thrown` is an exception of the constructor of Command.
use open_db.Prelude.{ℕ, zero, suc, ◌-◌, Bool, Option, none, some, Str, if◌then◌else◌, length}

-- The characters from pos_ on, the size of input_, and error_.
pub record Parser : Type 0 where
  pub rest : Str
  pub size : ℕ
  pub error : Str

-- pos_
abbrev pub position : Parser → ℕ
position p = p.size - length p.rest

pub data Result (A : Type 0) : Type 0 where
  ok : A → Parser → Result A
  fail : Parser → Result A
  thrown : Str → Result A
  out_of_fuel : Result A

abbrev pub Parse : Type 0 → Type 0
Parse A = Parser → Result A

unfoldable pub pure : {A : Type 0} → A → Parse A
pure a p = ok a p

module _ {A B : Type 0} where
  infixl 1 ◌>>=◌ ◌>>◌
  abbrev pub resume : Result A → (A → Parse B) → Result B
  resume (ok a p) f = f a p
  resume (fail p) f = fail p
  resume (thrown message) f = thrown message
  resume out_of_fuel f = out_of_fuel

  unfoldable pub ◌>>=◌ : Parse A → (A → Parse B) → Parse B
  m >>= f = λ p. resume (m p) f

  unfoldable pub ◌>>◌ : Parse A → Parse B → Parse B
  unfolding ◌>>=◌
  m >> n = m >>= λ _. n

module _ {A : Type 0} where
  -- error_ = message; return std::nullopt;
  unfoldable pub raise : Str → Parse A
  raise message p = fail (record p { error = message })

  abbrev reword : Str → Result A → Result A
  reword message (ok a p) = ok a p
  reword message (fail p) = fail (record p { error = message })
  reword message (thrown m) = thrown m
  reword message out_of_fuel = out_of_fuel

  -- if (!x) { error_ = message; return std::nullopt; }
  unfoldable pub expect : Str → Parse A → Parse A
  expect message m p = reword message (m p)

  abbrev attempted : Result A → Result (Option A)
  attempted (ok a p) = ok (some a) p
  attempted (fail p) = ok none p
  attempted (thrown m) = thrown m
  attempted out_of_fuel = out_of_fuel

  -- The optional itself, for a caller that goes on without a value.
  unfoldable pub attempt : Parse A → Parse (Option A)
  attempt m p = attempted (m p)

  -- if (test) m else n
  unfoldable pub branch : Parse Bool → Parse A → Parse A → Parse A
  unfolding ◌>>=◌
  branch test m n = test >>= λ b. if b then m else n

-- if (!test) { error_ = message; return std::nullopt; }
unfoldable pub require : Str → Parse Bool → Parse (Unit {0})
unfolding branch
require message test = branch test (pure tt) (raise message)

-- A round of a loop goes on with a new state or leaves it with a result.
pub data Round (S A : Type 0) : Type 0 where
  again : S → Round S A
  leave : A → Round S A

module _ {S A : Type 0} where
  abbrev pub next_round : (S → Parse A) → Round S A → Parse A
  next_round next (again s) = next s
  next_round next (leave a) = pure a

  unfoldable pub iterate : ℕ → (S → Parse (Round S A)) → S → Parse A
  iterate zero round s p = out_of_fuel
  iterate (suc fuel) round s p = resume (round s p) (next_round (iterate fuel round))

  -- while (true): a round that goes on has read a character (Sql/Progress.antt), so that one round
  -- more than characters is enough.
  unfoldable pub loop : (S → Parse (Round S A)) → S → Parse A
  unfolding iterate
  loop round s p = iterate (suc (length p.rest)) round s p
