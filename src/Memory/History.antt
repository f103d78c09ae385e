-- ===== src/Memory/History.antt =====
-- Histories of the engine: the calls of InMemoryStorageEngine that change its state, made by any
-- transactions in any order.
use open_db.Prelude.{ℕ, List, [], ◌∷◌}
use open_db.Prelude.Dict
use open_db.Prelude.OrderedMap
use open_db.Value.Order.{Doubles, IsIeee}
use open_db.Memory.{Engine, init, commit, next_seq, commit_alone, abort}
use open_db.Memory.Tables.{IsValid, versions_at}
use open_db.Memory.Writes.{Write, write, KeyOk, write-IsValid}
use open_db.Memory.Commit.{commit-IsValid}
use open_db.Memory.Rollback.{abort-IsValid}

pub data Call : Type 0 where
  writes : ℕ → Write → Call
  commits : ℕ → ℕ → Call
  commits_alone aborts : ℕ → Call
  -- the first step of a commit(txn); its second one is `commits`
  counts : Call

module _ (d : Doubles) where
  unfoldable pub step : Engine → Call → Engine
  step e (writes txn x) = write d txn e x
  step e (commits txn seq) = commit e txn seq
  step e (commits_alone txn) = commit_alone e txn
  step e (aborts txn) = abort e txn
  step e counts = next_seq e

  unfoldable pub run : Engine → List Call → Engine
  run e [] = e
  run e (c ∷ cs) = run (step e c) cs

  -- No write has a key that is NaN.
  abbrev pub CallOk : Call → Type 0
  CallOk (writes txn x) = KeyOk d x
  CallOk (commits txn seq) = Unit
  CallOk (commits_alone txn) = Unit
  CallOk (aborts txn) = Unit
  CallOk counts = Unit

  abbrev pub CallsOk : List Call → Type 0
  CallsOk [] = Unit
  CallsOk (c ∷ cs) = CallOk c × CallsOk cs

  pub init-IsValid : IsValid d init
  unfolding init versions_at OrderedMap.find Dict.find
  init-IsValid = record {
    unique = tt;
    keys = λ table. tt;
    sorted = λ table. tt;
    past = λ table key p. tt;
  }

module _ (d : Doubles) (ieee : IsIeee d) where
  step-IsValid : (e : Engine) (c : Call) → CallOk d c → IsValid d e → IsValid d (step d e c)
  unfolding step commit_alone versions_at
  step-IsValid e (writes txn x) p w = write-IsValid d ieee e txn x p w
  step-IsValid e (commits txn seq) p w = commit-IsValid d ieee e txn seq w
  step-IsValid e (commits_alone txn) p w =
      commit-IsValid d ieee _ txn _
        (record { unique = w.unique; keys = w.keys; sorted = w.sorted; past = w.past })
  step-IsValid e (aborts txn) p w = abort-IsValid d ieee e txn w
  step-IsValid e counts p w = record {
    unique = w.unique;
    keys = w.keys;
    sorted = w.sorted;
    past = w.past;
  }

  pub run-IsValid :
      (e : Engine) (cs : List Call) → CallsOk d cs → IsValid d e → IsValid d (run d e cs)
  unfolding run
  run-IsValid e [] p w = w
  run-IsValid e (c ∷ cs) p w = run-IsValid (step d e c) cs p.1 (step-IsValid e c p.0 w)

  -- After any writes, commits and aborts of any transactions on a new engine, in which no key is
  -- NaN: every table stands once, its rows stand in the order of their keys, none of them NaN,
  -- and no version carries a commit sequence above the one that readers see.
  pub run-init-IsValid : (cs : List Call) → CallsOk d cs → IsValid d (run d init cs)
  run-init-IsValid cs p = run-IsValid init cs p (init-IsValid d)
