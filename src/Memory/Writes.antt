-- ===== src/Memory/Writes.antt =====
-- The writes of one transaction, put and remove, and the invariant of the engine.
use open_db.Prelude.{
  ℕ, ◌≡◌, refl, ◌∙◌, List, [], ◌∷◌, arith, Str, Bool-cases, inl, inr, codes, bytes_Eq,
}
use open_db.Prelude.Dict
use open_db.Value.{Value, is_null}
use open_db.Value.Order.{Doubles, IsIeee, NotNan}
use open_db.Tuple.{Tuple}
use open_db.Tuple
use open_db.Memory.{
  Engine, put, remove, push_version, next_id, auto_key, staged_row, staged_tombstone,
}
use open_db.Memory.Tables.{IsValid, versions_at, push-IsValid}

-- put and remove.
pub data Write : Type 0 where
  puts : Str → Value → Tuple → Write
  removes : Str → Value → Write

module _ (d : Doubles) where
  unfoldable pub write : ℕ → Engine → Write → Engine
  write txn e (puts table key row) = put d e txn table key row
  write txn e (removes table key) = remove d e txn table key

  unfoldable pub write_all : ℕ → Engine → List Write → Engine
  write_all txn e [] = e
  write_all txn e (x ∷ xs) = write_all txn (write txn e x) xs

  -- The key of a write is not NaN.
  abbrev pub KeyOk : Write → Type 0
  KeyOk (puts table key row) = NotNan d key
  KeyOk (removes table key) = NotNan d key

  abbrev pub KeysOk : List Write → Type 0
  KeysOk [] = Unit
  KeysOk (x ∷ xs) = KeyOk x × KeysOk xs

module _ (d : Doubles) (ieee : IsIeee d) where
  pub put-IsValid :
      (e : Engine) (txn : ℕ) (table : Str) (key : Value) (row : Tuple)
      → NotNan d key
      → IsValid d e
      → IsValid d (put d e txn table key row)
  unfolding put versions_at
  put-IsValid e txn table key row p w = elim (Bool-cases (is_null key)) [
    | inl n ↦
        rw (n, put)
          (push-IsValid d ieee (record e { auto_id = Dict.put table (next_id e table) e.auto_id })
            table (auto_key e table)
            (staged_row txn (Tuple.set row (codes "_id") (auto_key e table))) tt (omega arith)
            (record { unique = w.unique; keys = w.keys; sorted = w.sorted; past = w.past }))
    | inr n ↦ rw (n, put) (push-IsValid d ieee e table key (staged_row txn row) p (omega arith) w)
  ]

  pub write-IsValid :
      (e : Engine) (txn : ℕ) (x : Write) → KeyOk d x → IsValid d e → IsValid d (write d txn e x)
  unfolding write remove
  write-IsValid e txn (puts table key row) p w = put-IsValid e txn table key row p w
  write-IsValid e txn (removes table key) p w =
      push-IsValid d ieee e table key (staged_tombstone txn) p (omega arith) w

  pub write_all-IsValid :
      (e : Engine) (txn : ℕ) (xs : List Write)
      → KeysOk d xs
      → IsValid d e
      → IsValid d (write_all d txn e xs)
  unfolding write_all
  write_all-IsValid e txn [] p w = w
  write_all-IsValid e txn (x ∷ xs) p w =
      write_all-IsValid (write d txn e x) txn xs p.1 (write-IsValid e txn x p.0 w)

module _ (d : Doubles) where
  visible_seq-write :
      (e : Engine) (txn : ℕ) (x : Write) → (write d txn e x).visible_seq ≡ e.visible_seq
  unfolding write put remove push_version
  visible_seq-write e txn (puts table key row) = ground arith
  visible_seq-write e txn (removes table key) = refl

  pub visible_seq-write_all :
      (e : Engine) (txn : ℕ) (xs : List Write) → (write_all d txn e xs).visible_seq ≡ e.visible_seq
  unfolding write_all
  visible_seq-write_all e txn [] = refl
  visible_seq-write_all e txn (x ∷ xs) =
      visible_seq-write_all (write d txn e x) txn xs ∙ visible_seq-write e txn x
