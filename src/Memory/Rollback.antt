-- ===== src/Memory/Rollback.antt =====
-- InMemoryStorageEngine::get after abort.
use open_db.Prelude.{
  ℕ, ◌≡◌, refl, true, false, Option, none, some, List, [], ◌∷◌, arith, ◌==◌, bind, ap, Str, codes,
  bytes_Eq, Bool-cases, Option-cases, inl, inr, sym, ◌∙◌,
}
use open_db.Prelude.Dict
use open_db.Prelude.Dict.{Dict, Unique, find-put, put-Unique, filter_map-Unique}
use open_db.Prelude.SortedMap.{AllKeys-upsert, upsert-Sorted, AllKeys-filter_map, filter_map-Sorted}
use open_db.Prelude.SortedMap
use open_db.Value.{Value, is_null}
use open_db.Value.Order.{Doubles, IsIeee, NotNan, compare_values-IsPreorder}
use open_db.Tuple.{Tuple}
use open_db.Tuple
use open_db.Memory.{
  Version, Rows, Engine, rows_at, versions_or_none, read_row, key_order, get, put, remove,
  push_version, auto_key, next_id, staged_row, staged_tombstone, abort, abort_rows, unstaged,
  is_staged, some_unless_empty,
}
use open_db.Memory.Versions.{
  Clean, read_row-unstaged, Past-unstaged, unstaged-append, unstaged-Clean,
}
use open_db.Memory.Writes.{
  Write, puts, removes, write, write_all, KeyOk, KeysOk, write-IsValid, write_all-IsValid,
  visible_seq-write_all,
}
use mathlib.Core.Path.{ap₂}
use open_db.Memory.Tables.{versions_at, get-versions_at, IsValid, versions_at-push}

chain-unstaged :
    (txn : ℕ) (o : Option (List Version))
    → versions_or_none (bind o (λ vs. some_unless_empty (unstaged txn vs)))
      ≡ unstaged txn (versions_or_none o)
unfolding unstaged
chain-unstaged txn none = refl
chain-unstaged txn (some vs) = unless_empty (unstaged txn vs)
  where
    unless_empty : (xs : List Version) → versions_or_none (some_unless_empty xs) ≡ xs
    unless_empty [] = refl
    unless_empty (x ∷ xs) = refl

rows-unless_empty : (rows : Rows) → rows_at (some_unless_empty rows) ≡ rows
rows-unless_empty [] = refl
rows-unless_empty (r ∷ rows) = refl

module _ (d : Doubles) (ieee : IsIeee d) where
  rows_at-abort :
      (e : Engine) (txn : ℕ) (table : Str)
      → IsValid d e
      → rows_at (Dict.find table (abort e txn).tables)
        ≡ abort_rows txn (rows_at (Dict.find table e.tables))
  unfolding abort
  rows_at-abort e txn table w =
      rw
        (Dict.find-filter_map (λ rows. some_unless_empty (abort_rows txn rows)) table e.tables
          w.unique)
        (elim (Option-cases (Dict.find table e.tables)) [
          | inl n ↦ rw n (unfold abort_rows Dict.filter_map in refl)
          | inr (rows, s) ↦ rw s (rows-unless_empty (abort_rows txn rows))
        ])

  versions_at-abort :
      (e : Engine) (txn : ℕ) (table : Str) (key : Value)
      → IsValid d e
      → NotNan d key
      → versions_at d (abort e txn) table key ≡ unstaged txn (versions_at d e table key)
  unfolding versions_at abort_rows
  versions_at-abort e txn table key w p = rw (rows_at-abort e txn table w) (
      ap versions_or_none (
        SortedMap.find-filter_map (compare_values-IsPreorder d ieee)
          (λ vs. some_unless_empty (unstaged txn vs)) key (rows_at (Dict.find table e.tables)) p
          (w.keys table) (w.sorted table))
      ∙ chain-unstaged txn _)

  pub abort-IsValid : (e : Engine) (txn : ℕ) → IsValid d e → IsValid d (abort e txn)
  unfolding abort abort_rows
  abort-IsValid e txn w = record {
    unique = filter_map-Unique _ e.tables w.unique;
    keys = λ table.
        rw (rows_at-abort e txn table w)
          (AllKeys-filter_map (key_order d) _ (NotNan d) _ (w.keys table));
    sorted = λ table.
        rw (rows_at-abort e txn table w) (filter_map-Sorted (key_order d) _ _ (w.sorted table));
    past = λ table key p.
        rw (versions_at-abort e txn table key w p)
          (Past-unstaged e.visible_seq txn (versions_at d e table key) (w.past table key p));
  }

  -- In a valid engine, for a key that is not NaN: every other transaction reads after an abort
  -- what it read before.
  pub get-abort :
      (e : Engine) (txn t : ℕ) (table : Str) (key : Value)
      → IsValid d e
      → NotNan d key
      → (txn == t) ≡ false
      → get d (abort e txn) t table key ≡ get d e t table key
  unfolding abort
  get-abort e txn t table key w p n =
      rw (get-versions_at, get-versions_at, versions_at-abort e txn table key w p)
        (read_row-unstaged e.visible_seq txn t (versions_at d e table key) n)

  unstaged-push :
      (e : Engine) (txn : ℕ) (table other : Str) (key k : Value) (v : Version)
      → IsValid d e
      → NotNan d key
      → NotNan d k
      → is_staged txn v ≡ true
      → unstaged txn (versions_at d (push_version d e table key v) other k)
        ≡ unstaged txn (versions_at d e other k)
  unstaged-push e txn table other key k v w p q s =
      rw (versions_at-push d ieee e table other key k v w p q)
        (ground (arith, unstaged-append txn (versions_at d e other k) v s))

  unstaged-write :
      (e : Engine) (txn : ℕ) (x : Write) (other : Str) (k : Value)
      → IsValid d e
      → KeyOk d x
      → NotNan d k
      → unstaged txn (versions_at d (write d txn e x) other k)
        ≡ unstaged txn (versions_at d e other k)
  unfolding write put remove versions_at
  unstaged-write e txn (puts table key row) other k w p q = elim (Bool-cases (is_null key)) [
    | inl n ↦
        rw (n, put)
          (unstaged-push (record e { auto_id = Dict.put table (next_id e table) e.auto_id }) txn
            table other (auto_key e table) k
            (staged_row txn (Tuple.set row (codes "_id") (auto_key e table)))
            (record { unique = w.unique; keys = w.keys; sorted = w.sorted; past = w.past }) tt q
            (ground arith))
    | inr n ↦
        rw (n, put)
          (unstaged-push e txn table other key k (staged_row txn row) w p q (ground arith))
  ]
  unstaged-write e txn (removes table key) other k w p q =
      unstaged-push e txn table other key k (staged_tombstone txn) w p q (ground arith)

  unstaged-write_all :
      (e : Engine) (txn : ℕ) (xs : List Write) (other : Str) (k : Value)
      → IsValid d e
      → KeysOk d xs
      → NotNan d k
      → unstaged txn (versions_at d (write_all d txn e xs) other k)
        ≡ unstaged txn (versions_at d e other k)
  unfolding write_all
  unstaged-write_all e txn [] other k w p q = refl
  unstaged-write_all e txn (x ∷ xs) other k w p q =
      unstaged-write_all (write d txn e x) txn xs other k (write-IsValid d ieee e txn x p.0 w) p.1 q
      ∙ unstaged-write e txn x other k w p.0 q

  -- In a valid engine, for keys that are not NaN: a transaction that has nothing staged under a
  -- key makes any writes and aborts; every transaction then reads there what it read before the
  -- writes.
  pub rollback :
      (e : Engine) (txn t : ℕ) (xs : List Write) (table : Str) (key : Value)
      → IsValid d e
      → KeysOk d xs
      → NotNan d key
      → Clean txn (versions_at d e table key)
      → get d (abort (write_all d txn e xs) txn) t table key ≡ get d e t table key
  unfolding abort
  rollback e txn t xs table key w p q c =
      let written = write_all d txn e xs in
      get-versions_at d (abort written txn) t table key
      ∙ ap₂ (λ seq vs. read_row seq t vs) (visible_seq-write_all d e txn xs)
          (versions_at-abort written txn table key (write_all-IsValid d ieee e txn xs p w) q
            ∙ unstaged-write_all e txn xs table key w p q
            ∙ unstaged-Clean txn (versions_at d e table key) c)
      ∙ sym (get-versions_at d e t table key)
