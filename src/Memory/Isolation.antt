-- ===== src/Memory/Isolation.antt =====
-- InMemoryStorageEngine::get after put and remove, by the transaction that wrote and by others.
use open_db.Prelude.{
  ℕ, ◌≡◌, refl, false, ◌&&◌, none, some, arith, ◌==◌, if◌then◌else◌, Str, codes, bytes_eq, bytes_Eq,
}
use open_db.Prelude.Dict
use open_db.Prelude.Dict.{Dict, Unique, find-put, put-Unique, filter_map-Unique}
use open_db.Prelude.OrderedMap.{is_eq}
use open_db.Value.{Value, null, is_null}
use open_db.Value.Order.{Doubles, IsIeee, NotNan}
use open_db.Tuple.{Tuple}
use open_db.Tuple
use open_db.Memory.{
  Version, Engine, key_order, get, put, remove, push_version, auto_key, next_id, staged_row,
  staged_tombstone, row_of,
}
use open_db.Memory.Versions.{read_row-append}
use open_db.Memory.Tables.{versions_at, get-versions_at, IsValid, versions_at-push}

module _ (d : Doubles) (ieee : IsIeee d) where
  get-push :
      (e : Engine) (txn t : ℕ) (table other : Str) (key k : Value) (v : Version)
      → IsValid d e
      → NotNan d key
      → NotNan d k
      → v.commit_seq ≡ 0
      → v.txn_id ≡ txn
      → get d (push_version d e table key v) t other k ≡ (
          if (bytes_eq table other && is_eq (key_order d key k)) && txn == t
          then row_of v
          else get d e t other k)
  unfolding push_version
  get-push e txn t table other key k v w p q z o =
      rw (get-versions_at, get-versions_at, versions_at-push d ieee e table other key k v w p q)
        (ground (arith, read_row-append e.visible_seq txn t (versions_at d e other k) v z o))

  -- In a valid engine, for keys that are not NaN: after put of a key that is not null, its
  -- transaction reads the row under every key that compares equal; every other read, of this or
  -- any other transaction, is as it was.
  pub get-put :
      (e : Engine) (txn t : ℕ) (table other : Str) (key k : Value) (row : Tuple)
      → IsValid d e
      → NotNan d key
      → NotNan d k
      → is_null key ≡ false
      → get d (put d e txn table key row) t other k ≡ (
          if (bytes_eq table other && is_eq (key_order d key k)) && txn == t
          then some row
          else get d e t other k)
  unfolding put
  get-put e txn t table other key k row w p q n =
      rw n (get-push e txn t table other key k (staged_row txn row) w p q refl refl)

  -- In a valid engine, for a key that is not NaN: after put of a null key, its transaction reads
  -- the row with its `_id` set under the next number of the table's counter, and under every key
  -- that compares equal to it; every other read is as it was.
  pub get-put_auto :
      (e : Engine) (txn t : ℕ) (table other : Str) (k : Value) (row : Tuple)
      → IsValid d e
      → NotNan d k
      → get d (put d e txn table null row) t other k ≡ (
          if (bytes_eq table other && is_eq (key_order d (auto_key e table) k)) && txn == t
          then some (Tuple.set row (codes "_id") (auto_key e table))
          else get d e t other k)
  unfolding put is_null get versions_at
  get-put_auto e txn t table other k row w q =
      get-push (record e { auto_id = Dict.put table (next_id e table) e.auto_id }) txn t table other
        (auto_key e table) k (staged_row txn (Tuple.set row (codes "_id") (auto_key e table)))
        (record { unique = w.unique; keys = w.keys; sorted = w.sorted; past = w.past }) tt q refl
        refl

  -- In a valid engine, for keys that are not NaN: after remove, its transaction reads nothing
  -- under every key that compares equal; every other read, of this or any other transaction, is
  -- as it was.
  pub get-remove :
      (e : Engine) (txn t : ℕ) (table other : Str) (key k : Value)
      → IsValid d e
      → NotNan d key
      → NotNan d k
      → get d (remove d e txn table key) t other k ≡ (
          if (bytes_eq table other && is_eq (key_order d key k)) && txn == t
          then none
          else get d e t other k)
  unfolding remove
  get-remove e txn t table other key k w p q =
      get-push e txn t table other key k (staged_tombstone txn) w p q refl refl
