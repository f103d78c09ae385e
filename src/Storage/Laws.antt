-- ===== src/Storage/Laws.antt =====
-- What a client of a storage engine relies on: a read after a put.
use open_db.Prelude.{ℕ, ◌≡◌, Bool, false, ◌&&◌, some, ◌==◌, Str, bytes_eq, if◌then◌else◌}
use open_db.Value.{Value, is_null}
use open_db.Tuple.{Tuple}
use open_db.Storage.{StorageEngine}

-- `Valid` is the invariant of the engine; `same` tells which keys name one row, and `Key` which keys may be used.
pub record ReadsBack {S : Type 0} (E : StorageEngine S) (Valid : S → Type 0)
    (same : Value → Value → Bool) (Key : Value → Type 0) : Type 0 where
  pub get-put :
      (s : S) (txn t : ℕ) (table other : Str) (key k : Value) (row : Tuple)
      → Valid s
      → Key key
      → Key k
      → is_null key ≡ false
      → E.get (E.put s txn table key row).0 t other k
        ≡ (if (bytes_eq table other && same key k) && txn == t then some row else E.get s t other k)
