-- ===== src/Memory/Contract.antt =====
-- InMemoryStorageEngine as an IStorageEngine. All its operations report success.
use open_db.Prelude.OrderedMap.{is_eq}
use open_db.Value.Order.{Doubles, IsIeee, NotNan}
use open_db.Storage.{StorageEngine, sentinel}
use open_db.Storage.Laws.{ReadsBack}
use open_db.Memory.{Engine, get, put, remove, scan, commit, commit_alone, abort, key_order}
use open_db.Memory.Tables.{IsValid}
use open_db.Memory.Isolation.{get-put}

abbrev pub memory_engine : Doubles → StorageEngine Engine
memory_engine d = record {
  get = get d;
  put = λ e txn table key row. (put d e txn table key row, sentinel);
  remove = λ e txn table key. (remove d e txn table key, sentinel);
  scan = scan;
  prepare = λ e txn. (e, sentinel);
  commit = λ e txn seq. (commit e txn seq, sentinel);
  commit_alone = λ e txn. (commit_alone e txn, sentinel);
  abort = λ e txn. (abort e txn, sentinel);
}

-- The in-memory engine reads back what was put, where keys that compare equal name one row.
pub memory_engine-ReadsBack :
    (d : Doubles)
    → IsIeee d
    → ReadsBack (memory_engine d) (IsValid d) (λ key k. is_eq (key_order d key k)) (NotNan d)
memory_engine-ReadsBack d ieee = record { get-put = get-put d ieee }
