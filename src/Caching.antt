-- ===== src/Caching.antt =====
-- includes/opendb/storage/CachingStorageEngine.hpp: a cache of the reads of transaction 0 in front of an
-- engine. The mutex of the cache is not held across the inner call; a method is one step here.
pub mod Reads
pub mod Examples
use open_db.Prelude.{
  ℕ, Bool, true, false, Option, none, some, List, [], ◌∷◌, ◌++◌, ◌==◌, if◌then◌else◌, Str, codes,
  bytes_Eq, length,
}
use open_db.Prelude.Dict
use open_db.Prelude.Dict.{Dict}
use open_db.Value.{Value}
use open_db.Value.Render.{to_string}
use open_db.Tuple.{Tuple}
use open_db.Storage.{StorageEngine, DbError, is_sentinel}

pub record Cached (S : Type 0) : Type 0 where
  pub inner : S
  pub cache : Dict Str (Option Tuple)

-- makeKey
pub make_key : (ℕ → Str) → Str → Value → Str
make_key print_double table key = table ++ codes "|->" ++ to_string print_double key

module _ {S : Type 0} where
  pub cache_size : Cached S → ℕ
  cache_size s = length s.cache

  -- An operation of the inner engine alone.
  abbrev pub forward : Cached S → S × DbError → Cached S × DbError
  forward s (inner, result) = (record s { inner = inner }, result)

  module _ (print_double : ℕ → Str) (E : StorageEngine S) where
    -- get, of transaction 0, with the entry that the cache has.
    abbrev pub read_through :
        Cached S → ℕ → Str → Value → Option (Option Tuple) → Cached S × Option Tuple
    read_through s txn table key (some answer) = (s, answer)
    read_through s txn table key none =
        let answer = E.get s.inner txn table key in
        (record s { cache = Dict.put (make_key print_double table key) answer s.cache }, answer)

    pub get : Cached S → ℕ → Str → Value → Cached S × Option Tuple
    get s txn table key =
        if txn == 0
        then read_through s txn table key (Dict.find (make_key print_double table key) s.cache)
        else (s, E.get s.inner txn table key)

    pub invalidate : Cached S → Str → Value → Cached S
    invalidate s table key = record s {
      cache = Dict.erase (make_key print_double table key) s.cache;
    }

    -- What put and remove do after the inner call.
    abbrev pub after_write : Str → Value → Cached S × DbError → Cached S × DbError
    after_write table key (s, result) =
        if is_sentinel result then (invalidate s table key, result) else (s, result)

    pub put : Cached S → ℕ → Str → Value → Tuple → Cached S × DbError
    unfolding invalidate
    put s txn table key row = after_write table key (forward s (E.put s.inner txn table key row))

    pub remove : Cached S → ℕ → Str → Value → Cached S × DbError
    unfolding invalidate
    remove s txn table key = after_write table key (forward s (E.remove s.inner txn table key))

  module _ (E : StorageEngine S) where
    pub scan : Cached S → ℕ → Str → List Tuple
    scan s txn table = E.scan s.inner txn table

    pub prepare : Cached S → ℕ → Cached S × DbError
    prepare s txn = forward s (E.prepare s.inner txn)

    pub commit : Cached S → ℕ → ℕ → Cached S × DbError
    commit s txn seq = forward s (E.commit s.inner txn seq)

    pub commit_alone : Cached S → ℕ → Cached S × DbError
    commit_alone s txn = forward s (E.commit_alone s.inner txn)

    pub abort : Cached S → ℕ → Cached S × DbError
    abort s txn = forward s (E.abort s.inner txn)
