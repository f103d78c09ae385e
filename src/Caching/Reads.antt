-- ===== src/Caching/Reads.antt =====
-- CachingStorageEngine::get after put and after commit.
use open_db.Prelude.{ℕ, ◌≡◌, true, Str, bytes_Eq, inl, inr, Option-cases, arith}
use open_db.Prelude.Dict
use open_db.Value.{Value}
use open_db.Tuple.{Tuple}
use open_db.Storage.{StorageEngine, is_sentinel}
use open_db.Caching.{Cached, make_key, get, put, invalidate, commit, read_through, after_write}

module _ {S : Type 0} (print_double : ℕ → Str) (E : StorageEngine S) where
  -- Right after a put that succeeds, a read of the key gives the answer of the inner engine: the
  -- entry that the cache had is gone.
  pub get-put_fresh :
      (s : Cached S) (txn t : ℕ) (table : Str) (key : Value) (row : Tuple)
      → is_sentinel (E.put s.inner txn table key row).1 ≡ true
      → (get print_double E (put print_double E s txn table key row).0 t table key).1
        ≡ E.get (E.put s.inner txn table key row).0 t table key
  unfolding get put invalidate
  get-put_fresh s txn t table key row e =
      rw (e, put, after_write, Dict.find-erase_self, read_through) (ground arith)

  -- Commit does not touch the cache: once transaction 0 has read a key, it reads there after a
  -- commit what it read before, whatever the commit has made visible in the inner engine.
  pub get-commit_stale :
      (s : Cached S) (txn seq : ℕ) (table : Str) (key : Value)
      → (get print_double E (commit E (get print_double E s 0 table key).0 txn seq).0 0 table key).1
        ≡ (get print_double E s 0 table key).1
  unfolding get commit
  get-commit_stale s txn seq table key =
      elim (Option-cases (Dict.find (make_key print_double table key) s.cache)) [
        | inl n ↦ rw (n, read_through, Dict.find-put_self)
        | inr (answer, h) ↦ rw (h, read_through, h)
      ]
