-- ===== src/Caching/Examples.antt =====
-- A cache in front of an in-memory engine in which transaction 7 has committed one row.
use open_db.Prelude.{ℕ, ◌≡◌, [], ◌∷◌, Str, codes}
use open_db.Prelude.Int.{pos}
use open_db.Value.{int64, text}
use open_db.Value.Examples.{sample_doubles}
use open_db.Tuple.{Tuple}
use open_db.Memory.{Engine}
use open_db.Memory
use open_db.Memory.Contract.{memory_engine}
use open_db.Caching.{Cached, get, put, commit}
use open_db.Caching.Reads.{get-commit_stale}

abbrev print_double : ℕ → Str
print_double bits = []

abbrev new : Cached Engine
new = record { inner = Memory.init; cache = [] }

abbrev row : Tuple
row = (codes "name", text (codes "ann")) ∷ []

abbrev staged : Cached Engine
staged = (put print_double (memory_engine sample_doubles) new 7 (codes "t") (int64 (pos 1)) row).0

-- The read of transaction 0 before the commit of the row finds none, and so does the read after it.
get-commit_stale_example :
    (get print_double
      (memory_engine sample_doubles)
      (commit
        (memory_engine sample_doubles)
        (get print_double (memory_engine sample_doubles) staged 0 (codes "t") (int64 (pos 1))).0
        7
        1).0
      0
      (codes "t")
      (int64 (pos 1))).1
    ≡ (get print_double (memory_engine sample_doubles) staged 0 (codes "t") (int64 (pos 1))).1
get-commit_stale_example =
    get-commit_stale print_double (memory_engine sample_doubles) staged 7 1 (codes "t")
      (int64 (pos 1))
