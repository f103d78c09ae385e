-- ===== src/Memory/Examples.antt =====
-- The engine on concrete inputs: transaction 7 has committed a row, transaction 8 has one staged.
use open_db.Memory.Scan.{present, keys, scan-get}
use open_db.Prelude.{map, bytes_Eq}
use open_db.Memory.{scan, rows_at}
use open_db.Prelude.{◌≡◌, refl, none, some, List, [], ◌∷◌, arith, Str, codes, inr}
use open_db.Prelude.Int.{pos}
use open_db.Value.{int64, text, is_null}
use open_db.Value.Order.{compare_values}
use open_db.Value.Examples.{sample_doubles, sample_doubles-IsIeee}
use open_db.Prelude.Dict
use open_db.Prelude.OrderedMap
use open_db.Tuple.{Tuple}
use open_db.Memory.{Engine, init, get, put, commit, abort}
use open_db.Memory.Tables.{IsValid, versions_at}
use open_db.Memory.Isolation.{get-put}
use open_db.Memory.Commit.{get-commit}
use open_db.Memory.Rollback.{rollback}
use open_db.Memory.Writes.{Write, puts, removes, write_all, write}
use open_db.Memory.History.{Call, writes, commits, run, step, run-init-IsValid}

abbrev users : Str
users = codes "users"

abbrev row : Str → Tuple
row name = (codes "name", text name) ∷ []

abbrev history : List Call
history =
    writes 7 (puts users (int64 (pos 1)) (row (codes "ann")))
    ∷ commits 7 1
    ∷ writes 8 (puts users (int64 (pos 2)) (row (codes "bob")))
    ∷ []

abbrev engine : Engine
engine = run sample_doubles init history

engine-IsValid : IsValid sample_doubles engine
engine-IsValid = run-init-IsValid sample_doubles sample_doubles-IsIeee history (tt, (tt, (tt, tt)))

run-init-IsValid_example : IsValid sample_doubles (run sample_doubles init history)
run-init-IsValid_example =
    run-init-IsValid sample_doubles sample_doubles-IsIeee history (tt, (tt, (tt, tt)))

get-put_example :
    get sample_doubles
      (put sample_doubles engine 9 users (int64 (pos 1)) (row (codes "eve")))
      9
      users
      (int64 (pos 1))
    ≡ some (row (codes "eve"))
unfolding is_null compare_values
get-put_example =
    get-put sample_doubles sample_doubles-IsIeee engine 9 9 users users (int64 (pos 1))
      (int64 (pos 1)) (row (codes "eve")) engine-IsValid tt tt refl

get-commit_example :
    get sample_doubles (commit engine 8 2) 9 users (int64 (pos 2))
    ≡ get sample_doubles engine 8 users (int64 (pos 2))
unfolding versions_at OrderedMap.find Dict.find run step write put is_null Dict.put commit
    Dict.filter_map init OrderedMap.upsert compare_values
get-commit_example =
    get-commit sample_doubles sample_doubles-IsIeee engine 8 2 9 users (int64 (pos 2))
      engine-IsValid tt (omega arith) (inr (refl, tt))

abbrev changes : List Write
changes = puts users (int64 (pos 1)) (row (codes "eve")) ∷ removes users (int64 (pos 1)) ∷ []

rollback_example :
    get sample_doubles (abort (write_all sample_doubles 9 engine changes) 9) 9 users (int64 (pos 1))
    ≡ get sample_doubles engine 9 users (int64 (pos 1))
unfolding versions_at OrderedMap.find Dict.find run step write put is_null Dict.put commit
    Dict.filter_map init OrderedMap.upsert compare_values
rollback_example =
    rollback sample_doubles sample_doubles-IsIeee engine 9 9 changes users (int64 (pos 1))
      engine-IsValid (tt, (tt, tt)) tt (refl, tt)

scan-get_example :
    scan engine 9 users
    ≡ present
        (map (get sample_doubles engine 9 users) (keys (rows_at (Dict.find users engine.tables))))
scan-get_example = scan-get sample_doubles sample_doubles-IsIeee engine 9 users engine-IsValid

-- What the engine answers in that state.
read_committed : get sample_doubles engine 9 users (int64 (pos 1)) ≡ some (row (codes "ann"))
unfolding get Dict.find run step write put is_null Dict.put commit Dict.filter_map init
    OrderedMap.find OrderedMap.upsert compare_values
read_committed = refl

read_staged_of_another : get sample_doubles engine 9 users (int64 (pos 2)) ≡ none
unfolding get Dict.find run step write put is_null Dict.put commit Dict.filter_map init
    OrderedMap.find OrderedMap.upsert compare_values
read_staged_of_another = refl
