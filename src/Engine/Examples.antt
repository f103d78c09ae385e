-- ===== src/Engine/Examples.antt =====
-- The loop over an in-memory engine with one row.
use open_db.Lock.Queries.{waiter_table}
use open_db.Deadlock.{detect_cycle}
use mathlib.Core.List.{Perm}
use open_db.Prelude.{
  ℕ, ◌≡◌, refl, inl, inr, true, false, none, some, List, [], ◌∷◌, Str, codes, arith, ◌^◌, ◌-◌,
}
use open_db.Prelude.Dict
use open_db.Prelude.Int.{pos}
use open_db.Prelude.OrderedMap.{upsert}
use open_db.Value.{Value, int64, text, is_null}
use open_db.Value.Order.{compare_values, NotNan}
use open_db.Value.Examples.{sample_doubles, sample_doubles-IsIeee}
use open_db.Tuple
use open_db.Tuple.{Tuple}
use open_db.Predicate.{evaluate_node, test_column, PredicateNode, comparison, equals}
use open_db.Command.{Command, delete, inner, left, JoinClause, OrderBySpec, asc}
use open_db.Txn
use open_db.Txn.{get_state, committed}
use open_db.Lock
use open_db.Lock.{ResourceKey, table_key, is_granted_key}
use open_db.Lock.Consistent.{init-IsConsistent}
use open_db.Memory
use open_db.Memory.{Engine, key_order}
use open_db.Memory.Contract.{memory_engine, memory_engine-ReadsBack}
use open_db.Memory.Writes.{put-IsValid}
use open_db.Memory.Tables.{IsValid}
use open_db.Memory.History.{init-IsValid}
use open_db.Engine.{EngineLoop, Dispatched, presented, blocked, Response, result, rows_ok}
use open_db.Engine.Handlers.{row_keys, update_where, Handled, row_id}
use open_db.Engine.Dispatch.{dispatch, settle}
use open_db.Engine.Select.{filter_rows, passes, window, join_rows, on_matches, merge}
use open_db.Engine.Order.{non_null, order_rows, row_less}
use open_db.Engine.Window.{window_lem}
use open_db.Engine.Sorting.{IsOrdered}
use open_db.Engine.Ordering.{order_rows-IsOrdered}
use open_db.Engine.Joins.{Among, Joined, join_rows_inner}
use open_db.Engine.Lifecycle.{own_txn, get_state-settle, is_granted_key-dispatch}
use open_db.Engine.Answers.{dispatch_always_ok}
use open_db.Engine.Writes.{update_where-get, update_where-get_other}

abbrev users : Str
users = codes "users"

abbrev id : ℕ → Value
id n = int64 (pos n)

abbrev user : ℕ → Str → Tuple
user n name = (row_id, id n) ∷ (codes "name", text name) ∷ []

abbrev start : EngineLoop Engine
start = record { storage = Memory.init; txn_mgr = Txn.init; lock_mgr = Lock.init }

abbrev nobody : Command PredicateNode
nobody = record {
  type = delete;
  table = users;
  filter = some (comparison row_id equals (id 9));
  values = none;
  projections = [];
  order_by = [];
  joins = [];
  limit = none;
  offset = none;
  txn_id = none;
}

abbrev answer : Dispatched Engine → Response
answer (presented l r) = r
answer (blocked l) = result (rows_ok [])

abbrev loop_of : Dispatched Engine → EngineLoop Engine
loop_of (presented l r) = l
loop_of (blocked l) = l

abbrev outcome : Dispatched Engine
outcome = dispatch (memory_engine sample_doubles) sample_doubles start nobody

-- No row matches, and the answer is success.
dispatch_always_ok_example : answer outcome ≡ result (rows_ok [])
unfolding detect_cycle waiter_table Lock.init dispatch Lock.acquire Lock.grantable Dict.find
dispatch_always_ok_example =
    dispatch_always_ok (memory_engine sample_doubles) sample_doubles start nobody
      {l' = loop_of outcome} {r = answer outcome} tt refl refl

is_granted_key-dispatch_example :
    is_granted_key (loop_of outcome).lock_mgr (own_txn start) (table_key users) ≡ false
unfolding dispatch detect_cycle waiter_table Lock.init Lock.acquire Lock.grantable Dict.find
is_granted_key-dispatch_example =
    is_granted_key-dispatch (memory_engine sample_doubles) sample_doubles start nobody
      (loop_of outcome) (answer outcome) (table_key users) refl (init-IsConsistent) refl

abbrev begun : EngineLoop Engine
begun = record start { txn_mgr = (Txn.begin_txn Txn.init).0 }

abbrev done : Handled Engine
done = record { storage = Memory.init; outcome = some (rows_ok []); error = none }

get_state-settle_example :
    get_state (settle (memory_engine sample_doubles) true 1 begun done).loop.txn_mgr 1 ≡ committed
unfolding get_state Dict.find Txn.begin_txn Dict.put Txn.init
get_state-settle_example = get_state-settle (memory_engine sample_doubles) 1 begun done refl tt

abbrev rows : List Tuple
rows = user 2 (codes "bob") ∷ user 1 (codes "ann") ∷ user 3 (codes "eve") ∷ []

window_lem_example : window (some 1) (some 1) rows ≡ user 1 (codes "ann") ∷ []
window_lem_example = window_lem (some 1) (some 1) rows (omega arith)

-- The sum of a limit of -1 and an offset wraps, and the window is empty.
wrapped : window (some 1) (some (2 ^ 64 - 1)) rows ≡ []
unfolding window
wrapped = refl

abbrev by_id : OrderBySpec
by_id = record { column = row_id; direction = asc; nulls_first = none }

order_rows-IsOrdered_example :
    Perm (order_rows sample_doubles (by_id ∷ []) rows) rows
    × IsOrdered (row_less sample_doubles (by_id ∷ [])) (order_rows sample_doubles (by_id ∷ []) rows)
unfolding non_null Tuple.maybe_get Dict.find is_null
order_rows-IsOrdered_example =
    order_rows-IsOrdered sample_doubles by_id [] rows sample_doubles-IsIeee
      ((tt, tt), ((tt, tt), ((tt, tt), tt)))

abbrev on_id : JoinClause
on_id = record { kind = left; table = users; left_column = row_id; right_column = row_id }

abbrev same_id : JoinClause
same_id = record on_id { kind = inner }

join_rows_inner_example :
    ((row : Tuple)
      → Among row (join_rows sample_doubles same_id rows rows)
      → Joined sample_doubles same_id rows rows row)
    × ((l r : Tuple)
        → Among l rows
        → Among r rows
        → on_matches sample_doubles same_id l r ≡ true
        → Among (merge l r) (join_rows sample_doubles same_id rows rows))
join_rows_inner_example = join_rows_inner sample_doubles same_id rows rows refl

abbrev stored : Engine
stored =
    Memory.put sample_doubles
      (Memory.put sample_doubles Memory.init 1 users (id 1) (user 1 (codes "ann"))) 1 users (id 2)
      (user 2 (codes "bob"))

stored-IsValid : IsValid sample_doubles stored
stored-IsValid =
    put-IsValid sample_doubles sample_doubles-IsIeee
      (Memory.put sample_doubles Memory.init 1 users (id 1) (user 1 (codes "ann"))) 1 users (id 2)
      (user 2 (codes "bob")) tt
      (put-IsValid sample_doubles sample_doubles-IsIeee Memory.init 1 users (id 1)
        (user 1 (codes "ann")) tt (init-IsValid sample_doubles))

put_keeps :
    (s : Engine) (txn : ℕ) (table : Str) (key : Value) (row : Tuple)
    → NotNan sample_doubles key
    → IsValid sample_doubles s
    → IsValid sample_doubles ((memory_engine sample_doubles).put s txn table key row).0
put_keeps = put-IsValid sample_doubles sample_doubles-IsIeee

abbrev the_first : PredicateNode
the_first = comparison row_id equals (id 1)

abbrev renamed : Tuple
renamed = (codes "name", text (codes "joe")) ∷ []

update_where-get_example :
    Memory.get sample_doubles
      (update_where
        (memory_engine sample_doubles)
        sample_doubles
        stored
        1
        users
        (some the_first)
        (some renamed)).storage
      1
      users
      (id 1)
    ≡ some (Tuple.set renamed row_id (id 1))
unfolding compare_values row_keys filter_rows Memory.scan Dict.find Memory.put is_null Dict.put
    Memory.init upsert passes evaluate_node test_column Tuple.maybe_get
update_where-get_example =
    update_where-get (memory_engine sample_doubles)
      (memory_engine-ReadsBack sample_doubles sample_doubles-IsIeee) put_keeps
      (λ s txn table key row. refl) sample_doubles stored 1 users the_first renamed (id 1)
      stored-IsValid tt refl (tt, refl, tt) (inl (refl, tt))

update_where-get_other_example :
    Memory.get sample_doubles
      (update_where
        (memory_engine sample_doubles)
        sample_doubles
        stored
        1
        users
        (some the_first)
        (some renamed)).storage
      1
      users
      (id 2)
    ≡ Memory.get sample_doubles stored 1 users (id 2)
unfolding compare_values row_keys filter_rows Memory.scan Dict.find Memory.put is_null Dict.put
    Memory.init upsert passes evaluate_node test_column Tuple.maybe_get
update_where-get_other_example =
    update_where-get_other (memory_engine sample_doubles)
      (memory_engine-ReadsBack sample_doubles sample_doubles-IsIeee) put_keeps sample_doubles stored
      1 1 users users the_first renamed (id 2) stored-IsValid tt (tt, refl, tt) (inr (refl, tt))
