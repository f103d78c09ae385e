-- ===== src/Sharded/Examples.antt =====
-- Two in-memory engines as shards.
use open_db.Value.Bytes.{le_bytes, to_bytes}
use open_db.Value.Equality.{value_eq}
use open_db.Prelude.{ℕ, zero, suc, ◌≡◌, refl, some, [], ◌∷◌, get_elem?, arith, Str, codes}
use open_db.Prelude.Int.{pos}
use open_db.Prelude.OrderedMap.{is_eq}
use open_db.Value.{is_null, int64, text}
use open_db.Value.Order.{compare_values, NotNan}
use open_db.Value.Examples.{sample_doubles, sample_doubles-IsIeee}
use open_db.Tuple.{maybe_get, Tuple}
use open_db.Prelude.Dict
use open_db.Memory.{Engine, key_order}
use open_db.Memory
use open_db.Memory.Tables.{IsValid}
use open_db.Memory.History.{init-IsValid}
use open_db.Memory.Contract.{memory_engine, memory_engine-ReadsBack}
use open_db.Sharded.{
  hash_shard, list_shard, member, Sharded, list, route_by_key, route_by_policy, policy_for, get,
  put,
}
use open_db.Sharded.Routing.{get-put_sharded, get-put_missed}

abbrev table : Str
table = codes "t"

abbrev row : Tuple
row = (codes "city", text (codes "rome")) ∷ []

abbrev shards : Sharded Engine
shards = record { children = Memory.init ∷ Memory.init ∷ []; policies = [] }

shards-IsValid :
    (i : ℕ) (child : Engine)
    → get_elem? shards.children i ≡ some child
    → IsValid sample_doubles child
shards-IsValid zero child e = rw (some_child e) (init-IsValid sample_doubles)
  where
    some_child : {a b : Engine} → some a ≡ some b → b ≡ a
    some_child f = ground arith
shards-IsValid (suc zero) child e = rw (some_child e) (init-IsValid sample_doubles)
  where
    some_child : {a b : Engine} → some a ≡ some b → b ≡ a
    some_child f = ground arith
shards-IsValid (suc (suc i)) child e = cc

get-put_sharded_example :
    get sample_doubles
      (memory_engine sample_doubles)
      (put sample_doubles (memory_engine sample_doubles) shards 7 table (int64 (pos 1)) row).0
      7
      table
      (int64 (pos 1))
    ≡ some row
unfolding is_null route_by_policy policy_for Dict.find compare_values
get-put_sharded_example =
    get-put_sharded sample_doubles (memory_engine sample_doubles) (IsValid sample_doubles)
      (λ key k. is_eq (key_order sample_doubles key k)) (NotNan sample_doubles)
      (memory_engine-ReadsBack sample_doubles sample_doubles-IsIeee) shards 7 7 table table
      (int64 (pos 1)) (int64 (pos 1)) row (omega arith) shards-IsValid tt tt refl refl (λ e. refl)

-- Rows of rome go to the first shard.
abbrev by_city : Sharded Engine
by_city = record {
  children = Memory.init ∷ Memory.init ∷ [];
  policies =
      (
        table,
        record {
          kind = list;
          column = codes "city";
          shard_count = 2;
          boundaries = [];
          lists = (text (codes "rome") ∷ []) ∷ [] ∷ [];
        },
      )
      ∷ [];
}

get-put_missed_example :
    get sample_doubles
      (memory_engine sample_doubles)
      (put sample_doubles (memory_engine sample_doubles) by_city 7 table (int64 (pos 1)) row).0
      7
      table
      (int64 (pos 1))
    ≡ get sample_doubles (memory_engine sample_doubles) by_city 7 table (int64 (pos 1))
unfolding route_by_policy policy_for Dict.find maybe_get list_shard member value_eq route_by_key
    hash_shard to_bytes le_bytes
get-put_missed_example =
    get-put_missed sample_doubles (memory_engine sample_doubles) by_city 7 7 0 1 table table
      (int64 (pos 1)) (int64 (pos 1)) row refl refl (λ e. cc) (omega arith)
