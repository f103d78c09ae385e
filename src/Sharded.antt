-- ===== src/Sharded.antt =====
-- includes/opendb/storage/ShardedStorageEngine.hpp: an engine over child engines, and how it picks the
-- child for a row; PartitionPolicy of includes/opendb/types/Schema.hpp. The children are of one kind.
pub mod Routing
pub mod Ranges
pub mod Examples
use Prim.Native.Nat.{bit_xor, Ordering, lt, eq, gt}
use open_db.Prelude.{
  ℕ, zero, suc, ◌+◌, ◌*◌, ◌%◌, ◌^◌, Bool, true, false, ◌&&◌, ◌||◌, not, Option, none, some, List,
  [], ◌∷◌, ◌++◌, ◌==◌, if◌then◌else◌, Str, codes, bytes_Eq, length, get_elem?, set, bind,
}
use open_db.Prelude.Dict
use open_db.Prelude.Dict.{Dict}
use open_db.Value.{Value}
use open_db.Value.Bytes.{to_bytes}
use open_db.Value.Order.{Doubles, compare_values}
use open_db.Value.Equality.{value_eq}
use open_db.Tuple.{Tuple, maybe_get}
use open_db.Storage.{StorageEngine, DbError, not_found, sentinel, is_sentinel}

pub data Kind : Type 0 where
  unpartitioned hash range list : Kind

pub record PartitionPolicy : Type 0 where
  pub kind : Kind
  pub column : Str
  pub shard_count : ℕ
  pub boundaries : List Value
  pub lists : List (List Value)

abbrev pub no_policy : PartitionPolicy
no_policy = record {
  kind = unpartitioned;
  column = [];
  shard_count = 0;
  boundaries = [];
  lists = [];
}

pub record Sharded (S : Type 0) : Type 0 where
  pub children : List S
  pub policies : Dict Str PartitionPolicy

-- for (b : bytes) { h ^= b; h *= prime; } on a 64-bit size_t
unfoldable pub fnv : ℕ → List ℕ → ℕ
fnv h [] = h
fnv h (b ∷ bytes) = fnv (bit_xor h b * 1099511628211 % 2 ^ 64) bytes

pub hash_shard : ℕ → Value → ℕ
unfolding fnv
hash_shard n v = fnv 1469598103934665603 (to_bytes v) % n

-- routeByKey, for `n` children
unfoldable pub route_by_key : ℕ → Value → Option ℕ
route_by_key zero key = none
route_by_key (suc zero) key = some 0
route_by_key (suc (suc n)) key = some (hash_shard (suc (suc n)) key)

abbrev pub is_less : Ordering → Bool
is_less lt = true
is_less eq = false
is_less gt = false

abbrev pub succ_option : Option ℕ → Option ℕ
succ_option none = none
succ_option (some i) = some (suc i)

-- The first shard i whose interval [boundaries[i], boundaries[i + 1]) holds the value.
unfoldable pub range_shard : Doubles → Value → List Value → Option ℕ
range_shard d v [] = none
range_shard d v (b ∷ []) = none
range_shard d v (b ∷ c ∷ bs) =
    let rest = range_shard d v (c ∷ bs) in
    if not (is_less (compare_values d v b)) && is_less (compare_values d v c)
    then some 0
    else succ_option rest

unfoldable pub member : Doubles → Value → List Value → Bool
member d v [] = false
member d v (w ∷ ws) = value_eq d v w || member d v ws

unfoldable pub list_shard : Doubles → Value → List (List Value) → Option ℕ
list_shard d v [] = none
list_shard d v (ws ∷ lists) =
    let rest = list_shard d v lists in if member d v ws then some 0 else succ_option rest

-- The switch of routeByPolicy on the value of the column.
unfoldable pub route_value : Doubles → ℕ → PartitionPolicy → Kind → Value → Option ℕ
route_value d n policy unpartitioned v = none
route_value d n policy hash v = if policy.shard_count == 0 then none else some (hash_shard n v)
route_value d n policy range v =
    if length policy.boundaries == n + 1 then range_shard d v policy.boundaries else none
route_value d n policy list v =
    if length policy.lists == n then list_shard d v policy.lists else none

abbrev is_partitioned : Kind → Bool
is_partitioned unpartitioned = false
is_partitioned hash = true
is_partitioned range = true
is_partitioned list = true

-- routeByPolicy, for `n` children
unfoldable pub route_by_policy : Doubles → ℕ → PartitionPolicy → Tuple → Option ℕ
unfolding route_value
route_by_policy d n policy row =
    if is_partitioned policy.kind && not (n == 0)
    then bind (maybe_get row policy.column) (route_value d n policy policy.kind)
    else none

abbrev or_no_policy : Option PartitionPolicy → PartitionPolicy
or_no_policy none = no_policy
or_no_policy (some policy) = policy

abbrev or_else {ℓ} : {A : Type ℓ} → Option A → Option A → Option A
or_else none b = b
or_else (some a) b = some a

abbrev no_shard : DbError
no_shard = record { code = not_found; message = codes "no shard to route to" }

module _ {S : Type 0} where
  -- policyFor
  pub policy_for : Sharded S → Str → PartitionPolicy
  policy_for s table = or_no_policy (Dict.find table s.policies)

  pub install_partition_policy : Sharded S → Str → PartitionPolicy → Sharded S
  install_partition_policy s table policy = record s { policies = Dict.put table policy s.policies }

  pub clear_partition_policy : Sharded S → Str → Sharded S
  clear_partition_policy s table = record s { policies = Dict.erase table s.policies }

  -- childEngines_[i] does one operation.
  abbrev on_child : Sharded S → ℕ → (S → S × DbError) → S → Sharded S × DbError
  on_child s i f child =
      let (new, result) = f child in (record s { children = set s.children i new }, result)

  abbrev on_shard : Sharded S → Option ℕ → (S → S × DbError) → Sharded S × DbError
  on_shard s none f = (s, no_shard)
  on_shard s (some i) f = elim (get_elem? s.children i) [
    | none ↦ (s, no_shard)
    | some child ↦ on_child s i f child
  ]

  -- The loop of prepare and of commit: it stops at the first child that fails.
  unfoldable pub until_error : (S → S × DbError) → List S → List S × DbError
  until_error f [] = ([], sentinel)
  until_error f (c ∷ cs) =
      let (new, result) = f c in
      let (news, last) = until_error f cs in
      if is_sentinel result then (new ∷ news, last) else (new ∷ cs, result)

  unfoldable pub on_all : (S → S × DbError) → List S → List S
  on_all f [] = []
  on_all f (c ∷ cs) = (f c).0 ∷ on_all f cs

  module _ (d : Doubles) (E : StorageEngine S) where
    -- get
    pub get : Sharded S → ℕ → Str → Value → Option Tuple
    get s txn table key =
        bind (route_by_key (length s.children) key)
          λ i. bind (get_elem? s.children i) λ child. E.get child txn table key

    -- put
    pub put : Sharded S → ℕ → Str → Value → Tuple → Sharded S × DbError
    put s txn table key row =
        on_shard s
          (or_else (route_by_policy d (length s.children) (policy_for s table) row)
            (route_by_key (length s.children) key))
          (λ child. E.put child txn table key row)

    pub remove : Sharded S → ℕ → Str → Value → Sharded S × DbError
    remove s txn table key =
        on_shard s (route_by_key (length s.children) key) (λ child. E.remove child txn table key)

    unfoldable pub scan_all : List S → ℕ → Str → List Tuple
    scan_all [] txn table = []
    scan_all (c ∷ cs) txn table = E.scan c txn table ++ scan_all cs txn table

    pub scan : Sharded S → ℕ → Str → List Tuple
    unfolding scan_all
    scan s txn table = scan_all s.children txn table

    pub prepare : Sharded S → ℕ → Sharded S × DbError
    unfolding until_error
    prepare s txn =
        let (news, result) = until_error (λ c. E.prepare c txn) s.children in
        (record s { children = news }, result)

    pub commit : Sharded S → ℕ → ℕ → Sharded S × DbError
    unfolding until_error
    commit s txn seq =
        let (news, result) = until_error (λ c. E.commit c txn seq) s.children in
        (record s { children = news }, result)

    pub commit_alone : Sharded S → ℕ → Sharded S × DbError
    unfolding until_error
    commit_alone s txn =
        let (news, result) = until_error (λ c. E.commit_alone c txn) s.children in
        (record s { children = news }, result)

    pub abort : Sharded S → ℕ → Sharded S × DbError
    unfolding on_all
    abort s txn = (record s { children = on_all (λ c. E.abort c txn) s.children }, sentinel)
