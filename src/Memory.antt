-- ===== src/Memory.antt =====
-- includes/opendb/storage/InMemoryStorageEngine.hpp: rows as chains of versions, and which version a
-- transaction reads. The mutex makes each method one step, but commit(txn) counts before it takes it. Every method reports success, so a method
-- is the new state, or what it reads.
pub mod Versions
pub mod Tables
pub mod Isolation
pub mod Writes
pub mod Commit
pub mod Rollback
pub mod Scan
pub mod History
pub mod Contract
pub mod Examples
use Prim.Native.Nat.{max, Ordering}
use open_db.Prelude.{
  ℕ, zero, suc, ◌+◌, ◌%◌, ◌^◌, Bool, true, false, ◌&&◌, Option, none, some, List, [], ◌∷◌, ◌++◌,
  map, ◌==◌, leb, Str, codes, if◌then◌else◌, bind, bytes_eq, bytes_Eq, length,
}
use open_db.Prelude.Int.{ℤ, pos}
use open_db.Prelude.Words.{to_signed}
use open_db.Prelude.Dict
use open_db.Prelude.Dict.{Dict}
use open_db.Prelude.OrderedMap
use open_db.Value.{Value, null, int64, is_null}
use open_db.Value.Order.{Doubles, compare_values}
use open_db.Tuple
use open_db.Tuple.{Tuple}

pub record Version : Type 0 where
  pub commit_seq : ℕ
  pub txn_id : ℕ
  pub payload : Tuple
  pub tombstone : Bool

-- std::map<Value, std::vector<Version>>, a vector from its oldest version to its newest.
abbrev pub Rows : Type 0
Rows = Dict Value (List Version)

pub record Engine : Type 0 where
  pub tables : Dict Str Rows
  pub auto_id : Dict Str ℕ
  pub internal_seq : ℕ
  pub visible_seq : ℕ

unfoldable pub init : Engine
init = record { tables = []; auto_id = []; internal_seq = 0; visible_seq = 0 }

-- isVisibleUnlocked
abbrev pub is_visible : ℕ → ℕ → Version → Bool
is_visible visible_seq txn v =
    if v.commit_seq == 0 then v.txn_id == txn else leb v.commit_seq visible_seq

abbrev pub or_else {ℓ} : {A : Type ℓ} → Option A → Option A → Option A
or_else none b = b
or_else (some a) b = some a

-- The loop from rbegin() to rend(): the newest version that passes the test.
unfoldable pub newest : (Version → Bool) → List Version → Option Version
newest seen [] = none
newest seen (v ∷ vs) = or_else (newest seen vs) (if seen v then some v else none)

abbrev pub row_of : Version → Option Tuple
row_of v = if v.tombstone then none else some v.payload

-- What a transaction sees of a row.
unfoldable pub read_row : ℕ → ℕ → List Version → Option Tuple
unfolding newest
read_row visible_seq txn versions = bind (newest (is_visible visible_seq txn) versions) row_of

abbrev pub rows_at : Option Rows → Rows
rows_at none = []
rows_at (some rows) = rows

abbrev pub versions_or_none : Option (List Version) → List Version
versions_or_none none = []
versions_or_none (some vs) = vs

-- v.commitSeq == 0 and v.txnId == txn
abbrev pub is_staged : ℕ → Version → Bool
is_staged txn v = v.txn_id == txn && v.commit_seq == 0

-- The stamp of commit on one version.
abbrev pub stamp : ℕ → ℕ → Version → Version
stamp txn seq v = if is_staged txn v then record v { commit_seq = seq } else v

-- std::remove_if and erase on one chain.
unfoldable pub unstaged : ℕ → List Version → List Version
unstaged txn [] = []
unstaged txn (v ∷ vs) = if is_staged txn v then unstaged txn vs else v ∷ unstaged txn vs

abbrev pub some_unless_empty {ℓ} : {A : Type ℓ} → List A → Option (List A)
some_unless_empty [] = none
some_unless_empty (x ∷ xs) = some (x ∷ xs)

-- The rows of one table after abort: chains that become empty go.
unfoldable pub abort_rows : ℕ → Rows → Rows
abort_rows txn rows = Dict.filter_map (λ versions. some_unless_empty (unstaged txn versions)) rows

-- auto_id_ loses the entries of the tables that become empty.
abort_ids : ℕ → Dict Str Rows → Dict Str ℕ → Dict Str ℕ
unfolding abort_rows
abort_ids txn [] ids = ids
abort_ids txn ((name, rows) ∷ tables) ids =
    abort_ids txn tables (elim (abort_rows txn rows) [ [] ↦ Dict.erase name ids | r ∷ rs ↦ ids ])

abbrev pub or_zero : Option ℕ → ℕ
or_zero none = 0
or_zero (some n) = n

-- ++auto_id_[table]
abbrev pub next_id : Engine → Str → ℕ
next_id e table = (or_zero (Dict.find table e.auto_id) + 1) % 2 ^ 64

abbrev pub auto_key : Engine → Str → Value
auto_key e table = int64 (to_signed (2 ^ 64) (next_id e table))

abbrev pub staged_row : ℕ → Tuple → Version
staged_row txn row = record { commit_seq = 0; txn_id = txn; payload = row; tombstone = false }

abbrev pub staged_tombstone : ℕ → Version
staged_tombstone txn = record {
  commit_seq = 0;
  txn_id = txn;
  payload = Tuple.empty;
  tombstone = true;
}

module _ (d : Doubles) where
  abbrev pub key_order : Value → Value → Ordering
  key_order = compare_values d

  -- get
  unfoldable pub get : Engine → ℕ → Str → Value → Option Tuple
  unfolding read_row
  get e txn table key = bind (Dict.find table e.tables) λ rows.
      bind (OrderedMap.find key_order key rows) λ versions. read_row e.visible_seq txn versions

  -- tables_[table][key].push_back(v)
  unfoldable pub push_version : Engine → Str → Value → Version → Engine
  push_version e table key v = record e {
    tables =
        Dict.put table
          (OrderedMap.upsert key_order key (λ versions. versions_or_none versions ++ v ∷ [])
            (rows_at (Dict.find table e.tables)))
          e.tables;
  }

  -- put; a null key asks for a key from the counter of the table.
  unfoldable pub put : Engine → ℕ → Str → Value → Tuple → Engine
  unfolding push_version
  put e txn table key row =
      if is_null key
      then push_version (record e { auto_id = Dict.put table (next_id e table) e.auto_id }) table
          (auto_key e table) (staged_row txn (Tuple.set row (codes "_id") (auto_key e table)))
      else push_version e table key (staged_row txn row)

  -- remove
  unfoldable pub remove : Engine → ℕ → Str → Value → Engine
  unfolding push_version
  remove e txn table key = push_version e table key (staged_tombstone txn)

abbrev pub cons_row : Option Tuple → List Tuple → List Tuple
cons_row none rows = rows
cons_row (some row) rows = row ∷ rows

-- The rows that scan emits, in the order of their keys.
unfoldable pub scan_rows : ℕ → ℕ → Rows → List Tuple
unfolding read_row
scan_rows visible_seq txn [] = []
scan_rows visible_seq txn ((key, versions) ∷ rows) =
    cons_row (read_row visible_seq txn versions) (scan_rows visible_seq txn rows)

unfoldable pub scan : Engine → ℕ → Str → List Tuple
unfolding scan_rows
scan e txn table = scan_rows e.visible_seq txn (rows_at (Dict.find table e.tables))

abbrev pub commit_rows : ℕ → ℕ → Rows → Option Rows
commit_rows txn seq rows =
    some (Dict.filter_map (λ versions. some (map (stamp txn seq) versions)) rows)

-- commit(txn, visibleSeq)
unfoldable pub commit : Engine → ℕ → ℕ → Engine
commit e txn seq = record e {
  tables = Dict.filter_map (commit_rows txn seq) e.tables;
  visible_seq = max e.visible_seq seq;
}

-- ++internal_seq_, which commit(txn) does before it takes the mutex
abbrev pub next_seq : Engine → Engine
next_seq e = record e { internal_seq = (e.internal_seq + 1) % 2 ^ 64 }

-- commit(txn), with a number from the engine's own counter, where no other call comes between the
-- two steps; for other orders Memory/History has them apart.
unfoldable pub commit_alone : Engine → ℕ → Engine
unfolding commit
commit_alone e txn = commit (next_seq e) txn (next_seq e).internal_seq

-- abort; a table that becomes empty goes, with its counter.
unfoldable pub abort : Engine → ℕ → Engine
unfolding abort_rows abort_ids
abort e txn = record e {
  tables = Dict.filter_map (λ rows. some_unless_empty (abort_rows txn rows)) e.tables;
  auto_id = abort_ids txn e.tables e.auto_id;
}

pub table_count : Engine → ℕ
table_count e = length e.tables

pub row_count : Engine → Str → ℕ
row_count e table = length (rows_at (Dict.find table e.tables))
