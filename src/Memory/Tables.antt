-- ===== src/Memory/Tables.antt =====
-- The tables of the engine as one map from a table and a key to a chain, and the invariant of the
-- engine.
use open_db.Prelude.{
  ℕ, ◌≤◌, ◌≡◌, refl, ◌&&◌, Option, none, some, List, [], ◌∷◌, ◌++◌, arith, if◌then◌else◌, bind, Str,
  bytes_eq, bytes_Eq, bytes_eq_iff, Bool-cases, Option-cases, inl, inr,
}
use open_db.Prelude.Dict
use open_db.Prelude.Dict.{Dict, Unique, find-put, put-Unique, filter_map-Unique}
use open_db.Prelude.OrderedMap
use open_db.Prelude.OrderedMap.{is_eq, AllKeys, Sorted, find-upsert}
use open_db.Prelude.SortedMap.{AllKeys-upsert, upsert-Sorted}
use open_db.Value.{Value}
use open_db.Value.Order.{Doubles, IsIeee, NotNan, compare_values-IsPreorder}
use open_db.Memory.{
  Version, Engine, rows_at, versions_or_none, read_row, key_order, get, push_version, newest,
}
use open_db.Memory.Versions.{Past, Past-append}

module _ (d : Doubles) where
  -- The chain under a table and a key, empty where there is none.
  unfoldable pub versions_at : Engine → Str → Value → List Version
  versions_at e table key =
      versions_or_none (OrderedMap.find (key_order d) key (rows_at (Dict.find table e.tables)))

  read_none :
      (visible_seq txn : ℕ) (o : Option (List Version))
      → bind o (read_row visible_seq txn) ≡ read_row visible_seq txn (versions_or_none o)
  unfolding read_row newest
  read_none visible_seq txn none = refl
  read_none visible_seq txn (some vs) = refl

  -- A read depends on the chain alone.
  pub get-versions_at :
      (e : Engine) (txn : ℕ) (table : Str) (key : Value)
      → get d e txn table key ≡ read_row e.visible_seq txn (versions_at e table key)
  unfolding get versions_at read_row newest OrderedMap.find
  get-versions_at e txn table key = elim (Option-cases (Dict.find table e.tables)) [
    | inl n ↦ rw n
    | inr (rows, s) ↦ rw s (read_none e.visible_seq txn (OrderedMap.find (key_order d) key rows))
  ]

  -- Table names stand once, the rows of a table in the order of their keys, of which none is NaN, and
  -- no version carries a stamp above the sequence that readers see.
  pub record IsValid (e : Engine) : Type 0 where
    pub unique : Unique e.tables
    pub keys : (table : Str) → AllKeys (key_order d) (NotNan d) (rows_at (Dict.find table e.tables))
    pub sorted : (table : Str) → Sorted (key_order d) (rows_at (Dict.find table e.tables))
    pub past :
        (table : Str) (key : Value) → NotNan d key → Past e.visible_seq (versions_at e table key)

module _ (d : Doubles) (ieee : IsIeee d) where
  rows_at-push :
      (e : Engine) (table other : Str) (key : Value) (v : Version)
      → rows_at (Dict.find other (push_version d e table key v).tables) ≡ (
          if bytes_eq table other
          then OrderedMap.upsert
              (key_order d)
              key
              (λ vs. versions_or_none vs ++ v ∷ [])
              (rows_at (Dict.find table e.tables))
          else rows_at (Dict.find other e.tables))
  unfolding push_version
  rows_at-push e table other key v = rw find-put (ground arith)

  -- A version pushed stands at the end of its chain, and every other chain is as it was.
  pub versions_at-push :
      (e : Engine) (table other : Str) (key k : Value) (v : Version)
      → IsValid d e
      → NotNan d key
      → NotNan d k
      → versions_at d (push_version d e table key v) other k ≡ (
          if bytes_eq table other && is_eq (key_order d key k)
          then versions_at d e other k ++ v ∷ []
          else versions_at d e other k)
  unfolding versions_at
  versions_at-push e table other key k v w p q = elim (Bool-cases (bytes_eq table other)) [
    | inl s ↦
        let same : table ≡ other = (bytes_eq_iff table other).0 s in
        rw (rows_at-push e table other key v, s, same)
          (rw (find-upsert (compare_values-IsPreorder d ieee) key k _ _ p q (w.keys other))
            (ground arith))
    | inr n ↦ rw (rows_at-push e table other key v, n)
  ]

  pub push-IsValid :
      (e : Engine) (table : Str) (key : Value) (v : Version)
      → NotNan d key
      → v.commit_seq ≤ e.visible_seq
      → IsValid d e
      → IsValid d (push_version d e table key v)
  unfolding push_version
  push-IsValid e table key v p h w = record {
    unique = put-Unique table _ e.tables w.unique;
    keys = λ other. elim (Bool-cases (bytes_eq table other)) [
      | inl s ↦
          rw (rows_at-push e table other key v, s)
            (AllKeys-upsert (key_order d) (NotNan d) key _ _ p (w.keys table))
      | inr n ↦ rw (rows_at-push e table other key v, n) (w.keys other)
    ];
    sorted = λ other. elim (Bool-cases (bytes_eq table other)) [
      | inl s ↦
          rw (rows_at-push e table other key v, s)
            (upsert-Sorted (compare_values-IsPreorder d ieee) key _ _ p (w.keys table)
              (w.sorted table))
      | inr n ↦ rw (rows_at-push e table other key v, n) (w.sorted other)
    ];
    past = λ other k q.
        rw (versions_at-push e table other key k v w p q)
          (elim (Bool-cases (bytes_eq table other && is_eq (key_order d key k))) [
            | inl s ↦ rw s (Past-append _ (versions_at d e other k) v (w.past other k q) h)
            | inr n ↦ rw n (w.past other k q)
          ]);
  }
