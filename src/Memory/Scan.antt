-- ===== src/Memory/Scan.antt =====
-- InMemoryStorageEngine::scan against get.
use Prim.Native.Nat.{lt, eq}
use open_db.Prelude.{
  ℕ, ◌≡◌, refl, Option, List, [], ◌∷◌, map, arith, bind, Str, bytes_Eq, Option-cases, inl, inr, ap,
}
use open_db.Prelude.Dict
use open_db.Prelude.OrderedMap
use open_db.Prelude.OrderedMap.{AllKeys, Sorted}
use open_db.Value.{Value}
use open_db.Value.Order.{Doubles, IsIeee, NotNan, compare_values-IsPreorder}
use open_db.Tuple.{Tuple}
use open_db.Memory.{
  Engine, Version, Rows, get, scan, scan_rows, cons_row, rows_at, read_row, key_order,
}
use open_db.Memory.Tables.{IsValid}

abbrev pub keys : Rows → List Value
keys rows = map (λ entry. entry.0) rows

-- The rows among optional ones, in order.
pub present : List (Option Tuple) → List Tuple
present [] = []
present (o ∷ os) = cons_row o (present os)

abbrev lookup : Doubles → ℕ → ℕ → Rows → Value → Option Tuple
lookup d visible_seq txn rows key =
    bind (OrderedMap.find (key_order d) key rows) (read_row visible_seq txn)

module _ (d : Doubles) (ieee : IsIeee d) where
  -- A new least entry changes no lookup of a greater key.
  lookup-above :
      (visible_seq txn : ℕ) (j : Value) (versions : List Version) (rows : Rows) (ks : Rows)
      → AllKeys (key_order d) (λ k. key_order d j k ≡ lt) ks
      → map (lookup d visible_seq txn ((j, versions) ∷ rows)) (keys ks)
        ≡ map (lookup d visible_seq txn rows) (keys ks)
  unfolding OrderedMap.find
  lookup-above visible_seq txn j versions rows [] a = refl
  lookup-above visible_seq txn j versions rows ((k, w) ∷ ks) a =
      rw (a.0, lookup-above visible_seq txn j versions rows ks a.1)

  key_order_refl : (key : Value) → NotNan d key → key_order d key key ≡ eq
  key_order_refl key p = ground (arith, (compare_values-IsPreorder d ieee).swap key key p p)

  scan_rows-present :
      (visible_seq txn : ℕ) (rows : Rows)
      → AllKeys (key_order d) (NotNan d) rows
      → Sorted (key_order d) rows
      → scan_rows visible_seq txn rows ≡ present (map (lookup d visible_seq txn rows) (keys rows))
  unfolding scan_rows present OrderedMap.find
  scan_rows-present visible_seq txn [] p s = refl
  scan_rows-present visible_seq txn ((j, versions) ∷ rows) p s = rw (
    key_order_refl j p.0,
    lookup-above visible_seq txn j versions rows rows s.0,
    scan_rows-present visible_seq txn rows p.1 s.1,
  )

  -- In a valid engine scan emits, in the order of the keys of the table, exactly the rows that
  -- get returns for them.
  pub scan-get :
      (e : Engine) (txn : ℕ) (table : Str)
      → IsValid d e
      → scan e txn table
        ≡ present (map (get d e txn table) (keys (rows_at (Dict.find table e.tables))))
  unfolding scan get
  scan-get e txn table w = elim (Option-cases (Dict.find table e.tables)) [
    | inl n ↦ rw n (unfold scan_rows present in refl)
    | inr (rows, s) ↦
        let reads : get d e txn table ≡ lookup d e.visible_seq txn rows =
          ap (λ o key. bind o (λ r. lookup d e.visible_seq txn r key)) s in
        rw (reads, s)
          (scan_rows-present e.visible_seq txn rows (rw s at (w.keys table))
            (rw s at (w.sorted table)))
  ]
