-- ===== src/Memory/Commit.antt =====
-- InMemoryStorageEngine::get after commit.
use open_db.Prelude.{
  ℕ, ◌<◌, ◌≡◌, refl, Option, none, some, List, [], map, bind, ap, Str, bytes_Eq, Option-cases, inl,
  inr, sym, ◌∙◌, ◌⊎◌,
}
use open_db.Prelude.Dict
use open_db.Prelude.Dict.{Dict, Unique, find-put, put-Unique, filter_map-Unique}
use open_db.Prelude.OrderedMap
use open_db.Prelude.OrderedMap.{is_eq, AllKeys, Sorted, find-upsert}
use open_db.Prelude.SortedMap.{AllKeys-upsert, upsert-Sorted, AllKeys-filter_map, filter_map-Sorted}
use open_db.Prelude.SortedMap
use open_db.Value.{Value}
use open_db.Value.Order.{Doubles, IsIeee, NotNan, compare_values-IsPreorder}
use open_db.Memory.{Version, Engine, versions_or_none, key_order, get, commit, commit_rows, stamp}
use open_db.Memory.Versions.{Clean, Clean-stamp, read_row-stamp, Past-stamp}
use open_db.Memory.Tables.{versions_at, get-versions_at, IsValid}

module _ (d : Doubles) (ieee : IsIeee d) where
  chain-map :
      (f : List Version → List Version)
      → (o : Option (List Version)) → f [] ≡ []
      → versions_or_none (bind o (λ vs. some (f vs))) ≡ f (versions_or_none o)
  chain-map f none z = sym z
  chain-map f (some vs) z = refl

  versions_at-commit :
      (e : Engine) (txn seq : ℕ) (table : Str) (key : Value)
      → IsValid d e
      → NotNan d key
      → versions_at d (commit e txn seq) table key ≡ map (stamp txn seq) (versions_at d e table key)
  unfolding versions_at commit OrderedMap.find
  versions_at-commit e txn seq table key w p =
      rw (Dict.find-filter_map (commit_rows txn seq) table e.tables w.unique)
        (elim (Option-cases (Dict.find table e.tables)) [
          | inl n ↦ rw n
          | inr (rows, s) ↦
              let found =
                SortedMap.find-filter_map (compare_values-IsPreorder d ieee)
                  (λ vs. some (map (stamp txn seq) vs)) key rows p (rw s at (w.keys table))
                  (rw s at (w.sorted table)) in
              rw s (
                ap versions_or_none found
                ∙ chain-map (map (stamp txn seq)) (OrderedMap.find (key_order d) key rows) refl)
        ])

  -- In a valid engine, for a key that is not NaN: after commit with a positive sequence number,
  -- the transaction that committed and every other that has nothing staged under the key read
  -- there what the committing transaction read before.
  pub get-commit :
      (e : Engine) (txn seq t : ℕ) (table : Str) (key : Value)
      → IsValid d e
      → NotNan d key
      → 0 < seq
      → (t ≡ txn) ⊎ Clean t (versions_at d e table key)
      → get d (commit e txn seq) t table key ≡ get d e txn table key
  unfolding commit
  get-commit e txn seq t table key w p h c =
      rw (get-versions_at, get-versions_at, versions_at-commit e txn seq table key w p)
        (read_row-stamp e.visible_seq txn seq t (versions_at d e table key) h (w.past table key p)
          (Clean-stamp txn seq t (versions_at d e table key) h c))

  -- The engine stays valid.
  pub commit-IsValid : (e : Engine) (txn seq : ℕ) → IsValid d e → IsValid d (commit e txn seq)
  unfolding commit
  commit-IsValid e txn seq w = record {
    unique = filter_map-Unique (commit_rows txn seq) e.tables w.unique;
    keys = λ table.
        rw (Dict.find-filter_map (commit_rows txn seq) table e.tables w.unique)
          (elim (Option-cases (Dict.find table e.tables)) [
            | inl n ↦ rw n tt
            | inr (rows, s) ↦
                rw s (AllKeys-filter_map (key_order d) _ (NotNan d) rows (rw s at (w.keys table)))
          ]);
    sorted = λ table.
        rw (Dict.find-filter_map (commit_rows txn seq) table e.tables w.unique)
          (elim (Option-cases (Dict.find table e.tables)) [
            | inl n ↦ rw n tt
            | inr (rows, s) ↦
                rw s (filter_map-Sorted (key_order d) _ rows (rw s at (w.sorted table)))
          ]);
    past = λ table key p.
        rw (versions_at-commit e txn seq table key w p)
          (Past-stamp e.visible_seq txn seq (versions_at d e table key) (w.past table key p));
  }
