-- ===== src/Engine/Writes.antt =====
-- EngineLoop.hpp: what UPDATE does to the rows that match and to those that do not, over any storage
-- engine that reads back what was put.
use open_db.Prelude.{
  bytes_eq_refl, ℕ, ◌≡◌, refl, ◌⊎◌, inl, inr, Bool, true, false, some, List, [], ◌∷◌, arith, Str,
  Bool-cases, bytes_eq,
}
use open_db.Value.{Value, is_null}
use open_db.Value.Order.{Doubles}
use open_db.Tuple
use open_db.Tuple.{Tuple}
use open_db.Predicate.{PredicateNode}
use open_db.Storage.{StorageEngine, is_sentinel}
use open_db.Storage.Laws.{ReadsBack}
use open_db.Engine.Handlers.{apply_keys, update_one, matching_keys, update_where, row_id}

-- Each key may be used and is not null.
abbrev pub Usable : (Value → Type 0) → List Value → Type 0
Usable Key [] = Unit
Usable Key (k ∷ ks) = Key k × (is_null k ≡ false) × Usable Key ks

-- No key of the list names the row of `k`.
abbrev pub Apart : (Value → Value → Bool) → Value → List Value → Type 0
Apart same k [] = Unit
Apart same k (j ∷ js) = (same j k ≡ false) × Apart same k js

-- `k` stands in the list and names another row than the keys behind it.
abbrev pub LastOf : (Value → Value → Bool) → Value → List Value → Type 0
LastOf same k [] = ⊥
LastOf same k (j ∷ js) = ((j ≡ k) × Apart same k js) ⊎ LastOf same k js

or_first : {X Y Z : Type 0} → X ⊎ (Y × Z) → X ⊎ Y
or_first (inl x) = inl x
or_first (inr (y, z)) = inr y

or_rest : {X Y Z : Type 0} → X ⊎ (Y × Z) → X ⊎ Z
or_rest (inl x) = inl x
or_rest (inr (y, z)) = inr z

module _ {S : Type 0} (E : StorageEngine S) {Valid : S → Type 0} {same : Value → Value → Bool}
    {Key : Value → Type 0} (law : ReadsBack E Valid same Key)
    (keep : (s : S) (txn : ℕ) (table : Str) (key : Value) (row : Tuple)
      → Key key
      → Valid s
      → Valid (E.put s txn table key row).0) where
  put_apart :
      (txn t : ℕ) (table other : Str) (row : Tuple) (j k : Value) (s : S)
      → Valid s
      → Key j
      → Key k
      → is_null j ≡ false
      → (bytes_eq table other ≡ false) ⊎ (same j k ≡ false)
      → E.get (E.put s txn table j row).0 t other k ≡ E.get s t other k
  put_apart txn t table other row j k s v p q n (inl a) =
      rw (law.get-put s txn t table other j k row v p q n, a) refl
  put_apart txn t table other row j k s v p q n (inr a) =
      rw (law.get-put s txn t table other j k row v p q n, a) (ground arith)

  apply_keys-Apart :
      (txn t : ℕ) (table other : Str) (values : Tuple) (k : Value) (ks : List Value) (s : S)
      (any : Bool)
      → Valid s
      → Key k
      → Usable Key ks
      → (bytes_eq table other ≡ false) ⊎ Apart same k ks
      → E.get (apply_keys (update_one E txn table values) s any ks).storage t other k
        ≡ E.get s t other k
  unfolding apply_keys
  apply_keys-Apart txn t table other values k [] s any v q u a = refl
  apply_keys-Apart txn t table other values k (j ∷ js) s any v q (p, n, u) a =
      let row : Tuple = Tuple.set values row_id j in
      let put = put_apart txn t table other row j k s v p q n (or_first a) in
      elim (Bool-cases (is_sentinel (E.put s txn table j row).1)) [
        | inl e ↦
            rw
              (
                e,
                apply_keys,
                apply_keys-Apart txn t table other values k js (E.put s txn table j row).0 true
                    (keep s txn table j row p v) q u (or_rest a),
              )
              put
        | inr e ↦ rw (e, apply_keys) put
      ]

  module _
      (works : (s : S) (txn : ℕ) (table : Str) (key : Value) (row : Tuple)
        → is_sentinel (E.put s txn table key row).1 ≡ true) where
    apply_keys-LastOf :
        (txn : ℕ) (table : Str) (values : Tuple) (k : Value) (ks : List Value) (s : S) (any : Bool)
        → Valid s
        → Key k
        → same k k ≡ true
        → Usable Key ks
        → LastOf same k ks
        → E.get (apply_keys (update_one E txn table values) s any ks).storage txn table k
          ≡ some (Tuple.set values row_id k)
    unfolding apply_keys
    apply_keys-LastOf txn table values k [] s any v q r u l = absurd l
    apply_keys-LastOf txn table values k (j ∷ js) s any v q r (p, n, u) (inl (e, a)) =
        let row : Tuple = Tuple.set values row_id j in
        rw
          (
            works s txn table j row,
            apply_keys,
            apply_keys-Apart txn txn table table values k js (E.put s txn table j row).0 true
                (keep s txn table j row p v) q u (inr a),
            law.get-put s txn txn table table j k row v p q n,
            e,
            r,
            bytes_eq_refl table,
          )
          (ground arith)
    apply_keys-LastOf txn table values k (j ∷ js) s any v q r (p, n, u) (inr l) =
        let row : Tuple = Tuple.set values row_id j in
        rw (works s txn table j row, apply_keys)
          (apply_keys-LastOf txn table values k js (E.put s txn table j row).0 true
            (keep s txn table j row p v) q r u l)

    -- Over a storage engine that reads back what was put, stays valid and reports success for
    -- every put, in a valid state, with keys that may be used and are not null: UPDATE leaves
    -- under a key that it matched, if the key equals itself in the comparison of the engine and
    -- no later one names the same row, the values of SET with that key as `_id`, and none of the
    -- other columns that the row had.
    pub update_where-get :
        (d : Doubles) (s : S) (txn : ℕ) (table : Str) (w : PredicateNode) (values : Tuple)
        (k : Value)
        → Valid s
        → Key k
        → same k k ≡ true
        → Usable Key (matching_keys E d s txn table w)
        → LastOf same k (matching_keys E d s txn table w)
        → E.get (update_where E d s txn table (some w) (some values)).storage txn table k
          ≡ some (Tuple.set values row_id k)
    unfolding update_where
    update_where-get d s txn table w values k v q r u l =
        apply_keys-LastOf txn table values k (matching_keys E d s txn table w) s false v q r u l

  -- Over a storage engine that reads back what was put and stays valid, whether its puts report
  -- success or not, in a valid state, with keys that may be used and are not null: UPDATE,
  -- failing or not, leaves alone what any transaction reads in other tables and under the keys
  -- that name none of the matched rows.
  pub update_where-get_other :
      (d : Doubles) (s : S) (txn t : ℕ) (table other : Str) (w : PredicateNode) (values : Tuple)
      (k : Value)
      → Valid s
      → Key k
      → Usable Key (matching_keys E d s txn table w)
      → (bytes_eq table other ≡ false) ⊎ Apart same k (matching_keys E d s txn table w)
      → E.get (update_where E d s txn table (some w) (some values)).storage t other k
        ≡ E.get s t other k
  unfolding update_where
  update_where-get_other d s txn t table other w values k v q u a =
      apply_keys-Apart txn t table other values k (matching_keys E d s txn table w) s false v q u a
