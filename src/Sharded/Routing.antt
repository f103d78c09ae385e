-- ===== src/Sharded/Routing.antt =====
-- Which child a read and a write go to, and what a read then finds.
use open_db.Prelude.{
  ℕ, zero, suc, ◌<◌, ◌≡◌, refl, ◌≢◌, Bool, true, false, ◌&&◌, none, some, List, [], ◌∷◌, ◌==◌,
  ==_iff, if◌then◌else◌, Str, bytes_eq, length, get_elem?, set, length-set, get_elem?-set_self,
  get_elem?-set_ne, arith, Bool-cases, inl, inr, ap, sym, ◌∙◌,
}
use open_db.Value.{Value, is_null}
use open_db.Value.Order.{Doubles}
use open_db.Tuple.{Tuple}
use open_db.Storage.{StorageEngine}
use open_db.Storage.Laws.{ReadsBack}
use open_db.Sharded.{
  Sharded, route_by_key, route_by_policy, policy_for, hash_shard, get, put, on_shard,
}

-- With a child there is a route for every key, and it is in range.
pub route_by_key-lt :
    (n : ℕ) (key : Value) → 0 < n → (i : ℕ) × (route_by_key n key ≡ some i) × (i < n)
unfolding route_by_key hash_shard
route_by_key-lt zero key h = absurd (omega arith)
route_by_key-lt (suc zero) key h = (0, refl, omega arith)
route_by_key-lt (suc (suc n)) key h = (hash_shard (suc (suc n)) key, refl, omega arith)

get_elem?-lt :
    {S : Type 0} (xs : List S) (i : ℕ) → i < length xs → (x : S) × (get_elem? xs i ≡ some x)
get_elem?-lt [] i h = absurd (omega arith)
get_elem?-lt (x ∷ xs) zero h = (x, refl)
get_elem?-lt (x ∷ xs) (suc i) h = get_elem?-lt xs i (omega arith)

some_inj : {m n : ℕ} → some m ≡ some n → m ≡ n
some_inj e = ground arith

module _ {S : Type 0} (d : Doubles) (E : StorageEngine S) where
  -- A put that goes to shard `i` by its policy or its key.
  put_children :
      (s : Sharded S) (txn i : ℕ) (table : Str) (key : Value) (row : Tuple) (child : S)
      → route_by_policy d (length s.children) (policy_for s table) row ≡ none
      → route_by_key (length s.children) key ≡ some i
      → get_elem? s.children i ≡ some child
      → (put d E s txn table key row).0.children
        ≡ set s.children i (E.put child txn table key row).0
  unfolding put
  put_children s txn i table key row child n r c = rw (n, r, c, put, on_shard)

  put_children_policy :
      (s : Sharded S) (txn i : ℕ) (table : Str) (key : Value) (row : Tuple) (child : S)
      → route_by_policy d (length s.children) (policy_for s table) row ≡ some i
      → get_elem? s.children i ≡ some child
      → (put d E s txn table key row).0.children
        ≡ set s.children i (E.put child txn table key row).0
  unfolding put
  put_children_policy s txn i table key row child n c = rw (n, c, put, on_shard)

-- A law of the children that a read after a put obeys.
module _ {S : Type 0} (d : Doubles) (E : StorageEngine S) (Valid : S → Type 0)
    (same : Value → Value → Bool) (Key : Value → Type 0) (laws : ReadsBack E Valid same Key) where
  get-put_shard :
      (s : Sharded S) (txn t i j : ℕ) (table other : Str) (key k : Value) (row : Tuple) (child : S)
      → Valid child
      → Key key
      → Key k
      → is_null key ≡ false
      → route_by_policy d (length s.children) (policy_for s table) row ≡ none
      → route_by_key (length s.children) key ≡ some i
      → route_by_key (length s.children) k ≡ some j
      → (same key k ≡ true → i ≡ j)
      → get_elem? s.children i ≡ some child
      → i < length s.children
      → get d E (put d E s txn table key row).0 t other k ≡ (
          if (bytes_eq table other && same key k) && txn == t
          then some row
          else get d E s t other k)
  unfolding get
  get-put_shard s txn t i j table other key k row child v p q z n r r' a c h =
      let kids = put_children d E s txn i table key row child n r c in
      elim (Bool-cases (i == j)) [
        | inl e ↦
            let r'' : route_by_key (length s.children) k ≡ some i =
              r' ∙ ap some (sym ((==_iff i j).0 e)) in
            rw (kids, length-set, r'', get_elem?-set_self, c)
              (laws.get-put child txn t table other key k row v p q z)
        | inr e ↦
            let apart : i ≢ j = λ f. ground (arith, (==_iff i j).1 f) in
            elim (Bool-cases (same key k)) [
              | inl f ↦ absurd (apart (a f))
              | inr f ↦
                  let unmoved =
                    get_elem?-set_ne s.children (E.put child txn table key row).0 apart in
                  rw (kids, length-set, r', unmoved, f) (ground arith)
            ]
      ]

  -- Over children that read back what was put (a read after a put of a valid child gives the row
  -- under the keys that name the same row, and else what it gave before), with one child at
  -- least, all valid, keys that the children accept, a key written that is not null, and no
  -- policy that picks the child of the row: after put its transaction reads the row under every
  -- key that names the same row, and every other read is as it was, provided that a key that
  -- names the same row goes to the same child.
  pub get-put_sharded :
      (s : Sharded S) (txn t : ℕ) (table other : Str) (key k : Value) (row : Tuple)
      → 0 < length s.children
      → ((i : ℕ) (child : S) → get_elem? s.children i ≡ some child → Valid child)
      → Key key
      → Key k
      → is_null key ≡ false
      → route_by_policy d (length s.children) (policy_for s table) row ≡ none
      → (same key k ≡ true
          → route_by_key (length s.children) key ≡ route_by_key (length s.children) k)
      → get d E (put d E s txn table key row).0 t other k ≡ (
          if (bytes_eq table other && same key k) && txn == t
          then some row
          else get d E s t other k)
  get-put_sharded s txn t table other key k row h v p q z n a =
      let (i, r, i-lt) = route_by_key-lt (length s.children) key h in
      let (j, r', j-lt) = route_by_key-lt (length s.children) k h in
      let (child, c) = get_elem?-lt s.children i i-lt in
      get-put_shard s txn t i j table other key k row child (v i child c) p q z n r r'
        (λ e. some_inj (sym r ∙ a e ∙ r')) c i-lt

module _ {S : Type 0} (d : Doubles) (E : StorageEngine S) where
  -- A put that a policy sends to a child in range other than the one of a key: a read of that
  -- key, by the transaction that wrote or by any other, is as it was before.
  pub get-put_missed :
      (s : Sharded S) (txn t i j : ℕ) (table other : Str) (key k : Value) (row : Tuple)
      → route_by_policy d (length s.children) (policy_for s table) row ≡ some i
      → route_by_key (length s.children) k ≡ some j
      → i ≢ j
      → i < length s.children
      → get d E (put d E s txn table key row).0 t other k ≡ get d E s t other k
  unfolding get
  get-put_missed s txn t i j table other key k row n r' apart h =
      let (child, c) = get_elem?-lt s.children i h in
      let kids = put_children_policy d E s txn i table key row child n c in
      let unmoved = get_elem?-set_ne s.children (E.put child txn table key row).0 apart in
      rw (kids, length-set, r', unmoved)
