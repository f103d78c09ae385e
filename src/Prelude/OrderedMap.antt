-- ===== src/Prelude/OrderedMap.antt =====
-- std::map with a comparison function: a list of entries in the order of their keys, at most one for
-- each class of keys that compare equal.
use Prim.Native.Nat.{Ordering, lt, eq, gt}
use open_db.Prelude.Base.{
  ◌≡◌, refl, Bool, true, false, Option, none, some, [], ◌∷◌, arith, inl, inr,
}
use open_db.Prelude.Tests.{if◌then◌else◌, Option-cases}
use open_db.Prelude.Order.{IsPreorder}
use open_db.Prelude.Dict.{Dict}

abbrev pub is_eq : Ordering → Bool
is_eq lt = false
is_eq eq = true
is_eq gt = false

module _ {ℓ κ} {K : Type ℓ} {V : Type κ} (cmp : K → K → Ordering) where
  -- m.find(k)
  unfoldable pub find : K → Dict K V → Option V
  find k [] = none
  find k ((j, v) ∷ m) = if is_eq (cmp j k) then some v else find k m

  -- The value of the entry of `k`, which is there, becomes `v`; the stored key stays.
  unfoldable pub update : K → V → Dict K V → Dict K V
  update k v [] = []
  update k v ((j, w) ∷ m) = if is_eq (cmp j k) then (j, v) ∷ m else (j, w) ∷ update k v m

  -- A new entry, before the first greater key.
  unfoldable pub insert : K → V → Dict K V → Dict K V
  insert k v [] = (k, v) ∷ []
  insert k v ((j, w) ∷ m) = elim (cmp j k) [
    | lt ↦ (j, w) ∷ insert k v m
    | eq ↦ (k, v) ∷ (j, w) ∷ m
    | gt ↦ (k, v) ∷ (j, w) ∷ m
  ]

  -- m[k] = f(m[k]), where the new entry of operator[] starts from `none`.
  unfoldable pub upsert : K → (Option V → V) → Dict K V → Dict K V
  unfolding find update insert
  upsert k f m = elim (find k m) [ some v ↦ update k (f (some v)) m | none ↦ insert k (f none) m ]

  abbrev pub AllKeys {μ} : (K → Type μ) → Dict K V → Type μ
  AllKeys P [] = Unit
  AllKeys P ((j, v) ∷ m) = P j × AllKeys P m

  -- Each key is below all later ones.
  abbrev pub Sorted : Dict K V → Type ℓ
  Sorted [] = Unit
  Sorted ((j, v) ∷ m) = AllKeys (λ k. cmp j k ≡ lt) m × Sorted m

  pub AllKeys-map {μ ν} :
      {P : K → Type μ} {Q : K → Type ν} (m : Dict K V)
      → ((k : K) → P k → Q k)
      → AllKeys P m
      → AllKeys Q m
  AllKeys-map [] f a = tt
  AllKeys-map ((j, v) ∷ m) f a = (f j a.0, AllKeys-map m f a.1)

module _ {ℓ κ μ} {K : Type ℓ} {V : Type κ} {P : K → Type μ} {cmp : K → K → Ordering}
    (o : IsPreorder P cmp) where
  find-congr :
      (j k : K) (m : Dict K V)
      → P j
      → P k
      → AllKeys cmp P m
      → is_eq (cmp j k) ≡ true
      → find cmp j m ≡ find cmp k m
  unfolding find
  find-congr j k [] p q a e = refl
  find-congr j k ((i, v) ∷ m) p q a e =
      ground (
        arith,
        find-congr j k m p q a.1 e,
        o.congr j k i p q a.0,
        o.swap j i p a.0,
        o.swap k i q a.0,
      )

  find-update :
      (j k : K) (v : V) (m : Dict K V)
      → P j
      → P k
      → AllKeys cmp P m
      → (w : V) → find cmp j m ≡ some w
      → find cmp k (update cmp j v m) ≡ (if is_eq (cmp j k) then some v else find cmp k m)
  unfolding find update
  find-update j k v [] p q a w e = cc
  find-update j k v ((i, u) ∷ m) p q a w e = ground (
    arith,
    find-update j k v m p q a.1 w,
    o.congr i j k a.0 p q,
    o.congr j k i p q a.0,
    o.swap j i p a.0,
    o.swap k i q a.0,
  )

  find-insert :
      (j k : K) (v : V) (m : Dict K V)
      → P j
      → P k
      → AllKeys cmp P m
      → find cmp k (insert cmp j v m) ≡ (if is_eq (cmp j k) then some v else find cmp k m)
  unfolding find insert
  find-insert j k v [] p q a = refl
  find-insert j k v ((i, u) ∷ m) p q a = ground (
    arith,
    find-insert j k v m p q a.1,
    o.congr i j k a.0 p q,
    o.congr j k i p q a.0,
    o.swap j i p a.0,
    o.swap k i q a.0,
  )

  -- The entry written, for every key that compares equal to its key; all others as they were.
  pub find-upsert :
      (j k : K) (f : Option V → V) (m : Dict K V)
      → P j
      → P k
      → AllKeys cmp P m
      → find cmp k (upsert cmp j f m)
        ≡ (if is_eq (cmp j k) then some (f (find cmp k m)) else find cmp k m)
  unfolding upsert
  find-upsert j k f m p q a = elim (Option-cases (find cmp j m)) [
    | inl e ↦
        rw (e, upsert)
          (rw (find-insert j k (f none) m p q a) (ground (arith, find-congr j k m p q a, e)))
    | inr (w, e) ↦
        rw (e, upsert)
          (rw (find-update j k (f (some w)) m p q a w e)
            (ground (arith, find-congr j k m p q a, e)))
  ]
