-- ===== src/Prelude/SortedMap.antt =====
-- The invariant of std::map, keys in strictly rising order, and what rests on it.
use Prim.Native.Nat.{Ordering, lt}
use open_db.Prelude.Base.{◌≡◌, refl, true, Option, none, some, [], ◌∷◌, arith, inl, inr}
use open_db.Prelude.Tests.{bind, Option-cases}
use open_db.Prelude.Order.{IsPreorder}
use open_db.Prelude.Dict
use open_db.Prelude.Dict.{Dict}
use open_db.Prelude.OrderedMap.{is_eq, find, update, insert, upsert, AllKeys, Sorted}

module _ {ℓ κ} {K : Type ℓ} {V : Type κ} (cmp : K → K → Ordering) where
  AllKeys-update {μ} :
      (Q : K → Type μ) (k : K) (v : V) (m : Dict K V)
      → AllKeys cmp Q m
      → AllKeys cmp Q (update cmp k v m)
  unfolding update
  AllKeys-update Q k v [] a = tt
  AllKeys-update Q k v ((j, w) ∷ m) a = ground (arith, AllKeys-update Q k v m a.1)

  AllKeys-insert {μ} :
      (Q : K → Type μ) (k : K) (v : V) (m : Dict K V)
      → Q k
      → AllKeys cmp Q m
      → AllKeys cmp Q (insert cmp k v m)
  unfolding insert
  AllKeys-insert Q k v [] q a = (q, tt)
  AllKeys-insert Q k v ((j, w) ∷ m) q a = ground (arith, AllKeys-insert Q k v m q a.1)

  pub AllKeys-upsert {μ} :
      (Q : K → Type μ) (k : K) (f : Option V → V) (m : Dict K V)
      → Q k
      → AllKeys cmp Q m
      → AllKeys cmp Q (upsert cmp k f m)
  unfolding upsert
  AllKeys-upsert Q k f m q a = elim (Option-cases (find cmp k m)) [
    | inl e ↦ rw (e, upsert) (AllKeys-insert Q k (f none) m q a)
    | inr (w, e) ↦ rw (e, upsert) (AllKeys-update Q k (f (some w)) m a)
  ]

  update-Sorted : (k : K) (v : V) (m : Dict K V) → Sorted cmp m → Sorted cmp (update cmp k v m)
  unfolding update
  update-Sorted k v [] s = tt
  update-Sorted k v ((j, w) ∷ m) s =
      ground (arith, update-Sorted k v m s.1, AllKeys-update (λ i. cmp j i ≡ lt) k v m s.0)

module _ {ℓ κ ν} {K : Type ℓ} {V : Type κ} {W : Type ν} (cmp : K → K → Ordering)
    (f : V → Option W) where
  pub AllKeys-filter_map {μ} :
      (Q : K → Type μ) (m : Dict K V) → AllKeys cmp Q m → AllKeys cmp Q (Dict.filter_map f m)
  unfolding Dict.filter_map
  AllKeys-filter_map Q [] a = tt
  AllKeys-filter_map Q ((j, v) ∷ m) a = ground (arith, AllKeys-filter_map Q m a.1)

  pub filter_map-Sorted : (m : Dict K V) → Sorted cmp m → Sorted cmp (Dict.filter_map f m)
  unfolding Dict.filter_map
  filter_map-Sorted [] s = tt
  filter_map-Sorted ((j, v) ∷ m) s =
      ground (arith, filter_map-Sorted m s.1, AllKeys-filter_map (λ i. cmp j i ≡ lt) m s.0)

module _ {ℓ κ μ} {K : Type ℓ} {V : Type κ} {P : K → Type μ} {cmp : K → K → Ordering}
    (o : IsPreorder P cmp) where
  below_all :
      (k j : K) (m : Dict K V)
      → P k
      → P j
      → AllKeys cmp P m
      → cmp k j ≡ lt
      → AllKeys cmp (λ i. cmp j i ≡ lt) m
      → AllKeys cmp (λ i. cmp k i ≡ lt) m
  below_all k j [] p q a h b = tt
  below_all k j ((i, v) ∷ m) p q a h b =
      (o.trans k j i p q a.0 h b.0, below_all k j m p q a.1 h b.1)

  insert-Sorted :
      (k : K) (v : V) (m : Dict K V)
      → P k
      → AllKeys cmp P m
      → find cmp k m ≡ none
      → Sorted cmp m
      → Sorted cmp (insert cmp k v m)
  unfolding insert find
  insert-Sorted k v [] p a n s = (tt, tt)
  insert-Sorted k v ((j, w) ∷ m) p a n s = ground (
    arith,
    insert-Sorted k v m p a.1,
    o.swap j k a.0 p,
    below_all k j m p a.0 a.1,
    AllKeys-insert cmp (λ i. cmp j i ≡ lt) k v m,
  )

  -- Writing an entry keeps the keys in order.
  pub upsert-Sorted :
      (k : K) (f : Option V → V) (m : Dict K V)
      → P k
      → AllKeys cmp P m
      → Sorted cmp m
      → Sorted cmp (upsert cmp k f m)
  unfolding upsert
  upsert-Sorted k f m p a s = elim (Option-cases (find cmp k m)) [
    | inl e ↦ rw (e, upsert) (insert-Sorted k (f none) m p a e s)
    | inr (w, e) ↦ rw (e, upsert) (update-Sorted cmp k (f (some w)) m s)
  ]

  find_below :
      (k j : K) (m : Dict K V)
      → P k
      → P j
      → AllKeys cmp P m
      → is_eq (cmp j k) ≡ true
      → AllKeys cmp (λ i. cmp j i ≡ lt) m
      → find cmp k m ≡ none
  unfolding find
  find_below k j [] p q a e b = refl
  find_below k j ((i, v) ∷ m) p q a e b =
      ground (arith, find_below k j m p q a.1 e, o.congr j k i q p a.0, o.swap k i p a.0)

module _ {ℓ κ μ ν} {K : Type ℓ} {V : Type κ} {W : Type ν} {P : K → Type μ} {cmp : K → K → Ordering}
    (o : IsPreorder P cmp) (f : V → Option W) where
  find-filter_map_absent :
      (k : K) (m : Dict K V) → find cmp k m ≡ none → find cmp k (Dict.filter_map f m) ≡ none
  unfolding find Dict.filter_map
  find-filter_map_absent k [] n = refl
  find-filter_map_absent k ((j, v) ∷ m) n = ground (arith, find-filter_map_absent k m)

  -- After a loop that replaces or erases each entry, a key finds what became of its entry.
  pub find-filter_map :
      (k : K) (m : Dict K V)
      → P k
      → AllKeys cmp P m
      → Sorted cmp m
      → find cmp k (Dict.filter_map f m) ≡ bind (find cmp k m) f
  unfolding find Dict.filter_map
  find-filter_map k [] p a s = refl
  find-filter_map k ((j, v) ∷ m) p a s = ground (
    arith,
    find-filter_map k m p a.1 s.1,
    find-filter_map_absent k m,
    find_below o k j m p a.0 a.1,
  )
