-- ===== src/Prelude/Dict.antt =====
-- std::unordered_map: an association list with at most one entry for a key. The order of the
-- list stands for the order of iteration, which the C++ library leaves open.
use open_db.Prelude.Base.{◌≡◌, refl, inl, inr, Option, none, some, List, [], ◌∷◌, arith}
use open_db.Prelude.Tests.{Eq, ◌=?◌, =?_refl, if◌then◌else◌, Bool-cases, bind}

abbrev pub Dict {ℓ κ} : Type ℓ → Type κ → Type (ℓ ⊔ κ)
Dict K V = List (K × V)

module _ {ℓ κ} {K : Type ℓ} {V : Type κ} ⦃e : Eq K⦄ where
  -- m.find(k)
  unfoldable pub find : K → Dict K V → Option V
  find k [] = none
  find k ((j, v) ∷ m) = if j =? k then some v else find k m

  -- m[k] = v
  unfoldable pub put : K → V → Dict K V → Dict K V
  put k v [] = (k, v) ∷ []
  put k v ((j, w) ∷ m) = if j =? k then (k, v) ∷ m else (j, w) ∷ put k v m

  -- m.erase(k)
  unfoldable pub erase : K → Dict K V → Dict K V
  erase k [] = []
  erase k ((j, w) ∷ m) = let rest = erase k m in if j =? k then rest else (j, w) ∷ rest

  pub find-put :
      (k j : K) (v : V) (m : Dict K V) → find j (put k v m) ≡ (if k =? j then some v else find j m)
  unfolding find put
  find-put k j v [] = refl
  find-put k j v ((i, w) ∷ m) =
      ground (arith, e.beq_iff k j, e.beq_iff i k, e.beq_iff i j, find-put k j v m)

  pub find-put_self : (k : K) (v : V) (m : Dict K V) → find k (put k v m) ≡ some v
  find-put_self k v m = rw (find-put, =?_refl)

  pub find-erase :
      (k j : K) (m : Dict K V) → find j (erase k m) ≡ (if k =? j then none else find j m)
  unfolding find erase
  find-erase k j [] = ground arith
  find-erase k j ((i, w) ∷ m) =
      ground (arith, e.beq_iff k j, e.beq_iff i k, e.beq_iff i j, find-erase k j m)

  pub find-erase_self : (k : K) (m : Dict K V) → find k (erase k m) ≡ none
  find-erase_self k m = rw (find-erase, =?_refl)

pub ruleset dict_laws = (find-put, find-erase)

-- A loop over a map that replaces or erases each entry.
abbrev cons_some {ℓ κ} : {K : Type ℓ} {W : Type κ} → K → Option W → Dict K W → Dict K W
cons_some k none m = m
cons_some k (some w) m = (k, w) ∷ m

module _ {ℓ κ μ} {K : Type ℓ} {V : Type κ} {W : Type μ} where
  unfoldable pub filter_map : (V → Option W) → Dict K V → Dict K W
  filter_map f [] = []
  filter_map f ((k, v) ∷ m) = cons_some k (f v) (filter_map f m)

module _ {ℓ κ} {K : Type ℓ} {V : Type κ} ⦃e : Eq K⦄ where
  -- No key stands twice.
  abbrev pub Unique : Dict K V → Type κ
  Unique [] = Unit
  Unique ((k, v) ∷ m) = (find k m ≡ none) × Unique m

  pub put-Unique : (k : K) (v : V) (m : Dict K V) → Unique m → Unique (put k v m)
  unfolding find put
  put-Unique k v [] u = (refl, tt)
  put-Unique k v ((j, w) ∷ m) u = elim (Bool-cases (j =? k)) [
    | inl p ↦ rw p (rw (← (e.beq_iff j k).0 p) u.0, u.1)
    | inr p ↦
        rw p (ground (arith, find-put k j v m, e.beq_iff k j, e.beq_iff j k), put-Unique k v m u.1)
  ]

  pub erase-Unique : (k : K) (m : Dict K V) → Unique m → Unique (erase k m)
  unfolding erase
  erase-Unique k [] u = tt
  erase-Unique k ((j, w) ∷ m) u = elim (Bool-cases (j =? k)) [
    | inl p ↦ rw p (erase-Unique k m u.1)
    | inr p ↦ rw p (ground (arith, find-erase k j m), erase-Unique k m u.1)
  ]

module _ {ℓ κ μ} {K : Type ℓ} {V : Type κ} {W : Type μ} ⦃e : Eq K⦄ (f : V → Option W) where
  find-filter_map_absent : (k : K) (m : Dict K V) → find k m ≡ none → find k (filter_map f m) ≡ none
  unfolding find filter_map
  find-filter_map_absent k [] h = refl
  find-filter_map_absent k ((j, v) ∷ m) h = ground (arith, find-filter_map_absent k m)

  pub find-filter_map :
      (k : K) (m : Dict K V) → Unique m → find k (filter_map f m) ≡ bind (find k m) f
  unfolding find filter_map
  find-filter_map k [] u = refl
  find-filter_map k ((j, v) ∷ m) u =
      ground (arith, e.beq_iff j k, find-filter_map k m u.1, find-filter_map_absent j m u.0)

  pub filter_map-Unique : (m : Dict K V) → Unique m → Unique (filter_map f m)
  unfolding filter_map
  filter_map-Unique [] u = tt
  filter_map-Unique ((j, v) ∷ m) u =
      ground (arith, find-filter_map_absent j m u.0, filter_map-Unique m u.1)
