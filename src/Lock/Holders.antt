-- ===== src/Lock/Holders.antt =====
-- The holders of one lock: membership, distinctness, and what granting and giving up do to them.
use open_db.Prelude.{
  ℕ, ◌≡◌, refl, ◌≢◌, Bool, true, false, ◌||◌, Option, none, some, List, [], ◌∷◌, ◌++◌, arith, ◌==◌,
  if◌then◌else◌, ◌⊎◌, inl, inr, ap, ==_iff,
}
use open_db.Lock.{
  LockMode, shared, exclusive, Lock, contains, remove_holder, granted_lock, drop_holder, holds,
  grantable_lock, is_empty,
}

-- No transaction stands twice.
abbrev pub Distinct : List ℕ → Type 0
Distinct [] = Unit
Distinct (h ∷ hs) = (contains h hs ≡ false) × Distinct hs

-- A lock that is held has a holder, and each holder once.
pub record IsProper (l : Lock) : Type 0 where
  pub occupied : l.holders ≢ []
  pub distinct : Distinct l.holders

empty-cases : {A : Type 0} (xs : List A) → (xs ≡ []) ⊎ ((xs ≢ []) × (is_empty xs ≡ false))
empty-cases [] = inl refl
empty-cases (x ∷ xs) = inr (λ e. cc, refl)

-- A test gives the same answer on equal numbers.
pub same_test : (a b : ℕ) (f : ℕ → Bool) → (a == b) ≡ true → f a ≡ f b
same_test a b f h = ap f ((==_iff a b).0 h)

pub contains-append :
    (t h : ℕ) (hs : List ℕ) → contains t (hs ++ h ∷ []) ≡ (contains t hs || h == t)
unfolding contains
contains-append t h [] = ground arith
contains-append t h (x ∷ hs) = ground (arith, contains-append t h hs)

append-Distinct :
    (h : ℕ) (hs : List ℕ) → contains h hs ≡ false → Distinct hs → Distinct (hs ++ h ∷ [])
unfolding contains
append-Distinct h [] n d = (refl, tt)
append-Distinct h (x ∷ hs) n d = ground (arith, contains-append x h hs, append-Distinct h hs)

append-ne-nil : (h : ℕ) (hs : List ℕ) → (hs ++ h ∷ []) ≢ []
append-ne-nil h [] = λ e. cc
append-ne-nil h (x ∷ hs) = λ e. cc

pub contains-remove_holder :
    (t h : ℕ) (hs : List ℕ)
    → Distinct hs
    → contains t (remove_holder h hs) ≡ (if h == t then false else contains t hs)
unfolding contains remove_holder
contains-remove_holder t h [] d = ground arith
contains-remove_holder t h (x ∷ hs) d = ground (arith, contains-remove_holder t h hs)

remove_holder-Distinct : (h : ℕ) (hs : List ℕ) → Distinct hs → Distinct (remove_holder h hs)
unfolding remove_holder
remove_holder-Distinct h [] d = tt
remove_holder-Distinct h (x ∷ hs) d =
    ground (arith, contains-remove_holder x h hs, remove_holder-Distinct h hs)

-- What holds of a lock that may be absent.
abbrev pub Each {ℓ} : (Lock → Type ℓ) → Option Lock → Type ℓ
Each P none = Unit
Each P (some l) = P l

pub granted_lock-IsProper :
    (o : Option Lock) (txn : ℕ) (mode : LockMode)
    → Each IsProper o
    → IsProper (granted_lock o txn mode)
unfolding contains
granted_lock-IsProper none txn mode p = record { occupied = λ e. cc; distinct = (refl, tt) }
granted_lock-IsProper (some l) txn shared p =
    ground (arith, append-Distinct txn l.holders, append-ne-nil txn l.holders)
granted_lock-IsProper (some l) txn exclusive p = ground arith

pub drop_holder-IsProper : (txn : ℕ) (l : Lock) → IsProper l → Each IsProper (drop_holder txn l)
drop_holder-IsProper txn l p = elim (empty-cases (remove_holder txn l.holders)) [
  | inl e ↦ ground (arith, ap is_empty e)
  | inr f ↦ ground (arith, remove_holder-Distinct txn l.holders p.distinct)
]

-- Who holds a lock after a grant: the new holder, and whoever held it unless a new exclusive holder
-- displaced them.
pub holds-granted_lock :
    (o : Option Lock) (txn t : ℕ) (mode : LockMode)
    → grantable_lock o txn mode ≡ true
    → holds t (some (granted_lock o txn mode)) ≡ (txn == t || holds t o)
unfolding contains
holds-granted_lock none txn t mode g = ground arith
holds-granted_lock (some l) txn t shared g = ground (arith, contains-append t txn l.holders)
holds-granted_lock (some l) txn t exclusive g =
    ground (arith, same_test txn t (λ h. contains h l.holders))

pub holds-drop_holder :
    (txn t : ℕ) (l : Lock)
    → IsProper l
    → holds t (drop_holder txn l) ≡ (if txn == t then false else contains t l.holders)
unfolding contains
holds-drop_holder txn t l p = elim (empty-cases (remove_holder txn l.holders)) [
  | inl e ↦
      let gone = contains-remove_holder t txn l.holders p.distinct in
      ground (arith, ap is_empty e, rw e at gone, same_test txn t (λ h. contains h l.holders))
  | inr f ↦ ground (
    arith,
    contains-remove_holder t txn l.holders p.distinct,
    same_test txn t (λ h. contains h l.holders),
  )
]
