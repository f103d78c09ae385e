-- ===== src/Prelude/Order.antt =====
-- Three-way comparison, and the laws that std::map wants of it on the keys in use.
use Prim.Native.Nat.{compare, Ordering, lt, eq, gt}
use open_db.Prelude.Base.{ℕ, ◌≡◌, refl, List, [], ◌∷◌, arith}

abbrev pub flip : Ordering → Ordering
flip lt = gt
flip eq = eq
flip gt = lt

-- A total preorder on the values where `P` holds.
pub record IsPreorder {ℓ κ} {A : Type ℓ} (P : A → Type κ) (cmp : A → A → Ordering)
    : Type (ℓ ⊔ κ) where
  pub swap : (a b : A) → P a → P b → cmp b a ≡ flip (cmp a b)
  pub trans : (a b c : A) → P a → P b → P c → cmp a b ≡ lt → cmp b c ≡ lt → cmp a c ≡ lt
  pub congr : (a b c : A) → P a → P b → P c → cmp a b ≡ eq → cmp a c ≡ cmp b c

module _ {ℓ κ} {A : Type ℓ} {P : A → Type κ} {cmp : A → A → Ordering} (o : IsPreorder P cmp) where
  pub cmp_refl : (a : A) → P a → cmp a a ≡ eq
  cmp_refl a p = ground (arith, o.swap a a p p)

-- Lexicographic comparison, as of std::string and std::vector<uint8_t>.
abbrev pub then_compare : Ordering → Ordering → Ordering
then_compare lt o = lt
then_compare eq o = o
then_compare gt o = gt

abbrev pub lex : List ℕ → List ℕ → Ordering
lex [] [] = eq
lex [] (y ∷ ys) = lt
lex (x ∷ xs) [] = gt
lex (x ∷ xs) (y ∷ ys) = then_compare (compare x y) (lex xs ys)

pub lex_swap : (a b : List ℕ) → lex b a ≡ flip (lex a b)
lex_swap [] [] = refl
lex_swap [] (y ∷ ys) = refl
lex_swap (x ∷ xs) [] = refl
lex_swap (x ∷ xs) (y ∷ ys) = ground (arith, lex_swap xs ys)

pub lex_trans : (a b c : List ℕ) → lex a b ≡ lt → lex b c ≡ lt → lex a c ≡ lt
lex_trans [] [] c p q = cc
lex_trans [] (y ∷ ys) [] p q = cc
lex_trans [] (y ∷ ys) (z ∷ zs) p q = refl
lex_trans (x ∷ xs) [] c p q = cc
lex_trans (x ∷ xs) (y ∷ ys) [] p q = cc
lex_trans (x ∷ xs) (y ∷ ys) (z ∷ zs) p q = ground (arith, lex_trans xs ys zs)

pub lex-eq : (a b : List ℕ) → lex a b ≡ eq → a ≡ b
lex-eq [] [] p = refl
lex-eq [] (y ∷ ys) p = cc
lex-eq (x ∷ xs) [] p = cc
lex-eq (x ∷ xs) (y ∷ ys) p = ground (arith, lex-eq xs ys)

pub lex_refl : (a : List ℕ) → lex a a ≡ eq
lex_refl [] = refl
lex_refl (x ∷ xs) = ground (arith, lex_refl xs)
