-- ===== src/Value/Order.antt =====
-- Value::compare. What the C++ implementation does with doubles is a parameter: the
-- conversion from integers, operator<, and which patterns are NaN.
use Prim.Native.Nat.{compare, Ordering, lt, eq, gt}
use open_db.Prelude.{ℕ, zero, suc, ◌≡◌, refl, Bool, true, false, List, [], arith, ap, sym, ◌∙◌}
use open_db.Prelude.Int.{ℤ}
use open_db.Prelude.Order.{IsPreorder, flip, lex, lex_swap, lex_trans, lex-eq}
use open_db.Value.{Value, null, boolean, int32, int64, real, text, blob, date, timestamp}

-- static_cast<double> and operator< on the bit patterns of doubles.
pub record Doubles : Type 0 where
  pub of_integer : ℤ → ℕ
  pub less : ℕ → ℕ → Bool
  pub is_nan : ℕ → Bool

-- IEEE 754: on the patterns that are not NaN, < is a strict weak order; a converted integer is no NaN.
pub record IsIeee (d : Doubles) : Type 0 where
  pub integer_number : (z : ℤ) → d.is_nan (d.of_integer z) ≡ false
  pub less_irrefl : (a : ℕ) → d.is_nan a ≡ false → d.less a a ≡ false
  pub less_trans :
      (a b c : ℕ)
      → d.is_nan a ≡ false
      → d.is_nan b ≡ false
      → d.is_nan c ≡ false
      → d.less a b ≡ true
      → d.less b c ≡ true
      → d.less a c ≡ true
  pub less_weak :
      (a b c : ℕ)
      → d.is_nan a ≡ false
      → d.is_nan b ≡ false
      → d.is_nan c ≡ false
      → d.less a c ≡ true
      → d.less b c ≡ false
      → d.less a b ≡ true

-- The number that the comparison of doubles gives.
abbrev three_way : Bool → Bool → Ordering
three_way true greater = lt
three_way false true = gt
three_way false false = eq

unfoldable pub compare_doubles : Doubles → ℕ → ℕ → Ordering
compare_doubles d a b = three_way (d.less a b) (d.less b a)

abbrev bool_number : Bool → ℕ
bool_number false = 0
bool_number true = 1

-- The categories of `compare`.
abbrev pub bucket : Value → ℕ
bucket null = 0
bucket (boolean b) = 1
bucket (int32 z) = 2
bucket (int64 z) = 2
bucket (real x) = 2
bucket (text s) = 3
bucket (blob v) = 4
bucket (date z) = 2
bucket (timestamp z) = 2

-- asNumericDouble; the default 0.0 is the pattern 0.
abbrev pub numeric : Doubles → Value → ℕ
numeric d null = 0
numeric d (boolean b) = 0
numeric d (int32 z) = d.of_integer z
numeric d (int64 z) = d.of_integer z
numeric d (real x) = x
numeric d (text s) = 0
numeric d (blob v) = 0
numeric d (date z) = d.of_integer z
numeric d (timestamp z) = d.of_integer z

-- std::get of the payloads, which compare calls in their bucket only.
abbrev bool_of : Value → Bool
bool_of (boolean b) = b
bool_of v = false

abbrev bytes_of : Value → List ℕ
bytes_of (text s) = s
bytes_of (blob v) = v
bytes_of v = []

abbrev compare_in : Doubles → ℕ → Value → Value → Ordering
compare_in d zero a b = eq
compare_in d (suc zero) a b = compare (bool_number (bool_of a)) (bool_number (bool_of b))
compare_in d (suc (suc zero)) a b = compare_doubles d (numeric d a) (numeric d b)
compare_in d (suc (suc (suc n))) a b = lex (bytes_of a) (bytes_of b)

abbrev within : Ordering → Ordering → Ordering
within lt inner = lt
within eq inner = inner
within gt inner = gt

unfoldable pub compare_values : Doubles → Value → Value → Ordering
unfolding compare_doubles
compare_values d a b = within (compare (bucket a) (bucket b)) (compare_in d (bucket a) a b)

-- Not a double that is NaN.
abbrev pub NotNan : Doubles → Value → Type 0
NotNan d (real x) = d.is_nan x ≡ false
NotNan d v = Unit

module _ (d : Doubles) (ieee : IsIeee d) where
  numeric-number : (v : Value) → NotNan d v → bucket v ≡ 2 → d.is_nan (numeric d v) ≡ false
  numeric-number null n b = absurd (omega arith)
  numeric-number (boolean x) n b = absurd (omega arith)
  numeric-number (int32 z) n b = ieee.integer_number z
  numeric-number (int64 z) n b = ieee.integer_number z
  numeric-number (real x) n b = n
  numeric-number (text s) n b = absurd (omega arith)
  numeric-number (blob x) n b = absurd (omega arith)
  numeric-number (date z) n b = ieee.integer_number z
  numeric-number (timestamp z) n b = ieee.integer_number z

  doubles-IsPreorder : IsPreorder (λ a. d.is_nan a ≡ false) (compare_doubles d)
  unfolding compare_doubles
  doubles-IsPreorder = record {
    swap = λ a b p q. ground (arith, ieee.less_trans a b a p q p, ieee.less_irrefl a p);
    trans = λ a b c p q r s t. ground (arith, ieee.less_trans a b c p q r);
    congr = λ a b c p q r s. ground (
      arith,
      ieee.less_weak a b c p q r,
      ieee.less_weak b a c q p r,
      ieee.less_weak c b a r q p,
      ieee.less_weak c a b r p q,
      ieee.less_trans a c a p r p,
      ieee.less_irrefl a p,
      ieee.less_trans b c b q r q,
      ieee.less_irrefl b q,
    );
  }

  -- The laws within one bucket.
  in_swap :
      (n : ℕ) (a b : Value)
      → NotNan d a
      → NotNan d b
      → bucket a ≡ n
      → bucket b ≡ n
      → compare_in d n b a ≡ flip (compare_in d n a b)
  in_swap zero a b p q i j = refl
  in_swap (suc zero) a b p q i j = ground arith
  in_swap (suc (suc zero)) a b p q i j =
      doubles-IsPreorder.swap _ _ (numeric-number a p i) (numeric-number b q j)
  in_swap (suc (suc (suc n))) a b p q i j = lex_swap (bytes_of a) (bytes_of b)

  in_trans :
      (n : ℕ) (a b c : Value)
      → NotNan d a
      → NotNan d b
      → NotNan d c
      → bucket a ≡ n
      → bucket b ≡ n
      → bucket c ≡ n
      → compare_in d n a b ≡ lt
      → compare_in d n b c ≡ lt
      → compare_in d n a c ≡ lt
  in_trans zero a b c p q r i j k s t = cc
  in_trans (suc zero) a b c p q r i j k s t = ground arith
  in_trans (suc (suc zero)) a b c p q r i j k s t =
      doubles-IsPreorder.trans _ _ _ (numeric-number a p i) (numeric-number b q j)
        (numeric-number c r k) s t
  in_trans (suc (suc (suc n))) a b c p q r i j k s t =
      lex_trans (bytes_of a) (bytes_of b) (bytes_of c) s t

  in_congr :
      (n : ℕ) (a b c : Value)
      → NotNan d a
      → NotNan d b
      → NotNan d c
      → bucket a ≡ n
      → bucket b ≡ n
      → bucket c ≡ n
      → compare_in d n a b ≡ eq
      → compare_in d n a c ≡ compare_in d n b c
  in_congr zero a b c p q r i j k s = refl
  in_congr (suc zero) a b c p q r i j k s = ground arith
  in_congr (suc (suc zero)) a b c p q r i j k s =
      doubles-IsPreorder.congr _ _ _ (numeric-number a p i) (numeric-number b q j)
        (numeric-number c r k) s
  in_congr (suc (suc (suc n))) a b c p q r i j k s =
      ap (λ x. lex x (bytes_of c)) (lex-eq (bytes_of a) (bytes_of b) s)

  same_bucket_swap :
      (a b : Value)
      → NotNan d a
      → NotNan d b
      → bucket a ≡ bucket b
      → compare_in d (bucket b) b a ≡ flip (compare_in d (bucket a) a b)
  same_bucket_swap a b p q e =
      ap (λ n. compare_in d n b a) (sym e) ∙ in_swap (bucket a) a b p q refl (sym e)

  same_bucket_trans :
      (a b c : Value)
      → NotNan d a
      → NotNan d b
      → NotNan d c
      → bucket a ≡ bucket b
      → bucket b ≡ bucket c
      → compare_in d (bucket a) a b ≡ lt
      → compare_in d (bucket b) b c ≡ lt
      → compare_in d (bucket a) a c ≡ lt
  same_bucket_trans a b c p q r e f s t =
      in_trans (bucket a) a b c p q r refl (sym e) (omega arith) s
        (ap (λ n. compare_in d n b c) e ∙ t)

  same_bucket_congr :
      (a b c : Value)
      → NotNan d a
      → NotNan d b
      → NotNan d c
      → bucket a ≡ bucket b
      → bucket b ≡ bucket c
      → compare_in d (bucket a) a b ≡ eq
      → compare_in d (bucket a) a c ≡ compare_in d (bucket b) b c
  same_bucket_congr a b c p q r e f s =
      in_congr (bucket a) a b c p q r refl (sym e) (omega arith) s ∙ ap (λ n. compare_in d n b c) e

  -- With comparisons of doubles as in IEEE 754, on values other than NaN, compare is a total
  -- preorder: what std::map and std::sort want of it.
  pub compare_values-IsPreorder : IsPreorder (NotNan d) (compare_values d)
  unfolding compare_values
  compare_values-IsPreorder = record {
    swap = λ a b p q. ground (arith, same_bucket_swap a b p q);
    trans = λ a b c p q r s t. ground (arith, same_bucket_trans a b c p q r);
    congr = λ a b c p q r s. ground (arith, same_bucket_congr a b c p q r);
  }
