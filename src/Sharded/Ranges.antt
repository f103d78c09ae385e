-- ===== src/Sharded/Ranges.antt =====
-- Which shard a range policy picks.
use Prim.Native.Nat.{Ordering, lt, eq, gt}
use open_db.Prelude.{
  ℕ, zero, suc, ◌≡◌, refl, ◌≢◌, true, false, ◌&&◌, not, Option, none, some, List, [], ◌∷◌,
  get_elem?, arith, Bool-cases, inl, inr,
}
use open_db.Value.{Value}
use open_db.Value.Order.{Doubles, compare_values}
use open_db.Sharded.{range_shard, succ_option, is_less}

-- The value is at or above boundary i and below boundary i + 1.
pub record InInterval (d : Doubles) (v : Value) (bs : List Value) (i : ℕ) : Type 0 where
  pub low : Value
  pub high : Value
  pub low_at : get_elem? bs i ≡ some low
  pub high_at : get_elem? bs (suc i) ≡ some high
  pub from_low : compare_values d v low ≢ lt
  pub below_high : compare_values d v high ≡ lt

is_less-lt : (o : Ordering) → is_less o ≡ true → o ≡ lt
is_less-lt lt e = refl
is_less-lt eq e = cc
is_less-lt gt e = cc

not_less : (o : Ordering) → is_less o ≡ false → o ≢ lt
not_less lt e = cc
not_less eq e = λ f. cc
not_less gt e = λ f. cc

InInterval-cons :
    (d : Doubles) (v b : Value) (bs : List Value) (i j : ℕ)
    → i ≡ suc j
    → InInterval d v bs j
    → InInterval d v (b ∷ bs) i
InInterval-cons d v b bs i j e x = rw e (record {
  low = x.low;
  high = x.high;
  low_at = x.low_at;
  high_at = x.high_at;
  from_low = x.from_low;
  below_high = x.below_high;
})

succ_option-some :
    (o : Option ℕ) (i : ℕ) → succ_option o ≡ some i → (j : ℕ) × (o ≡ some j) × (i ≡ suc j)
succ_option-some none i e = cc
succ_option-some (some j) i e = (j, refl, ground arith)

some-zero : (i : ℕ) → some zero ≡ some i → i ≡ 0
some-zero i e = ground arith

-- A shard that the range policy picks has the value in its interval.
pub range_shard-InInterval :
    (d : Doubles) (v : Value) (bs : List Value) (i : ℕ)
    → range_shard d v bs ≡ some i
    → InInterval d v bs i
unfolding range_shard
range_shard-InInterval d v [] i e = cc
range_shard-InInterval d v (b ∷ []) i e = cc
range_shard-InInterval d v (b ∷ c ∷ bs) i e =
    elim (Bool-cases (not (is_less (compare_values d v b)) && is_less (compare_values d v c))) [
      | inl t ↦ rw (some-zero i (rw t at e)) (record {
        low = b;
        high = c;
        low_at = refl;
        high_at = refl;
        from_low = not_less (compare_values d v b) (ground arith);
        below_high = is_less-lt (compare_values d v c) (ground arith);
      })
      | inr t ↦
          let (j, f, g) = succ_option-some (range_shard d v (c ∷ bs)) i (rw t at e) in
          InInterval-cons d v b (c ∷ bs) i j g (range_shard-InInterval d v (c ∷ bs) j f)
    ]
