-- ===== src/Value/Examples.antt =====
-- Values on concrete inputs, and doubles that are compared like the integers they stand for.
use open_db.Value.Render.{date_to_iso, timestamp_to_iso}
use open_db.Prelude.{ℕ, ◌+◌, ◌-◌, ◌^◌, ◌≡◌, refl, false, [], ◌∷◌, ◌++◌, arith, ltb, codes}
use Prim.Native.Nat.{lt, gt}
use open_db.Prelude.Order.{IsPreorder}
use open_db.Prelude.Int.{ℤ, pos, negsuc}
use open_db.Value.{int32, int64, text, tag}
use open_db.Value.Bytes.{
  to_bytes, from_bytes, from_bytes-to_bytes, ok, payload, unknown_tag, past_end, read_payload,
  read_le, le_bytes, read_byte,
}
use open_db.Value.Order.{
  Doubles, IsIeee, NotNan, compare_values, compare_values-IsPreorder, compare_doubles,
}

abbrev of_integer : ℤ → ℕ
of_integer (pos n) = 2 ^ 63 + n
of_integer (negsuc n) = 2 ^ 63 - 1 - n

abbrev pub sample_doubles : Doubles
sample_doubles = record { of_integer = of_integer; less = ltb; is_nan = λ bits. false }

pub sample_doubles-IsIeee : IsIeee sample_doubles
sample_doubles-IsIeee = record {
  integer_number = λ z. refl;
  less_irrefl = λ a p. ground arith;
  less_trans = λ a b c p q r s t. ground arith;
  less_weak = λ a b c p q r s t. ground arith;
}

from_bytes-to_bytes_example :
    from_bytes (to_bytes (int32 (negsuc 4)) ++ 7 ∷ []) ≡ ok (int32 (negsuc 4)) (7 ∷ [])
from_bytes-to_bytes_example = from_bytes-to_bytes (int32 (negsuc 4)) (7 ∷ []) (omega arith)

compare_values-IsPreorder_example :
    IsPreorder (NotNan sample_doubles) (compare_values sample_doubles)
compare_values-IsPreorder_example = compare_values-IsPreorder sample_doubles sample_doubles-IsIeee

to_bytes_text : to_bytes (text (codes "ab")) ≡ 5 ∷ 2 ∷ 0 ∷ 0 ∷ 0 ∷ 97 ∷ 98 ∷ []
unfolding to_bytes payload tag le_bytes
to_bytes_text = refl

from_bytes_bad_tag : from_bytes (9 ∷ []) ≡ unknown_tag
unfolding from_bytes read_payload read_byte
from_bytes_bad_tag = refl

from_bytes_short : from_bytes (2 ∷ 1 ∷ 0 ∷ []) ≡ past_end
unfolding from_bytes read_payload read_byte read_le
from_bytes_short = refl

-- Values of different numeric types compare by their doubles; the types otherwise by their bucket.
compare_mixed : compare_values sample_doubles (int32 (negsuc 1)) (int64 (pos 3)) ≡ lt
unfolding compare_values compare_doubles
compare_mixed = refl

compare_buckets : compare_values sample_doubles (text []) (int64 (pos 3)) ≡ gt
unfolding compare_values compare_doubles
compare_buckets = refl

iso_epoch : date_to_iso (pos 0) ≡ codes "1970-01-01"
unfolding date_to_iso
iso_epoch = refl

iso_leap_day : date_to_iso (pos 11016) ≡ codes "2000-02-29"
unfolding date_to_iso
iso_leap_day = refl

-- The last millisecond before the epoch.
iso_before : timestamp_to_iso (negsuc 0) ≡ codes "1969-12-31T23:59:59.999Z"
unfolding timestamp_to_iso date_to_iso
iso_before = refl
