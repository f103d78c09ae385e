-- ===== src/Value/Equality.antt =====
-- operator== of Value: the tags must agree. On doubles it is == of IEEE 754, which holds of two numbers
-- of which neither is below the other, and of no NaN.
use open_db.Prelude.{ℕ, Bool, true, false, ◌&&◌, not, ◌==◌, bytes_eq}
use open_db.Prelude.Int.{ℤ, pos, negsuc}
use open_db.Value.{Value, null, boolean, int32, int64, real, text, blob, date, timestamp}
use open_db.Value.Order.{Doubles}

abbrev bool_eq : Bool → Bool → Bool
bool_eq true b = b
bool_eq false b = not b

abbrev ℤ_eq : ℤ → ℤ → Bool
ℤ_eq (pos m) (pos n) = m == n
ℤ_eq (pos m) (negsuc n) = false
ℤ_eq (negsuc m) (pos n) = false
ℤ_eq (negsuc m) (negsuc n) = m == n

abbrev double_eq : Doubles → ℕ → ℕ → Bool
double_eq d a b = (not (d.is_nan a) && not (d.is_nan b)) && (not (d.less a b) && not (d.less b a))

unfoldable pub value_eq : Doubles → Value → Value → Bool
value_eq d null null = true
value_eq d (boolean a) (boolean b) = bool_eq a b
value_eq d (int32 a) (int32 b) = ℤ_eq a b
value_eq d (int64 a) (int64 b) = ℤ_eq a b
value_eq d (real a) (real b) = double_eq d a b
value_eq d (text a) (text b) = bytes_eq a b
value_eq d (blob a) (blob b) = bytes_eq a b
value_eq d (date a) (date b) = ℤ_eq a b
value_eq d (timestamp a) (timestamp b) = ℤ_eq a b
value_eq d a b = false
