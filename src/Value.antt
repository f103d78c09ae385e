-- ===== src/Value.antt =====
-- includes/opendb/types/Value.hpp: the tagged scalar, its wire format, equality, order and text.
-- A double is its 64-bit pattern; arithmetic on doubles is a parameter (Value/Order.antt).
pub mod Bytes
pub mod Order
pub mod Equality
pub mod Render
pub mod Examples
use open_db.Prelude.{ℕ, Bool, true, false, List, Str, ◌==◌, bytes_eq, ◌&&◌, not}
use open_db.Prelude.Int.{ℤ, pos, negsuc}

pub data Value : Type 0 where
  null : Value
  boolean : Bool → Value
  int32 int64 : ℤ → Value
  real : ℕ → Value
  text : Str → Value
  blob : List ℕ → Value
  date timestamp : ℤ → Value

-- The numbers of the enum ValueType.
unfoldable pub tag : Value → ℕ
tag null = 0
tag (boolean b) = 1
tag (int32 z) = 2
tag (int64 z) = 3
tag (real bits) = 4
tag (text s) = 5
tag (blob bytes) = 6
tag (date z) = 7
tag (timestamp z) = 8

unfoldable pub is_null : Value → Bool
is_null null = true
is_null v = false
