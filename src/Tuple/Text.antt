-- ===== src/Tuple/Text.antt =====
-- operator== and toString of includes/opendb/types/Tuple.hpp.
use open_db.Prelude.{ℕ, Bool, true, false, ◌&&◌, [], ◌∷◌, ◌++◌, Str, codes, map, bytes_eq}
use open_db.Prelude.Text.{joined}
use open_db.Value.Order.{Doubles}
use open_db.Value.Equality.{value_eq}
use open_db.Value.Render.{to_string}
use open_db.Tuple.{Tuple}

-- The columns, one by one: the order counts.
unfoldable pub tuple_eq : Doubles → Tuple → Tuple → Bool
tuple_eq d [] [] = true
tuple_eq d [] (c ∷ u) = false
tuple_eq d (c ∷ t) [] = false
tuple_eq d ((name, v) ∷ t) ((other, w) ∷ u) =
    (bytes_eq name other && value_eq d v w) && tuple_eq d t u

unfoldable pub tuple_to_string : (ℕ → Str) → Tuple → Str
tuple_to_string print_double t =
    joined (codes ",") (map (λ c. c.0 ++ b'=' ∷ to_string print_double c.1) t)
