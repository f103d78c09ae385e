-- ===== src/Engine/Table.antt =====
-- ResultSet::toString of includes/opendb/types/Result.hpp: the rows as a table of text. The names of a
-- row are distinct, so the loop over its columns puts into a cell the value of the header's name.
use Prim.Native.Nat.{max}
use open_db.Prelude.{
  ℕ, zero, suc, ◌-◌, Option, none, some, List, [], ◌∷◌, ◌++◌, Str, codes, map, length,
}
use open_db.Prelude.Text.{joined}
use open_db.Value.{Value}
use open_db.Value.Render.{to_string}
use open_db.Tuple.{Tuple, maybe_get, names}
use open_db.Engine.{ResultSet}

unfoldable pub repeated : ℕ → ℕ → Str
repeated zero c = []
repeated (suc n) c = c ∷ repeated n c

abbrev cell : (ℕ → Str) → Option Value → Str
cell print_double none = codes "NULL"
cell print_double (some v) = to_string print_double v

module _ (print_double : ℕ → Str) where
  abbrev cells : List Str → Tuple → List Str
  cells headers row = map (λ h. cell print_double (maybe_get row h)) headers

  -- The header or the widest value below it; the NULL of a missing column does not count.
  unfoldable pub column_width : Str → List Tuple → ℕ
  column_width h [] = length h
  column_width h (row ∷ rows) =
      max (column_width h rows)
        (elim (maybe_get row h) [ none ↦ 0 | some v ↦ length (to_string print_double v) ])

abbrev padded_cell : Str → ℕ → Str
padded_cell s width = s ++ repeated (width - length s) b' '

unfoldable pub padded_cells : List Str → List ℕ → List Str
padded_cells [] widths = []
padded_cells (s ∷ ss) [] = s ∷ ss
padded_cells (s ∷ ss) (w ∷ ws) = padded_cell s w ∷ padded_cells ss ws

abbrev table_line : List ℕ → List Str → Str
table_line widths ss =
    codes "| " ++ joined (codes " | ") (padded_cells ss widths) ++ codes " |" ++ 10 ∷ []

abbrev separator_line : List ℕ → Str
separator_line widths =
    codes "|-" ++ joined (codes "-+-") (map (λ w. repeated w b'-') widths) ++ codes "-|" ++ 10 ∷ []

unfoldable pub lines : List ℕ → List (List Str) → Str
lines widths [] = []
lines widths (ss ∷ rest) = table_line widths ss ++ lines widths rest

unfoldable pub table : (ℕ → Str) → List Str → List Tuple → Str
table print_double headers rows =
    let widths = map (λ h. column_width print_double h rows) headers in
    table_line widths headers
    ++ separator_line widths
    ++ lines widths (map (cells print_double headers) rows)

unfoldable pub result_to_string : (ℕ → Str) → ResultSet → Str
result_to_string print_double rs = elim rs.rows [
  | [] ↦ codes "(no rows)" ++ 10 ∷ []
  | row ∷ rows ↦ table print_double (names row) (row ∷ rows)
]
