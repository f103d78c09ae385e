-- ===== src/Command/Text.antt =====
-- toString of includes/opendb/types/Command.hpp.
use open_db.Prelude.{ℕ, Bool, true, false, Option, none, some, List, [], ◌∷◌, ◌++◌, Str, codes, map}
use open_db.Prelude.Text.{joined}
use open_db.Value.Render.{decimal}
use open_db.Tuple.Text.{tuple_to_string}
use open_db.Command.{
  CommandType, select, insert, update, delete, SortDirection, asc, desc, OrderBySpec, JoinKind,
  inner, left, JoinClause, Command,
}

abbrev type_text : CommandType → Str
type_text select = codes "Select"
type_text insert = codes "Insert"
type_text update = codes "Update"
type_text delete = codes "Delete"

abbrev direction_text : SortDirection → Str
direction_text asc = codes ":asc"
direction_text desc = codes ":desc"

abbrev nulls_text : Option Bool → Str
nulls_text none = []
nulls_text (some true) = codes ":nullsFirst"
nulls_text (some false) = codes ":nullsLast"

abbrev order_text : OrderBySpec → Str
order_text s = s.column ++ direction_text s.direction ++ nulls_text s.nulls_first

abbrev kind_text : JoinKind → Str
kind_text inner = codes "Inner"
kind_text left = codes "Left"

abbrev join_text : JoinClause → Str
join_text j = kind_text j.kind ++ b':' ∷ j.table ++ b':' ∷ j.left_column ++ b'=' ∷ j.right_column

-- ` label=text`, if there is something to print.
abbrev field : {A : Type 0} → Str → (A → Str) → Option A → Str
field label print none = []
field label print (some a) = b' ' ∷ (label ++ b'=' ∷ print a)

-- ` label=[a,b]`, if there is an element.
abbrev list_field : {A : Type 0} → Str → (A → Str) → List A → Str
list_field label print [] = []
list_field label print (a ∷ rest) =
    b' ' ∷ (label ++ codes "=[" ++ joined (codes ",") (map print (a ∷ rest)) ++ codes "]")

-- `print_filter` is toString of the WHERE clause.
unfoldable pub command_to_string : {W : Type 0} → (ℕ → Str) → (W → Str) → Command W → Str
command_to_string print_double print_filter c =
    type_text c.type
    ++ codes " table="
    ++ c.table
    ++ field (codes "where") print_filter c.filter
    ++ field (codes "values") (tuple_to_string print_double) c.values
    ++ list_field (codes "proj") (λ column. column) c.projections
    ++ list_field (codes "orderBy") order_text c.order_by
    ++ field (codes "limit") decimal c.limit
    ++ field (codes "offset") decimal c.offset
    ++ list_field (codes "joins") join_text c.joins
    ++ field (codes "txn") (λ txn. codes "Txn" ++ decimal txn) c.txn_id
