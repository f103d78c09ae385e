-- ===== src/Tuple.antt =====
-- includes/opendb/types/Tuple.hpp and Column.hpp: a row, ordered columns with their values. The index
-- maps a name to its first column, so it is not stored apart: a lookup finds the first column.
pub mod Text
use open_db.Prelude.{
  ◌≡◌, refl, Bool, true, false, Option, none, some, List, [], ◌∷◌, ◌++◌, map, arith, Str,
  if◌then◌else◌, bytes_eq, bytes_Eq, bytes_eq_iff,
}
use open_db.Prelude.Dict
use open_db.Prelude.Dict.{Dict, find-put}
use open_db.Value.{Value}

abbrev pub Tuple : Type 0
Tuple = Dict Str Value

abbrev pub empty : Tuple
empty = []

unfoldable pub maybe_get : Tuple → Str → Option Value
maybe_get t name = Dict.find name t

abbrev pub is_some {ℓ} : {A : Type ℓ} → Option A → Bool
is_some none = false
is_some (some a) = true

pub has : Tuple → Str → Bool
unfolding maybe_get
has t name = is_some (maybe_get t name)

unfoldable pub set : Tuple → Str → Value → Tuple
set t name value = Dict.put name value t

abbrev pub names : Tuple → List Str
names t = map (λ column. column.0) t

-- After set(name, value), a lookup of that name gives the value and any other lookup is unchanged.
pub maybe_get-set :
    (t : Tuple) (name other : Str) (value : Value)
    → maybe_get (set t name value) other
      ≡ (if bytes_eq name other then some value else maybe_get t other)
unfolding maybe_get set
maybe_get-set t name other value = find-put name other value t

-- set() keeps the columns in place: it changes no name, or adds the new one at the end.
pub names-set :
    (t : Tuple) (name : Str) (value : Value)
    → names (set t name value) ≡ (if has t name then names t else names t ++ name ∷ [])
unfolding set has maybe_get Dict.find Dict.put
names-set [] name value = refl
names-set ((j, w) ∷ t) name value = ground (arith, bytes_eq_iff j name, names-set t name value)
