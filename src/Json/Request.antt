-- ===== src/Json/Request.antt =====
-- The request parser of JsonEncoder.hpp: json_detail::JsonParser and parseJsonRequest. A function takes
-- the text from pos_ on and leaves what stands behind the part that it has read.
pub mod Shrinks
pub mod Progress
pub mod Overflow
pub mod Query
use open_db.Prelude.{
  ℕ, zero, suc, ◌+◌, ◌-◌, ◌*◌, ◌%◌, ◌^◌, Bool, true, false, ◌||◌, Option, none, some, [], ◌∷◌, ◌++◌,
  ltb, ◌==◌, if◌then◌else◌, Str, codes, length, bytes_eq,
}
use open_db.Value.Render.{is_nil}
use open_db.Sql.Scan.{span, is_digit, strip_symbol}
use open_db.Sql.Literals.{digits_value, is_sign}
use open_db.Json.Strings.{parse_string}

pub record JsonRequest : Type 0 where
  pub type : Str
  pub sql : Str
  pub txn_id : Option ℕ

-- `refused` is the answer false; `overflow` is the crash of a call for which the stack has no room;
-- `exhausted` never occurs (Json/Request/Progress.antt).
pub data Outcome (A : Type 0) : Type 0 where
  done : A → Str → Outcome A
  refused overflow exhausted : Outcome A

module _ {A B : Type 0} where
  abbrev pub and_then : Outcome A → (A → Str → Outcome B) → Outcome B
  and_then (done a s) f = f a s
  and_then refused f = refused
  and_then overflow f = overflow
  and_then exhausted f = exhausted

abbrev pub outcome : {A : Type 0} → Option (A × Str) → Outcome A
outcome none = refused
outcome (some (a, s)) = done a s

unfoldable pub skip_whitespace : Str → Str
skip_whitespace [] = []
skip_whitespace (c ∷ s) = elim (c == b' ' || (c == 9 || (c == 10 || c == 13))) [
  | true ↦ skip_whitespace s
  | false ↦ c ∷ s
]

abbrev pub symbol_at : ℕ → Str → Outcome (Unit {0})
symbol_at symbol [] = refused
symbol_at symbol (c ∷ s) = if c == symbol then done tt s else refused

-- A key and the colon behind it.
unfoldable pub parse_key : Str → Outcome Str
parse_key s =
    and_then (outcome (parse_string (skip_whitespace s)))
      λ key r. and_then (symbol_at b':' (skip_whitespace r)) λ _ t. done key t

module _ {A : Type 0} where
  -- Behind an opening bracket: the closing one, or the loop.
  abbrev pub opened : ℕ → A → (Str → Outcome A) → Str → Outcome A
  opened close a next [] = next []
  opened close a next (c ∷ s) = elim (c == close) [ true ↦ done a s | false ↦ next (c ∷ s) ]

  -- Behind an element: a comma and the next round, or the closing bracket.
  abbrev pub closed : ℕ → A → (Str → Outcome A) → Str → Outcome A
  closed close a next [] = refused
  closed close a next (c ∷ s) = elim (c == b',') [
    | true ↦ next s
    | false ↦ elim (c == close) [ true ↦ done a s | false ↦ refused ]
  ]

abbrev pub literal_of : Str → Str → Outcome (Unit {0})
literal_of word s = elim (strip_symbol word s) [ none ↦ refused | some r ↦ done tt r ]

-- true, false, null and numbers; a sign without digits counts as a number.
unfoldable pub skip_scalar : ℕ → Str → Outcome (Unit {0})
skip_scalar c s =
    if c == b't'
    then literal_of (codes "true") (c ∷ s)
    else if c == b'f'
    then literal_of (codes "false") (c ∷ s)
    else if c == b'n'
    then literal_of (codes "null") (c ∷ s)
    else if is_sign c || is_digit c
    then done tt (span is_digit s).1
    else refused

abbrev pub ignored : Option (Str × Str) → Outcome (Unit {0})
ignored none = refused
ignored (some (a, s)) = done tt s

unfoldable pub skip_head :
    (Str → Outcome (Unit {0})) → (Str → Outcome (Unit {0})) → Str → Outcome (Unit {0})
skip_head members items [] = refused
skip_head members items (c ∷ s) = elim (c == b'"') [
  | true ↦ ignored (parse_string (c ∷ s))
  | false ↦ elim (c == b'{') [
    | true ↦ opened b'}' tt members (skip_whitespace s)
    | false ↦ elim (c == b'[') [
      | true ↦ opened b']' tt items (skip_whitespace s)
      | false ↦ skip_scalar c s
    ]
  ]
]

-- skipValue, and the loops over the members of an object and the items of an array in it.
pub data Skipping : Type 0 where
  value members items : Skipping

-- `frames` calls of skipValue more have room on the stack, which skipValue does not check.
unfoldable pub skip_on : ℕ → ℕ → Skipping → Str → Outcome (Unit {0})
skip_on zero frames k s = exhausted
skip_on (suc fuel) zero value s = overflow
skip_on (suc fuel) (suc frames) value s =
    skip_head (skip_on fuel frames members) (skip_on fuel frames items) (skip_whitespace s)
skip_on (suc fuel) frames members s = and_then (parse_key s) λ key t.
    and_then (skip_on fuel frames value t)
      λ _ r. closed b'}' tt (skip_on fuel frames members) (skip_whitespace r)
skip_on (suc fuel) frames items s =
    and_then (skip_on fuel frames value s)
      λ _ r. closed b']' tt (skip_on fuel frames items) (skip_whitespace r)

-- Each call but the one for an item is on a shorter text.
unfoldable pub skip_value : ℕ → Str → Outcome (Unit {0})
skip_value frames s = skip_on (2 * length s + 1) frames value s

abbrev pub signed_digits : Str → Str × Str → Option (Str × Str)
signed_digits sign (digits, s) = if is_nil (sign ++ digits) then none else some (sign ++ digits, s)

abbrev pub number_from : Str → Option (Str × Str)
number_from [] = none
number_from (c ∷ s) =
    if is_sign c
    then signed_digits (c ∷ []) (span is_digit s)
    else signed_digits [] (span is_digit (c ∷ s))

unfoldable pub parse_number_as_string : Str → Option (Str × Str)
parse_number_as_string s = number_from (skip_whitespace s)

abbrev pub in_range : Str → ℕ → Option ℕ
in_range digits n = if is_nil digits then none else if ltb n (2 ^ 64) then some n else none

abbrev pub negated : Option ℕ → Option ℕ
negated none = none
negated (some n) = some ((2 ^ 64 - n) % 2 ^ 64)

-- std::stoull of a sign and digits; a negative number wraps.
unfoldable pub stoull : Str → Option ℕ
stoull [] = none
stoull (c ∷ s) =
    if c == b'-'
    then negated (in_range s (digits_value 0 s))
    else if c == b'+'
    then in_range s (digits_value 0 s)
    else in_range (c ∷ s) (digits_value 0 (c ∷ s))

abbrev pub with_txn : JsonRequest → Str → Option ℕ → Outcome JsonRequest
with_txn r s none = refused
with_txn r s (some n) = done (record r { txn_id = some n }) s

-- The value of one member; only the known keys are kept.
unfoldable pub parse_member : ℕ → JsonRequest → Str → Str → Outcome JsonRequest
parse_member frames r key s = elim (bytes_eq key (codes "type")) [
  | true ↦ and_then (outcome (parse_string s)) λ v t. done (record r { type = v }) t
  | false ↦ elim (bytes_eq key (codes "sql")) [
    | true ↦ and_then (outcome (parse_string s)) λ v t. done (record r { sql = v }) t
    | false ↦ elim (bytes_eq key (codes "txnId")) [
      | true ↦ and_then (outcome (parse_number_as_string s)) λ v t. with_txn r t (stoull v)
      | false ↦ and_then (skip_value frames s) λ _ t. done r t
    ]
  ]
]

unfoldable pub object_loop : ℕ → ℕ → JsonRequest → Str → Outcome JsonRequest
object_loop zero frames r s = exhausted
object_loop (suc fuel) frames r s = and_then (parse_key s) λ key t.
    and_then (parse_member frames r key (skip_whitespace t))
      λ r' u. closed b'}' r' (object_loop fuel frames r') (skip_whitespace u)

-- parseObject; a round that goes on has read a character.
unfoldable pub parse_object : ℕ → JsonRequest → Str → Outcome JsonRequest
parse_object frames r s =
    and_then (symbol_at b'{' (skip_whitespace s))
      λ _ t. opened b'}' r (object_loop (suc (length t)) frames r) (skip_whitespace t)

abbrev pub with_type : JsonRequest → Str → Outcome JsonRequest
with_type r s = if is_nil r.type then refused else done r s

-- parseJsonRequest, on a stack with room for `frames` nested calls of skipValue; what follows the object is not looked at.
unfoldable pub parse_json_request : ℕ → Str → Outcome JsonRequest
parse_json_request frames json =
    and_then (parse_object frames (record { type = []; sql = []; txn_id = none }) json) with_type
