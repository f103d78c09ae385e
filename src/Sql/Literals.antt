-- ===== src/Sql/Literals.antt =====
-- src/SqlParser.cpp: consumeStringLiteral and consumeValueLiteral. strtod is a parameter, from the
-- characters of a number to the bit pattern of the double.
use open_db.Prelude.{
  ℕ, zero, suc, ◌+◌, ◌-◌, ◌*◌, ◌^◌, Bool, true, false, not, ◌&&◌, ◌||◌, [], ◌∷◌, ◌++◌, Str, codes,
  ltb, ◌==◌, if◌then◌else◌,
}
use open_db.Prelude.Int.{ℤ, pos, negsuc}
use open_db.Value.{Value, null, boolean, int64, real, text}
use open_db.Value.Render.{decimal}
use open_db.Sql.Parser.{Parser, position, Result, ok, fail, Parse, pure, ◌>>=◌, ◌>>◌, branch}
use open_db.Sql.Scan.{is_digit, skip, consume_keyword}

abbrev cons_to : Str → Str × Str → Str × Str
cons_to cs (body, left) = (cs ++ body, left)

-- The loop to the closing quote: a backslash takes the next character along, and both stay in the text.
unfoldable pub literal_body : ℕ → Str → Str × Str
literal_body quote [] = ([], [])
literal_body quote (c ∷ []) = if c == quote then ([], c ∷ []) else (c ∷ [], [])
literal_body quote (c ∷ d ∷ s) = elim (c == quote) [
  | true ↦ ([], c ∷ d ∷ s)
  | false ↦ elim (c == b'\\') [
    | true ↦ cons_to (c ∷ d ∷ []) (literal_body quote s)
    | false ↦ cons_to (c ∷ []) (literal_body quote (d ∷ s))
  ]
]

unfoldable pub close_literal : Parser → Str × Str → Result Str
close_literal p (body, []) =
    fail (record p { rest = []; error = codes "unterminated string literal" })
close_literal p (body, c ∷ left) = ok body (record p { rest = left })

abbrev pub is_quote : ℕ → Bool
is_quote c = c == b'\'' || c == b'"'

unfoldable pub string_at : Parser → Str → Result Str
string_at p [] = fail p
string_at p (c ∷ s) = if is_quote c then close_literal p (literal_body c s) else fail p

unfoldable pub consume_string_literal : Parse Str
consume_string_literal = skip >> λ p. string_at p p.rest

pub record Number : Type 0 where
  pub digits : Str
  pub left : Str
  pub has_dot : Bool
  pub has_exp : Bool

abbrev pub with_digits : Str → Number → Number
with_digits cs n = record n { digits = cs ++ n.digits }

abbrev pub is_sign : ℕ → Bool
is_sign c = c == b'+' || c == b'-'

abbrev pub is_exponent : ℕ → Bool
is_exponent c = c == b'e' || c == b'E'

-- The loop over the digits of a number.
unfoldable pub number_loop : Bool → Bool → Str → Number
number_loop dot exp [] = record { digits = []; left = []; has_dot = dot; has_exp = exp }
number_loop dot exp (c ∷ []) =
    if is_digit c
    then record { digits = c ∷ []; left = []; has_dot = dot; has_exp = exp }
    else if c == b'.' && not dot && not exp
    then record { digits = c ∷ []; left = []; has_dot = true; has_exp = exp }
    else if is_exponent c && not exp
    then record { digits = c ∷ []; left = []; has_dot = dot; has_exp = true }
    else record { digits = []; left = c ∷ []; has_dot = dot; has_exp = exp }
number_loop dot exp (c ∷ d ∷ s) = elim (is_digit c) [
  | true ↦ with_digits (c ∷ []) (number_loop dot exp (d ∷ s))
  | false ↦ elim (c == b'.' && not dot && not exp) [
    | true ↦ with_digits (c ∷ []) (number_loop true exp (d ∷ s))
    | false ↦ elim (is_exponent c && not exp) [
      | true ↦ elim (is_sign d) [
        | true ↦ with_digits (c ∷ d ∷ []) (number_loop dot true s)
        | false ↦ with_digits (c ∷ []) (number_loop dot true (d ∷ s))
      ]
      | false ↦ record { digits = []; left = c ∷ d ∷ s; has_dot = dot; has_exp = exp }
    ]
  ]
]

-- The optional sign before the loop.
unfoldable pub scan_number : Str → Number
scan_number [] = number_loop false false []
scan_number (c ∷ s) =
    if is_sign c
    then with_digits (c ∷ []) (number_loop false false s)
    else number_loop false false (c ∷ s)

unfoldable pub digits_value : ℕ → Str → ℕ
digits_value acc [] = acc
digits_value acc (c ∷ s) = digits_value (acc * 10 + (c - 48)) s

-- strtoll clamps at the ends of the range of long long.
abbrev pub clamp_positive : ℕ → ℤ
clamp_positive n = if ltb n (2 ^ 63) then pos n else pos (2 ^ 63 - 1)

abbrev clamp_negative : ℕ → ℤ
clamp_negative zero = pos 0
clamp_negative (suc n) = if ltb n (2 ^ 63) then negsuc n else negsuc (2 ^ 63 - 1)

-- strtoll in base 10, of an optional sign and digits.
unfoldable pub strtoll : Str → ℤ
strtoll [] = pos 0
strtoll (c ∷ s) =
    if c == b'-'
    then clamp_negative (digits_value 0 s)
    else if c == b'+'
    then clamp_positive (digits_value 0 s)
    else clamp_positive (digits_value 0 (c ∷ s))

module _ (strtod : Str → ℕ) where
  unfoldable pub number_value : Number → Value
  number_value n =
      if n.has_dot || n.has_exp then real (strtod n.digits) else int64 (strtoll n.digits)

  -- `[]` is pos_ == start
  unfoldable pub number_taken : Number → Str → Parse Value
  number_taken n [] p =
      fail
        (record p { error = codes "expected value literal at position " ++ decimal (position p) })
  number_taken n (c ∷ cs) p = ok (number_value n) (record p { rest = n.left })

  unfoldable pub consume_number : Parse Value
  consume_number p = number_taken (scan_number p.rest) (scan_number p.rest).digits p

  unfoldable pub literal_at : Str → Parse Value
  literal_at [] = λ p. fail p
  literal_at (c ∷ s) =
      if is_quote c
      then (consume_string_literal >>= λ s. pure (text s))
      else branch (consume_keyword (codes "TRUE")) (pure (boolean true)) (
          branch (consume_keyword (codes "FALSE")) (pure (boolean false))
            (branch (consume_keyword (codes "NULL")) (pure null) consume_number))

  unfoldable pub consume_value_literal : Parse Value
  consume_value_literal = skip >> λ p. literal_at p.rest p
