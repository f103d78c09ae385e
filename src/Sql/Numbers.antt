-- ===== src/Sql/Numbers.antt =====
-- Integer literals of src/SqlParser.cpp: the decimal text of a number is read as that number.
use open_db.Prelude.{
  ℕ, zero, suc, ◌+◌, ◌-◌, ◌*◌, ◌/◌, ◌%◌, ◌^◌, ◌≤◌, ◌<◌, ◌≡◌, refl, true, false, ◌||◌, none, [], ◌∷◌,
  ◌++◌, Str, arith, ◌==◌, Bool-cases, inl, inr, codes, ltb, leb, bind,
}
use open_db.Prelude.Int.{pos}
use open_db.Value.{int64}
use open_db.Value.Render.{decimal, decimal_loop}
use open_db.Sql.Parser.{Parser, ok, ◌>>=◌, ◌>>◌, branch}
use open_db.Sql.Scan.{is_digit, at_boundary, skip_round, strip_keyword, consume_keyword}
use open_db.Sql.Literals.{
  Number, number_loop, with_digits, scan_number, is_exponent, is_quote, is_sign, digits_value,
  clamp_positive, strtoll, number_value, number_taken, consume_number, literal_at,
  consume_value_literal,
}
use open_db.Sql.Tokens.{All, skip_stays}

-- A text that does not go on with a character of a number.
abbrev pub EndsNumber : Str → Type 0
EndsNumber [] = Unit
EndsNumber (c ∷ s) = (is_digit c || (c == b'.' || is_exponent c)) ≡ false

abbrev integer : Str → Str → Number
integer digits left = record { digits = digits; left = left; has_dot = false; has_exp = false }

number_loop-digit :
    (c : ℕ) (s : Str)
    → is_digit c ≡ true
    → number_loop false false (c ∷ s) ≡ with_digits (c ∷ []) (number_loop false false s)
unfolding number_loop
number_loop-digit c [] h = rw h refl
number_loop-digit c (d ∷ s) h = rw (h, number_loop) refl

number_loop-end : (s : Str) → EndsNumber s → number_loop false false s ≡ integer [] s
unfolding number_loop
number_loop-end [] e = refl
number_loop-end (c ∷ []) e = ground arith
number_loop-end (c ∷ d ∷ s) e = ground arith

number_loop-append :
    (s rest : Str)
    → All is_digit s
    → EndsNumber rest
    → number_loop false false (s ++ rest) ≡ integer s rest
number_loop-append [] rest a e = number_loop-end rest e
number_loop-append (c ∷ s) rest a e =
    rw (number_loop-digit c (s ++ rest) a.0, number_loop-append s rest a.1 e) refl

digit_stays : (c : ℕ) (s : Str) → is_digit c ≡ true → skip_round (c ∷ s) ≡ none
unfolding skip_round
digit_stays c [] h = ground arith
digit_stays c (d ∷ s) h = ground arith

digit_unsigned : (c : ℕ) → is_digit c ≡ true → is_sign c ≡ false
digit_unsigned c h = ground arith

digit_unquoted : (c : ℕ) → is_digit c ≡ true → is_quote c ≡ false
digit_unquoted c h = ground arith

-- No keyword begins with a digit.
strip_digit :
    (k : ℕ) (ks : Str) (c : ℕ) (s : Str)
    → leb 65 k ≡ true
    → is_digit c ≡ true
    → bind (strip_keyword (k ∷ ks) (c ∷ s)) (λ t. at_boundary t) ≡ none
unfolding strip_keyword
strip_digit k ks c s l h = ground arith

digit_keyword :
    (p : Parser) (k : ℕ) (ks : Str) (c : ℕ) (s : Str)
    → leb 65 k ≡ true
    → is_digit c ≡ true
    → consume_keyword (k ∷ ks) (record p { rest = c ∷ s }) ≡ ok false (record p { rest = c ∷ s })
unfolding consume_keyword ◌>>◌ ◌>>=◌
digit_keyword p k ks c s l h =
    rw (skip_stays (record p { rest = c ∷ s }) (digit_stays c s h), strip_digit k ks c s l h) refl

scan_digits :
    (c : ℕ) (w rest : Str)
    → is_digit c ≡ true
    → All is_digit w
    → EndsNumber rest
    → scan_number (c ∷ (w ++ rest)) ≡ integer (c ∷ w) rest
unfolding scan_number
scan_digits c w rest h a e = rw (digit_unsigned c h, number_loop-append (c ∷ w) rest (h, a) e) refl

strtoll_digits :
    (c : ℕ) (w : Str)
    → is_digit c ≡ true
    → strtoll (c ∷ w) ≡ clamp_positive (digits_value 0 (c ∷ w))
unfolding strtoll
strtoll_digits c w h = ground arith

module _ (strtod : Str → ℕ) (p : Parser) where
  consume_number_digits :
      (c : ℕ) (w rest : Str)
      → is_digit c ≡ true
      → All is_digit w
      → EndsNumber rest
      → consume_number strtod (record p { rest = c ∷ (w ++ rest) })
        ≡ ok (int64 (clamp_positive (digits_value 0 (c ∷ w)))) (record p { rest = rest })
  unfolding consume_number number_taken number_value
  consume_number_digits c w rest h a e = rw (scan_digits c w rest h a e, strtoll_digits c w h) refl

  literal_digits :
      (c : ℕ) (w rest : Str)
      → is_digit c ≡ true
      → All is_digit w
      → EndsNumber rest
      → consume_value_literal strtod (record p { rest = c ∷ (w ++ rest) })
        ≡ ok (int64 (clamp_positive (digits_value 0 (c ∷ w)))) (record p { rest = rest })
  unfolding consume_value_literal literal_at branch ◌>>=◌ ◌>>◌
  literal_digits c w rest h a e =
      rw
        (
          skip_stays (record p { rest = c ∷ (w ++ rest) }) (digit_stays c (w ++ rest) h),
          digit_unquoted c h,
          digit_keyword p b'T' (codes "RUE") c (w ++ rest) refl h,
          digit_keyword p b'F' (codes "ALSE") c (w ++ rest) refl h,
          digit_keyword p b'N' (codes "ULL") c (w ++ rest) refl h,
        )
        (consume_number_digits c w rest h a e)

digits_value-append :
    (acc : ℕ) (s : Str) (d : ℕ)
    → digits_value acc (s ++ d ∷ []) ≡ digits_value acc s * 10 + (d - 48)
unfolding digits_value
digits_value-append acc [] d = refl
digits_value-append acc (c ∷ s) d = digits_value-append (acc * 10 + (c - 48)) s d

digits_value-decimal_loop : (fuel n : ℕ) → n ≤ fuel → digits_value 0 (decimal_loop fuel n) ≡ n
unfolding digits_value decimal_loop
digits_value-decimal_loop zero n h = ground arith
digits_value-decimal_loop (suc fuel) n h = elim (Bool-cases (ltb n 10)) [
  | inl e ↦ rw e (ground arith)
  | inr e ↦
      rw
        (
          e,
          digits_value-append 0 (decimal_loop fuel (n / 10)) (48 + n % 10),
          digits_value-decimal_loop fuel (n / 10) (ground arith),
        )
        (omega arith)
]

-- A text of digits, of at least one.
abbrev IsDigits : Str → Type 0
IsDigits [] = ⊥
IsDigits (c ∷ w) = (is_digit c ≡ true) × All is_digit w

All-append : (s : Str) (d : ℕ) → All is_digit s → is_digit d ≡ true → All is_digit (s ++ d ∷ [])
All-append [] d a h = (h, tt)
All-append (c ∷ s) d a h = (a.0, All-append s d a.1 h)

append-IsDigits : (s : Str) (d : ℕ) → IsDigits s → is_digit d ≡ true → IsDigits (s ++ d ∷ [])
append-IsDigits [] d i h = absurd i
append-IsDigits (c ∷ w) d i h = (i.0, All-append w d i.1 h)

decimal_loop-IsDigits : (fuel n : ℕ) → IsDigits (decimal_loop fuel n)
unfolding decimal_loop
decimal_loop-IsDigits zero n = (ground arith, tt)
decimal_loop-IsDigits (suc fuel) n = elim (Bool-cases (ltb n 10)) [
  | inl e ↦ rw e (ground arith, tt)
  | inr e ↦ rw e (
      append-IsDigits (decimal_loop fuel (n / 10)) _ (decimal_loop-IsDigits fuel (n / 10))
        (ground arith))
]

clamp_small : (n : ℕ) → n < 2 ^ 63 → clamp_positive n ≡ pos n
clamp_small n h = ground arith

literal_IsDigits :
    (strtod : Str → ℕ) (p : Parser) (s rest : Str) (n : ℕ)
    → IsDigits s
    → digits_value 0 s ≡ n
    → n < 2 ^ 63
    → EndsNumber rest
    → consume_value_literal strtod (record p { rest = s ++ rest })
      ≡ ok (int64 (pos n)) (record p { rest = rest })
literal_IsDigits strtod p [] rest n i v l e = absurd i
literal_IsDigits strtod p (c ∷ w) rest n i v l e =
    rw (literal_digits strtod p c w rest i.0 i.1 e, v, clamp_small n l) refl

-- The decimal text of a number below 2^63, followed by no digit, dot or exponent, is read as that
-- number, and the parser stands behind it.
pub consume_value_literal-decimal :
    (strtod : Str → ℕ) (p : Parser) (n : ℕ) (rest : Str)
    → n < 2 ^ 63
    → EndsNumber rest
    → consume_value_literal strtod (record p { rest = decimal n ++ rest })
      ≡ ok (int64 (pos n)) (record p { rest = rest })
consume_value_literal-decimal strtod p n rest l e =
    literal_IsDigits strtod p (decimal n) rest n (decimal_loop-IsDigits n n)
      (digits_value-decimal_loop n n (omega arith)) l e
