-- ===== src/Sql/Progress/Literals.antt =====
-- consumeStringLiteral and consumeValueLiteral of src/SqlParser.cpp read what they accept.
use open_db.Prelude.{
  ℕ, suc, ◌+◌, ◌≤◌, ◌≡◌, Bool, true, false, not, ◌&&◌, [], ◌∷◌, Str, arith, ◌==◌, length,
  Bool-cases, inl, inr,
}
use open_db.Value.{null, boolean, text}
use open_db.Sql.Parser.{Parser}
use open_db.Sql.Scan.{is_digit}
use open_db.Sql.Literals.{
  literal_body, close_literal, is_quote, string_at, consume_string_literal, Number, is_exponent,
  is_sign, number_loop, scan_number, number_taken, consume_number, literal_at,
  consume_value_literal,
}
use open_db.Sql.Progress.{
  Within, Spends, one, >>=-Spends, >>-Spends, pure-Spends, fail-Spends, branch-Spends,
}
use open_db.Sql.Progress.Tokens.{skip-Spends, consume_keyword-Spends}

length-literal_body :
    (quote : ℕ) (s : Str)
    → length (literal_body quote s).0 + length (literal_body quote s).1 ≡ length s
unfolding literal_body
length-literal_body quote [] = omega arith
length-literal_body quote (c ∷ []) = ground arith
length-literal_body quote (c ∷ d ∷ s) = elim (Bool-cases (c == quote)) [
  | inl e ↦ rw (e, length) (omega arith)
  | inr e ↦ elim (Bool-cases (c == b'\\')) [
    | inl f ↦ rw (e, f, length) (omega (arith, length-literal_body quote s))
    | inr f ↦ rw (e, f, length) (omega (arith, length-literal_body quote (d ∷ s)))
  ]
]

close_literal-Within :
    (p : Parser) (parts : Str × Str) {n : ℕ}
    → suc (length parts.1) ≤ n
    → Within one n (close_literal p parts)
unfolding close_literal
close_literal-Within p (body, []) h = omega arith
close_literal-Within p (body, c ∷ left) h = omega arith

string_at-Within :
    (p : Parser) (s : Str) {n : ℕ} → length s ≤ n → length p.rest ≤ n → Within one n (string_at p s)
unfolding string_at
string_at-Within p [] h k = k
string_at-Within p (c ∷ s) {n} h k = elim (Bool-cases (is_quote c)) [
  | inl e ↦
      rw (e, Within)
        (close_literal-Within p (literal_body c s) (omega (arith, length-literal_body c s)))
  | inr e ↦ rw (e, Within) k
]

pub consume_string_literal-Spends : Spends 0 one consume_string_literal
unfolding consume_string_literal
consume_string_literal-Spends =
    >>-Spends skip-Spends
      (record { run = λ p. string_at-Within p p.rest (omega arith) (omega arith) })

-- The digits and what is left are the text.
length-number_loop :
    (dot exp : Bool) (s : Str)
    → length (number_loop dot exp s).digits + length (number_loop dot exp s).left ≡ length s
unfolding number_loop
length-number_loop dot exp [] = omega arith
length-number_loop dot exp (c ∷ []) = ground arith
length-number_loop dot exp (c ∷ d ∷ s) = elim (Bool-cases (is_digit c)) [
  | inl e ↦ rw (e, length) (omega (arith, length-number_loop dot exp (d ∷ s)))
  | inr e ↦ elim (Bool-cases (c == b'.' && not dot && not exp)) [
    | inl f ↦ rw (e, f, length) (omega (arith, length-number_loop true exp (d ∷ s)))
    | inr f ↦ elim (Bool-cases (is_exponent c && not exp)) [
      | inl g ↦ elim (Bool-cases (is_sign d)) [
        | inl h ↦ rw (e, f, g, h, length) (omega (arith, length-number_loop dot true s))
        | inr h ↦ rw (e, f, g, h, length) (omega (arith, length-number_loop dot true (d ∷ s)))
      ]
      | inr g ↦ rw (e, f, g, length) (omega arith)
    ]
  ]
]

length-scan_number :
    (s : Str) → length (scan_number s).digits + length (scan_number s).left ≡ length s
unfolding scan_number
length-scan_number [] = length-number_loop false false []
length-scan_number (c ∷ s) =
    ground (arith, length-number_loop false false s, length-number_loop false false (c ∷ s))

module _ (strtod : Str → ℕ) where
  number_taken-Within :
      (n : Number) (digits : Str) (p : Parser)
      → length digits + length n.left ≡ length p.rest
      → Within one (length p.rest) (number_taken strtod n digits p)
  unfolding number_taken
  number_taken-Within n [] p h = omega arith
  number_taken-Within n (c ∷ cs) p h = omega arith

  consume_number-Spends : Spends 0 one (consume_number strtod)
  unfolding consume_number
  consume_number-Spends = record {
    run = λ p. ground (
      arith,
      length-scan_number p.rest,
      number_taken-Within (scan_number p.rest) (scan_number p.rest).digits p,
    );
  }

  literal_at-Spends : (s : Str) → Spends 0 one (literal_at strtod s)
  unfolding literal_at
  literal_at-Spends [] = fail-Spends
  literal_at-Spends (c ∷ s) = elim (Bool-cases (is_quote c)) [
    | inl e ↦
        rw e (>>=-Spends consume_string_literal-Spends λ s. pure-Spends (text s) (omega arith))
    | inr e ↦ rw e (
        branch-Spends (consume_keyword-Spends _ _) (pure-Spends (boolean true) (omega arith)) (
          branch-Spends (consume_keyword-Spends _ _) (pure-Spends (boolean false) (omega arith)) (
            branch-Spends (consume_keyword-Spends _ _) (pure-Spends null (omega arith))
              consume_number-Spends)))
  ]

  pub consume_value_literal-Spends : Spends 0 one (consume_value_literal strtod)
  unfolding consume_value_literal
  consume_value_literal-Spends =
      >>-Spends skip-Spends (record { run = λ p. (literal_at-Spends p.rest).run p })
