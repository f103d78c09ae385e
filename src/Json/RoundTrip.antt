-- ===== src/Json/RoundTrip.antt =====
-- escapeJson against parseString: what the encoder writes between quotes is read back.
use mathlib.Core.List.{append_assoc}
use open_db.Prelude.{
  ℕ, ◌%◌, ◌/◌, ◌<◌, ◌≡◌, refl, true, false, Option, some, [], ◌∷◌, ◌++◌, ltb, arith, Str,
  Bool-cases, inl, inr, ◌==◌,
}
use open_db.Json.{escaped, escape_json, quoted, hex_char}
use open_db.Json.Strings.{plain, hex, string_loop, parse_string, pushed, hex_digit}

hex_digit-hex_char : (n : ℕ) → n < 16 → hex_digit (hex_char n) ≡ some n
hex_digit-hex_char n h = ground arith

control_char :
    (c : ℕ) (t : Str)
    → c < 32
    → string_loop (hex 3 0) (b'0' ∷ b'0' ∷ hex_char (c / 16) ∷ hex_char (c % 16) ∷ t)
      ≡ pushed (c ∷ []) (string_loop plain t)
unfolding string_loop
control_char c t h =
    ground
      (arith, hex_digit-hex_char (c / 16) (omega arith), hex_digit-hex_char (c % 16) (omega arith))

pushed_same :
    (b c : ℕ) (r : Option (Str × Str)) → (c == b) ≡ true → pushed (b ∷ []) r ≡ pushed (c ∷ []) r
pushed_same b c r h = ground arith

plain_char :
    (c : ℕ) (t : Str)
    → (c == b'"') ≡ false
    → (c == b'\\') ≡ false
    → string_loop plain (c ∷ t) ≡ pushed (c ∷ []) (string_loop plain t)
unfolding string_loop
plain_char c t h k = rw (h, k, string_loop) refl

string_loop-escaped :
    (c : ℕ) (t : Str) → string_loop plain (escaped c ++ t) ≡ pushed (c ∷ []) (string_loop plain t)
unfolding string_loop escaped
string_loop-escaped c t = elim (Bool-cases (c == b'"')) [
  | inl e ↦ rw (e) (pushed_same b'"' c _ e)
  | inr n0 ↦ elim (Bool-cases (c == b'\\')) [
    | inl e ↦ rw (n0, e) (pushed_same b'\\' c _ e)
    | inr n1 ↦ elim (Bool-cases (c == 8)) [
      | inl e ↦ rw (n0, n1, e) (pushed_same 8 c _ e)
      | inr n2 ↦ elim (Bool-cases (c == 12)) [
        | inl e ↦ rw (n0, n1, n2, e) (pushed_same 12 c _ e)
        | inr n3 ↦ elim (Bool-cases (c == 10)) [
          | inl e ↦ rw (n0, n1, n2, n3, e) (pushed_same 10 c _ e)
          | inr n4 ↦ elim (Bool-cases (c == 13)) [
            | inl e ↦ rw (n0, n1, n2, n3, n4, e) (pushed_same 13 c _ e)
            | inr n5 ↦ elim (Bool-cases (c == 9)) [
              | inl e ↦ rw (n0, n1, n2, n3, n4, n5, e) (pushed_same 9 c _ e)
              | inr n6 ↦ elim (Bool-cases (ltb c 32)) [
                | inl e ↦ rw (n0, n1, n2, n3, n4, n5, n6, e) (control_char c t (ground arith))
                | inr e ↦ rw (n0, n1, n2, n3, n4, n5, n6, e) (plain_char c t n0 n1)
              ]
            ]
          ]
        ]
      ]
    ]
  ]
]

string_loop-escape_json :
    (s rest : Str) → string_loop plain (escape_json s ++ b'"' ∷ rest) ≡ some (s, rest)
unfolding escape_json
string_loop-escape_json [] rest = unfold string_loop in refl
string_loop-escape_json (c ∷ s) rest =
    rw
      (
        append_assoc (escaped c) (escape_json s) (b'"' ∷ rest),
        string_loop-escaped c (escape_json s ++ b'"' ∷ rest),
        string_loop-escape_json s rest,
      )
      refl

-- A string that the encoder escapes and puts between quotes is read back by the parser of
-- requests as it was, whatever its bytes are and whatever follows it.
pub parse_string-quoted :
    (s rest : Str) → parse_string (quoted (escape_json s) ++ rest) ≡ some (s, rest)
unfolding parse_string
parse_string-quoted s rest =
    rw (append_assoc (escape_json s) (b'"' ∷ []) rest) (string_loop-escape_json s rest)
