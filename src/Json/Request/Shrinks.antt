-- ===== src/Json/Request/Shrinks.antt =====
-- What parseString and skipWhitespace of JsonEncoder.hpp read.
use open_db.Prelude.{
  ℕ, zero, suc, ◌+◌, ◌*◌, ◌≤◌, ◌<◌, Option, none, some, [], ◌∷◌, Str, length, arith, Bool-cases,
  Option-cases, inl, inr, ◌==◌, ◌||◌,
}
use open_db.Json.Strings.{
  Mode, plain, escape, hex, string_loop, parse_string, pushed, unescape, hex_digit, utf8,
}
use open_db.Json.Request.{skip_whitespace}

abbrev pub Shrinks : ℕ → Option (Str × Str) → Type 0
Shrinks n none = Unit
Shrinks n (some (a, r)) = length r < n

pub pushed-Shrinks :
    (n : ℕ) (bytes : Str) (o : Option (Str × Str)) → Shrinks n o → Shrinks (suc n) (pushed bytes o)
pushed-Shrinks n bytes none h = tt
pushed-Shrinks n bytes (some (a, r)) h = omega arith

pub Shrinks-suc : (n : ℕ) (o : Option (Str × Str)) → Shrinks n o → Shrinks (suc n) o
Shrinks-suc n none h = tt
Shrinks-suc n (some (a, r)) h = omega arith

pub string_loop-Shrinks : (mode : Mode) (s : Str) → Shrinks (length s) (string_loop mode s)
unfolding string_loop
string_loop-Shrinks mode [] = tt
string_loop-Shrinks plain (c ∷ s) = elim (Bool-cases (c == b'"')) [
  | inl e ↦ rw (e, string_loop) (omega arith)
  | inr e ↦ elim (Bool-cases (c == b'\\')) [
    | inl f ↦ rw (e, f, string_loop) (Shrinks-suc _ _ (string_loop-Shrinks escape s))
    | inr f ↦ rw (e, f, string_loop) (pushed-Shrinks _ (c ∷ []) _ (string_loop-Shrinks plain s))
  ]
]
string_loop-Shrinks escape (c ∷ s) = elim (Bool-cases (c == b'u')) [
  | inl e ↦ rw (e, string_loop) (Shrinks-suc _ _ (string_loop-Shrinks (hex 3 0) s))
  | inr e ↦ elim (Option-cases (unescape c)) [
    | inl f ↦ rw (e, f, string_loop) tt
    | inr (b, f) ↦
        rw (e, f, string_loop) (pushed-Shrinks _ (b ∷ []) _ (string_loop-Shrinks plain s))
  ]
]
string_loop-Shrinks (hex zero code) (c ∷ s) = elim (Option-cases (hex_digit c)) [
  | inl f ↦ rw (f, string_loop) tt
  | inr (v, f) ↦
      rw (f, string_loop) (pushed-Shrinks _ (utf8 (code * 16 + v)) _ (string_loop-Shrinks plain s))
]
string_loop-Shrinks (hex (suc n) code) (c ∷ s) = elim (Option-cases (hex_digit c)) [
  | inl f ↦ rw (f, string_loop) tt
  | inr (v, f) ↦
      rw (f, string_loop) (Shrinks-suc _ _ (string_loop-Shrinks (hex n (code * 16 + v)) s))
]

pub parse_string-Shrinks : (s : Str) → Shrinks (length s) (parse_string s)
unfolding parse_string
parse_string-Shrinks [] = tt
parse_string-Shrinks (c ∷ s) = elim (Bool-cases (c == b'"')) [
  | inl e ↦ rw (e, parse_string) (Shrinks-suc _ _ (string_loop-Shrinks plain s))
  | inr e ↦ rw (e, parse_string) tt
]

pub length-skip_whitespace : (s : Str) → length (skip_whitespace s) ≤ length s
unfolding skip_whitespace
length-skip_whitespace [] = omega arith
length-skip_whitespace (c ∷ s) = elim (Bool-cases (c == b' ' || (c == 9 || (c == 10 || c == 13)))) [
  | inl e ↦ rw (e, skip_whitespace) (omega (arith, length-skip_whitespace s))
  | inr e ↦ rw (e, skip_whitespace) (omega arith)
]
