-- ===== src/Json/Strings.antt =====
-- parseString of json_detail::JsonParser in JsonEncoder.hpp: the text between two quotes, with its
-- escapes undone. One character is one step; the mode says where in the loop body it is read.
use open_db.Prelude.{
  ℕ, zero, suc, ◌+◌, ◌-◌, ◌*◌, ◌%◌, ◌/◌, true, false, ◌&&◌, Option, none, some, [], ◌∷◌, ◌++◌, ltb,
  leb, ◌==◌, if◌then◌else◌, Str,
}

-- `hex n code`: n digits of \uXXXX follow the one that is read next, and `code` has been read.
pub data Mode : Type 0 where
  plain escape : Mode
  hex : ℕ → ℕ → Mode

-- The characters that a letter behind a backslash stands for.
abbrev pub unescape : ℕ → Option ℕ
unescape c =
    if c == b'"'
    then some b'"'
    else if c == b'\\'
    then some b'\\'
    else if c == b'/'
    then some b'/'
    else if c == b'b'
    then some 8
    else if c == b'f'
    then some 12
    else if c == b'n'
    then some 10
    else if c == b'r'
    then some 13
    else if c == b't'
    then some 9
    else none

abbrev pub hex_digit : ℕ → Option ℕ
hex_digit h =
    if leb b'0' h && leb h b'9'
    then some (h - 48)
    else if leb b'a' h && leb h b'f'
    then some (h - 87)
    else if leb b'A' h && leb h b'F'
    then some (h - 55)
    else none

-- The bytes of a code below 2^16.
abbrev pub utf8 : ℕ → Str
utf8 code =
    if ltb code 128
    then code ∷ []
    else if ltb code 2048
    then (192 + code / 64) ∷ (128 + code % 64) ∷ []
    else (224 + code / 4096) ∷ (128 + code / 64 % 64) ∷ (128 + code % 64) ∷ []

-- out.push_back of bytes that stand before what the rest of the loop gives.
abbrev pub pushed : Str → Option (Str × Str) → Option (Str × Str)
pushed bytes none = none
pushed bytes (some (s, rest)) = some (bytes ++ s, rest)

-- The loop; with the text it gives what stands behind the closing quote.
unfoldable pub string_loop : Mode → Str → Option (Str × Str)
string_loop mode [] = none
string_loop plain (c ∷ s) = elim (c == b'"') [
  | true ↦ some ([], s)
  | false ↦ elim (c == b'\\') [
    | true ↦ string_loop escape s
    | false ↦ pushed (c ∷ []) (string_loop plain s)
  ]
]
string_loop escape (c ∷ s) = elim (c == b'u') [
  | true ↦ string_loop (hex 3 0) s
  | false ↦ elim (unescape c) [ none ↦ none | some b ↦ pushed (b ∷ []) (string_loop plain s) ]
]
string_loop (hex zero code) (c ∷ s) = elim (hex_digit c) [
  | none ↦ none
  | some v ↦ pushed (utf8 (code * 16 + v)) (string_loop plain s)
]
string_loop (hex (suc n) code) (c ∷ s) = elim (hex_digit c) [
  | none ↦ none
  | some v ↦ string_loop (hex n (code * 16 + v)) s
]

unfoldable pub parse_string : Str → Option (Str × Str)
parse_string [] = none
parse_string (c ∷ s) = elim (c == b'"') [ true ↦ string_loop plain s | false ↦ none ]
