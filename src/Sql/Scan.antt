-- ===== src/Sql/Scan.antt =====
-- src/SqlParser.cpp: skipWhitespaceAndComments and the consume functions for keywords, symbols and
-- words. The character tests are those of <cctype> in the "C" locale, on bytes.
use open_db.Prelude.{
  ℕ, zero, suc, Bool, true, false, not, ◌&&◌, ◌||◌, Option, none, some, [], ◌∷◌, Str, codes, ◌-◌,
  leb, ◌==◌, if◌then◌else◌, length, bind,
}
use open_db.Sql.Parser.{Parser, Result, ok, fail, out_of_fuel, Parse, ◌>>◌}

abbrev between : ℕ → ℕ → ℕ → Bool
between low high c = leb low c && leb c high

abbrev pub is_space : ℕ → Bool
is_space c = c == 32 || between 9 13 c

abbrev pub is_digit : ℕ → Bool
is_digit = between 48 57

abbrev is_lower : ℕ → Bool
is_lower = between 97 122

abbrev pub is_alpha : ℕ → Bool
is_alpha c = is_lower c || between 65 90 c

abbrev to_upper : ℕ → ℕ
to_upper c = if is_lower c then c - 32 else c

-- isalnum(c) || c == '_'
unfoldable pub is_word : ℕ → Bool
is_word c = is_alpha c || is_digit c || c == b'_'

-- isalpha(c) || c == '_'
unfoldable pub starts_word : ℕ → Bool
starts_word c = is_alpha c || c == b'_'

-- while (pos_ < input_.size() && input_[pos_] != '\n') ++pos_;
unfoldable pub skip_line : Str → Str
skip_line [] = []
skip_line (c ∷ s) = if c == 10 then c ∷ s else skip_line s

-- The loop to the end of a block comment. Without an end it stops before the last character.
unfoldable pub skip_block : Str → Str
skip_block [] = []
skip_block (c ∷ []) = c ∷ []
skip_block (c ∷ d ∷ s) = if c == b'*' && d == b'/' then s else skip_block (d ∷ s)

-- A round of the loop of skipWhitespaceAndComments; `none` is its break.
unfoldable pub skip_round : Str → Option Str
skip_round [] = none
skip_round (c ∷ []) = if is_space c then some [] else none
skip_round (c ∷ d ∷ s) =
    if is_space c
    then some (d ∷ s)
    else if c == b'-' && d == b'-'
    then some (skip_line s)
    else if c == b'/' && d == b'*'
    then some (skip_block s)
    else none

-- `none` if the rounds do not suffice.
unfoldable pub skip_loop : ℕ → Str → Option Str
skip_loop zero s = none
skip_loop (suc fuel) s = elim (skip_round s) [ none ↦ some s | some r ↦ skip_loop fuel r ]

abbrev pub skipped : Parser → Option Str → Result (Unit {0})
skipped p none = out_of_fuel
skipped p (some s) = ok tt (record p { rest = s })

-- Each round but the last reads a character.
unfoldable pub skip : Parse (Unit {0})
unfolding skip_loop
skip p = skipped p (skip_loop (suc (length p.rest)) p.rest)

-- The comparison without case.
unfoldable pub strip_keyword : Str → Str → Option Str
strip_keyword [] s = some s
strip_keyword (k ∷ ks) [] = none
strip_keyword (k ∷ ks) (c ∷ s) = if to_upper c == to_upper k then strip_keyword ks s else none

-- The word boundary.
unfoldable pub at_boundary : Str → Option Str
at_boundary [] = some []
at_boundary (c ∷ s) = if is_word c then none else some (c ∷ s)

unfoldable pub strip_symbol : Str → Str → Option Str
strip_symbol [] s = some s
strip_symbol (k ∷ ks) [] = none
strip_symbol (k ∷ ks) (c ∷ s) = if c == k then strip_symbol ks s else none

-- Move past what matched, or stay.
abbrev advance : Parser → Option Str → Result Bool
advance p none = ok false p
advance p (some s) = ok true (record p { rest = s })

unfoldable pub consume_keyword : Str → Parse Bool
consume_keyword kw = skip >> λ p. advance p (bind (strip_keyword kw p.rest) λ s. at_boundary s)

unfoldable pub consume_symbol : Str → Parse Bool
consume_symbol sym = skip >> λ p. advance p (strip_symbol sym p.rest)

-- What stands before the first character that the test refuses, and what stands from there on.
unfoldable pub span : (ℕ → Bool) → Str → Str × Str
span test [] = ([], [])
span test (c ∷ s) = elim (test c) [
  | true ↦ let (word, left) = span test s in (c ∷ word, left)
  | false ↦ ([], c ∷ s)
]

-- From behind the opening quote.
unfoldable pub close_quoted : Parser → Str × Str → Result Str
close_quoted p (id, []) =
    fail (record p { rest = []; error = codes "unterminated quoted identifier" })
close_quoted p (id, c ∷ left) = ok id (record p { rest = left })

abbrev take_word : Parser → Str × Str → Result Str
take_word p (word, left) = ok word (record p { rest = left })

unfoldable pub identifier_at : Parser → Str → Result Str
identifier_at p [] = fail p
identifier_at p (c ∷ s) =
    if c == b'"'
    then close_quoted p (span (λ d. not (d == b'"')) s)
    else if starts_word c
    then take_word p (span is_word (c ∷ s))
    else fail p

unfoldable pub consume_identifier : Parse Str
consume_identifier = skip >> λ p. identifier_at p p.rest

unfoldable pub word_at : Parser → Str → Result Str
word_at p [] = fail p
word_at p (c ∷ s) = if is_word c then take_word p (span is_word (c ∷ s)) else fail p

unfoldable pub consume_word : Parse Str
consume_word = skip >> λ p. word_at p p.rest
