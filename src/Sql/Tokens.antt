-- ===== src/Sql/Tokens.antt =====
-- The scanner of src/SqlParser.cpp: skipping ends at a token, and identifiers, texts and numbers are
-- read back as they are written.
use open_db.Prelude.{
  ℕ, ◌≡◌, refl, Bool, true, false, not, ◌&&◌, none, [], ◌∷◌, ◌++◌, Str, arith, ◌==◌, sym, ap, ◌∙◌,
}
use open_db.Value.{text}
use open_db.Sql.Parser.{Parser, Result, ok, pure, ◌>>=◌, ◌>>◌}
use open_db.Sql.Scan.{
  is_word, starts_word, skip_round, skip_loop, skipped, skip, span, identifier_at,
  consume_identifier,
}
use open_db.Sql.Literals.{
  is_quote, consume_value_literal, literal_at, literal_body, string_at, consume_string_literal,
  close_literal,
}
use open_db.Sql.Progress.Tokens.{skip_ends}

-- Where skipWhitespaceAndComments stops, neither a blank nor a comment follows.
pub skip_round-skip : (p q : Parser) → skip p ≡ ok tt q → skip_round q.rest ≡ none
skip_round-skip p q h =
    let (r, e, l, n) = skip_ends p in
    let same : record p { rest = r } ≡ q = ok_injective (sym e ∙ h) in
    ap (λ x. skip_round x.rest) (sym same) ∙ n
  where
    ok_injective : {x y : Parser} → ◌≡◌ {A = Result (Unit {0})} (ok tt x) (ok tt y) → x ≡ y
    ok_injective e = cc

pub skip_stays : (p : Parser) → skip_round p.rest ≡ none → skip p ≡ ok tt p
unfolding skip skip_loop
skip_stays p h = rw (h, skip_loop, skipped) refl

pub skip-skip : (p q : Parser) → skip p ≡ ok tt q → skip q ≡ ok tt q
skip-skip p q h = skip_stays q (skip_round-skip p q h)

abbrev pub All : (ℕ → Bool) → Str → Type 0
All test [] = Unit
All test (c ∷ s) = (test c ≡ true) × All test s

-- A text that ends, or goes on with a character that the test refuses.
abbrev pub EndsAt : (ℕ → Bool) → Str → Type 0
EndsAt test [] = Unit
EndsAt test (c ∷ s) = test c ≡ false

span-append :
    (test : ℕ → Bool) (w rest : Str)
    → All test w
    → EndsAt test rest
    → span test (w ++ rest) ≡ (w, rest)
unfolding span
span-append test [] [] a e = refl
span-append test [] (c ∷ s) a e = rw e refl
span-append test (c ∷ w) rest a e = rw (a.0, span-append test w rest a.1 e) refl

word_stays : (c : ℕ) (s : Str) → starts_word c ≡ true → skip_round (c ∷ s) ≡ none
unfolding skip_round starts_word
word_stays c [] h = ground arith
word_stays c (d ∷ s) h = ground arith

starts_word_unquoted : (c : ℕ) → starts_word c ≡ true → (c == b'"') ≡ false
unfolding starts_word
starts_word_unquoted c h = ground arith

starts_word-is_word : (c : ℕ) → starts_word c ≡ true → is_word c ≡ true
unfolding starts_word is_word
starts_word-is_word c h = ground arith

identifier_at_bare :
    (p : Parser) (c : ℕ) (w rest : Str)
    → starts_word c ≡ true
    → All is_word w
    → EndsAt is_word rest
    → identifier_at p (c ∷ (w ++ rest)) ≡ ok (c ∷ w) (record p { rest = rest })
unfolding identifier_at
identifier_at_bare p c w rest h a e =
    rw (no_quote, h, span-append is_word (c ∷ w) rest (starts_word-is_word c h, a) e) refl
  where
    no_quote : (c == b'"') ≡ false
    no_quote = starts_word_unquoted c h

-- An identifier that starts with a letter or an underscore is read up to the first character that
-- is no letter, digit or underscore.
pub consume_identifier_bare :
    (p : Parser) (c : ℕ) (w rest : Str)
    → starts_word c ≡ true
    → All is_word w
    → EndsAt is_word rest
    → consume_identifier (record p { rest = c ∷ (w ++ rest) })
      ≡ ok (c ∷ w) (record p { rest = rest })
unfolding consume_identifier ◌>>◌ ◌>>=◌
consume_identifier_bare p c w rest h a e =
    rw (skip_stays (record p { rest = c ∷ (w ++ rest) }) (word_stays c (w ++ rest) h))
      (identifier_at_bare _ c w rest h a e)

quote_stays : (c : ℕ) (s : Str) → is_quote c ≡ true → skip_round (c ∷ s) ≡ none
unfolding skip_round
quote_stays c [] h = ground arith
quote_stays c (d ∷ s) h = ground arith

abbrev is_plain : ℕ → ℕ → Bool
is_plain quote c = not (c == quote) && not (c == b'\\')

literal_body-append :
    (quote : ℕ) (body rest : Str)
    → All (is_plain quote) body
    → literal_body quote (body ++ quote ∷ rest) ≡ (body, quote ∷ rest)
unfolding literal_body
literal_body-append quote [] [] a = ground arith
literal_body-append quote [] (d ∷ rest) a = ground arith
literal_body-append quote (c ∷ []) rest a = ground (arith, literal_body-append quote [] rest tt)
literal_body-append quote (c ∷ d ∷ body) rest a =
    ground (arith, literal_body-append quote (d ∷ body) rest a.1)

-- A text between two equal quotes, without that quote and without a backslash in it, is read as
-- it stands, and the parser stands behind the closing quote.
pub consume_value_literal_text :
    (strtod : Str → ℕ) (p : Parser) (quote : ℕ) (body rest : Str)
    → is_quote quote ≡ true
    → All (is_plain quote) body
    → consume_value_literal strtod (record p { rest = quote ∷ (body ++ quote ∷ rest) })
      ≡ ok (text body) (record p { rest = rest })
unfolding consume_value_literal literal_at consume_string_literal string_at close_literal ◌>>=◌ ◌>>◌
    pure
consume_value_literal_text strtod p quote body rest h a =
    rw (s, h, s, h, literal_body-append quote body rest a)
  where
    q : Parser
    q = record p { rest = quote ∷ (body ++ quote ∷ rest) }

    s : skip q ≡ ok tt q
    s = skip_stays q (quote_stays quote _ h)
