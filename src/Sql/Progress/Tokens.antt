-- ===== src/Sql/Progress/Tokens.antt =====
-- The consume functions of src/SqlParser.cpp read what they accept.
use open_db.Prelude.{
  ℕ, zero, suc, ◌+◌, ◌≤◌, ◌<◌, ◌≡◌, refl, Bool, true, not, none, some, [], ◌∷◌, Str, arith, ◌==◌,
  length, bind, Option-cases, Bool-cases, inl, inr,
}
use open_db.Sql.Parser.{Parser, ok}
use open_db.Sql.Scan.{
  skip_line, skip_block, skip_round, skip_loop, skipped, skip, strip_keyword, at_boundary,
  strip_symbol, consume_keyword, consume_symbol, span, close_quoted, identifier_at,
  consume_identifier, word_at, consume_word, is_word, starts_word,
}
use open_db.Sql.Progress.{Within, Spends, flag, one, nothing, >>-Spends}

length-skip_line : (s : Str) → length (skip_line s) ≤ length s
unfolding skip_line
length-skip_line [] = omega arith
length-skip_line (c ∷ s) = ground (arith, length-skip_line s)

length-skip_block : (s : Str) → length (skip_block s) ≤ length s
unfolding skip_block
length-skip_block [] = omega arith
length-skip_block (c ∷ []) = omega arith
length-skip_block (c ∷ d ∷ s) = ground (arith, length-skip_block (d ∷ s))

-- Each round of the loop over blanks and comments reads a character.
pub length-skip_round : (s : Str) {r : Str} → skip_round s ≡ some r → length r < length s
unfolding skip_round
length-skip_round [] h = ground arith
length-skip_round (c ∷ []) h = ground arith
length-skip_round (c ∷ d ∷ s) h = ground (arith, length-skip_line s, length-skip_block s)

-- The loop reaches its break, with as many rounds as there are characters and one more.
skip_loop_ends :
    (fuel : ℕ) (s : Str)
    → length s < fuel
    → (r : Str) × (skip_loop fuel s ≡ some r) × (length r ≤ length s) × (skip_round r ≡ none)
unfolding skip_loop
skip_loop_ends zero s h = absurd (omega arith)
skip_loop_ends (suc fuel) s h = elim (Option-cases (skip_round s)) [
  | inl e ↦ (s, rw (e, skip_loop) refl, omega arith, e)
  | inr (t, e) ↦
      let shorter = length-skip_round s e in
      let (r, f, l, n) = skip_loop_ends fuel t (omega (arith, shorter)) in
      (r, rw (e, skip_loop) f, omega (arith, shorter), n)
]

-- skipWhitespaceAndComments ends, where neither a blank nor a comment follows.
pub skip_ends :
    (p : Parser)
    → (r : Str) × (skip p ≡ ok tt (record p { rest = r }))
      × (length r ≤ length p.rest)
      × (skip_round r ≡ none)
unfolding skip
skip_ends p =
    let (r, e, l, n) = skip_loop_ends (suc (length p.rest)) p.rest (omega arith) in
    (r, rw (e, skipped) refl, l, n)

pub skip-Spends : Spends 0 nothing skip
skip-Spends = record {
  run = λ p. let (r, e, l, n) = skip_ends p in rw (e, Within) (omega (arith, l));
}

length-strip_keyword :
    (kw s : Str) {r : Str} → strip_keyword kw s ≡ some r → length kw + length r ≤ length s
unfolding strip_keyword
length-strip_keyword [] s h = ground arith
length-strip_keyword (k ∷ ks) [] h = ground arith
length-strip_keyword (k ∷ ks) (c ∷ s) {r} h = ground (arith, length-strip_keyword ks s {r = r})

length-at_boundary : (s : Str) {r : Str} → at_boundary s ≡ some r → r ≡ s
unfolding at_boundary
length-at_boundary [] h = ground arith
length-at_boundary (c ∷ s) h = ground arith

pub length-strip_symbol :
    (sym s : Str) {r : Str} → strip_symbol sym s ≡ some r → length sym + length r ≤ length s
unfolding strip_symbol
length-strip_symbol [] s h = ground arith
length-strip_symbol (k ∷ ks) [] h = ground arith
length-strip_symbol (k ∷ ks) (c ∷ s) {r} h = ground (arith, length-strip_symbol ks s {r = r})

matched_keyword :
    (k : ℕ) (ks s : Str) {r : Str}
    → bind (strip_keyword (k ∷ ks) s) (λ t. at_boundary t) ≡ some r
    → length r < length s
matched_keyword k ks s {r} h = elim (Option-cases (strip_keyword (k ∷ ks) s)) [
  | inl e ↦ cc
  | inr (t, e) ↦
      ground (arith, length-strip_keyword (k ∷ ks) s {r = t}, length-at_boundary t {r = r})
]

pub consume_keyword-Spends : (k : ℕ) (ks : Str) → Spends 0 flag (consume_keyword (k ∷ ks))
unfolding consume_keyword
consume_keyword-Spends k ks = >>-Spends skip-Spends (record {
  run = λ p. elim (Option-cases (bind (strip_keyword (k ∷ ks) p.rest) λ t. at_boundary t)) [
    | inl e ↦ rw e (omega arith)
    | inr (r, e) ↦ rw e (omega (arith, matched_keyword k ks p.rest e))
  ];
})

pub consume_symbol-Spends : (k : ℕ) (ks : Str) → Spends 0 flag (consume_symbol (k ∷ ks))
unfolding consume_symbol
consume_symbol-Spends k ks = >>-Spends skip-Spends (record {
  run = λ p. elim (Option-cases (strip_symbol (k ∷ ks) p.rest)) [
    | inl e ↦ rw e (omega arith)
    | inr (r, e) ↦ rw e (omega (arith, length-strip_symbol (k ∷ ks) p.rest e))
  ];
})

pub length-span :
    (test : ℕ → Bool) (s : Str) → length (span test s).0 + length (span test s).1 ≡ length s
unfolding span
length-span test [] = omega arith
length-span test (c ∷ s) = elim (Bool-cases (test c)) [
  | inl e ↦ rw (e, length) (omega (arith, length-span test s))
  | inr e ↦ rw (e, length) (omega arith)
]

-- A first character that the test takes is in the first part.
length-span_first :
    (test : ℕ → Bool) (c : ℕ) (s : Str) → test c ≡ true → length (span test (c ∷ s)).1 ≤ length s
unfolding span
length-span_first test c s e = rw (e, length) (omega (arith, length-span test s))

close_quoted-Within :
    (p : Parser) (parts : Str × Str) {n : ℕ}
    → suc (length parts.1) ≤ n
    → Within one n (close_quoted p parts)
unfolding close_quoted
close_quoted-Within p (id, []) h = omega arith
close_quoted-Within p (id, c ∷ left) h = omega arith

identifier_at-Within :
    (p : Parser) (s : Str) {n : ℕ}
    → length s ≤ n
    → length p.rest ≤ n
    → Within one n (identifier_at p s)
unfolding identifier_at starts_word is_word
identifier_at-Within p [] h k = k
identifier_at-Within p (c ∷ s) {n} h k = elim (Bool-cases (c == b'"')) [
  | inl e ↦
      rw (e, Within)
        (close_quoted-Within p (span (λ d. not (d == b'"')) s)
          (omega (arith, length-span (λ d. not (d == b'"')) s)))
  | inr e ↦ rw (e, Within) (ground (arith, length-span_first is_word c s))
]

pub consume_identifier-Spends : Spends 0 one consume_identifier
unfolding consume_identifier
consume_identifier-Spends =
    >>-Spends skip-Spends
      (record { run = λ p. identifier_at-Within p p.rest (omega arith) (omega arith) })

word_at-Within :
    (p : Parser) (s : Str) {n : ℕ} → length s ≤ n → length p.rest ≤ n → Within one n (word_at p s)
unfolding word_at
word_at-Within p [] h k = k
word_at-Within p (c ∷ s) h k = ground (arith, length-span_first is_word c s)

pub consume_word-Spends : Spends 0 one consume_word
unfolding consume_word
consume_word-Spends =
    >>-Spends skip-Spends
      (record { run = λ p. word_at-Within p p.rest (omega arith) (omega arith) })

pub ruleset tokens =
    (consume_keyword-Spends, consume_symbol-Spends, consume_identifier-Spends, consume_word-Spends)
