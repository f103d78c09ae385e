-- ===== src/Json/Request/Progress.antt =====
-- The request parser of JsonEncoder.hpp ends: its loops read on in each round.
use open_db.Prelude.{
  ℕ, zero, suc, ◌+◌, ◌*◌, ◌≤◌, ◌<◌, ◌≢◌, Option, none, some, [], ◌∷◌, Str, length, arith,
  Bool-cases, Option-cases, inl, inr, ◌⊎◌, ◌==◌, ◌||◌, ◌++◌, bytes_eq, codes,
}
use open_db.Value.Render.{is_nil}
use open_db.Sql.Scan.{span, is_digit, strip_symbol}
use open_db.Sql.Literals.{is_sign}
use open_db.Sql.Progress.Tokens.{length-span, length-strip_symbol}
use open_db.Json.Strings.{parse_string}
use open_db.Json.Request.{
  JsonRequest, Outcome, done, refused, overflow, exhausted, and_then, outcome, skip_whitespace,
  symbol_at, parse_key, opened, closed, literal_of, skip_scalar, ignored, skip_head, Skipping,
  value, members, items, skip_on, skip_value, signed_digits, number_from, parse_number_as_string,
  stoull, with_txn, parse_member, object_loop, parse_object, with_type, parse_json_request,
}
use open_db.Json.Request.Shrinks.{Shrinks, parse_string-Shrinks, length-skip_whitespace}

module _ (O : Type 0) where
  -- The answer is there, and less than n characters are left; or the stack overflows, which `O`
  -- allows.
  abbrev Below : {A : Type 0} → ℕ → Outcome A → Type 0
  Below n (done a r) = length r < n
  Below n refused = Unit
  Below n overflow = O
  Below n exhausted = ⊥

  module _ {A B : Type 0} where
    and_then-Below :
        (n m : ℕ) (o : Outcome A) (f : A → Str → Outcome B)
        → Below n o
        → ((a : A) (r : Str) → length r < n → Below m (f a r))
        → Below m (and_then o f)
    and_then-Below n m (done a r) f h k = k a r h
    and_then-Below n m refused f h k = tt
    and_then-Below n m overflow f h k = h
    and_then-Below n m exhausted f h k = absurd h

  module _ {A : Type 0} where
    Below-mono : (n m : ℕ) (o : Outcome A) → n ≤ m → Below n o → Below m o
    Below-mono n m (done a r) l h = omega arith
    Below-mono n m refused l h = tt
    Below-mono n m overflow l h = h
    Below-mono n m exhausted l h = absurd h

    opened-Below :
        (close n : ℕ) (a : A) (next : Str → Outcome A) (s : Str)
        → length s ≤ n
        → ((t : Str) → length t ≤ length s → Below n (next t))
        → Below n (opened close a next s)
    opened-Below close n a next [] h k = k [] (omega arith)
    opened-Below close n a next (c ∷ s) h k = elim (Bool-cases (c == close)) [
      | inl e ↦ rw (e, opened) (omega arith)
      | inr e ↦ rw (e, opened) (k (c ∷ s) (omega arith))
    ]

    closed-Below :
        (close n : ℕ) (a : A) (next : Str → Outcome A) (s : Str)
        → length s ≤ n
        → ((t : Str) → length t < n → Below n (next t))
        → Below n (closed close a next s)
    closed-Below close n a next [] h k = tt
    closed-Below close n a next (c ∷ s) h k = elim (Bool-cases (c == b',')) [
      | inl e ↦ rw (e, closed) (k s (omega arith))
      | inr e ↦ elim (Bool-cases (c == close)) [
        | inl f ↦ rw (e, f, closed) (omega arith)
        | inr f ↦ rw (e, f, closed) tt
      ]
    ]

  outcome-Below : (n : ℕ) (o : Option (Str × Str)) → Shrinks n o → Below n (outcome o)
  outcome-Below n none h = tt
  outcome-Below n (some (a, r)) h = h

  ignored-Below : (n : ℕ) (o : Option (Str × Str)) → Shrinks n o → Below n (ignored o)
  ignored-Below n none h = tt
  ignored-Below n (some (a, r)) h = h

  symbol_at-Below : (symbol : ℕ) (s : Str) → Below (length s) (symbol_at symbol s)
  symbol_at-Below symbol [] = tt
  symbol_at-Below symbol (c ∷ s) = elim (Bool-cases (c == symbol)) [
    | inl e ↦ rw (e, symbol_at) (omega arith)
    | inr e ↦ rw (e, symbol_at) tt
  ]

  parse_key-Below : (s : Str) → Below (length s) (parse_key s)
  unfolding parse_key
  parse_key-Below s =
      let w : Str = skip_whitespace s in
      and_then-Below (length w) (length s) (outcome (parse_string w)) _
        (outcome-Below _ _ (parse_string-Shrinks w))
        λ key r h.
          let v : Str = skip_whitespace r in
          and_then-Below (length v) (length s) (symbol_at b':' v) _ (symbol_at-Below b':' v)
            λ u t k. omega (arith, length-skip_whitespace s, length-skip_whitespace r)

  literal_of-Below : (k : ℕ) (ks s : Str) → Below (length s) (literal_of (k ∷ ks) s)
  literal_of-Below k ks s = elim (Option-cases (strip_symbol (k ∷ ks) s)) [
    | inl e ↦ rw (e, literal_of) tt
    | inr (r, e) ↦ rw (e, literal_of) (omega (arith, length-strip_symbol (k ∷ ks) s e))
  ]

  skip_scalar-Below : (c : ℕ) (s : Str) → Below (suc (length s)) (skip_scalar c s)
  unfolding skip_scalar
  skip_scalar-Below c s = elim (Bool-cases (c == b't')) [
    | inl e ↦ rw e (literal_of-Below _ _ (c ∷ s))
    | inr e ↦ elim (Bool-cases (c == b'f')) [
      | inl f ↦ rw (e, f) (literal_of-Below _ _ (c ∷ s))
      | inr f ↦ elim (Bool-cases (c == b'n')) [
        | inl g ↦ rw (e, f, g) (literal_of-Below _ _ (c ∷ s))
        | inr g ↦ elim (Bool-cases (is_sign c || is_digit c)) [
          | inl h ↦ rw (e, f, g, h) (omega (arith, length-span is_digit s))
          | inr h ↦ rw (e, f, g, h) tt
        ]
      ]
    ]
  ]

  -- The loops get a text without the bracket.
  skip_head-Below :
      (loop-members loop-items : Str → Outcome (Unit {0})) (s : Str)
      → ((t : Str) → length t < length s → Below (length s) (loop-members t))
      → ((t : Str) → length t < length s → Below (length s) (loop-items t))
      → Below (length s) (skip_head loop-members loop-items s)
  unfolding skip_head
  skip_head-Below ms js [] h k = tt
  skip_head-Below ms js (c ∷ s) h k = elim (Bool-cases (c == b'"')) [
    | inl e ↦ rw (e, skip_head) (ignored-Below _ _ (parse_string-Shrinks (c ∷ s)))
    | inr e ↦ elim (Bool-cases (c == b'{')) [
      | inl f ↦ rw (e, f, skip_head) (inside b'}' ms λ t l. h t (omega (arith, l)))
      | inr f ↦ elim (Bool-cases (c == b'[')) [
        | inl g ↦ rw (e, f, g, skip_head) (inside b']' js λ t l. k t (omega (arith, l)))
        | inr g ↦ rw (e, f, g, skip_head) (skip_scalar-Below c s)
      ]
    ]
  ]
    where
      inside :
          (close : ℕ) (next : Str → Outcome (Unit {0}))
          → ((t : Str) → length t ≤ length s → Below (suc (length s)) (next t))
          → Below (suc (length s)) (opened close tt next (skip_whitespace s))
      inside close next n =
          opened-Below close (suc (length s)) tt next (skip_whitespace s)
            (omega (arith, length-skip_whitespace s))
            λ t l. n t (omega (arith, l, length-skip_whitespace s))

  -- The rounds that a call needs.
  abbrev need : Skipping → ℕ → ℕ
  need value n = 2 * n + 1
  need members n = 2 * n + 1
  need items n = 2 * n + 2

  -- A text of n characters has room, and one more call too, or an overflow is allowed.
  abbrev Room : ℕ → ℕ → Type 0
  Room frames n = (n < frames) ⊎ O

  Room-le : {frames n m : ℕ} → m ≤ n → Room frames n → Room frames m
  Room-le l (inl h) = inl (omega arith)
  Room-le l (inr o) = inr o

  Room-call : {frames n m : ℕ} → m < n → Room (suc frames) n → Room frames m
  Room-call l (inl h) = inl (omega arith)
  Room-call l (inr o) = inr o

  no_frame : (n : ℕ) → Room zero n → O
  no_frame n (inl h) = absurd (omega arith)
  no_frame n (inr o) = o

  skip_on-Below :
      (fuel frames : ℕ) (k : Skipping) (s : Str)
      → need k (length s) ≤ fuel
      → Room frames (length s)
      → Below (length s) (skip_on fuel frames k s)
  unfolding skip_on
  skip_on-Below zero frames value s h q = absurd (omega arith)
  skip_on-Below zero frames members s h q = absurd (omega arith)
  skip_on-Below zero frames items s h q = absurd (omega arith)
  skip_on-Below (suc fuel) zero value s h q = no_frame (length s) q
  skip_on-Below (suc fuel) (suc frames) value s h q =
      let w : Str = skip_whitespace s in
      let shorter = length-skip_whitespace s in
      Below-mono (length w) (length s) _ shorter (
        skip_head-Below (skip_on fuel frames members) (skip_on fuel frames items) w
          (λ t l. Below-mono (length t) (length w) _ (omega (arith, l)) (
            skip_on-Below fuel frames members t (omega (arith, l, shorter))
              (Room-call (omega (arith, l, shorter)) q)))
          (λ t l. Below-mono (length t) (length w) _ (omega (arith, l)) (
            skip_on-Below fuel frames items t (omega (arith, l, shorter))
              (Room-call (omega (arith, l, shorter)) q))))
  skip_on-Below (suc fuel) frames members s h q =
      and_then-Below (length s) (length s) (parse_key s) _ (parse_key-Below s) λ key t l.
        and_then-Below (length t) (length s) (skip_on fuel frames value t) _
          (skip_on-Below fuel frames value t (omega (arith, l)) (Room-le (omega (arith, l)) q))
          λ u r m.
            closed-Below b'}' (length s) tt (skip_on fuel frames members) (skip_whitespace r)
              (omega (arith, length-skip_whitespace r))
              λ v n. Below-mono (length v) (length s) _ (omega (arith, n)) (
                skip_on-Below fuel frames members v (omega (arith, n))
                  (Room-le (omega (arith, n)) q))
  skip_on-Below (suc fuel) frames items s h q =
      and_then-Below (length s) (length s) (skip_on fuel frames value s) _
        (skip_on-Below fuel frames value s (omega (arith, h)) q)
        λ u r m.
          closed-Below b']' (length s) tt (skip_on fuel frames items) (skip_whitespace r)
            (omega (arith, length-skip_whitespace r))
            λ v n.
              Below-mono (length v) (length s) _ (omega (arith, n)) (
                skip_on-Below fuel frames items v (omega (arith, n)) (Room-le (omega (arith, n)) q))

  skip_value-Below :
      (frames : ℕ) (s : Str) → Room frames (length s) → Below (length s) (skip_value frames s)
  unfolding skip_value
  skip_value-Below frames s q = skip_on-Below (2 * length s + 1) frames value s (omega arith) q

  signed_digits-Shrinks :
      (sign : Str) (n : ℕ) (s : Str)
      → length s < n
      → Shrinks n (signed_digits sign (span is_digit s))
  signed_digits-Shrinks sign n s h = elim (Bool-cases (is_nil (sign ++ (span is_digit s).0))) [
    | inl e ↦ rw (e, signed_digits) tt
    | inr e ↦ rw (e, signed_digits) (omega (arith, length-span is_digit s))
  ]

  number_from-Shrinks : (s : Str) → Shrinks (suc (length s)) (number_from s)
  number_from-Shrinks [] = tt
  number_from-Shrinks (c ∷ s) = elim (Bool-cases (is_sign c)) [
    | inl e ↦ rw (e, number_from) (signed_digits-Shrinks (c ∷ []) _ s (omega arith))
    | inr e ↦ rw (e, number_from) (signed_digits-Shrinks [] _ (c ∷ s) (omega arith))
  ]

  number-Shrinks : (s : Str) → Shrinks (suc (length (skip_whitespace s))) (parse_number_as_string s)
  unfolding parse_number_as_string
  number-Shrinks s = number_from-Shrinks (skip_whitespace s)

  with_txn-Below :
      (n : ℕ) (r : JsonRequest) (s : Str) (o : Option ℕ) → length s < n → Below n (with_txn r s o)
  with_txn-Below n r s none h = tt
  with_txn-Below n r s (some m) h = h

  parse_member-Below :
      (frames : ℕ) (r : JsonRequest) (key s : Str)
      → Room frames (length s)
      → Below (suc (length s)) (parse_member frames r key s)
  unfolding parse_member
  parse_member-Below frames r key s q = elim (Bool-cases (bytes_eq key (codes "type"))) [
    | inl e ↦
        rw (e, parse_member)
          (and_then-Below (length s) (suc (length s)) (outcome (parse_string s)) _
            (outcome-Below _ _ (parse_string-Shrinks s)) λ v t l. omega (arith, l))
    | inr e ↦ elim (Bool-cases (bytes_eq key (codes "sql"))) [
      | inl f ↦
          rw (e, f, parse_member)
            (and_then-Below (length s) (suc (length s)) (outcome (parse_string s)) _
              (outcome-Below _ _ (parse_string-Shrinks s)) λ v t l. omega (arith, l))
      | inr f ↦ elim (Bool-cases (bytes_eq key (codes "txnId"))) [
        | inl g ↦
            rw (e, f, g, parse_member)
              (and_then-Below (suc (length (skip_whitespace s))) (suc (length s))
                (outcome (parse_number_as_string s)) _ (outcome-Below _ _ (number-Shrinks s))
                λ v t l.
                  with_txn-Below (suc (length s)) r t (stoull v)
                    (omega (arith, length-skip_whitespace s, l)))
        | inr g ↦
            rw (e, f, g, parse_member)
              (and_then-Below (length s) (suc (length s)) (skip_value frames s) _
                (skip_value-Below frames s q) λ u t l. omega (arith, l))
      ]
    ]
  ]

  object_loop-Below :
      (fuel frames : ℕ) (r : JsonRequest) (s : Str)
      → length s < fuel
      → Room frames (length s)
      → Below (length s) (object_loop fuel frames r s)
  unfolding object_loop
  object_loop-Below zero frames r s h q = absurd (omega arith)
  object_loop-Below (suc fuel) frames r s h q =
      and_then-Below (length s) (length s) (parse_key s) _ (parse_key-Below s) λ key t l.
        let w : Str = skip_whitespace t in
        let shorter = length-skip_whitespace t in
        and_then-Below (suc (length w)) (length s) (parse_member frames r key w) _
          (parse_member-Below frames r key w (Room-le (omega (arith, shorter, l)) q))
          λ r' u m.
            closed-Below b'}' (length s) r' (object_loop fuel frames r') (skip_whitespace u)
              (omega (arith, shorter, length-skip_whitespace u, m, l))
              λ v n. Below-mono (length v) (length s) _ (omega (arith, n)) (
                object_loop-Below fuel frames r' v (omega (arith, n))
                  (Room-le (omega (arith, n)) q))

  -- The bracket has been read where a value is skipped.
  parse_object-Below :
      (frames : ℕ) (r : JsonRequest) (s : Str)
      → (length s ≤ frames) ⊎ O
      → Below (length s) (parse_object frames r s)
  unfolding parse_object
  parse_object-Below frames r s q =
      let w : Str = skip_whitespace s in
      let before = length-skip_whitespace s in
      and_then-Below (length w) (length s) (symbol_at b'{' w) _ (symbol_at-Below b'{' w) λ u t l.
        let behind = length-skip_whitespace t in
        opened-Below b'}' (length s) r (object_loop (suc (length t)) frames r) (skip_whitespace t)
          (omega (arith, before, behind, l))
          λ v m. Below-mono (length v) (length s) _ (omega (arith, before, behind, l, m)) (
            object_loop-Below (suc (length t)) frames r v (omega (arith, behind, m))
              (inside (length v) (omega (arith, before, behind, l, m)) q))
    where
      inside : (n : ℕ) → n < length s → (length s ≤ frames) ⊎ O → Room frames n
      inside n l (inl h) = inl (omega arith)
      inside n l (inr o) = inr o

  with_type-Below : (n : ℕ) (r : JsonRequest) (s : Str) → length s < n → Below n (with_type r s)
  with_type-Below n r s h = elim (Bool-cases (is_nil r.type)) [
    | inl e ↦ rw (e, with_type) tt
    | inr e ↦ rw (e, with_type) h
  ]

  parse_json_request-Below :
      (frames : ℕ) (json : Str)
      → (length json ≤ frames) ⊎ O
      → Below (length json) (parse_json_request frames json)
  unfolding parse_json_request
  parse_json_request-Below frames json q =
      and_then-Below (length json) (length json) (parse_object frames _ json) with_type
        (parse_object-Below frames _ json q) (with_type-Below (length json))

-- The loops end, whatever room the stack has.
pub parse_json_request_ends : (frames : ℕ) (json : Str) → parse_json_request frames json ≢ exhausted
parse_json_request_ends frames json e = rw e at (parse_json_request-Below Unit frames json (inr tt))

Below-answers :
    {A : Type 0} (n : ℕ) (o : Outcome A) → Below ⊥ n o → (o ≢ exhausted) × (o ≢ overflow)
Below-answers n o h = (λ e. rw e at h, λ e. rw e at h)

-- With room on the stack for as many nested calls of skipValue as the text has characters, the
-- parser of requests ends with a request or a refusal, whatever the text is: the rounds that the
-- model allows its loops are always enough, and the stack does not overflow.
pub parse_json_request_total :
    (frames : ℕ) (json : Str)
    → length json ≤ frames
    → (parse_json_request frames json ≢ exhausted) × (parse_json_request frames json ≢ overflow)
parse_json_request_total frames json h =
    Below-answers (length json) (parse_json_request frames json)
      (parse_json_request-Below ⊥ frames json (inl h))
