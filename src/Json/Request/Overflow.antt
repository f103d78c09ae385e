-- ===== src/Json/Request/Overflow.antt =====
-- skipValue of JsonEncoder.hpp calls itself for each nested value and does not look at the depth.
use open_db.Prelude.{
  ℕ, zero, suc, ◌+◌, ◌*◌, ◌<◌, ◌≡◌, refl, none, [], ◌∷◌, Str, length, arith, ◌++◌, codes,
}
use open_db.Json.Strings.{string_loop, parse_string}
use open_db.Json.Request.{
  JsonRequest, done, overflow, and_then, skip_whitespace, parse_key, skip_head, value, skip_on,
  skip_value, parse_member, object_loop, parse_object, parse_json_request,
}

abbrev pub brackets : ℕ → Str
brackets zero = []
brackets (suc n) = b'[' ∷ brackets n

skip_on-brackets :
    (fuel frames : ℕ)
    → 2 * frames < fuel
    → skip_on fuel frames value (brackets (suc frames)) ≡ overflow
unfolding skip_on skip_head skip_whitespace
skip_on-brackets zero frames h = absurd (omega arith)
skip_on-brackets (suc fuel) zero h = refl
skip_on-brackets (suc zero) (suc frames) h = absurd (omega arith)
skip_on-brackets (suc (suc fuel)) (suc frames) h =
    rw (skip_on-brackets fuel frames (omega arith), and_then) refl

length-brackets : (n : ℕ) → length (brackets n) ≡ n
length-brackets zero = refl
length-brackets (suc n) = rw (length-brackets n) refl

skip_value-brackets : (frames : ℕ) → skip_value frames (brackets (suc frames)) ≡ overflow
unfolding skip_value
skip_value-brackets frames =
    skip_on-brackets (2 * length (brackets (suc frames)) + 1) frames
      (omega (arith, length-brackets frames))

unknown_key : (s : Str) → parse_key (codes "\"a\":" ++ s) ≡ done (codes "a") s
unfolding parse_key skip_whitespace parse_string string_loop
unknown_key s = refl

unknown_member :
    (frames : ℕ) (r : JsonRequest)
    → parse_member frames r (codes "a") (brackets (suc frames)) ≡ overflow
unfolding parse_member
unknown_member frames r = rw (skip_value-brackets frames, and_then) refl

stays : (n : ℕ) → skip_whitespace (brackets (suc n)) ≡ brackets (suc n)
unfolding skip_whitespace
stays n = refl

-- A request with one more array in another than the stack has room for overflows it.
pub parse_json_request-brackets :
    (frames : ℕ) → parse_json_request frames (codes "{\"a\":" ++ brackets (suc frames)) ≡ overflow
unfolding parse_json_request parse_object object_loop skip_whitespace
parse_json_request-brackets frames =
    rw
      (
        unknown_key (brackets (suc frames)),
        stays frames,
        unknown_member frames (record { type = []; sql = []; txn_id = none }),
        and_then,
      )
      refl
