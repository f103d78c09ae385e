-- ===== src/Json/Base64.antt =====
-- base64Encode of JsonEncoder.hpp: RFC 4648, with padding.
use open_db.Prelude.{ℕ, ◌+◌, ◌-◌, ◌*◌, ◌%◌, ◌/◌, ◌^◌, List, [], ◌∷◌, ltb, ◌==◌, if◌then◌else◌, Str}

-- kAlphabet[i]
abbrev pub alphabet : ℕ → ℕ
alphabet i =
    if ltb i 26
    then 65 + i
    else if ltb i 52
    then 71 + i
    else if ltb i 62
    then i - 4
    else if i == 62
    then b'+'
    else b'/'

-- kAlphabet[(n >> 6 k) & 0x3F]
abbrev pub sextet : ℕ → ℕ → ℕ
sextet n k = alphabet (n / 64 ^ k % 64)

abbrev pub word : ℕ → ℕ → ℕ → ℕ
word a b c = 65536 * a + 256 * b + c

unfoldable pub base64_encode : List ℕ → Str
base64_encode [] = []
base64_encode (a ∷ []) = let n = word a 0 0 in sextet n 3 ∷ sextet n 2 ∷ b'=' ∷ b'=' ∷ []
base64_encode (a ∷ b ∷ []) = let n = word a b 0 in sextet n 3 ∷ sextet n 2 ∷ sextet n 1 ∷ b'=' ∷ []
base64_encode (a ∷ b ∷ c ∷ bytes) =
    let n = word a b c in sextet n 3 ∷ sextet n 2 ∷ sextet n 1 ∷ sextet n 0 ∷ base64_encode bytes
