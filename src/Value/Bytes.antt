-- ===== src/Value/Bytes.antt =====
-- Value::toBytes and Value::fromBytes.
use open_db.Prelude.{
  ℕ, zero, suc, ◌+◌, ◌*◌, ◌/◌, ◌%◌, ◌^◌, ◌<◌, ◌≡◌, refl, Bool, true, false, List, [], ◌∷◌, ◌++◌,
  arith, ◌==◌, if◌then◌else◌, length, take, drop, leb, ap,
}
use mathlib.Core.List.{append_assoc}
use open_db.Prelude.Words.{
  to_unsigned, to_signed, InRange, to_signed-to_unsigned32, to_signed-to_unsigned64,
  to_unsigned32-lt, to_unsigned64-lt,
}
use open_db.Value.{Value, null, boolean, int32, int64, real, text, blob, date, timestamp, tag}

-- for (b = 0; b < k; ++b) push_back(uint8_t(i >> (8 * b)))
unfoldable pub le_bytes : ℕ → ℕ → List ℕ
le_bytes zero i = []
le_bytes (suc k) i = (i % 256) ∷ le_bytes k (i / 256)

abbrev bool_byte : Bool → ℕ
bool_byte true = 1
bool_byte false = 0

-- The bytes after the tag.
unfoldable pub payload : Value → List ℕ
payload null = []
payload (boolean b) = bool_byte b ∷ []
payload (int32 z) = le_bytes 4 (to_unsigned (2 ^ 32) z)
payload (int64 z) = le_bytes 8 (to_unsigned (2 ^ 64) z)
payload (real bits) = le_bytes 8 bits
payload (text s) = le_bytes 4 (length s % 2 ^ 32) ++ s
payload (blob v) = le_bytes 4 (length v % 2 ^ 32) ++ v
payload (date z) = le_bytes 4 (to_unsigned (2 ^ 32) z)
payload (timestamp z) = le_bytes 8 (to_unsigned (2 ^ 64) z)

unfoldable pub to_bytes : Value → List ℕ
unfolding payload tag
to_bytes v = tag v ∷ payload v

-- What a read gives: a value and the bytes after it; the std::runtime_error of an unknown tag; or a
-- read past the end of the bytes, which the source does not check.
pub data Read {ℓ} (A : Type ℓ) : Type ℓ where
  ok : A → List ℕ → Read A
  unknown_tag : Read A
  past_end : Read A

abbrev pub Reader {ℓ} : Type ℓ → Type ℓ
Reader A = List ℕ → Read A

abbrev after_read {ℓ κ} : {A : Type ℓ} {B : Type κ} → Read A → (A → Reader B) → Read B
after_read (ok a rest) f = f a rest
after_read unknown_tag f = unknown_tag
after_read past_end f = past_end

infixl 5 ◌>>=◌
abbrev pub ◌>>=◌ {ℓ κ} : {A : Type ℓ} {B : Type κ} → Reader A → (A → Reader B) → Reader B
◌>>=◌ m f bytes = after_read (m bytes) f

abbrev pub return {ℓ} : {A : Type ℓ} → A → Reader A
return a rest = ok a rest

unfoldable pub read_byte : Reader ℕ
read_byte [] = past_end
read_byte (b ∷ rest) = ok b rest

-- for (b = 0; b < k; ++b) i |= uint(*iter++) << (8 * b)
unfoldable pub read_le : ℕ → Reader ℕ
unfolding read_byte
read_le zero = return 0
read_le (suc k) = do low ← read_byte; high ← read_le k; return (low + 256 * high)

-- std::string s(iter, iter + len); iter += len;
unfoldable pub read_span : ℕ → Reader (List ℕ)
read_span len bytes =
    if leb len (length bytes) then ok (take len bytes) (drop len bytes) else past_end

abbrev read_length : Reader (List ℕ)
read_length = do len ← read_le 4; read_span len

unfoldable pub read_payload : ℕ → Reader Value
unfolding read_byte
read_payload tag =
    if tag == 0
    then return null
    else if tag == 1
    then (do b ← read_byte; return (boolean (if b == 0 then false else true)))
    else if tag == 2
    then (do i ← read_le 4; return (int32 (to_signed (2 ^ 32) i)))
    else if tag == 3
    then (do i ← read_le 8; return (int64 (to_signed (2 ^ 64) i)))
    else if tag == 4
    then (do bits ← read_le 8; return (real bits))
    else if tag == 5
    then (do s ← read_length; return (text s))
    else if tag == 6
    then (do v ← read_length; return (blob v))
    else if tag == 7
    then (do i ← read_le 4; return (date (to_signed (2 ^ 32) i)))
    else if tag == 8
    then (do i ← read_le 8; return (timestamp (to_signed (2 ^ 64) i)))
    else (λ rest. unknown_tag)

unfoldable pub from_bytes : Reader Value
unfolding read_payload read_byte
from_bytes = do tag ← read_byte; read_payload tag

-- The values that a Value of the program can hold and that fit the wire format.
abbrev pub IsWritable : Value → Type 0
IsWritable null = Unit
IsWritable (boolean b) = Unit
IsWritable (int32 z) = InRange (2 ^ 32) z
IsWritable (int64 z) = InRange (2 ^ 64) z
IsWritable (real bits) = bits < 2 ^ 64
IsWritable (text s) = length s < 2 ^ 32
IsWritable (blob v) = length v < 2 ^ 32
IsWritable (date z) = InRange (2 ^ 32) z
IsWritable (timestamp z) = InRange (2 ^ 64) z

-- 256 ^ k
abbrev pub words : ℕ → ℕ
words zero = 1
words (suc k) = 256 * words k

pub read_le-le_bytes :
    (k i : ℕ) (rest : List ℕ) → i < words k → read_le k (le_bytes k i ++ rest) ≡ ok i rest
unfolding read_le le_bytes
read_le-le_bytes zero i rest h = ground arith
read_le-le_bytes (suc k) i rest h =
    rw (read_le-le_bytes k (i / 256) rest (omega arith)) (ground arith)

read_span-append : (s rest : List ℕ) → read_span (length s) (s ++ rest) ≡ ok s rest
unfolding read_span
read_span-append [] rest = ground arith
read_span-append (x ∷ s) rest = ground (arith, read_span-append s rest)

read_length-append :
    (s rest : List ℕ)
    → length s < 2 ^ 32
    → read_length ((le_bytes 4 (length s % 2 ^ 32) ++ s) ++ rest) ≡ ok s rest
read_length-append s rest h =
    let whole : length s % 2 ^ 32 ≡ length s = omega arith in
    rw (whole, append_assoc, read_le-le_bytes 4 (length s) (s ++ rest) h, read_span-append s rest)

-- Reading back the bytes of a value, whatever follows them, gives that value and what follows, if
-- its integers and its length fit the fields of the format.
pub from_bytes-to_bytes :
    (v : Value) (rest : List ℕ) → IsWritable v → from_bytes (to_bytes v ++ rest) ≡ ok v rest
unfolding from_bytes to_bytes
from_bytes-to_bytes null rest h = refl
from_bytes-to_bytes (boolean true) rest h = refl
from_bytes-to_bytes (boolean false) rest h = refl
from_bytes-to_bytes (int32 z) rest h =
    rw (read_le-le_bytes 4 _ rest (to_unsigned32-lt z), to_signed-to_unsigned32 z h)
from_bytes-to_bytes (int64 z) rest h =
    rw (read_le-le_bytes 8 _ rest (to_unsigned64-lt z), to_signed-to_unsigned64 z h)
from_bytes-to_bytes (real bits) rest h = rw (read_le-le_bytes 8 bits rest h)
from_bytes-to_bytes (text s) rest h =
    ap (λ r. after_read r (λ a. return (text a))) (read_length-append s rest h)
from_bytes-to_bytes (blob v) rest h =
    ap (λ r. after_read r (λ a. return (blob a))) (read_length-append v rest h)
from_bytes-to_bytes (date z) rest h =
    rw (read_le-le_bytes 4 _ rest (to_unsigned32-lt z), to_signed-to_unsigned32 z h)
from_bytes-to_bytes (timestamp z) rest h =
    rw (read_le-le_bytes 8 _ rest (to_unsigned64-lt z), to_signed-to_unsigned64 z h)
