-- ===== src/Json.antt =====
-- includes/opendb/frontend/JsonEncoder.hpp: the text of values, rows and responses (JsonEncoder), and
-- the request parser (json_detail::JsonParser, in Json/Strings and Json/Request).
pub mod Base64
pub mod Strings
pub mod Request
pub mod RoundTrip
pub mod Examples
use open_db.Prelude.{
  ℕ, zero, suc, ◌-◌, ◌+◌, ◌%◌, ◌/◌, Bool, true, false, List, [], ◌∷◌, ◌++◌, ltb, ◌==◌,
  if◌then◌else◌, Str, codes, length, map,
}
use open_db.Prelude.Int.{ℤ, ◌+ℤ◌, ◌-ℤ◌, pos, negsuc}
use open_db.Value.{Value, null, boolean, int32, int64, real, text, blob, date, timestamp}
use open_db.Value.Render.{
  decimal, decimal_ℤ, zeros, civil, quotient, remainder, up, down, to_int32, decimal_loop,
}
use open_db.Tuple.{Tuple}
use open_db.Storage.{DbError, error_to_string}
use open_db.Engine.{ResultSet}
use open_db.Json.Base64.{base64_encode}

-- A digit of std::hex with std::uppercase.
abbrev pub hex_char : ℕ → ℕ
hex_char n = if ltb n 10 then 48 + n else 55 + n

-- One character of escapeJson.
unfoldable pub escaped : ℕ → Str
escaped c =
    if c == b'"'
    then b'\\' ∷ b'"' ∷ []
    else if c == b'\\'
    then b'\\' ∷ b'\\' ∷ []
    else if c == 8
    then b'\\' ∷ b'b' ∷ []
    else if c == 12
    then b'\\' ∷ b'f' ∷ []
    else if c == 10
    then b'\\' ∷ b'n' ∷ []
    else if c == 13
    then b'\\' ∷ b'r' ∷ []
    else if c == 9
    then b'\\' ∷ b't' ∷ []
    else if ltb c 32
    then b'\\' ∷ b'u' ∷ b'0' ∷ b'0' ∷ hex_char (c / 16) ∷ hex_char (c % 16) ∷ []
    else c ∷ []

unfoldable pub escape_json : Str → Str
escape_json [] = []
escape_json (c ∷ s) = escaped c ++ escape_json s

abbrev pub quoted : Str → Str
quoted s = b'"' ∷ (s ++ b'"' ∷ [])

-- std::setw(width) with std::setfill('0'): the zeros stand before the sign.
abbrev set_width : ℕ → Str → Str
set_width width s = zeros (width - length s) s

-- encodeIsoDate; the calendar is that of Value::dateToIso, here without its casts.
unfoldable pub encode_iso_date : ℤ → Str
unfolding civil zeros decimal_loop
encode_iso_date days =
    let (y, m, d) = civil days in
    set_width 4 (decimal_ℤ y) ++ 45 ∷ set_width 2 (decimal m) ++ 45 ∷ set_width 2 (decimal d)

unfoldable pub encode_iso_timestamp : ℤ → Str
unfolding ◌+ℤ◌ ◌-ℤ◌ zeros decimal_loop
encode_iso_timestamp ms =
    let first = remainder ms 86400000 in
    let days = down (to_int32 (quotient ms 86400000)) first in
    let rem = up first 86400000 in
    let in_hour = remainder rem 3600000 in
    let in_minute = remainder in_hour 60000 in
    encode_iso_date days
    ++ b'T' ∷ set_width 2 (decimal_ℤ (quotient rem 3600000))
    ++ b':' ∷ set_width 2 (decimal_ℤ (quotient in_hour 60000))
    ++ b':' ∷ set_width 2 (decimal_ℤ (quotient in_minute 1000))
    ++ b'.' ∷ set_width 3 (decimal_ℤ (remainder in_minute 1000))
    ++ b'Z' ∷ []

-- The elements with commas between them.
unfoldable pub separated : List Str → Str
separated [] = []
separated (s ∷ []) = s
separated (s ∷ t ∷ ts) = s ++ b',' ∷ separated (t ∷ ts)

abbrev flag_text : Bool → Str
flag_text true = codes "true"
flag_text false = codes "false"

-- `print_double` is std::to_string of a double, given by its bit pattern.
module _ (print_double : ℕ → Str) where
  unfoldable pub encode_value : Value → Str
  unfolding decimal_loop
  encode_value null = codes "null"
  encode_value (boolean b) = flag_text b
  encode_value (int32 z) = decimal_ℤ z
  encode_value (int64 z) = decimal_ℤ z
  encode_value (real bits) = print_double bits
  encode_value (text s) = quoted (escape_json s)
  encode_value (blob bytes) = quoted (base64_encode bytes)
  encode_value (date z) = quoted (encode_iso_date z)
  encode_value (timestamp z) = quoted (encode_iso_timestamp z)

  abbrev encode_column : Str × Value → Str
  encode_column (name, v) = quoted (escape_json name) ++ b':' ∷ encode_value v

  unfoldable pub encode_tuple : Tuple → Str
  encode_tuple t = b'{' ∷ (separated (map encode_column t) ++ b'}' ∷ [])

  -- encodeArray of a tuple: the values without their names.
  unfoldable pub encode_array : Tuple → Str
  encode_array t = b'[' ∷ (separated (map (λ c. encode_value c.1) t) ++ b']' ∷ [])

  abbrev encode_rows : (Tuple → Str) → ResultSet → Str
  encode_rows encode rs =
      codes "{\"success\":"
      ++ flag_text rs.success
      ++ codes ",\"rows\":["
      ++ separated (map encode rs.rows)
      ++ codes "]}"

  unfoldable pub encode_result : ResultSet → Str
  encode_result rs = encode_rows encode_tuple rs

  unfoldable pub encode_array_result : ResultSet → Str
  encode_array_result rs = encode_rows encode_array rs

unfoldable pub encode_error : DbError → Str
encode_error e =
    codes "{\"success\":false,\"error\":\"" ++ escape_json (error_to_string e) ++ codes "\"}"
