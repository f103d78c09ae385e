-- ===== src/Json/Examples.antt =====
-- JSON texts of JsonEncoder.hpp, computed.
use open_db.Prelude.{ℕ, ◌≡◌, ◌≢◌, ◌^◌, ◌-◌, refl, [], ◌∷◌, ◌++◌, none, some, Str, codes, arith}
use open_db.Prelude.Int.{negsuc, ◌+ℤ◌, ◌-ℤ◌, ◌*ℤ◌}
use open_db.Value.{int64, text, blob, timestamp}
use open_db.Tuple.{Tuple}
use open_db.Storage.{not_found}
use open_db.Engine.{rows_ok}
use open_db.Value.Render.{civil, zeros, decimal_loop}
use open_db.Json.Base64.{base64_encode}
use open_db.Json.{
  escaped, separated, encode_tuple, encode_iso_timestamp, quoted, escape_json, encode_result,
  encode_error, encode_iso_date, encode_value,
}
use open_db.Json.Strings.{parse_string, string_loop}
use open_db.Sql.Scan.{span, strip_symbol}
use open_db.Sql.Literals.{digits_value}
use open_db.Json.Request.{
  done, exhausted, overflow, parse_json_request, parse_object, object_loop, parse_member,
  parse_number_as_string, stoull, skip_value, skip_on, skip_head, skip_scalar, parse_key,
  skip_whitespace,
}
use open_db.Json.Request.Progress.{parse_json_request_total}
use open_db.Json.Request.Query.{query_text, parse_json_request-query_text}
use open_db.Json.RoundTrip.{parse_string-quoted}

abbrev sample : Str
sample = codes "a \"b\"" ++ 10 ∷ 1 ∷ []

parse_string-quoted_example :
    parse_string (quoted (escape_json sample) ++ codes " }") ≡ some (sample, codes " }")
parse_string-quoted_example = parse_string-quoted sample (codes " }")

abbrev no_doubles : ℕ → Str
no_doubles bits = codes "0.000000"

abbrev row : Tuple
row = (codes "id", int64 (negsuc 6)) ∷ (codes "name", text (codes "ann")) ∷ []

encoded_rows :
    encode_result no_doubles (rows_ok (row ∷ row ∷ []))
    ≡ codes
        "{\"success\":true,\"rows\":[{\"id\":-7,\"name\":\"ann\"},{\"id\":-7,\"name\":\"ann\"}]}"
unfolding encode_result encode_tuple encode_value escape_json escaped separated decimal_loop
encoded_rows = refl

encoded_error :
    encode_error (record { code = not_found; message = codes "no table" })
    ≡ codes "{\"success\":false,\"error\":\"NotFound: no table\"}"
unfolding encode_error escape_json escaped
encoded_error = refl

encoded_blob : encode_value no_doubles (blob (codes "hello")) ≡ quoted (codes "aGVsbG8=")
unfolding encode_value base64_encode
encoded_blob = refl

encoded_timestamp :
    encode_value no_doubles (timestamp (negsuc 0)) ≡ quoted (codes "1969-12-31T23:59:59.999Z")
unfolding encode_value encode_iso_timestamp encode_iso_date civil zeros decimal_loop ◌+ℤ◌ ◌-ℤ◌ ◌*ℤ◌
encoded_timestamp = refl

-- A year before 0: the zeros stand before the sign.
negative_year : encode_iso_date (negsuc 721000) ≡ codes "00-5-12-20"
unfolding encode_iso_date civil zeros decimal_loop ◌+ℤ◌ ◌-ℤ◌ ◌*ℤ◌
negative_year = refl

-- A surrogate pair is read as two codes of three bytes each, which is no UTF-8.
surrogates :
    parse_string (codes "\"\\ud83d\\ude00\"") ≡ some (237 ∷ 160 ∷ 189 ∷ 237 ∷ 184 ∷ 128 ∷ [], [])
unfolding parse_string string_loop
surrogates = refl

abbrev nested_request : Str
nested_request = codes "{\"a\": [1, {}, \"x\"], \"type\": \"begin\"}"

parse_json_request_total_example :
    (parse_json_request 64 nested_request ≢ exhausted)
    × (parse_json_request 64 nested_request ≢ overflow)
parse_json_request_total_example = parse_json_request_total 64 nested_request (omega arith)

parse_json_request-query_text_example :
    parse_json_request 8 (query_text (codes "SELECT * FROM \"t\""))
    ≡ done (record { type = codes "query"; sql = codes "SELECT * FROM \"t\""; txn_id = none }) []
parse_json_request-query_text_example =
    parse_json_request-query_text 8 (codes "SELECT * FROM \"t\"")

query_request :
    parse_json_request 8
      (codes "{\"a\": [1, {}, \"x\"], \"txnId\": 42, \"type\": \"query\", \"sql\": \"x\\ty\"} z")
    ≡ done
        (record { type = codes "query"; sql = codes "x" ++ 9 ∷ codes "y"; txn_id = some 42 })
        (codes " z")
unfolding parse_json_request parse_object object_loop parse_member parse_number_as_string stoull
    skip_value skip_on skip_head skip_scalar parse_key skip_whitespace parse_string string_loop
    strip_symbol span digits_value
query_request = refl

-- A negative identifier wraps.
negative_txn :
    parse_json_request 8 (codes "{\"type\": \"commit\", \"txnId\": -1}")
    ≡ done (record { type = codes "commit"; sql = []; txn_id = some (2 ^ 64 - 1) }) []
unfolding parse_json_request parse_object object_loop parse_member parse_number_as_string stoull
    parse_key skip_whitespace parse_string string_loop span digits_value
negative_txn = refl
