-- ===== src/Json/Request/Query.antt =====
-- A request as a client writes it, read by the parser of JsonEncoder.hpp.
use open_db.Prelude.{ℕ, suc, ◌≡◌, refl, none, [], ◌++◌, Str, codes}
use open_db.Json.{quoted, escape_json}
use open_db.Json.Strings.{parse_string, string_loop}
use open_db.Json.RoundTrip.{parse_string-quoted}
use open_db.Json.Request.{
  JsonRequest, done, outcome, and_then, object_loop, parse_object, parse_member, parse_key,
  skip_whitespace, parse_json_request,
}

-- The request of the query `sql`.
abbrev pub query_text : Str → Str
query_text sql = codes "{\"type\":\"query\",\"sql\":" ++ quoted (escape_json sql) ++ codes "}"

sql_key : (s : Str) → parse_key (codes "\"sql\":" ++ s) ≡ done (codes "sql") s
unfolding parse_key skip_whitespace parse_string string_loop
sql_key s = refl

sql_member :
    (frames : ℕ) (r : JsonRequest) (sql rest : Str)
    → parse_member frames r (codes "sql") (quoted (escape_json sql) ++ rest)
      ≡ done (record r { sql = sql }) rest
unfolding parse_member
sql_member frames r sql rest = rw (parse_string-quoted sql rest, outcome, and_then) refl

skip_quote : (s rest : Str) → skip_whitespace (quoted s ++ rest) ≡ quoted s ++ rest
unfolding skip_whitespace
skip_quote s rest = refl

last_member :
    (fuel frames : ℕ) (r : JsonRequest) (sql : Str)
    → object_loop (suc fuel) frames r (codes "\"sql\":" ++ quoted (escape_json sql) ++ codes "}")
      ≡ done (record r { sql = sql }) []
unfolding object_loop
last_member fuel frames r sql =
    let rest : Str = quoted (escape_json sql) ++ codes "}" in
    rw
      (
        sql_key rest,
        and_then,
        skip_quote (escape_json sql) (codes "}"),
        sql_member frames r sql (codes "}"),
        and_then,
      )
      (unfold skip_whitespace in refl)

type_member :
    (fuel frames : ℕ) (r : JsonRequest) (s : Str)
    → object_loop (suc fuel) frames r (codes "\"type\":\"query\"," ++ s)
      ≡ object_loop fuel frames (record r { type = codes "query" }) s
unfolding object_loop parse_member parse_key skip_whitespace parse_string string_loop
type_member fuel frames r s = refl

-- The request of a query with any SQL text, escaped as the encoder does it, is read as the query
-- with that text and no transaction, and nothing is left behind it, whatever room the stack has.
pub parse_json_request-query_text :
    (frames : ℕ) (sql : Str)
    → parse_json_request frames (query_text sql)
      ≡ done (record { type = codes "query"; sql = sql; txn_id = none }) []
unfolding parse_json_request parse_object skip_whitespace
parse_json_request-query_text frames sql =
    let s : Str = codes "\"sql\":" ++ quoted (escape_json sql) ++ codes "}" in
    let r : JsonRequest = record { type = []; sql = []; txn_id = none } in
    rw (type_member _ frames r s, last_member _ frames (record r { type = codes "query" }) sql) refl
