-- ===== src/Value/Render.antt =====
-- Value::toString with dateToIso and timestampToIso. std::to_string of a double is a parameter, from its
-- bit pattern to the text; integers print in decimal. The arithmetic of dates is on integers without
-- bound: the int32_t of the source overflows near the ends of its range only.
use open_db.Prelude.{
  ℕ, zero, suc, ◌+◌, ◌-◌, ◌*◌, ◌/◌, ◌%◌, ◌^◌, Bool, true, false, ◌&&◌, ◌||◌, [], ◌∷◌, ◌++◌, ltb,
  leb, ◌==◌, if◌then◌else◌, Str, codes, length,
}
use open_db.Prelude.Int.{ℤ, pos, negsuc, ◌+ℤ◌, ◌-ℤ◌, ◌*ℤ◌, ltb_ℤ}
use open_db.Prelude.Words.{to_unsigned, to_signed}
use open_db.Value.{Value, null, boolean, int32, int64, real, text, blob, date, timestamp}

-- The decimal digits of a number; n rounds are enough.
unfoldable pub decimal_loop : ℕ → ℕ → Str
decimal_loop zero n = (48 + n % 10) ∷ []
decimal_loop (suc fuel) n =
    let rest = decimal_loop fuel (n / 10) in
    if ltb n 10 then (48 + n) ∷ [] else rest ++ (48 + n % 10) ∷ []

abbrev pub decimal : ℕ → Str
decimal n = decimal_loop n n

abbrev pub decimal_ℤ : ℤ → Str
decimal_ℤ (pos n) = decimal n
decimal_ℤ (negsuc n) = 45 ∷ decimal (n + 1)

unfoldable pub zeros : ℕ → Str → Str
zeros zero s = s
zeros (suc n) s = 48 ∷ zeros n s

-- %0<width>d of a number
abbrev pad : ℕ → ℕ → Str
pad width n = zeros (width - length (decimal n)) (decimal n)

abbrev pad_ℤ : ℕ → ℤ → Str
pad_ℤ width (pos n) = pad width n
pad_ℤ width (negsuc n) = 45 ∷ pad (width - 1) (n + 1)

abbrev negate : ℕ → ℤ
negate zero = pos 0
negate (suc n) = negsuc n

-- / and % of C++, which round to 0.
abbrev pub quotient : ℤ → ℕ → ℤ
quotient (pos n) k = pos (n / k)
quotient (negsuc n) k = negate ((n + 1) / k)

abbrev pub remainder : ℤ → ℕ → ℤ
remainder (pos n) k = pos (n % k)
remainder (negsuc n) k = negate ((n + 1) % k)

abbrev era_of : ℤ → ℤ
era_of z = quotient (if ltb_ℤ z (pos 0) then z -ℤ pos 146096 else z) 146097

abbrev day_of_era : ℤ → ℕ
day_of_era z = to_unsigned (2 ^ 32) (z -ℤ era_of z *ℤ pos 146097)

abbrev year_of_era : ℕ → ℕ
year_of_era doe = (doe - doe / 1460 + doe / 36524 - doe / 146096) / 365

abbrev day_of_year : ℕ → ℕ
day_of_year doe = let yoe = year_of_era doe in doe - (365 * yoe + yoe / 4 - yoe / 100)

abbrev shifted_month : ℕ → ℕ
shifted_month doy = (5 * doy + 2) / 153

-- Year, month and day.
unfoldable pub civil : ℤ → ℤ × ℕ × ℕ
unfolding ◌+ℤ◌ ◌-ℤ◌ ◌*ℤ◌
civil days =
    let z = days +ℤ pos 719468 in
    let doe = day_of_era z in
    let doy = day_of_year doe in
    let mp = shifted_month doy in
    let m = if ltb mp 10 then mp + 3 else mp - 9 in
    let y = pos (year_of_era doe) +ℤ era_of z *ℤ pos 400 in
    (if leb m 2 then y +ℤ pos 1 else y, m, doy - (153 * mp + 2) / 5 + 1)

-- dateToIso
unfoldable pub date_to_iso : ℤ → Str
unfolding civil zeros decimal_loop
date_to_iso days = let (y, m, d) = civil days in pad_ℤ 4 y ++ 45 ∷ pad 2 m ++ 45 ∷ pad 2 d

abbrev pub is_negative : ℤ → Bool
is_negative (pos n) = false
is_negative (negsuc n) = true

-- What the two adjustments of timestampToIso do: a negative remainder moves up by k, and its quotient
-- down by 1.
abbrev pub up : ℤ → ℕ → ℤ
up r k = if is_negative r then r +ℤ pos k else r

abbrev pub down : ℤ → ℤ → ℤ
down q r = if is_negative r then q -ℤ pos 1 else q

abbrev pub to_int32 : ℤ → ℤ
to_int32 z = to_signed (2 ^ 32) (to_unsigned (2 ^ 32) z)

-- timestampToIso
unfoldable pub timestamp_to_iso : ℤ → Str
unfolding ◌+ℤ◌ ◌-ℤ◌ zeros decimal_loop
timestamp_to_iso millis =
    let ms = remainder millis 1000 in
    let sec = down (quotient millis 1000) ms in
    let rem = remainder sec 86400 in
    let days = down (to_int32 (quotient sec 86400)) rem in
    let second = up rem 86400 in
    date_to_iso days
    ++ 84 ∷ pad_ℤ 2 (quotient second 3600)
    ++ 58 ∷ pad_ℤ 2 (remainder (quotient second 60) 60)
    ++ 58 ∷ pad_ℤ 2 (remainder second 60)
    ++ 46 ∷ pad_ℤ 3 (up ms 1000)
    ++ 90 ∷ []

abbrev pub is_nil : Str → Bool
is_nil [] = true
is_nil (c ∷ cs) = false

-- Without its last characters that are `last`.
unfoldable pub strip : ℕ → Str → Str
strip last [] = []
strip last (c ∷ cs) = let rest = strip last cs in if is_nil rest && c == last then [] else c ∷ rest

-- Without its last character, if that is a dot.
unfoldable pub drop_dot : Str → Str
drop_dot [] = []
drop_dot (c ∷ cs) = let rest = drop_dot cs in if is_nil cs && c == 46 then [] else c ∷ rest

unfoldable pub has_dot : Str → Bool
has_dot [] = false
has_dot (c ∷ cs) = c == 46 || has_dot cs

abbrev trim_double : Str → Str
trim_double s = if has_dot s then drop_dot (strip 48 s) else s

-- toString
unfoldable pub to_string : (ℕ → Str) → Value → Str
unfolding decimal_loop strip drop_dot has_dot
to_string print_double null = codes "NULL"
to_string print_double (boolean true) = codes "true"
to_string print_double (boolean false) = codes "false"
to_string print_double (int32 z) = decimal_ℤ z
to_string print_double (int64 z) = decimal_ℤ z
to_string print_double (real bits) = trim_double (print_double bits)
to_string print_double (text s) = s
to_string print_double (blob bytes) = codes "<blob:" ++ decimal (length bytes) ++ codes "B>"
to_string print_double (date z) = date_to_iso z
to_string print_double (timestamp z) = timestamp_to_iso z
