-- ===== src/Served/Timestamp.antt =====
-- `daysFromCivil`, `parseRfc3339Millis` and `toSignedTimestamp` of src/Molecule.cpp.
pub mod Calendar
pub mod Rfc3339
use knish_io_client_cpp.Base.{
  ℕ, zero, suc, ◌+◌, ◌-◌, ◌*◌, ◌/◌, ◌%◌, Bool, true, false, not, ◌&&◌, ◌||◌, List, [], ◌∷◌, ◌++◌,
  if◌then◌else◌, ltb, leb, ◌==◌, length, take, all, replicate, is_empty, Text, Option, none, some,
}
use knish_io_client_cpp.Base.Int.{ℤ, pos, negsuc, sub_ℕ, ◌+ℤ◌, ◌-ℤ◌, ◌*ℤ◌, pos_part}
use knish_io_client_cpp.Base.Decimal.{to_string}
use knish_io_client_cpp.Base.Integers.{is_digit, leading_digits}

-- `(y >= 0 ? y : y - 399) / 400`, where the division cuts off towards zero.
unfoldable pub era_of : ℤ → ℤ
era_of (pos y) = pos (y / 400)
era_of (negsuc y) = sub_ℕ 0 ((y + 400) / 400)

-- The rest of the body, on the year that begins in March and the day in it.
unfoldable pub days_from_march : ℤ → ℕ → ℤ
days_from_march y doy =
    let era = era_of y in
    let yoe = pos_part (y -ℤ (era *ℤ pos 400)) in
    let doe = yoe * 365 + yoe / 4 - yoe / 100 + doy in era *ℤ pos 146097 +ℤ pos doe -ℤ pos 719468

unfoldable pub days_from_civil : ℤ → ℕ → ℕ → ℤ
days_from_civil y m d =
    days_from_march (y -ℤ (if leb m 2 then pos 1 else pos 0))
      ((153 * (if ltb 2 m then m - 3 else m + 9) + 2) / 5 + d - 1)

-- A reader of text: what it read, and the rest.
abbrev pub Reader : Type 0 → Type 0
Reader A = Text → Option (A × Text)

-- A group of as many digits, as a number.
unfoldable pub digits_of : ℕ → ℕ → Reader ℕ
digits_of zero acc s = some (acc, s)
digits_of (suc n) acc [] = none
digits_of (suc n) acc (c ∷ s) =
    let rest = digits_of n (acc * 10 + (c - b'0')) s in if is_digit c then rest else none

unfoldable pub expect : ℕ → Reader (Unit {0})
expect c [] = none
expect c (x ∷ s) = if x == c then some (tt, s) else none

abbrev pub then_read : {A B : Type 0} → Option (A × Text) → (A → Text → Option B) → Option B
then_read none next = none
then_read (some (a, s)) next = next a s

-- The longest run of digits.
unfoldable pub digit_run : Text → Text × Text
digit_run [] = ([], [])
digit_run (c ∷ s) =
    let (run, rest) = digit_run s in if is_digit c then (c ∷ run, rest) else ([], c ∷ s)

-- `(\.(\d+))?`, as the digits of the fraction; a point without digits does not match.
unfoldable pub fraction : Reader (Option Text)
fraction [] = some (none, [])
fraction (c ∷ s) =
    let (run, rest) = digit_run s in
    if not (c == b'.')
    then some (none, c ∷ s)
    else if is_empty run
    then none
    else some (some run, rest)

abbrev pub signed_offset : Bool → Option ℕ → Option ℤ
signed_offset negative none = none
signed_offset negative (some minutes) = some (if negative then sub_ℕ 0 minutes else pos minutes)

-- `(Z|([+-])(\d{2}):(\d{2}))$`, in minutes.
unfoldable pub zone : Text → Option ℤ
zone [] = none
zone (c ∷ s) =
    let offset : Option ℕ = then_read (digits_of 2 0 s) (λ hours s1.
      then_read (expect b':' s1) (λ _ s2.
        then_read (digits_of 2 0 s2)
          (λ minutes s3. if is_empty s3 then some (hours * 60 + minutes) else none))) in
    if c == b'Z'
    then (if is_empty s then some (pos 0) else none)
    else if c == b'+'
    then signed_offset false offset
    else if c == b'-'
    then signed_offset true offset
    else none

-- The fraction's first three digits, with zeros added.
unfoldable pub millis_of : Option Text → ℕ
millis_of none = 0
millis_of (some run) = leading_digits 0 (take 3 run ++ replicate (3 - length (take 3 run)) b'0')

pub record Stamp : Type 0 where
  pub year : ℕ
  pub month : ℕ
  pub day : ℕ
  pub hour : ℕ
  pub minute : ℕ
  pub second : ℕ
  pub millis : ℕ
  pub offset : ℤ

abbrev pub stamp_at : Option ℤ → (ℤ → Stamp) → Option Stamp
stamp_at none make = none
stamp_at (some offset) make = some (make offset)

abbrev pub separated : ℕ → ℕ → Reader ℕ
separated separator n s = then_read (expect separator s) (λ _ rest. digits_of n 0 rest)

-- `std::regex_match`, with the groups as numbers.
unfoldable pub match_rfc3339 : Text → Option Stamp
match_rfc3339 s = then_read (digits_of 4 0 s) (λ year s1.
    then_read (separated b'-' 2 s1) (λ month s2. then_read (separated b'-' 2 s2) (λ day s3.
      then_read (separated b'T' 2 s3) (λ hour s4. then_read (separated b':' 2 s4) (λ minute s5.
        then_read (separated b':' 2 s5) (λ second s6. then_read (fraction s6) (λ run s7.
          stamp_at (zone s7) (λ offset. record {
            year = year;
            month = month;
            day = day;
            hour = hour;
            minute = minute;
            second = second;
            millis = millis_of run;
            offset = offset;
          }))))))))

unfoldable pub in_range : Stamp → Bool
in_range t = not (
    ltb t.month 1
    || ltb 12 t.month
    || ltb t.day 1
    || ltb 31 t.day
    || ltb 23 t.hour
    || ltb 59 t.minute
    || ltb 60 t.second)

unfoldable pub millis_of_stamp : Stamp → ℤ
millis_of_stamp t =
    let days = days_from_civil (pos t.year) t.month t.day in
    let seconds =
      days *ℤ pos 86400
      +ℤ pos (t.hour * 3600)
      +ℤ pos (t.minute * 60)
      +ℤ pos t.second
      -ℤ (t.offset *ℤ pos 60) in
    seconds *ℤ pos 1000 +ℤ pos t.millis

abbrev pub checked_stamp : Option Stamp → Option ℤ
checked_stamp none = none
checked_stamp (some t) = if in_range t then some (millis_of_stamp t) else none

unfoldable pub parse_rfc3339_millis : Text → Option ℤ
parse_rfc3339_millis s = checked_stamp (match_rfc3339 s)

abbrev pub printed_or : Text → Option ℤ → Text
printed_or created_at none = created_at
printed_or created_at (some millis) = to_string millis

unfoldable pub to_signed_timestamp : Text → Option Text
to_signed_timestamp created_at =
    if is_empty created_at
    then none
    else if all is_digit created_at
    then some created_at
    else some (printed_or created_at (parse_rfc3339_millis created_at))
