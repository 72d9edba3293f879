-- ===== src/Served/Timestamp/Rfc3339.antt =====
-- `parseRfc3339Millis` reads back a printed time.
use knish_io_client_cpp.Base.{
  ℕ, suc, ◌+◌, ◌-◌, ◌*◌, ◌/◌, ◌%◌, ◌≤◌, ◌<◌, ◌≡◌, ◌∙◌, refl, sym, ap, true, false, [], ◌∷◌, ◌==◌,
  arith, is_empty, all, Text, some,
}
use knish_io_client_cpp.Base.Int.{
  ℤ, pos, negsuc, pos_part, neg_part, ◌+ℤ◌, ◌-ℤ◌, ◌*ℤ◌, int_laws, eq_of_parts,
}
use knish_io_client_cpp.Base.Decimal.{to_string}
use knish_io_client_cpp.Base.Integers.{is_digit, leading_digits}
use knish_io_client_cpp.Served.Timestamp.Calendar.{days_of}
use knish_io_client_cpp.Served.Timestamp.{
  digits_of, expect, separated, digit_run, fraction, zone, millis_of, Stamp, match_rfc3339,
  in_range, millis_of_stamp, parse_rfc3339_millis, to_signed_timestamp,
}

abbrev digit : ℕ → ℕ
digit n = b'0' + n % 10

abbrev pub two_digits : ℕ → Text → Text
two_digits n rest = digit (n / 10) ∷ digit n ∷ rest

abbrev pub three_digits : ℕ → Text → Text
three_digits n rest = digit (n / 100) ∷ two_digits n rest

abbrev pub four_digits : ℕ → Text → Text
four_digits n rest = digit (n / 1000) ∷ three_digits n rest

-- A time as RFC 3339 writes it, with milliseconds, in UTC.
unfoldable pub print_stamp : Stamp → Text
print_stamp t = four_digits t.year (
    b'-'
    ∷ two_digits t.month (
        b'-'
        ∷ two_digits t.day (
            b'T'
            ∷ two_digits t.hour (
                b':'
                ∷ two_digits t.minute
                    (b':' ∷ two_digits t.second (b'.' ∷ three_digits t.millis (b'Z' ∷ [])))))))

digit-is_digit : (n : ℕ) → is_digit (digit n) ≡ true
digit-is_digit n = ground arith

digits_of-step :
    (k acc n : ℕ) (s : Text)
    → digits_of (suc k) acc (digit n ∷ s) ≡ digits_of k (acc * 10 + n % 10) s
unfolding digits_of
digits_of-step k acc n s =
    let less : digit n - b'0' ≡ n % 10 = omega arith in rw (digit-is_digit n, less) refl

digits_of-end : (acc : ℕ) (s : Text) → digits_of 0 acc s ≡ some (acc, s)
unfolding digits_of
digits_of-end acc s = refl

digits_of-two : (n : ℕ) (s : Text) → n < 100 → digits_of 2 0 (two_digits n s) ≡ some (n, s)
digits_of-two n s h =
    digits_of-step 1 0 (n / 10) (digit n ∷ s)
    ∙ digits_of-step 0 (0 * 10 + n / 10 % 10) n s
    ∙ digits_of-end _ s
    ∙ ap (λ (k : ℕ). some (k, s)) {x = (0 * 10 + n / 10 % 10) * 10 + n % 10} {y = n} (omega arith)

digits_of-four : (n : ℕ) (s : Text) → n < 10000 → digits_of 4 0 (four_digits n s) ≡ some (n, s)
digits_of-four n s h =
    digits_of-step 3 0 (n / 1000) (three_digits n s)
    ∙ digits_of-step 2 (0 * 10 + n / 1000 % 10) (n / 100) (two_digits n s)
    ∙ digits_of-step 1 ((0 * 10 + n / 1000 % 10) * 10 + n / 100 % 10) (n / 10) (digit n ∷ s)
    ∙ digits_of-step 0 (((0 * 10 + n / 1000 % 10) * 10 + n / 100 % 10) * 10 + n / 10 % 10) n s
    ∙ digits_of-end _ s
    ∙ ap (λ (k : ℕ). some (k, s))
        {x = (((0 * 10 + n / 1000 % 10) * 10 + n / 100 % 10) * 10 + n / 10 % 10) * 10 + n % 10}
        {y = n} (omega arith)

separated-two : (c n : ℕ) (s : Text) → n < 100 → separated c 2 (c ∷ two_digits n s) ≡ some (n, s)
unfolding expect
separated-two c n s h = let e : (c == c) ≡ true = ground arith in rw e (digits_of-two n s h)

abbrev run_of : ℕ → Text
run_of n = three_digits n []

digit_run-three : (n : ℕ) → digit_run (three_digits n (b'Z' ∷ [])) ≡ (run_of n, b'Z' ∷ [])
unfolding digit_run
digit_run-three n = rw (digit-is_digit (n / 100), digit-is_digit (n / 10), digit-is_digit n) refl

fraction-three :
    (n : ℕ) → fraction (b'.' ∷ three_digits n (b'Z' ∷ [])) ≡ some (some (run_of n), b'Z' ∷ [])
unfolding fraction
fraction-three n = rw (digit_run-three n) refl

millis_of-three : (n : ℕ) → n < 1000 → millis_of (some (run_of n)) ≡ n
unfolding millis_of leading_digits
millis_of-three n h =
    rw (digit-is_digit (n / 100), digit-is_digit (n / 10), digit-is_digit n) (omega arith)

zone-utc : zone (b'Z' ∷ []) ≡ some (pos 0)
unfolding zone
zone-utc = refl

-- The fields of a time that the pattern's groups hold.
pub record IsStamp (t : Stamp) : Type 0 where
  pub four_digit_year : t.year < 10000
  pub month_in_range : (1 ≤ t.month) × (t.month ≤ 12)
  pub day_in_range : (1 ≤ t.day) × (t.day ≤ 31)
  pub hour_in_range : t.hour ≤ 23
  pub minute_in_range : t.minute ≤ 59
  pub second_in_range : t.second ≤ 60
  pub millis_in_range : t.millis < 1000
  pub utc : t.offset ≡ pos 0

match_rfc3339-print_stamp :
    (t : Stamp) → IsStamp t → match_rfc3339 (print_stamp t) ≡ some (record t { offset = pos 0 })
unfolding match_rfc3339 print_stamp
match_rfc3339-print_stamp t h = rw (digits_of-four t.year _ h.four_digit_year) (
    rw (separated-two b'-' t.month _ (omega (arith, h.month_in_range.1))) (
      rw (separated-two b'-' t.day _ (omega (arith, h.day_in_range.1))) (
        rw (separated-two b'T' t.hour _ (omega (arith, h.hour_in_range))) (
          rw (separated-two b':' t.minute _ (omega (arith, h.minute_in_range))) (
            rw (separated-two b':' t.second _ (omega (arith, h.second_in_range))) (
              rw (fraction-three t.millis)
                (rw (zone-utc, millis_of-three t.millis h.millis_in_range) refl)))))))

in_range-stamp : (t : Stamp) → IsStamp t → in_range (record t { offset = pos 0 }) ≡ true
unfolding in_range
in_range-stamp t h =
    ground (
      arith, h.month_in_range, h.day_in_range, h.hour_in_range, h.minute_in_range,
      h.second_in_range,
    )

parse-print :
    (t : Stamp) → IsStamp t → parse_rfc3339_millis (print_stamp t) ≡ some (millis_of_stamp t)
unfolding parse_rfc3339_millis
parse-print t h =
    rw (match_rfc3339-print_stamp t h) (rw (in_range-stamp t h) refl)
    ∙ ap (λ o. some (millis_of_stamp (record t { offset = o }))) (sym h.utc)

-- The dash behind the year is not a digit.
print_stamp-not_digits :
    (t : Stamp) → (is_empty (print_stamp t) ≡ false) × (all is_digit (print_stamp t) ≡ false)
unfolding print_stamp
print_stamp-not_digits t = (
  refl,
  rw
      (
        digit-is_digit (t.year / 1000),
        digit-is_digit (t.year / 100),
        digit-is_digit (t.year / 10),
        digit-is_digit t.year,
      )
      refl,
)

-- The milliseconds since 1970 in UTC: whole days, and the milliseconds of the day.
unfoldable pub millis_since_epoch : Stamp → ℤ
millis_since_epoch t =
    days_of (t.year, t.month, t.day) *ℤ pos 86400000
    +ℤ pos (((t.hour * 60 + t.minute) * 60 + t.second) * 1000 + t.millis)

scale_parts :
    (a : ℤ) (k : ℕ)
    → pos_part (a *ℤ pos k) + neg_part a * k ≡ neg_part (a *ℤ pos k) + pos_part a * k
unfolding ◌*ℤ◌
scale_parts (pos n) k = ground arith
scale_parts (negsuc n) k = ground arith

day-millis :
    (d : ℤ) (hour minute second millis : ℕ)
    → (d *ℤ pos 86400 +ℤ pos (hour * 3600) +ℤ pos (minute * 60) +ℤ pos second -ℤ (pos 0 *ℤ pos 60))
          *ℤ pos 1000
        +ℤ pos millis
      ≡ d *ℤ pos 86400000 +ℤ pos (((hour * 60 + minute) * 60 + second) * 1000 + millis)
day-millis d hour minute second millis =
    let clock = d *ℤ pos 86400 +ℤ pos (hour * 3600) +ℤ pos (minute * 60) +ℤ pos second in
    eq_of_parts _ _ (
      omega (
        int_laws,
        scale_parts d 86400,
        scale_parts d 86400000,
        scale_parts (pos 0) 60,
        scale_parts (clock -ℤ (pos 0 *ℤ pos 60)) 1000,
      ))

millis_of_stamp-utc : (t : Stamp) → t.offset ≡ pos 0 → millis_of_stamp t ≡ millis_since_epoch t
unfolding millis_of_stamp millis_since_epoch
millis_of_stamp-utc t e =
    rw e (day-millis (days_of (t.year, t.month, t.day)) t.hour t.minute t.second t.millis)

-- A time of a year of four digits, with its fields in range and milliseconds, printed as RFC 3339 in UTC: the
-- parser returns the milliseconds since 1970, which are those of the days before it, at 86,400,000 a day, and
-- those of its hour, minute and second; and toSignedTimestamp writes them in decimal.
pub parse_rfc3339_millis-print_stamp :
    (t : Stamp)
    → IsStamp t
    → (parse_rfc3339_millis (print_stamp t) ≡ some (millis_since_epoch t))
      × (to_signed_timestamp (print_stamp t) ≡ some (to_string (millis_since_epoch t)))
unfolding to_signed_timestamp
parse_rfc3339_millis-print_stamp t h =
    let (some_text, not_digits) = print_stamp-not_digits t in
    let run = parse-print t h ∙ ap some (millis_of_stamp-utc t h.utc) in
    (run, rw (some_text, not_digits, run) refl)
