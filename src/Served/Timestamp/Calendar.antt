-- ===== src/Served/Timestamp/Calendar.antt =====
-- `daysFromCivil` counts the days of the calendar.
use knish_io_client_cpp.Base.{
  ℕ, ◌+◌, ◌-◌, ◌*◌, ◌/◌, ◌%◌, ◌≤◌, ◌<◌, ◌≡◌, ◌∙◌, sym, ap, Bool, Bool-cases, inl, inr, not, ◌&&◌,
  ◌||◌, if◌then◌else◌, ltb, leb, ltb→lt, ◌==◌, arith,
}
use knish_io_client_cpp.Base.Int.{ℤ, pos, sub_ℕ, ◌+ℤ◌, ◌-ℤ◌, ◌*ℤ◌, int_laws, eq_of_parts}
use knish_io_client_cpp.Served.Timestamp.{era_of, days_from_march, days_from_civil}

-- The Gregorian calendar: every fourth year is a leap year, but of the hundredth years only every fourth.
unfoldable pub is_leap : ℕ → Bool
is_leap y = y % 4 == 0 && (not (y % 100 == 0) || y % 400 == 0)

unfoldable pub days_in_month : ℕ → ℕ → ℕ
days_in_month y m =
    if m == 2
    then (if is_leap y then 29 else 28)
    else if m == 4 || m == 6 || m == 9 || m == 11
    then 30
    else 31

-- The day after a date.
unfoldable pub next_date : ℕ × ℕ × ℕ → ℕ × ℕ × ℕ
next_date (y, m, d) =
    if ltb d (days_in_month y m)
    then (y, m, d + 1)
    else if ltb m 12
    then (y, m + 1, 1)
    else (y + 1, 1, 1)

-- The days before the month in a year that begins in March, and the days before the year.
abbrev before_month : ℕ → ℕ
before_month m = (153 * (if ltb 2 m then m - 3 else m + 9) + 2) / 5

abbrev shifted : ℕ → ℕ → ℕ
shifted y m = y - (if leb m 2 then 1 else 0)

abbrev before_year : ℕ → ℕ
before_year y = y * 365 + y / 4 + y / 400

times_pos : (a b : ℕ) → pos a *ℤ pos b ≡ pos (a * b)
unfolding ◌*ℤ◌
times_pos a b = eq_of_parts _ _ (ground arith)

minus_pos : (a b : ℕ) → b ≤ a → pos a -ℤ pos b ≡ pos (a - b)
minus_pos a b h = eq_of_parts _ _ (omega int_laws)

plus_minus : (a b c : ℕ) → pos a +ℤ pos b -ℤ pos c ≡ sub_ℕ (a + b) c
plus_minus a b c = eq_of_parts _ _ (grind int_laws)

sub-eq : (a b c d : ℕ) → a + d ≡ c + b → sub_ℕ a b ≡ sub_ℕ c d
sub-eq a b c d h = ground arith

-- The days since the first of March of the year 0, less those that the hundredth years leave out.
march-closed :
    (n doy : ℕ) → days_from_march (pos n) doy ≡ sub_ℕ (before_year n + doy) (n / 100 + 719468)
unfolding days_from_march era_of
march-closed n doy =
    let yoe : pos n -ℤ (pos (n / 400) *ℤ pos 400) ≡ pos (n - n / 400 * 400) =
      ap (λ a. pos n -ℤ a) (times_pos (n / 400) 400) ∙ minus_pos n (n / 400 * 400) (omega arith) in
    rw (yoe, times_pos (n / 400) 146097) (plus_minus _ _ _ ∙ sub-eq _ _ _ _ (omega arith))

shift-lem : (y m : ℕ) → 1 ≤ y → pos y -ℤ (if leb m 2 then pos 1 else pos 0) ≡ pos (shifted y m)
shift-lem y m h = elim (Bool-cases (leb m 2)) [
  | inl e ↦ rw e (minus_pos y 1 h)
  | inr e ↦ rw e (minus_pos y 0 (omega arith))
]

days_closed :
    (y m d : ℕ)
    → 1 ≤ y
    → days_from_civil (pos y) m d
      ≡ sub_ℕ (before_year (shifted y m) + (before_month m + d - 1)) (shifted y m / 100 + 719468)
unfolding days_from_civil
days_closed y m d h = rw (shift-lem y m h) (march-closed (shifted y m) (before_month m + d - 1))

-- One day more on the left of the difference.
sub-next : (a b c d : ℕ) → a + d ≡ c + b + 1 → sub_ℕ a b ≡ sub_ℕ c d +ℤ pos 1
sub-next a b c d h = eq_of_parts _ _ (grind int_laws)

-- A date of the calendar, from the year 1.
unfoldable pub IsDate : ℕ × ℕ × ℕ → Type 0
IsDate (y, m, d) = (1 ≤ y) × (1 ≤ m) × (m ≤ 12) × (1 ≤ d) × (d ≤ days_in_month y m)

abbrev pub days_of : ℕ × ℕ × ℕ → ℤ
days_of (y, m, d) = days_from_civil (pos y) m d

-- The day within the month, the first of the next month, and the first of the next year.
day_step :
    (y m d : ℕ)
    → 1 ≤ y
    → 1 ≤ d
    → days_from_civil (pos y) m (d + 1) ≡ days_from_civil (pos y) m d +ℤ pos 1
day_step y m d h hd =
    days_closed y m (d + 1) h
    ∙ sub-next _ _ _ _ (omega arith)
    ∙ ap (λ a. a +ℤ pos 1) (sym (days_closed y m d h))

month_step :
    (y m d : ℕ)
    → 1 ≤ y
    → 1 ≤ m
    → m < 12
    → d ≡ days_in_month y m
    → days_from_civil (pos y) (m + 1) 1 ≡ days_from_civil (pos y) m d +ℤ pos 1
unfolding days_in_month is_leap
month_step y m d h hm hl hd =
    days_closed y (m + 1) 1 h
    ∙ sub-next _ _ _ _ (ground arith)
    ∙ ap (λ a. a +ℤ pos 1) (sym (days_closed y m d h))

year_step :
    (y m d : ℕ)
    → 1 ≤ y
    → m ≡ 12
    → d ≡ days_in_month y m
    → days_from_civil (pos (y + 1)) 1 1 ≡ days_from_civil (pos y) m d +ℤ pos 1
unfolding days_in_month is_leap
year_step y m d h hm hd =
    days_closed (y + 1) 1 1 (omega arith)
    ∙ sub-next _ _ _ _ (ground arith)
    ∙ ap (λ a. a +ℤ pos 1) (sym (days_closed y m d h))

-- The first of January 1970 is day 0, and the day after any date from the year 1 on, by the lengths of the months
-- and the rule of leap years, has the number that follows the date's.
pub days_from_civil-next_date :
    (y m d : ℕ)
    → IsDate (y, m, d)
    → (days_of (1970, 1, 1) ≡ pos 0) × (days_of (next_date (y, m, d)) ≡ days_of (y, m, d) +ℤ pos 1)
unfolding next_date IsDate
days_from_civil-next_date y m d (hy, hm, hl, hd, last) = (
  days_closed 1970 1 1 (omega arith),
  elim (Bool-cases (ltb d (days_in_month y m))) [
    | inl e ↦ rw e (day_step y m d hy hd)
    | inr e ↦ elim (Bool-cases (ltb m 12)) [
      | inl f ↦ rw (e, f) (month_step y m d hy hm (ltb→lt m 12 f) (ground arith))
      | inr f ↦ rw (e, f) (year_step y m d hy (ground arith) (ground arith))
    ]
  ],
)
