-- ===== src/Time/Days.antt =====
-- The next day is a date, its number is one higher, and so the weekdays go round.
use quantlab_v.Prelude.{
  ℕ, zero, suc, ◌+◌, ◌-◌, ◌*◌, ◌/◌, ◌%◌, ◌≤◌, ◌<◌, ◌≡◌, refl, ap, ◌⊎◌, inl, inr, true, false, ◌&&◌,
  arith, ltb, if◌then◌else◌, Bool-cases,
}
use quantlab_v.Time.{
  Date, date, date_lt, date_le, IsDate, weekday, is_leap, days_in_month, days_before_month,
  to_ordinal, next_day,
}

-- The days of whole years go up by 365, or by 366 over a leap year.
days_of_years : ℕ → ℕ
days_of_years p = p * 365 + p / 4 - p / 100 + p / 400

days_of_years-leap :
    (y : ℕ) → 1 ≤ y → is_leap y ≡ true → days_of_years y ≡ days_of_years (y - 1) + 366
unfolding is_leap days_of_years
days_of_years-leap y h e = ground arith

days_of_years-common :
    (y : ℕ) → 1 ≤ y → is_leap y ≡ false → days_of_years y ≡ days_of_years (y - 1) + 365
unfolding is_leap days_of_years
days_of_years-common y h e = ground arith

pub next_day-IsDate : (d : Date) → IsDate d → IsDate (next_day d)
unfolding next_day
next_day-IsDate d h = ground arith

-- Within a month the number goes up with the day.
to_ordinal-day : (d : Date) → to_ordinal (record d { day = d.day + 1 }) ≡ to_ordinal d + 1
unfolding to_ordinal
to_ordinal-day d = omega arith

leap_days : ℕ → ℕ → ℕ
leap_days y m = if ltb 2 m && is_leap y then 1 else 0

-- The months are laid end to end.
days_before_month-suc :
    (y m : ℕ)
    → 1 ≤ m
    → m < 12
    → days_before_month (m + 1) + leap_days y (m + 1)
      ≡ days_before_month m + leap_days y m + days_in_month y m
unfolding days_before_month days_in_month leap_days
days_before_month-suc y m h k = elim (Bool-cases (is_leap y)) [
  | inl e ↦ rw e (ground arith)
  | inr e ↦ rw e (ground arith)
]

december :
    (y : ℕ) → 1 ≤ y → days_of_years y + 1 ≡ days_of_years (y - 1) + 334 + leap_days y 12 + 31 + 1
unfolding leap_days
december y h = elim (Bool-cases (is_leap y)) [
  | inl e ↦ rw e (omega (arith, days_of_years-leap y h e))
  | inr e ↦ rw e (omega (arith, days_of_years-common y h e))
]

to_ordinal_parts :
    (d : Date)
    → to_ordinal d
      ≡ days_of_years (d.year - 1) + days_before_month d.month + leap_days d.year d.month + d.day
unfolding to_ordinal leap_days days_of_years
to_ordinal_parts d = refl

day_bounds : (d : Date) → IsDate d → (1 ≤ d.day) × (d.day ≤ days_in_month d.year d.month)
day_bounds d h = ground arith

month_bounds : (d : Date) → IsDate d → (1 ≤ d.year) × (1 ≤ d.month) × (d.month ≤ 12)
month_bounds d h = ground arith

december_days : (y : ℕ) → (days_in_month y 12 ≡ 31) × (days_before_month 12 ≡ 334)
unfolding days_in_month days_before_month
december_days y = (refl, refl)

january_days : (y : ℕ) → days_before_month 1 + leap_days y 1 ≡ 0
unfolding leap_days days_before_month
january_days y = refl

month_end :
    (d : Date)
    → IsDate d
    → d.month < 12
    → days_in_month d.year d.month ≤ d.day
    → to_ordinal (date d.year (d.month + 1) 1) ≡ to_ordinal d + 1
month_end d h m e =
    let (y1, m1, m12) = month_bounds d h in
    omega (
      arith,
      to_ordinal_parts d,
      to_ordinal_parts (date d.year (d.month + 1) 1),
      day_bounds d h,
      days_before_month-suc d.year d.month m1 m,
    )

year_end :
    (d : Date)
    → IsDate d
    → d.month ≡ 12
    → days_in_month d.year d.month ≤ d.day
    → to_ordinal (date (d.year + 1) 1 1) ≡ to_ordinal d + 1
year_end d h last e = omega (
  arith,
  to_ordinal_parts d,
  to_ordinal_parts (date (d.year + 1) 1 1),
  day_bounds d h,
  month_bounds d h,
  december d.year (month_bounds d h).0,
  december_days d.year,
  january_days (d.year + 1),
  ap (days_in_month d.year) last,
  ap days_before_month last,
  ap (leap_days d.year) last,
  ap days_of_years (let e : d.year + 1 - 1 ≡ d.year = omega arith in e),
)

-- The next day has the next number.
pub to_ordinal-next_day : (d : Date) → IsDate d → to_ordinal (next_day d) ≡ to_ordinal d + 1
unfolding next_day
to_ordinal-next_day d h =
    ground (arith, to_ordinal-day d, month_end d h, year_end d h, month_bounds d h)

-- The weekdays go round.
pub weekday-next_day : (d : Date) → IsDate d → weekday (next_day d) ≡ (weekday d + 1) % 7
unfolding weekday
weekday-next_day d h = omega (arith, to_ordinal-next_day d h)

-- The day of the year.
day_of_year : Date → ℕ
day_of_year d = days_before_month d.month + leap_days d.year d.month + d.day

year_length :
    (d : Date)
    → IsDate d
    → (1 ≤ day_of_year d) × (days_of_years (d.year - 1) + day_of_year d ≤ days_of_years d.year)
unfolding day_of_year days_before_month leap_days days_in_month
year_length d h = elim (Bool-cases (is_leap d.year)) [
  | inl e ↦
      ground
        (arith, day_bounds d h, month_bounds d h, days_of_years-leap d.year (month_bounds d h).0 e)
  | inr e ↦
      ground (
        arith,
        day_bounds d h,
        month_bounds d h,
        days_of_years-common d.year (month_bounds d h).0 e,
      )
]

day_of_year_parts :
    (d : Date) → day_of_year d ≡ days_before_month d.month + leap_days d.year d.month + d.day
unfolding day_of_year
day_of_year_parts d = refl

days_of_years_mono : (p q : ℕ) → p ≤ q → days_of_years p ≤ days_of_years q
unfolding days_of_years
days_of_years_mono p q h = omega arith

-- the days of a year before its month
abbrev before_month : ℕ → ℕ → ℕ
before_month y m = days_before_month m + leap_days y m

months_mono : (y k m : ℕ) → 1 ≤ m → m + k ≤ 12 → before_month y m ≤ before_month y (m + k)
months_mono y zero m h l = let e : m + 0 ≡ m = omega arith in rw e (omega arith)
months_mono y (suc k) m h l =
    let e : m + suc k ≡ m + k + 1 = omega arith in
    rw e (
      omega (
        arith,
        months_mono y k m h (omega arith),
        days_before_month-suc y (m + k) (omega arith) (omega arith),
      ))

month_lt :
    (y m m' : ℕ)
    → 1 ≤ m
    → m < m'
    → m' ≤ 12
    → before_month y m + days_in_month y m ≤ before_month y m'
month_lt y m m' h l k =
    let e : m' ≡ m + 1 + (m' - m - 1) = omega arith in
    rw e (
      omega (
        arith,
        days_before_month-suc y m h (omega arith),
        months_mono y (m' - m - 1) (m + 1) (omega arith) (omega arith),
      ))

date_lt-cases :
    (a b : Date)
    → date_lt a b ≡ true
    → (a.year < b.year)
      ⊎ ((a.year ≡ b.year) × (a.month < b.month))
      ⊎ ((a.year ≡ b.year) × (a.month ≡ b.month) × (a.day < b.day))
date_lt-cases a b h = ground arith

-- The comparison of dates is that of their numbers.
pub date_lt→lt :
    (a b : Date) → IsDate a → IsDate b → date_lt a b ≡ true → to_ordinal a < to_ordinal b
date_lt→lt a b u v h = elim (date_lt-cases a b h) [
  | inl y ↦ omega (
    arith,
    year_length a u,
    year_length b v,
    to_ordinal_parts a,
    to_ordinal_parts b,
    days_of_years_mono a.year (b.year - 1),
    day_of_year_parts a,
    day_of_year_parts b,
  )
  | inr (inl (y, m)) ↦ omega (
    arith,
    to_ordinal_parts a,
    to_ordinal_parts b,
    day_bounds a u,
    day_bounds b v,
    month_lt a.year a.month b.month (month_bounds a u).1 m (month_bounds b v).2,
    ap (λ t. before_month t b.month) y,
    ap (λ t. days_of_years (t - 1)) y,
  )
  | inr (inr (y, m, d)) ↦ omega (
    arith,
    to_ordinal_parts a,
    to_ordinal_parts b,
    d,
    ap (λ t. days_of_years (t - 1)) y,
    ap (λ t. before_month t b.month) y,
    ap (before_month a.year) m,
  )
]

no_difference :
    (a b : Date)
    → date_lt a b ≡ false
    → date_lt b a ≡ false
    → (a.year ≡ b.year) × (a.month ≡ b.month) × (a.day ≡ b.day)
no_difference a b h k = ground arith

same_fields : (a b : Date) → date_lt a b ≡ false → date_lt b a ≡ false → to_ordinal a ≡ to_ordinal b
same_fields a b h k =
    let (y, m, d) = no_difference a b h k in ap to_ordinal (λ i. date (y i) (m i) (d i))

pub date_le→le :
    (a b : Date) → IsDate a → IsDate b → date_le a b ≡ true → to_ordinal a ≤ to_ordinal b
date_le→le a b u v h = elim (Bool-cases (date_lt a b)) [
  | inl e ↦ omega (arith, date_lt→lt a b u v e)
  | inr e ↦ omega (arith, same_fields a b e (ground arith))
]

pub date_gt→gt :
    (a b : Date) → IsDate a → IsDate b → date_le a b ≡ false → to_ordinal b < to_ordinal a
date_gt→gt a b u v h = date_lt→lt b a v u (ground arith)
