-- ===== src/Backtest/Calendar/Holidays.antt =====
-- The longest closure: within four days of any day the exchange opens.
use quantlab_v.Prelude.{◌+◌, ◌≤◌, ◌<◌, ◌≡◌, ◌⊎◌, inl, inr, true, false, arith, Bool-cases}
use quantlab_v.Time.Days.{next_day-IsDate, weekday-next_day}
use quantlab_v.Time.{Date, IsDate, days_in_month, weekday, next_day}
use quantlab_v.Backtest.Calendar.{
  is_weekend, is_fixed_holiday, is_floating_holiday, is_juneteenth, is_holiday, is_session,
}

-- A closed weekday.
abbrev pub IsClosed : Date → Type 0
IsClosed d = is_session d ≡ false

pub weekday-lt : (d : Date) → weekday d < 7
unfolding weekday
weekday-lt d = omega arith

-- What the rules say of a closed weekday other than Monday, Thursday and Friday.
abbrev FixedDay : Date → Type 0
FixedDay d =
    ((d.month ≡ 1) × (d.day ≡ 1))
    ⊎ ((d.month ≡ 6) × (d.day ≡ 19))
    ⊎ ((d.month ≡ 7) × (d.day ≡ 4))
    ⊎ ((d.month ≡ 12) × (d.day ≡ 25))

closed_midweek : (d : Date) → IsClosed d → (weekday d ≡ 1) ⊎ (weekday d ≡ 2) → FixedDay d
unfolding is_session is_weekend is_holiday is_fixed_holiday is_floating_holiday is_juneteenth
closed_midweek d h w = ground arith

-- How the calendar moves on: within the month, or to the first of a month.
next_day_parts :
    (d : Date)
    → (((next_day d).month ≡ d.month) × ((next_day d).day ≡ d.day + 1))
      ⊎ (((next_day d).day ≡ 1) × (days_in_month d.year d.month ≤ d.day))
unfolding next_day
next_day_parts d = ground arith

fixed_next :
    (d : Date) → FixedDay d → ((next_day d).month ≡ d.month) × ((next_day d).day ≡ d.day + 1)
unfolding days_in_month
fixed_next d f = ground (arith, next_day_parts d)

-- After a closed Tuesday or Wednesday comes a session.
pub open_after_midweek :
    (d : Date)
    → IsDate d
    → (weekday d ≡ 1) ⊎ (weekday d ≡ 2)
    → IsClosed d
    → is_session (next_day d) ≡ true
unfolding is_session is_weekend is_holiday is_fixed_holiday is_floating_holiday is_juneteenth
open_after_midweek d v w h =
    let f : FixedDay d = closed_midweek d h w in
    ground (arith, fixed_next d f, weekday-next_day d v)

closed_thursday :
    (d : Date)
    → IsClosed d
    → weekday d ≡ 3
    → FixedDay d ⊎ ((d.month ≡ 11) × (22 ≤ d.day) × (d.day ≤ 28))
unfolding is_session is_weekend is_holiday is_fixed_holiday is_floating_holiday is_juneteenth
closed_thursday d h w = ground arith

-- After a closed Thursday comes a session.
pub open_after_thursday :
    (d : Date) → IsDate d → weekday d ≡ 3 → IsClosed d → is_session (next_day d) ≡ true
unfolding is_session is_weekend is_holiday is_fixed_holiday is_floating_holiday is_juneteenth
    days_in_month
open_after_thursday d v w h =
    let f = closed_thursday d h w in ground (arith, next_day_parts d, weekday-next_day d v)

closed_monday :
    (d : Date)
    → IsClosed d
    → weekday d ≡ 0
    → FixedDay d
      ⊎ ((d.month ≡ 1) × (d.day ≡ 2))
      ⊎ ((d.month ≤ 2) × (15 ≤ d.day) × (d.day ≤ 21))
      ⊎ ((d.month ≡ 5) × (25 ≤ d.day))
      ⊎ ((d.month ≡ 6) × (d.day ≡ 20))
      ⊎ ((d.month ≡ 7) × (d.day ≡ 5))
      ⊎ ((d.month ≡ 9) × (d.day ≤ 7))
      ⊎ ((d.month ≡ 12) × (d.day ≡ 26))
unfolding is_session is_weekend is_holiday is_fixed_holiday is_floating_holiday is_juneteenth
closed_monday d h w = ground arith

-- A first of January follows the last days of a December.
new_year :
    (d : Date)
    → IsDate d
    → (next_day d).month ≡ 1
    → (next_day d).day ≡ 1
    → (d.month ≡ 12) × (31 ≤ d.day)
unfolding next_day days_in_month
new_year d v m e = ground arith

-- After a closed Monday comes a session.
pub open_after_monday :
    (d : Date) → IsDate d → weekday d ≡ 0 → IsClosed d → is_session (next_day d) ≡ true
open_after_monday d v w h = elim (Bool-cases (is_session (next_day d))) [
  | inl opens ↦ opens
  | inr closed ↦
      let f = closed_midweek (next_day d) closed (inl (omega (arith, weekday-next_day d v))) in
      absurd (grind (arith, next_day_parts d, closed_monday d h w, new_year d v))
]

closed_friday :
    (d : Date)
    → IsClosed d
    → weekday d ≡ 4
    → FixedDay d
      ⊎ ((d.month ≡ 6) × (d.day ≡ 18))
      ⊎ ((d.month ≡ 7) × (d.day ≡ 3))
      ⊎ ((d.month ≡ 12) × (d.day ≡ 24))
      ⊎ ((d.month ≡ 12) × (d.day ≡ 31))
unfolding is_session is_weekend is_holiday is_fixed_holiday is_floating_holiday is_juneteenth
closed_friday d h w = ground arith

-- The Monday after such a Friday, by month and day.
same_month :
    (d : Date) → d.day < 28 → ((next_day d).month ≡ d.month) × ((next_day d).day ≡ d.day + 1)
unfolding days_in_month
same_month d h = ground (arith, next_day_parts d)

in_december :
    (d : Date)
    → d.month ≡ 12
    → (d.day < 31 → ((next_day d).month ≡ 12) × ((next_day d).day ≡ d.day + 1))
      × (31 ≤ d.day → ((next_day d).month ≡ 1) × ((next_day d).day ≡ 1))
unfolding next_day days_in_month
in_december d h = ground arith

-- What `closed_monday` allows: no day of the month before the fifth but the first, second and
-- fourth, nor the end of a June, July or December.
friday_monday :
    (d d3 : Date)
    → (((d3.month ≡ d.month) × (d3.day ≡ d.day + 3)) ⊎ ((d3.month ≡ 1) × (d3.day ≡ 3)))
    → IsClosed d
    → weekday d ≡ 4
    → weekday d3 ≡ 0
    → IsClosed d3
    → ⊥
friday_monday d d3 s h w w3 h3 = grind (arith, closed_friday d h w, closed_monday d3 h3 w3)

friday_shift :
    (d : Date)
    → IsClosed d
    → weekday d ≡ 4
    → let d3 = next_day (next_day (next_day d)) in
      ((d3.month ≡ d.month) × (d3.day ≡ d.day + 3)) ⊎ ((d3.month ≡ 1) × (d3.day ≡ 3))
friday_shift d h w =
    let d1 = next_day d in
    let d2 = next_day d1 in
    grind (
      arith,
      closed_friday d h w,
      same_month d,
      same_month d1,
      same_month d2,
      in_december d,
      in_december d1,
      in_december d2,
    )

-- After a closed Friday the exchange opens on the Monday.
pub open_after_friday :
    (d : Date)
    → IsDate d
    → weekday d ≡ 4
    → IsClosed d
    → is_session (next_day (next_day (next_day d))) ≡ true
open_after_friday d v w h =
    let d1 = next_day d in
    let d2 = next_day d1 in
    let d3 = next_day d2 in
    let v1 = next_day-IsDate d v in
    let v2 = next_day-IsDate d1 v1 in
    let monday : weekday d3 ≡ 0 =
      omega (arith, weekday-next_day d v, weekday-next_day d1 v1, weekday-next_day d2 v2) in
    elim (Bool-cases (is_session d3)) [
      | inl opens ↦ opens
      | inr closed ↦ absurd (friday_monday d d3 (friday_shift d h w) h w monday closed)
    ]
