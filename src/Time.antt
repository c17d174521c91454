-- ===== src/Time.antt =====
-- `datetime.date` and `datetime.datetime` of Python's standard library, for what the program uses
-- of them. A date is proleptic Gregorian; a moment is a number of microseconds on the UTC axis,
-- with the offset from UTC that it is written with and the fact whether it carries a time zone.
pub mod Days
pub mod Iso
use quantlab_v.Prelude.Int.{ℤ, pos, negsuc, pos_part, ◌+ℤ◌}
use quantlab_v.Prelude.{
  ◌≡◌, ℕ, ◌+◌, ◌-◌, ◌*◌, ◌/◌, ◌%◌, Bool, true, not, ◌&&◌, ◌||◌, ltb, leb, ◌==◌, if◌then◌else◌,
}

-- `offset` is `utcoffset()` in microseconds, east of UTC; that of a naive moment is 0, and its
-- `instant` is what its clock shows.
pub record DateTime : Type 0 where
  pub instant : ℕ
  pub aware : Bool
  pub offset : ℤ

-- what the clock of the moment's zone shows
unfoldable pub wall : DateTime → ℕ
wall t = pos_part (pos t.instant +ℤ t.offset)

-- `t.replace(tzinfo=UTC)`: the clock stays and the instant changes
unfoldable pub replace_utc : DateTime → DateTime
unfolding wall
replace_utc t = record { instant = wall t; aware = true; offset = pos 0 }

-- A moment in UTC.
abbrev pub IsUtc : DateTime → Type 0
IsUtc t = (t.aware ≡ true) × (t.offset ≡ pos 0)

-- the place of the text of an offset, which is "" without a zone, and else "+hh:mm" before "-hh:mm"
unfoldable pub offset_rank : DateTime → ℕ
offset_rank t =
    if t.aware then (elim t.offset [ pos n ↦ n + 1 | negsuc n ↦ n + 86400000001 ]) else 0

-- `s.isoformat() < t.isoformat()`: the texts show the clock first and then the offset
abbrev pub iso_lt : DateTime → DateTime → Bool
iso_lt s t = ltb (wall s) (wall t) || wall s == wall t && ltb (offset_rank s) (offset_rank t)

-- `s.isoformat() == t.isoformat()`
abbrev pub iso_eq : DateTime → DateTime → Bool
iso_eq s t = wall s == wall t && offset_rank s == offset_rank t

-- `s < t`
abbrev pub earlier : DateTime → DateTime → Bool
earlier s t = ltb s.instant t.instant

pub record Date : Type 0 where
  pub year : ℕ
  pub month : ℕ
  pub day : ℕ

abbrev pub date : ℕ → ℕ → ℕ → Date
date year month day = record { day = day; month = month; year = year }

-- `a == b`
abbrev pub same_date : Date → Date → Bool
same_date a b = a.year == b.year && a.month == b.month && a.day == b.day

-- `a < b`: the standard library compares year, month and day in this order
abbrev pub date_lt : Date → Date → Bool
date_lt a b =
    ltb a.year b.year
    || a.year == b.year && (ltb a.month b.month || a.month == b.month && ltb a.day b.day)

-- `a <= b`
abbrev pub date_le : Date → Date → Bool
date_le a b = not (date_lt b a)

unfoldable pub is_leap : ℕ → Bool
is_leap y = y % 4 == 0 && (not (y % 100 == 0) || y % 400 == 0)

unfoldable pub days_in_month : ℕ → ℕ → ℕ
unfolding is_leap
days_in_month y m =
    if m == 2
    then (if is_leap y then 29 else 28)
    else if m == 4 || m == 6 || m == 9 || m == 11
    then 30
    else 31

-- the days of the year before the month, in a year that is not a leap year
unfoldable pub days_before_month : ℕ → ℕ
days_before_month m =
    if m == 1
    then 0
    else if m == 2
    then 31
    else if m == 3
    then 59
    else if m == 4
    then 90
    else if m == 5
    then 120
    else if m == 6
    then 151
    else if m == 7
    then 181
    else if m == 8
    then 212
    else if m == 9
    then 243
    else if m == 10
    then 273
    else if m == 11
    then 304
    else 334

-- `d.toordinal()`: day 1 is the first of January of the year 1
unfoldable pub to_ordinal : Date → ℕ
unfolding is_leap days_before_month
to_ordinal d =
    let p = d.year - 1 in
    p * 365
    + p / 4
    - p / 100
    + p / 400
    + days_before_month d.month
    + (if ltb 2 d.month && is_leap d.year then 1 else 0)
    + d.day

-- `d.weekday()`: Monday is 0
unfoldable pub weekday : Date → ℕ
unfolding to_ordinal
weekday d = (to_ordinal d + 6) % 7

-- `d + timedelta(days=1)`; the year 9999, where it raises, is out of reach
unfoldable pub next_day : Date → Date
unfolding days_in_month
next_day d =
    if ltb d.day (days_in_month d.year d.month)
    then record d { day = d.day + 1 }
    else if ltb d.month 12
    then date d.year (d.month + 1) 1
    else date (d.year + 1) 1 1

-- A date that exists.
pub record IsDate (d : Date) : Type 0 where
  pub some_year : leb 1 d.year ≡ true
  pub some_month : leb 1 d.month && leb d.month 12 ≡ true
  pub some_day : leb 1 d.day && leb d.day (days_in_month d.year d.month) ≡ true

-- The microseconds of whole seconds.
abbrev pub seconds : ℕ → ℕ
seconds n = n * 1000000
