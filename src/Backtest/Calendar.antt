-- ===== src/Backtest/Calendar.antt =====
-- The trading calendar (quantlab/backtest/calendar.py): weekends, exchange holidays, the loops over
-- sessions, and the US Eastern offset. A loop over days takes the number of days that it may look
-- at as fuel.
pub mod Holidays
pub mod Sessions
use quantlab_v.Prelude.{
  ℕ, zero, suc, ◌+◌, ◌-◌, ◌*◌, ◌%◌, Bool, true, false, ◌&&◌, ◌||◌, List, [], ◌∷◌, ltb, leb, ◌==◌,
  if◌then◌else◌,
}
use quantlab_v.Prelude.Int.{pos}
use quantlab_v.Prelude.Result.{Result, ok, err, out_of_fuel}
use quantlab_v.Time.{
  Date, DateTime, date, date_lt, date_le, same_date, to_ordinal, weekday, next_day, seconds,
}

unfoldable pub is_weekend : Date → Bool
is_weekend session = leb 5 (weekday session)

-- the branches of `is_holiday`, over the month, the day and the weekday
unfoldable pub is_fixed_holiday : ℕ → ℕ → ℕ → Bool
is_fixed_holiday month day weekday =
    month == 1 && day == 1
    || month == 1 && day == 2 && weekday == 0
    || month == 12 && day == 31 && weekday == 4
    || month == 7 && day == 4
    || month == 7 && day == 5 && weekday == 0
    || month == 7 && day == 3 && weekday == 4
    || month == 12 && day == 25
    || month == 12 && day == 26 && weekday == 0
    || month == 12 && day == 24 && weekday == 4

unfoldable pub is_juneteenth : ℕ → ℕ → ℕ → ℕ → Bool
is_juneteenth year month day weekday =
    leb 2021 year
    && (month == 6 && day == 19
        || month == 6 && day == 20 && weekday == 0
        || month == 6 && day == 18 && weekday == 4)

unfoldable pub is_floating_holiday : ℕ → ℕ → ℕ → Bool
is_floating_holiday month day weekday =
    month == 1 && weekday == 0 && leb 15 day && leb day 21
    || month == 2 && weekday == 0 && leb 15 day && leb day 21
    || month == 5 && weekday == 0 && leb 25 day
    || month == 9 && weekday == 0 && leb day 7
    || month == 11 && weekday == 3 && leb 22 day && leb day 28

unfoldable pub is_holiday : Date → Bool
is_holiday session =
    is_fixed_holiday session.month session.day (weekday session)
    || is_floating_holiday session.month session.day (weekday session)
    || is_juneteenth session.year session.month session.day (weekday session)

unfoldable pub is_session : Date → Bool
is_session session =
    if is_weekend session then false else if is_holiday session then false else true

-- the loop of `get_sessions` from `cur`
pub sessions_from : ℕ → Date → Date → Result (List Date)
sessions_from zero cur end = err out_of_fuel
sessions_from (suc fuel) cur end = elim (date_le cur end) [
  | false ↦ ok []
  | true ↦ elim (sessions_from fuel (next_day cur) end) [
    | err e ↦ err e
    | ok rest ↦ ok (if is_session cur then cur ∷ rest else rest)
  ]
]

-- `get_sessions`: one round for each day of the range, and one that ends the loop
unfoldable pub get_sessions : Date → Date → Result (List Date)
unfolding sessions_from
get_sessions start end = sessions_from (suc (to_ordinal end + 1 - to_ordinal start)) start end

-- the loop of `next_session` at `cur`
pub session_from : ℕ → Date → Result Date
session_from zero cur = err out_of_fuel
session_from (suc fuel) cur = elim (is_session cur) [
  | true ↦ ok cur
  | false ↦ session_from fuel (next_day cur)
]

-- `next_session`: the fuel covers the longest closure of the rules
unfoldable pub next_session : Date → Result Date
unfolding session_from
next_session session = session_from 4 (next_day session)

-- `_is_dst` for a wall-clock time of `minute` minutes on a day. The switches are at two o'clock.
unfoldable pub is_dst : Date → ℕ → Bool
is_dst d minute =
    let start = date d.year 3 (8 + (6 - weekday (date d.year 3 8)) % 7) in
    let end = date d.year 11 (1 + (6 - weekday (date d.year 11 1)) % 7) in
    (date_lt start d || same_date start d && leb 120 minute)
    && (date_lt d end || same_date d end && ltb minute 120)

-- hours that Eastern time is behind UTC, `-utcoffset`
unfoldable pub hours_behind : Date → ℕ → ℕ
hours_behind d minute = if is_dst d minute then 4 else 5

-- a wall-clock minute of the day, converted to UTC
unfoldable pub eastern_to_utc : Date → ℕ → DateTime
unfolding hours_behind
eastern_to_utc d minute = record {
  instant = seconds (to_ordinal d * 86400 + (minute + 60 * hours_behind d minute) * 60);
  aware = true;
  offset = pos 0;
}

-- 09:30 Eastern
unfoldable pub session_open_utc : Date → DateTime
unfolding eastern_to_utc
session_open_utc session = eastern_to_utc session (9 * 60 + 30)

-- 16:00 Eastern
unfoldable pub session_close_utc : Date → DateTime
unfolding eastern_to_utc
session_close_utc session = eastern_to_utc session (16 * 60)
