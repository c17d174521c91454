-- ===== src/Backtest/Calendar/Sessions.antt =====
-- The loops over days: `next_session` always finds the first session after a day, and
-- `get_sessions` lists the sessions of its range.
use quantlab_v.Prelude.{ℕ, zero, suc, ◌≤◌, ◌<◌, ◌≡◌, inl, inr, true, false, arith, Bool-cases}
use quantlab_v.Prelude.Result.{ok}
use quantlab_v.Time.{Date, IsDate, next_day}
use quantlab_v.Time.Days.{next_day-IsDate, weekday-next_day}
use quantlab_v.Backtest.Calendar.{is_session, next_session}
use quantlab_v.Backtest.Calendar.Holidays.{
  IsClosed, weekday-lt, open_after_midweek, open_after_thursday, open_after_friday,
  open_after_monday,
}

-- `d + timedelta(days=n)`
abbrev pub after : ℕ → Date → Date
after zero d = d
after (suc n) d = after n (next_day d)

-- The first session after `d` is `n` days on.
abbrev pub IsReopening : Date → ℕ → Type 0
IsReopening d n =
    (next_session d ≡ ok (after n d))
    × (is_session (after n d) ≡ true)
    × (1 ≤ n)
    × (n ≤ 4)
    × ((k : ℕ) → 1 ≤ k → k < n → is_session (after k d) ≡ false)

-- A run of four closed days is impossible.
four_days :
    (d : Date)
    → IsDate d
    → IsClosed (after 1 d)
    → IsClosed (after 2 d)
    → IsClosed (after 3 d)
    → is_session (after 4 d) ≡ true
four_days d v h1 h2 h3 =
    let v1 = next_day-IsDate d v in
    let v2 = next_day-IsDate (after 1 d) v1 in
    let v3 = next_day-IsDate (after 2 d) v2 in
    grind (
      arith,
      weekday-lt (after 1 d),
      weekday-next_day (after 1 d) v1,
      weekday-next_day (after 2 d) v2,
      open_after_monday (after 1 d) v1,
      open_after_monday (after 2 d) v2,
      open_after_monday (after 3 d) v3,
      open_after_midweek (after 1 d) v1,
      open_after_midweek (after 2 d) v2,
      open_after_thursday (after 1 d) v1,
      open_after_friday (after 1 d) v1,
    )

module _ (d : Date) where
  found1 : is_session (after 1 d) ≡ true → IsReopening d 1
  unfolding next_session
  found1 o = (ground arith, o, omega arith, omega arith, λ k h l. absurd (omega arith))

  found2 : IsClosed (after 1 d) → is_session (after 2 d) ≡ true → IsReopening d 2
  unfolding next_session
  found2 c o = (ground arith, o, omega arith, omega arith, closed)
    where
      closed : (k : ℕ) → 1 ≤ k → k < 2 → is_session (after k d) ≡ false
      closed zero h l = absurd (omega arith)
      closed (suc zero) h l = c
      closed (suc (suc k)) h l = absurd (omega arith)

  found3 :
      IsClosed (after 1 d) → IsClosed (after 2 d) → is_session (after 3 d) ≡ true → IsReopening d 3
  unfolding next_session
  found3 c1 c2 o = (ground arith, o, omega arith, omega arith, closed)
    where
      closed : (k : ℕ) → 1 ≤ k → k < 3 → is_session (after k d) ≡ false
      closed zero h l = absurd (omega arith)
      closed (suc zero) h l = c1
      closed (suc (suc zero)) h l = c2
      closed (suc (suc (suc k))) h l = absurd (omega arith)

  found4 :
      IsClosed (after 1 d)
      → IsClosed (after 2 d)
      → IsClosed (after 3 d)
      → is_session (after 4 d) ≡ true
      → IsReopening d 4
  unfolding next_session
  found4 c1 c2 c3 o = (ground arith, o, omega arith, omega arith, closed)
    where
      closed : (k : ℕ) → 1 ≤ k → k < 4 → is_session (after k d) ≡ false
      closed zero h l = absurd (omega arith)
      closed (suc zero) h l = c1
      closed (suc (suc zero)) h l = c2
      closed (suc (suc (suc zero))) h l = c3
      closed (suc (suc (suc (suc k)))) h l = absurd (omega arith)

-- From every day the exchange opens again within four days, and `next_session` returns the first
-- day on which it does.
pub next_session-IsReopening : (d : Date) → IsDate d → (n : ℕ) × IsReopening d n
next_session-IsReopening d v = elim (Bool-cases (is_session (after 1 d))) [
  | inl o1 ↦ (1, found1 d o1)
  | inr c1 ↦ elim (Bool-cases (is_session (after 2 d))) [
    | inl o2 ↦ (2, found2 d c1 o2)
    | inr c2 ↦ elim (Bool-cases (is_session (after 3 d))) [
      | inl o3 ↦ (3, found3 d c1 c2 o3)
      | inr c3 ↦ (4, found4 d c1 c2 c3 (four_days d v c1 c2 c3))
    ]
  ]
]
