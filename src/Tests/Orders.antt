-- ===== src/Tests/Orders.antt =====
-- Orders, the broker and the calendar.
use quantlab_v.Prelude.{ℕ, ◌≤◌, ◌≡◌, refl, ◌⊎◌, true, some, List, [], ◌∷◌, if◌then◌else◌, filter}
use mathlib.Core.List.{Perm, reverse}
use quantlab_v.Prelude.Result.{ok, err, illegal_transition}
use quantlab_v.Time
use quantlab_v.Time.{IsDate, date, weekday}
use quantlab_v.Decimal.{fix, add, sub, mul, quantize, quotient, floor, lt}
use quantlab_v.Domain.Identity.{
  require_nonempty, require_timezone_aware, require_positive_decimal, require_nonnegative_decimal,
}
use quantlab_v.Domain.Orders.{
  Order, created, submitted, partially_filled, filled, is_terminal, new_order, new_fill, transition,
  transition_to, can_transition,
}
use quantlab_v.Domain.Orders.Lifecycle.{
  IsOrder, Moved, Run, transition_to-ok, can_transition-decides, Run-bounded,
}
use quantlab_v.Backtest.Costs.{
  execute_price, calculate_fees, max_executable_quantity, reference_price,
}
use quantlab_v.Backtest.Broker.{execute_order, executable}
use quantlab_v.Backtest.Broker.Fills.{IsFillOf, execute_order-fill}
use quantlab_v.Backtest.Calendar.{
  next_session, is_session, is_holiday, is_weekend, is_fixed_holiday, is_floating_holiday,
  is_juneteenth,
}
use quantlab_v.Backtest.Calendar.Sessions.{IsReopening, next_session-IsReopening}
use quantlab_v.Backtest.Clock.{
  HistoricalClock, SimulationEvent, sequence, session_events, new_clock,
}
use quantlab_v.Backtest.Clock.Order.{IsSchedule, is_at, sequence-IsSchedule}
use quantlab_v.Tests.Data.{name, evening, an_order, a_bar, a_broker, a_fill, christmas_eve}

an_order-IsOrder : IsOrder (an_order created)
unfolding new_order require_nonempty require_timezone_aware require_positive_decimal lt
an_order-IsOrder = refl

abbrev submitted_order : Order
submitted_order = record (an_order submitted) { state_updated_at = some evening }

submits : transition_to (an_order created) submitted evening ≡ ok submitted_order
unfolding transition_to new_order require_nonempty require_timezone_aware require_positive_decimal
    lt
submits = refl

transition_to-ok_example :
    IsOrder submitted_order
    × (((is_terminal created ≡ true) × (submitted ≡ created) × (submitted_order ≡ an_order created))
        ⊎ Moved (an_order created) submitted evening submitted_order)
transition_to-ok_example =
    transition_to-ok (an_order created) submitted evening an_order-IsOrder submits

can_transition-decides_example : transition_to (an_order created) filled evening ≡ (
    if can_transition created filled
    then ok (record (an_order created) { state = filled; state_updated_at = some evening })
    else err illegal_transition)
can_transition-decides_example =
    can_transition-decides (an_order created) filled evening an_order-IsOrder refl refl refl

one_step :
    Run
      (an_order created)
      1
      (record (an_order created) { state = submitted; state_updated_at = some evening })
one_step = Run.step submitted evening Run.here (refl, refl, refl, refl)

Run-bounded_example : 1 ≤ 3
Run-bounded_example = Run-bounded 1 one_step

abbrev partial : Order
partial = record (an_order partially_filled) { state_updated_at = some evening }

fills_partly :
    execute_order a_broker name name (an_order created) (some a_bar) evening
    ≡ ok (partial, some a_fill)
unfolding execute_order transition transition_to new_order new_fill require_nonempty
    require_timezone_aware require_positive_decimal require_nonnegative_decimal lt executable
    execute_price calculate_fees max_executable_quantity reference_price fix add sub mul quantize
    quotient floor quantlab_v.Prelude.Int.◌*ℤ◌ quantlab_v.Prelude.Int.◌+ℤ◌ quantlab_v.Decimal.max_of
fills_partly = refl

execute_order-fill_example : IsFillOf a_broker (some a_bar) (an_order created) partial a_fill
execute_order-fill_example =
    execute_order-fill a_broker name name (an_order created) (some a_bar) evening partial a_fill
      an_order-IsOrder fills_partly

christmas_eve-IsDate : IsDate christmas_eve
unfolding Time.days_in_month
christmas_eve-IsDate = record { some_year = refl; some_month = refl; some_day = refl }

next_session-IsReopening_example : (n : ℕ) × IsReopening christmas_eve n
next_session-IsReopening_example = next_session-IsReopening christmas_eve christmas_eve-IsDate

-- Christmas 2020 was a Friday, so the exchange opened again on the Monday.
after_christmas : next_session christmas_eve ≡ ok (date 2020 12 28)
unfolding next_session is_session is_holiday is_weekend is_fixed_holiday is_floating_holiday
    is_juneteenth weekday Time.next_day
after_christmas = refl

abbrev a_clock : HistoricalClock
a_clock = new_clock (christmas_eve ∷ []) (christmas_eve ∷ []) name

-- The session's events, given in reverse.
abbrev given_events : List SimulationEvent
given_events = reverse (session_events a_clock christmas_eve)

sequence-IsSchedule_example :
    IsSchedule (sequence given_events)
    × Perm (sequence given_events) given_events
    × ((instant priority : ℕ)
        → filter (is_at instant priority) (sequence given_events)
          ≡ filter (is_at instant priority) given_events)
sequence-IsSchedule_example = sequence-IsSchedule given_events
