-- ===== src/Backtest/Clock/Order.antt =====
-- The order of events: the sequencer sorts, and the clock's events of a session are in order.
use quantlab_v.Prelude.{
  ℕ, ◌+◌, ◌*◌, ◌≤◌, ◌<◌, ◌≡◌, ◌⊎◌, inl, inr, Bool, Bool-cases, true, false, ◌&&◌, List, [], ◌∷◌,
  arith, ◌==◌, ltb→lt, lt→ltb, filter, All,
}
use quantlab_v.Prelude.Sort.{
  sort_by, IsOrder, IsSorted, sort_by-IsSorted, sort_by-perm, filter-sort_by,
}
use mathlib.Core.List.{Perm}
use quantlab_v.Time.{Date, earlier, to_ordinal, seconds}
use quantlab_v.Backtest.Calendar.{session_open_utc, session_close_utc, eastern_to_utc, hours_behind}
use quantlab_v.Backtest.Clock.{
  SimulationEvent, priority_value, event_key, key_lt, event_lt, sequence, HistoricalClock,
  session_events,
}

abbrev event_before : SimulationEvent → SimulationEvent → Bool
event_before a b = key_lt (event_key a) (event_key b)

event_before-IsOrder : IsOrder event_before
unfolding key_lt
event_before-IsOrder = record { asym = λ x y h. ground arith; trans = λ x y z h k. ground arith }

-- The first event is earlier than the second, or at the same moment and of no greater priority.
abbrev pub IsChronological : SimulationEvent → SimulationEvent → Type 0
IsChronological a b =
    (a.timestamp.instant < b.timestamp.instant)
    ⊎ ((a.timestamp.instant ≡ b.timestamp.instant)
        × (priority_value a.priority ≤ priority_value b.priority))

-- Every event is in order with all that follow it.
abbrev pub IsSchedule : List SimulationEvent → Type 0
IsSchedule [] = Unit
IsSchedule (e ∷ events) = All (IsChronological e) events × IsSchedule events

-- The events of one moment and priority.
abbrev pub is_at : ℕ → ℕ → SimulationEvent → Bool
is_at instant priority e = e.timestamp.instant == instant && priority_value e.priority == priority

event_before-IsChronological :
    (a b : SimulationEvent) → event_before b a ≡ false → IsChronological a b
unfolding key_lt
event_before-IsChronological a b h =
    elim (Bool-cases (a.timestamp.instant == b.timestamp.instant)) [
      | inl e ↦ inr (ground (arith, h), ground (arith, h))
      | inr e ↦ inl (ground (arith, h))
    ]

chronological :
    (a : SimulationEvent) (l : List SimulationEvent)
    → All (λ b. event_before b a ≡ false) l
    → All (IsChronological a) l
chronological a [] h = tt
chronological a (b ∷ l) h = (event_before-IsChronological a b h.0, chronological a l h.1)

schedule : (l : List SimulationEvent) → IsSorted event_before l → IsSchedule l
schedule [] h = tt
schedule (a ∷ l) h = (chronological a l h.0, schedule l h.1)

-- The sequence holds the events that were given. Of any two of them the earlier stands first, at one
-- moment that with the smaller priority; those of one moment and priority keep their order.
pub sequence-IsSchedule :
    (events : List SimulationEvent)
    → IsSchedule (sequence events)
      × Perm (sequence events) events
      × ((instant priority : ℕ)
          → filter (is_at instant priority) (sequence events)
            ≡ filter (is_at instant priority) events)
unfolding sequence
sequence-IsSchedule events = (
  schedule (sort_by event_before events)
      (sort_by-IsSorted event_before event_before-IsOrder events),
  sort_by-perm event_before events,
  λ t n. filter-sort_by event_before (is_at t n) (λ x y h k. level t n x y h k) events,
)
  where
    level :
        (t n : ℕ) (x y : SimulationEvent)
        → is_at t n x ≡ true
        → is_at t n y ≡ true
        → event_before y x ≡ false
    level t n x y h k = unfold key_lt in ground arith

hours_bounds : (d : Date) (minute : ℕ) → (4 ≤ hours_behind d minute) × (hours_behind d minute ≤ 5)
unfolding hours_behind
hours_bounds d minute = ground arith

-- A session opens before it closes, whatever the clock change, on the UTC day of its date.
pub open-lt-close :
    (s : Date)
    → (earlier (session_open_utc s) (session_close_utc s) ≡ true)
      × (seconds (to_ordinal s * 86400) < (session_open_utc s).instant)
      × ((session_close_utc s).instant < seconds (to_ordinal s * 86400 + 86400))
unfolding session_open_utc session_close_utc eastern_to_utc
open-lt-close s =
    let a = hours_bounds s 570 in
    let b = hours_bounds s 960 in
    (lt→ltb _ _ (omega (arith, a, b)), omega (arith, a), omega (arith, b))

opens_first : (s : Date) → (session_open_utc s).instant < (session_close_utc s).instant
opens_first s = ltb→lt _ _ (open-lt-close s).0

-- The clock's events of a session come in the order of the sequencer.
pub session_events-IsSorted :
    (c : HistoricalClock) (s : Date) → IsSorted event_lt (session_events c s)
unfolding session_events event_lt
session_events-IsSorted c s = ground (arith, opens_first s)
