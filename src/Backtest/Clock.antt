-- ===== src/Backtest/Clock.antt =====
-- Simulation events, their sequence, and the historical clock (quantlab/backtest/events.py,
-- ordering.py, clock.py).
pub mod Order
use quantlab_v.Prelude.{ℕ, ◌+◌, Bool, List, [], ◌∷◌, ◌++◌, ltb, ◌==◌, if◌then◌else◌, any, Text}
use quantlab_v.Prelude.Sort.{sort_by}
use quantlab_v.Time.{Date, DateTime, earlier, date_lt, same_date, seconds}
use quantlab_v.Domain.Market.{MarketBar, CorporateAction}
use quantlab_v.Domain.Orders as DomainOrders
use quantlab_v.Backtest.Calendar.{session_open_utc, session_close_utc}

pub data EventPriority : Type 0 where
  corporate_action market_open bar market_close rebalance_decision : EventPriority

-- the values of the `IntEnum`
abbrev pub priority_value : EventPriority → ℕ
priority_value corporate_action = 10
priority_value market_open = 20
priority_value bar = 30
priority_value market_close = 40
priority_value rebalance_decision = 50

-- what the subclasses of `SimulationEvent` add to it
pub data Payload : Type 0 where
  action_event : CorporateAction → Payload
  open_event close_event : Payload
  decision_event : Text → Payload
  bar_event : MarketBar → Payload
  order_event : DomainOrders.Order → Payload
  fill_event : DomainOrders.Fill → Payload

pub record SimulationEvent : Type 0 where
  pub session : Date
  pub timestamp : DateTime
  pub priority : EventPriority
  pub payload : Payload

-- `SimulationEvent.__lt__`
unfoldable pub event_lt : SimulationEvent → SimulationEvent → Bool
event_lt a b =
    if a.timestamp.instant == b.timestamp.instant
    then ltb (priority_value a.priority) (priority_value b.priority)
    else earlier a.timestamp b.timestamp

-- `(e.timestamp, int(e.priority))`
abbrev pub event_key : SimulationEvent → DateTime × ℕ
event_key e = (e.timestamp, priority_value e.priority)

-- the order of such tuples
unfoldable pub key_lt : DateTime × ℕ → DateTime × ℕ → Bool
key_lt (s, m) (t, n) = if s.instant == t.instant then ltb m n else earlier s t

-- `EventSequencer.sequence`
unfoldable pub sequence : List SimulationEvent → List SimulationEvent
sequence events = sort_by (λ a b. key_lt (event_key a) (event_key b)) events

pub record HistoricalClock : Type 0 where
  pub sessions : List Date
  pub rebalance_sessions : List Date
  pub strategy_id : Text

-- `HistoricalClock.__init__`
unfoldable pub new_clock : List Date → List Date → Text → HistoricalClock
new_clock sessions rebalance_sessions strategy_id = record {
  sessions = sort_by date_lt sessions;
  rebalance_sessions = rebalance_sessions;
  strategy_id = strategy_id;
}

-- `session in self._rebalance_sessions`
abbrev pub is_rebalance : Date → List Date → Bool
is_rebalance s l = any (λ t. same_date s t) l

-- `close_utc + timedelta(minutes=5)`
abbrev pub five_minutes_after : DateTime → DateTime
five_minutes_after t = record t { instant = t.instant + seconds 300 }

-- the events of one session
unfoldable pub session_events : HistoricalClock → Date → List SimulationEvent
session_events c s =
    let open_utc = session_open_utc s in
    let close_utc = session_close_utc s in
    let opening : SimulationEvent = record {
      session = s;
      timestamp = open_utc;
      priority = market_open;
      payload = open_event;
    } in
    let closing : SimulationEvent = record {
      session = s;
      timestamp = close_utc;
      priority = market_close;
      payload = close_event;
    } in
    let decision : SimulationEvent = record {
      session = s;
      timestamp = five_minutes_after close_utc;
      priority = rebalance_decision;
      payload = decision_event c.strategy_id;
    } in
    opening ∷ closing ∷ (if is_rebalance s c.rebalance_sessions then decision ∷ [] else [])

unfoldable pub events_of : HistoricalClock → List Date → List SimulationEvent
unfolding session_events
events_of c [] = []
events_of c (s ∷ ss) = session_events c s ++ events_of c ss

-- `HistoricalClock.events`
unfoldable pub clock_events : HistoricalClock → List SimulationEvent
unfolding events_of
clock_events c = events_of c c.sessions
