-- ===== src/Domain/Orders.antt =====
-- Orders, their state machine, and fills (quantlab/domain/orders.py, and the thin class of
-- quantlab/backtest/order_state.py over it).
pub mod Lifecycle
use quantlab_v.Prelude.{Bool, true, false, not, ◌&&◌, Option, some, if◌then◌else◌, is_some, Text}
use quantlab_v.Prelude.Result.{
  Result, ok, err, ◌>>◌, raise_if, state_before_created, limit_without_price, terminal_state,
  illegal_transition, transition_before_created,
}
use quantlab_v.Time.{DateTime, earlier}
use quantlab_v.Decimal.{Decimal}
use quantlab_v.Domain.Identity.{
  InstrumentId, require_nonempty, require_timezone_aware, require_nonnegative_decimal,
  require_positive_decimal, if_some,
}

pub data OrderSide : Type 0 where
  buy sell : OrderSide

pub data OrderType : Type 0 where
  market limit : OrderType

pub data OrderState : Type 0 where
  created submitted partially_filled filled cancelled rejected : OrderState

abbrev pub state_eq : OrderState → OrderState → Bool
state_eq created created = true
state_eq submitted submitted = true
state_eq partially_filled partially_filled = true
state_eq filled filled = true
state_eq cancelled cancelled = true
state_eq rejected rejected = true
state_eq _ _ = false

-- `state in TERMINAL_ORDER_STATES`
abbrev pub is_terminal : OrderState → Bool
is_terminal filled = true
is_terminal cancelled = true
is_terminal rejected = true
is_terminal _ = false

-- `next_state in ORDER_STATE_TRANSITIONS[state]`
abbrev pub is_transition : OrderState → OrderState → Bool
is_transition created submitted = true
is_transition created cancelled = true
is_transition created rejected = true
is_transition submitted partially_filled = true
is_transition submitted filled = true
is_transition submitted cancelled = true
is_transition submitted rejected = true
is_transition partially_filled filled = true
is_transition partially_filled cancelled = true
is_transition _ _ = false

pub record Order : Type 0 where
  pub order_id : Text
  pub instrument_id : InstrumentId
  pub side : OrderSide
  pub order_type : OrderType
  pub quantity : Decimal
  pub state : OrderState
  pub created_at : DateTime
  pub limit_price : Option Decimal
  pub state_updated_at : Option DateTime

abbrev pub is_limit : OrderType → Bool
is_limit market = false
is_limit limit = true

-- `Order.__post_init__`
unfoldable pub new_order : Order → Result Order
new_order o = do
  require_nonempty o.order_id
  require_positive_decimal o.quantity
  require_timezone_aware o.created_at
  if_some o.limit_price require_positive_decimal
  if_some o.state_updated_at
      (λ t. require_timezone_aware t >> raise_if (earlier t o.created_at) state_before_created)
  raise_if (is_limit o.order_type && not (is_some o.limit_price)) limit_without_price
  ok o

-- `Order.transition_to`; `replace` runs `__post_init__` again
unfoldable pub transition_to : Order → OrderState → DateTime → Result Order
transition_to o next_state transitioned_at =
    require_timezone_aware transitioned_at
    >> (if is_terminal o.state
        then (if state_eq next_state o.state then ok o else err terminal_state)
        else if not (is_transition o.state next_state)
        then err illegal_transition
        else if earlier transitioned_at o.created_at
        then err transition_before_created
        else new_order (record o { state = next_state; state_updated_at = some transitioned_at }))

-- `OrderStateMachine.can_transition`
unfoldable pub can_transition : OrderState → OrderState → Bool
can_transition current next_state =
    if is_terminal current then false else is_transition current next_state

-- `OrderStateMachine.transition`
unfoldable pub transition : Order → OrderState → DateTime → Result Order
transition order next_state transitioned_at = transition_to order next_state transitioned_at

pub record Fill : Type 0 where
  pub fill_id : Text
  pub order_id : Text
  pub instrument_id : InstrumentId
  pub filled_at : DateTime
  pub quantity : Decimal
  pub price : Decimal
  pub fees : Decimal
  pub source : Text

-- `Fill.__post_init__`
unfoldable pub new_fill : Fill → Result Fill
new_fill f = do
  require_nonempty f.fill_id
  require_nonempty f.order_id
  require_timezone_aware f.filled_at
  require_positive_decimal f.quantity
  require_positive_decimal f.price
  require_nonnegative_decimal f.fees
  require_nonempty f.source
  ok f
