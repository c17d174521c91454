-- ===== src/Backtest/Broker.antt =====
-- The simulated broker (quantlab/backtest/broker.py).
pub mod Fills
pub mod Valid
use quantlab_v.Prelude.{Bool, true, false, Option, none, some, if◌then◌else◌, Text}
use quantlab_v.Prelude.Result.{◌>>=◌, Result, ok}
use quantlab_v.Time.{DateTime}
use quantlab_v.Decimal
use quantlab_v.Decimal.{Decimal, nought}
use quantlab_v.Domain.Orders.{
  Order, OrderState, created, submitted, partially_filled, filled, rejected, is_terminal, Fill,
  new_fill, transition,
}
use quantlab_v.Domain.Market.{MarketBar}
use quantlab_v.Backtest.Costs.{
  SlippageModel, FeeModel, VolumeParticipationModel, execute_price, calculate_fees,
  max_executable_quantity, reference_price,
}

pub record SimulatedBroker : Type 0 where
  pub slippage_model : SlippageModel
  pub fee_model : FeeModel
  pub participation_model : Option VolumeParticipationModel

abbrev pub is_created : OrderState → Bool
is_created created = true
is_created _ = false

-- the order as it is worked on: a new one is submitted first
unfoldable pub activate : Order → DateTime → Result Order
activate order fill_time =
    if is_created order.state then transition order submitted fill_time else ok order

unfoldable pub reject : Order → DateTime → Result (Order × Option Fill)
reject active fill_time = do r ← transition active rejected fill_time; ok (r, none)

-- the quantity that the participation cap allows; `none` where it allows nothing
unfoldable pub executable : Option VolumeParticipationModel → Decimal → Decimal → Option Decimal
executable none volume quantity = some quantity
executable (some model) volume quantity =
    let max_qty = max_executable_quantity model volume in
    if Decimal.le max_qty nought
    then none
    else some (if Decimal.lt max_qty quantity then max_qty else quantity)

-- the fill itself, and the order after it
unfoldable pub fill_order :
    SimulatedBroker
    → Text
    → Text
    → Order
    → Decimal
    → Decimal
    → DateTime
    → Result (Order × Option Fill)
fill_order broker fill_id source active ref_price qty fill_time = do
  let exec_price = (execute_price broker.slippage_model ref_price active.side).0
  let fees = calculate_fees broker.fee_model qty exec_price
  let next_state = if Decimal.le active.quantity qty then filled else partially_filled
  updated ← transition active next_state fill_time
  fill ← new_fill (record {
    fill_id = fill_id;
    order_id = active.order_id;
    instrument_id = active.instrument_id;
    filled_at = fill_time;
    quantity = qty;
    price = exec_price;
    fees = fees;
    source = source;
  })
  ok (updated, some fill)

unfoldable pub against_bar :
    SimulatedBroker → Text → Text → Order → MarketBar → DateTime → Result (Order × Option Fill)
unfolding fill_order reject
against_bar broker fill_id source active bar fill_time = elim (reference_price bar) [
  | none ↦ reject active fill_time
  | some ref_price ↦
      if Decimal.le ref_price nought
      then reject active fill_time
      else elim (executable broker.participation_model bar.volume active.quantity) [
        | none ↦ ok (active, none)
        | some qty ↦ fill_order broker fill_id source active ref_price qty fill_time
      ]
]

unfoldable pub work_order :
    SimulatedBroker
    → Text
    → Text
    → Order
    → Option MarketBar
    → DateTime
    → Result (Order × Option Fill)
unfolding against_bar
work_order broker fill_id source active none fill_time = reject active fill_time
work_order broker fill_id source active (some bar) fill_time =
    against_bar broker fill_id source active bar fill_time

-- `SimulatedBroker.execute_order`. The fresh `fill_id` and the text "simulated_broker" are
-- arguments; `session` is not used by the code.
unfoldable pub execute_order :
    SimulatedBroker
    → Text
    → Text
    → Order
    → Option MarketBar
    → DateTime
    → Result (Order × Option Fill)
unfolding activate work_order
execute_order broker fill_id source order bar fill_time =
    if is_terminal order.state then ok (order, none) else (do
      active ← activate order fill_time
      work_order broker fill_id source active bar fill_time)
