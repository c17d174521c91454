-- ===== src/Paper/Adapter.antt =====
-- The contracts of paper trading (quantlab/paper/contracts.py) and the mock execution adapter
-- (quantlab/paper/adapter.py). The wall clock and the identifier of a fill are arguments.
use quantlab_v.Prelude.{[], if◌then◌else◌, get_or, Text}
use quantlab_v.Prelude.Int.{ℤ}
use quantlab_v.Prelude.Dict.{Dict, lookup, insert, erase, update}
use quantlab_v.Time.{Date, DateTime}
use quantlab_v.Decimal
use quantlab_v.Decimal.{Decimal, nought, dec, of_ℤ}
use quantlab_v.Domain.Identity.{InstrumentId}

pub data PaperOrderStatus : Type 0 where
  pending submitted filled partially_filled cancelled rejected : PaperOrderStatus

pub data PaperOrderSide : Type 0 where
  buy sell : PaperOrderSide

pub record BrokerAccount : Type 0 where
  pub account_id : Text
  pub cash_balance : Decimal
  pub buying_power : Decimal
  pub positions : Dict Decimal

pub record PaperOrder : Type 0 where
  pub order_id : Text
  pub session : Date
  pub instrument_id : InstrumentId
  pub side : PaperOrderSide
  pub quantity : ℤ
  pub order_type : Text
  pub status : PaperOrderStatus

pub record PaperFill : Type 0 where
  pub fill_id : Text
  pub order_id : Text
  pub instrument_id : InstrumentId
  pub side : PaperOrderSide
  pub quantity : ℤ
  pub price : Decimal
  pub commission : Decimal
  pub filled_at : DateTime

pub record MockExecutionAdapter : Type 0 where
  pub account_id : Text
  pub cash : Decimal
  pub positions : Dict Decimal
  pub prices : Dict Decimal
  pub slippage_bps : Decimal
  pub commission_per_order : Decimal

-- `MockExecutionAdapter.__init__`
unfoldable pub new_adapter : Text → Decimal → Decimal → Decimal → MockExecutionAdapter
new_adapter account_id initial_cash slippage_bps commission_per_order = record {
  account_id = account_id;
  cash = initial_cash;
  positions = [];
  prices = [];
  slippage_bps = slippage_bps;
  commission_per_order = commission_per_order;
}

-- `set_prices`
unfoldable pub set_prices : Dict Decimal → MockExecutionAdapter → MockExecutionAdapter
set_prices prices a = record a { prices = update a.prices prices }

-- `get_account`
unfoldable pub get_account : MockExecutionAdapter → BrokerAccount
get_account a = record {
  account_id = a.account_id;
  cash_balance = a.cash;
  buying_power = a.cash;
  positions = a.positions;
}

-- the holding of an instrument, `Decimal("0")` by default
abbrev pub held : InstrumentId → Dict Decimal → Decimal
held i positions = get_or (lookup i positions) nought

-- `round(price * slip_multiplier, 4)`; the price defaults to 100.00, and the divisor is 10000.0
unfoldable pub fill_price : PaperOrder → MockExecutionAdapter → Decimal
fill_price order a =
    let price = get_or (lookup order.instrument_id a.prices) (dec 10000 2) in
    let rate = Decimal.quotient a.slippage_bps (dec 100000 1) in
    let slip_multiplier : Decimal = elim order.side [
      | buy ↦ Decimal.add (dec 10 1) rate
      | sell ↦ Decimal.sub (dec 10 1) rate
    ] in
    Decimal.quantize 4 (Decimal.mul price slip_multiplier)

-- the cash and the positions after an execution, in `submit_order`
unfoldable pub cash_after : PaperOrderSide → Decimal → Decimal → Decimal → Decimal
cash_after buy notional commission cash = Decimal.sub cash (Decimal.add notional commission)
cash_after sell notional commission cash = Decimal.add cash (Decimal.sub notional commission)

unfoldable pub positions_after : PaperOrderSide → InstrumentId → ℤ → Dict Decimal → Dict Decimal
positions_after buy i quantity positions =
    insert i (Decimal.add (held i positions) (of_ℤ quantity)) positions
positions_after sell i quantity positions =
    let new_qty = Decimal.sub (held i positions) (of_ℤ quantity) in
    if Decimal.le new_qty nought then erase i positions else insert i new_qty positions

-- the fill that `submit_order` makes at the moment `now`
unfoldable pub fill_of : Text → DateTime → PaperOrder → MockExecutionAdapter → PaperFill
fill_of id now order a = record {
  fill_id = id;
  order_id = order.order_id;
  instrument_id = order.instrument_id;
  side = order.side;
  quantity = order.quantity;
  price = fill_price order a;
  commission = a.commission_per_order;
  filled_at = now;
}

-- `submit_order`: the filled order, the fill, and the adapter after it
unfoldable pub submit_order :
    Text
    → DateTime
    → PaperOrder
    → MockExecutionAdapter
    → PaperOrder × PaperFill × MockExecutionAdapter
unfolding fill_of cash_after positions_after
submit_order id now order a =
    let fill = fill_of id now order a in
    let notional = Decimal.mul fill.price (of_ℤ order.quantity) in
    (
      record order { status = filled },
      fill,
      record a {
        cash = cash_after order.side notional a.commission_per_order a.cash;
        positions = positions_after order.side order.instrument_id order.quantity a.positions;
      },
    )
