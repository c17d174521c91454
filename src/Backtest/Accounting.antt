-- ===== src/Backtest/Accounting.antt =====
-- The accounting engine (quantlab/backtest/accounting.py), corporate actions on it
-- (quantlab/backtest/corporate_actions.py) and the valuation (quantlab/backtest/marking.py). A method
-- returns how it ended and the engine, which keeps what was written before an exception. The
-- identifiers that `uuid4` makes are arguments.
pub mod Audit
pub mod Oversell
use quantlab_v.Prelude.{Option, none, some, List, [], ◌∷◌, ltb, if◌then◌else◌, get_or, Text}
use quantlab_v.Prelude.Result.{Result, ok, err}
use quantlab_v.Prelude.Dict.{Dict, lookup}
use quantlab_v.Prelude.Sort.{sort_by}
use quantlab_v.Time.{DateTime}
use quantlab_v.Decimal
use quantlab_v.Decimal.{Decimal, nought}
use quantlab_v.Domain.Identity.{InstrumentId}
use quantlab_v.Domain.Orders.{OrderSide, buy, sell, Fill}
use quantlab_v.Domain.Market.{
  CorporateAction, CorporateActionType, split, dividend, symbol_change, merger, spinoff, delisting,
}
use quantlab_v.Domain.Portfolio.{Position, PortfolioSnapshot, new_snapshot}
use quantlab_v.Backtest.Ledger.{
  CashLedger, PositionLedger, PositionLot, TransactionType, buy_fill, sell_fill, dividend_payment,
  delisting_settlement, new_cash_ledger, new_position_ledger, record_cash, get_quantity, total_cost,
  apply_buy, apply_sell, apply_split,
}

pub record AccountingEngine : Type 0 where
  pub portfolio_id : Text
  pub cash_ledger : CashLedger
  pub position_ledger : PositionLedger

-- `AccountingEngine.__init__`
unfoldable pub new_engine : Text → Decimal → AccountingEngine
new_engine portfolio_id initial_cash = record {
  portfolio_id = portfolio_id;
  cash_ledger = new_cash_ledger initial_cash;
  position_ledger = new_position_ledger;
}

-- How a method ended, and the object after it.
abbrev pub Outcome : Type 0
Outcome = Result (Unit {0}) × AccountingEngine

-- The position ledger after a call that raises before it writes.
abbrev pub settle : Result PositionLedger → AccountingEngine → Outcome
settle (ok p) e = (ok tt, record e { position_ledger = p })
settle (err x) e = (err x, e)

abbrev pub settle_sale : Result (Decimal × PositionLedger) → AccountingEngine → Outcome
settle_sale (ok (realized, p)) e = (ok tt, record e { position_ledger = p })
settle_sale (err x) e = (err x, e)

abbrev pub post :
    Text → DateTime → TransactionType → Decimal → InstrumentId → AccountingEngine → AccountingEngine
post id timestamp kind amount inst e = record e {
  cash_ledger = record_cash id timestamp kind amount (some inst) e.cash_ledger;
}

-- `total_cash_outflow` and `net_cash_inflow`
unfoldable pub outflow : Fill → Decimal
outflow fill = Decimal.quantize 2 (Decimal.add (Decimal.mul fill.quantity fill.price) fill.fees)

unfoldable pub inflow : Fill → Decimal
inflow fill = Decimal.quantize 2 (Decimal.sub (Decimal.mul fill.quantity fill.price) fill.fees)

-- `AccountingEngine.apply_fill`
unfoldable pub apply_fill : Text → Fill → OrderSide → AccountingEngine → Outcome
apply_fill id fill buy e =
    settle (apply_buy fill.instrument_id fill.quantity fill.price e.position_ledger)
      (post id fill.filled_at buy_fill (Decimal.neg (outflow fill)) fill.instrument_id e)
apply_fill id fill sell e =
    settle_sale (apply_sell fill.instrument_id fill.quantity fill.price e.position_ledger)
      (post id fill.filled_at sell_fill (inflow fill) fill.instrument_id e)

-- `ratio and ratio > 0`
abbrev pub positive : Option Decimal → Option Decimal
positive none = none
positive (some d) = if Decimal.lt nought d then some d else none

unfoldable pub apply_dividend :
    Text → CorporateAction → DateTime → Decimal → AccountingEngine → Outcome
apply_dividend id action at qty e = elim (positive action.cash_amount) [
  | none ↦ (ok tt, e)
  | some amount ↦ (
    ok tt,
    post id at dividend_payment (Decimal.quantize 2 (Decimal.mul qty amount)) action.instrument_id
        e,
  )
]

-- The sale of a delisted holding comes first; then its cash is credited, if there is any.
unfoldable pub credit_delisting : Text → CorporateAction → DateTime → Decimal → Outcome → Outcome
credit_delisting id action at credit (err x, e) = (err x, e)
credit_delisting id action at credit (ok done, e) =
    if Decimal.lt nought credit
    then (ok tt, post id at delisting_settlement credit action.instrument_id e)
    else (ok tt, e)

unfoldable pub apply_delisting :
    Text → CorporateAction → DateTime → Decimal → AccountingEngine → Outcome
apply_delisting id action at qty e =
    let settlement_price = get_or action.cash_amount nought in
    credit_delisting id action at (Decimal.quantize 2 (Decimal.mul qty settlement_price))
      (settle_sale (apply_sell action.instrument_id qty settlement_price e.position_ledger) e)

-- the branches of `CorporateActionProcessor.apply` for a holding of `qty` shares
unfoldable pub apply_held :
    Text → CorporateAction → DateTime → Decimal → CorporateActionType → AccountingEngine → Outcome
unfolding apply_dividend apply_delisting credit_delisting
apply_held id action at qty split e = elim (positive action.ratio) [
  | none ↦ (ok tt, e)
  | some ratio ↦ settle (apply_split action.instrument_id ratio e.position_ledger) e
]
apply_held id action at qty dividend e = apply_dividend id action at qty e
apply_held id action at qty delisting e = apply_delisting id action at qty e
apply_held id action at qty symbol_change e = (ok tt, e)
apply_held id action at qty merger e = (ok tt, e)
apply_held id action at qty spinoff e = (ok tt, e)

-- `apply_corporate_action`, `CorporateActionProcessor.apply`
unfoldable pub apply_corporate_action :
    Text → CorporateAction → DateTime → AccountingEngine → Outcome
unfolding apply_held
apply_corporate_action id action effective_time e =
    let qty = get_quantity action.instrument_id e.position_ledger in
    if Decimal.le qty nought
    then (ok tt, e)
    else apply_held id action effective_time qty action.action_type e

-- the price that a lot is marked at: today's close, else the last known one, else its cost
unfoldable pub mark_price : Dict Decimal → Dict Decimal → InstrumentId → PositionLot → Decimal
mark_price close_prices carried inst lot =
    get_or (positive (lookup inst close_prices))
      (get_or (positive (lookup inst carried)) lot.cost_basis_per_share)

unfoldable pub mark_lots :
    Dict Decimal → Dict Decimal → List (InstrumentId × PositionLot) → List Position
mark_lots close_prices carried [] = []
mark_lots close_prices carried ((inst, lot) ∷ lots) =
    let rest = mark_lots close_prices carried lots in
    let price = mark_price close_prices carried inst lot in
    let marked : Position = record {
      instrument_id = inst;
      quantity = lot.quantity;
      cost_basis = Decimal.quantize 2 (total_cost lot);
      market_value = Decimal.quantize 2 (Decimal.mul lot.quantity price);
    } in
    if Decimal.le lot.quantity nought then rest else marked ∷ rest

-- `mark_to_market`; instruments are in the order of their identifiers
unfoldable pub mark_to_market :
    DateTime → Dict Decimal → Dict Decimal → AccountingEngine → Result PortfolioSnapshot
unfolding mark_lots mark_price
mark_to_market as_of close_prices last_known_prices e = new_snapshot (record {
  portfolio_id = e.portfolio_id;
  as_of = as_of;
  cash = e.cash_ledger.balance;
  positions = mark_lots close_prices last_known_prices (
      sort_by (λ (x : InstrumentId × PositionLot) (y : InstrumentId × PositionLot). ltb x.0 y.0)
        e.position_ledger.positions);
})
