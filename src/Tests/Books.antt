-- ===== src/Tests/Books.antt =====
-- The ledgers, the accounting engine and the portfolio.
use quantlab_v.Prelude.{
  ℕ, ◌+◌, ◌≡◌, refl, ◌↔◌, true, false, Option, none, some, List, [], ◌∷◌, ◌++◌, map, arith, ◌==◌,
  if◌then◌else◌, length, All,
}
use quantlab_v.Prelude.Int.{ℤ, pos, negsuc, ◌+ℤ◌}
use quantlab_v.Prelude.Dict.{lookup}
use quantlab_v.Prelude.Result.{ok, err, cannot_sell}
use mathlib.Core.Option
use quantlab_v.Decimal
use quantlab_v.Decimal.{Decimal, dec, nought}
use quantlab_v.Decimal.Cents.{cents}
use quantlab_v.Domain.Orders.{Order, buy, sell, Fill, new_order}
use quantlab_v.Domain.Portfolio.{TargetPortfolio, require_unique_instruments}
use quantlab_v.Domain.Portfolio.Unique.{IsUnique, require_unique_instruments_iff}
use quantlab_v.Backtest.Ledger.{
  PositionLedger, PositionLot, new_cash_ledger, lot_of, get_quantity, buy_fill, apply_sell, sold,
  book_pnl, realized_of,
}
use quantlab_v.Backtest.Ledger.Cash.{Posting, post_all, total, post_all-conserves}
use quantlab_v.Backtest.Ledger.Positions.{Covered, apply_sell-iff_held, apply_sell-effect}
use quantlab_v.Backtest.Accounting.{AccountingEngine, apply_fill, inflow}
use quantlab_v.Backtest.Accounting.Audit.{IsSound, Command, trade, action, run, run-IsSound}
use quantlab_v.Backtest.Accounting.Oversell.{apply_fill-oversell}
use quantlab_v.Portfolio.Constraints.{Weights, pass, adjust, apply_max_name_weight}
use quantlab_v.Portfolio.Constraints.Caps.{clip, exceeds, apply_max_name_weight-clips}
use quantlab_v.Portfolio.Planner.{
  Market, OrderPlanningSpec, OrderPlan, plan, plan_all, plan_one, plan_trade, plan_of,
  trade as trade_of, file, adv_cap, capped, current_quantities, target_weights, planned_instruments,
  order_of,
}
use quantlab_v.Domain.Identity.{require_nonempty, require_timezone_aware, require_positive_decimal}
use quantlab_v.Portfolio.Planner.Plans.{IsNew, plan-orders}
use quantlab_v.Tests.Data.{name, morning, evening, a_fill, a_dividend}

-- Sixty shares at 50.
abbrev a_lot : PositionLot
a_lot = lot_of 7 (dec 60 0) (dec 50 0)

abbrev a_book : PositionLedger
a_book = record { positions = (7, a_lot) ∷ []; realized_pnl = nought }

abbrev an_engine : AccountingEngine
an_engine = record {
  portfolio_id = name;
  cash_ledger = record { initial = dec 1000000 2; balance = dec 1000000 2; transactions = [] };
  position_ledger = a_book;
}

-- A purchase, a dividend, a sale of what is held, and one of more than is held.
abbrev commands : List Command
commands =
    trade name a_fill buy
    ∷ action name a_dividend evening
    ∷ trade name a_fill sell
    ∷ trade name (record a_fill { quantity = dec 61 0 }) sell
    ∷ []

run-IsSound_example : IsSound (run commands an_engine)
run-IsSound_example = run-IsSound commands an_engine refl

abbrev posting : ℤ → Posting
posting z = record { id = name; at = morning; kind = buy_fill; amount = z; instrument = some 7 }

abbrev postings : List Posting
postings = posting (pos 250) ∷ posting (negsuc 99) ∷ []

post_all-conserves_example :
    (post_all postings (new_cash_ledger (cents (pos 1000)))).balance
    ≡ cents (total (pos 1000) postings)
unfolding ◌+ℤ◌
post_all-conserves_example = post_all-conserves postings (pos 1000) (omega arith)

total-postings : total (pos 1000) postings ≡ pos 1150
unfolding ◌+ℤ◌
total-postings = refl

abbrev after_sale : PositionLedger
after_sale = sold 7 (dec 10 0) a_lot (book_pnl (realized_of (dec 10 0) (dec 55 0) a_lot) a_book)

a_sale :
    apply_sell 7 (dec 10 0) (dec 55 0) a_book
    ≡ ok (realized_of (dec 10 0) (dec 55 0) a_lot, after_sale)
unfolding apply_sell Decimal.lt
a_sale = refl

a_lot-Covered : Covered 7 (dec 10 0) a_book a_lot
unfolding Decimal.lt
a_lot-Covered = (refl, refl)

ten_positive : Decimal.lt nought (dec 10 0) ≡ true
unfolding Decimal.lt
ten_positive = refl

apply_sell-iff_held_example :
    ((r : Decimal) × (l' : PositionLedger) × (apply_sell 7 (dec 10 0) (dec 55 0) a_book
        ≡ ok (r, l')))
    ↔ (Decimal.lt (get_quantity 7 a_book) (dec 10 0) ≡ false)
apply_sell-iff_held_example = apply_sell-iff_held 7 (dec 10 0) (dec 55 0) a_book ten_positive

apply_sell-effect_example :
    let remaining = Decimal.sub a_lot.quantity (dec 10 0) in
    let left : Option PositionLot =
      if Decimal.eq remaining nought
      then none
      else some (lot_of 7 remaining a_lot.cost_basis_per_share) in
    (lookup 7 after_sale.positions ≡ (if 7 == 7 then left else lookup 7 a_book.positions))
    × (realized_of (dec 10 0) (dec 55 0) a_lot
        ≡ Decimal.quantize 2
            (Decimal.mul (Decimal.sub (dec 55 0) a_lot.cost_basis_per_share) (dec 10 0)))
    × (after_sale.realized_pnl
        ≡ Decimal.quantize 2 (Decimal.add nought (realized_of (dec 10 0) (dec 55 0) a_lot)))
apply_sell-effect_example =
    apply_sell-effect 7 7 (dec 10 0) (dec 55 0) a_book a_lot a_lot-Covered a_sale

abbrev big_fill : Fill
big_fill = record a_fill { quantity = dec 61 0 }

short_holding : Decimal.lt (get_quantity 7 a_book) (dec 61 0) ≡ true
unfolding Decimal.lt get_quantity
short_holding = refl

apply_fill-oversell_example :
    let (r, e') = apply_fill name big_fill sell an_engine in
    (r ≡ err cannot_sell)
    × (e'.position_ledger ≡ a_book)
    × (e'.cash_ledger.balance ≡ Decimal.quantize 2 (Decimal.add (dec 1000000 2) (inflow big_fill)))
    × (length e'.cash_ledger.transactions ≡ 0 + 1)
apply_fill-oversell_example = apply_fill-oversell name big_fill an_engine short_holding

require_unique_instruments_iff_example :
    (require_unique_instruments (3 ∷ 7 ∷ []) ≡ ok tt) ↔ IsUnique (3 ∷ 7 ∷ [])
require_unique_instruments_iff_example = require_unique_instruments_iff (3 ∷ 7 ∷ [])

abbrev weights : Weights
weights = (3, dec 8 2) ∷ (7, dec 3 2) ∷ []

apply_max_name_weight-clips_example :
    let (adjusted, result) = apply_max_name_weight (dec 5 2) weights in
    ((i : ℕ) → lookup i adjusted ≡ Option.map (clip (dec 5 2)) (lookup i weights))
    × All (λ (e : ℕ × Decimal). Decimal.lt (dec 5 2) e.1 ≡ false) adjusted
    × (result.status ≡ (if exceeds (dec 5 2) weights then adjust else pass))
apply_max_name_weight-clips_example = apply_max_name_weight-clips (dec 5 2) weights

abbrev a_spec : OrderPlanningSpec
a_spec = record {
  no_trade_band_pct = dec 5 3;
  min_trade_dollar = dec 1000 1;
  max_adv_participation = dec 10 2;
}

abbrev a_target : TargetPortfolio
a_target = record {
  portfolio_id = name;
  decision_time = evening;
  positions = record { instrument_id = 7; target_weight = dec 50 2; target_quantity = none } ∷ [];
  source_alpha_snapshot_id = name;
}

abbrev a_market : Market
a_market = record {
  prices = (7, dec 5000 2) ∷ [];
  adv_shares = [];
  total_equity = dec 1000000 2;
  order_id = λ i. name;
}

-- A hundred shares at 50 from an empty book.
abbrev a_plan : OrderPlan
a_plan = record {
  decision_time = evening;
  orders = order_of name evening 7 buy (dec 100 0) ∷ [];
  total_buy_dollars = dec 500000 2;
  total_sell_dollars = dec 0 2;
  turnover = dec 2500 4;
}

plans : plan a_spec none a_target a_market ≡ ok a_plan
unfolding plan plan_all plan_one plan_trade plan_of trade_of file adv_cap capped current_quantities
    target_weights planned_instruments new_order require_nonempty require_timezone_aware
    require_positive_decimal Decimal.lt quantlab_v.Prelude.Sort.sort_by
    quantlab_v.Prelude.Sort.insert_sorted Decimal.abs Decimal.floor Decimal.fix Decimal.add
    Decimal.sub Decimal.mul Decimal.quantize Decimal.quotient quantlab_v.Prelude.Int.◌*ℤ◌
    quantlab_v.Prelude.Int.◌+ℤ◌ quantlab_v.Prelude.Int.neg
plans = refl

plan-orders_example :
    (sells : List Order) × (buys : List Order) × (a_plan.decision_time ≡ a_target.decision_time)
    × (a_plan.orders ≡ sells ++ buys)
    × All (IsNew a_target sell) sells
    × All (IsNew a_target buy) buys
plan-orders_example = plan-orders a_spec none a_target a_market a_plan plans
