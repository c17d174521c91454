-- ===== src/Portfolio/Planner.antt =====
-- Order planning (quantlab/portfolio/orders.py). The identifier of the order for an instrument,
-- which `uuid4` makes, is given by a function; a plan's `diagnostics` are always empty.
pub mod Plans
use quantlab_v.Prelude.{
  not, ◌&&◌, Option, none, some, List, [], ◌∷◌, ◌++◌, map, ltb, if◌then◌else◌, get_or, filter, Text,
}
use quantlab_v.Prelude.Result.{Result, ok, ◌>>=◌}
use quantlab_v.Prelude.Dict.{Dict, lookup, has, keys}
use quantlab_v.Prelude.Sort.{sort_by}
use quantlab_v.Time.{DateTime}
use quantlab_v.Decimal
use quantlab_v.Decimal.{Decimal, nought, dec, of_ℤ}
use quantlab_v.Domain.Identity.{InstrumentId}
use quantlab_v.Domain.Orders.{Order, OrderSide, buy, sell, market, created, new_order}
use quantlab_v.Domain.Portfolio.{Position, PortfolioSnapshot, TargetPosition, TargetPortfolio}

pub record OrderPlanningSpec : Type 0 where
  pub no_trade_band_pct : Decimal
  pub min_trade_dollar : Decimal
  pub max_adv_participation : Decimal

pub record OrderPlan : Type 0 where
  pub decision_time : DateTime
  pub orders : List Order
  pub total_buy_dollars : Decimal
  pub total_sell_dollars : Decimal
  pub turnover : Decimal

-- `{pos.instrument_id: pos.quantity ...}`, without a portfolio empty
unfoldable pub current_quantities : Option PortfolioSnapshot → Dict Decimal
current_quantities none = []
current_quantities (some p) = map (λ (x : Position). (x.instrument_id, x.quantity)) p.positions

unfoldable pub target_weights : TargetPortfolio → Dict Decimal
target_weights t = map (λ (x : TargetPosition). (x.instrument_id, x.target_weight)) t.positions

-- `floor(adv * max_adv_participation)`, where there is volume
unfoldable pub adv_cap : OrderPlanningSpec → Option Decimal → Option Decimal
adv_cap spec none = none
adv_cap spec (some adv) =
    if Decimal.lt nought adv
    then some (of_ℤ (Decimal.floor (Decimal.mul adv spec.max_adv_participation)))
    else none

-- the quantity under the cap; a cap of zero does not bind
unfoldable pub capped : Option Decimal → Decimal → Decimal
capped none qty = qty
capped (some cap) qty = if Decimal.lt cap qty && Decimal.lt nought cap then cap else qty

-- The side and the quantity of the trade in an instrument, or none. `price` is positive.
unfoldable pub trade :
    OrderPlanningSpec
    → Decimal
    → Decimal
    → Decimal
    → Decimal
    → Option Decimal
    → Option (OrderSide × Decimal)
unfolding adv_cap capped
trade spec total_equity price curr_qty target_weight adv =
    let curr_weight = Decimal.quotient (Decimal.mul curr_qty price) total_equity in
    let target_dollars = Decimal.mul total_equity target_weight in
    let target_qty = of_ℤ (Decimal.floor (Decimal.quotient target_dollars price)) in
    let delta_qty = Decimal.sub target_qty curr_qty in
    let delta_weight = Decimal.abs (Decimal.sub target_weight curr_weight) in
    let trade_dollars = Decimal.abs (Decimal.mul delta_qty price) in
    if Decimal.lt nought curr_qty
      && Decimal.lt nought target_weight
      && Decimal.lt delta_weight spec.no_trade_band_pct
    then none
    else if Decimal.lt nought target_weight && Decimal.lt trade_dollars spec.min_trade_dollar
    then none
    else if Decimal.eq delta_qty nought
    then none
    else if Decimal.lt delta_qty nought
    then some (sell, capped (adv_cap spec adv) (Decimal.abs delta_qty))
    else if Decimal.lt nought delta_qty
    then some (buy, capped (adv_cap spec adv) delta_qty)
    else none

-- The loop's accumulators.
pub record Planned : Type 0 where
  pub sells : List Order
  pub buys : List Order
  pub buy_dollars : Decimal
  pub sell_dollars : Decimal

abbrev pub nothing_planned : Planned
nothing_planned = record { sells = []; buys = []; buy_dollars = nought; sell_dollars = nought }

abbrev pub order_of : Text → DateTime → InstrumentId → OrderSide → Decimal → Order
order_of id at inst side qty = record {
  order_id = id;
  instrument_id = inst;
  side = side;
  order_type = market;
  quantity = qty;
  state = created;
  created_at = at;
  limit_price = none;
  state_updated_at = none;
}

-- the order is filed under its side
unfoldable pub file : Decimal → OrderSide → Order → Planned → Planned
file price sell o p = record p {
  sells = p.sells ++ o ∷ [];
  sell_dollars = Decimal.add p.sell_dollars (Decimal.mul o.quantity price);
}
file price buy o p = record p {
  buys = p.buys ++ o ∷ [];
  buy_dollars = Decimal.add p.buy_dollars (Decimal.mul o.quantity price);
}

-- What `plan` is given besides the specification, the portfolio and the target.
pub record Market : Type 0 where
  pub prices : Dict Decimal
  pub adv_shares : Dict Decimal
  pub total_equity : Decimal
  pub order_id : InstrumentId → Text

unfoldable pub plan_trade :
    Market
    → TargetPortfolio
    → InstrumentId
    → Decimal
    → Option (OrderSide × Decimal)
    → Planned
    → Result Planned
unfolding file
plan_trade m approved_target inst price none p = ok p
plan_trade m approved_target inst price (some (side, qty)) p = do
  o ← new_order (order_of (m.order_id inst) approved_target.decision_time inst side qty)
  ok (file price side o p)

-- one round of the loop
unfoldable pub plan_one :
    OrderPlanningSpec
    → Market
    → TargetPortfolio
    → Dict Decimal
    → Dict Decimal
    → InstrumentId
    → Planned
    → Result Planned
unfolding plan_trade trade
plan_one spec m approved_target quantities weights inst p = elim (lookup inst m.prices) [
  | none ↦ ok p
  | some price ↦
      if Decimal.le price nought
      then ok p
      else plan_trade m approved_target inst price
          (trade spec m.total_equity price (get_or (lookup inst quantities) nought)
            (get_or (lookup inst weights) nought) (lookup inst m.adv_shares))
          p
]

unfoldable pub plan_all :
    OrderPlanningSpec
    → Market
    → TargetPortfolio
    → Dict Decimal
    → Dict Decimal
    → List InstrumentId
    → Planned
    → Result Planned
plan_all spec m approved_target quantities weights [] p = ok p
plan_all spec m approved_target quantities weights (i ∷ is) p =
    plan_one spec m approved_target quantities weights i p
    >>= plan_all spec m approved_target quantities weights is

-- `sorted(set(quantities) | set(weights))`
unfoldable pub planned_instruments : Dict Decimal → Dict Decimal → List InstrumentId
planned_instruments quantities weights =
    sort_by ltb (keys quantities ++ filter (λ i. not (has i quantities)) (keys weights))

unfoldable pub plan_of : Market → TargetPortfolio → Planned → OrderPlan
plan_of m approved_target p = record {
  decision_time = approved_target.decision_time;
  orders = p.sells ++ p.buys;
  total_buy_dollars = Decimal.quantize 2 p.buy_dollars;
  total_sell_dollars = Decimal.quantize 2 p.sell_dollars;
  turnover = Decimal.quantize 4 (
      Decimal.quotient (Decimal.add p.buy_dollars p.sell_dollars)
        (Decimal.mul (dec 20 1) m.total_equity));
}

abbrev pub empty_plan : TargetPortfolio → OrderPlan
empty_plan approved_target = record {
  decision_time = approved_target.decision_time;
  orders = [];
  total_buy_dollars = nought;
  total_sell_dollars = nought;
  turnover = nought;
}

-- `OrderPlanner.plan`
unfoldable pub plan :
    OrderPlanningSpec → Option PortfolioSnapshot → TargetPortfolio → Market → Result OrderPlan
unfolding plan_of
plan spec current_portfolio approved_target m =
    let quantities = current_quantities current_portfolio in
    let weights = target_weights approved_target in
    let planned =
      plan_all spec m approved_target quantities weights (planned_instruments quantities weights)
        nothing_planned in
    if Decimal.le m.total_equity nought
    then ok (empty_plan approved_target)
    else (planned >>= λ p. ok (plan_of m approved_target p))
