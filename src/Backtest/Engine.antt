-- ===== src/Backtest/Engine.antt =====
-- The back-test engine (quantlab/backtest/engine.py). The providers of data are parameters, and so
-- are the fresh identifiers. The daily returns and the performance metrics, which are computed in
-- floating point, are left out.
pub mod Totals
use quantlab_v.Prelude.{
  Bool, true, false, Option, none, some, List, [], ◌∷◌, ◌++◌, map, ◌==◌, if◌then◌else◌, get_or,
  Text,
}
use quantlab_v.Prelude.Result.{Result, ok, err, ◌>>=◌, no_sessions}
use quantlab_v.Prelude.Dict.{Dict, lookup, update}
use quantlab_v.Prelude.Table.{Table, find, put}
use quantlab_v.Time.{Date, DateTime, same_date}
use quantlab_v.Decimal
use quantlab_v.Decimal.{Decimal, nought}
use quantlab_v.Domain.Identity.{InstrumentId}
use quantlab_v.Domain.Market.{MarketBar, CorporateAction}
use quantlab_v.Domain.Orders.{Order, OrderState, submitted, Fill}
use quantlab_v.Domain.Portfolio.{Position, PortfolioSnapshot}
use quantlab_v.Factors.{FactorSnapshot, valid_scores}
use quantlab_v.Portfolio.Selection.{SelectedAsset}
use quantlab_v.Portfolio.Construction.{PortfolioSpec, ConstructionRequest, construct}
use quantlab_v.Portfolio.Risk.{RiskSpec}
use quantlab_v.Portfolio.Risk as Risk
use quantlab_v.Portfolio.Planner.{Market, OrderPlanningSpec, plan}
use quantlab_v.Backtest.Broker.{SimulatedBroker, execute_order}
use quantlab_v.Backtest.Accounting.{
  AccountingEngine, new_engine, apply_fill, apply_corporate_action, mark_to_market,
}
use quantlab_v.Backtest.Clock.{
  SimulationEvent, Payload, open_event, close_event, decision_event, new_clock, clock_events,
}

pub record BacktestSpec : Type 0 where
  pub strategy_id : Text
  pub dataset_id : Text
  pub start_session : Date
  pub end_session : Date
  pub initial_cash : Decimal
  pub portfolio_spec : PortfolioSpec
  pub risk_spec : RiskSpec
  pub slippage_bps : Decimal
  pub commission_per_share : Decimal

-- What the engine is given: data by session, and fresh identifiers.
pub record Providers (Score : Type 0) : Type 0 where
  pub bars : Date → Dict MarketBar
  pub corporate_actions : Date → List CorporateAction
  pub alpha : Option (Date → FactorSnapshot Score)
  pub sectors : Date → Dict Text
  pub universe : Option (Date → List InstrumentId)
  pub sessions : Date → Date → List Date
  pub order_id : Date → InstrumentId → Text
  pub fill_id : Date → Order → Text
  pub fill_source : Text
  pub fill_transaction_id : Date → Fill → Text
  pub action_transaction_id : Date → CorporateAction → Text
  pub portfolio_id : Text → Text

-- The local variables of the loop.
pub record Simulation : Type 0 where
  pub accounting : AccountingEngine
  pub all_orders : List Order
  pub all_fills : List Fill
  pub equity_series : Table Date Decimal
  pub snapshots : Table Date PortfolioSnapshot
  pub pending_orders : List Order
  pub last_known_prices : Dict Decimal
  pub total_turnover : Decimal
  pub total_fees : Decimal
  pub total_slippage : Decimal

-- month ends, and the last session
unfoldable pub month_ends : List Date → List Date
month_ends [] = []
month_ends (s ∷ []) = s ∷ []
month_ends (s ∷ t ∷ ss) =
    let rest = month_ends (t ∷ ss) in if t.month == s.month then rest else s ∷ rest

-- A method of the accounting engine, called by the loop: an exception ends the run.
abbrev pub account : Result (Unit {0}) × AccountingEngine → Simulation → Result Simulation
account (ok u, e) s = ok (record s { accounting = e })
account (err x, e) s = err x

abbrev pub is_submitted : OrderState → Bool
is_submitted submitted = true
is_submitted _ = false

-- `abs(fill.price - ref_open) * fill.quantity`
unfoldable pub slip_of : Option MarketBar → Fill → Decimal
slip_of bar fill =
    let ref_open : Decimal = elim bar [ none ↦ fill.price | some b ↦ b.open_price ] in
    Decimal.mul (Decimal.abs (Decimal.sub fill.price ref_open)) fill.quantity

-- the order is recorded, and waits on while it is only submitted
unfoldable pub keep_order : Order → Simulation → Simulation
keep_order updated s = record s {
  all_orders = s.all_orders ++ updated ∷ [];
  pending_orders =
      if is_submitted updated.state then s.pending_orders ++ updated ∷ [] else s.pending_orders;
}

-- `sum(p.market_value for p in snapshot.positions)`
unfoldable pub value_of : List Position → Decimal → Decimal
value_of [] total = total
value_of (p ∷ ps) total = value_of ps (Decimal.add total p.market_value)

-- `{inst: f(bar) for inst, bar in bars.items()}`
abbrev pub from_bars : (MarketBar → Decimal) → Dict MarketBar → Dict Decimal
from_bars f bars = map (λ (e : InstrumentId × MarketBar). (e.0, f e.1)) bars

abbrev pub broker_of : BacktestSpec → SimulatedBroker
broker_of spec = record {
  slippage_model = record { slippage_bps = spec.slippage_bps };
  fee_model = record { commission_per_share = spec.commission_per_share; min_commission = nought };
  participation_model =
      some (record { max_participation_pct = spec.risk_spec.max_adv_participation });
}

abbrev pub planning_of : RiskSpec → OrderPlanningSpec
planning_of r = record {
  no_trade_band_pct = r.no_trade_band_pct;
  min_trade_dollar = r.min_trade_dollar;
  max_adv_participation = r.max_adv_participation;
}

module _ {Score : Type 0} (higher : Score → Score → Bool)
    (by_volatility : List (SelectedAsset Score) → Decimal → Dict Decimal) (w : Providers Score)
    (spec : BacktestSpec) where
  -- 1. the corporate actions of the session
  unfoldable pub apply_actions :
      Date → DateTime → List CorporateAction → Simulation → Result Simulation
  apply_actions sess t [] s = ok s
  apply_actions sess t (a ∷ actions) s =
      account (apply_corporate_action (w.action_transaction_id sess a) a t s.accounting) s
      >>= apply_actions sess t actions

  -- the books after a fill
  unfoldable pub book_fill :
      Date → Order → Option MarketBar → Option Fill → Simulation → Result Simulation
  unfolding slip_of
  book_fill sess order bar none s = ok s
  book_fill sess order bar (some fill) s =
      account (apply_fill (w.fill_transaction_id sess fill) fill order.side s.accounting)
        (record s {
          all_fills = s.all_fills ++ fill ∷ [];
          total_fees = Decimal.add s.total_fees fill.fees;
          total_slippage = Decimal.add s.total_slippage (slip_of bar fill);
        })

  -- one pending order
  unfoldable pub execute_one :
      Date → DateTime → Dict MarketBar → Order → Simulation → Result Simulation
  unfolding book_fill keep_order
  execute_one sess t bars order s = do
    let bar = lookup order.instrument_id bars
    done ← execute_order (broker_of spec) (w.fill_id sess order) w.fill_source order bar t
    booked ← book_fill sess order bar done.1 s
    ok (keep_order done.0 booked)

  unfoldable pub execute_all :
      Date → DateTime → Dict MarketBar → List Order → Simulation → Result Simulation
  unfolding execute_one
  execute_all sess t bars [] s = ok s
  execute_all sess t bars (order ∷ orders) s =
      execute_one sess t bars order s >>= execute_all sess t bars orders

  -- 2. the market opens: the orders that waited are worked on, the list of those that remain is new
  unfoldable pub on_open : Date → DateTime → Simulation → Result Simulation
  unfolding apply_actions execute_all
  on_open sess t s = do
    acted ← apply_actions sess t (w.corporate_actions sess) s
    execute_all sess t (w.bars sess) acted.pending_orders (record acted { pending_orders = [] })

  -- 3. the market closes
  unfoldable pub on_close : Date → DateTime → Simulation → Result Simulation
  unfolding value_of
  on_close sess t s = do
    let close_prices = from_bars (λ (b : MarketBar). b.close) (w.bars sess)
    snapshot ← mark_to_market t close_prices s.last_known_prices s.accounting
    let equity = Decimal.add snapshot.cash (value_of snapshot.positions nought)
    ok (record s {
      last_known_prices = update s.last_known_prices close_prices;
      snapshots = put same_date sess snapshot s.snapshots;
      equity_series = put same_date sess equity s.equity_series;
    })

  abbrev pub universe_of : Date → FactorSnapshot Score → List InstrumentId
  universe_of sess snap = elim w.universe [
    | some f ↦ f sess
    | none ↦ map (λ (e : InstrumentId × Score). e.0) (valid_scores snap)
  ]

  abbrev pub request_of :
      Date → DateTime → FactorSnapshot Score → Simulation → ConstructionRequest Score
  request_of sess t snap s = record {
    portfolio_id = s.accounting.portfolio_id;
    decision_time = t;
    alpha_snapshot = snap;
    universe = universe_of sess snap;
    current_portfolio = find same_date sess s.snapshots;
    spec = spec.portfolio_spec;
  }

  -- what the planner is given
  abbrev pub market_of : Date → Simulation → Market
  market_of sess s = record {
    prices = from_bars (λ (b : MarketBar). b.close) (w.bars sess);
    adv_shares = from_bars (λ (b : MarketBar). b.volume) (w.bars sess);
    total_equity = get_or (find same_date sess s.equity_series) spec.initial_cash;
    order_id = w.order_id sess;
  }

  -- 4. a rebalance is decided
  unfoldable pub on_decision :
      Date → DateTime → Option (Date → FactorSnapshot Score) → Simulation → Result Simulation
  on_decision sess t none s = ok s
  on_decision sess t (some alpha) s = do
    raw_target ← construct higher by_volatility (request_of sess t (alpha sess) s)
    decision ← Risk.apply spec.risk_spec raw_target (w.sectors sess)
    planned ←
        plan (planning_of spec.risk_spec) (find same_date sess s.snapshots) decision.adjusted_target
          (market_of sess s)
    ok (record s {
      pending_orders = s.pending_orders ++ planned.orders;
      total_turnover = Decimal.add s.total_turnover planned.turnover;
    })

  abbrev pub handle : Payload → SimulationEvent → Simulation → Result Simulation
  handle open_event e s = on_open e.session e.timestamp s
  handle close_event e s = on_close e.session e.timestamp s
  handle (decision_event strategy) e s = on_decision e.session e.timestamp w.alpha s
  handle _ e s = ok s

  -- the main loop
  unfoldable pub simulate : List SimulationEvent → Simulation → Result Simulation
  unfolding on_open on_close on_decision
  simulate [] s = ok s
  simulate (e ∷ events) s = handle e.payload e s >>= simulate events

  abbrev pub fresh : Simulation
  fresh = record {
    accounting = new_engine (w.portfolio_id spec.strategy_id) spec.initial_cash;
    all_orders = [];
    all_fills = [];
    equity_series = [];
    snapshots = [];
    pending_orders = [];
    last_known_prices = [];
    total_turnover = nought;
    total_fees = nought;
    total_slippage = nought;
  }

  abbrev pub run_over : List Date → Result Simulation
  run_over [] = err no_sessions
  run_over (s ∷ ss) =
      simulate (clock_events (new_clock (s ∷ ss) (month_ends (s ∷ ss)) spec.strategy_id)) fresh

  -- `BacktestEngine.run`, up to the state at the end of the loop
  unfoldable pub run : Result Simulation
  unfolding simulate month_ends
  run = run_over (w.sessions spec.start_session spec.end_session)
