-- ===== src/Paper/Simulation.antt =====
-- The forward simulation of paper trading (quantlab/paper/simulation.py). The texts of the orders,
-- the identifiers of the fills and the wall clock are given by functions of the session and the
-- place in the day; the hash of the evidence is left out.
pub mod Days
use quantlab_v.Prelude.{
  ℕ, zero, suc, ◌+◌, ◌-◌, true, false, List, [], ◌∷◌, map, ltb, if◌then◌else◌, length, Text,
}
use quantlab_v.Prelude.Result.{◌>>=◌, Result, ok, err, out_of_fuel}
use quantlab_v.Prelude.Int.{pos}
use quantlab_v.Prelude.Dict.{Dict}
use quantlab_v.Time.{Date, DateTime, date_le, next_day, to_ordinal, weekday}
use quantlab_v.Decimal
use quantlab_v.Decimal.{Decimal, dec, nought}
use quantlab_v.Domain.Identity.{InstrumentId}
use quantlab_v.Paper.Adapter.{
  PaperOrder, buy, pending, MockExecutionAdapter, new_adapter, set_prices, submit_order,
  get_account,
}
use quantlab_v.Paper.Reconciliation.{reconcile}

-- `[InstrumentId(UUID(int=i + 1)) for i in range(30)]`, from `i`
unfoldable pub instruments_from : ℕ → ℕ → List InstrumentId
instruments_from i zero = []
instruments_from i (suc n) = (i + 1) ∷ instruments_from (i + 1) n

-- `{inst: Decimal("100.00") for inst in insts}`
unfoldable pub flat_prices : List InstrumentId → Dict Decimal
flat_prices insts = map (λ (i : InstrumentId). (i, dec 10000 2)) insts

-- The weekdays of a range, by the loop over ordinals.
unfoldable pub weekdays_from : ℕ → Date → Date → Result (List Date)
weekdays_from zero cur end = err out_of_fuel
weekdays_from (suc fuel) cur end = elim (date_le cur end) [
  | false ↦ ok []
  | true ↦ elim (weekdays_from fuel (next_day cur) end) [
    | err e ↦ err e
    | ok rest ↦ ok (if ltb (weekday cur) 5 then cur ∷ rest else rest)
  ]
]

unfoldable pub weekdays : Date → Date → Result (List Date)
unfolding weekdays_from
weekdays start end = weekdays_from (suc (to_ordinal end + 1 - to_ordinal start)) start end

-- What the run takes from outside: texts of orders, identifiers of fills, and moments.
pub record Surroundings : Type 0 where
  pub order_id : Date → ℕ → Text
  pub fill_id : Date → ℕ → Text
  pub account_id : Text
  pub order_type : Text
  pub now : Date → ℕ → DateTime
  pub reconciled_at : Date → DateTime

-- The counters of the loop and the adapter.
pub record Progress : Type 0 where
  pub adapter : MockExecutionAdapter
  pub total_orders : ℕ
  pub total_fills : ℕ
  pub clean_recons : ℕ

abbrev pub daily_order : Surroundings → Date → ℕ → InstrumentId → PaperOrder
daily_order w s i inst = record {
  order_id = w.order_id s (i + 1);
  session = s;
  instrument_id = inst;
  side = buy;
  quantity = pos 10;
  order_type = w.order_type;
  status = pending;
}

-- the loop over the instruments; an execution returns one fill
unfoldable pub submit_daily : Surroundings → Date → ℕ → List InstrumentId → Progress → Progress
submit_daily w s i [] p = p
submit_daily w s i (inst ∷ insts) p =
    let adapter = (submit_order (w.fill_id s i) (w.now s i) (daily_order w s i inst) p.adapter).2 in
    submit_daily w s (i + 1) insts (record p {
      adapter = adapter;
      total_orders = p.total_orders + 1;
      total_fills = p.total_fills + 1;
    })

-- the reconciliation of the account with itself, with the default tolerance 1.00
unfoldable pub reconcile_day : Surroundings → Date → Progress → Progress
reconcile_day w s p =
    let account = get_account p.adapter in
    let report =
      reconcile account.cash_balance account.positions account (dec 100 2) (w.reconciled_at s) in
    if report.is_clean then record p { clean_recons = p.clean_recons + 1 } else p

-- one session
unfoldable pub simulate_day : Surroundings → List InstrumentId → Date → Progress → Progress
unfolding submit_daily reconcile_day flat_prices
simulate_day w insts s p =
    reconcile_day w s
      (submit_daily w s 0 insts (record p { adapter = set_prices (flat_prices insts) p.adapter }))

unfoldable pub simulate_days : Surroundings → List InstrumentId → List Date → Progress → Progress
simulate_days w insts [] p = p
simulate_days w insts (s ∷ ss) p = simulate_days w insts ss (simulate_day w insts s p)

-- `sum(qty * Decimal("100.00") for qty in ...)`
unfoldable pub value_positions : Decimal → Dict Decimal → Decimal
value_positions total [] = total
value_positions total ((i, qty) ∷ rest) =
    value_positions (Decimal.add total (Decimal.mul qty (dec 10000 2))) rest

pub record PaperForwardEvidence : Type 0 where
  pub deployment_id : Text
  pub start_date : Date
  pub end_date : Date
  pub total_sessions : ℕ
  pub orders_count : ℕ
  pub fills_count : ℕ
  pub clean_reconciliations : ℕ
  pub total_equity : Decimal

unfoldable pub evidence_of : Text → Date → Date → List Date → Progress → PaperForwardEvidence
evidence_of deployment_id start end sessions p =
    let account = get_account p.adapter in
    record {
      deployment_id = deployment_id;
      start_date = start;
      end_date = end;
      total_sessions = length sessions;
      orders_count = p.total_orders;
      fills_count = p.total_fills;
      clean_reconciliations = p.clean_recons;
      total_equity = Decimal.add account.cash_balance (value_positions nought account.positions);
    }

-- `MockExecutionAdapter(initial_cash=initial_cash)`: 5.0 basis points and a commission of 1.00
abbrev pub fresh : Surroundings → Decimal → Progress
fresh w initial_cash = record {
  adapter = new_adapter w.account_id initial_cash (dec 50 1) (dec 100 2);
  total_orders = 0;
  total_fills = 0;
  clean_recons = 0;
}

-- `PaperForwardSimulator.simulate`
unfoldable pub simulate : Surroundings → Text → Date → Date → Decimal → Result PaperForwardEvidence
unfolding weekdays simulate_days instruments_from evidence_of
simulate w deployment_id start end initial_cash = do
  sessions ← weekdays start end
  ok (
      evidence_of deployment_id start end sessions
        (simulate_days w (instruments_from 0 30) sessions (fresh w initial_cash)))
