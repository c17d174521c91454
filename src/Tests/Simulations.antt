-- ===== src/Tests/Simulations.antt =====
-- The runs over sessions: forward paper trading, and the back test.
use quantlab_v.Prelude.{ℕ, ◌*◌, ◌≡◌, refl, Bool, true, false, some, [], ◌∷◌, length}
use quantlab_v.Prelude.Dict.{insert, update}
use quantlab_v.Prelude.Sort.{sort_by, insert_sorted}
use quantlab_v.Prelude.Table
use quantlab_v.Prelude.Int
use quantlab_v.Domain.Orders.{transition, transition_to, can_transition, new_order, new_fill}
use quantlab_v.Domain.Portfolio.{
  new_target_position, new_target_portfolio, unique_from, require_unique_instruments, new_snapshot,
}
use quantlab_v.Domain.Identity.{
  require_nonempty, require_timezone_aware, require_nonnegative_decimal, require_positive_decimal,
  is_blank, is_space,
}
use quantlab_v.Factors.{is_valid, scores_of, valid_scores}
use quantlab_v.Portfolio.Selection.{
  select, ranking_of, new_selector, rank_from, rank_of, retain, retain_all, fill_up, distinct,
}
use quantlab_v.Portfolio.Weighting.{assign, allocate, equal_weights_of, equal_weights}
use quantlab_v.Portfolio.Construction.{construct, weigh, target_positions, cap_name, holdings_of}
use quantlab_v.Portfolio.Constraints.{
  apply_max_name_weight, cap_names, apply_max_sector_weight, sector_weights, scale_sector,
  cap_sectors, sum_weights, scale_all, apply_gross_exposure,
}
use quantlab_v.Portfolio.Risk.{
  apply, decide, settle_weights, constrain, same_weights, is_sub_dict, overall_status,
  adjusted_positions,
}
use quantlab_v.Portfolio.Planner.{
  plan, plan_all, plan_one, plan_trade, plan_of, file, adv_cap, capped, current_quantities,
  target_weights, planned_instruments,
}
use quantlab_v.Backtest.Costs.{
  execute_price, calculate_fees, max_executable_quantity, reference_price,
}
use quantlab_v.Backtest.Broker.{
  execute_order, work_order, against_bar, fill_order, executable, activate, reject,
}
use quantlab_v.Backtest.Ledger.{
  record_cash, new_cash_ledger, new_position_ledger, total_cost, bought, apply_buy, get_quantity,
}
use quantlab_v.Backtest.Accounting.{
  apply_fill, outflow, inflow, apply_corporate_action, mark_to_market, mark_lots, mark_price,
  new_engine,
}
use quantlab_v.Backtest.Calendar.{
  session_open_utc, session_close_utc, eastern_to_utc, hours_behind, is_dst,
}
use quantlab_v.Backtest.Clock.{
  new_clock, clock_events, events_of, session_events, sequence, event_lt,
}
use quantlab_v.Backtest.Engine
use quantlab_v.Backtest.Engine.{
  BacktestSpec, Providers, Simulation, fresh, run, month_ends, on_open, on_close, on_decision,
  apply_actions, execute_all, execute_one, book_fill, keep_order, slip_of, value_of,
}
use quantlab_v.Tests.Targets.{higher, snapshot, portfolio_spec, risk_spec, no_weights}
use quantlab_v.Prelude.Result.{Result, ok, err}
use quantlab_v.Time
use quantlab_v.Time.{date, IsDate}
use quantlab_v.Decimal
use quantlab_v.Decimal.{Decimal, dec}
use quantlab_v.Paper.Simulation.{Surroundings, PaperForwardEvidence, simulate}
use quantlab_v.Paper.Simulation.Days.{simulate-counts}
use quantlab_v.Backtest.Engine.Totals.{IsConsistent, run-IsConsistent}
use quantlab_v.Tests.Data.{name, other_name, morning, evening, a_bar}

abbrev surroundings : Surroundings
surroundings = record {
  order_id = λ s n. name;
  fill_id = λ s n. other_name;
  account_id = name;
  order_type = name;
  now = λ s n. morning;
  reconciled_at = λ s. evening;
}

the_eve-IsDate : IsDate (date 2020 12 24)
unfolding Time.days_in_month
the_eve-IsDate = record { some_year = refl; some_month = refl; some_day = refl }

the_fourth-IsDate : IsDate (date 2021 1 4)
unfolding Time.days_in_month
the_fourth-IsDate = record { some_year = refl; some_month = refl; some_day = refl }

simulate-counts_example :
    (ev : PaperForwardEvidence) × (simulate surroundings name
        (date 2020 12 24)
        (date 2021 1 4)
        (dec 100000 2)
      ≡ ok ev)
    × (ev.orders_count ≡ ev.total_sessions * 30)
    × (ev.fills_count ≡ ev.total_sessions * 30)
    × (ev.clean_reconciliations ≡ ev.total_sessions)
simulate-counts_example =
    simulate-counts surroundings name (date 2020 12 24) (date 2021 1 4) (dec 100000 2)
      the_eve-IsDate the_fourth-IsDate

abbrev spec : BacktestSpec
spec = record {
  strategy_id = name;
  dataset_id = name;
  start_session = date 2020 11 30;
  end_session = date 2020 12 1;
  initial_cash = dec 10000000 2;
  portfolio_spec = portfolio_spec;
  risk_spec = risk_spec;
  slippage_bps = dec 50 1;
  commission_per_share = dec 1 2;
}

-- A bar and a score for the name 7 on each of two sessions; the first is a month's last.
abbrev providers : Providers ℕ
providers = record {
  bars = λ s. (7, a_bar) ∷ [];
  corporate_actions = λ s. [];
  alpha = some (λ s. snapshot);
  sectors = λ s. (7, name) ∷ [];
  universe = some (λ s. 7 ∷ []);
  sessions = λ a b. a ∷ b ∷ [];
  order_id = λ s i. name;
  fill_id = λ s o. name;
  fill_source = name;
  fill_transaction_id = λ s f. name;
  action_transaction_id = λ s a. other_name;
  portfolio_id = λ t. t;
}

abbrev outcome : Result Simulation
outcome = run higher no_weights providers spec

abbrev is_ok : Result Simulation → Bool
is_ok (ok s) = true
is_ok (err e) = false

abbrev last_state : Result Simulation → Simulation
last_state (ok s) = s
last_state (err e) = fresh higher no_weights providers spec

last_state_ok : (r : Result Simulation) → is_ok r ≡ true → r ≡ ok (last_state r)
last_state_ok (ok s) h = refl
last_state_ok (err e) h = absurd (cc h)

-- The name is bought on the second session: one fill.
outcome_ok : (is_ok outcome ≡ true) × (length (last_state outcome).all_fills ≡ 1)
unfolding run Engine.simulate month_ends on_open on_close on_decision apply_actions execute_all
    execute_one book_fill keep_order slip_of value_of new_engine new_clock clock_events events_of
    session_events sequence event_lt execute_order work_order against_bar fill_order executable
    activate reject transition transition_to can_transition new_order new_fill execute_price
    calculate_fees max_executable_quantity reference_price apply_fill outflow inflow
    apply_corporate_action mark_to_market mark_lots mark_price new_snapshot record_cash
    new_cash_ledger new_position_ledger total_cost bought apply_buy get_quantity session_open_utc
    session_close_utc eastern_to_utc hours_behind is_dst Time.weekday Time.to_ordinal
    Time.days_in_month Time.days_before_month Time.is_leap plan plan_all plan_one plan_trade plan_of
    file adv_cap capped current_quantities target_weights planned_instruments
    require_positive_decimal Decimal.floor construct weigh target_positions cap_name holdings_of
    new_selector valid_scores scores_of is_valid select ranking_of rank_from rank_of retain
    retain_all fill_up distinct sort_by insert_sorted equal_weights equal_weights_of assign allocate
    insert update new_target_position new_target_portfolio unique_from require_unique_instruments
    require_nonempty require_timezone_aware require_nonnegative_decimal apply decide settle_weights
    constrain same_weights is_sub_dict overall_status adjusted_positions apply_max_name_weight
    cap_names apply_max_sector_weight sector_weights scale_sector cap_sectors sum_weights scale_all
    apply_gross_exposure Table.find Table.put is_blank is_space Decimal.lt Decimal.left
    Decimal.right Decimal.add Decimal.sub Decimal.neg Decimal.fix Decimal.quantize Decimal.quotient
    Decimal.div Decimal.abs Decimal.max_of Decimal.min_of Decimal.div_even Decimal.on_mag
    Decimal.mul Int.◌+ℤ◌ Int.◌-ℤ◌ Int.◌*ℤ◌ Int.neg
outcome_ok = (refl, refl)

run-IsConsistent_example : IsConsistent (last_state outcome)
run-IsConsistent_example =
    run-IsConsistent higher no_weights providers spec (last_state outcome)
      (last_state_ok outcome outcome_ok.0)
