-- ===== src/Tests/Data.antt =====
-- Data for the tests.
use quantlab_v.Prelude.{true, none, some, [], ◌∷◌, Text}
use quantlab_v.Prelude.Int.{pos}
use quantlab_v.Time.{Date, DateTime, date}
use quantlab_v.Decimal.{dec}
use quantlab_v.Domain.Orders.{Order, OrderState, Fill, buy, market}
use quantlab_v.Domain.Market.{MarketBar, raw, CorporateAction, dividend}
use quantlab_v.Backtest.Broker.{SimulatedBroker}

abbrev pub name : Text
name = b'a' ∷ []

abbrev pub other_name : Text
other_name = b'b' ∷ []

abbrev pub morning : DateTime
morning = record { instant = 1000; aware = true; offset = pos 0 }

abbrev pub evening : DateTime
evening = record { instant = 2000; aware = true; offset = pos 0 }

abbrev pub christmas_eve : Date
christmas_eve = date 2020 12 24

abbrev pub an_order : OrderState → Order
an_order s = record {
  order_id = name;
  instrument_id = 7;
  side = buy;
  order_type = market;
  quantity = dec 100 0;
  state = s;
  created_at = morning;
  limit_price = none;
  state_updated_at = none;
}

abbrev pub a_bar : MarketBar
a_bar = record {
  instrument_id = 7;
  session = christmas_eve;
  observed_at = morning;
  open_price = dec 5000 2;
  high = dec 5100 2;
  low = dec 4900 2;
  close = dec 5050 2;
  volume = dec 600 0;
  semantic = raw;
  source = name;
}

abbrev pub a_broker : SimulatedBroker
a_broker = record {
  slippage_model = record { slippage_bps = dec 50 1 };
  fee_model = record { commission_per_share = dec 1 2; min_commission = dec 1 0 };
  participation_model = some (record { max_participation_pct = dec 10 2 });
}

abbrev pub a_fill : Fill
a_fill = record {
  fill_id = name;
  order_id = name;
  instrument_id = 7;
  filled_at = evening;
  quantity = dec 60 0;
  price = dec 500250 4;
  fees = dec 100 2;
  source = name;
}

abbrev pub a_dividend : CorporateAction
a_dividend = record {
  instrument_id = 7;
  action_type = dividend;
  effective_at = christmas_eve;
  announced_at = morning;
  available_at = morning;
  ratio = none;
  cash_amount = some (dec 50 2);
  source = name;
}
