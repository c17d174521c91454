-- ===== src/Domain/Market.antt =====
-- Daily bars and corporate actions (quantlab/domain/market.py, quantlab/domain/corporate_actions.py).
use quantlab_v.Prelude.{Option, Text}
use quantlab_v.Prelude.Result.{
  ◌>>◌, Result, ok, raise_if, high_too_low, low_too_high, available_before_announced,
}
use quantlab_v.Time.{Date, DateTime, earlier}
use quantlab_v.Decimal
use quantlab_v.Decimal.{Decimal}
use quantlab_v.Domain.Identity.{
  InstrumentId, require_nonempty, require_timezone_aware, require_nonnegative_decimal,
  require_positive_decimal, if_some,
}

-- `ADJUSTED` is an alias of `TOTAL_RETURN_ADJUSTED`.
pub data BarPriceSemantic : Type 0 where
  raw total_return_adjusted : BarPriceSemantic

pub record MarketBar : Type 0 where
  pub instrument_id : InstrumentId
  pub session : Date
  pub observed_at : DateTime
  pub open_price : Decimal
  pub high : Decimal
  pub low : Decimal
  pub close : Decimal
  pub volume : Decimal
  pub semantic : BarPriceSemantic
  pub source : Text

-- `MarketBar.__post_init__`
unfoldable pub new_bar : MarketBar → Result MarketBar
new_bar b = do
  require_timezone_aware b.observed_at
  require_positive_decimal b.open_price
  require_positive_decimal b.high
  require_positive_decimal b.low
  require_positive_decimal b.close
  require_nonnegative_decimal b.volume
  raise_if (Decimal.lt b.high (Decimal.max_of (Decimal.max_of b.open_price b.low) b.close))
      high_too_low
  raise_if (Decimal.lt (Decimal.min_of (Decimal.min_of b.open_price b.high) b.close) b.low)
      low_too_high
  require_nonempty b.source
  ok b

pub data CorporateActionType : Type 0 where
  split dividend symbol_change merger spinoff delisting : CorporateActionType

pub record CorporateAction : Type 0 where
  pub instrument_id : InstrumentId
  pub action_type : CorporateActionType
  pub effective_at : Date
  pub announced_at : DateTime
  pub available_at : DateTime
  pub ratio : Option Decimal
  pub cash_amount : Option Decimal
  pub source : Text

-- `CorporateAction.__post_init__`
unfoldable pub new_action : CorporateAction → Result CorporateAction
new_action a = do
  require_timezone_aware a.announced_at
  require_timezone_aware a.available_at
  if_some a.ratio require_positive_decimal
  if_some a.cash_amount require_positive_decimal
  raise_if (earlier a.available_at a.announced_at) available_before_announced
  require_nonempty a.source
  ok a
