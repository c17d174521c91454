-- ===== src/Data/Quality.antt =====
-- The audit of the quality of bars (quantlab/data/quality.py). The name of a check is a constructor,
-- its message is left out, and the confidence, which the code rounds to two places, is in hundredths.
pub mod Passed
use quantlab_v.Prelude.{
  ℕ, ◌+◌, ◌*◌, ◌/◌, Bool, true, false, ◌||◌, Option, none, some, List, [], ◌∷◌, leb, ◌==◌,
  if◌then◌else◌, length, filter, any, Text,
}
use quantlab_v.Prelude.Table.{Table}
use quantlab_v.Prelude.Group.{group_by}
use quantlab_v.Time.{DateTime, date_lt, earlier, weekday}
use quantlab_v.Decimal
use quantlab_v.Decimal.{Decimal, nought}
use quantlab_v.Domain.Identity.{InstrumentId}
use quantlab_v.Domain.Market.{MarketBar}

pub data CheckStatus : Type 0 where
  pass warn fail : CheckStatus

pub data CheckName : Type 0 where
  non_empty price_positivity ohlc_integrity temporal_integrity : CheckName
  calendar_alignment chronological_order : CheckName

-- with the count of its details
pub record DataQualityCheck : Type 0 where
  pub name : CheckName
  pub status : CheckStatus
  pub invalid_count : ℕ

pub record QualityReport : Type 0 where
  pub dataset_id : Text
  pub overall_status : CheckStatus
  pub checks : List DataQualityCheck
  pub confidence_hundredths : ℕ

-- `bar.open <= 0 or ... or bar.volume < 0`
unfoldable pub has_invalid_price : MarketBar → Bool
has_invalid_price b =
    Decimal.le b.open_price nought
    || Decimal.le b.high nought
    || Decimal.le b.low nought
    || Decimal.le b.close nought
    || Decimal.lt b.volume nought

-- `bar.high < max(...) or bar.low > min(...)`
unfoldable pub has_invalid_ohlc : MarketBar → Bool
has_invalid_ohlc b =
    Decimal.lt b.high (Decimal.max_of (Decimal.max_of b.open_price b.low) b.close)
    || Decimal.lt (Decimal.min_of (Decimal.min_of b.open_price b.high) b.close) b.low

-- `as_of is not None and bar.observed_at > as_of`
abbrev pub is_lookahead : Option DateTime → MarketBar → Bool
is_lookahead none b = false
is_lookahead (some t) b = earlier t b.observed_at

abbrev pub is_weekend_bar : MarketBar → Bool
is_weekend_bar b = leb 5 (weekday b.session)

-- the number of bars with a fault
abbrev pub count_bars : (MarketBar → Bool) → List MarketBar → ℕ
count_bars p bars = length (filter p bars)

-- the steps back among the bars of one instrument
unfoldable pub steps_back : List MarketBar → ℕ
steps_back [] = 0
steps_back (a ∷ []) = 0
steps_back (a ∷ b ∷ bars) =
    let rest = steps_back (b ∷ bars) in if date_lt b.session a.session then rest + 1 else rest

unfoldable pub out_of_order : Table InstrumentId (List MarketBar) → ℕ
unfolding steps_back
out_of_order [] = 0
out_of_order ((i, bars) ∷ groups) = steps_back bars + out_of_order groups

abbrev pub check_of : CheckName → ℕ → DataQualityCheck
check_of name count = record {
  name = name;
  status = if count == 0 then pass else fail;
  invalid_count = count;
}

abbrev pub is_status : CheckStatus → CheckStatus → Bool
is_status pass pass = true
is_status warn warn = true
is_status fail fail = true
is_status _ _ = false

abbrev pub has_status : CheckStatus → List DataQualityCheck → Bool
has_status s checks = any (λ (c : DataQualityCheck). is_status c.status s) checks

abbrev pub status_of : List DataQualityCheck → CheckStatus
status_of checks =
    if has_status fail checks then fail else if has_status warn checks then warn else pass

abbrev pub passed_count : List DataQualityCheck → ℕ
passed_count checks = length (filter (λ (c : DataQualityCheck). is_status c.status pass) checks)

abbrev pub report_of : Text → List DataQualityCheck → QualityReport
report_of dataset_id checks = record {
  dataset_id = dataset_id;
  overall_status = status_of checks;
  checks = checks;
  confidence_hundredths = passed_count checks * 100 / length checks;
}

-- the five checks
unfoldable pub checks_of : List MarketBar → Option DateTime → List DataQualityCheck
unfolding has_invalid_price has_invalid_ohlc out_of_order
checks_of bars as_of =
    check_of price_positivity (count_bars has_invalid_price bars)
    ∷ check_of ohlc_integrity (count_bars has_invalid_ohlc bars)
    ∷ check_of temporal_integrity (count_bars (is_lookahead as_of) bars)
    ∷ check_of calendar_alignment (count_bars is_weekend_bar bars)
    ∷ check_of chronological_order
        (out_of_order (group_by ◌==◌ (λ (b : MarketBar). b.instrument_id) bars []))
    ∷ []

-- `audit_market_bars`
unfoldable pub audit_market_bars : Text → List MarketBar → Option DateTime → QualityReport
unfolding checks_of
audit_market_bars dataset_id [] as_of = record {
  dataset_id = dataset_id;
  overall_status = warn;
  checks = record { name = non_empty; status = warn; invalid_count = 0 } ∷ [];
  confidence_hundredths = 50;
}
audit_market_bars dataset_id (b ∷ bars) as_of = report_of dataset_id (checks_of (b ∷ bars) as_of)
