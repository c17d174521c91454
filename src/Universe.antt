-- ===== src/Universe.antt =====
-- The tradable universe (quantlab/universe: membership.py, etf.py, liquidity.py). The method
-- `str.upper`, the date so many days before a date, and `statistics.median` are parameters. Dates
-- and bars are those of the instruments and of the store of bars.
pub mod Members
use quantlab_v.Prelude.{
  ℕ, ◌*◌, min, Bool, true, false, ◌&&◌, Option, none, some, List, [], ◌∷◌, map, ltb, if◌then◌else◌,
  get_or, length, filter, any, contains, Text, text_eq,
}
use quantlab_v.Prelude.Result.{Result, ok, ◌>>=◌}
use quantlab_v.Prelude.Dict.{Dict, insert}
use quantlab_v.Prelude.Sort.{sort_by}
use quantlab_v.Time.{Date, date_le}
use quantlab_v.Decimal
use quantlab_v.Decimal.{Decimal}
use quantlab_v.Domain.Identity.{InstrumentId, Instrument, InstrumentType, equity, etf}
use quantlab_v.Domain.Market.{MarketBar, raw}
use quantlab_v.Data.Bars.{Bars, MarketBarStore, get_bars}

pub record UniverseRule : Type 0 where
  pub allowed_types : List InstrumentType
  pub min_median_dollar_volume : Option Decimal
  pub liquidity_lookback_days : ℕ
  pub exchanges : List Text

pub record UniverseEngine : Type 0 where
  pub bar_store : Option MarketBarStore
  pub instruments : Option (List Instrument)

abbrev pub same_type : InstrumentType → InstrumentType → Bool
same_type equity equity = true
same_type etf etf = true
same_type _ _ = false

-- `InstrumentTypeFilter.allow`
abbrev pub allow : List InstrumentType → Instrument → Bool
allow allowed_types inst = any (same_type inst.instrument_type) allowed_types

-- `inst.active_to is None or as_of <= inst.active_to`
abbrev pub not_ended : Option Date → Date → Bool
not_ended none d = true
not_ended (some e) d = date_le d e

abbrev pub is_active : Date → Instrument → Bool
is_active as_of inst = date_le inst.active_from as_of && not_ended inst.active_to as_of

-- `_get_active_instruments`
unfoldable pub get_active_instruments : Date → UniverseEngine → List Instrument
get_active_instruments as_of e = filter (is_active as_of) (get_or e.instruments [])

-- the instruments that are given, or those of the engine
abbrev pub source_instruments : Option (List Instrument) → UniverseEngine → List Instrument
source_instruments (some candidates) e = candidates
source_instruments none e = get_or e.instruments []

-- `calculate_median_dollar_volume`
unfoldable pub calculate_median_dollar_volume :
    (List Decimal → Result Decimal) → ℕ → Bars → Result (Option Decimal)
calculate_median_dollar_volume median min_bar_count bars =
    if ltb (length bars) min_bar_count then ok none else (do
      med ← median (map (λ (b : MarketBar). Decimal.mul b.close b.volume) bars)
      ok (some med))

abbrev pub is_liquid : Decimal → Option Decimal → Bool
is_liquid least none = false
is_liquid least (some med) = Decimal.le least med

-- `filter_liquid`: the set is the list of its members
unfoldable pub filter_liquid :
    (List Decimal → Result Decimal) → Decimal → ℕ → Dict Bars → Result (List InstrumentId)
unfolding calculate_median_dollar_volume
filter_liquid median least min_bar_count [] = ok []
filter_liquid median least min_bar_count ((i, bars) ∷ rest) = do
  med ← calculate_median_dollar_volume median min_bar_count bars
  liquid ← filter_liquid median least min_bar_count rest
  ok (if is_liquid least med then i ∷ liquid else liquid)

-- the bars of each candidate
unfoldable pub read_bars :
    Date → Date → MarketBarStore → List Instrument → Dict Bars → Result (Dict Bars)
read_bars start end store [] read = ok read
read_bars start end store (inst ∷ insts) read = do
  bars ← get_bars inst.instrument_id start end raw store
  read_bars start end store insts (insert inst.instrument_id bars read)

module _ (upper : Text → Text) (days_before : Date → ℕ → Date)
    (median : List Decimal → Result Decimal) where
  -- `exchanges_upper and inst.exchange.upper() not in exchanges_upper`
  abbrev pub is_on : List Text → Instrument → Bool
  is_on [] inst = true
  is_on (e ∷ exchanges) inst =
      any (λ (x : Text). text_eq (upper x) (upper inst.exchange)) (e ∷ exchanges)

  -- the three filters of the loop
  abbrev pub is_candidate : UniverseRule → Date → Instrument → Bool
  is_candidate rules as_of inst =
      is_active as_of inst && allow rules.allowed_types inst && is_on rules.exchanges inst

  -- the filter by liquidity, where there is a least volume and a store
  unfoldable pub keep_liquid :
      UniverseRule
      → Date
      → Option Decimal
      → Option MarketBarStore
      → List Instrument
      → Result (List Instrument)
  unfolding filter_liquid read_bars
  keep_liquid rules as_of (some least) (some store) candidates = do
    let start = days_before as_of (rules.liquidity_lookback_days * 2)
    bars_by_inst ← read_bars start as_of store candidates []
    liquid ← filter_liquid median least (min 5 rules.liquidity_lookback_days) bars_by_inst
    ok (filter (λ (c : Instrument). contains c.instrument_id liquid) candidates)
  keep_liquid rules as_of _ _ candidates = ok candidates

  -- `get_tradable_universe`
  unfoldable pub get_tradable_universe :
      Date → UniverseRule → Option (List Instrument) → UniverseEngine → Result (List InstrumentId)
  unfolding keep_liquid
  get_tradable_universe as_of rules candidate_instruments e = do
    let candidates = filter (is_candidate rules as_of) (source_instruments candidate_instruments e)
    kept ← keep_liquid rules as_of rules.min_median_dollar_volume e.bar_store candidates
    ok (sort_by ltb (map (λ (c : Instrument). c.instrument_id) kept))
