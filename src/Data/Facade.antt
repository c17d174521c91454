-- ===== src/Data/Facade.antt =====
-- The facade's market bars (PointInTimeDataFacade of quantlab/data/pit_facade.py), with its cache of
-- adjusted bars, over the stores of bars and corporate actions. The method `datetime.date` is a
-- parameter. Its other methods pass a call on to a store.
pub mod Current
pub mod PointInTime
use quantlab_v.Prelude.{
  Bool, true, false, not, ◌&&◌, ◌||◌, Option, none, some, [], ◌∷◌, ◌==◌, if◌then◌else◌, filter,
}
use quantlab_v.Prelude.Result.{Result, ok, err, ◌>>=◌}
use quantlab_v.Prelude.Dict.{Dict, lookup, insert}
use quantlab_v.Time.{Date, DateTime, date_lt, date_le, earlier}
use quantlab_v.Domain.Identity.{InstrumentId}
use quantlab_v.Domain.Market.{MarketBar, raw}
use quantlab_v.Data.Actions.{Actions, SqlCorporateActionStore, get_actions}
use quantlab_v.Data.Adjust.{apply_adjustments}
use quantlab_v.Data.Bars.{Bars, MarketBarStore, get_bars}

-- the range and the bars of an entry
pub record CachedBars : Type 0 where
  pub start_date : Date
  pub end_date : Date
  pub bars : Bars

pub record PointInTimeDataFacade : Type 0 where
  pub bar_store : MarketBarStore
  pub action_store : SqlCorporateActionStore
  pub adjusted_as_of : Option DateTime
  pub adjusted_cache : Dict CachedBars

-- `a == b`, for moments that carry a zone
abbrev pub same_moment : Option DateTime → DateTime → Bool
same_moment none t = false
same_moment (some s) t = s.instant == t.instant

abbrev pub is_within : Date → Date → MarketBar → Bool
is_within start end b = date_le start b.session && date_le b.session end

-- `b.observed_at <= as_of`
abbrev pub is_observed : DateTime → MarketBar → Bool
is_observed as_of b = not (earlier as_of b.observed_at)

-- an entry that covers the range, cut to it
abbrev pub slice_entry : Date → Date → Option CachedBars → Option Bars
slice_entry start end none = none
slice_entry start end (some c) =
    if date_lt start c.start_date || date_lt c.end_date end
    then none
    else some (filter (is_within start end) c.bars)

-- `_cached_adjusted`
unfoldable pub cached_adjusted :
    InstrumentId → Date → Date → DateTime → PointInTimeDataFacade → Option Bars
cached_adjusted i start end as_of f =
    if same_moment f.adjusted_as_of as_of
    then slice_entry start end (lookup i f.adjusted_cache)
    else none

-- the cache is dropped when the moment changes
abbrev pub move_to : DateTime → PointInTimeDataFacade → PointInTimeDataFacade
move_to as_of f =
    if same_moment f.adjusted_as_of as_of
    then f
    else record f { adjusted_as_of = some as_of; adjusted_cache = [] }

abbrev pub covers : Date → Date → Option CachedBars → Bool
covers start end none = false
covers start end (some c) = date_le c.start_date start && date_le end c.end_date

-- `_store_adjusted`
unfoldable pub store_adjusted :
    InstrumentId → Date → Date → DateTime → Bars → PointInTimeDataFacade → PointInTimeDataFacade
store_adjusted i start end as_of bars f =
    let g = move_to as_of f in
    if covers start end (lookup i g.adjusted_cache) then g else record g {
      adjusted_cache =
          insert i (record { start_date = start; end_date = end; bars = bars }) g.adjusted_cache;
    }

abbrev pub is_empty : Bars → Bool
is_empty [] = true
is_empty (b ∷ bars) = false

module _ (date_of : DateTime → Date) where
  abbrev pub keep_adjusted :
      InstrumentId
      → Date
      → Date
      → DateTime
      → Result Bars
      → PointInTimeDataFacade
      → Result Bars × PointInTimeDataFacade
  keep_adjusted i start end as_of (err e) f = (err e, f)
  keep_adjusted i start end as_of (ok bars) f = (ok bars, store_adjusted i start end as_of bars f)

  -- the observed bars, adjusted for the actions that the store has up to the moment
  unfoldable pub adjust_observed :
      InstrumentId
      → Date
      → Date
      → DateTime
      → Bars
      → PointInTimeDataFacade
      → Result Bars × PointInTimeDataFacade
  unfolding store_adjusted
  adjust_observed i start end as_of valid_raw f =
      let (actions, store) = get_actions i (some start) (some (date_of as_of)) f.action_store in
      keep_adjusted i start end as_of
        (actions >>= λ (a : Actions). apply_adjustments valid_raw a (some as_of))
        (record f { action_store = store })

  abbrev pub fetch_observed :
      InstrumentId
      → Date
      → Date
      → DateTime
      → Bool
      → Result Bars
      → PointInTimeDataFacade
      → Result Bars × PointInTimeDataFacade
  fetch_observed i start end as_of want (err e) f = (err e, f)
  fetch_observed i start end as_of want (ok raw_bars) f =
      let valid_raw = filter (is_observed as_of) raw_bars in
      if not want || is_empty valid_raw
      then (ok valid_raw, f)
      else adjust_observed i start end as_of valid_raw f

  -- `get_market_bars`
  unfoldable pub get_market_bars :
      InstrumentId
      → Date
      → Date
      → DateTime
      → Bool
      → PointInTimeDataFacade
      → Result Bars × PointInTimeDataFacade
  unfolding cached_adjusted adjust_observed
  get_market_bars i start end as_of want f =
      elim (if want then cached_adjusted i start end as_of f else none) [
        | some cached ↦ (ok cached, f)
        | none ↦ fetch_observed i start end as_of want (get_bars i start end raw f.bar_store) f
      ]
