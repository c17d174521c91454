-- ===== src/Tests/History.antt =====
-- Point-in-time data.
use quantlab_v.Prelude.{
  ◌≡◌, refl, ◌≢◌, arith, Bool, true, false, ◌&&◌, Option, none, some, List, [], ◌∷◌, ◌==◌,
  if◌then◌else◌, filter, All, Text,
}
use quantlab_v.Prelude.Result.{Result, ok, err}
use quantlab_v.Prelude.Group
use quantlab_v.Prelude.Table
use quantlab_v.Prelude.Table.{Table}
use quantlab_v.Prelude.Sort.{IsSorted, sort_by, insert_sorted}
use quantlab_v.Time
use quantlab_v.Prelude.Int.{negsuc, ◌+ℤ◌}
use quantlab_v.Time.{Date, DateTime, date, same_date, earlier, iso_lt, wall, offset_rank}
use quantlab_v.Decimal
use quantlab_v.Decimal.{dec}
use quantlab_v.Domain.Identity.{
  InstrumentId, SymbolHistory, require_timezone_aware, require_positive_decimal,
  require_nonnegative_decimal, require_nonempty, is_blank, is_space,
}
use quantlab_v.Domain.Market.{MarketBar, raw, CorporateAction, split, new_bar}
use quantlab_v.Data.Actions.Refinement.{record_call, get_call, run, run_plain, run_refines}
use quantlab_v.Data.Actions.Refinement as Store
use quantlab_v.Data.Adjust.{
  ActionFactor, Factor, by_session, compute_cumulative_adjustment_factors, sorted_factors,
  action_factors, accumulate, advance, prior_close, bisect_left,
}
use quantlab_v.Data.Adjust.Reference.{has_session, factor_after, compute-factors}
use quantlab_v.Data.Bars.{get_bars, write_daily_bars}
use quantlab_v.Data.Bars.RoundTrip.{count, is_wanted, IsValidBar, get_bars-write_daily_bars}
use quantlab_v.Data.Facade.{PointInTimeDataFacade}
use quantlab_v.Data.Facade.PointInTime as Questions
use quantlab_v.Data.Facade.PointInTime.{
  bars_call, action_call, write_call, answers, IsAnswer, answers-point_in_time,
}
use quantlab_v.Data.Fundamentals.{FundamentalValue, new_fundamental, as_of, record_statements}
use quantlab_v.Data.Fundamentals.Latest.{IsStored, IsFuture, as_of-IsAnswer}
use quantlab_v.Data.Fundamentals.Latest as Fundamentals
use quantlab_v.Data.Quality.{
  pass, audit_market_bars, checks_of, has_invalid_price, has_invalid_ohlc, out_of_order, steps_back,
}
use quantlab_v.Data.Quality.Passed.{IsSound, IsChronological, audit_market_bars-passed}
use quantlab_v.Data.Symbols.{
  validate_non_overlapping_history, check_groups, check_sorted, resolve_symbol_in_memory, is_match,
}
use quantlab_v.Data.Symbols.Unambiguous.{resolve-unambiguous}
use quantlab_v.Tests.Data.{name, other_name, morning, evening, christmas_eve, a_bar, a_dividend}

abbrev monday : Date
monday = date 2020 12 28

abbrev a_split : CorporateAction
a_split = record a_dividend {
  action_type = split;
  effective_at = monday;
  ratio = some (dec 2 0);
  cash_amount = none;
}

-- The history is asked for before and after the split is recorded, twice.
abbrev calls : List Store.Call
calls =
    record_call a_dividend
    ∷ get_call 7 none none
    ∷ record_call a_split
    ∷ record_call a_split
    ∷ get_call 7 (some monday) none
    ∷ get_call 8 none none
    ∷ []

run_refines_example :
    let s = run calls (record { rows = []; history_cache = [] }) in
    (s.0 ≡ (run_plain calls []).0) × (s.1.rows ≡ (run_plain calls []).1)
run_refines_example = run_refines calls []

abbrev bars : List MarketBar
bars = record a_bar { session = monday } ∷ a_bar ∷ []

abbrev computed : Result (Table Date Factor)
computed = compute_cumulative_adjustment_factors bars (a_split ∷ []) (some evening)

abbrev is_ok : Result (Table Date Factor) → Bool
is_ok (ok t) = true
is_ok (err e) = false

abbrev table_of : Result (Table Date Factor) → Table Date Factor
table_of (ok t) = t
table_of (err e) = []

table_of_ok : (r : Result (Table Date Factor)) → is_ok r ≡ true → r ≡ ok (table_of r)
table_of_ok (ok t) h = refl
table_of_ok (err e) h = absurd (cc h)

computed_ok : is_ok computed ≡ true
unfolding compute_cumulative_adjustment_factors action_factors prior_close bisect_left accumulate
    advance sort_by insert_sorted Decimal.div Decimal.quotient
computed_ok = refl

compute-factors_example :
    (fs : List ActionFactor) × (sorted_factors
        (sort_by by_session bars)
        (a_split ∷ [])
        (some evening)
      ≡ ok fs)
    × ((s : Date)
        → Table.find same_date s (table_of computed)
          ≡ (if has_session s bars then some (factor_after s fs) else none))
compute-factors_example =
    compute-factors bars (a_split ∷ []) (some evening) (table_of computed)
      (table_of_ok computed computed_ok)

a_bar_valid : IsValidBar a_bar
unfolding new_bar require_timezone_aware require_positive_decimal require_nonnegative_decimal
    require_nonempty is_blank is_space Decimal.lt Decimal.left Decimal.right Decimal.max_of
    Decimal.min_of
a_bar_valid = ((refl, refl), refl)

get_bars-write_daily_bars_example :
    (out : List MarketBar) × (get_bars 7
        (date 2019 12 31)
        monday
        raw
        (write_daily_bars (a_bar ∷ []) [])
      ≡ ok out)
    × IsSorted by_session out
    × ((p : MarketBar → Bool)
        → count p out ≡ count (λ b. p b && is_wanted 7 raw (date 2019 12 31) monday b) (a_bar ∷ []))
get_bars-write_daily_bars_example =
    get_bars-write_daily_bars 7 (date 2019 12 31) monday raw (a_bar ∷ []) (a_bar_valid, tt)

abbrev facade : PointInTimeDataFacade
facade = record {
  bar_store = [];
  action_store = record { rows = []; history_cache = [] };
  adjusted_as_of = none;
  adjusted_cache = [];
}

abbrev on_monday : DateTime → Date
on_monday t = monday

-- The second question is answered from the cache.
abbrev questions : List Questions.Call
questions =
    write_call bars
    ∷ bars_call 7 christmas_eve monday evening true
    ∷ action_call a_split
    ∷ bars_call 7 monday monday evening true
    ∷ bars_call 7 monday monday morning true
    ∷ []

answers-point_in_time_example :
    All (λ a. IsAnswer a.start_date a.end_date a.as_of a.bars) (answers on_monday questions facade)
answers-point_in_time_example = answers-point_in_time on_monday questions facade refl

abbrev statement : DateTime → FundamentalValue
statement t = record {
  instrument_id = 7;
  period_end = christmas_eve;
  filing_date = monday;
  available_at = t;
  metric = name;
  value = dec 5 0;
  is_restatement = false;
  source = name;
}

abbrev as_written : Text → Text
as_written t = t

abbrev statements_held : List FundamentalValue
statements_held =
    record (statement morning) { period_end = date 2020 9 30 } ∷ statement morning ∷ []

statements_held-IsStored : All IsStored statements_held
unfolding new_fundamental require_timezone_aware require_nonempty is_blank is_space
statements_held-IsStored = (((refl, refl), refl), (((refl, refl), refl), tt))

evening-IsFuture : IsFuture morning (statement evening)
evening-IsFuture = ((refl, refl), omega arith)

as_of-IsAnswer_example :
    (r : Option FundamentalValue) × Fundamentals.IsAnswer as_written 7 morning
      (refl, refl)
      name
      none
      statements_held
      r
    × (as_of as_written 7 morning name none statements_held ≡ ok r)
    × (as_of as_written 7 morning name none
          (record_statements as_written (statement evening ∷ []) statements_held)
        ≡ ok r)
as_of-IsAnswer_example =
    as_of-IsAnswer as_written 7 morning (refl, refl) name none (statement evening ∷ [])
      statements_held statements_held-IsStored (evening-IsFuture, tt)

-- Ten in the evening five hours behind UTC is three hours after the next midnight in UTC, and yet its
-- text is the smaller one.
abbrev behind : DateTime
behind = record { instant = 97200000000; aware = true; offset = negsuc 17999999999 }

later_in_time : earlier (record morning { instant = 86400000000 }) behind ≡ true
later_in_time = refl

earlier_by_text : iso_lt behind (record morning { instant = 86400000000 }) ≡ true
unfolding wall offset_rank ◌+ℤ◌
earlier_by_text = refl

audit_ok : (audit_market_bars name (a_bar ∷ []) (some evening)).overall_status ≡ pass
unfolding audit_market_bars checks_of has_invalid_price has_invalid_ohlc out_of_order steps_back
    Group.group_by Group.add_to_group Table.put Table.find Time.weekday Time.to_ordinal
    Time.days_before_month Time.is_leap Decimal.lt Decimal.left Decimal.right Decimal.max_of
    Decimal.min_of
audit_ok = refl

audit_market_bars-passed_example :
    (a_bar ∷ [] ≢ [])
    × All (IsSound (some evening)) (a_bar ∷ [])
    × ((i : InstrumentId) → IsChronological (filter (λ b. b.instrument_id == i) (a_bar ∷ [])))
audit_market_bars-passed_example =
    audit_market_bars-passed name (a_bar ∷ []) (some evening) audit_ok

abbrev history : InstrumentId → Date → Option Date → SymbolHistory
history i from until = record {
  instrument_id = i;
  symbol = name;
  exchange = other_name;
  valid_from = from;
  source = name;
  valid_to = until;
}

-- The symbol passed from one instrument to another.
abbrev histories : List SymbolHistory
histories = history 5 christmas_eve none ∷ history 3 (date 2010 1 1) (some (date 2020 12 23)) ∷ []

histories_ok : validate_non_overlapping_history as_written histories ≡ ok tt
unfolding validate_non_overlapping_history Group.group_by Group.add_to_group Table.put Table.find
    check_groups check_sorted sort_by insert_sorted
histories_ok = refl

resolve-unambiguous_example :
    (i : Option InstrumentId) × (resolve_symbol_in_memory as_written histories name other_name
        monday
      ≡ ok i)
    × All
        (λ h. is_match as_written (name, other_name) monday h ≡ true → i ≡ some h.instrument_id)
        histories
resolve-unambiguous_example =
    resolve-unambiguous as_written histories name other_name monday histories_ok
