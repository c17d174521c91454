-- ===== src/Data/Adjust.antt =====
-- The adjustment of bars for splits and dividends (compute_cumulative_adjustment_factors and
-- apply_adjustments of quantlab/data/corporate_actions.py).
pub mod Reference
use quantlab_v.Prelude.{
  ℕ, zero, suc, Bool, true, false, not, ◌&&◌, Option, none, some, List, [], ◌∷◌, ◌++◌, map,
  if◌then◌else◌, get_or, get_elem?, filter, Text,
}
use mathlib.Core.List.{reverse}
use quantlab_v.Prelude.Result.{Result, ok, ◌>>=◌}
use quantlab_v.Prelude.Sort.{sort_by}
use quantlab_v.Prelude.Table.{Table, find, put}
use quantlab_v.Time.{Date, DateTime, same_date, date_lt, earlier}
use quantlab_v.Decimal
use quantlab_v.Decimal.{Decimal, dec}
use quantlab_v.Domain.Market.{
  MarketBar, total_return_adjusted, CorporateActionType, split, dividend, CorporateAction, new_bar,
}

-- An effective date, with the factors of earlier prices and volumes.
pub record ActionFactor : Type 0 where
  pub effective_at : Date
  pub price : Decimal
  pub volume : Decimal

-- The factors of a bar: of its prices and of its volume.
abbrev pub Factor : Type 0
Factor = Decimal × Decimal

abbrev pub one : Decimal
one = dec 1 0

-- `sorted(bars, key=lambda b: b.session)`
abbrev pub by_session : MarketBar → MarketBar → Bool
by_session a b = date_lt a.session b.session

-- `as_of is None or a.available_at <= as_of`
abbrev pub is_available : Option DateTime → CorporateAction → Bool
is_available none a = true
is_available (some t) a = not (earlier t a.available_at)

-- the actions that are available and are effective after the first bar
abbrev pub is_valid_action : Option DateTime → MarketBar → CorporateAction → Bool
is_valid_action as_of first a = is_available as_of a && date_lt first.session a.effective_at

-- `bisect_left` of the standard library, on a sorted list: how many dates are before the given one
unfoldable pub bisect_left : List Date → Date → ℕ
bisect_left [] d = 0
bisect_left (x ∷ xs) d = if date_lt x d then suc (bisect_left xs d) else 0

-- the close of the last bar before the date
abbrev pub close_at : ℕ → List MarketBar → Option Decimal
close_at zero bars = none
close_at (suc k) bars = elim (get_elem? bars k) [ none ↦ none | some b ↦ some b.close ]

unfoldable pub prior_close : Date → List MarketBar → Option Decimal
unfolding bisect_left
prior_close eff bars = close_at (bisect_left (map (λ (b : MarketBar). b.session) bars) eff) bars

-- what a dividend leaves of a price
abbrev pub dividend_factor : Option Decimal → Decimal → Result Decimal
dividend_factor none cash = ok one
dividend_factor (some close) cash =
    if Decimal.lt cash close then Decimal.div (Decimal.sub close cash) close else ok one

abbrev pub split_factor : Option Decimal → Result Factor
split_factor none = ok (one, one)
split_factor (some ratio) = do p ← Decimal.div one ratio; ok (p, ratio)

abbrev pub payout_factor : List MarketBar → Date → Option Decimal → Result Factor
payout_factor bars eff none = ok (one, one)
payout_factor bars eff (some cash) = do p ← dividend_factor (prior_close eff bars) cash; ok (p, one)

-- the factors of one action, over the sorted bars
abbrev pub factors_of : List MarketBar → CorporateAction → CorporateActionType → Result Factor
factors_of bars a split = split_factor a.ratio
factors_of bars a dividend = payout_factor bars a.effective_at a.cash_amount
factors_of bars a _ = ok (one, one)

unfoldable pub action_factors : List MarketBar → List CorporateAction → Result (List ActionFactor)
unfolding prior_close
action_factors bars [] = ok []
action_factors bars (a ∷ actions) = do
  f ← factors_of bars a a.action_type
  rest ← action_factors bars actions
  ok (record { effective_at = a.effective_at; price = f.0; volume = f.1 } ∷ rest)

-- `action_factors.sort(key=lambda item: item[0])`
abbrev pub by_date : ActionFactor → ActionFactor → Bool
by_date f g = date_lt f.effective_at g.effective_at

-- `p_acc *= p_fac; v_acc *= v_fac`
abbrev pub times : Factor → ActionFactor → Factor
times acc f = (Decimal.mul acc.0 f.price, Decimal.mul acc.1 f.volume)

-- the inner loop, over the actions that are left, the latest first
unfoldable pub advance : Date → List ActionFactor → Factor → List ActionFactor × Factor
advance s [] acc = ([], acc)
advance s (f ∷ fs) acc = elim (date_lt s f.effective_at) [
  | true ↦ advance s fs (times acc f)
  | false ↦ (f ∷ fs, acc)
]

-- the outer loop, over the bars, the newest first
unfoldable pub accumulate :
    List MarketBar → List ActionFactor → Factor → Table Date Factor → Table Date Factor
unfolding advance
accumulate [] fs acc table = table
accumulate (b ∷ bars) fs acc table =
    let next = advance b.session fs acc in
    accumulate bars next.0 next.1 (put same_date b.session next.1 table)

-- the factors of the valid actions, by date
abbrev pub sorted_factors :
    List MarketBar → List CorporateAction → Option DateTime → Result (List ActionFactor)
sorted_factors [] actions as_of = ok []
sorted_factors (first ∷ bars) actions as_of = do
  fs ← action_factors (first ∷ bars) (filter (is_valid_action as_of first) actions)
  ok (sort_by by_date fs)

-- `compute_cumulative_adjustment_factors`; with no bars, the loop adds nothing
unfoldable pub compute_cumulative_adjustment_factors :
    List MarketBar → List CorporateAction → Option DateTime → Result (Table Date Factor)
unfolding action_factors accumulate
compute_cumulative_adjustment_factors bars actions as_of = do
  let sorted_bars = sort_by by_session bars
  fs ← sorted_factors sorted_bars actions as_of
  ok (accumulate (reverse sorted_bars) (reverse fs) (one, one) [])

-- `max(Decimal(f"{price:.6f}"), Decimal("0.000001"))`
abbrev pub adjusted_price : Decimal → Decimal → Decimal
adjusted_price price f = Decimal.max_of (Decimal.quantize 6 (Decimal.mul price f)) (dec 1 6)

abbrev pub adjusted_volume : Decimal → Decimal → Decimal
adjusted_volume volume f = Decimal.max_of (Decimal.quantize 4 (Decimal.mul volume f)) (dec 1 4)

-- `":adjusted"`
abbrev pub adjusted_mark : Text
adjusted_mark = b':' ∷ b'a' ∷ b'd' ∷ b'j' ∷ b'u' ∷ b's' ∷ b't' ∷ b'e' ∷ b'd' ∷ []

-- one adjusted bar, before its checks
abbrev pub adjusted : MarketBar → Factor → MarketBar
adjusted bar f =
    let adj_open = adjusted_price bar.open_price f.0 in
    let adj_close = adjusted_price bar.close f.0 in
    let raw_high = adjusted_price bar.high f.0 in
    let raw_low = adjusted_price bar.low f.0 in
    let adj_high =
      Decimal.max_of (Decimal.max_of (Decimal.max_of raw_high adj_open) raw_low) adj_close in
    let adj_low =
      Decimal.min_of (Decimal.min_of (Decimal.min_of raw_low adj_open) adj_high) adj_close in
    record bar {
      open_price = adj_open;
      high = adj_high;
      low = adj_low;
      close = adj_close;
      volume = adjusted_volume bar.volume f.1;
      semantic = total_return_adjusted;
      source = bar.source ++ adjusted_mark;
    }

unfoldable pub adjust_bars : Table Date Factor → List MarketBar → Result (List MarketBar)
adjust_bars factors [] = ok []
adjust_bars factors (bar ∷ bars) = do
  b ← new_bar (adjusted bar (get_or (find same_date bar.session factors) (one, one)))
  rest ← adjust_bars factors bars
  ok (b ∷ rest)

-- `apply_adjustments`
unfoldable pub apply_adjustments :
    List MarketBar → List CorporateAction → Option DateTime → Result (List MarketBar)
unfolding compute_cumulative_adjustment_factors adjust_bars
apply_adjustments bars actions as_of = do
  factors ← compute_cumulative_adjustment_factors bars actions as_of
  adjust_bars factors (sort_by by_session bars)
