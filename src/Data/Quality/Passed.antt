-- ===== src/Data/Quality/Passed.antt =====
-- What a passed audit says of the bars.
use quantlab_v.Prelude.{
  ℕ, ◌≤◌, ◌<◌, ◌≡◌, ◌≢◌, inl, inr, Bool, true, false, Option, none, some, List, [], ◌∷◌, arith,
  ◌==◌, ==→eq, ==_refl, Bool-cases, get_or, filter, All, Text,
}
use quantlab_v.Prelude.Table.{Table, find}
use quantlab_v.Prelude.Group.{group_by, group_at-group_by}
use quantlab_v.Time.{DateTime, date_lt, weekday}
use quantlab_v.Decimal
use quantlab_v.Decimal.{nought}
use quantlab_v.Decimal.Order.{not_lt-max_of, not_lt-min_of}
use quantlab_v.Domain.Identity.{InstrumentId}
use quantlab_v.Domain.Market.{MarketBar}
use quantlab_v.Data.Quality.{
  pass, CheckName, price_positivity, ohlc_integrity, temporal_integrity, calendar_alignment,
  chronological_order, has_invalid_price, has_invalid_ohlc, is_lookahead, is_weekend_bar,
  count_bars, steps_back, out_of_order, check_of, status_of, checks_of, audit_market_bars,
}

-- No bar has the fault.
abbrev pub HasNone : (MarketBar → Bool) → List MarketBar → Type 0
HasNone p bars = All (λ b. p b ≡ false) bars

-- What no bar may lack: positive prices and a volume that is not negative; a high and a low that the
-- other prices do not cross; an observation by the moment of the audit, where one is given; and a
-- session from Monday to Friday.
abbrev pub IsObserved : Option DateTime → MarketBar → Type 0
IsObserved none b = Unit
IsObserved (some t) b = b.observed_at.instant ≤ t.instant

pub record IsSound (as_of : Option DateTime) (b : MarketBar) : Type 0 where
  pub open_positive : Decimal.lt nought b.open_price ≡ true
  pub high_positive : Decimal.lt nought b.high ≡ true
  pub low_positive : Decimal.lt nought b.low ≡ true
  pub close_positive : Decimal.lt nought b.close ≡ true
  pub volume_nonneg : Decimal.lt b.volume nought ≡ false
  pub open_below_high : Decimal.lt b.high b.open_price ≡ false
  pub low_below_high : Decimal.lt b.high b.low ≡ false
  pub close_below_high : Decimal.lt b.high b.close ≡ false
  pub low_below_open : Decimal.lt b.open_price b.low ≡ false
  pub low_below_close : Decimal.lt b.close b.low ≡ false
  pub observed : IsObserved as_of b
  pub weekday_session : weekday b.session < 5

-- No bar is before the bar in front of it.
abbrev pub IsChronological : List MarketBar → Type 0
IsChronological [] = Unit
IsChronological (a ∷ []) = Unit
IsChronological (a ∷ b ∷ bars) = (date_lt b.session a.session ≡ false) × IsChronological (b ∷ bars)

count_bars-zero :
    (p : MarketBar → Bool) (bars : List MarketBar) → count_bars p bars ≡ 0 → HasNone p bars
count_bars-zero p [] h = tt
count_bars-zero p (b ∷ bars) h = elim (Bool-cases (p b)) [
  | inl e ↦ absurd (omega (arith, (rw e at h)))
  | inr e ↦ (e, count_bars-zero p bars (rw e at h))
]

steps_back-zero : (bars : List MarketBar) → steps_back bars ≡ 0 → IsChronological bars
unfolding steps_back
steps_back-zero [] h = tt
steps_back-zero (a ∷ []) h = tt
steps_back-zero (a ∷ b ∷ bars) h = elim (Bool-cases (date_lt b.session a.session)) [
  | inl e ↦ absurd (omega (arith, (rw e at h)))
  | inr e ↦ (e, steps_back-zero (b ∷ bars) (rw e at h))
]

group-IsChronological :
    (i : InstrumentId) (groups : Table InstrumentId (List MarketBar))
    → out_of_order groups ≡ 0
    → IsChronological (get_or (find ◌==◌ i groups) [])
unfolding out_of_order find
group-IsChronological i [] h = tt
group-IsChronological i ((j, bars) ∷ groups) h = elim (Bool-cases (j == i)) [
  | inl e ↦ rw e (steps_back-zero bars (omega arith))
  | inr e ↦ rw e (group-IsChronological i groups (omega arith))
]

is_lookahead-IsObserved :
    (as_of : Option DateTime) (b : MarketBar) → is_lookahead as_of b ≡ false → IsObserved as_of b
is_lookahead-IsObserved none b h = tt
is_lookahead-IsObserved (some t) b h = ground (arith, h)

bar-IsSound :
    (as_of : Option DateTime) (b : MarketBar)
    → has_invalid_price b ≡ false
    → has_invalid_ohlc b ≡ false
    → is_lookahead as_of b ≡ false
    → is_weekend_bar b ≡ false
    → IsSound as_of b
unfolding has_invalid_price has_invalid_ohlc
bar-IsSound as_of b p o l w =
    let (below_two, close_high) =
      not_lt-max_of b.high (Decimal.max_of b.open_price b.low) b.close (ground (arith, o)) in
    let (open_high, low_high) = not_lt-max_of b.high b.open_price b.low below_two in
    let (above_two, low_close) =
      not_lt-min_of b.low (Decimal.min_of b.open_price b.high) b.close (ground (arith, o)) in
    let (low_open, high_low) = not_lt-min_of b.low b.open_price b.high above_two in
    record {
      open_positive = ground (arith, p);
      high_positive = ground (arith, p);
      low_positive = ground (arith, p);
      close_positive = ground (arith, p);
      volume_nonneg = ground (arith, p);
      open_below_high = open_high;
      low_below_high = low_high;
      close_below_high = close_high;
      low_below_open = low_open;
      low_below_close = low_close;
      observed = is_lookahead-IsObserved as_of b l;
      weekday_session = ground (arith, w);
    }

bars-IsSound :
    (as_of : Option DateTime) (bars : List MarketBar)
    → HasNone has_invalid_price bars
    → HasNone has_invalid_ohlc bars
    → HasNone (is_lookahead as_of) bars
    → HasNone is_weekend_bar bars
    → All (IsSound as_of) bars
bars-IsSound as_of [] p o l w = tt
bars-IsSound as_of (b ∷ bars) p o l w =
    (bar-IsSound as_of b p.0 o.0 l.0 w.0, bars-IsSound as_of bars p.1 o.1 l.1 w.1)

-- A passed report has no failed check.
all_zero :
    (a b c d e : ℕ) (na nb nc nd ne : CheckName)
    → status_of (check_of na a ∷ check_of nb b ∷ check_of nc c ∷ check_of nd d ∷ check_of ne e ∷ [])
      ≡ pass
    → (a ≡ 0) × (b ≡ 0) × (c ≡ 0) × (d ≡ 0) × (e ≡ 0)
all_zero a b c d e na nb nc nd ne h = ground arith

-- If an audit passes, then there are bars, and each has positive prices and a volume that is not
-- negative, a high and a low that its other prices do not cross, an observation by the moment of the
-- audit, where one is given, and a session from Monday to Friday; and the bars of each instrument
-- stand in the order of their sessions.
pub audit_market_bars-passed :
    (dataset_id : Text) (bars : List MarketBar) (as_of : Option DateTime)
    → (audit_market_bars dataset_id bars as_of).overall_status ≡ pass
    → (bars ≢ [])
      × All (IsSound as_of) bars
      × ((i : InstrumentId)
          → IsChronological (filter (λ (b : MarketBar). b.instrument_id == i) bars))
unfolding audit_market_bars checks_of find
audit_market_bars-passed dataset_id [] as_of h = absurd (cc h)
audit_market_bars-passed dataset_id (b ∷ bars) as_of h =
    let all : List MarketBar = b ∷ bars in
    let key = λ (x : MarketBar). x.instrument_id in
    let zero_counts =
      all_zero (count_bars has_invalid_price all) (count_bars has_invalid_ohlc all)
        (count_bars (is_lookahead as_of) all) (count_bars is_weekend_bar all)
        (out_of_order (group_by ◌==◌ key all [])) price_positivity ohlc_integrity temporal_integrity
        calendar_alignment chronological_order h in
    (
      (λ e. cc e),
      bars-IsSound as_of all (count_bars-zero has_invalid_price all zero_counts.0)
          (count_bars-zero has_invalid_ohlc all zero_counts.1)
          (count_bars-zero (is_lookahead as_of) all zero_counts.2)
          (count_bars-zero is_weekend_bar all zero_counts.3),
      λ i.
          rw (group_at-group_by ◌==◌ key ==_refl ==→eq i all []) at
            (group-IsChronological i (group_by ◌==◌ key all []) zero_counts.4),
    )
