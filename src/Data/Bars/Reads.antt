-- ===== src/Data/Bars/Reads.antt =====
-- What is read from the store of bars: rows of the instrument in the range.
use quantlab_v.Prelude.{
  ℕ, zero, suc, ◌+◌, ◌-◌, ◌≡◌, inl, inr, Bool, true, [], ◌∷◌, Bool-cases, filter, All, All-append,
}
use mathlib.Core.Path.{subst}
use quantlab_v.Prelude.Result.{ok, >>=-eq-ok, ok-injective, raise_if, high_too_low, low_too_high}
use quantlab_v.Prelude.Sort.{sort_by-All}
use quantlab_v.Time.{Date, replace_utc}
use quantlab_v.Domain.Identity.{
  InstrumentId, require_timezone_aware, require_positive_decimal, require_nonnegative_decimal,
  require_nonempty,
}
use quantlab_v.Decimal
use quantlab_v.Domain.Market.{MarketBar, BarPriceSemantic, new_bar}
use quantlab_v.Data.Adjust.{by_session}
use quantlab_v.Data.Bars.{Bars, MarketBarStore, is_requested, read_years, load_bars, get_bars}

-- The checks of a bar change nothing of it.
pub new_bar-eq : (b c : MarketBar) → new_bar b ≡ ok c → b ≡ c
unfolding new_bar
new_bar-eq b c h0 =
    let (u1, e1, h1) = >>=-eq-ok (require_timezone_aware b.observed_at) _ h0 in
    let (u2, e2, h2) = >>=-eq-ok (require_positive_decimal b.open_price) _ h1 in
    let (u3, e3, h3) = >>=-eq-ok (require_positive_decimal b.high) _ h2 in
    let (u4, e4, h4) = >>=-eq-ok (require_positive_decimal b.low) _ h3 in
    let (u5, e5, h5) = >>=-eq-ok (require_positive_decimal b.close) _ h4 in
    let (u6, e6, h6) = >>=-eq-ok (require_nonnegative_decimal b.volume) _ h5 in
    let (u7, e7, h7) =
      >>=-eq-ok
        (raise_if (Decimal.lt b.high (Decimal.max_of (Decimal.max_of b.open_price b.low) b.close))
          high_too_low)
        _ h6 in
    let (u8, e8, h8) =
      >>=-eq-ok
        (raise_if (Decimal.lt (Decimal.min_of (Decimal.min_of b.open_price b.high) b.close) b.low)
          low_too_high)
        _ h7 in
    let (u9, e9, h9) = >>=-eq-ok (require_nonempty b.source) _ h8 in ok-injective h9

pub load_bars-All :
    (P : MarketBar → Type 0)
    → ((b : MarketBar) → P b → P (record b { observed_at = replace_utc b.observed_at }))
    → (rows out : Bars) → All P rows
    → load_bars rows ≡ ok out
    → All P out
unfolding load_bars
load_bars-All P keep [] out a h = subst (All P) (ok-injective h) tt
load_bars-All P keep (r ∷ rows) out a h =
    let (b, e, k) =
      >>=-eq-ok (new_bar (record r { observed_at = replace_utc r.observed_at })) _ h in
    let (rest, e2, k2) = >>=-eq-ok (load_bars rows) _ k in
    subst (All P) (ok-injective k2)
      (subst P (new_bar-eq _ b e) (keep r a.0), load_bars-All P keep rows rest a.1 e2)

filter-All : (p : MarketBar → Bool) (l : Bars) → All (λ b. p b ≡ true) (filter p l)
filter-All p [] = tt
filter-All p (b ∷ l) = elim (Bool-cases (p b)) [
  | inl e ↦ rw e (e, filter-All p l)
  | inr e ↦ rw e (filter-All p l)
]

read_years-All :
    (i : InstrumentId) (semantic : BarPriceSemantic) (start end : Date) (year n : ℕ)
    (s : MarketBarStore)
    → All (λ b. is_requested i start end b ≡ true) (read_years i semantic start end year n s)
unfolding read_years
read_years-All i semantic start end year zero s = tt
read_years-All i semantic start end year (suc n) s =
    All-append _ _ _ (filter-All (is_requested i start end) _)
      (read_years-All i semantic start end (year + 1) n s)

-- What is read is of the instrument and in the range.
pub get_bars-requested :
    (i : InstrumentId) (start end : Date) (semantic : BarPriceSemantic) (s : MarketBarStore)
    (out : Bars)
    → get_bars i start end semantic s ≡ ok out
    → All (λ b. is_requested i start end b ≡ true) out
unfolding get_bars
get_bars-requested i start end semantic s out h =
    load_bars-All (λ b. is_requested i start end b ≡ true) (λ b k. k) _ out
      (sort_by-All by_session (λ b. is_requested i start end b ≡ true) _
        (read_years-All i semantic start end start.year (end.year + 1 - start.year) s))
      h
